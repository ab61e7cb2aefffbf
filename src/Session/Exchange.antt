-- ===== src/Session/Exchange.antt =====
-- `_handle_p4` of smg_primary_server/auth_service.py, one data message.
use smg_secure_microgrid.DataStore.{record_reading, get_median_v_bus}
use smg_secure_microgrid.Wire.Frame.{send_msg, send_frame}
use smg_secure_microgrid.Wire.Tlv.{parse_tlv, make_reg_reg}
use smg_secure_microgrid.Base.Dict.{num, insert, Payload}
use smg_secure_microgrid.Session.{
  raw, str, security_error, draw, as_bytes, send_error, field, item, sensor_ok, log_error, update,
  trust_drop_threshold, on_conn, sensor_anomaly, drop_connection, State, update_trust, NodeSession,
  Server, TrustEvent,
}
use smg_secure_microgrid.Numbers.{number, text, Reading, number_or, Arith}
use smg_secure_microgrid.Crypto.{gcm_nonce_size, encrypt_gcm, decrypt_gcm, Library}
use smg_secure_microgrid.Wire.Endian.{unpack}
use smg_secure_microgrid.Base.{
  ℕ, ◌+◌, false, Option, none, some, List, [], ◌∷◌, ◌++◌, ltb, if◌then◌else◌, length, take, drop,
  Error, value, runtime, Result, ok, err, of_option, Bytes, codes, same,
}
use smg_secure_microgrid.Base.Exec.{lift, pure, try, Exec, ◌>>=◌, ◌>>◌}

-- The fields of a `dx_msg`, parsed.
pub record Message : Type 0 where
  pub smg_reg : Bytes
  pub ts_b : Bytes
  pub m_num : ℕ
  pub ts : ℕ
  pub id_a : Bytes
  pub preg_bl : Bytes
  pub a_reg_bl : Bytes

-- `SMG_reg_rx, TS_b, m_b, ID_A, PREG_bl_rx, A_REG_bl = fields` and the two numbers
unfoldable pub read_fields : List Bytes → Result Message
unfolding unpack
read_fields (smg_reg ∷ ts_b ∷ m_b ∷ id_a ∷ preg_bl ∷ a_reg_bl ∷ []) = elim (unpack 4 m_b) [
  | err e ↦ err e
  | ok m_num ↦ elim (unpack 8 ts_b) [
    | err e ↦ err e
    | ok ts ↦ ok (record {
      smg_reg = smg_reg;
      ts_b = ts_b;
      m_num = m_num;
      ts = ts;
      id_a = id_a;
      preg_bl = preg_bl;
      a_reg_bl = a_reg_bl;
    })
  ]
]
read_fields _ = err value

-- The keys and the head of the chain that a message is checked against.
pub record Keys : Type 0 where
  pub key : Bytes
  pub id : Bytes
  pub prv : Bytes

module _ (lib : Library) where
  -- `PREG_bl`
  unfoldable pub preg_of : Bytes → Bytes → Bytes
  preg_of prv reg_reg = lib.h_sha256 (prv ++ lib.h_sha256 reg_reg)

  -- `B_REG_bl`
  unfoldable pub b_reg_of : Bytes → Bytes → Bytes
  b_reg_of preg_bl ses_key = lib.h_sha256 (preg_bl ++ ses_key)

  -- `REG_bl`
  unfoldable pub reg_of : Bytes → Bytes → Bytes
  reg_of a_reg_bl b_reg_bl = lib.h_sha256 (a_reg_bl ++ b_reg_bl)

module _ (a : Arith) where
  -- The event of a reading, if the other nodes give a median.
  unfoldable pub judge : Option a.Float → Reading a.Float → Result (Option TrustEvent)
  unfolding number_or
  judge none reading = ok none
  judge (some median) reading = elim (number_or a (codes "V_bus") median reading) [
    | ok v ↦
        ok (
          some (if a.lt (a.decimal 80) (a.abs (a.sub v median)) then sensor_anomaly else sensor_ok))
    | err e ↦ err e
  ]

-- The call of `_update_trust`, if any.
abbrev pub apply_event : {F : Type 0} → Option TrustEvent → NodeSession F → NodeSession F
apply_event none s = s
apply_event (some event) s = update_trust event s

module _ (c : Server) where
  -- `SMG_reg_rx[4:4 + header_len]`, decoded and loaded
  unfoldable pub parse_reading : Bytes → Result (Reading c.arith_ops.Float)
  unfolding unpack
  parse_reading smg_reg = elim (unpack 4 (take 4 smg_reg)) [
    | ok header_len ↦ c.loads_reading (take header_len (drop 4 smg_reg))
    | err e ↦ err e
  ]

  -- The inner `try`: the reading is judged and stored.
  unfoldable pub store_reading : Message → Exec (State c) (Unit {0})
  unfolding parse_reading judge update_trust get_median_v_bus record_reading
  store_reading m = do
    parsed ← lift (parse_reading m.smg_reg)
    label ← (λ s. (ok s.node_label, s))
    let named = insert (codes "node") (text label) parsed
    let reading = insert (codes "M_num") (number (c.arith_ops.of_nat m.m_num)) named
    median ← (λ s. (get_median_v_bus c.arith_ops label s.data_store, s))
    event ← lift (judge c.arith_ops median reading)
    update (apply_event event)
    update (λ s.
        let scored =
          insert (codes "trust_score") (number (c.arith_ops.decimal s.trust_score)) reading in
        record s { data_store = record_reading (c.clock s.drawn) label scored s.data_store })

  unfoldable pub take_reading : Message → Exec (State c) (Unit {0})
  unfolding store_reading
  take_reading m = try (store_reading m) (λ e. pure tt)

  -- The test of the hash chain. It gives `B_REG_bl`.
  unfoldable pub verify_chain : Keys → Message → Result Bytes
  unfolding make_reg_reg preg_of b_reg_of
  verify_chain k m = elim (make_reg_reg m.smg_reg m.ts_b m.m_num m.id_a c.server_id k.id) [
    | ok reg_reg ↦
        let preg_bl = preg_of c.library k.prv reg_reg in
        if same preg_bl m.preg_bl then ok (b_reg_of c.library preg_bl k.key) else err runtime
    | err e ↦ err e
  ]

  -- The new head of the chain and its entry.
  unfoldable pub advance : Message → Bytes → State c → State c
  unfolding reg_of
  advance m b_reg_bl s =
      let reg_bl = reg_of c.library m.a_reg_bl b_reg_bl in
      record s {
        prv_bl = some reg_bl;
        m_num_expected = m.m_num + 1;
        chain =
            s.chain
            ++ (record {
              index = length s.chain + 1;
              m_num = m.m_num;
              ts = m.ts;
              reg_bl = reg_bl;
              node = s.node_label;
            }
                ∷ []);
      }

  -- `decrypt_gcm` up to the test of the chain
  unfoldable pub open_message : Payload → Exec (State c) (Message × Bytes)
  unfolding decrypt_gcm parse_tlv read_fields verify_chain item as_bytes
  open_message msg = do
    cif_v ← lift (item (codes "MSG_cif") msg)
    ses_key ← field (λ s. s.ses_key)
    msg_cif ← lift (as_bytes cif_v)
    plain ← lift (decrypt_gcm c.library msg_cif ses_key)
    fields ← lift (of_option runtime (parse_tlv plain 6))
    m ← lift (read_fields fields)
    ses_id ← field (λ s. s.ses_id)
    prv ← field (λ s. s.prv_bl)
    b_reg_bl ← lift (verify_chain (record { key = ses_key; id = ses_id; prv = prv }) m)
    pure (m, b_reg_bl)

  -- `dx_res`
  unfoldable pub result_message : Bytes → Bytes → Bytes → ℕ → Payload
  unfolding encrypt_gcm
  result_message nonce b_reg_bl ses_key m_num =
      (codes "type", str (codes "dx_res"))
      ∷ (codes "RES_cif", raw (encrypt_gcm c.library nonce b_reg_bl ses_key))
      ∷ (codes "M_num", num m_num)
      ∷ []

  unfoldable pub send_result : Message → Bytes → Exec (State c) (Unit {0})
  unfolding result_message send_msg
  send_result m b_reg_bl = do
    ses_key ← field (λ s. s.ses_key)
    nonce ← draw c gcm_nonce_size
    on_conn (send_msg c.json (result_message nonce b_reg_bl ses_key m.m_num))

  unfoldable pub send_setpoint : Exec (State c) (Unit {0})
  unfolding send_frame
  send_setpoint s = elim (c.get_setpoint s.node_label) [
    | none ↦ (ok tt, s)
    | some setpoint ↦ on_conn (send_frame (c.dumps_setpoint setpoint)) s
  ]

  -- The test of the trust after a message, and the count of the messages.
  unfoldable pub finish_p4 : State c → State c
  unfolding drop_connection
  finish_p4 s =
      let s' = if ltb s.trust_score trust_drop_threshold then drop_connection s else s in
      record s' { p4_count = s'.p4_count + 1 }

  -- The rest of the handler, once the chain is verified.
  unfoldable pub accept_message : Message → Bytes → Exec (State c) (Unit {0})
  unfolding advance take_reading send_result send_setpoint finish_p4
  accept_message m b_reg_bl = do
    update (advance m b_reg_bl)
    take_reading m
    send_result m b_reg_bl
    send_setpoint
    update finish_p4

  unfoldable pub p4_body : Payload → Exec (State c) (Unit {0})
  unfolding open_message accept_message
  p4_body msg = do (m, b_reg_bl) ← open_message msg; accept_message m b_reg_bl

  -- `except Exception`: trust is lost, and the session ends in both branches.
  unfoldable pub p4_failed : Error → Exec (State c) (Unit {0})
  unfolding update_trust log_error send_error drop_connection
  p4_failed e = do
    update (update_trust security_error)
    update (log_error e)
    send_error c (codes "P4 failed")
    update (λ s.
        if ltb s.trust_score trust_drop_threshold
        then drop_connection s
        else record s { session_active = false })

  unfoldable pub handle_p4 : Payload → Exec (State c) (Unit {0})
  unfolding p4_body p4_failed
  handle_p4 msg = try (p4_body msg) p4_failed
