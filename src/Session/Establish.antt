-- ===== src/Session/Establish.antt =====
-- `_run_p3` of smg_primary_server/auth_service.py, the session establishment.
use smg_secure_microgrid.Wire.Frame.{recv_msg, send_msg}
use smg_secure_microgrid.Session.{
  draw, field, str, as_bytes, on_conn, item, send_error, update, log_error, State, raw, Server,
}
use smg_secure_microgrid.Base.Dict.{has_str, Payload}
use smg_secure_microgrid.Crypto.{
  gcm_nonce_size, encrypt_gcm, digest_size, decrypt_gcm, id_size, Library,
}
use smg_secure_microgrid.Base.{
  ◌+◌, Bool, true, false, some, [], ◌∷◌, ◌++◌, if◌then◌else◌, take, drop, Error, runtime, Result,
  err, guard, Bytes, codes, same,
}
use smg_secure_microgrid.Base.Exec.{lift, pure, try, Exec, ◌>>=◌, ◌>>◌}

-- What the first message settles, beside the session's state.
pub record Offer : Type 0 where
  pub prv : Bytes
  pub preinit_bl : Bytes
  pub init_reg : Bytes
  pub rdn1 : Bytes
  pub rdn2 : Bytes
  pub new_id : Bytes
  pub new_key : Bytes

module _ (lib : Library) where
  -- `plain[0:32]`, `plain[32:48]` and the rest
  unfoldable pub init_reg_of : Bytes → Bytes → Bytes → Bytes → Bytes
  init_reg_of plain peer server_id shs_ab =
      let rdn1 = take id_size (drop digest_size plain) in
      let ts = drop (digest_size + id_size) plain in rdn1 ++ (ts ++ (peer ++ (server_id ++ shs_ab)))

  unfoldable pub preinit_of : Bytes → Bytes → Bytes
  preinit_of prv init_reg = lib.h_sha256 (prv ++ lib.h_sha256 init_reg)

  -- `conf_expected`
  unfoldable pub confirmation : Bytes → Bytes → Bytes → Bytes → Bytes
  confirmation key id rdn1 rdn2 = lib.h_sha256 (key ++ (id ++ (rdn1 ++ rdn2)))

  -- `INIT_bl`
  unfoldable pub init_block : Offer → Bytes
  init_block o = lib.h_sha256 (o.prv ++ (o.new_id ++ o.preinit_bl))

  -- The session's identity and key, from the two random values.
  abbrev pub new_offer : Bytes → Bytes → Bytes → Bytes → Bytes → Bytes → Offer
  new_offer prv init_reg plain shs_ab ses_id rdn2 = record {
    prv = prv;
    preinit_bl = preinit_of prv init_reg;
    init_reg = init_reg;
    rdn1 = take id_size (drop digest_size plain);
    rdn2 = rdn2;
    new_id = ses_id;
    new_key = lib.h_sha256 (rdn2 ++ shs_ab);
  }

  -- `ses_reply`
  unfoldable pub reply_to : Offer → Bytes → Bytes → Bytes → Payload
  unfolding encrypt_gcm
  reply_to o nonce preinit_rx shs_ab =
      let plain = o.new_id ++ (o.rdn2 ++ (o.rdn1 ++ preinit_rx)) in
      (codes "type", str (codes "ses_reply"))
      ∷ (codes "SES_cif", raw (encrypt_gcm lib nonce plain shs_ab))
      ∷ []

-- `self._p3_pending`
abbrev pub pending : Offer → Payload
pending o =
    (codes "SES_id", raw o.new_id)
    ∷ (codes "RDN2", raw o.rdn2)
    ∷ (codes "SES_key", raw o.new_key)
    ∷ (codes "PREINIT_bl", raw o.preinit_bl)
    ∷ (codes "INIT_reg", raw o.init_reg)
    ∷ (codes "RDN1_rx", raw o.rdn1)
    ∷ []

-- The two tests of the type of the second message.
unfoldable pub check_conf_type : Payload → Result (Unit {0})
check_conf_type msg =
    if has_str (codes "type") (codes "error") msg
    then err runtime
    else guard (has_str (codes "type") (codes "ses_conf") msg) runtime

module _ (c : Server) where
  -- `ses_init` up to the sending of `ses_reply`
  unfoldable pub offer_session : Payload → Exec (State c) Offer
  unfolding init_reg_of preinit_of decrypt_gcm reply_to item as_bytes send_msg
  offer_session msg = do
    init_v ← lift (item (codes "INIT_cif") msg)
    shs_ab ← field (λ s. s.shs_ab)
    init_cif ← lift (as_bytes init_v)
    plain ← lift (decrypt_gcm c.library init_cif shs_ab)
    peer ← field (λ s. s.peer_id)
    let init_reg = init_reg_of c.library plain peer c.server_id shs_ab
    prv ← field (λ s. s.prv_bl)
    let preinit_bl = preinit_of c.library prv init_reg
    lift (guard (same preinit_bl (take digest_size plain)) runtime)
    ses_id ← draw c id_size
    rdn2 ← draw c id_size
    nonce ← draw c gcm_nonce_size
    let offer = new_offer c.library prv init_reg plain shs_ab ses_id rdn2
    update (λ s. record s { p3_pending = pending offer })
    on_conn (send_msg c.json (reply_to c.library offer nonce (take digest_size plain) shs_ab))
    pure offer

  -- The assignments once the tag is right.
  unfoldable pub finalize : Offer → State c → State c
  unfolding init_block
  finalize o s = record s {
    prv_bl = some (init_block c.library o);
    ses_id = some o.new_id;
    ses_key = some o.new_key;
    session_active = true;
    m_num_expected = 0;
  }

  -- `ses_conf` up to the test of the tag
  unfoldable pub check_conf : Offer → Exec (State c) (Unit {0})
  unfolding confirmation check_conf_type decrypt_gcm recv_msg item as_bytes
  check_conf o = do
    msg ← on_conn (recv_msg c.json 65536)
    lift (check_conf_type msg)
    conf_v ← lift (item (codes "CONF_cif") msg)
    conf_cif ← lift (as_bytes conf_v)
    tag ← lift (decrypt_gcm c.library conf_cif o.new_key)
    lift (guard (same tag (confirmation c.library o.new_key o.new_id o.rdn1 o.rdn2)) runtime)

  unfoldable pub p3_body : Payload → Exec (State c) Bool
  unfolding offer_session check_conf finalize send_msg
  p3_body msg = do
    o ← offer_session msg
    check_conf o
    update (finalize o)
    on_conn (
        send_msg c.json
          ((codes "type", str (codes "ses_conf_ack")) ∷ (codes "SES_id", raw o.new_id) ∷ []))
    update (λ s. record s { trust_score = 80; consecutive_anomalies = 0 })
    pure true

  -- `except Exception`
  unfoldable pub p3_failed : Error → Exec (State c) Bool
  unfolding log_error send_error
  p3_failed e = do update (log_error e); send_error c (codes "P3 failed"); pure false

  unfoldable pub run_p3 : Payload → Exec (State c) Bool
  unfolding p3_body p3_failed
  run_p3 msg = try (p3_body msg) p3_failed
