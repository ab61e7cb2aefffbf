-- ===== src/Client/Exchange.antt =====
-- The client of smg_primary_server/pc_client.py and the session of
-- smg_primary_server/auth_service.py, one data message.
use smg_secure_microgrid.Crypto.{gcm_nonce_size, encrypt_gcm}
use smg_secure_microgrid.Wire.Tlv.{make_reg_reg}
use smg_secure_microgrid.Client.Formats.{make_msg_reg, smg_normalize, ts_bytes}
use smg_secure_microgrid.Base.Dict.{Payload}
use smg_secure_microgrid.Client.{
  num, raw, str, peer_of, a_reg_block, p4_send, SecureNodeClient, preg_block, World,
}
use smg_secure_microgrid.Base.{
  ◌+◌, ◌≡◌, refl, some, [], ◌∷◌, wrong_type, Result, ok, err, of_option, Bytes, codes,
}
use smg_secure_microgrid.Base.Post.{continue_post, of_option-ok}

module _ (w : World) where
  -- What the client has sent, and with what.
  pub record Sent : Type 0 where
    pub ses_key : Bytes
    pub ses_id : Bytes
    pub prv : Bytes
    pub peer : Bytes
    pub smg_reg : Bytes
    pub ts : Bytes
    pub reg_reg : Bytes
    pub msg_reg : Bytes
    pub nonce : Bytes

  abbrev pub preg : Sent → Bytes
  preg x = preg_block w x.prv x.reg_reg

  abbrev pub a_reg : SecureNodeClient → Sent → Bytes
  a_reg n x = a_reg_block w (preg x) n.key

  abbrev pub message_of : SecureNodeClient → Sent → Payload
  message_of n x =
      (codes "type", str (codes "dx_msg"))
      ∷ (codes "MSG_cif", raw (encrypt_gcm w.library x.nonce x.msg_reg x.ses_key))
      ∷ (codes "ID_A", raw n.id)
      ∷ (codes "M_num", num (n.m_num + 1))
      ∷ []

  -- The client's fields are the ones it used, and every step returned.
  pub record IsSent (sensor_json : Bytes) (n : SecureNodeClient) (x : Sent) : Type 0 where
    pub key_lem : n.k_ab_enc ≡ some x.ses_key
    pub id_lem : n.ses_id ≡ some x.ses_id
    pub prv_lem : n.prv_bl ≡ some x.prv
    pub peer_lem : peer_of n ≡ ok x.peer
    pub smg_lem : smg_normalize sensor_json ≡ ok x.smg_reg
    pub ts_lem : ts_bytes (w.time n.drawn) ≡ ok x.ts
    pub reg_lem : make_reg_reg x.smg_reg x.ts (n.m_num + 1) n.id x.peer x.ses_id ≡ ok x.reg_reg
    pub msg_lem : make_msg_reg x.smg_reg x.ts (n.m_num + 1) n.id (preg x) (a_reg n x) ≡ ok x.msg_reg
    pub nonce_lem : x.nonce ≡ w.urandom (n.drawn + 1) gcm_nonce_size

  abbrev pub after_send : SecureNodeClient → Sent → SecureNodeClient
  after_send n x = record n {
    m_num = n.m_num + 1;
    drawn = n.drawn + 1 + 1;
    last_a_reg_bl = some (a_reg n x);
  }

  abbrev pub Sends : Bytes → SecureNodeClient → Result Payload → SecureNodeClient → Type 0
  Sends j n (ok m) t = (x : Sent) × IsSent j n x × (m ≡ message_of n x) × (t ≡ after_send n x)
  Sends j n (err e) t = Unit

  pub p4_send-Sends :
      (j : Bytes) (n : SecureNodeClient) → Sends j n (p4_send w j n).0 (p4_send w j n).1
  unfolding p4_send
  p4_send-Sends j n =
      let P = Sends j n in
      let n1 = record n { m_num = n.m_num + 1; drawn = n.drawn + 1 } in
      continue_post P (ts_bytes (w.time n.drawn)) n1 _ (λ _ _. tt)
        λ ts ts_e.
          continue_post P (smg_normalize j) n1 _ (λ _ _. tt)
            λ smg smg_e.
              continue_post P (peer_of n) n1 _ (λ _ _. tt)
                λ peer peer_e.
                  continue_post P (of_option wrong_type n.ses_id) n1 _ (λ _ _. tt)
                    λ id id_e.
                      let m = n.m_num + 1 in
                      continue_post P (make_reg_reg smg ts m n.id peer id) n1 _ (λ _ _. tt)
                        λ reg reg_e.
                          continue_post P (of_option wrong_type n.prv_bl) n1 _ (λ _ _. tt)
                            λ prv prv_e.
                              let p = preg_block w prv reg in
                              let q = a_reg_block w p n.key in
                              let n2 = record n1 { last_a_reg_bl = some q } in
                              continue_post P (make_msg_reg smg ts m n.id p q) n2 _ (λ _ _. tt)
                                λ msg msg_e.
                                  continue_post P (of_option wrong_type n.k_ab_enc) n2 _ (λ _ _. tt)
                                    λ key key_e.
                                      let x : Sent = record {
                                        ses_key = key;
                                        ses_id = id;
                                        prv = prv;
                                        peer = peer;
                                        smg_reg = smg;
                                        ts = ts;
                                        reg_reg = reg;
                                        msg_reg = msg;
                                        nonce = w.urandom (n.drawn + 1) gcm_nonce_size;
                                      } in
                                      let sent : IsSent j n x = record {
                                        key_lem = of_option-ok wrong_type n.k_ab_enc key key_e;
                                        id_lem = of_option-ok wrong_type n.ses_id id id_e;
                                        prv_lem = of_option-ok wrong_type n.prv_bl prv prv_e;
                                        peer_lem = peer_e;
                                        smg_lem = smg_e;
                                        ts_lem = ts_e;
                                        reg_lem = reg_e;
                                        msg_lem = msg_e;
                                        nonce_lem = refl;
                                      } in
                                      (x, sent, refl, refl)
