-- ===== src/Session/Confirm.antt =====
-- What an accepted session of smg_primary_server/auth_service.py rests on: `_run_p3`.
use smg_secure_microgrid.Wire.Frame.{send_msg, recv_msg}
use smg_secure_microgrid.Crypto.{gcm_nonce_size, id_size, digest_size, decrypt_gcm}
use smg_secure_microgrid.Base.Dict.{Payload}
use smg_secure_microgrid.Session.Establish.{
  p3_failed, finalize, run_p3, p3_body, init_block, pending, reply_to, new_offer, init_reg_of,
  check_conf_type, preinit_of, confirmation, check_conf, offer_session, Offer,
}
use smg_secure_microgrid.Session.{raw, str, as_bytes, item, State, Server}
use smg_secure_microgrid.Base.{
  ◌+◌, ◌≡◌, refl, sym, ap, ◌∙◌, subst, Bool, true, false, some, [], ◌∷◌, ◌++◌, if◌then◌else◌, take,
  drop, wrong_type, runtime, Result, ok, err, guard, of_option, Bytes, codes, same,
}
use smg_secure_microgrid.Base.Post.{of_option-ok, guard-ok, continue_post, try_post}
use smg_secure_microgrid.Wire.Socket.{Conn}
use smg_secure_microgrid.Base.Dict.{Value, has_str}
use smg_secure_microgrid.Crypto.{encrypt_gcm}
use smg_secure_microgrid.Base.{drop, false, if◌then◌else◌}

module _ (c : Server) where
  -- The first message, and the reply that was sent on the session's connection: `INIT_cif` is
  -- under the shared secret and has the block of the chain's head; the session's identity and the
  -- second random value are drawn, and the key is the hash of that value and the secret.
  pub record Genuine (msg : Payload) (s : State c) (o : Offer) (replied : Conn) : Type 0 where
    pub shs_ab : Bytes
    pub peer : Bytes
    pub init_v : Value
    pub init_cif : Bytes
    pub plain : Bytes
    pub shs_lem : s.shs_ab ≡ some shs_ab
    pub peer_lem : s.peer_id ≡ some peer
    pub prv_lem : s.prv_bl ≡ some o.prv
    pub item_lem : item (codes "INIT_cif") msg ≡ ok init_v
    pub bytes_lem : as_bytes init_v ≡ ok init_cif
    pub plain_lem : decrypt_gcm c.library init_cif shs_ab ≡ ok plain
    pub preinit_lem : o.preinit_bl ≡ take 32 plain
    pub rdn1_lem : o.rdn1 ≡ take 16 (drop 32 plain)
    pub head_lem :
        take 32 plain
        ≡ c.library.h_sha256 (
            o.prv
            ++ c.library.h_sha256 (o.rdn1 ++ (drop 48 plain ++ (peer ++ (c.server_id ++ shs_ab)))))
    pub id_lem : o.new_id ≡ c.urandom s.drawn 16
    pub rdn2_lem : o.rdn2 ≡ c.urandom (s.drawn + 1) 16
    pub key_lem : o.new_key ≡ c.library.h_sha256 (o.rdn2 ++ shs_ab)
    pub reply_lem :
        send_msg c.json
          ((codes "type", str (codes "ses_reply"))
            ∷ (
              codes "SES_cif",
              raw (
                  encrypt_gcm c.library
                    (c.urandom (s.drawn + 1 + 1) 12)
                    (o.new_id ++ (o.rdn2 ++ (o.rdn1 ++ take 32 plain)))
                    shs_ab),
            )
            ∷ [])
          s.conn
        ≡ (ok tt, replied)

  -- The second message, received on the connection after the reply: `CONF_cif` is under the new key
  -- and has the tag over the key, the session's identity and both random values.
  pub record Confirmed (o : Offer) (replied received : Conn) : Type 0 where
    pub conf : Payload
    pub conf_v : Value
    pub conf_cif : Bytes
    pub recv_lem : recv_msg c.json 65536 replied ≡ (ok conf, received)
    pub type_lem : has_str (codes "type") (codes "ses_conf") conf ≡ true
    pub item_lem : item (codes "CONF_cif") conf ≡ ok conf_v
    pub bytes_lem : as_bytes conf_v ≡ ok conf_cif
    pub tag_lem :
        decrypt_gcm c.library conf_cif o.new_key
        ≡ ok (c.library.h_sha256 (o.new_key ++ (o.new_id ++ (o.rdn1 ++ o.rdn2))))

  abbrev Offered : Payload → State c → Result Offer → State c → Type 0
  Offered msg s (ok o) t = Genuine msg s o t.conn
  Offered msg s (err e) t = Unit

  offer_session-Offered :
      (msg : Payload) (s : State c)
      → Offered msg s (offer_session c msg s).0 (offer_session c msg s).1
  unfolding offer_session init_reg_of preinit_of reply_to
  offer_session-Offered msg s =
      let P = Offered msg s in
      let lib = c.library in
      continue_post P (item (codes "INIT_cif") msg) s _ (λ _ _. tt)
        λ init_v init_e.
          continue_post P (of_option wrong_type s.shs_ab) s _ (λ _ _. tt)
            λ shs shs_e.
              continue_post P (as_bytes init_v) s _ (λ _ _. tt)
                λ cif cif_e.
                  continue_post P (decrypt_gcm lib cif shs) s _ (λ _ _. tt)
                    λ plain plain_e.
                      continue_post P (of_option wrong_type s.peer_id) s _ (λ _ _. tt)
                        λ peer peer_e.
                          continue_post P (of_option wrong_type s.prv_bl) s _ (λ _ _. tt)
                            λ prv prv_e.
                              let reg = init_reg_of lib plain peer c.server_id shs in
                              let pre = preinit_of lib prv reg in
                              let rx = take digest_size plain in
                              continue_post P (guard (same pre rx) runtime) s _ (λ _ _. tt)
                                λ u fits.
                                  let o =
                                    new_offer lib prv reg plain shs (c.urandom s.drawn id_size)
                                      (c.urandom (s.drawn + 1) id_size) in
                                  let nonce = c.urandom (s.drawn + 1 + 1) gcm_nonce_size in
                                  let sent = send_msg c.json (reply_to lib o nonce rx shs) s.conn in
                                  let head = guard-ok pre rx runtime u fits in
                                  continue_post P sent.0
                                    (record s {
                                      drawn = s.drawn + 1 + 1 + 1;
                                      p3_pending = pending o;
                                      conn = sent.1;
                                    })
                                    _ (λ _ _. tt)
                                    λ v sent_e. record {
                                      shs_ab = shs;
                                      peer = peer;
                                      init_v = init_v;
                                      init_cif = cif;
                                      plain = plain;
                                      shs_lem = of_option-ok wrong_type s.shs_ab shs shs_e;
                                      peer_lem = of_option-ok wrong_type s.peer_id peer peer_e;
                                      prv_lem = of_option-ok wrong_type s.prv_bl prv prv_e;
                                      item_lem = init_e;
                                      bytes_lem = cif_e;
                                      plain_lem = plain_e;
                                      preinit_lem = head;
                                      rdn1_lem = refl;
                                      head_lem = sym head;
                                      id_lem = refl;
                                      rdn2_lem = refl;
                                      key_lem = refl;
                                      reply_lem = ap (λ r. (r, sent.1)) sent_e;
                                    }

  abbrev Checked : Offer → State c → Result (Unit {0}) → State c → Type 0
  Checked o s (ok u) t = Confirmed o s.conn t.conn
  Checked o s (err e) t = Unit

  Checked-intro :
      (o : Offer) (s : State c) (r : Result (Unit {0})) (t : State c)
      → ((u : Unit {0}) → r ≡ ok u → Confirmed o s.conn t.conn)
      → Checked o s r t
  Checked-intro o s (ok u) t h = h u refl
  Checked-intro o s (err e) t h = tt

  check_conf_type-ok :
      (msg : Payload) (u : Unit {0})
      → check_conf_type msg ≡ ok u
      → has_str (codes "type") (codes "ses_conf") msg ≡ true
  unfolding check_conf_type
  check_conf_type-ok msg u h =
      go (has_str (codes "type") (codes "error") msg)
        (has_str (codes "type") (codes "ses_conf") msg) h
    where
      go : (a b : Bool) → (if a then err runtime else guard b runtime) ≡ ok u → b ≡ true
      go true b e = cc
      go false true e = refl
      go false false e = cc

  check_conf-Checked :
      (o : Offer) (s : State c) → Checked o s (check_conf c o s).0 (check_conf c o s).1
  unfolding check_conf confirmation
  check_conf-Checked o s =
      let P = Checked o s in
      let lib = c.library in
      let got = recv_msg c.json 65536 s.conn in
      let t = record s { conn = got.1 } in
      continue_post P got.0 t _ (λ _ _. tt)
        λ conf got_e.
          continue_post P (check_conf_type conf) t _ (λ _ _. tt)
            λ w type_e.
              continue_post P (item (codes "CONF_cif") conf) t _ (λ _ _. tt)
                λ v item_e.
                  continue_post P (as_bytes v) t _ (λ _ _. tt)
                    λ cif cif_e.
                      continue_post P (decrypt_gcm lib cif o.new_key) t _ (λ _ _. tt)
                        λ tag tag_e.
                          let expected = confirmation lib o.new_key o.new_id o.rdn1 o.rdn2 in
                          Checked-intro o s (guard (same tag expected) runtime) t λ u fits. record {
                            conf = conf;
                            conf_v = v;
                            conf_cif = cif;
                            recv_lem = ap (λ r. (r, got.1)) got_e;
                            type_lem = check_conf_type-ok conf w type_e;
                            item_lem = item_e;
                            bytes_lem = cif_e;
                            tag_lem = tag_e ∙ ap ok (guard-ok tag expected runtime u fits);
                          }

  -- The session as `_run_p3` leaves it, once it has sent the acknowledgement.
  pub record Established (o : Offer) (received : Conn) (t : State c) : Type 0 where
    pub ack_lem :
        send_msg c.json
          ((codes "type", str (codes "ses_conf_ack")) ∷ (codes "SES_id", raw o.new_id) ∷ [])
          received
        ≡ (ok tt, t.conn)
    pub id_lem : t.ses_id ≡ some o.new_id
    pub key_lem : t.ses_key ≡ some o.new_key
    pub head_lem : t.prv_bl ≡ some (c.library.h_sha256 (o.prv ++ (o.new_id ++ o.preinit_bl)))
    pub active_lem : t.session_active ≡ true
    pub expected_lem : t.m_num_expected ≡ 0
    pub trust_lem : t.trust_score ≡ 80
    pub anomalies_lem : t.consecutive_anomalies ≡ 0

  -- The three steps of P3, one after the other on the connection.
  abbrev pub Agreed : Payload → State c → State c → Type 0
  Agreed msg s t =
      (o : Offer) × (replied : Conn) × (received : Conn) × Genuine msg s o replied
      × Confirmed o replied received
      × Established o received t

  abbrev Done : Payload → State c → Result Bool → State c → Type 0
  Done msg s (ok b) t = Agreed msg s t
  Done msg s (err e) t = Unit

  p3_body-Done : (msg : Payload) (s : State c) → Done msg s (p3_body c msg s).0 (p3_body c msg s).1
  unfolding p3_body finalize init_block
  p3_body-Done msg s =
      let P = Done msg s in
      let offered = offer_session-Offered msg s in
      let s1 = (offer_session c msg s).1 in
      continue_post P (offer_session c msg s).0 s1 _ (λ _ _. tt)
        λ o o_e.
          let genuine = subst (λ r. Offered msg s r s1) o_e offered in
          let checked = check_conf-Checked o s1 in
          let s2 = (check_conf c o s1).1 in
          continue_post P (check_conf c o s1).0 s2 _ (λ _ _. tt)
            λ u u_e.
              let confirmed = subst (λ r. Checked o s1 r s2) u_e checked in
              let ack =
                send_msg c.json
                  ((codes "type", str (codes "ses_conf_ack")) ∷ (codes "SES_id", raw o.new_id) ∷ [])
                  s2.conn in
              continue_post P ack.0 (record (finalize c o s2) { conn = ack.1 }) _ (λ _ _. tt)
                λ v ack_e. (
                  o,
                  s1.conn,
                  s2.conn,
                  genuine,
                  confirmed,
                  record {
                    ack_lem = ap (λ r. (r, ack.1)) ack_e;
                    id_lem = refl;
                    key_lem = refl;
                    head_lem = refl;
                    active_lem = refl;
                    expected_lem = refl;
                    trust_lem = refl;
                    anomalies_lem = refl;
                  },
                )

  abbrev Claim : Payload → State c → Result Bool → State c → Type 0
  Claim msg s r t = r ≡ ok true → Agreed msg s t

  -- `_run_p3` returns True only if these happened, one after the other on the connection. The
  -- `INIT_cif` of the given message decrypts under the shared secret to the block of the chain's
  -- head, a random value and a time. The session sent `ses_reply` with a drawn identity, a second
  -- drawn random value and the first one. It received a message of type `ses_conf` whose `CONF_cif`
  -- decrypts under the new key to the hash of that key, the identity and both random values. It sent
  -- `ses_conf_ack`. The session then holds the new identity and key, the hash of the head, the
  -- identity and the block as its head, is active, and has trust 0.80 and no anomalies counted.
  pub run_p3-Established :
      (msg : Payload) (s : State c) → (run_p3 c msg s).0 ≡ ok true → Agreed msg s (run_p3 c msg s).1
  unfolding run_p3 p3_failed
  run_p3-Established msg s =
      let body = p3_body c msg s in
      try_post (Claim msg s) (p3_body c msg) (p3_failed c) s
        (λ b eq h. subst (λ r. Done msg s r body.1) eq (p3_body-Done msg s)) (λ e eq h. cc)
