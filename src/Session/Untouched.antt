-- ===== src/Session/Untouched.antt =====
-- The handlers of smg_primary_server/auth_service.py write to the connection, never read
-- it and keep the session's keys.
use smg_secure_microgrid.Wire.Tlv.{parse_tlv}
use smg_secure_microgrid.Crypto.{gcm_nonce_size, decrypt_gcm, encrypt_gcm}
use smg_secure_microgrid.Session.Logout.{
  b_end_of, end_block, third_field, two_fields, p5_failed, handle_p5, p5_body,
}
use smg_secure_microgrid.Numbers.{number, text}
use smg_secure_microgrid.Session.Verified.{open_message-pure}
use smg_secure_microgrid.DataStore.{get_median_v_bus}
use smg_secure_microgrid.Base.Exec.{pure}
use smg_secure_microgrid.Wire.Endian.{pack}
use smg_secure_microgrid.Base.Dict.{insert, Payload}
use smg_secure_microgrid.Session.Exchange.{
  judge, open_message, advance, accept_message, parse_reading, p4_body, Message, apply_event,
  handle_p4, p4_failed, result_message, finish_p4, send_setpoint, send_result, take_reading,
  store_reading,
}
use smg_secure_microgrid.Wire.Socket.{close, Conn, send_all}
use smg_secure_microgrid.Wire.Frame.{pack_payload, send_msg, send_frame}
use smg_secure_microgrid.Base.{
  ◌+◌, ◌≡◌, refl, sym, ◌∙◌, subst, inl, inr, Option, none, some, [], ◌∷◌, arith, ltb, leb,
  Bool-cases, Option-cases, length, Error, wrong_type, runtime, Result, guard, of_option, Bytes,
  codes, same,
}
use smg_secure_microgrid.Base.Post.{Keeps, try-Keeps, continue_post}
use smg_secure_microgrid.Session.{
  as_bytes, raw, item, str, trust_drop_threshold, send_error, on_conn, log_error, drop_connection,
  anomaly_window, State, TrustEvent, NodeSession, Server, lose_trust, security_error,
  sensor_anomaly, sensor_ok, update_trust,
}

send_frame-incoming : (b : Bytes) (c : Conn) → (send_frame b c).1.incoming ≡ c.incoming
unfolding send_frame send_all
send_frame-incoming b c =
    continue_post {S = Conn} {A = Bytes} {B = Unit {0}} (λ _ c'. c'.incoming ≡ c.incoming)
      (pack 4 (length b)) c _ (λ _ _. refl) (λ hdr _. ground arith)

-- What the peer sends, and the keys, are those of an earlier state.
abbrev pub Untouched : {F : Type 0} → NodeSession F → NodeSession F → Type 0
Untouched s0 t =
    (t.conn.incoming ≡ s0.conn.incoming) × (t.ses_key ≡ s0.ses_key) × (t.ses_id ≡ s0.ses_id)

update_trust-Untouched :
    {F : Type 0} (s0 : NodeSession F) (event : TrustEvent) (t : NodeSession F)
    → Untouched s0 t
    → Untouched s0 (update_trust event t)
unfolding update_trust lose_trust
update_trust-Untouched s0 security_error t h = h
update_trust-Untouched s0 sensor_ok t h = h
update_trust-Untouched s0 sensor_anomaly t h =
    elim (Bool-cases (leb anomaly_window (t.consecutive_anomalies + 1))) [
      | inl e ↦ rw e h
      | inr e ↦ rw e h
    ]

apply_event-Untouched :
    {F : Type 0} (s0 : NodeSession F) (event : Option TrustEvent) (t : NodeSession F)
    → Untouched s0 t
    → Untouched s0 (apply_event event t)
apply_event-Untouched s0 none t h = h
apply_event-Untouched s0 (some event) t h = update_trust-Untouched s0 event t h

module _ (c : Server) (s0 : State c) where
  abbrev Post : Result (Unit {0}) → State c → Type 0
  Post r t = Untouched s0 t

  send_msg-Untouched :
      (p : Payload) (t : State c) → Untouched s0 t → Untouched s0 (on_conn (send_msg c.json p) t).1
  unfolding send_msg
  send_msg-Untouched p t h = (send_frame-incoming (pack_payload c.json p) t.conn ∙ h.0, h.1, h.2)

  store_reading-Untouched : (m : Message) → Keeps (Untouched s0) (store_reading c m)
  unfolding store_reading
  store_reading-Untouched m t h =
      continue_post Post (parse_reading c m.smg_reg) t _ (λ e _. h)
        λ parsed _.
          continue_post Post (get_median_v_bus c.arith_ops t.node_label t.data_store) t _ (λ e _. h)
            λ median _.
              let named = insert (codes "node") (text t.node_label) parsed in
              let reading = insert (codes "M_num") (number (c.arith_ops.of_nat m.m_num)) named in
              continue_post Post (judge c.arith_ops median reading) t _ (λ e _. h)
                λ event _. apply_event-Untouched s0 event t h

  take_reading-Untouched : (m : Message) → Keeps (Untouched s0) (take_reading c m)
  unfolding take_reading
  take_reading-Untouched m =
      try-Keeps (Untouched s0) (store_reading c m) (λ e. pure tt) (store_reading-Untouched m)
        (λ e t h. h)

  send_result-Untouched : (m : Message) (b : Bytes) → Keeps (Untouched s0) (send_result c m b)
  unfolding send_result
  send_result-Untouched m b t h =
      continue_post Post (of_option wrong_type t.ses_key) t _ (λ e _. h)
        λ key _.
          send_msg-Untouched (result_message c (c.urandom t.drawn gcm_nonce_size) b key m.m_num)
            (record t { drawn = t.drawn + 1 }) h

  send_setpoint-Untouched : Keeps (Untouched s0) (send_setpoint c)
  unfolding send_setpoint
  send_setpoint-Untouched t h = elim (Option-cases (c.get_setpoint t.node_label)) [
    | inl e ↦ rw (send_setpoint, e) h
    | inr (x, e) ↦
        rw (send_setpoint, e) (send_frame-incoming (c.dumps_setpoint x) t.conn ∙ h.0, h.1, h.2)
  ]

  finish_p4-Untouched : (t : State c) → Untouched s0 t → Untouched s0 (finish_p4 c t)
  unfolding finish_p4 drop_connection close
  finish_p4-Untouched t h = elim (Bool-cases (ltb t.trust_score trust_drop_threshold)) [
    | inl e ↦ rw e h
    | inr e ↦ rw e h
  ]

  p4_failed-Untouched : (e : Error) → Keeps (Untouched s0) (p4_failed c e)
  unfolding p4_failed log_error send_error drop_connection close send_msg
  p4_failed-Untouched e t h =
      let u = update_trust security_error t in
      let h' = update_trust-Untouched s0 security_error t h in
      elim (Bool-cases (ltb u.trust_score trust_drop_threshold)) [
        | inl low ↦ rw low (send_frame-incoming _ u.conn ∙ h'.0, h'.1, h'.2)
        | inr high ↦ rw high (send_frame-incoming _ u.conn ∙ h'.0, h'.1, h'.2)
      ]

  pub handle_p4-Untouched : (msg : Payload) → Keeps (Untouched s0) (handle_p4 c msg)
  unfolding handle_p4 p4_body accept_message advance
  handle_p4-Untouched msg =
      try-Keeps (Untouched s0) (p4_body c msg) (p4_failed c)
        (λ s h.
          let out = open_message c msg s in
          let same_state = open_message-pure c msg s in
          let h0 = subst (Untouched s0) (sym same_state) h in
          continue_post Post out.0 out.1 _ (λ _ _. h0)
            λ p _.
              let s1 = advance c p.0 p.1 out.1 in
              let s2 = (take_reading c p.0 s1).1 in
              let s3 = (send_result c p.0 p.1 s2).1 in
              let h2 = take_reading-Untouched p.0 s1 h0 in
              let h3 = send_result-Untouched p.0 p.1 s2 h2 in
              let h4 = send_setpoint-Untouched s3 h3 in
              continue_post Post (take_reading c p.0 s1).0 s2 _ (λ _ _. h2)
                λ _ _.
                  continue_post Post (send_result c p.0 p.1 s2).0 s3 _ (λ _ _. h3)
                    λ _ _.
                      continue_post Post (send_setpoint c s3).0 (send_setpoint c s3).1 _ (λ _ _. h4)
                        λ _ _. finish_p4-Untouched (send_setpoint c s3).1 h4)
        p4_failed-Untouched

  p5_body-Untouched : (msg : Payload) → Keeps (Untouched s0) (p5_body c msg)
  unfolding p5_body
  p5_body-Untouched msg t h =
      continue_post Post (item (codes "A_END_cif") msg) t _ (λ _ _. h)
        λ cif_v _.
          continue_post Post (of_option wrong_type t.ses_key) t _ (λ _ _. h)
            λ key _.
              continue_post Post (as_bytes cif_v) t _ (λ _ _. h)
                λ cif _.
                  continue_post Post (decrypt_gcm c.library cif key) t _ (λ _ _. h)
                    λ plain _.
                      continue_post Post (of_option runtime (parse_tlv plain 2)) t _ (λ _ _. h)
                        λ fields _.
                          continue_post Post (two_fields fields) t _ (λ _ _. h)
                            λ p _.
                              continue_post Post (of_option runtime (parse_tlv p.0 4)) t _
                                (λ _ _. h)
                                λ ends _.
                                  continue_post Post (third_field ends) t _ (λ _ _. h)
                                    λ id_a _.
                                      continue_post Post (of_option wrong_type t.ses_id) t _
                                        (λ _ _. h)
                                        λ id _.
                                          let fits = same (end_block c.library p.0 id id_a) p.1 in
                                          continue_post Post (guard fits runtime) t _ (λ _ _. h)
                                            λ _ _.
                                              continue_post Post (of_option wrong_type t.prv_bl) t _
                                                (λ _ _. h)
                                                λ prv _.
                                                  let b_end = b_end_of c.library prv p.1 key in
                                                  let nonce = c.urandom t.drawn gcm_nonce_size in
                                                  let answer =
                                                    (codes "type", str (codes "logout_res"))
                                                    ∷ (
                                                      codes "B_END_cif",
                                                      raw (encrypt_gcm c.library nonce b_end key),
                                                    )
                                                    ∷ [] in
                                                  let t' = record t { drawn = t.drawn + 1 } in
                                                  let sent = on_conn (send_msg c.json answer) t' in
                                                  let h' = send_msg-Untouched answer t' h in
                                                  continue_post Post sent.0 sent.1 _ (λ _ _. h')
                                                    λ _ _. h'

  pub handle_p5-Untouched : (msg : Payload) → Keeps (Untouched s0) (handle_p5 c msg)
  unfolding handle_p5 p5_failed log_error
  handle_p5-Untouched msg =
      try-Keeps (Untouched s0) (p5_body c msg) (p5_failed c) (p5_body-Untouched msg) (λ e t h. h)
