-- ===== src/Session/Records.antt =====
-- What a session of smg_primary_server/auth_service.py does to the shared store: P4 and P5.
pub mod Handshake
pub mod Run
use smg_secure_microgrid.Wire.Frame.{send_msg, recv_msg}
use smg_secure_microgrid.Wire.Hex.{hex}
use smg_secure_microgrid.Session.Establish.{
  reply_to, pending, check_conf_type, new_offer, preinit_of, p3_failed, finalize, Offer,
  init_reg_of, run_p3, p3_body, check_conf, offer_session,
}
use smg_secure_microgrid.Session.Genesis.{
  rot_ack, salt_of, label_text, p2_failed, run_p2, p2_body, found, answer_hello,
}
use smg_secure_microgrid.Wire.Tlv.{parse_tlv}
use smg_secure_microgrid.Session.Verified.{open_message-pure}
use smg_secure_microgrid.Crypto.{
  encrypt_gcm, id_size, hkdf, gcm_nonce_size, digest_size, decrypt_gcm,
}
use smg_secure_microgrid.Base.Dict.{has_str, lookup, Value, insert, Payload}
use smg_secure_microgrid.Session.Logout.{
  b_end_of, end_block, third_field, p5_failed, two_fields, handle_p5, p5_body,
}
use smg_secure_microgrid.Session.Exchange.{
  judge, open_message, advance, accept_message, parse_reading, p4_body, Message, apply_event,
  handle_p4, p4_failed, finish_p4, send_setpoint, send_result, take_reading, store_reading,
}
use smg_secure_microgrid.Numbers.{number, text, Reading}
use smg_secure_microgrid.Session.Ends.{run_data_loop_lem, next}
use smg_secure_microgrid.Session.Run.{
  enough, Round, run, run_failed, run_body, after_p2, unexpected, serve, run_data_loop, loop_round,
  on_received, dispatch, left, break, again,
}
use smg_secure_microgrid.Session.{
  type_text, raw, str, on_conn, sensor_ok, sensor_anomaly, security_error, as_bytes, security_error,
  item, send_error, trust_drop_threshold, anomaly_window, log_error, drop_connection, lose_trust,
  TrustEvent, update_trust, State, Server,
}
use smg_secure_microgrid.DataStore.{get_median_v_bus, record_reading, DataStore}
use smg_secure_microgrid.Base.Post.{Keeps, try-Keeps, continue_post}
use smg_secure_microgrid.Base.Exec.{continue, pure}
use smg_secure_microgrid.Base.{
  ◌+◌, sym, subst, inl, inr, Option, none, some, [], ◌∷◌, ltb, leb, Bool-cases, Option-cases, Error,
  wrong_type, runtime, Result, guard, of_option, Bytes, Text, codes, same,
}

-- One store follows another by calls of `record`.
pub data Records {F : Type 0} (s : DataStore F) : DataStore F → Type 0 where
  unchanged : Records s s
  recorded :
      (t : DataStore F) (now : F) (label : Text) (reading : Reading F)
      → Records s t
      → Records s (record_reading now label reading t)

module _ (c : Server) (s0 : State c) where
  abbrev pub Grown : State c → Type 0
  Grown t = Records s0.data_store t.data_store

  abbrev pub Post : {A : Type 0} → Result A → State c → Type 0
  Post r t = Grown t

  update_trust-Grown : (event : TrustEvent) (t : State c) → Grown t → Grown (update_trust event t)
  unfolding update_trust lose_trust
  update_trust-Grown security_error t h = h
  update_trust-Grown sensor_ok t h = h
  update_trust-Grown sensor_anomaly t h =
      elim (Bool-cases (leb anomaly_window (t.consecutive_anomalies + 1))) [
        | inl e ↦ rw e h
        | inr e ↦ rw e h
      ]

  apply_event-Grown :
      (event : Option TrustEvent) (t : State c) → Grown t → Grown (apply_event event t)
  apply_event-Grown none t h = h
  apply_event-Grown (some event) t h = update_trust-Grown event t h

  store_reading-Grown : (m : Message) → Keeps Grown (store_reading c m)
  unfolding store_reading
  store_reading-Grown m t h =
      continue_post Post (parse_reading c m.smg_reg) t _ (λ e _. h)
        λ parsed _.
          continue_post Post (get_median_v_bus c.arith_ops t.node_label t.data_store) t _ (λ e _. h)
            λ median _.
              let named = insert (codes "node") (text t.node_label) parsed in
              let reading = insert (codes "M_num") (number (c.arith_ops.of_nat m.m_num)) named in
              continue_post Post (judge c.arith_ops median reading) t _ (λ e _. h)
                λ event _.
                  let u = apply_event event t in
                  let scored =
                    insert (codes "trust_score") (number (c.arith_ops.decimal u.trust_score))
                      reading in
                  recorded u.data_store (c.clock u.drawn) t.node_label scored
                    (apply_event-Grown event t h)

  take_reading-Grown : (m : Message) → Keeps Grown (take_reading c m)
  unfolding take_reading
  take_reading-Grown m =
      try-Keeps Grown (store_reading c m) (λ e. pure tt) (store_reading-Grown m) (λ e t h. h)

  send_result-Grown : (m : Message) (b : Bytes) → Keeps Grown (send_result c m b)
  unfolding send_result
  send_result-Grown m b t h =
      continue_post Post (of_option wrong_type t.ses_key) t _ (λ e _. h) λ key _. h

  send_setpoint-Grown : Keeps Grown (send_setpoint c)
  unfolding send_setpoint
  send_setpoint-Grown t h = elim (Option-cases (c.get_setpoint t.node_label)) [
    | inl e ↦ rw (send_setpoint, e) h
    | inr (x, e) ↦ rw (send_setpoint, e) h
  ]

  finish_p4-Grown : (t : State c) → Grown t → Grown (finish_p4 c t)
  unfolding finish_p4 drop_connection
  finish_p4-Grown t h = elim (Bool-cases (ltb t.trust_score trust_drop_threshold)) [
    | inl e ↦ rw e h
    | inr e ↦ rw e h
  ]

  p4_failed-Grown : (e : Error) → Keeps Grown (p4_failed c e)
  unfolding p4_failed log_error send_error drop_connection
  p4_failed-Grown e t h =
      let u = update_trust security_error t in
      let h' = update_trust-Grown security_error t h in
      elim (Bool-cases (ltb u.trust_score trust_drop_threshold)) [
        | inl low ↦ rw low h'
        | inr high ↦ rw high h'
      ]

  pub handle_p4-Grown : (msg : Payload) → Keeps Grown (handle_p4 c msg)
  unfolding handle_p4 p4_body accept_message advance
  handle_p4-Grown msg =
      try-Keeps Grown (p4_body c msg) (p4_failed c)
        (λ s h.
          let out = open_message c msg s in
          let same_state = open_message-pure c msg s in
          let h0 = subst Grown (sym same_state) h in
          continue_post Post out.0 out.1 _ (λ _ _. h0)
            λ p _.
              let s1 = advance c p.0 p.1 out.1 in
              let s2 = (take_reading c p.0 s1).1 in
              let s3 = (send_result c p.0 p.1 s2).1 in
              let h2 = take_reading-Grown p.0 s1 h0 in
              let h3 = send_result-Grown p.0 p.1 s2 h2 in
              let h4 = send_setpoint-Grown s3 h3 in
              continue_post Post (take_reading c p.0 s1).0 s2 _ (λ _ _. h2)
                λ _ _.
                  continue_post Post (send_result c p.0 p.1 s2).0 s3 _ (λ _ _. h3)
                    λ _ _.
                      continue_post Post (send_setpoint c s3).0 (send_setpoint c s3).1 _ (λ _ _. h4)
                        λ _ _. finish_p4-Grown (send_setpoint c s3).1 h4)
        p4_failed-Grown

  p5_body-Grown : (msg : Payload) → Keeps Grown (p5_body c msg)
  unfolding p5_body
  p5_body-Grown msg t h =
      continue_post Post (item (codes "A_END_cif") msg) t _ (λ _ _. h)
        λ cif_v _.
          continue_post Post (of_option wrong_type t.ses_key) t _ (λ _ _. h)
            λ key _.
              continue_post Post (as_bytes cif_v) t _ (λ _ _. h)
                λ cif _.
                  continue_post Post (decrypt_gcm c.library cif key) t _ (λ _ _. h)
                    λ plain _.
                      continue_post Post (of_option runtime (parse_tlv plain 2)) t _ (λ _ _. h)
                        λ fields _.
                          continue_post Post (two_fields fields) t _ (λ _ _. h)
                            λ p _.
                              continue_post Post (of_option runtime (parse_tlv p.0 4)) t _
                                (λ _ _. h)
                                λ ends _.
                                  continue_post Post (third_field ends) t _ (λ _ _. h)
                                    λ id_a _.
                                      continue_post Post (of_option wrong_type t.ses_id) t _
                                        (λ _ _. h)
                                        λ id _.
                                          continue_post Post
                                            (guard (same (end_block c.library p.0 id id_a) p.1)
                                              runtime)
                                            t _ (λ _ _. h)
                                            λ u _.
                                              continue_post Post (of_option wrong_type t.prv_bl) t _
                                                (λ _ _. h)
                                                λ prv _.
                                                  let nonce = c.urandom t.drawn gcm_nonce_size in
                                                  let b_end = b_end_of c.library prv p.1 key in
                                                  let m =
                                                    (codes "type", str (codes "logout_res"))
                                                    ∷ (
                                                      codes "B_END_cif",
                                                      raw (encrypt_gcm c.library nonce b_end key),
                                                    )
                                                    ∷ [] in
                                                  let sent =
                                                    on_conn (send_msg c.json m)
                                                      (record t { drawn = t.drawn + 1 }) in
                                                  continue_post Post sent.0 sent.1 _ (λ _ _. h)
                                                    λ v _. h

  pub handle_p5-Grown : (msg : Payload) → Keeps Grown (handle_p5 c msg)
  unfolding handle_p5 p5_failed log_error
  handle_p5-Grown msg =
      try-Keeps Grown (p5_body c msg) (p5_failed c) (p5_body-Grown msg) (λ e t h. h)
