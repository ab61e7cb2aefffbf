-- ===== src/Session/Records/Handshake.antt =====
-- P2 and P3 of smg_primary_server/auth_service.py leave the shared store alone.
use smg_secure_microgrid.Wire.Frame.{send_msg, recv_msg}
use smg_secure_microgrid.Wire.Hex.{hex}
use smg_secure_microgrid.Session.Establish.{
  reply_to, pending, check_conf_type, new_offer, preinit_of, p3_failed, finalize, Offer,
  init_reg_of, run_p3, p3_body, check_conf, offer_session,
}
use smg_secure_microgrid.Session.Genesis.{
  rot_ack, salt_of, label_text, p2_failed, run_p2, p2_body, found, answer_hello,
}
use smg_secure_microgrid.Crypto.{id_size, hkdf, gcm_nonce_size, digest_size, decrypt_gcm}
use smg_secure_microgrid.Base.Dict.{lookup, Value, Payload}
use smg_secure_microgrid.Session.{
  raw, str, on_conn, as_bytes, item, send_error, log_error, State, Server,
}
use smg_secure_microgrid.Base.Post.{Keeps, try-Keeps, continue_post}
use smg_secure_microgrid.Session.Records.{Grown}
use smg_secure_microgrid.Base.{
  ◌+◌, Option, none, some, [], ◌∷◌, ◌++◌, take, wrong_type, runtime, Result, guard, of_option,
  Bytes, codes, same,
}

module _ (c : Server) (s0 : State c) where
  abbrev Post : {A : Type 0} → Result A → State c → Type 0
  Post r t = Grown c s0 t

  answer_hello-Grown :
      (id_a : Bytes) (shs_v gen_v : Value) (entry : Payload)
      → Keeps (Grown c s0) (answer_hello c id_a shs_v gen_v entry)
  unfolding answer_hello
  answer_hello-Grown id_a shs_v gen_v entry t h =
      let t1 = record t { peer_id = some id_a } in
      continue_post Post (label_text entry (hex id_a)) t1 _ (λ _ _. h)
        λ label _.
          let t2 = record t1 { node_label = label } in
          continue_post Post (salt_of entry) t2 _ (λ _ _. h)
            λ salt _.
              continue_post Post (hkdf c.library salt c.server_key [] digest_size) t2 _ (λ _ _. h)
                λ shs_b _.
                  continue_post Post (as_bytes shs_v) t2 _ (λ _ _. h)
                    λ shs_a _.
                      let t3 = record t2 { shs_ab = some (c.library.h_sha256 (shs_a ++ shs_b)) } in
                      continue_post Post (as_bytes gen_v) t3 _ (λ _ _. h)
                        λ gen_a _.
                          let gen_b = c.library.h_sha256 (salt ++ c.server_id) in
                          let t4 = record t3 {
                            prv_bl = some (c.library.h_sha256 (gen_a ++ gen_b));
                          } in
                          let sent =
                            on_conn (send_msg c.json (rot_ack shs_b gen_b c.server_id)) t4 in
                          continue_post Post sent.0 sent.1 _ (λ _ _. h) λ u _. h

  found-Grown :
      (id_a : Bytes) (shs_v gen_v : Value) (entry : Option Payload)
      → Keeps (Grown c s0) (found c id_a shs_v gen_v entry)
  unfolding found send_error
  found-Grown id_a shs_v gen_v none t h = h
  found-Grown id_a shs_v gen_v (some entry) t h = answer_hello-Grown id_a shs_v gen_v entry t h

  p2_body-Grown : (msg : Payload) → Keeps (Grown c s0) (p2_body c msg)
  unfolding p2_body
  p2_body-Grown msg t h =
      continue_post Post (item (codes "ID_A") msg) t _ (λ _ _. h)
        λ id_v _.
          continue_post Post (item (codes "ShS_A") msg) t _ (λ _ _. h)
            λ shs_v _.
              continue_post Post (item (codes "A_GEN_bl") msg) t _ (λ _ _. h)
                λ gen_v _.
                  continue_post Post (as_bytes id_v) t _ (λ _ _. h)
                    λ id_a _. found-Grown id_a shs_v gen_v (lookup (hex id_a) c.registry) t h

  pub run_p2-Grown : (msg : Payload) → Keeps (Grown c s0) (run_p2 c msg)
  unfolding run_p2 p2_failed log_error send_error
  run_p2-Grown msg =
      try-Keeps (Grown c s0) (p2_body c msg) (p2_failed c) (p2_body-Grown msg) (λ e t h. h)

  offer_session-Grown : (msg : Payload) → Keeps (Grown c s0) (offer_session c msg)
  unfolding offer_session
  offer_session-Grown msg t h =
      continue_post Post (item (codes "INIT_cif") msg) t _ (λ _ _. h)
        λ init_v _.
          continue_post Post (of_option wrong_type t.shs_ab) t _ (λ _ _. h)
            λ shs _.
              continue_post Post (as_bytes init_v) t _ (λ _ _. h)
                λ cif _.
                  continue_post Post (decrypt_gcm c.library cif shs) t _ (λ _ _. h)
                    λ plain _.
                      continue_post Post (of_option wrong_type t.peer_id) t _ (λ _ _. h)
                        λ peer _.
                          continue_post Post (of_option wrong_type t.prv_bl) t _ (λ _ _. h)
                            λ prv _.
                              let reg = init_reg_of c.library plain peer c.server_id shs in
                              continue_post Post
                                (guard
                                  (same (preinit_of c.library prv reg) (take digest_size plain))
                                  runtime)
                                t _ (λ _ _. h)
                                λ u _.
                                  let o =
                                    new_offer c.library prv reg plain shs
                                      (c.urandom t.drawn id_size)
                                      (c.urandom (t.drawn + 1) id_size) in
                                  let nonce = c.urandom (t.drawn + 1 + 1) gcm_nonce_size in
                                  let t1 = record t {
                                    drawn = t.drawn + 1 + 1 + 1;
                                    p3_pending = pending o;
                                  } in
                                  let sent =
                                    on_conn
                                      (send_msg c.json
                                        (reply_to c.library o nonce (take digest_size plain) shs))
                                      t1 in
                                  continue_post Post sent.0 sent.1 _ (λ _ _. h) λ v _. h

  check_conf-Grown : (o : Offer) → Keeps (Grown c s0) (check_conf c o)
  unfolding check_conf
  check_conf-Grown o t h =
      let got = on_conn (recv_msg c.json 65536) t in
      continue_post Post got.0 got.1 _ (λ _ _. h)
        λ msg _.
          continue_post Post (check_conf_type msg) got.1 _ (λ _ _. h)
            λ u _.
              continue_post Post (item (codes "CONF_cif") msg) got.1 _ (λ _ _. h)
                λ conf_v _.
                  continue_post Post (as_bytes conf_v) got.1 _ (λ _ _. h)
                    λ cif _.
                      continue_post Post (decrypt_gcm c.library cif o.new_key) got.1 _ (λ _ _. h)
                        λ tag _. h

  p3_body-Grown : (msg : Payload) → Keeps (Grown c s0) (p3_body c msg)
  unfolding p3_body finalize
  p3_body-Grown msg t h =
      let s1 = (offer_session c msg t).1 in
      let h1 = offer_session-Grown msg t h in
      continue_post Post (offer_session c msg t).0 s1 _ (λ _ _. h1)
        λ o _.
          let s2 = (check_conf c o s1).1 in
          let h2 = check_conf-Grown o s1 h1 in
          continue_post Post (check_conf c o s1).0 s2 _ (λ _ _. h2)
            λ u _.
              let ack =
                (codes "type", str (codes "ses_conf_ack")) ∷ (codes "SES_id", raw o.new_id) ∷ [] in
              let sent = on_conn (send_msg c.json ack) (finalize c o s2) in
              continue_post Post sent.0 sent.1 _ (λ _ _. h2) λ _ _. h2

  pub run_p3-Grown : (msg : Payload) → Keeps (Grown c s0) (run_p3 c msg)
  unfolding run_p3 p3_failed log_error send_error
  run_p3-Grown msg =
      try-Keeps (Grown c s0) (p3_body c msg) (p3_failed c) (p3_body-Grown msg) (λ e t h. h)
