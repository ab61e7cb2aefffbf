-- ===== src/Client/Genesis.antt =====
-- P2 between `SecureNodeClient` of smg_primary_server/pc_client.py and `_run_p2` of
-- smg_primary_server/auth_service.py.
use smg_secure_microgrid.Client.Establish.{Rooted}
use smg_secure_microgrid.Crypto.Hkdf.{hkdf_expand_lem, stream}
use smg_secure_microgrid.Wire.Hex.{hex}
use smg_secure_microgrid.Wire.Frame.{send_msg}
use smg_secure_microgrid.Session.Genesis.{
  found, salt_of, label_text, rot_ack, p2_failed, run_p2, p2_body, answer_hello,
}
use smg_secure_microgrid.Wire.Socket.{Conn}
use smg_secure_microgrid.Client.Agreement.{world}
use smg_secure_microgrid.Base.Dict.{lookup, Payload}
use smg_secure_microgrid.Client.{
  peer_of, raw, p2_initiator_compute, str, SecureNodeClient, p2_finalize, World,
}
use smg_secure_microgrid.Crypto.{hkdf_extract, hkdf, digest_size}
use smg_secure_microgrid.Crypto.Gcm.{Aead}
use smg_secure_microgrid.Session.{item, as_bytes, State, Server}
use smg_secure_microgrid.Base.{
  ℕ, ◌+◌, ◌≡◌, refl, sym, ap, ◌∙◌, subst, inl, inr, Bool, true, some, [], ◌∷◌, ◌++◌, arith,
  Option-cases, length, take, wrong_type, Result, ok, of_option, Bytes, codes, same,
}
use smg_secure_microgrid.Base.Post.{continue-ok, continue_post, try_post}
use smg_secure_microgrid.Client.Run.{check_error, take_rot_ack}
use smg_secure_microgrid.Base.Dict.{has_str}

module _ (c : Server) (aead : Aead c.library) (urandom : ℕ → ℕ → Bytes) (time : ℕ → ℕ)
    (sizes : (i k : ℕ) → length (urandom i k) ≡ k)
    (server_sizes : (i k : ℕ) → length (c.urandom i k) ≡ k)
    (digest : (m : Bytes) → length (c.library.h_sha256 m) ≡ digest_size) where
  abbrev w : World
  w = world c aead urandom time sizes

  -- `rot_msg`, as the server's codec gives it.
  abbrev pub hello : Bytes → Bytes → Bytes → Payload
  hello shs_a gen_a id =
      (codes "type", str (codes "rot_hello"))
      ∷ (codes "ShS_A", raw shs_a)
      ∷ (codes "A_GEN_bl", raw gen_a)
      ∷ (codes "ID_A", raw id)
      ∷ []

  module _ (shs_a gen_a id : Bytes) (s : State c) where
    -- What a session that returned True has sent and keeps.
    abbrev pub Rooting : State c → Type 0
    Rooting t =
        (shs_b : Bytes) × (gen_b : Bytes) × (conn : Conn) × (send_msg c.json
            (rot_ack shs_b gen_b c.server_id) s.conn
          ≡ (ok tt, conn))
        × (t.conn ≡ conn)
        × (t.shs_ab ≡ some (c.library.h_sha256 (shs_a ++ shs_b)))
        × (t.prv_bl ≡ some (c.library.h_sha256 (gen_a ++ gen_b)))
        × (t.peer_id ≡ some id)

    abbrev Answered : Result Bool → State c → Type 0
    Answered r t = r ≡ ok true → Rooting t

    answer_hello-Answered :
        (entry : Payload)
        → let out = answer_hello c id (raw shs_a) (raw gen_a) entry s in Answered out.0 out.1
    unfolding answer_hello as_bytes
    answer_hello-Answered entry =
        let s1 = record s { peer_id = some id } in
        continue_post Answered (label_text entry (hex id)) s1 _ (λ _ _ h. cc)
          λ label _.
            let s2 = record s1 { node_label = label } in
            continue_post Answered (salt_of entry) s2 _ (λ _ _ h. cc)
              λ salt _.
                continue_post Answered (hkdf c.library salt c.server_key [] digest_size) s2 _
                  (λ _ _ h. cc)
                  λ shs_b _.
                    let gen_b = c.library.h_sha256 (salt ++ c.server_id) in
                    let s3 = record s2 {
                      shs_ab = some (c.library.h_sha256 (shs_a ++ shs_b));
                      prv_bl = some (c.library.h_sha256 (gen_a ++ gen_b));
                    } in
                    let sent = send_msg c.json (rot_ack shs_b gen_b c.server_id) s.conn in
                    continue_post Answered sent.0 (record s3 { conn = sent.1 }) _ (λ _ _ h. cc)
                      λ u sent_e h.
                        (shs_b, gen_b, sent.1, ap (λ r. (r, sent.1)) sent_e, refl, refl, refl, refl)

    -- The three fields are there.
    p2_body_lem :
        p2_body c (hello shs_a gen_a id) s
        ≡ found c id (raw shs_a) (raw gen_a) (lookup (hex id) c.registry) s
    unfolding p2_body
    p2_body_lem =
        let m = hello shs_a gen_a id in
        let id_item : item (codes "ID_A") m ≡ ok (raw id) = unfold item lookup same in refl in
        let shs_item : item (codes "ShS_A") m ≡ ok (raw shs_a) = unfold item lookup same in refl in
        let gen_item : item (codes "A_GEN_bl") m ≡ ok (raw gen_a) =
          unfold item lookup same in refl in
        let id_bytes : as_bytes (raw id) ≡ ok id = unfold as_bytes in refl in
        continue-ok (item (codes "ID_A") m) s _ id_item
        ∙ continue-ok (item (codes "ShS_A") m) s _ shs_item
        ∙ continue-ok (item (codes "A_GEN_bl") m) s _ gen_item
        ∙ continue-ok (as_bytes (raw id)) s
            (λ x. found c x (raw shs_a) (raw gen_a) (lookup (hex x) c.registry)) id_bytes

    p2_body-Answered : let out = p2_body c (hello shs_a gen_a id) s in Answered out.0 out.1
    unfolding found
    p2_body-Answered =
        subst (λ r. Answered r.0 r.1) (sym p2_body_lem)
          (elim (Option-cases (lookup (hex id) c.registry)) [
            | inl e ↦ rw e (λ h. cc)
            | inr (entry, e) ↦ rw e (answer_hello-Answered entry)
          ])

    run_p2-Rooting :
        (run_p2 c (hello shs_a gen_a id) s).0 ≡ ok true
        → Rooting (run_p2 c (hello shs_a gen_a id) s).1
    unfolding run_p2 p2_failed
    run_p2-Rooting =
        try_post Answered (p2_body c (hello shs_a gen_a id)) (p2_failed c) s
          (λ b eq h. p2_body-Answered (eq ∙ h)) (λ e eq h. cc)

  -- The client's first step keeps its random value.
  computed :
      (n : SecureNodeClient) (salt : Bytes)
      → (p2_initiator_compute w salt n).1
        ≡ record n { r_a = some (urandom n.drawn 16); drawn = n.drawn + 1 }
  unfolding p2_initiator_compute
  computed n salt =
      let n1 = record n { r_a = some (urandom n.drawn 16); drawn = n.drawn + 1 } in
      continue_post {B = Bytes × Bytes} (λ _ t. t ≡ n1)
        (hkdf c.library salt (urandom n.drawn 16 ++ n.id) [] 32) n1 _ (λ _ _. refl) (λ _ _. refl)

  -- The client's last step of P2, with the peer that the acknowledgement named.
  p2_finalize_lem :
      (n : SecureNodeClient) (r shs_a shs_b gen_a gen_b : Bytes)
      → n.r_a ≡ some r
      → n.peer_id ≡ some (raw c.server_id)
      → (k_ab : Bytes) × (p2_finalize w shs_a (raw shs_b) gen_a (raw gen_b) n ≡ (
        ok tt,
        record n {
          shs_ab = some (c.library.h_sha256 (shs_a ++ shs_b));
          prv_bl = some (c.library.h_sha256 (gen_a ++ gen_b));
          k_ab = some k_ab;
        },
      ))
  unfolding p2_finalize as_bytes hkdf
  p2_finalize_lem n r shs_a shs_b gen_a gen_b r_e peer_e =
      let shs = c.library.h_sha256 (shs_a ++ shs_b) in
      let prk = hkdf_extract c.library shs (r ++ c.server_id) in
      let n2 = record n {
        shs_ab = some shs;
        prv_bl = some (c.library.h_sha256 (gen_a ++ gen_b));
      } in
      (
        take 32 (stream c.library prk [] 255),
        continue-ok (of_option wrong_type n.r_a) n2 _ (ap (of_option wrong_type) r_e)
            ∙ continue-ok (peer_of n) n2 _ (rw peer_e refl)
            ∙ continue-ok (hkdf c.library shs (r ++ c.server_id) [] 32) n2 _
                (hkdf_expand_lem c.library prk [] digest 32 (omega arith)),
      )

  -- The client reads the three fields of the acknowledgement.
  take_rot_ack_lem :
      (shs_a gen_a shs_b gen_b : Bytes) (n : SecureNodeClient)
      → take_rot_ack w c.json shs_a gen_a (rot_ack shs_b gen_b c.server_id) n
        ≡ p2_finalize w shs_a
            (raw shs_b)
            gen_a
            (raw gen_b)
            (record n { peer_id = some (raw c.server_id) })
  unfolding take_rot_ack
  take_rot_ack_lem shs_a gen_a shs_b gen_b n =
      let ack = rot_ack shs_b gen_b c.server_id in
      let no_error : check_error ack ≡ ok tt =
        unfold check_error has_str rot_ack lookup same in refl in
      let shs_item : item (codes "ShS_B") ack ≡ ok (raw shs_b) =
        unfold item rot_ack lookup same in refl in
      let gen_item : item (codes "B_GEN_bl") ack ≡ ok (raw gen_b) =
        unfold item rot_ack lookup same in refl in
      let id_item : item (codes "ID_B") ack ≡ ok (raw c.server_id) =
        unfold item rot_ack lookup same in refl in
      continue-ok (check_error ack) n _ no_error
      ∙ continue-ok (item (codes "ShS_B") ack) n _ shs_item
      ∙ continue-ok (item (codes "B_GEN_bl") ack) n _ gen_item
      ∙ continue-ok (item (codes "ID_B") ack) n _ id_item

  -- If `_run_p2` returns True on the client's first message, it has sent a message, and the client
  -- that reads this message as `run_client` does returns without an exception: it then holds the same
  -- shared secret and the same genesis block as the session, and both know each other. Digests have
  -- 32 bytes, AES-GCM obeys `Aead`, and `os.urandom` returns as many bytes as it is asked for.
  pub p2_agreement :
      (n : SecureNodeClient) (s : State c) (salt shs_a gen_a : Bytes)
      → (p2_initiator_compute w salt n).0 ≡ ok (shs_a, gen_a)
      → (run_p2 c (hello shs_a gen_a n.id) s).0 ≡ ok true
      → let n1 = (p2_initiator_compute w salt n).1 in
        let t = (run_p2 c (hello shs_a gen_a n.id) s).1 in
        (ack : Payload) × (n2 : SecureNodeClient) × (send_msg c.json ack s.conn ≡ (ok tt, t.conn))
        × (take_rot_ack w c.json shs_a gen_a ack n1 ≡ (ok tt, n2))
        × Rooted c aead urandom time sizes server_sizes digest n2 t
  p2_agreement n s salt shs_a gen_a h accepted =
      let (shs_b, gen_b, conn, sent, same_conn, shs_e, prv_e, peer_e) =
        run_p2-Rooting shs_a gen_a n.id s accepted in
      let r = urandom n.drawn 16 in
      let n1 = record n { r_a = some r; drawn = n.drawn + 1 } in
      let n2 = record n1 { peer_id = some (raw c.server_id) } in
      let ack = rot_ack shs_b gen_b c.server_id in
      let (k_ab, done) = p2_finalize_lem n2 r shs_a shs_b gen_a gen_b refl refl in
      (
        ack,
        record n2 {
          shs_ab = some (c.library.h_sha256 (shs_a ++ shs_b));
          prv_bl = some (c.library.h_sha256 (gen_a ++ gen_b));
          k_ab = some k_ab;
        },
        sent ∙ ap (λ x. (ok tt, x)) (sym same_conn),
        ap (take_rot_ack w c.json shs_a gen_a ack) (computed n salt)
            ∙ take_rot_ack_lem shs_a gen_a shs_b gen_b n1
            ∙ done,
        record {
          shs = c.library.h_sha256 (shs_a ++ shs_b);
          prv = c.library.h_sha256 (gen_a ++ gen_b);
          client_shs = refl;
          server_shs = shs_e;
          client_head = refl;
          server_head = prv_e;
          client_peer = refl;
          server_peer = peer_e;
        },
      )
