-- ===== src/Wire/Frame/Sizes.antt =====
-- A message that was received makes the rest of the connection smaller; sending leaves it alone.
use smg_secure_microgrid.Base.{
  ℕ, ◌≤◌, ◌<◌, ◌≡◌, refl, inl, inr, ◌||◌, arith, ltb, ◌==◌, Bool-cases, length, Error, protocol,
  value, Result, ok, err, Bytes,
}
use smg_secure_microgrid.Base.Dict.{Payload}
use smg_secure_microgrid.Base.Exec.{continue, lift}
use smg_secure_microgrid.Base.Post.{continue_post}
use smg_secure_microgrid.Wire.Endian.{pack, unpack}
use smg_secure_microgrid.Wire.Socket.{Conn, recv_exact, send_all}
use smg_secure_microgrid.Wire.Socket.Size.{size, recv_exact-size, recv_exact-shrinks}
use smg_secure_microgrid.Wire.Frame.{
  unpack_payload, recv_msg, Json, recv_frame, recv_json, send_json,
}

-- A receipt from a connection of size k: a failure may leave it as it was.
abbrev pub Took : {A : Type 0} → ℕ → Result A → Conn → Type 0
Took k (ok a) c = size c.incoming < k
Took k (err e) c = size c.incoming ≤ k

pub less-Took : {A : Type 0} (k : ℕ) (r : Result A) (c : Conn) → size c.incoming < k → Took k r c
less-Took k (ok a) c h = h
less-Took k (err e) c h = omega arith

pub recv_frame-Took :
    (bad : Error) (limit : ℕ) (c : Conn)
    → Took (size c.incoming) (recv_frame bad limit c).0 (recv_frame bad limit c).1
unfolding recv_frame
recv_frame-Took bad limit c =
    continue_post (Took (size c.incoming)) (recv_exact 4 c).0 (recv_exact 4 c).1 _
      (λ e _. recv_exact-size 4 c)
      λ hdr hdr_e.
        let less : size (recv_exact 4 c).1.incoming < size c.incoming =
          recv_exact-shrinks 4 c hdr (omega arith) hdr_e in
        continue_post (Took (size c.incoming)) (unpack 4 hdr) (recv_exact 4 c).1 _
          (λ e _. omega arith)
          λ n _. elim (Bool-cases (n == 0 || ltb limit n)) [
            | inl wrong ↦ rw wrong (omega arith)
            | inr right ↦ rw right (
                less-Took (size c.incoming) (recv_exact n (recv_exact 4 c).1).0
                  (recv_exact n (recv_exact 4 c).1).1
                  (omega (arith, recv_exact-size n (recv_exact 4 c).1)))
          ]

module _ (json : Json) where
  load-Took :
      (k : ℕ) (r : Result Bytes) (c : Conn)
      → Took k r c
      → let out = continue r (λ body. lift (json.loads body)) c in Took k out.0 out.1
  load-Took k (ok body) c h = less-Took k (json.loads body) c h
  load-Took k (err e) c h = h

  pub recv_json-Took : (c : Conn) → Took (size c.incoming) (recv_json json c).0 (recv_json json c).1
  unfolding recv_json
  recv_json-Took c =
      load-Took (size c.incoming) (recv_frame protocol 65536 c).0 (recv_frame protocol 65536 c).1
        (recv_frame-Took protocol 65536 c)

  pub send_json-incoming : (p : Payload) (c : Conn) → (send_json json p c).1.incoming ≡ c.incoming
  unfolding send_json send_all
  send_json-incoming p c =
      continue_post {S = Conn} {A = Bytes} {B = Unit {0}} (λ _ c'. c'.incoming ≡ c.incoming)
        (pack 4 (length (json.dumps p))) c _ (λ _ _. refl) (λ hdr _. ground arith)

module _ (json : Json) where
  pub recv_msg-Took :
      (limit : ℕ) (conn : Conn)
      → Took (size conn.incoming) (recv_msg json limit conn).0 (recv_msg json limit conn).1
  unfolding recv_msg
  recv_msg-Took limit conn =
      unpack-Took (recv_frame value limit conn).0 (recv_frame value limit conn).1
        (recv_frame-Took value limit conn)
    where
      unpack-Took :
          (r : Result Bytes) (t : Conn)
          → Took (size conn.incoming) r t
          → let out = continue r (λ body. lift (unpack_payload json body)) t in
            Took (size conn.incoming) out.0 out.1
      unpack-Took (ok body) t h = less-Took (size conn.incoming) (unpack_payload json body) t h
      unpack-Took (err e) t h = h
