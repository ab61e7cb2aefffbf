-- ===== src/Client/Run/Skips.antt =====
-- The inner loop of `run_client` of smg_primary_server/pc_client.py.
use smg_secure_microgrid.Wire.Socket.Size.{size}
use smg_secure_microgrid.Wire.Socket.{Conn}
use smg_secure_microgrid.Base.Dict.{has_str, Payload}
use smg_secure_microgrid.Client.Run.{next_answer, skip_setpoints}
use smg_secure_microgrid.Wire.Frame.{recv_msg, Json}
use smg_secure_microgrid.Client.{World}
use smg_secure_microgrid.Base.{
  ℕ, zero, suc, ◌<◌, subst, ◌≢◌, inl, inr, Option, none, arith, Bool-cases, Result, ok, codes,
}
use smg_secure_microgrid.Wire.Frame.Sizes.{recv_msg-Took, Took}
use smg_secure_microgrid.Base.Post.{continue_post}

module _ (w : World) (json : Json) where
  skip_setpoints-ends :
      (fuel : ℕ) (resp : Payload) (c : Conn)
      → size c.incoming < fuel
      → (skip_setpoints w json fuel resp c).0 ≢ ok none
  unfolding skip_setpoints
  skip_setpoints-ends zero resp c h = absurd (omega arith)
  skip_setpoints-ends (suc fuel) resp c h =
      let got = recv_msg json 16384 c in
      let Ends = λ (r : Result (Option Payload)) (t : Conn). r ≢ ok none in
      elim (Bool-cases (has_str (codes "type") (codes "setpoint") resp)) [
        | inr e ↦ rw e (λ x. cc)
        | inl e ↦ rw e (
            continue_post Ends got.0 got.1 _ (λ x q y. cc)
              λ r q.
                let less =
                  subst (λ x. Took (size c.incoming) x got.1) q (recv_msg-Took json 16384 c) in
                skip_setpoints-ends fuel r got.1 (omega (arith, less)))
      ]

  -- Whatever the server sends after a data message, any number of setpoints included, the client's
  -- loop that skips them does not run out of rounds: it gives an answer or raises.
  pub next_answer-ends : (c : Conn) → (next_answer w json c).0 ≢ ok none
  unfolding next_answer
  next_answer-ends c =
      let got = recv_msg json 16384 c in
      let Ends = λ (r : Result (Option Payload)) (t : Conn). r ≢ ok none in
      continue_post Ends got.0 got.1 _ (λ x q y. cc)
        λ r q. skip_setpoints-ends (suc (size got.1.incoming)) r got.1 (omega arith)
