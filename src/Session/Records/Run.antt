-- ===== src/Session/Records/Run.antt =====
-- The loop and `run` of smg_primary_server/auth_service.py change the shared store by its `record`.
use smg_secure_microgrid.Base.Post.{Keeps}
use smg_secure_microgrid.Wire.Frame.{recv_msg}
use smg_secure_microgrid.Session.Establish.{run_p3}
use smg_secure_microgrid.Session.Genesis.{run_p2}
use smg_secure_microgrid.Base.Dict.{has_str, Payload}
use smg_secure_microgrid.Session.Logout.{handle_p5}
use smg_secure_microgrid.Session.Exchange.{handle_p4}
use smg_secure_microgrid.Session.Ends.{run_data_loop_lem, next}
use smg_secure_microgrid.Session.Run.{
  enough, Round, run, run_failed, run_body, after_p2, unexpected, serve, run_data_loop, loop_round,
  on_received, dispatch, left, break, again,
}
use smg_secure_microgrid.Session.{type_text, on_conn, send_error, log_error, State, Server}
use smg_secure_microgrid.Base.Post.{Keeps, try-Keeps, continue_post}
use smg_secure_microgrid.Base.Exec.{continue}
use smg_secure_microgrid.Session.Records.{
  Records, unchanged, Grown, handle_p4-Grown, handle_p5-Grown,
}
use smg_secure_microgrid.Session.Records.Handshake.{run_p2-Grown, run_p3-Grown}
use smg_secure_microgrid.Base.{
  ℕ, zero, suc, sym, subst, inl, inr, Bool, true, false, if◌then◌else◌, Bool-cases, Error,
  connection, timeout, Result, ok, err, Text, codes,
}

module _ (c : Server) (s0 : State c) where
  abbrev Post : {A : Type 0} → Result A → State c → Type 0
  Post r t = Grown c s0 t

  dispatch-Grown : (msg : Payload) → Keeps (Grown c s0) (dispatch c msg)
  unfolding dispatch
  dispatch-Grown msg t h = elim (Bool-cases (has_str (codes "type") (codes "dx_msg") msg)) [
    | inl e ↦
        let h' = handle_p4-Grown c s0 msg t h in
        rw e
          (continue_post Post (handle_p4 c msg t).0 (handle_p4 c msg t).1 _ (λ _ _. h') (λ _ _. h'))
    | inr e ↦ elim (Bool-cases (has_str (codes "type") (codes "logout_req") msg)) [
      | inl e' ↦
          let h' = handle_p5-Grown c s0 msg t h in
          rw (e, e')
            (continue_post Post (handle_p5 c msg t).0 (handle_p5 c msg t).1 _ (λ _ _. h')
              (λ _ _. h'))
      | inr e' ↦ rw (e, e') h
    ]
  ]

  on_received-Grown :
      (r : Result Payload) (t : State c) → (Grown c s0) t → (Grown c s0) (on_received c r t).1
  unfolding on_received
  on_received-Grown (ok msg) t h = dispatch-Grown msg t h
  on_received-Grown (err timeout) t h = h
  on_received-Grown (err e) t h = h

  loop_round-Grown : Keeps (Grown c s0) (loop_round c)
  unfolding loop_round
  loop_round-Grown t h =
      let got = recv_msg c.json 65536 t.conn in
      on_received-Grown got.0 (record t { conn = got.1 }) h

  either-Grown :
      {A : Type 0} (b : Bool) (x y : Result A × State c)
      → (Grown c s0) x.1
      → (Grown c s0) y.1
      → (Grown c s0) (if b then x else y).1
  either-Grown true x y h k = h
  either-Grown false x y h k = k

  next-Grown :
      (fuel : ℕ) (r : Result Round) (u : State c)
      → (Grown c s0) u
      → Keeps (Grown c s0) (run_data_loop c fuel)
      → (Grown c s0) (continue r (next c fuel) u).1
  next-Grown fuel (ok break) u k rest = k
  next-Grown fuel (ok again) u k rest = rest u k
  next-Grown fuel (err e) u k rest = k

  run_data_loop-Grown : (fuel : ℕ) → Keeps (Grown c s0) (run_data_loop c fuel)
  run_data_loop-Grown zero t h = unfold run_data_loop in h
  run_data_loop-Grown (suc fuel) t h =
      let h' = loop_round-Grown t h in
      subst (λ r. (Grown c s0) r.1) (sym (run_data_loop_lem c fuel t))
        (either-Grown t.session_active
          (continue (loop_round c t).0 (next c fuel) (loop_round c t).1) (ok left, t)
          (next-Grown fuel (loop_round c t).0 (loop_round c t).1 h' (run_data_loop-Grown fuel)) h)

  serve-Grown : (accepted : Bool) → Keeps (Grown c s0) (serve c accepted)
  unfolding serve
  serve-Grown false t h = h
  serve-Grown true t h =
      let out = run_data_loop c (enough t) t in
      let h' = run_data_loop-Grown (enough t) t h in
      continue_post Post out.0 out.1 _ (λ _ _. h') (λ _ _. h')

  unexpected-Grown : (wanted : Text) (msg : Payload) → Keeps (Grown c s0) (unexpected c wanted msg)
  unfolding unexpected send_error
  unexpected-Grown wanted msg t h = continue_post Post (type_text msg) t _ (λ _ _. h) (λ _ _. h)

  after_p2-Grown : (proved : Bool) → Keeps (Grown c s0) (after_p2 c proved)
  unfolding after_p2
  after_p2-Grown false t h = h
  after_p2-Grown true t h =
      let got = on_conn (recv_msg c.json 65536) t in
      continue_post Post got.0 got.1 _ (λ _ _. h)
        λ msg _. elim (Bool-cases (has_str (codes "type") (codes "ses_init") msg)) [
          | inl e ↦
              let out = run_p3 c msg got.1 in
              let h' = run_p3-Grown c s0 msg got.1 h in
              rw e (continue_post Post out.0 out.1 _ (λ _ _. h') (λ ok _. serve-Grown ok out.1 h'))
          | inr e ↦ rw e (unexpected-Grown (codes "Expected ses_init, got: ") msg got.1 h)
        ]

  run_body-Grown : Keeps (Grown c s0) (run_body c)
  unfolding run_body
  run_body-Grown t h =
      let got = on_conn (recv_msg c.json 65536) t in
      continue_post Post got.0 got.1 _ (λ _ _. h)
        λ msg _. elim (Bool-cases (has_str (codes "type") (codes "rot_hello") msg)) [
          | inl e ↦
              let out = run_p2 c msg got.1 in
              let h' = run_p2-Grown c s0 msg got.1 h in
              rw e
                (continue_post Post out.0 out.1 _ (λ _ _. h') (λ ok _. after_p2-Grown ok out.1 h'))
          | inr e ↦ rw e (unexpected-Grown (codes "Expected rot_hello, got: ") msg got.1 h)
        ]

  run_failed-Grown : (e : Error) → Keeps (Grown c s0) (run_failed c e)
  unfolding run_failed log_error
  run_failed-Grown connection t h = h
  run_failed-Grown e t h = h

-- Whatever is received, a session changes the shared store by calls of `record` only.
pub run-Records : (c : Server) (s : State c) → Records s.data_store (run c s).1.data_store
unfolding run
run-Records c s =
    try-Keeps (Grown c s) (run_body c) (run_failed c) (run_body-Grown c s) (run_failed-Grown c s) s
      unchanged
