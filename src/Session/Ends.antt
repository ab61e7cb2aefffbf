-- ===== src/Session/Ends.antt =====
-- The data loop of smg_primary_server/auth_service.py comes to an end.
use smg_secure_microgrid.Session.Untouched.{handle_p4-Untouched}
use smg_secure_microgrid.Wire.Socket.Size.{size}
use smg_secure_microgrid.Session.Logout.{handle_p5}
use smg_secure_microgrid.Base.Exec.{Exec, continue, pure}
use smg_secure_microgrid.Base.Dict.{has_str, Payload}
use smg_secure_microgrid.Session.Exchange.{handle_p4}
use smg_secure_microgrid.Wire.Frame.{recv_msg}
use smg_secure_microgrid.Base.{
  ℕ, zero, suc, ◌≤◌, ◌<◌, ◌≡◌, refl, sym, ap, subst, ◌≢◌, inl, inr, Bool, true, false, arith,
  if◌then◌else◌, Bool-cases, timeout, Result, ok, err, codes,
}
use smg_secure_microgrid.Base.Post.{continue_post}
use smg_secure_microgrid.Session.{State, Server}
use smg_secure_microgrid.Session.Run.{
  Ended, loop_round, on_received, dispatch, Round, break, again, left, out_of_fuel, run_data_loop,
}
use smg_secure_microgrid.Wire.Frame.Sizes.{recv_msg-Took, Took}

module _ (c : Server) where
  -- A round after which the loop goes on has used something up.
  abbrev Advances : ℕ → Result Round → State c → Type 0
  Advances k (ok break) t = Unit
  Advances k (ok again) t = size t.conn.incoming < k
  Advances k (err e) t = Unit

  dispatch-Advances :
      (k : ℕ) (msg : Payload) (t : State c)
      → size t.conn.incoming < k
      → Advances k (dispatch c msg t).0 (dispatch c msg t).1
  unfolding dispatch
  dispatch-Advances k msg t h = elim (Bool-cases (has_str (codes "type") (codes "dx_msg") msg)) [
    | inl e ↦
        let kept = (handle_p4-Untouched c t msg t (refl, refl, refl)).0 in
        rw e (
          continue_post (Advances k) (handle_p4 c msg t).0 (handle_p4 c msg t).1 _ (λ _ _. tt)
            λ _ _. subst (λ es. size es < k) (sym kept) h)
    | inr e ↦ elim (Bool-cases (has_str (codes "type") (codes "logout_req") msg)) [
      | inl e' ↦
          rw (e, e')
            (continue_post (Advances k) (handle_p5 c msg t).0 (handle_p5 c msg t).1 _ (λ _ _. tt)
              λ _ _. tt)
      | inr e' ↦ rw (e, e') h
    ]
  ]

  on_received-Advances :
      (k : ℕ) (r : Result Payload) (t : State c)
      → Took k r t.conn
      → Advances k (on_received c r t).0 (on_received c r t).1
  unfolding on_received
  on_received-Advances k (ok msg) t h = dispatch-Advances k msg t h
  on_received-Advances k (err timeout) t h = tt
  on_received-Advances k (err e) t h = tt

  loop_round-Advances :
      (s : State c) → Advances (size s.conn.incoming) (loop_round c s).0 (loop_round c s).1
  unfolding loop_round
  loop_round-Advances s =
      let got = recv_msg c.json 65536 s.conn in
      on_received-Advances (size s.conn.incoming) got.0 (record s { conn = got.1 })
        (recv_msg-Took c.json 65536 s.conn)

  -- What follows a round, on one round less.
  abbrev pub next : ℕ → Round → Exec (State c) Ended
  next fuel break = pure left
  next fuel again = run_data_loop c fuel

  pub run_data_loop_lem :
      (fuel : ℕ) (s : State c)
      → run_data_loop c (suc fuel) s ≡ (
          if s.session_active
          then continue (loop_round c s).0 (next fuel) (loop_round c s).1
          else (ok left, s))
  unfolding run_data_loop
  run_data_loop_lem fuel s =
      ap (λ go. if s.session_active then go else (ok left, s))
        (step (loop_round c s).0 (loop_round c s).1)
    where
      step :
          (r : Result Round) (t : State c)
          → continue r (λ round. elim round [ break ↦ pure left | again ↦ run_data_loop c fuel ]) t
            ≡ continue r (next fuel) t
      step (ok break) t = refl
      step (ok again) t = refl
      step (err e) t = refl

  next-ends :
      (fuel k : ℕ) (r : Result Round) (t : State c)
      → Advances k r t
      → k ≤ fuel
      → ((u : State c) → size u.conn.incoming < fuel → (run_data_loop c fuel u).0 ≢ ok out_of_fuel)
      → (continue r (next fuel) t).0 ≢ ok out_of_fuel
  next-ends fuel k (ok break) t h le ih = λ e. cc
  next-ends fuel k (ok again) t h le ih = ih t (omega arith)
  next-ends fuel k (err x) t h le ih = λ e. cc

  either-ends :
      (b : Bool) (x y : Result Ended × State c)
      → x.0 ≢ ok out_of_fuel
      → y.0 ≢ ok out_of_fuel
      → (if b then x else y).0 ≢ ok out_of_fuel
  either-ends true x y h k = h
  either-ends false x y h k = k

  -- With more rounds than bytes and events are to come, the data loop does not run out of them,
  -- whatever is received: it leaves or raises.
  pub run_data_loop-ends :
      (fuel : ℕ) (s : State c)
      → size s.conn.incoming < fuel
      → (run_data_loop c fuel s).0 ≢ ok out_of_fuel
  run_data_loop-ends zero s h = absurd (omega arith)
  run_data_loop-ends (suc fuel) s h = rw run_data_loop_lem (
      either-ends s.session_active (continue (loop_round c s).0 (next fuel) (loop_round c s).1)
        (ok left, s)
        (next-ends fuel (size s.conn.incoming) (loop_round c s).0 (loop_round c s).1
          (loop_round-Advances s) (omega arith) (run_data_loop-ends fuel))
        (λ x. cc))
