-- ===== src/Rot/Run/Safe.antt =====
-- A whole session of smg_primary_server/rot_challenge_service.py, from `run` to its end.
use smg_secure_microgrid.Base.{
  ◌≡◌, refl, sym, ◌∙◌, subst, ◌≢◌, Bool, true, false, Option, none, [], if◌then◌else◌, connection,
  Result, ok, err, Bytes,
}
use mathlib.Core.Bool.{true≢false}
use smg_secure_microgrid.Base.Exec.{continue, pure}
use smg_secure_microgrid.Base.Post.{continue_post}
use smg_secure_microgrid.Wire.Socket.{Conn}
use smg_secure_microgrid.Rot.{RotSession, Setting, new_session, handshake}
use smg_secure_microgrid.Rot.Authentic.{Evidence, Outcome, handshake-Outcome}
use smg_secure_microgrid.Rot.Run.{enough, data_loop, rescue, serve_data, run}
use smg_secure_microgrid.Rot.Run.Loop.{Logged, Keeps, data_loop-Keeps}

module _ (c : Setting) where
  -- What a session leaves, and what `run` returned or raised.
  pub record Session (r : Result Bool) (s : RotSession) : Type 0 where
    pub authentic : s.authenticated ≡ true → Evidence c s.key_ab
    pub result : (b : Bool) → r ≡ ok b → b ≡ s.authenticated
    pub logged : Logged c s.key_ab s.log
    pub silent : s.authenticated ≡ false → (s.key_ab ≡ none) × (s.log ≡ [])

  rescue_state : (r : Result Bool) (s : RotSession) → (rescue r s).1 ≡ s
  unfolding rescue
  rescue_state (ok b) s = refl
  rescue_state (err connection) s = refl
  rescue_state (err e) s = refl

  rescue_result :
      (r : Result Bool) (s : RotSession)
      → ((b : Bool) → r ≡ ok b → b ≡ s.authenticated)
      → (b : Bool) → (rescue r s).0 ≡ ok b
      → b ≡ s.authenticated
  unfolding rescue
  rescue_result (ok b) s h b' e = h b' e
  rescue_result (err connection) s h b e = cc
  rescue_result (err e) s h b p = cc

  settled :
      (key : Option Bytes) (r : Result Bool) (t : RotSession)
      → r ≢ ok false
      → Keeps c true key t
      → Evidence c key
      → Session r t
  settled key r t n (a, k, l) e = record {
    authentic = λ h. subst (Evidence c) (sym k) e;
    result = answer;
    logged = subst (λ q. Logged c q t.log) (sym k) l;
    silent = λ h. absurd (true≢false (sym a ∙ h));
  }
    where
      answer : (b : Bool) → r ≡ ok b → b ≡ t.authenticated
      answer true p = sym a
      answer false p = absurd (n p)

  served :
      (s : RotSession)
      → s.authenticated ≡ true
      → s.log ≡ []
      → Evidence c s.key_ab
      → Session (serve_data c s).0 (serve_data c s).1
  unfolding serve_data
  served s a l e =
      let kept : Keeps c true s.key_ab (data_loop c (enough s) s).1 =
        data_loop-Keeps c true s.key_ab (enough s) s (a, refl, rw l tt) in
      continue_post Session (data_loop c (enough s) s).0 (data_loop c (enough s) s).1 _
        (λ x _. settled s.key_ab (err x) _ (λ h. cc) kept e)
        (λ x _. settled s.key_ab (ok true) _ (λ h. cc) kept e)

  unserved :
      (r : Result Bool) (s : RotSession)
      → ((b : Bool) → r ≡ ok b → b ≡ s.authenticated)
      → Outcome c r s
      → Session r s
  unserved r s ans o = record {
    authentic = o.authentic;
    result = ans;
    logged = rw o.unlogged tt;
    silent = λ h. (o.keyless h, o.unlogged);
  }

  rescued : (r : Result Bool) (s : RotSession) → Session r s → Session (rescue r s).0 (rescue r s).1
  rescued r s o = rw rescue_state (record {
    authentic = o.authentic;
    result = rescue_result r s o.result;
    logged = o.logged;
    silent = o.silent;
  })

  after_handshake :
      (r : Result Bool) (s : RotSession)
      → Outcome c r s
      → let out = continue r (λ accepted. if accepted then serve_data c else pure false) s in
        Session out.0 out.1
  after_handshake (ok true) s o =
      served s (o.accepted refl) o.unlogged (o.authentic (o.accepted refl))
  after_handshake (ok false) s o = unserved (ok false) s (λ b p. cc (o.rejected refl)) o
  after_handshake (err e) s o = unserved (err e) s (λ b p. cc) o

  -- For every network and every peer, from a new session: `authenticated` is set only for a
  -- registered device whose key verified the transcript's signature, and `key_ab` is then that
  -- transcript's key; what `run` returns, if it raises nothing, is `authenticated`; every logged
  -- payload is the decryption of a data message under `key_ab`; and a session that is not
  -- authenticated has no key and has logged nothing.
  pub run-Session :
      (conn : Conn) → Session (run c (new_session conn)).0 (run c (new_session conn)).1
  unfolding run
  run-Session conn =
      let s = new_session conn in
      let (r, t) = handshake c s in
      let out = continue r (λ accepted. if accepted then serve_data c else pure false) t in
      rescued out.0 out.1 (after_handshake r t (handshake-Outcome c s (refl, refl, refl)))
