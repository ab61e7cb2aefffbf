-- ===== src/Rot/Run/Loop.antt =====
-- The data loop of smg_primary_server/rot_challenge_service.py: it ends, it keeps the session's key
-- and standing, and it takes only payloads that decrypt under that key.
use smg_secure_microgrid.Base.{
  ℕ, zero, suc, ◌≤◌, ◌<◌, ◌≡◌, refl, sym, ap, ◌≢◌, inl, inr, Bool, Option, List, [], ◌∷◌, arith,
  Bool-cases, All, All-append, connection, Result, ok, err, Bytes, Text, codes,
}
use smg_secure_microgrid.Base.Dict.{Payload, has_str}
use smg_secure_microgrid.Base.Exec.{Exec, continue, pure}
use smg_secure_microgrid.Wire.Socket.Size.{size}
use smg_secure_microgrid.Wire.Frame.Sizes.{Took, recv_json-Took, send_json-incoming}
use smg_secure_microgrid.Wire.Frame.{Loaded, as_dict, recv_json}
use smg_secure_microgrid.Rot.{RotSession, Setting, send_error}
use smg_secure_microgrid.Base.Post.{continue_post}
use smg_secure_microgrid.Rot.Run.{
  Round, stop, again, Ended, returned, out_of_fuel, decrypt_with, take_payload, on_message,
  after_recv, data_round, data_loop,
}

module _ (c : Setting) where
  -- A round that does not stop leaves less to come.
  abbrev Advances : ℕ → Result Round → RotSession → Type 0
  Advances k (ok again) s = size s.conn.incoming < k
  Advances k (ok stop) s = Unit
  Advances k (err e) s = Unit

  size-send_error :
      (message : Text) (s : RotSession) → (send_error c message s).1.conn.incoming ≡ s.conn.incoming
  unfolding send_error
  size-send_error message s = send_json-incoming c.json _ s.conn

  take_payload-Advances :
      (k : ℕ) (r : Result Bytes) (s : RotSession)
      → size s.conn.incoming < k
      → Advances k (take_payload c r s).0 (take_payload c r s).1
  take_payload-Advances k (ok plaintext) s h = unfold take_payload in h
  take_payload-Advances k (err e) s h = unfold take_payload in rw send_json-incoming h

  on_message-Advances :
      (k : ℕ) (msg : Payload) (s : RotSession)
      → size s.conn.incoming < k
      → Advances k (on_message c msg s).0 (on_message c msg s).1
  on_message-Advances k msg s h = elim (Bool-cases (has_str (codes "type") (codes "data") msg)) [
    | inl same_e ↦
        unfold on_message in rw same_e (take_payload-Advances k (decrypt_with c s.key_ab msg) s h)
    | inr other_e ↦ unfold on_message in rw other_e h
  ]

  after_recv-Advances :
      (k : ℕ) (r : Result Loaded) (s : RotSession)
      → Took k r s.conn
      → Advances k (after_recv c r s).0 (after_recv c r s).1
  unfolding after_recv
  after_recv-Advances k (ok loaded) s h =
      continue_post (Advances k) (as_dict loaded) s _ (λ _ _. tt)
        (λ msg _. on_message-Advances k msg s h)
  after_recv-Advances k (err connection) s h = tt
  after_recv-Advances k (err e) s h = tt

  data_round-Advances :
      (s : RotSession) → Advances (size s.conn.incoming) (data_round c s).0 (data_round c s).1
  unfolding data_round
  data_round-Advances s =
      after_recv-Advances (size s.conn.incoming) (recv_json c.json s.conn).0
        (record s { conn = (recv_json c.json s.conn).1 }) (recv_json-Took c.json s.conn)

  -- What follows a round, on one round less.
  abbrev next_round : ℕ → Round → Exec RotSession Ended
  next_round fuel stop = pure returned
  next_round fuel again = data_loop c fuel

  data_loop_lem :
      (fuel : ℕ) (s : RotSession)
      → data_loop c (suc fuel) s ≡ continue (data_round c s).0 (next_round fuel) (data_round c s).1
  unfolding data_loop
  data_loop_lem fuel s = go (data_round c s).0 (data_round c s).1
    where
      go :
          (r : Result Round) (t : RotSession)
          → continue r (λ round. elim round [ stop ↦ pure returned | again ↦ data_loop c fuel ]) t
            ≡ continue r (next_round fuel) t
      go (ok stop) t = refl
      go (ok again) t = refl
      go (err e) t = refl

  next_round-ends :
      (fuel k : ℕ) (r : Result Round) (s : RotSession)
      → Advances k r s
      → k ≤ fuel
      → ((t : RotSession) → size t.conn.incoming < fuel → (data_loop c fuel t).0 ≢ ok out_of_fuel)
      → (continue r (next_round fuel) s).0 ≢ ok out_of_fuel
  next_round-ends fuel k (ok stop) s h le ih = λ e. cc
  next_round-ends fuel k (ok again) s h le ih = ih s (omega arith)
  next_round-ends fuel k (err x) s h le ih = λ e. cc

  -- With more rounds than what is to come, the loop does not run out of them: it returns or
  -- raises, whatever is received.
  pub data_loop-ends :
      (fuel : ℕ) (s : RotSession)
      → size s.conn.incoming < fuel
      → (data_loop c fuel s).0 ≢ ok out_of_fuel
  data_loop-ends zero s h = absurd (omega arith)
  data_loop-ends (suc fuel) s h = rw data_loop_lem (
      next_round-ends fuel (size s.conn.incoming) (data_round c s).0 (data_round c s).1
        (data_round-Advances s) (omega arith) (data_loop-ends fuel))

  -- Every logged payload is what some message decrypts to under the key.
  abbrev pub Logged : Option Bytes → List Bytes → Type 0
  Logged key = All (λ p. (msg : Payload) × (decrypt_with c key msg ≡ ok p))

  module _ (accepted : Bool) (key : Option Bytes) where
    abbrev pub Keeps : RotSession → Type 0
    Keeps s = (s.authenticated ≡ accepted) × (s.key_ab ≡ key) × Logged key s.log

    take_payload-Keeps :
        (msg : Payload) (r : Result Bytes) (s : RotSession)
        → decrypt_with c key msg ≡ r
        → Keeps s
        → Keeps (take_payload c r s).1
    unfolding take_payload
    take_payload-Keeps msg (ok p) s e (a, k, l) =
        (a, k, All-append _ s.log (p ∷ []) l ((msg, e), tt))
    take_payload-Keeps msg (err x) s e h = h

    on_message-Keeps : (msg : Payload) (s : RotSession) → Keeps s → Keeps (on_message c msg s).1
    on_message-Keeps msg s (a, k, l) =
        elim (Bool-cases (has_str (codes "type") (codes "data") msg)) [
          | inl same_e ↦
              unfold on_message in
              rw same_e (
                take_payload-Keeps msg (decrypt_with c s.key_ab msg) s
                  (ap (λ q. decrypt_with c q msg) (sym k)) (a, k, l))
          | inr other_e ↦ unfold on_message in rw other_e (a, k, l)
        ]

    after_recv-Keeps : (r : Result Loaded) (s : RotSession) → Keeps s → Keeps (after_recv c r s).1
    unfolding after_recv
    after_recv-Keeps (ok loaded) s h =
        continue_post (λ _. Keeps) (as_dict loaded) s _ (λ _ _. h)
          (λ msg _. on_message-Keeps msg s h)
    after_recv-Keeps (err connection) s h = h
    after_recv-Keeps (err e) s h = h

    data_round-Keeps : (s : RotSession) → Keeps s → Keeps (data_round c s).1
    unfolding data_round
    data_round-Keeps s h =
        after_recv-Keeps (recv_json c.json s.conn).0
          (record s { conn = (recv_json c.json s.conn).1 }) h

    next_round-Keeps :
        (fuel : ℕ) (r : Result Round) (s : RotSession)
        → Keeps s
        → ((t : RotSession) → Keeps t → Keeps (data_loop c fuel t).1)
        → Keeps (continue r (next_round fuel) s).1
    next_round-Keeps fuel (ok stop) s h ih = h
    next_round-Keeps fuel (ok again) s h ih = ih s h
    next_round-Keeps fuel (err x) s h ih = h

    pub data_loop-Keeps : (fuel : ℕ) (s : RotSession) → Keeps s → Keeps (data_loop c fuel s).1
    data_loop-Keeps zero s h = unfold data_loop in h
    data_loop-Keeps (suc fuel) s h = rw data_loop_lem (
        next_round-Keeps fuel (data_round c s).0 (data_round c s).1 (data_round-Keeps s h)
          (data_loop-Keeps fuel))
