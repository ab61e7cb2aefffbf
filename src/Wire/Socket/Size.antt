-- ===== src/Wire/Socket/Size.antt =====
-- What is still to come on a connection shrinks with each read.
use smg_secure_microgrid.Base.{
  ℕ, zero, suc, ◌+◌, ◌-◌, ◌≤◌, ◌<◌, ◌≡◌, inl, inr, List, [], ◌∷◌, ◌++◌, arith, lt→ltb, Bool-cases,
  length, drop, length-drop, Result, ok, err, Bytes,
}
use native.Mathlib.Decide.{dec_lt}
use smg_secure_microgrid.Wire.Socket.Exact.{recv_loop_done}
use smg_secure_microgrid.Base.Exec.{Exec, continue}
use smg_secure_microgrid.Wire.Socket.{
  Event, arrives, raises, Conn, leftover, recv, recv_event, recv_loop, recv_exact, chunk_or_raise,
}

-- The events and the bytes still to come.
abbrev pub size : List Event → ℕ
size [] = 0
size (arrives b bs ∷ es) = suc (suc (length bs)) + size es
size (raises e ∷ es) = suc (size es)

size-leftover : (bs : Bytes) (es : List Event) → size (leftover bs es) ≤ suc (length bs) + size es
size-leftover [] es = omega arith
size-leftover (b ∷ bs) es = omega arith

-- A read that returned something made the rest smaller.
abbrev Shrinks : Result Bytes → ℕ → ℕ → Type 0
Shrinks (ok (b ∷ bs)) m n = m < n
Shrinks (ok []) m n = m ≤ n
Shrinks (err e) m n = m ≤ n

recv-Shrinks :
    (n : ℕ) (c : Conn) → 0 < n → Shrinks (recv n c).0 (size (recv n c).1.incoming) (size c.incoming)
unfolding recv recv_event
recv-Shrinks n c h = elim (Bool-cases c.closed) [
  | inl closed ↦ rw closed (omega arith)
  | inr opened ↦ rw opened (go n c.incoming h)
]
  where
    go :
        (n : ℕ) (es : List Event)
        → 0 < n
        → Shrinks (recv_event n es).0 (size (recv_event n es).1) (size es)
    go n [] h = omega arith
    go n (raises e ∷ es) h = omega arith
    go zero (arrives b bs ∷ es) h = absurd (omega arith)
    go (suc n) (arrives b bs ∷ es) h = omega (arith, size-leftover (drop n bs) es, length-drop n bs)

-- One round of the loop, from what its rest leaves.
round_size :
    (rest : Bytes → Exec Conn Bytes) (r : Result Bytes) (c : Conn) (k : ℕ)
    → Shrinks r (size c.incoming) k
    → ((got : Bytes) → size (rest got c).1.incoming ≤ size c.incoming)
    → (size (continue r (λ chunk. chunk_or_raise chunk rest) c).1.incoming ≤ k)
      × ((bs : Bytes)
          → (continue r (λ chunk. chunk_or_raise chunk rest) c).0 ≡ ok bs
          → size (continue r (λ chunk. chunk_or_raise chunk rest) c).1.incoming < k)
round_size rest (err e) c k h ih = (h, λ bs e. cc)
round_size rest (ok []) c k h ih = (h, λ bs e. cc)
round_size rest (ok (b ∷ bs)) c k h ih =
    (omega (arith, ih (b ∷ bs)), λ _ _. omega (arith, ih (b ∷ bs)))

-- The loop leaves no more than there was.
recv_loop-size :
    (fuel n : ℕ) (buf : Bytes) (c : Conn)
    → size (recv_loop fuel n buf c).1.incoming ≤ size c.incoming
unfolding recv_loop
recv_loop-size zero n buf c = omega arith
recv_loop-size (suc fuel) n buf c = elim (dec_lt (length buf) n) [
  | yes more ↦
      rw (lt→ltb (length buf) n more)
        (round_size (λ got. recv_loop fuel n (buf ++ got)) (recv (n - length buf) c).0
          (recv (n - length buf) c).1 (size c.incoming)
          (recv-Shrinks (n - length buf) c (omega arith))
          (λ got. recv_loop-size fuel n (buf ++ got) (recv (n - length buf) c).1)).0
  | no done ↦ rw (recv_loop_done (suc fuel) n buf c (omega arith)) (omega arith)
]

pub recv_exact-size : (n : ℕ) (c : Conn) → size (recv_exact n c).1.incoming ≤ size c.incoming
unfolding recv_exact
recv_exact-size n c = recv_loop-size n n [] c

-- Reading one byte at least leaves less.
pub recv_exact-shrinks :
    (n : ℕ) (c : Conn) (bs : Bytes)
    → 0 < n
    → (recv_exact n c).0 ≡ ok bs
    → size (recv_exact n c).1.incoming < size c.incoming
unfolding recv_exact recv_loop
recv_exact-shrinks zero c bs h = absurd (omega arith)
recv_exact-shrinks (suc n) c bs h = rw (lt→ltb 0 (suc n) h) (
    (round_size (λ got. recv_loop n (suc n) got) (recv (suc n - 0) c).0 (recv (suc n - 0) c).1
        (size c.incoming) (recv-Shrinks (suc n - 0) c (omega arith))
        (λ got. recv_loop-size n (suc n) got (recv (suc n - 0) c).1)).1
      bs)
