-- ===== src/Wire/Socket/Exact.antt =====
-- What the receive loop returns, for every way of cutting the stream into chunks.
use smg_secure_microgrid.Base.{
  ℕ, zero, suc, ◌+◌, ◌-◌, ◌≤◌, ◌<◌, ◌≡◌, refl, sym, ap, ◌∙◌, inl, inr, true, false, List, [], ◌∷◌,
  ◌++◌, append_assoc, append-nil, arith, ltb, if◌then◌else◌, lt→ltb, Bool-cases, length, take, drop,
  length-append, length-take, take-append_of_le, drop-append_of_le, drop-nil, take-append_of_ge,
  drop-append_of_ge, take_all, drop_all, Error, connection, ok, err, Bytes,
}
use smg_secure_microgrid.Wire.Socket.{
  Event, arrives, raises, Conn, leftover, recv, recv_event, recv_loop, recv_exact,
}
use native.Mathlib.Decide.{dec_lt}

-- The bytes that arrive before the stream ends or fails.
abbrev pub delivers : List Event → Bytes
delivers [] = []
delivers (arrives b bs ∷ es) = (b ∷ bs) ++ delivers es
delivers (raises e ∷ es) = []

-- What a `recv` loop raises when those bytes are used up.
abbrev pub ending : List Event → Error
ending [] = connection
ending (arrives b bs ∷ es) = ending es
ending (raises e ∷ es) = e

-- The events left when `n` bytes have been read.
unfoldable pub after : ℕ → List Event → List Event
after n [] = []
after n (raises e ∷ es) = raises e ∷ es
after n (arrives b bs ∷ es) =
    let rest = after (n - suc (length bs)) es in
    if ltb n (suc (length bs)) then leftover (drop n (b ∷ bs)) es else rest

delivers-leftover : (bs : Bytes) (es : List Event) → delivers (leftover bs es) ≡ bs ++ delivers es
delivers-leftover [] es = refl
delivers-leftover (b ∷ bs) es = refl

pub delivers-after : (n : ℕ) (es : List Event) → delivers (after n es) ≡ drop n (delivers es)
unfolding after
delivers-after n [] = sym (drop-nil n)
delivers-after n (raises e ∷ es) = sym (drop-nil n)
delivers-after n (arrives b bs ∷ es) = elim (Bool-cases (ltb n (suc (length bs)))) [
  | inl t ↦ rw t (
      delivers-leftover (drop n (b ∷ bs)) es
      ∙ sym (drop-append_of_le n (b ∷ bs) (delivers es) (ground arith)))
  | inr t ↦ rw t (
      delivers-after (n - suc (length bs)) es
      ∙ sym (drop-append_of_ge n (b ∷ bs) (delivers es) (ground arith)))
]

ending-leftover : (bs : Bytes) (es : List Event) → ending (leftover bs es) ≡ ending es
ending-leftover [] es = refl
ending-leftover (b ∷ bs) es = refl

pub ending-after : (n : ℕ) (es : List Event) → ending (after n es) ≡ ending es
unfolding after
ending-after n [] = refl
ending-after n (raises e ∷ es) = refl
ending-after n (arrives b bs ∷ es) = elim (Bool-cases (ltb n (suc (length bs)))) [
  | inl t ↦ rw t (ending-leftover (drop n (b ∷ bs)) es)
  | inr t ↦ rw t (ending-after (n - suc (length bs)) es)
]

after-zero : (es : List Event) → after 0 es ≡ es
unfolding after
after-zero [] = refl
after-zero (raises e ∷ es) = refl
after-zero (arrives b bs ∷ es) = ground arith

pub recv_loop_done :
    (fuel n : ℕ) (buf : Bytes) (c : Conn) → n ≤ length buf → recv_loop fuel n buf c ≡ (ok buf, c)
unfolding recv_loop
recv_loop_done zero n buf c h = refl
recv_loop_done (suc fuel) n buf c h = ground arith

-- An open connection with the events `es` to come.
abbrev pub opened : List Event → List Bytes → ℕ → Conn
opened es sent room = record { incoming = es; sent = sent; room = room; closed = false }

-- The last round, where the chunk is long enough, and a round that takes all of a chunk.
module _ (m b : ℕ) (bs : Bytes) (es : List Event) where
  after-short : m < suc (length bs) → after m (arrives b bs ∷ es) ≡ leftover (drop m (b ∷ bs)) es
  unfolding after
  after-short h = rw (lt→ltb m (suc (length bs)) h)

  after-long : suc (length bs) ≤ m → after m (arrives b bs ∷ es) ≡ after (m - suc (length bs)) es
  unfolding after
  after-long h = ground arith

  take-short : m < suc (length bs) → take m (delivers (arrives b bs ∷ es)) ≡ take m (b ∷ bs)
  take-short h = take-append_of_le m (b ∷ bs) (delivers es) (omega arith)

  take-long :
      suc (length bs) ≤ m
      → take m (delivers (arrives b bs ∷ es)) ≡ (b ∷ bs) ++ take (m - suc (length bs)) (delivers es)
  take-long h = take-append_of_ge m (b ∷ bs) (delivers es) h

-- One round of the loop.
recv_loop_round :
    (fuel n m : ℕ) (buf : Bytes) (b : ℕ) (bs : Bytes) (es : List Event) (sent : List Bytes)
    (room : ℕ)
    → length buf + suc m ≡ n
    → recv_loop (suc fuel) n buf (opened (arrives b bs ∷ es) sent room)
      ≡ recv_loop fuel n
          (buf ++ take (suc m) (b ∷ bs))
          (opened (leftover (drop (suc m) (b ∷ bs)) es) sent room)
unfolding recv_loop recv recv_event
recv_loop_round fuel n m buf b bs es sent room h =
    let more : ltb (length buf) n ≡ true = lt→ltb (length buf) n (omega arith) in
    let left : n - length buf ≡ suc m = omega arith in rw (more, left)

-- The loop reads `m` more bytes.
recv_loop_lem :
    (fuel n m : ℕ) (buf : Bytes) (es : List Event) (sent : List Bytes) (room : ℕ)
    → length buf + m ≡ n
    → m ≤ fuel
    → m ≤ length (delivers es)
    → recv_loop fuel n buf (opened es sent room)
      ≡ (ok (buf ++ take m (delivers es)), opened (after m es) sent room)
recv_loop_lem fuel n zero buf es sent room h f l =
    rw (after-zero es, append-nil) (recv_loop_done fuel n buf (opened es sent room) (omega arith))
recv_loop_lem zero n (suc m) buf es sent room h f l = absurd (omega arith)
recv_loop_lem (suc fuel) n (suc m) buf [] sent room h f l = absurd (omega arith)
recv_loop_lem (suc fuel) n (suc m) buf (raises x ∷ es) sent room h f l = absurd (omega arith)
recv_loop_lem (suc fuel) n (suc m) buf (arrives b bs ∷ es) sent room h f l =
    recv_loop_round fuel n m buf b bs es sent room h ∙ elim (dec_lt (suc m) (suc (length bs))) [
      | yes p ↦
          rw (after-short (suc m) b bs es p, take-short (suc m) b bs es p)
            (recv_loop_done fuel n (buf ++ b ∷ take m bs)
              (opened (leftover (drop m bs) es) sent room)
              (omega (arith, length-append buf (b ∷ take m bs), length-take m bs)))
      | no q ↦
          rw
            (
              after-long (suc m) b bs es (omega arith),
              take-long (suc m) b bs es (omega arith),
              take_all (suc m) (b ∷ bs) (omega arith),
              drop_all (suc m) (b ∷ bs) (omega arith),
            )
            (recv_loop_lem fuel n (suc m - suc (length bs)) (buf ++ b ∷ bs) es sent room
                (omega (arith, length-append buf (b ∷ bs))) (omega arith)
                (omega (arith, length-append bs (delivers es)))
              ∙ ap (λ (r : Bytes). (ok r, opened (after (suc m - suc (length bs)) es) sent room))
                  (append_assoc buf (b ∷ bs) _))
    ]

-- When `n` bytes are to come, in whatever chunks, exactly those are returned and nothing beyond
-- them is consumed.
pub recv_exact_lem :
    (n : ℕ) (es : List Event) (sent : List Bytes) (room : ℕ)
    → n ≤ length (delivers es)
    → recv_exact n (opened es sent room)
      ≡ (ok (take n (delivers es)), opened (after n es) sent room)
unfolding recv_exact
recv_exact_lem n es sent room l = recv_loop_lem n n n [] es sent room (omega arith) (omega arith) l

recv_loop_short :
    (fuel n m : ℕ) (buf : Bytes) (es : List Event) (sent : List Bytes) (room : ℕ)
    → length buf + m ≡ n
    → m ≤ fuel
    → length (delivers es) < m
    → (recv_loop fuel n buf (opened es sent room)).0 ≡ err (ending es)
recv_loop_short fuel n zero buf es sent room h f l = absurd (omega arith)
recv_loop_short zero n (suc m) buf es sent room h f l = absurd (omega arith)
recv_loop_short (suc fuel) n (suc m) buf [] sent room h f l =
    let more : ltb (length buf) n ≡ true = lt→ltb (length buf) n (omega arith) in
    unfold recv_loop recv recv_event in rw more
recv_loop_short (suc fuel) n (suc m) buf (raises x ∷ es) sent room h f l =
    let more : ltb (length buf) n ≡ true = lt→ltb (length buf) n (omega arith) in
    unfold recv_loop recv recv_event in rw more
recv_loop_short (suc fuel) n (suc m) buf (arrives b bs ∷ es) sent room h f l =
    rw
      (
        recv_loop_round fuel n m buf b bs es sent room h,
        take_all (suc m) (b ∷ bs) (omega (arith, length-append bs (delivers es))),
        drop_all (suc m) (b ∷ bs) (omega (arith, length-append bs (delivers es))),
      )
      (recv_loop_short fuel n (m - length bs) (buf ++ b ∷ bs) es sent room
        (omega (arith, length-append buf (b ∷ bs), length-append bs (delivers es))) (omega arith)
        (omega (arith, length-append bs (delivers es))))

-- When fewer than `n` bytes are to come, the receipt fails with the failure that the stream ends
-- with, a lost connection if it just closes.
pub recv_exact_short :
    (n : ℕ) (es : List Event) (sent : List Bytes) (room : ℕ)
    → length (delivers es) < n
    → (recv_exact n (opened es sent room)).0 ≡ err (ending es)
unfolding recv_exact
recv_exact_short n es sent room l =
    recv_loop_short n n n [] es sent room (omega arith) (omega arith) l
