-- ===== src/Wire/Endian.antt =====
-- `struct.pack` and `struct.unpack` at the big-endian formats `>H`, `>I` and `>Q`, and
-- `int.to_bytes`/`int.from_bytes` of smg_primary_server/protocol.py.
use native.Mathlib.Nat.{pow-suc}
use smg_secure_microgrid.Base.{
  ℕ, zero, suc, ◌+◌, ◌*◌, ◌/◌, ◌%◌, ◌^◌, ◌<◌, ◌≡◌, refl, ◌∙◌, [], ◌∷◌, ◌++◌, arith, ltb, ◌==◌,
  if◌then◌else◌, lt→ltb, All, length, length-append, All-append, struct, Result, ok, err, Bytes,
  IsByte,
}

-- The `w` bytes of a number, most significant first.
unfoldable pub be_bytes : ℕ → ℕ → Bytes
be_bytes zero n = []
be_bytes (suc w) n = be_bytes w (n / 256) ++ (n % 256) ∷ []

unfoldable pub be_value_from : ℕ → Bytes → ℕ
be_value_from acc [] = acc
be_value_from acc (b ∷ bs) = be_value_from (acc * 256 + b) bs

-- `int.from_bytes(bs, 'big')`
unfoldable pub be_value : Bytes → ℕ
unfolding be_value_from
be_value = be_value_from 0

-- `struct.pack` refuses a number that does not fit.
unfoldable pub pack : ℕ → ℕ → Result Bytes
pack w n = if ltb n (256 ^ w) then ok (be_bytes w n) else err struct

-- `struct.unpack` refuses a string of another length.
unfoldable pub unpack : ℕ → Bytes → Result ℕ
unpack w bs = if length bs == w then ok (be_value bs) else err struct

pub length-be_bytes : (w n : ℕ) → length (be_bytes w n) ≡ w
unfolding be_bytes
length-be_bytes zero n = refl
length-be_bytes (suc w) n =
    omega (arith, length-append (be_bytes w (n / 256)) (n % 256 ∷ []), length-be_bytes w (n / 256))

pub be_bytes-IsByte : (w n : ℕ) → All IsByte (be_bytes w n)
unfolding be_bytes
be_bytes-IsByte zero n = tt
be_bytes-IsByte (suc w) n =
    All-append IsByte (be_bytes w (n / 256)) (n % 256 ∷ []) (be_bytes-IsByte w (n / 256))
      (omega arith, tt)

be_value_from-append :
    (acc : ℕ) (xs : Bytes) (b : ℕ)
    → be_value_from acc (xs ++ b ∷ []) ≡ be_value_from acc xs * 256 + b
unfolding be_value_from
be_value_from-append acc [] b = refl
be_value_from-append acc (x ∷ xs) b = be_value_from-append (acc * 256 + x) xs b

pub be_value-append : (xs : Bytes) (b : ℕ) → be_value (xs ++ b ∷ []) ≡ be_value xs * 256 + b
unfolding be_value
be_value-append = be_value_from-append 0

pow_step : (w n : ℕ) → n < 256 ^ suc w → n / 256 < 256 ^ w
pow_step w n h = let e : 256 ^ suc w ≡ 256 ^ w * 256 = pow-suc 256 w in omega arith

pub be_value-be_bytes : (w n : ℕ) → n < 256 ^ w → be_value (be_bytes w n) ≡ n
unfolding be_bytes
be_value-be_bytes zero n h = unfold be_value be_value_from in omega arith
be_value-be_bytes (suc w) n h =
    be_value-append (be_bytes w (n / 256)) (n % 256)
    ∙ omega (arith, be_value-be_bytes w (n / 256) (pow_step w n h))

-- What `pack` wrote, `unpack` reads back.
pub unpack-pack : (w n : ℕ) {bs : Bytes} → pack w n ≡ ok bs → unpack w bs ≡ ok n
unfolding pack unpack
unpack-pack w n h =
    ground (arith, length-be_bytes w n, λ (p : n < 256 ^ w). be_value-be_bytes w n p)

pub pack-fits : (w n : ℕ) → n < 256 ^ w → pack w n ≡ ok (be_bytes w n)
unfolding pack
pack-fits w n h = rw (lt→ltb _ _ h)

pub length-pack : (w n : ℕ) {bs : Bytes} → pack w n ≡ ok bs → length bs ≡ w
unfolding pack
length-pack w n h = ground (arith, length-be_bytes w n)
