-- ===== src/Wire/Hex.antt =====
-- `bytes.hex()`, `binascii.hexlify` and `bytes.fromhex`, and `hex_to_bin` of
-- smg_primary_server/rot_challenge_service.py.
use smg_secure_microgrid.Base.{
  ℕ, ◌+◌, ◌-◌, ◌*◌, ◌/◌, ◌%◌, ◌<◌, ◌≡◌, refl, ap, Bool, false, ◌&&◌, ◌||◌, Option, none, some, [],
  ◌∷◌, arith, ltb, leb, ◌==◌, if◌then◌else◌, All, length, protocol, value, Result, ok, err, Bytes,
  Text, IsByte, ◌>>=◌,
}

-- A digit in lower case, as `bytes.hex` writes it.
unfoldable pub hex_digit : ℕ → ℕ
hex_digit d = if ltb d 10 then 48 + d else 87 + d

-- The value of a digit of either case.
digit_value : ℕ → Option ℕ
digit_value c =
    if leb 48 c && leb c 57
    then some (c - 48)
    else if leb 97 c && leb c 102
    then some (c - 87)
    else if leb 65 c && leb c 70
    then some (c - 55)
    else none

-- ASCII white space, which `bytes.fromhex` skips between bytes.
is_space : ℕ → Bool
is_space c = (leb 9 c && leb c 13) || c == 32

-- `b.hex()`, `binascii.hexlify(b).decode()`
unfoldable pub hex : Bytes → Text
unfolding hex_digit
hex [] = []
hex (b ∷ bs) = hex_digit (b / 16) ∷ hex_digit (b % 16) ∷ hex bs

-- Two digits make a byte, in front of the bytes that follow.
pair_digits : Option ℕ → Option ℕ → Result Bytes → Result Bytes
pair_digits (some h) (some l) (ok bs) = ok ((h * 16 + l) ∷ bs)
pair_digits (some h) (some l) (err e) = err e
pair_digits (some h) none rest = err value
pair_digits none low rest = err value

-- `bytes.fromhex(s)`
unfoldable pub from_hex : Text → Result Bytes
unfolding digit_value is_space pair_digits
from_hex [] = ok []
from_hex (c ∷ []) = if is_space c then ok [] else err value
from_hex (c ∷ d ∷ s) =
    let skipped = from_hex (d ∷ s) in
    let pair = pair_digits (digit_value c) (digit_value d) (from_hex s) in
    if is_space c then skipped else pair

-- `binascii.unhexlify(s)`: pairs of digits only, no white space.
unfoldable pub unhexlify : Text → Result Bytes
unfolding digit_value pair_digits
unhexlify [] = ok []
unhexlify (c ∷ []) = err value
unhexlify (c ∷ d ∷ s) = pair_digits (digit_value c) (digit_value d) (unhexlify s)

unfoldable pub hex_to_bin : Text → ℕ → Result Bytes
hex_to_bin s expected_len = do
  b ← from_hex s
  if length b == expected_len then ok b else err protocol

digit_value-hex_digit : (d : ℕ) → d < 16 → digit_value (hex_digit d) ≡ some d
unfolding digit_value hex_digit
digit_value-hex_digit d h = ground arith

is_space-hex_digit : (d : ℕ) → d < 16 → is_space (hex_digit d) ≡ false
unfolding is_space hex_digit
is_space-hex_digit d h = ground arith

-- Hexadecimal text of bytes reads back as those bytes.
pub from_hex-hex : (bs : Bytes) → All IsByte bs → from_hex (hex bs) ≡ ok bs
unfolding from_hex hex
from_hex-hex [] h = refl
from_hex-hex (b ∷ bs) (hb, h) =
    rw
      (
        is_space-hex_digit (b / 16) (omega arith),
        digit_value-hex_digit (b / 16) (omega arith),
        digit_value-hex_digit (b % 16) (omega arith),
        from_hex-hex bs h,
      )
      (ground arith)

pub unhexlify-hex : (bs : Bytes) → All IsByte bs → unhexlify (hex bs) ≡ ok bs
unfolding unhexlify hex
unhexlify-hex [] h = refl
unhexlify-hex (b ∷ bs) (hb, h) =
    rw
      (
        digit_value-hex_digit (b / 16) (omega arith),
        digit_value-hex_digit (b % 16) (omega arith),
        unhexlify-hex bs h,
      )
      (ground arith)

pub length-hex : (bs : Bytes) → length (hex bs) ≡ 2 * length bs
unfolding hex
length-hex [] = omega arith
length-hex (b ∷ bs) = omega (arith, length-hex bs)

-- `hex_to_bin` accepts only strings of the expected length.
pub length-hex_to_bin : (s : Text) (n : ℕ) {b : Bytes} → hex_to_bin s n ≡ ok b → length b ≡ n
unfolding hex_to_bin
length-hex_to_bin s n h = ground arith

pub hex_to_bin-hex : (bs : Bytes) → All IsByte bs → hex_to_bin (hex bs) (length bs) ≡ ok bs
unfolding hex_to_bin
hex_to_bin-hex bs h = rw (from_hex-hex bs h) (ground arith)

-- Hexadecimal text tells bytes apart.
pub hex_inj : (xs ys : Bytes) → All IsByte xs → All IsByte ys → hex xs ≡ hex ys → xs ≡ ys
hex_inj xs ys hx hy e = cc (from_hex-hex xs hx, from_hex-hex ys hy, ap from_hex e)
