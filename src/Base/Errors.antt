-- ===== src/Base/Errors.antt =====
-- Python's exceptions as values, and methods that mutate an object and may raise: what was written
-- before a raise stays written, so the state comes back beside the error too.
use mathlib.Core.Path.{◌≡◌, refl}
use mathlib.Core.Bool.{Bool, true, false}
use mathlib.Core.Option.{Option, none, some}

-- The exception classes that the code raises or tells apart. `connection` and `timeout` are the
-- subclasses of `OSError`, `io` is any other `OSError`; `protocol` is `ProtocolError`; `value`
-- covers `ValueError` with the decoding errors below it; `other` is `AttributeError` and the like.
pub data Error : Type 0 where
  connection timeout io protocol value missing_key wrong_type : Error
  invalid_signature invalid_tag runtime struct other : Error

-- What a function that may raise comes back with.
pub data Result {ℓ} (A : Type ℓ) : Type ℓ where
  err : Error → Result A
  ok : A → Result A

-- `raise e` unless the test holds.
abbrev pub guard : Bool → Error → Result (Unit {0})
guard false e = err e
guard true e = ok tt

abbrev pub of_option {ℓ} : {A : Type ℓ} → Error → Option A → Result A
of_option e none = err e
of_option e (some a) = ok a

module _ {ℓ κ} {A : Type ℓ} {B : Type κ} where
  infixl 5 ◌>>=◌ ◌>>◌
  abbrev pub ◌>>=◌ : Result A → (A → Result B) → Result B
  err x >>= rest = err x
  ok a >>= rest = rest a

  abbrev pub ◌>>◌ : Result A → Result B → Result B
  first >> second = first >>= λ _. second

  -- A block that returned has passed its first statement.
  pub >>=-eq-ok :
      (first : Result A) (rest : A → Result B) {b : B}
      → (first >>= rest) ≡ ok b
      → (a : A) × (first ≡ ok a) × (rest a ≡ ok b)
  >>=-eq-ok (err x) rest h = cc
  >>=-eq-ok (ok a) rest h = (a, refl, h)
