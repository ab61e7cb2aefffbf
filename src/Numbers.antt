-- ===== src/Numbers.antt =====
-- Python's floats where smg_primary_server/data_store.py, smg_primary_server/ems_coordinator.py and
-- the sensor data of smg_primary_server/auth_service.py compute with them. The arithmetic is a
-- parameter.
use smg_secure_microgrid.Base.Dict.{lookup, Dict}
use smg_secure_microgrid.Base.{
  ℕ, ◌≤◌, ◌≡◌, Bool, true, false, none, some, List, [], ◌∷◌, if◌then◌else◌, wrong_type, Result, ok,
  err, Text,
}

-- The literal 0.8 is `decimal 80`, and -0.8 is `negative 80`.
pub record Arith : Type 1 where
  pub Float : Type 0
  pub decimal : ℕ → Float
  pub negative : ℕ → Float
  pub lt : Float → Float → Bool
  pub le : Float → Float → Bool
  pub add : Float → Float → Float
  pub sub : Float → Float → Float
  pub mul : Float → Float → Float
  pub div : Float → Float → Float
  pub round : ℕ → Float → Float
  pub of_nat : ℕ → Float
  pub abs : Float → Float

-- A value of a reading: a number, `None` or a text.
pub data Field (F : Type 0) : Type 0 where
  number : F → Field F
  nothing : Field F
  text : Text → Field F

abbrev pub Reading : Type 0 → Type 0
Reading F = Dict (Field F)

module _ (a : Arith) where
  -- Python's `min(x, y)` and `max(x, y)`: the first unless the second is beyond it.
  abbrev pub fmin : a.Float → a.Float → a.Float
  fmin x y = if a.lt y x then y else x

  abbrev pub fmax : a.Float → a.Float → a.Float
  fmax x y = if a.lt x y then y else x

  -- `sum(xs)`
  unfoldable pub total : List a.Float → a.Float
  total xs = go (a.decimal 0) xs
    where
      go : a.Float → List a.Float → a.Float
      go acc [] = acc
      go acc (x ∷ xs) = go (a.add acc x) xs

  -- `reading.get(key, default)` where a number is then needed
  unfoldable pub number_or : Text → a.Float → Reading a.Float → Result a.Float
  number_or key default reading = elim (lookup key reading) [
    | none ↦ ok default
    | some (number x) ↦ ok x
    | some nothing ↦ err wrong_type
    | some (text t) ↦ err wrong_type
  ]

  -- What a comparison of floats that are not NaN obeys.
  pub record Ordered : Type 0 where
    pub le_refl : (x : a.Float) → a.le x x ≡ true
    pub le_trans : (x y z : a.Float) → a.le x y ≡ true → a.le y z ≡ true → a.le x z ≡ true
    pub le_of_not_lt : (x y : a.Float) → a.lt x y ≡ false → a.le y x ≡ true
    pub le_of_lt : (x y : a.Float) → a.lt x y ≡ true → a.le x y ≡ true
    pub decimal_mono : (m n : ℕ) → m ≤ n → a.le (a.decimal m) (a.decimal n) ≡ true
