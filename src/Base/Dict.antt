-- ===== src/Base/Dict.antt =====
-- Python's values as they cross the wire, and dicts with text keys in insertion order.
use Prim.Native.Nat.{ℕ}
use mathlib.Core.Path.{◌≡◌, refl}
use mathlib.Core.Bool.{Bool, false}
use mathlib.Core.Option.{Option, none, some}
use mathlib.Core.List.{List, [], ◌∷◌}
use native.Mathlib.Omega.{arith}
use smg_secure_microgrid.Base.Tests.{if◌then◌else◌}
use smg_secure_microgrid.Base.Strings.{Text, Bytes, same, same_refl, same_iff}
use smg_secure_microgrid.Base.Errors.{Result, ok, err, missing_key, wrong_type}

-- `raw` is a bytes object; `other` stands for the values that no handler looks into: floats,
-- negative numbers, arrays and nested objects.
pub data Value : Type 0 where
  null other : Value
  bool : Bool → Value
  num : ℕ → Value
  str : Text → Value
  raw : Bytes → Value

abbrev pub Dict {ℓ} : Type ℓ → Type ℓ
Dict V = List (Text × V)

abbrev pub Payload : Type 0
Payload = Dict Value

module _ {ℓ} {V : Type ℓ} where
  -- `d.get(k)`
  unfoldable pub lookup : Text → Dict V → Option V
  lookup k [] = none
  lookup k ((j, v) ∷ d) = if same j k then some v else lookup k d

  -- `d[k] = v`
  unfoldable pub insert : Text → V → Dict V → Dict V
  insert k v [] = (k, v) ∷ []
  insert k v ((j, w) ∷ d) = if same j k then (k, v) ∷ d else (j, w) ∷ insert k v d

  -- `del d[k]`. Every entry of the key goes; a dict has at most one.
  unfoldable pub erase : Text → Dict V → Dict V
  erase k [] = []
  erase k ((j, w) ∷ d) = let rest = erase k d in if same j k then rest else (j, w) ∷ rest

  unfoldable pub keys : Dict V → List Text
  keys [] = []
  keys ((k, _) ∷ d) = k ∷ keys d

  -- `list(d.values())`
  unfoldable pub values : Dict V → List V
  values [] = []
  values ((_, v) ∷ d) = v ∷ values d

  pub lookup-nil : (k : Text) → lookup k [] ≡ none
  unfolding lookup
  lookup-nil k = refl

  pub lookup-insert :
      (j k : Text) (v : V) (d : Dict V)
      → lookup j (insert k v d) ≡ (if same k j then some v else lookup j d)
  unfolding lookup insert
  lookup-insert j k v [] = refl
  lookup-insert j k v ((i, w) ∷ d) =
      ground (arith, same_iff k j, same_iff i k, same_iff i j, lookup-insert j k v d)

  pub lookup-insert_self : (k : Text) (v : V) (d : Dict V) → lookup k (insert k v d) ≡ some v
  lookup-insert_self k v d = rw (lookup-insert, same_refl)

  pub lookup-erase :
      (j k : Text) (d : Dict V) → lookup j (erase k d) ≡ (if same k j then none else lookup j d)
  unfolding lookup erase
  lookup-erase j k [] = ground arith
  lookup-erase j k ((i, w) ∷ d) =
      ground (arith, same_iff k j, same_iff i k, same_iff i j, lookup-erase j k d)

-- `d[k]`, where the handler then needs a str: `KeyError` or the `TypeError` of its use.
unfoldable pub get_str : Text → Payload → Result Text
get_str k d = elim (lookup k d) [
  | none ↦ err missing_key
  | some (str s) ↦ ok s
  | some _ ↦ err wrong_type
]

-- `d[k]`, where the handler then needs bytes.
unfoldable pub get_bytes : Text → Payload → Result Bytes
get_bytes k d = elim (lookup k d) [
  | none ↦ err missing_key
  | some (raw b) ↦ ok b
  | some _ ↦ err wrong_type
]

-- `d.get(k) == t`
unfoldable pub has_str : Text → Text → Payload → Bool
has_str k t d = elim (lookup k d) [ none ↦ false | some (str s) ↦ same s t | some _ ↦ false ]
