-- ===== src/DataStore/Median.antt =====
-- `get_median_v_bus` of smg_primary_server/data_store.py, the reference of the anomaly detection.
pub mod Sorted
use smg_secure_microgrid.Base.{
  ◌≤◌, ◌<◌, ◌≡◌, ◌≢◌, ◌⊎◌, not, Option, none, some, List, [], ◌∷◌, map, if◌then◌else◌, length,
  wrong_type, other, Result, ok, err, Text, codes, ◌>>=◌,
}
use mathlib.Core.List.{Perm}
use mathlib.Core.List.Perm
use smg_secure_microgrid.Base.Dict.{lookup, Dict}
use smg_secure_microgrid.Numbers.{nothing, number, Field, Reading, Arith}
use smg_secure_microgrid.DataStore.{DataStore, insert_sorted}
use smg_secure_microgrid.DataStore.Median.Sorted.{IsSorted, IsMiddle}

-- The `V_bus` of the nodes other than the given one, in the order of the latest readings.
pub data OtherValues {F : Type 0} (node : Text) : Dict (Reading F) → List (Field F) → Type 0 where
  none_left : OtherValues node [] []
  own :
      {r : Reading F} {d : Dict (Reading F)} {vs : List (Field F)}
      → OtherValues node d vs
      → OtherValues node ((node, r) ∷ d) vs
  without :
      {j : Text} {r : Reading F} {d : Dict (Reading F)} {vs : List (Field F)}
      → j ≢ node
      → (lookup (codes "V_bus") r ≡ none) ⊎ (lookup (codes "V_bus") r ≡ some nothing)
      → OtherValues node d vs
      → OtherValues node ((j, r) ∷ d) vs
  with_value :
      {j : Text} {r : Reading F} {f : Field F} {d : Dict (Reading F)} {vs : List (Field F)}
      → j ≢ node
      → lookup (codes "V_bus") r ≡ some f
      → f ≢ nothing
      → OtherValues node d vs
      → OtherValues node ((j, r) ∷ d) (f ∷ vs)

module _ (a : Arith) where
  -- What the median of some values is.
  abbrev pub IsMedian : List (Field a.Float) → Result (Option a.Float) → Type 0
  IsMedian vs (ok none) = length vs < 2
  IsMedian vs (ok (some m)) =
      (2 ≤ length vs)
      × ((xs : List a.Float) × (ys : List a.Float) × (vs ≡ map number xs)
          × Perm ys xs
          × IsSorted a ys
          × IsMiddle a ys m)
  IsMedian vs (err e) =
      (2 ≤ length vs) × (e ≡ wrong_type) × ((xs : List a.Float) → vs ≢ map number xs)

  -- The values as numbers, where they are.
  abbrev Numbers : List (Field a.Float) → Result (List a.Float) → Type 0
  Numbers vs (ok xs) = vs ≡ map number xs
  Numbers vs (err e) = (e ≡ wrong_type) × ((xs : List a.Float) → vs ≢ map number xs)
