-- ===== src/DataStore.antt =====
-- `DataStore` of smg_primary_server/data_store.py. Each method holds the lock for all of its work
-- on the state, so a method is one step. `time.time()` is an argument.
pub mod Refines
pub mod Median
pub mod Tests
use smg_secure_microgrid.Numbers.{nothing, text, number, Field, number_or, Arith, Reading}
use smg_secure_microgrid.Base.Dict.{values, insert, keys, lookup, Dict}
use smg_secure_microgrid.Base.{
  ℕ, ◌+◌, ◌-◌, ◌/◌, ◌%◌, Option, none, some, List, [], ◌∷◌, ◌++◌, ltb, ◌==◌, if◌then◌else◌, length,
  get_or, drop, value, wrong_type, other, Result, ok, err, Text, codes, same, ◌>>=◌, ◌>>◌,
}
use smg_secure_microgrid.Base.{◌>>=◌, ◌>>◌}

abbrev pub max_readings_per_node : ℕ
max_readings_per_node = 10800

pub record DataStore (F : Type 0) : Type 0 where
  pub max_readings : ℕ
  pub buffers : Dict (List (Reading F))
  pub latest : Dict (Reading F)
  pub record_counts : Dict ℕ

-- `d[k]` where the key was put in before, with the fresh value else
unfoldable pub value_or : {A : Type 0} → A → Option A → A
value_or fresh none = fresh
value_or fresh (some v) = v

module _ {F : Type 0} where
  unfoldable pub new_store : ℕ → DataStore F
  new_store max_readings = record {
    max_readings = max_readings;
    buffers = [];
    latest = [];
    record_counts = [];
  }

  -- `deque(maxlen=...).append`: the oldest entry leaves a full buffer.
  unfoldable pub push : ℕ → List (Reading F) → Reading F → List (Reading F)
  push max_readings buf reading =
      let full = buf ++ (reading ∷ []) in drop (length full - max_readings) full

  -- `reading.setdefault('server_ts', time.time())`
  unfoldable pub stamp : F → Reading F → Reading F
  stamp now reading = elim (lookup (codes "server_ts") reading) [
    | none ↦ insert (codes "server_ts") (number now) reading
    | some _ ↦ reading
  ]

  unfoldable pub record_reading : F → Text → Reading F → DataStore F → DataStore F
  unfolding push stamp value_or
  record_reading now label reading s =
      let r = stamp now reading in
      let buf = value_or [] (lookup label s.buffers) in
      let count : ℕ = elim (lookup label s.buffers) [
        | none ↦ 0
        | some _ ↦ value_or 0 (lookup label s.record_counts)
      ] in
      record {
        max_readings = s.max_readings;
        buffers = insert label (push s.max_readings buf r) s.buffers;
        latest = insert label r s.latest;
        record_counts = insert label (count + 1) s.record_counts;
      }

  unfoldable pub get_latest : Text → DataStore F → Option (Reading F)
  get_latest label s = lookup label s.latest

  unfoldable pub get_all_latest : DataStore F → Dict (Reading F)
  get_all_latest s = s.latest

  -- `items[-n:]`, which is the whole list for `n = 0`
  unfoldable pub last_items : ℕ → List (Reading F) → List (Reading F)
  last_items n items =
      if ltb n (length items)
      then (if n == 0 then items else drop (length items - n) items)
      else items

  unfoldable pub get_recent : Text → ℕ → DataStore F → List (Reading F)
  unfolding last_items
  get_recent label n s = elim (lookup label s.buffers) [ none ↦ [] | some buf ↦ last_items n buf ]

  unfoldable pub get_record_count : Text → DataStore F → ℕ
  unfolding value_or
  get_record_count label s = value_or 0 (lookup label s.record_counts)

  unfoldable pub get_all_nodes : DataStore F → List Text
  get_all_nodes s = keys s.buffers

module _ (a : Arith) where
  -- The loop of `aggregate_power` over the readings.
  unfoldable pub add_power :
      a.Float → a.Float → ℕ → List (Reading a.Float) → Result (a.Float × a.Float × ℕ)
  unfolding number_or
  add_power total_p_bus total_p_gen node_count [] = ok (total_p_bus, total_p_gen, node_count)
  add_power total_p_bus total_p_gen node_count (reading ∷ rest) = do
    p_bus ← number_or a (codes "P_bus") (a.decimal 0) reading
    p_gen ← number_or a (codes "P_gen") (a.decimal 0) reading
    add_power (a.add total_p_bus p_bus) (a.add total_p_gen p_gen) (node_count + 1) rest

  unfoldable pub aggregate_power : DataStore a.Float → Result (a.Float × a.Float × ℕ)
  unfolding add_power
  aggregate_power s = do
    (p_bus, p_gen, node_count) ← add_power (a.decimal 0) (a.decimal 0) 0 (values s.latest)
    ok (a.round 2 p_bus, a.round 2 p_gen, node_count)

  -- The readings of the other nodes that have a `V_bus`.
  unfoldable pub bus_values : Text → Dict (Reading a.Float) → List (Field a.Float)
  bus_values exclude_node [] = []
  bus_values exclude_node ((node, r) ∷ d) =
      let rest = bus_values exclude_node d in
      if same node exclude_node then rest else elim (lookup (codes "V_bus") r) [
        | none ↦ rest
        | some nothing ↦ rest
        | some (number x) ↦ number x ∷ rest
        | some (text t) ↦ text t ∷ rest
      ]

  -- A text among the values makes the sort or the division raise `TypeError`.
  unfoldable pub all_numbers : List (Field a.Float) → Result (List a.Float)
  all_numbers [] = ok []
  all_numbers (number x ∷ vs) = do xs ← all_numbers vs; ok (x ∷ xs)
  all_numbers (_ ∷ vs) = err wrong_type

  -- `values.sort()`
  unfoldable pub insert_sorted : a.Float → List a.Float → List a.Float
  insert_sorted x [] = x ∷ []
  insert_sorted x (y ∷ ys) =
      let rest = insert_sorted x ys in if a.lt y x then y ∷ rest else x ∷ y ∷ ys

  unfoldable pub sort : List a.Float → List a.Float
  unfolding insert_sorted
  sort [] = []
  sort (x ∷ xs) = insert_sorted x (sort xs)

  -- The middle of a sorted list.
  unfoldable pub middle : List a.Float → a.Float
  middle xs =
      let n = length xs in
      let z = a.decimal 0 in
      if n % 2 == 0
      then a.div (a.add (get_or xs (n / 2 - 1) z) (get_or xs (n / 2) z)) (a.decimal 200)
      else get_or xs (n / 2) z

  unfoldable pub get_median_v_bus : Text → DataStore a.Float → Result (Option a.Float)
  unfolding bus_values all_numbers sort middle
  get_median_v_bus exclude_node s =
      let vs = bus_values exclude_node s.latest in
      if ltb (length vs) 2 then ok none else do xs ← all_numbers vs; ok (some (middle (sort xs)))
