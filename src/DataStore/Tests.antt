-- ===== src/DataStore/Tests.antt =====
-- A store that has lost its oldest reading, and a median of two nodes.
use smg_secure_microgrid.Base.Dict.{lookup}
use smg_secure_microgrid.Base.{
  ℕ, ◌+◌, ◌-◌, ◌*◌, ◌/◌, min, ◌≡◌, refl, some, List, [], ◌∷◌, arith, ltb, leb, length, ok, Text,
  codes, same,
}
use smg_secure_microgrid.DataStore.{
  get_record_count, new_store, record_reading, stamp, get_median_v_bus, get_recent, DataStore,
}
use smg_secure_microgrid.DataStore.Refines.{
  get_recent_lem, new_store-Represents, last_n, record_reading-Represents, Represents, extend,
}
use smg_secure_microgrid.Numbers.{Arith, Reading, number}

abbrev reading : ℕ → Reading ℕ
reading v = (codes "V_bus", number v) ∷ (codes "server_ts", number 5) ∷ []

abbrev node : Text
node = codes "SMG_NODE_01"

abbrev histories : Text → List (Reading ℕ)
histories = extend node (stamp 0 (reading 1)) (λ _. [])

abbrev one_reading : DataStore ℕ
one_reading = record_reading 0 node (reading 1) (new_store 1)

record_reading-Represents_example : Represents one_reading histories
record_reading-Represents_example =
    record_reading-Represents (new_store 1) (λ _. []) 0 node (reading 1) (new_store-Represents 1)

abbrev two_readings : DataStore ℕ
two_readings = record_reading 0 node (reading 2) one_reading

two_readings-Represents : Represents two_readings (extend node (stamp 0 (reading 2)) histories)
two_readings-Represents =
    record_reading-Represents one_reading histories 0 node (reading 2) (
      record_reading-Represents (new_store 1) (λ _. []) 0 node (reading 1) (new_store-Represents 1))

get_recent_example :
    (get_recent node 3 two_readings
      ≡ last_n (min 3 two_readings.max_readings) (extend node (stamp 0 (reading 2)) histories node))
    × (get_record_count node two_readings
        ≡ length (extend node (stamp 0 (reading 2)) histories node))
get_recent_example =
    get_recent_lem two_readings (extend node (stamp 0 (reading 2)) histories) node 3
      two_readings-Represents (omega arith)

abbrev halves : Arith
halves = record {
  Float = ℕ;
  decimal = λ n. n;
  negative = λ n. 0;
  lt = ltb;
  le = leb;
  add = λ x y. x + y;
  sub = λ x y. x - y;
  mul = λ x y. x * y / 100;
  div = λ x y. x / 2;
  round = λ n x. x;
  of_nat = λ n. n * 100;
  abs = λ x. x;
}

abbrev three_nodes : DataStore ℕ
three_nodes = record {
  max_readings = 9;
  buffers = [];
  latest =
      (node, reading 900)
      ∷ (codes "SMG_NODE_02", reading 1210)
      ∷ (codes "SMG_NODE_03", reading 1190)
      ∷ [];
  record_counts = [];
}

three_nodes_median : get_median_v_bus halves node three_nodes ≡ ok (some 1200)
unfolding get_median_v_bus same lookup
three_nodes_median = refl
