-- ===== src/Ems.antt =====
-- smg_primary_server/ems_coordinator.py: the membership functions, the 27 rules, the inference and
-- `EMSCoordinator`. Each method holds the lock, so it is one step.
pub mod Setpoints
pub mod Isolation
pub mod Tests
use smg_secure_microgrid.Numbers.{Reading, number_or, fmax, total, fmin, Arith}
use smg_secure_microgrid.Base.Dict.{insert, lookup, Dict}
use smg_secure_microgrid.Base.{
  ℕ, zero, suc, ◌+◌, ◌*◌, min, ◌&&◌, ◌||◌, Option, none, some, List, [], ◌∷◌, ◌++◌, ◌==◌,
  if◌then◌else◌, length, replicate, Result, ok, err, Text, codes, ◌>>=◌, ◌>>◌,
}
use smg_secure_microgrid.Base.{◌>>=◌, ◌>>◌}

-- The labels of the output and of the three inputs.
pub data Output : Type 0 where
  zero_power low_power med_power high_power max_power : Output

pub data Level : Type 0 where
  low med high : Level

pub data Tier : Type 0 where
  untrusted degraded trusted : Tier

-- A row of `_RULES`.
pub record Rule : Type 0 where
  pub tier : Tier
  pub v_level : Level
  pub p_level : Level
  pub out_label : Output

abbrev rule : Tier → Level → Level → Output → Rule
rule t v p o = record { tier = t; v_level = v; p_level = p; out_label = o }

abbrev pub untrusted_rules : List Rule
untrusted_rules =
    rule untrusted low low zero_power
    ∷ rule untrusted low med zero_power
    ∷ rule untrusted low high zero_power
    ∷ rule untrusted med low zero_power
    ∷ rule untrusted med med zero_power
    ∷ rule untrusted med high zero_power
    ∷ rule untrusted high low zero_power
    ∷ rule untrusted high med zero_power
    ∷ rule untrusted high high zero_power
    ∷ []

abbrev pub degraded_rules : List Rule
degraded_rules =
    rule degraded low low low_power
    ∷ rule degraded low med med_power
    ∷ rule degraded low high med_power
    ∷ rule degraded med low zero_power
    ∷ rule degraded med med low_power
    ∷ rule degraded med high med_power
    ∷ rule degraded high low zero_power
    ∷ rule degraded high med zero_power
    ∷ rule degraded high high low_power
    ∷ []

abbrev pub trusted_rules : List Rule
trusted_rules =
    rule trusted low low med_power
    ∷ rule trusted low med high_power
    ∷ rule trusted low high max_power
    ∷ rule trusted med low low_power
    ∷ rule trusted med med med_power
    ∷ rule trusted med high high_power
    ∷ rule trusted high low zero_power
    ∷ rule trusted high med low_power
    ∷ rule trusted high high med_power
    ∷ []

abbrev pub rules : List Rule
rules = untrusted_rules ++ (degraded_rules ++ trusted_rules)

pub record Coordinator (F : Type 0) : Type 0 where
  pub setpoints : Dict F
  pub last_update : Dict F

module _ (a : Arith) where
  unfoldable pub trimf : a.Float → a.Float → a.Float → a.Float → a.Float
  trimf x p q r =
      if a.le x p || a.le r x
      then a.decimal 0
      else if a.le x q
      then a.div (a.sub x p) (a.sub q p)
      else a.div (a.sub r x) (a.sub r q)

  unfoldable pub trapf : a.Float → a.Float → a.Float → a.Float → a.Float → a.Float
  trapf x p q r s =
      if a.le x p || a.le s x
      then a.decimal 0
      else if a.le q x && a.le x r
      then a.decimal 100
      else if a.lt x q
      then a.div (a.sub x p) (a.sub q p)
      else a.div (a.sub s x) (a.sub s r)

  -- `_vbe_low`, `_vbe_med` and `_vbe_high`
  unfoldable pub vbe : Level → a.Float → a.Float
  unfolding trimf trapf
  vbe low x = trapf x (a.negative 300) (a.negative 300) (a.negative 80) (a.negative 20)
  vbe med x = trimf x (a.negative 80) (a.decimal 0) (a.decimal 80)
  vbe high x = trapf x (a.decimal 20) (a.decimal 80) (a.decimal 300) (a.decimal 300)

  -- `_pd_low`, `_pd_med` and `_pd_high`
  unfoldable pub pd : Level → a.Float → a.Float
  unfolding trimf trapf
  pd low x = trapf x (a.negative 1000) (a.decimal 0) (a.decimal 2000) (a.decimal 4000)
  pd med x = trimf x (a.decimal 2000) (a.decimal 5000) (a.decimal 8000)
  pd high x = trapf x (a.decimal 6000) (a.decimal 8000) (a.decimal 15000) (a.decimal 15000)

  -- `_tr_untrusted`, `_tr_degraded` and `_tr_trusted`
  unfoldable pub trust_mf : Tier → a.Float → a.Float
  unfolding trimf trapf
  trust_mf untrusted x = trapf x (a.negative 10) (a.decimal 0) (a.decimal 20) (a.decimal 30)
  trust_mf degraded x = trimf x (a.decimal 20) (a.decimal 50) (a.decimal 75)
  trust_mf trusted x = trapf x (a.decimal 65) (a.decimal 80) (a.decimal 100) (a.decimal 110)

  -- `_out_mf` with `_OUT_MFS`
  unfoldable pub out_mf : a.Float → Output → a.Float
  unfolding trimf
  out_mf y zero_power = trimf y (a.negative 500) (a.decimal 0) (a.decimal 1000)
  out_mf y low_power = trimf y (a.decimal 500) (a.decimal 1500) (a.decimal 3000)
  out_mf y med_power = trimf y (a.decimal 2500) (a.decimal 4000) (a.decimal 6000)
  out_mf y high_power = trimf y (a.decimal 5000) (a.decimal 7000) (a.decimal 9000)
  out_mf y max_power = trimf y (a.decimal 8000) (a.decimal 9500) (a.decimal 10500)

  -- `[i * universe_step for i in range(n)]`, from the index `i` on
  unfoldable pub samples : ℕ → ℕ → List a.Float
  samples zero i = []
  samples (suc n) i = a.mul (a.of_nat i) (a.decimal 50) ∷ samples n (i + 1)

  abbrev pub universe : List a.Float
  universe = samples 201 0

  unfoldable pub strength : Rule → a.Float → a.Float → a.Float → a.Float
  unfolding trust_mf vbe pd
  strength r v_bus_error p_demand trust_score =
      fmin a (fmin a (trust_mf r.tier trust_score) (vbe r.v_level v_bus_error))
        (pd r.p_level p_demand)

  -- The inner loop over the samples, for one rule.
  unfoldable pub clip : a.Float → Output → List a.Float → List a.Float → List a.Float
  unfolding out_mf
  clip s label (y ∷ ys) (g ∷ gs) =
      let clipped = fmin a s (out_mf y label) in
      (if a.lt g clipped then clipped else g) ∷ clip s label ys gs
  clip s label [] gs = gs
  clip s label (y ∷ ys) [] = []

  -- The loop over the rules. A rule of strength 0 is skipped.
  unfoldable pub aggregate : List Rule → a.Float → a.Float → a.Float → List a.Float → List a.Float
  unfolding strength clip
  aggregate [] v p t aggregated = aggregated
  aggregate (r ∷ rs) v p t aggregated =
      let s = strength r v p t in
      aggregate rs v p t
        (if a.le s (a.decimal 0) then aggregated else clip s r.out_label universe aggregated)

  unfoldable pub products : List a.Float → List a.Float → List a.Float
  products (y ∷ ys) (g ∷ gs) = a.mul y g ∷ products ys gs
  products [] gs = []
  products (y ∷ ys) [] = []

  -- The test `denominator == 0.0` of floats, in two comparisons.
  unfoldable pub centroid : List a.Float → a.Float
  unfolding products total
  centroid aggregated =
      let numerator = total a (products universe aggregated) in
      let denominator = total a aggregated in
      if a.le denominator (a.decimal 0) && a.le (a.decimal 0) denominator
      then a.decimal 0
      else a.div numerator denominator

  unfoldable pub fuzzy_infer : a.Float → a.Float → a.Float → a.Float
  unfolding aggregate centroid
  fuzzy_infer v_bus_error p_demand trust_score =
      centroid (
        aggregate rules v_bus_error p_demand trust_score
          (replicate (length universe) (a.decimal 0)))

  -- `max(_MIN_SP, min(_MAX_SP, x))`
  unfoldable pub clamp : a.Float → a.Float
  clamp x = fmax a (a.decimal 0) (fmin a (a.decimal 10000) x)

  -- `[r.get(key, default) for r in all_latest.values()]`
  unfoldable pub gather : Text → a.Float → Dict (Reading a.Float) → Result (List a.Float)
  unfolding number_or
  gather key default [] = ok []
  gather key default ((_, r) ∷ d) = do
    x ← number_or a key default r
    xs ← gather key default d
    ok (x ∷ xs)

  -- The loop of `update` over the nodes.
  unfoldable pub set_all :
      a.Float
      → a.Float
      → a.Float
      → Dict (Reading a.Float)
      → Coordinator a.Float
      → Result (Unit {0}) × Coordinator a.Float
  unfolding fuzzy_infer clamp number_or
  set_all now v p [] k = (ok tt, k)
  set_all now v p ((node, reading) ∷ d) k =
      elim (number_or a (codes "trust_score") (a.decimal 100) reading) [
        | err e ↦ (err e, k)
        | ok trust ↦
            let sp = clamp (a.round 1 (fuzzy_infer v p trust)) in
            set_all now v p d (record {
              setpoints = insert node sp k.setpoints;
              last_update = insert node now k.last_update;
            })
      ]

  -- The two global inputs.
  unfoldable pub inputs : Dict (Reading a.Float) → Result (a.Float × a.Float)
  unfolding gather total
  inputs all_latest = do
    v_bus_values ← gather (codes "V_bus") (a.decimal 1200) all_latest
    powers ← gather (codes "P_bus") (a.decimal 0) all_latest
    let mean_v_bus = a.div (total a v_bus_values) (a.of_nat (length v_bus_values))
    ok (a.sub mean_v_bus (a.decimal 1200), total a powers)

  unfoldable pub update :
      a.Float
      → Dict (Reading a.Float)
      → Coordinator a.Float
      → Result (Unit {0}) × Coordinator a.Float
  unfolding inputs set_all
  update now [] k = (ok tt, k)
  update now (entry ∷ d) k = elim (inputs (entry ∷ d)) [
    | err e ↦ (err e, k)
    | ok (v_bus_error, p_demand) ↦ set_all now v_bus_error p_demand (entry ∷ d) k
  ]

  unfoldable pub get_setpoint : Text → Coordinator a.Float → Option a.Float
  get_setpoint node k = elim (lookup node k.last_update) [
    | none ↦ none
    | some _ ↦ elim (lookup node k.setpoints) [ none ↦ some (a.decimal 5000) | some sp ↦ some sp ]
  ]

  unfoldable pub set_manual_setpoint :
      a.Float → Text → a.Float → Coordinator a.Float → Coordinator a.Float
  unfolding clamp
  set_manual_setpoint now node p_demand k = record {
    setpoints = insert node (a.round 1 (clamp p_demand)) k.setpoints;
    last_update = insert node now k.last_update;
  }
