-- ===== src/Ems/Tests.antt =====
-- The inference and the coordinator over hundredths, with the negative literals cut off at 0.
use smg_secure_microgrid.Ems.Isolation.{fuzzy_infer-untrusted}
use smg_secure_microgrid.Ems.Setpoints.{update-AllInRange, InRange, AllInRange}
use smg_secure_microgrid.Ems.{
  zero_power, universe, untrusted_rules, aggregate, get_setpoint, centroid, update, fuzzy_infer,
  Coordinator,
}
use smg_secure_microgrid.Base.Dict.{lookup-nil, Dict}
use smg_secure_microgrid.Base.{
  ℕ, ◌+◌, ◌-◌, ◌*◌, ◌/◌, ◌≡◌, refl, sym, ◌∙◌, none, some, [], ◌∷◌, arith, ltb, leb, leb→le, All,
  length, replicate, Text, codes,
}
use smg_secure_microgrid.Numbers.{number, Reading, Arith, Ordered}

abbrev pub hundredths : Arith
hundredths = record {
  Float = ℕ;
  decimal = λ n. n;
  negative = λ n. 0;
  lt = ltb;
  le = leb;
  add = λ x y. x + y;
  sub = λ x y. x - y;
  mul = λ x y. x * y / 100;
  div = λ x y. x * 100 / y;
  round = λ n x. x;
  of_nat = λ n. n * 100;
  abs = λ x. x;
}

pub hundredths_Ordered : Ordered hundredths
hundredths_Ordered = record {
  le_refl = λ x. ground arith;
  le_trans = λ x y z h k. ground (arith, leb→le x y h, leb→le y z k);
  le_of_not_lt = λ x y h. ground arith;
  le_of_lt = λ x y h. ground arith;
  decimal_mono = λ m n h. ground arith;
}

abbrev readings : Dict (Reading ℕ)
readings =
    (
      codes "SMG_NODE_01",
      (codes "V_bus", number 1250)
          ∷ (codes "P_bus", number 3000)
          ∷ (codes "trust_score", number 20)
          ∷ [],
    )
    ∷ []

abbrev fresh : Coordinator ℕ
fresh = record { setpoints = []; last_update = [] }

fresh-AllInRange : AllInRange hundredths hundredths_Ordered fresh
fresh-AllInRange node sp e = let bad : none ≡ some sp = sym (lookup-nil node) ∙ e in cc

update-AllInRange_example :
    AllInRange hundredths hundredths_Ordered (update hundredths 7 readings fresh).1
    × ((node : Text) (sp : ℕ)
        → get_setpoint hundredths node (update hundredths 7 readings fresh).1 ≡ some sp
        → InRange hundredths hundredths_Ordered sp)
update-AllInRange_example =
    update-AllInRange hundredths hundredths_Ordered 7 readings fresh fresh-AllInRange

fuzzy_infer-untrusted_example :
    (fuzzy_infer hundredths 50 3000 20
      ≡ centroid hundredths (
          aggregate hundredths untrusted_rules 50 3000 20
            (replicate (length (universe hundredths)) 0)))
    × All (λ r. r.out_label ≡ zero_power) untrusted_rules
fuzzy_infer-untrusted_example = fuzzy_infer-untrusted hundredths hundredths_Ordered 50 3000 20 refl
