-- ===== src/Ems/Isolation.antt =====
-- The lowest trust in the inference of smg_primary_server/ems_coordinator.py.
use smg_secure_microgrid.Ems.{
  trusted, degraded, trust_mf, trusted_rules, degraded_rules, zero_power, universe, pd,
  untrusted_rules, vbe, centroid, Rule, fuzzy_infer, trapf, trimf, aggregate, strength,
}
use smg_secure_microgrid.Base.{
  ◌≡◌, refl, ap, ◌∙◌, inl, inr, true, List, [], ◌∷◌, ◌++◌, arith, Bool-cases, All, length,
  replicate,
}
use smg_secure_microgrid.Numbers.{fmin, Arith, Ordered}

module _ (a : Arith) (laws : Ordered a) where
  fmin-nonpositive :
      (x y : a.Float) → a.le x (a.decimal 0) ≡ true → a.le (fmin a x y) (a.decimal 0) ≡ true
  fmin-nonpositive x y h = elim (Bool-cases (a.lt y x)) [
    | inl e ↦ rw e (laws.le_trans y x (a.decimal 0) (laws.le_of_lt y x e) h)
    | inr e ↦ rw e h
  ]

  -- A rule whose tier does not hold has no strength.
  strength-nonpositive :
      (r : Rule) (v p t : a.Float)
      → trust_mf a r.tier t ≡ a.decimal 0
      → a.le (strength a r v p t) (a.decimal 0) ≡ true
  unfolding strength
  strength-nonpositive r v p t h =
      let none_yet : a.le (trust_mf a r.tier t) (a.decimal 0) ≡ true =
        ap (λ x. a.le x (a.decimal 0)) h ∙ laws.le_refl (a.decimal 0) in
      fmin-nonpositive (fmin a (trust_mf a r.tier t) (vbe a r.v_level v)) (pd a r.p_level p)
        (fmin-nonpositive (trust_mf a r.tier t) (vbe a r.v_level v) none_yet)

  aggregate-skip :
      (rs : List Rule) (v p t : a.Float) (g : List a.Float)
      → All (λ r. trust_mf a r.tier t ≡ a.decimal 0) rs
      → aggregate a rs v p t g ≡ g
  unfolding aggregate
  aggregate-skip [] v p t g h = refl
  aggregate-skip (r ∷ rs) v p t g h =
      rw (strength-nonpositive r v p t h.0) (aggregate-skip rs v p t g h.1)

  aggregate-append :
      (rs qs : List Rule) (v p t : a.Float) (g : List a.Float)
      → aggregate a (rs ++ qs) v p t g ≡ aggregate a qs v p t (aggregate a rs v p t g)
  unfolding aggregate
  aggregate-append [] qs v p t g = refl
  aggregate-append (r ∷ rs) qs v p t g = aggregate-append rs qs v p t _

  degraded-zero : (t : a.Float) → a.le t (a.decimal 20) ≡ true → trust_mf a degraded t ≡ a.decimal 0
  unfolding trust_mf trimf
  degraded-zero t h = rw h refl

  trusted-zero : (t : a.Float) → a.le t (a.decimal 20) ≡ true → trust_mf a trusted t ≡ a.decimal 0
  unfolding trust_mf trapf
  trusted-zero t h =
      let below =
        laws.le_trans t (a.decimal 20) (a.decimal 65) h (laws.decimal_mono 20 65 (omega arith)) in
      rw below refl

  -- With a trust of 0.20 or less, the 18 rules of the degraded and the trusted tier change nothing,
  -- whatever the bus voltage and the demand are: the inference is that of the nine rules of the
  -- untrusted tier, whose output is the label ZERO each.
  pub fuzzy_infer-untrusted :
      (v p t : a.Float)
      → a.le t (a.decimal 20) ≡ true
      → (fuzzy_infer a v p t
          ≡ centroid a
              (aggregate a untrusted_rules v p t (replicate (length (universe a)) (a.decimal 0))))
        × All (λ r. r.out_label ≡ zero_power) untrusted_rules
  unfolding fuzzy_infer
  fuzzy_infer-untrusted v p t h =
      let d = degraded-zero t h in
      let u = trusted-zero t h in
      let g = replicate (length (universe a)) (a.decimal 0) in
      (
        ap (centroid a) (
            aggregate-append untrusted_rules (degraded_rules ++ trusted_rules) v p t g
            ∙ aggregate-skip (degraded_rules ++ trusted_rules) v p t
                (aggregate a untrusted_rules v p t g)
                (
                  d,
                  (
                    d,
                    (
                      d,
                      (d, (d, (d, (d, (d, (d, (u, (u, (u, (u, (u, (u, (u, (u, (u, tt))))))))))))))),
                    ),
                  ),
                )),
        (refl, (refl, (refl, (refl, (refl, (refl, (refl, (refl, (refl, tt))))))))),
      )
