-- ===== src/Ems/Setpoints.antt =====
-- What the setpoints of smg_primary_server/ems_coordinator.py may be.
use smg_secure_microgrid.Base.Dict.{lookup-insert, insert, Dict, lookup}
use smg_secure_microgrid.Ems.{
  inputs, get_setpoint, update, fuzzy_infer, set_all, Coordinator, clamp,
}
use smg_secure_microgrid.Numbers.{number_or, Reading, fmin, Ordered, Arith}
use smg_secure_microgrid.Base.{
  ◌≡◌, refl, sym, ◌∙◌, subst, inl, inr, Bool, true, false, Option, none, some, [], ◌∷◌, arith,
  if◌then◌else◌, Bool-cases, Result, ok, err, Text, codes, same,
}

module _ (a : Arith) (laws : Ordered a) where
  -- Between 0 W and 100 W.
  abbrev pub InRange : a.Float → Type 0
  InRange x = (a.le (a.decimal 0) x ≡ true) × (a.le x (a.decimal 10000) ≡ true)

  fmin-le : (x y z : a.Float) → a.le x z ≡ true → a.le (fmin a x y) z ≡ true
  fmin-le x y z h = elim (Bool-cases (a.lt y x)) [
    | inl e ↦ rw e (laws.le_trans y x z (laws.le_of_lt y x e) h)
    | inr e ↦ rw e h
  ]

  clamp-InRange : (x : a.Float) → InRange (clamp a x)
  unfolding clamp
  clamp-InRange x =
      let top = a.decimal 10000 in
      let y = fmin a top x in
      elim (Bool-cases (a.lt (a.decimal 0) y)) [
        | inl e ↦ rw e (laws.le_of_lt (a.decimal 0) y e, fmin-le top x top (laws.le_refl top))
        | inr e ↦ rw e (laws.le_refl (a.decimal 0), laws.decimal_mono 0 10000 (omega arith))
      ]

  -- Every setpoint is in range.
  abbrev pub AllInRange : Coordinator a.Float → Type 0
  AllInRange k = (node : Text) (sp : a.Float) → lookup node k.setpoints ≡ some sp → InRange sp

  insert-AllInRange :
      (node : Text) (x : a.Float) (d : Dict a.Float)
      → ((other_node : Text) (sp : a.Float) → lookup other_node d ≡ some sp → InRange sp)
      → (other_node : Text) (sp : a.Float) → lookup other_node (insert node (clamp a x) d) ≡ some sp
      → InRange sp
  insert-AllInRange node x d h other_node sp found =
      let found' = sym (lookup-insert other_node node (clamp a x) d) ∙ found in
      go (same node other_node) found'
    where
      go : (b : Bool) → (if b then some (clamp a x) else lookup other_node d) ≡ some sp → InRange sp
      go true e = let eq : clamp a x ≡ sp = cc in subst InRange eq (clamp-InRange x)
      go false e = h other_node sp e

  set_all-AllInRange :
      (now v p : a.Float) (d : Dict (Reading a.Float)) (k : Coordinator a.Float)
      → AllInRange k
      → AllInRange (set_all a now v p d k).1
  unfolding set_all
  set_all-AllInRange now v p [] k h = h
  set_all-AllInRange now v p ((node, reading) ∷ d) k h =
      go (number_or a (codes "trust_score") (a.decimal 100) reading) refl
        λ k' h'. set_all-AllInRange now v p d k' h'
    where
      go :
          (r : Result a.Float)
          → number_or a (codes "trust_score") (a.decimal 100) reading ≡ r
          → ((k' : Coordinator a.Float) → AllInRange k' → AllInRange (set_all a now v p d k').1)
          → AllInRange (set_all a now v p ((node, reading) ∷ d) k).1
      go (err e) eq rest = rw (set_all, eq) h
      go (ok trust) eq rest =
          let sp = clamp a (a.round 1 (fuzzy_infer a v p trust)) in
          rw (set_all, eq)
            (rest
              (record {
                setpoints = insert node sp k.setpoints;
                last_update = insert node now k.last_update;
              })
              (insert-AllInRange node (a.round 1 (fuzzy_infer a v p trust)) k.setpoints h))

  update-step :
      (now : a.Float) (d : Dict (Reading a.Float)) (k : Coordinator a.Float)
      → AllInRange k
      → AllInRange (update a now d k).1
  unfolding update
  update-step now [] k h = h
  update-step now (entry ∷ d) k h = go (inputs a (entry ∷ d)) refl
    where
      go :
          (r : Result (a.Float × a.Float))
          → inputs a (entry ∷ d) ≡ r
          → AllInRange (update a now (entry ∷ d) k).1
      go (err e) eq = rw (update, eq) h
      go (ok (v, p)) eq = rw (update, eq) (set_all-AllInRange now v p (entry ∷ d) k h)

  given-InRange :
      (node : Text) (sp : a.Float) (l : Option a.Float) (o : Option a.Float)
      → ((x : a.Float) → o ≡ some x → InRange x)
      → (elim l [
        | none ↦ none
        | some _ ↦ elim o [ none ↦ some (a.decimal 5000) | some x ↦ some x ]
      ])
        ≡ some sp
      → InRange sp
  given-InRange node sp none o h e = cc
  given-InRange node sp (some t) none h e =
      let eq : a.decimal 5000 ≡ sp = cc in
      subst InRange eq
        (laws.decimal_mono 0 5000 (omega arith), laws.decimal_mono 5000 10000 (omega arith))
  given-InRange node sp (some t) (some x) h e = h sp e

  pub get_setpoint-InRange :
      (k : Coordinator a.Float) (node : Text) (sp : a.Float)
      → AllInRange k
      → get_setpoint a node k ≡ some sp
      → InRange sp
  unfolding get_setpoint
  get_setpoint-InRange k node sp h e =
      given-InRange node sp (lookup node k.last_update) (lookup node k.setpoints) (h node) e

  -- With floats that are ordered, and all setpoints in range before: `update` sets none outside 0 W to 100 W, whatever the readings are and also where one of
  -- them makes it fail half way; what `get_setpoint` then returns for any node is in range.
  pub update-AllInRange :
      (now : a.Float) (all_latest : Dict (Reading a.Float)) (k : Coordinator a.Float)
      → AllInRange k
      → AllInRange (update a now all_latest k).1
        × ((node : Text) (sp : a.Float)
            → get_setpoint a node (update a now all_latest k).1 ≡ some sp
            → InRange sp)
  update-AllInRange now all_latest k h =
      let h' = update-step now all_latest k h in
      (h', λ node sp e. get_setpoint-InRange (update a now all_latest k).1 node sp h' e)
