-- ===== src/DataStore/Median/Sorted.antt =====
-- The sort and the middle that `get_median_v_bus` of smg_primary_server/data_store.py takes.
use smg_secure_microgrid.Base.{
  ℕ, zero, suc, ◌+◌, ◌-◌, ◌/◌, ◌%◌, ◌≤◌, ◌<◌, ◌≡◌, refl, ap, ◌∙◌, ◌⊎◌, inl, inr, true, false, List,
  [], ◌∷◌, ◌++◌, arith, ◌==◌, ==_iff, Bool-cases, length, get_or,
}
use mathlib.Core.List.{Perm}
use mathlib.Core.List.Perm
use smg_secure_microgrid.Numbers.{Arith}
use smg_secure_microgrid.DataStore.{insert_sorted, sort, middle}

module _ (a : Arith) where
  -- No number is less than the one before it.
  abbrev pub IsSorted : List a.Float → Type 0
  IsSorted [] = Unit
  IsSorted (x ∷ []) = Unit
  IsSorted (x ∷ y ∷ ys) = (a.lt y x ≡ false) × IsSorted (y ∷ ys)

  -- The middle number, or the mean of the two in the middle.
  abbrev pub IsMiddle : List a.Float → a.Float → Type 0
  IsMiddle ys m =
      ((l : List a.Float) × (r : List a.Float) × (ys ≡ l ++ m ∷ r) × (length l ≡ length r))
      ⊎ ((l : List a.Float) × (x : a.Float) × (y : a.Float) × (r : List a.Float) × (ys
            ≡ l ++ x ∷ y ∷ r)
          × (length l ≡ length r)
          × (m ≡ a.div (a.add x y) (a.decimal 200)))

  insert_sorted-Perm : (x : a.Float) (xs : List a.Float) → Perm (insert_sorted a x xs) (x ∷ xs)
  unfolding insert_sorted
  insert_sorted-Perm x [] = Perm.refl (x ∷ [])
  insert_sorted-Perm x (y ∷ ys) = elim (Bool-cases (a.lt y x)) [
    | inl e ↦ rw e (Perm.trans (Perm.cons y (insert_sorted-Perm x ys)) (Perm.swap x y ys))
    | inr e ↦ rw e (Perm.refl (x ∷ y ∷ ys))
  ]

  pub sort-Perm : (xs : List a.Float) → Perm (sort a xs) xs
  unfolding sort
  sort-Perm [] = Perm.refl []
  sort-Perm (x ∷ xs) = Perm.trans (insert_sorted-Perm x (sort a xs)) (Perm.cons x (sort-Perm xs))

  length-insert_sorted :
      (x : a.Float) (xs : List a.Float) → length (insert_sorted a x xs) ≡ suc (length xs)
  unfolding insert_sorted
  length-insert_sorted x [] = refl
  length-insert_sorted x (y ∷ ys) = elim (Bool-cases (a.lt y x)) [
    | inl e ↦ rw e (ap suc (length-insert_sorted x ys))
    | inr e ↦ rw e refl
  ]

  pub length-sort : (xs : List a.Float) → length (sort a xs) ≡ length xs
  unfolding sort
  length-sort [] = refl
  length-sort (x ∷ xs) = length-insert_sorted x (sort a xs) ∙ ap suc (length-sort xs)

  -- A float that is less than another one is not more than it.
  abbrev pub Asymmetric : Type 0
  Asymmetric = (x y : a.Float) → a.lt x y ≡ true → a.lt y x ≡ false

  cons-IsSorted :
      (y : a.Float) (ys : List a.Float) (x : a.Float)
      → Asymmetric
      → a.lt y x ≡ true
      → IsSorted (y ∷ ys)
      → IsSorted (insert_sorted a x ys)
      → IsSorted (y ∷ insert_sorted a x ys)
  unfolding insert_sorted
  cons-IsSorted y [] x asym less h = λ k. (asym y x less, tt)
  cons-IsSorted y (z ∷ zs) x asym less (first, h) = elim (Bool-cases (a.lt z x)) [
    | inl e ↦ rw e (λ k. (first, k))
    | inr e ↦ rw e (λ k. (asym y x less, k))
  ]

  insert_sorted-IsSorted :
      (x : a.Float) (ys : List a.Float) → Asymmetric → IsSorted ys → IsSorted (insert_sorted a x ys)
  unfolding insert_sorted
  insert_sorted-IsSorted x [] asym h = tt
  insert_sorted-IsSorted x (y ∷ ys) asym h = elim (Bool-cases (a.lt y x)) [
    | inl e ↦ rw e (cons-IsSorted y ys x asym e h (insert_sorted-IsSorted x ys asym (tail_of ys h)))
    | inr e ↦ rw e (e, h)
  ]
    where
      tail_of : (zs : List a.Float) → IsSorted (y ∷ zs) → IsSorted zs
      tail_of [] k = tt
      tail_of (z ∷ zs) k = k.1

  pub sort-IsSorted : (xs : List a.Float) → Asymmetric → IsSorted (sort a xs)
  unfolding sort
  sort-IsSorted [] asym = tt
  sort-IsSorted (x ∷ xs) asym = insert_sorted-IsSorted x (sort a xs) asym (sort-IsSorted xs asym)

  -- A list around one of its numbers, and around two that follow each other.
  split_at :
      (xs : List a.Float) (i : ℕ) (d : a.Float)
      → i < length xs
      → (l : List a.Float) × (r : List a.Float) × (xs ≡ l ++ get_or xs i d ∷ r)
        × (length l ≡ i)
        × (i + 1 + length r ≡ length xs)
  split_at [] i d h = absurd (omega arith)
  split_at (x ∷ xs) zero d h = ([], xs, refl, refl, omega arith)
  split_at (x ∷ xs) (suc i) d h =
      let (l, r, e, left, right) = split_at xs i d (omega arith) in
      (x ∷ l, r, ap (λ ys. x ∷ ys) e, ap suc left, omega arith)

  split_at_two :
      (xs : List a.Float) (i : ℕ) (d : a.Float)
      → i + 1 < length xs
      → (l : List a.Float) × (r : List a.Float) × (xs
          ≡ l ++ get_or xs i d ∷ get_or xs (i + 1) d ∷ r)
        × (length l ≡ i)
        × (i + 2 + length r ≡ length xs)
  split_at_two [] i d h = absurd (omega arith)
  split_at_two (x ∷ []) i d h = absurd (omega arith)
  split_at_two (x ∷ y ∷ xs) zero d h = ([], xs, refl, refl, omega arith)
  split_at_two (x ∷ xs) (suc i) d h =
      let (l, r, e, left, right) = split_at_two xs i d (omega arith) in
      let next : suc (i + 1) ≡ suc i + 1 = omega arith in
      (
        x ∷ l,
        r,
        ap (λ ys. x ∷ ys) e ∙ ap (λ k. x ∷ (l ++ get_or xs i d ∷ get_or (x ∷ xs) k d ∷ r)) next,
        ap suc left,
        omega arith,
      )

  pub middle-IsMiddle : (ys : List a.Float) → 2 ≤ length ys → IsMiddle ys (middle a ys)
  unfolding middle
  middle-IsMiddle ys h = elim (Bool-cases (length ys % 2 == 0)) [
    | inl e ↦
        let i = length ys / 2 - 1 in
        let z = a.decimal 0 in
        let even = (==_iff (length ys % 2) 0).0 e in
        let (l, r, split, left, right) = split_at_two ys i z (omega arith) in
        let next : i + 1 ≡ length ys / 2 = omega arith in
        rw e (
          inr (
            l,
            get_or ys i z,
            get_or ys (length ys / 2) z,
            r,
            split ∙ ap (λ k. l ++ get_or ys i z ∷ get_or ys k z ∷ r) next,
            omega arith,
            refl,
          ))
    | inr e ↦
        let odd : length ys % 2 ≡ 1 = ground arith in
        let (l, r, split, left, right) = split_at ys (length ys / 2) (a.decimal 0) (omega arith) in
        rw e (inl (l, r, split, omega arith))
  ]
