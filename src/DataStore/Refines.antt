-- ===== src/DataStore/Refines.antt =====
-- The store of smg_primary_server/data_store.py against the full history of the readings.
use native.Mathlib.Decide.{dec_lt}
use smg_secure_microgrid.Base.Dict.{lookup-nil, lookup-insert, lookup-insert_self, lookup}
use smg_secure_microgrid.Numbers.{Reading}
use smg_secure_microgrid.Base.{
  ℕ, zero, suc, ◌+◌, ◌-◌, ◌<◌, min, ◌≡◌, refl, sym, ap, ◌∙◌, subst, inl, inr, false, Option, none,
  some, List, [], ◌∷◌, ◌++◌, arith, ltb, if◌then◌else◌, Bool-cases, length, drop, length-append,
  length-drop, drop-append_of_le, drop-nil, Text, same, same_sound,
}
use smg_secure_microgrid.DataStore.{
  last_items, new_store, value_or, DataStore, push, stamp, record_reading, get_recent,
  get_record_count,
}

module _ {A : Type 0} where
  -- The last `n` entries.
  abbrev pub last_n : ℕ → List A → List A
  last_n n xs = drop (length xs - n) xs

  -- The last entry.
  abbrev pub final : List A → Option A
  final [] = none
  final (x ∷ []) = some x
  final (x ∷ y ∷ ys) = final (y ∷ ys)

  final-append : (x : A) (xs : List A) → final (xs ++ x ∷ []) ≡ some x
  final-append x [] = refl
  final-append x (y ∷ []) = refl
  final-append x (y ∷ z ∷ zs) = final-append x (z ∷ zs)

  drop-drop : (m n : ℕ) (xs : List A) → drop m (drop n xs) ≡ drop (n + m) xs
  drop-drop m zero xs = ap (λ i. drop i xs) (omega arith)
  drop-drop m (suc n) [] = drop-nil m ∙ sym (drop-nil (suc n + m))
  drop-drop m (suc n) (x ∷ xs) =
      let e : suc n + m ≡ suc (n + m) = omega arith in
      drop-drop m n xs ∙ ap (λ i. drop i (x ∷ xs)) (sym e)

  last_n-last_n : (m n : ℕ) (xs : List A) → last_n m (last_n n xs) ≡ last_n (min m n) xs
  last_n-last_n m n xs =
      drop-drop (length (last_n n xs) - m) (length xs - n) xs
      ∙ ap (λ i. drop i xs) (omega (arith, length-drop (length xs - n) xs))

module _ {F : Type 0} where
  push-last_n :
      (n : ℕ) (h : List (Reading F)) (r : Reading F)
      → push n (last_n n h) r ≡ last_n n (h ++ r ∷ [])
  unfolding push
  push-last_n n h r =
      let kept = last_n n h in
      let k = length h - n in
      let full = length (kept ++ r ∷ []) - n in
      ap (drop full) (sym (drop-append_of_le k h (r ∷ []) (omega arith)))
      ∙ drop-drop full k (h ++ r ∷ [])
      ∙ ap (λ i. drop i (h ++ r ∷ []))
          (omega (arith, length-append kept (r ∷ []), length-append h (r ∷ []), length-drop k h))

  -- What the store keeps of the history of one node.
  abbrev pub Holds : DataStore F → Text → List (Reading F) → Type 0
  Holds s label [] =
      (lookup label s.buffers ≡ none)
      × (lookup label s.latest ≡ none)
      × (lookup label s.record_counts ≡ none)
  Holds s label (r ∷ h) =
      (lookup label s.buffers ≡ some (last_n s.max_readings (r ∷ h)))
      × (lookup label s.latest ≡ final (r ∷ h))
      × (lookup label s.record_counts ≡ some (length (r ∷ h)))

  -- The store stands for the histories of all nodes.
  abbrev pub Represents : DataStore F → (Text → List (Reading F)) → Type 0
  Represents s history = (label : Text) → Holds s label (history label)

  -- The history after one more reading.
  unfoldable pub extend : Text → Reading F → (Text → List (Reading F)) → Text → List (Reading F)
  extend label r history node = if same label node then history node ++ r ∷ [] else history node

  Holds-insert :
      (s : DataStore F) (label : Text) (r : Reading F) (h : List (Reading F)) (now : F)
      → Holds s label h
      → Holds (record_reading now label r s) label (h ++ stamp now r ∷ [])
  unfolding record_reading push
  Holds-insert s label r [] now (b, l, c) =
      let r' = stamp now r in
      (
        lookup-insert_self label (push s.max_readings (value_or [] (lookup label s.buffers)) r')
              s.buffers
            ∙ ap (λ o. some (push s.max_readings (value_or [] o) r')) b,
        lookup-insert_self label r' s.latest,
        rw (lookup-insert_self, b),
      )
  Holds-insert s label r (x ∷ h) now (b, l, c) =
      let r' = stamp now r in
      (
        lookup-insert_self label (push s.max_readings (value_or [] (lookup label s.buffers)) r')
              s.buffers
            ∙ ap (λ o. some (push s.max_readings (value_or [] o) r')) b
            ∙ ap some (push-last_n s.max_readings (x ∷ h) r'),
        lookup-insert_self label r' s.latest ∙ sym (final-append r' (x ∷ h)),
        rw (lookup-insert_self, b, c) (ap some (omega (arith, length-append h (r' ∷ [])))),
      )

  -- A reading of one node leaves what is kept of the others alone.
  Holds-other :
      (s : DataStore F) (label node : Text) (r : Reading F) (h : List (Reading F)) (now : F)
      → same label node ≡ false
      → Holds s node h
      → Holds (record_reading now label r s) node h
  unfolding record_reading
  Holds-other s label node r [] now e (b, l, c) = (
    lookup-insert node label _ s.buffers ∙ rw e b,
    lookup-insert node label _ s.latest ∙ rw e l,
    lookup-insert node label _ s.record_counts ∙ rw e c,
  )
  Holds-other s label node r (x ∷ h) now e (b, l, c) = (
    lookup-insert node label _ s.buffers ∙ rw e b,
    lookup-insert node label _ s.latest ∙ rw e l,
    lookup-insert node label _ s.record_counts ∙ rw e c,
  )

  -- `record` implements the appending of the reading, with its time stamp, to the history of its
  -- node: a store that stands for some histories stands for the extended ones afterwards. For
  -- every node it then holds the last `max_readings` readings, the very last one, and how many
  -- there have been.
  pub record_reading-Represents :
      (s : DataStore F) (history : Text → List (Reading F)) (now : F) (label : Text) (r : Reading F)
      → Represents s history
      → Represents (record_reading now label r s) (extend label (stamp now r) history)
  unfolding extend
  record_reading-Represents s history now label r rep node = elim (Bool-cases (same label node)) [
    | inl e ↦
        let eq = same_sound label node e in
        rw e (
          subst (λ n. Holds (record_reading now label r s) n (history n ++ stamp now r ∷ [])) eq
            (Holds-insert s label r (history label) now (rep label)))
    | inr e ↦ rw e (Holds-other s label node r (history node) now e (rep node))
  ]

  -- A fresh store stands for empty histories.
  pub new_store-Represents : (n : ℕ) → Represents (new_store n) (λ _. [])
  unfolding new_store
  new_store-Represents n label = (lookup-nil label, lookup-nil label, lookup-nil label)

  last_items-last_n : (n : ℕ) (xs : List (Reading F)) → 0 < n → last_items n xs ≡ last_n n xs
  unfolding last_items
  last_items-last_n n xs h = elim (dec_lt n (length xs)) [
    | yes p ↦ ground arith
    | no q ↦
        let all : length xs - n ≡ 0 = omega arith in
        let few : ltb n (length xs) ≡ false = ground arith in rw (few, all)
  ]

  Holds-get_recent :
      (s : DataStore F) (label : Text) (n : ℕ) (h : List (Reading F))
      → 0 < n
      → Holds s label h
      → (get_recent label n s ≡ last_n (min n s.max_readings) h)
        × (get_record_count label s ≡ length h)
  unfolding get_recent get_record_count
  Holds-get_recent s label n [] p (b, l, c) =
      (rw (get_recent, b) (sym (drop-nil _)), rw (get_record_count, c))
  Holds-get_recent s label n (x ∷ xs) p (b, l, c) = (
    rw (get_recent, b)
        (last_items-last_n n (last_n s.max_readings (x ∷ xs)) p
          ∙ last_n-last_n n s.max_readings (x ∷ xs)),
    rw (get_record_count, c),
  )

  -- In a store that stands for the histories, `get_recent` returns for a positive `n` the last
  -- `n` readings of the node, or the last `max_readings` when `n` is more, and `get_record_count`
  -- the number of all of them there have been.
  pub get_recent_lem :
      (s : DataStore F) (history : Text → List (Reading F)) (label : Text) (n : ℕ)
      → Represents s history
      → 0 < n
      → (get_recent label n s ≡ last_n (min n s.max_readings) (history label))
        × (get_record_count label s ≡ length (history label))
  get_recent_lem s history label n rep p = Holds-get_recent s label n (history label) p (rep label)
