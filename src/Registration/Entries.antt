-- ===== src/Registration/Entries.antt =====
-- What smg_primary_server/tools/register_puf_node.py makes of the registry.
use smg_secure_microgrid.Base.Dict.{str, erase, lookup, insert, Payload, Dict}
use smg_secure_microgrid.Registration.{
  remove_entry, without_list, main, listed, not_found, refused, registered, removed, removed,
  label_or, refused, valid_pk, Outcome, new_entry, registered, choose_shs, given, register,
  check_register, Args,
}
use smg_secure_microgrid.Base.{
  ◌≡◌, refl, sym, ap₂, ◌∙◌, ◌≢◌, ◌⊎◌, inl, inr, Bool, true, false, Option, none, some, [], ◌∷◌,
  arith, ◌==◌, if◌then◌else◌, ==_iff, Bool-cases, Option-cases, length, take, Bytes, Text, codes,
  same_iff,
}

-- A run that registers, and the entry that it writes.
pub record Registers (token : Bytes) (args : Args) (registry r : Dict Payload) : Type 0 where
  pub id : Text
  pub pk : Text
  pub shs : Text
  pub label : Text
  pub id_given : given args.id_a ≡ some id
  pub pk_given : given args.pk_a ≡ some pk
  pub id_size : length id ≡ 32
  pub pk_size : length pk ≡ 130
  pub pk_prefix : take 2 pk ≡ codes "04"
  pub shs_chosen : choose_shs token (given args.shs_b) ≡ some shs
  pub label_chosen :
      (given args.label ≡ some label) ⊎ ((given args.label ≡ none) × (label ≡ take 8 id))
  pub result :
      r
      ≡ insert id
          ((codes "pk_a", str pk) ∷ (codes "shs_b", str shs) ∷ (codes "label", str label) ∷ [])
          registry

label_or-cases :
    (o : Option Text) (id : Text)
    → (o ≡ some (label_or o id)) ⊎ ((o ≡ none) × (label_or o id ≡ take 8 id))
unfolding label_or
label_or-cases none id = inr (refl, refl)
label_or-cases (some label) id = inl refl

if-registered :
    (b : Bool) (x : Outcome) (r : Dict Payload)
    → (if b then x else refused) ≡ registered r
    → (b ≡ true) × (x ≡ registered r)
if-registered true x r h = (refl, h)
if-registered false x r h = cc

register-registered :
    (id pk label : Text) (shs : Option Text) (registry r : Dict Payload)
    → register id pk label shs registry ≡ registered r
    → (s : Text) × (shs ≡ some s) × (r ≡ insert id (new_entry pk s label) registry)
unfolding register
register-registered id pk label none registry r h = cc
register-registered id pk label (some s) registry r h = (s, refl, cc)

valid_pk_lem : (pk : Text) → valid_pk pk ≡ true → (length pk ≡ 130) × (take 2 pk ≡ codes "04")
unfolding valid_pk
valid_pk_lem pk h = ground (arith, same_iff (take 2 pk) (codes "04"))

registers :
    (token : Bytes) (args : Args) (registry r : Dict Payload) (id pk : Option Text)
    → given args.id_a ≡ id
    → given args.pk_a ≡ pk
    → check_register token args id pk registry ≡ registered r
    → Registers token args registry r
unfolding check_register new_entry
registers token args registry r none pk e f h = cc
registers token args registry r (some id) none e f h = cc
registers token args registry r (some id) (some pk) e f h =
    let (size, h1) = if-registered (length id == 32) _ r h in
    let (valid, h2) = if-registered (valid_pk pk) _ r h1 in
    let (shs, chosen, result) =
      register-registered id pk (label_or (given args.label) id)
        (choose_shs token (given args.shs_b)) registry r h2 in
    let (pk_size, prefix) = valid_pk_lem pk valid in
    record {
      id = id;
      pk = pk;
      shs = shs;
      label = label_or (given args.label) id;
      id_given = e;
      pk_given = f;
      id_size = (==_iff (length id) 32).0 size;
      pk_size = pk_size;
      pk_prefix = prefix;
      shs_chosen = chosen;
      label_chosen = label_or-cases (given args.label) id;
      result = result;
    }

-- A run that saved the registry after a removal.
abbrev pub Removes : Args → Dict Payload → Dict Payload → Type 0
Removes args registry r =
    (id : Text) × (entry : Payload) × (given args.remove ≡ some id)
    × (lookup id registry ≡ some entry)
    × (r ≡ erase id registry)

-- The arguments of a registration that the tool accepts.
abbrev pub Accepted : Bytes → Args → Type 0
Accepted token args =
    (id : Text) × (pk : Text) × (shs : Text) × (given args.id_a ≡ some id)
    × (given args.pk_a ≡ some pk)
    × (length id ≡ 32)
    × (valid_pk pk ≡ true)
    × (choose_shs token (given args.shs_b) ≡ some shs)

abbrev pub Described : Bytes → Args → Dict Payload → Outcome → Type 0
Described token args registry (registered r) = Registers token args registry r
Described token args registry (removed r) = Removes args registry r
Described token args registry listed = args.list_entries ≡ true
Described token args registry not_found =
    (id : Text) × (given args.remove ≡ some id) × (lookup id registry ≡ none)
Described token args registry refused = (given args.remove ≡ none) × (Accepted token args → ⊥)

Accepted-register :
    (token : Bytes) (args : Args) (registry : Dict Payload)
    → Accepted token args
    → check_register token args (given args.id_a) (given args.pk_a) registry ≡ refused
    → ⊥
Accepted-register token args registry (id, pk, shs, id_e, pk_e, size, valid, chosen) h =
    let fits = (==_iff (length id) 32).1 size in
    let goes : check_register token args (some id) (some pk) registry
        ≡ registered (insert id (new_entry pk shs (label_or (given args.label) id)) registry) =
      unfold check_register register in rw (check_register, fits, valid, chosen) refl in
    let same_run = ap₂ (λ i k. check_register token args i k registry) id_e pk_e in
    refused≢registered _ (sym h ∙ same_run ∙ goes)
  where
    refused≢registered : (r : Dict Payload) → refused ≢ registered r
    refused≢registered r e = cc

register-cases :
    (token : Bytes) (args : Args) (registry : Dict Payload) (id pk : Option Text)
    → (check_register token args id pk registry ≡ refused)
      ⊎ ((r : Dict Payload) × (check_register token args id pk registry ≡ registered r))
unfolding check_register register
register-cases token args registry none pk = inl refl
register-cases token args registry (some id) none = inl refl
register-cases token args registry (some id) (some pk) = elim (Bool-cases (length id == 32)) [
  | inr e ↦ inl (rw (check_register, e) refl)
  | inl e ↦ elim (Bool-cases (valid_pk pk)) [
    | inr f ↦ inl (rw (check_register, e, f) refl)
    | inl f ↦ elim (Option-cases (choose_shs token (given args.shs_b))) [
      | inl g ↦ inl (rw (check_register, e, f, g) refl)
      | inr (shs, g) ↦ inr (
        insert id (new_entry pk shs (label_or (given args.label) id)) registry,
        rw (check_register, e, f, g) refl,
      )
    ]
  ]
]

-- Every run is described. It lists; or it removes the entry that was there under the given
-- identifier, or found none; or, without an identifier to remove, it registers under the given
-- identifier, of 32 characters, an entry with the given key, of 130 characters from `04` on, the chosen
-- verifier, and the given label or the first eight characters of the identifier; or it refuses, and then not all of these are there and of these sizes.
pub main-Described :
    (token : Bytes) (args : Args) (registry : Dict Payload)
    → Described token args registry (main token args registry)
unfolding main without_list
main-Described token args registry =
    pick args.list_entries (without_list token args (given args.remove) registry) (λ e. e)
      (without (given args.remove) refl)
  where
    pick :
        (b : Bool) (y : Outcome)
        → (b ≡ true → args.list_entries ≡ true)
        → Described token args registry y
        → Described token args registry (if b then listed else y)
    pick true y h k = h refl
    pick false y h k = k

    without :
        (remove : Option Text)
        → given args.remove ≡ remove
        → Described token args registry (without_list token args remove registry)
    without (some id) given_e = elim (Option-cases (lookup id registry)) [
      | inl e ↦ rw (remove_entry, e) (id, given_e, e)
      | inr (entry, e) ↦ rw (remove_entry, e) (id, entry, given_e, e, refl)
    ]
    without none given_e =
        elim (register-cases token args registry (given args.id_a) (given args.pk_a)) [
          | inl e ↦ rw e (given_e, λ accepted. Accepted-register token args registry accepted e)
          | inr (r, e) ↦
              rw e (registers token args registry r (given args.id_a) (given args.pk_a) refl refl e)
        ]
