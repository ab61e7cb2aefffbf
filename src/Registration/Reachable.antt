-- ===== src/Registration/Reachable.antt =====
-- The registries that runs of smg_primary_server/tools/register_puf_node.py can leave.
use smg_secure_microgrid.Wire.Hex.{length-hex, hex}
use smg_secure_microgrid.Base.Dict.{
  lookup-erase, lookup-insert, erase, insert, lookup, Dict, Payload,
}
use smg_secure_microgrid.Base.{
  ◌≡◌, refl, sym, ap, ◌∙◌, subst, ◌≢◌, inl, inr, Option, none, some, List, [], ◌∷◌, arith,
  if◌then◌else◌, ==_iff, Bool-cases, All, length, take, Bytes, Text, codes, same, same_sound,
}
use smg_secure_microgrid.Registration.{
  given, main, Outcome, new_entry, Args, saved, choose_shs, listed, not_found, refused, registered,
  removed,
}
use smg_secure_microgrid.Registration.Entries.{main-Described, Described}

-- An entry of the sizes that the handshake wants.
abbrev pub FormedEntry : Text → Payload → Type 0
FormedEntry id entry =
    (length id ≡ 32)
    × (pk : Text) × (shs : Text) × (label : Text) × (entry ≡ new_entry pk shs label)
    × (length pk ≡ 130)
    × (take 2 pk ≡ codes "04")
    × (length shs ≡ 64)

abbrev pub Formed : Dict Payload → Type 0
Formed registry =
    (id : Text) (entry : Payload) → lookup id registry ≡ some entry → FormedEntry id entry

choose_shs-size :
    (token : Bytes) (o : Option Text) (shs : Text)
    → length token ≡ 32
    → choose_shs token o ≡ some shs
    → length shs ≡ 64
unfolding choose_shs
choose_shs-size token none shs h e =
    let same_text : hex token ≡ shs = cc in
    ap length (sym same_text) ∙ omega (arith, length-hex token)
choose_shs-size token (some s) shs h e = ground (arith, ==_iff (length s) 64)

some_inj : (x y : Payload) → some x ≡ some y → x ≡ y
some_inj x y h = cc

insert-Formed :
    (id : Text) (entry : Payload) (registry : Dict Payload)
    → FormedEntry id entry
    → Formed registry
    → Formed (insert id entry registry)
insert-Formed id entry registry new old j e h = elim (Bool-cases (same id j)) [
  | inl q ↦
      let found = sym (lookup-insert j id entry registry) ∙ h in
      let this : entry ≡ e =
        some_inj entry e
          (subst (λ b. (if b then some entry else lookup j registry) ≡ some e) q found) in
      subst (λ p. FormedEntry p e) (same_sound id j q) (subst (FormedEntry id) this new)
  | inr q ↦
      let found = sym (lookup-insert j id entry registry) ∙ h in
      old j e (subst (λ b. (if b then some entry else lookup j registry) ≡ some e) q found)
]

erase-Formed : (id : Text) (registry : Dict Payload) → Formed registry → Formed (erase id registry)
erase-Formed id registry old j e h = elim (Bool-cases (same id j)) [
  | inl q ↦
      let found = sym (lookup-erase j id registry) ∙ h in
      absurd (none≢some e (subst (λ b. (if b then none else lookup j registry) ≡ some e) q found))
  | inr q ↦
      let found = sym (lookup-erase j id registry) ∙ h in
      old j e (subst (λ b. (if b then none else lookup j registry) ≡ some e) q found)
]
  where
    none≢some : (x : Payload) → none ≢ some x
    none≢some x p = cc

saved-Formed :
    (token : Bytes) (args : Args) (registry : Dict Payload) (o : Outcome)
    → length token ≡ 32
    → Described token args registry o
    → Formed registry
    → Formed (saved o registry)
unfolding saved new_entry
saved-Formed token args registry listed size d old = old
saved-Formed token args registry not_found size d old = old
saved-Formed token args registry refused size d old = old
saved-Formed token args registry (removed r) size (id, entry, id_given, was, result) old =
    subst Formed (sym result) (erase-Formed id registry old)
saved-Formed token args registry (registered r) size d old = subst Formed (sym d.result) (
    insert-Formed d.id (new_entry d.pk d.shs d.label) registry
      (
        d.id_size,
        d.pk,
        d.shs,
        d.label,
        refl,
        d.pk_size,
        d.pk_prefix,
        choose_shs-size token (given args.shs_b) d.shs size d.shs_chosen,
      )
      old)

-- The registry file after some runs, each with its fresh bytes and its arguments.
abbrev pub after_runs : List (Bytes × Args) → Dict Payload → Dict Payload
after_runs [] registry = registry
after_runs ((token, args) ∷ runs) registry =
    after_runs runs (saved (main token args registry) registry)

-- Whatever the arguments of the runs are, if each draws 32 fresh bytes, they keep the registry
-- formed: each identifier has 32 characters, and its entry is a label, a key of 130 characters from
-- `04` on and a verifier of 64.
pub after_runs-Formed :
    (runs : List (Bytes × Args)) (registry : Dict Payload)
    → All (λ run. length run.0 ≡ 32) runs
    → Formed registry
    → Formed (after_runs runs registry)
after_runs-Formed [] registry sizes formed = formed
after_runs-Formed ((token, args) ∷ runs) registry (size, sizes) formed =
    after_runs-Formed runs (saved (main token args registry) registry) sizes (
      saved-Formed token args registry (main token args registry) size
        (main-Described token args registry) formed)
