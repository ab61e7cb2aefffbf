-- ===== src/Registration/Lookups.antt =====
-- The registry of smg_primary_server/tools/register_puf_node.py as the handshake of
-- smg_primary_server/rot_challenge_service.py looks it up, by `id_a.hex()`.
use smg_secure_microgrid.Base.Dict.{str, lookup-insert, lookup-insert_self, lookup, Payload, Dict}
use smg_secure_microgrid.Wire.Hex.{hex_digit, hex}
use smg_secure_microgrid.Base.{
  ◌≤◌, ◌≡◌, sym, ap, ◌∙◌, subst, ◌≢◌, ◌⊎◌, inl, inr, Option, some, [], ◌∷◌, arith, if◌then◌else◌,
  All, Bytes, Text, IsByte, codes, same, same_iff,
}
use smg_secure_microgrid.Registration.{given, main, Args, registered}
use smg_secure_microgrid.Registration.Entries.{Registers, main-Described, Described}

-- A digit A to F in upper case occurs.
abbrev pub HasUpper : Text → Type 0
HasUpper [] = ⊥
HasUpper (c ∷ s) = ((65 ≤ c) × (c ≤ 70)) ⊎ HasUpper s

hex-lower : (b : Bytes) → All IsByte b → HasUpper (hex b) → ⊥
unfolding hex hex_digit
hex-lower [] h u = u
hex-lower (x ∷ b) (hx, h) (inl u) = ground arith
hex-lower (x ∷ b) (hx, h) (inr (inl u)) = ground arith
hex-lower (x ∷ b) (hx, h) (inr (inr u)) = hex-lower b h u

main-Registers :
    (token : Bytes) (args : Args) (registry r : Dict Payload)
    → main token args registry ≡ registered r
    → Registers token args registry r
main-Registers token args registry r h =
    subst (Described token args registry) h (main-Described token args registry)

-- A run that registers: its entry is found under its identifier, and what is found under every
-- other identifier is what was found before.
pub register-lookup :
    (token : Bytes) (args : Args) (registry r : Dict Payload)
    → main token args registry ≡ registered r
    → (run : Registers token args registry r) × (lookup run.id r
        ≡ some (
            (codes "pk_a", str run.pk)
            ∷ (codes "shs_b", str run.shs)
            ∷ (codes "label", str run.label)
            ∷ []))
      × ((j : Text) → j ≢ run.id → lookup j r ≡ lookup j registry)
register-lookup token args registry r h =
    let run = main-Registers token args registry r h in
    let entry =
      (codes "pk_a", str run.pk)
      ∷ (codes "shs_b", str run.shs)
      ∷ (codes "label", str run.label)
      ∷ [] in
    (
      run,
      ap (lookup run.id) run.result ∙ lookup-insert_self run.id entry registry,
      λ j other.
          ap (lookup j) run.result
          ∙ lookup-insert j run.id entry registry
          ∙ other_key run.id j (some entry) (lookup j registry) other,
    )
  where
    other_key : (i j : Text) (x y : Option Payload) → j ≢ i → (if same i j then x else y) ≡ y
    other_key i j x y h = ground (arith, same_iff i j)

-- A device that is registered under an identifier with a digit in upper case is not found by the
-- handshake: under the lower-case digits that it looks up, of whatever bytes, there is what was
-- there before.
pub register_upper :
    (token : Bytes) (args : Args) (registry r : Dict Payload) (id : Text)
    → main token args registry ≡ registered r
    → given args.id_a ≡ some id
    → HasUpper id
    → (b : Bytes) → All IsByte b
    → lookup (hex b) r ≡ lookup (hex b) registry
register_upper token args registry r id h id_given upper b bytes =
    let (run, found, others) = register-lookup token args registry r h in
    others (hex b) (λ e.
      hex-lower b bytes (
        subst HasUpper (text_inj id (hex b) (sym id_given ∙ run.id_given ∙ ap some (sym e))) upper))
  where
    text_inj : (s t : Text) → some s ≡ some t → s ≡ t
    text_inj s t h = cc
