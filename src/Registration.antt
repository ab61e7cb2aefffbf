-- ===== src/Registration.antt =====
-- smg_primary_server/tools/register_puf_node.py: the registry of devices that the handshake looks
-- into. The registry file is the dict it holds; the order of its keys and the printing are left out.
pub mod Entries
pub mod Lookups
pub mod Handshake
pub mod Reachable
pub mod Tests
use smg_secure_microgrid.Wire.Hex.{hex}
use smg_secure_microgrid.Base.Dict.{erase, str, lookup, insert, Payload, Dict}
use smg_secure_microgrid.Base.{
  Bool, ◌&&◌, Option, none, some, [], ◌∷◌, ◌==◌, if◌then◌else◌, tests, length, take, Bytes, Text,
  codes, same,
}

-- The parsed arguments, but the paths.
pub record Args : Type 0 where
  pub id_a : Option Text
  pub pk_a : Option Text
  pub label : Option Text
  pub shs_b : Option Text
  pub remove : Option Text
  pub list_entries : Bool

-- How a run ends: with the registry that it saves, or without saving. `refused` is `ap.error`.
pub data Outcome : Type 0 where
  listed not_found refused : Outcome
  removed registered : Dict Payload → Outcome

-- `if args.x`: an empty text counts as none.
unfoldable pub given : Option Text → Option Text
given (some []) = none
given (some (c ∷ s)) = some (c ∷ s)
given none = none

-- The tests of the public key.
unfoldable pub valid_pk : Text → Bool
valid_pk pk = length pk == 130 && same (take 2 pk) (codes "04")

-- The given verifier, if it has the right length, or a fresh one of the bytes of
-- `secrets.token_hex`.
unfoldable pub choose_shs : Bytes → Option Text → Option Text
unfolding hex
choose_shs token none = some (hex token)
choose_shs token (some shs) = if length shs == 64 then some shs else none

-- `args.label or args.id_a[:8]`
unfoldable pub label_or : Option Text → Text → Text
label_or none id = take 8 id
label_or (some label) id = label

unfoldable pub new_entry : Text → Text → Text → Payload
new_entry pk shs label =
    (codes "pk_a", str pk) ∷ (codes "shs_b", str shs) ∷ (codes "label", str label) ∷ []

unfoldable pub register : Text → Text → Text → Option Text → Dict Payload → Outcome
unfolding new_entry insert
register id pk label none registry = refused
register id pk label (some shs) registry = registered (insert id (new_entry pk shs label) registry)

-- The tests before the registration, in their order.
unfoldable pub check_register : Bytes → Args → Option Text → Option Text → Dict Payload → Outcome
unfolding valid_pk choose_shs label_or register
check_register token args (some id) (some pk) registry =
    if length id == 32
    then if valid_pk pk
      then register id pk (label_or (given args.label) id) (choose_shs token (given args.shs_b))
          registry
      else refused
    else refused
check_register token args (some id) none registry = refused
check_register token args none pk registry = refused

unfoldable pub remove_entry : Text → Dict Payload → Outcome
unfolding lookup erase
remove_entry id registry = elim (lookup id registry) [
  | none ↦ not_found
  | some entry ↦ removed (erase id registry)
]

unfoldable pub without_list : Bytes → Args → Option Text → Dict Payload → Outcome
unfolding remove_entry check_register given
without_list token args (some id) registry = remove_entry id registry
without_list token args none registry =
    check_register token args (given args.id_a) (given args.pk_a) registry

unfoldable pub main : Bytes → Args → Dict Payload → Outcome
unfolding without_list
main token args registry =
    if args.list_entries then listed else without_list token args (given args.remove) registry

-- The registry file after a run.
unfoldable pub saved : Outcome → Dict Payload → Dict Payload
saved (removed r) registry = r
saved (registered r) registry = r
saved listed registry = registry
saved not_found registry = registry
saved refused registry = registry
