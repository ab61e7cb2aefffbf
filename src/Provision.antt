-- ===== src/Provision.antt =====
-- smg_puf_rot_node/tools/provision_server_ref.py, which pins a node's references into its NVS image and
-- writes the server's identity, and `load_server_identity` of
-- smg_primary_server/rot_challenge_service.py, which reads that. The generator of the image is
-- an external program: `generates` says whether it succeeds on the rows.
pub mod Pinned
pub mod Tests
use smg_secure_microgrid.Base.{
  ℕ, ◌+◌, Bool, true, false, not, ◌&&◌, Option, none, some, List, [], ◌∷◌, ◌++◌, ltb, leb, ◌==◌,
  if◌then◌else◌, tests, length, value, Result, Bytes, Text, codes, ◌>>=◌, ◌>>◌,
}
use smg_secure_microgrid.Wire.Hex.{hex_to_bin, hex}
use smg_secure_microgrid.Base.Dict.{str, get_str, Payload}
use smg_secure_microgrid.Base.{
  ℕ, ◌+◌, Bool, true, false, not, ◌&&◌, Option, none, some, List, [], ◌∷◌, ◌++◌, ltb, leb, ◌==◌,
  if◌then◌else◌, tests, length, value, Result, Bytes, Text, codes,
}

-- The parsed arguments, but the paths and `--keep-csv`.
pub record Args : Type 0 where
  pub id_b : Option Text
  pub shs_b : Option Text
  pub id_a : Option Text
  pub wifi_ssid : Option Text
  pub wifi_pass : Option Text

-- A row of the CSV file: key, type, encoding and value.
pub record Row : Type 0 where
  pub key : Text
  pub type : Text
  pub encoding : Text
  pub content : Text

abbrev row : Text → Text → Text → Text → Row
row k t e c = record { key = k; type = t; encoding = e; content = c }

-- How a run ends: `ap.error`, an exit with 1, or the rows of the image and the identity file.
pub data Outcome : Type 0 where
  refused failed : Outcome
  written : List Row → Payload → Outcome

-- `bool(s)` of an argument
unfoldable pub is_given : Option Text → Bool
is_given none = false
is_given (some []) = false
is_given (some (c ∷ s)) = true

-- `args.x or secrets.token_hex(n)`, of the n drawn bytes
unfoldable pub or_token : Option Text → Bytes → Text
unfolding hex
or_token none token = hex token
or_token (some []) token = hex token
or_token (some (c ∷ s)) token = c ∷ s

-- `len(s.encode())`, in UTF-8.
unfoldable pub utf8_size : Text → ℕ
utf8_size [] = 0
utf8_size (c ∷ s) =
    (if ltb c 128 then 1 else if ltb c 2048 then 2 else if ltb c 65536 then 3 else 4) + utf8_size s

unfoldable pub id_rows : Option Text → List Row
id_rows none = []
id_rows (some id_a) = row (codes "id_a") (codes "data") (codes "hex2bin") id_a ∷ []

unfoldable pub wifi_rows : Option Text → Option Text → List Row
wifi_rows (some ssid) (some pass) =
    row (codes "wifi_creds") (codes "namespace") [] []
    ∷ row (codes "ssid") (codes "data") (codes "string") ssid
    ∷ row (codes "pass") (codes "data") (codes "string") pass
    ∷ []
wifi_rows ssid pass = []

unfoldable pub write_nvs_csv : Text → Text → Option Text → Option Text → Option Text → List Row
unfolding id_rows wifi_rows
write_nvs_csv id_b_hex shs_b_hex wifi_ssid wifi_pass id_a_hex =
    row (codes "key") (codes "type") (codes "encoding") (codes "value")
    ∷ row (codes "rot_identity") (codes "namespace") [] []
    ∷ row (codes "id_b") (codes "data") (codes "hex2bin") id_b_hex
    ∷ row (codes "shs_b_ref") (codes "data") (codes "hex2bin") shs_b_hex
    ∷ (id_rows id_a_hex ++ wifi_rows wifi_ssid wifi_pass)

-- `args.id_a is not None and len(args.id_a) != 32`, negated.
unfoldable pub id_fits : Option Text → Bool
id_fits none = true
id_fits (some id_a) = length id_a == 32

-- `args.x and len(args.x.encode()) > limit`, negated.
unfoldable pub text_fits : ℕ → Option Text → Bool
unfolding utf8_size
text_fits limit none = true
text_fits limit (some s) = leb (utf8_size s) limit

-- The tests of the arguments, all but those of the first two.
unfoldable pub checked : Args → Bool
unfolding id_fits is_given text_fits
checked args =
    id_fits args.id_a
    && (if is_given args.wifi_ssid then is_given args.wifi_pass else not (is_given args.wifi_pass))
    && text_fits 32 args.wifi_ssid
    && text_fits 64 args.wifi_pass

-- `{"id_b": id_b_hex}`
unfoldable pub identity : Text → Payload
identity id_b_hex = (codes "id_b", str id_b_hex) ∷ []

module _ (generates : List Row → Bool) where
  -- The image and the identity are written if the generator is found and succeeds.
  unfoldable pub generate : Bool → Text → Text → Args → Outcome
  unfolding write_nvs_csv identity
  generate has_generator id_b_hex shs_b_hex args =
      let rows = write_nvs_csv id_b_hex shs_b_hex args.wifi_ssid args.wifi_pass args.id_a in
      if has_generator && generates rows then written rows (identity id_b_hex) else failed

  -- With the bytes of the two calls of `secrets.token_hex`.
  unfoldable pub main : Bool → Bytes → Bytes → Args → Outcome
  unfolding or_token checked generate
  main has_generator id_token shs_token args =
      let id_b_hex = or_token args.id_b id_token in
      let shs_b_hex = or_token args.shs_b shs_token in
      if length id_b_hex == 32 && length shs_b_hex == 64 && checked args
      then generate has_generator id_b_hex shs_b_hex args
      else refused

-- `load_server_identity`, of the loaded file.
unfoldable pub load_server_identity : Payload → Result Bytes
unfolding get_str hex_to_bin
load_server_identity file = do id_b ← get_str (codes "id_b") file; hex_to_bin id_b 16
