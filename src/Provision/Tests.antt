-- ===== src/Provision/Tests.antt =====
-- Runs of the provisioning tool with a generator that succeeds.
use smg_secure_microgrid.Base.Dict.{Payload}
use smg_secure_microgrid.Provision.Pinned.{main-written, pinned, load_server_identity-main}
use smg_secure_microgrid.Wire.Hex.{hex_to_bin, hex}
use smg_secure_microgrid.Base.{
  ◌≡◌, refl, true, false, none, some, List, arith, length, replicate, ok, Bytes, Text, codes,
}
use smg_secure_microgrid.Provision.{
  generate, identity, checked, write_nvs_csv, load_server_identity, is_given, or_token, main, Row,
  Args, written,
}

abbrev args : Args
args = record {
  id_b = none;
  shs_b = none;
  id_a = none;
  wifi_ssid = some (codes "smg");
  wifi_pass = some (codes "secret");
}

abbrev id_token : Bytes
id_token = replicate 16 171

abbrev shs_token : Bytes
shs_token = replicate 32 7

abbrev rows : List Row
rows = write_nvs_csv (hex id_token) (hex shs_token) args.wifi_ssid args.wifi_pass none

writes : main (λ r. true) true id_token shs_token args ≡ written rows (identity (hex id_token))
unfolding main or_token checked generate hex
writes = refl

main-written_example :
    (id_b : Text) × (shs_b : Text) × (id_b ≡ or_token none id_token)
    × (shs_b ≡ or_token none shs_token)
    × (length id_b ≡ 32)
    × (length shs_b ≡ 64)
    × (pinned (codes "id_b") rows ≡ some id_b)
    × (pinned (codes "shs_b_ref") rows ≡ some shs_b)
    × (load_server_identity (identity (hex id_token)) ≡ hex_to_bin id_b 16)
main-written_example =
    main-written (λ r. true) true id_token shs_token args rows (identity (hex id_token)) writes

not_given : is_given none ≡ false
unfolding is_given
not_given = refl

passes : checked args ≡ true
unfolding checked
passes = refl

load_server_identity-main_example :
    (r : List Row) × (file : Payload) × (main (λ x. true) true id_token shs_token args
      ≡ written r file)
    × (pinned (codes "id_b") r ≡ some (hex id_token))
    × (pinned (codes "shs_b_ref") r ≡ some (hex shs_token))
    × (load_server_identity file ≡ ok id_token)
load_server_identity-main_example =
    load_server_identity-main (λ x. true) id_token shs_token args not_given not_given refl refl
      (grind arith) passes (λ x. refl)
