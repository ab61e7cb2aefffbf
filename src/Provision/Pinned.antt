-- ===== src/Provision/Pinned.antt =====
-- What smg_puf_rot_node/tools/provision_server_ref.py writes, on both sides.
use smg_secure_microgrid.Wire.Hex.{length-hex, hex_to_bin-hex, hex, hex_to_bin}
use smg_secure_microgrid.Base.Dict.{lookup, get_str, Payload}
use smg_secure_microgrid.Base.{
  ◌≡◌, refl, ap, ◌∙◌, subst, ◌≢◌, Bool, true, false, ◌&&◌, Option, none, some, List, [], ◌∷◌, arith,
  ◌==◌, if◌then◌else◌, ==_iff, All, length, ok, Bytes, Text, IsByte, codes, same,
}
use smg_secure_microgrid.Provision.{
  is_given, checked, or_token, Args, load_server_identity, identity, write_nvs_csv, generate, main,
  Outcome, Row, written, refused, failed,
}

-- The value under a key of the first namespace.
abbrev pub pinned : Text → List Row → Option Text
pinned k [] = none
pinned k (r ∷ rows) = if same r.key k then some r.content else pinned k rows

if-written :
    (b : Bool) (x y : Outcome) (rows : List Row) (file : Payload)
    → y ≢ written rows file
    → (if b then x else y) ≡ written rows file
    → (b ≡ true) × (x ≡ written rows file)
if-written true x y rows file other_end h = (refl, h)
if-written false x y rows file other_end h = absurd (other_end h)

written-rows :
    (r r' : List Row) (f f' : Payload) → written r f ≡ written r' f' → (r ≡ r') × (f ≡ f')
written-rows r r' f f' h = (cc, cc)

sizes : (a b c : Bool) → (a && b && c) ≡ true → (a ≡ true) × (b ≡ true) × (c ≡ true)
sizes true true true h = (refl, refl, refl)
sizes true true false h = cc
sizes true false c h = cc
sizes false b c h = cc

-- A run that writes: the image holds the identity and the verifier, of 32 and 64 characters, given
-- or drawn; and the server that loads the identity file afterwards gets the bytes that the
-- image's identity stands for, or fails as they are no such bytes.
pub main-written :
    (generates : List Row → Bool) (has_generator : Bool) (id_token shs_token : Bytes) (args : Args)
    (rows : List Row) (file : Payload)
    → main generates has_generator id_token shs_token args ≡ written rows file
    → (id_b : Text) × (shs_b : Text) × (id_b ≡ or_token args.id_b id_token)
      × (shs_b ≡ or_token args.shs_b shs_token)
      × (length id_b ≡ 32)
      × (length shs_b ≡ 64)
      × (pinned (codes "id_b") rows ≡ some id_b)
      × (pinned (codes "shs_b_ref") rows ≡ some shs_b)
      × (load_server_identity file ≡ hex_to_bin id_b 16)
unfolding main generate write_nvs_csv identity load_server_identity get_str lookup same
main-written generates has_generator id_token shs_token args rows file h =
    let id_b = or_token args.id_b id_token in
    let shs_b = or_token args.shs_b shs_token in
    let (fits, h1) =
      if-written (length id_b == 32 && length shs_b == 64 && checked args) _ refused rows file
        (λ e. cc) h in
    let (id_fits, shs_fits, rest) =
      sizes (length id_b == 32) (length shs_b == 64) (checked args) fits in
    let (ran, h2) = if-written _ _ failed rows file (λ e. cc) h1 in
    let (rows_e, file_e) = written-rows _ rows _ file h2 in
    (
      id_b,
      shs_b,
      refl,
      refl,
      (==_iff (length id_b) 32).0 id_fits,
      (==_iff (length shs_b) 64).0 shs_fits,
      subst (λ r. pinned (codes "id_b") r ≡ some id_b) rows_e refl,
      subst (λ r. pinned (codes "shs_b_ref") r ≡ some shs_b) rows_e refl,
      subst (λ f. load_server_identity f ≡ hex_to_bin id_b 16) file_e refl,
    )

or_token-drawn :
    (token : Bytes) (o : Option Text) → is_given o ≡ false → or_token o token ≡ hex token
unfolding is_given or_token
or_token-drawn token none e = refl
or_token-drawn token (some []) e = refl
or_token-drawn token (some (c ∷ s)) e = cc

main-writes :
    (generates : List Row → Bool) (id_token shs_token : Bytes) (args : Args)
    → length (or_token args.id_b id_token) ≡ 32
    → length (or_token args.shs_b shs_token) ≡ 64
    → checked args ≡ true
    → ((rows : List Row) → generates rows ≡ true)
    → let id_b = or_token args.id_b id_token in
      let shs_b = or_token args.shs_b shs_token in
      main generates true id_token shs_token args
      ≡ written (write_nvs_csv id_b shs_b args.wifi_ssid args.wifi_pass args.id_a) (identity id_b)
unfolding main generate
main-writes generates id_token shs_token args id_size shs_size fits runs =
    let id_b = or_token args.id_b id_token in
    let shs_b = or_token args.shs_b shs_token in
    rw
      (
        (==_iff (length id_b) 32).1 id_size,
        (==_iff (length shs_b) 64).1 shs_size,
        fits,
        runs (write_nvs_csv id_b shs_b args.wifi_ssid args.wifi_pass args.id_a),
      )
      refl

-- With neither identity nor verifier given, or empty ones, 16 and 32 drawn bytes, other arguments
-- that pass the tests, and a generator that is found and succeeds, a run writes; the image holds
-- the drawn values, and the server that loads the identity file gets the 16 bytes that were drawn.
pub load_server_identity-main :
    (generates : List Row → Bool) (id_token shs_token : Bytes) (args : Args)
    → is_given args.id_b ≡ false
    → is_given args.shs_b ≡ false
    → length id_token ≡ 16
    → length shs_token ≡ 32
    → All IsByte id_token
    → checked args ≡ true
    → ((rows : List Row) → generates rows ≡ true)
    → (rows : List Row) × (file : Payload) × (main generates true id_token shs_token args
        ≡ written rows file)
      × (pinned (codes "id_b") rows ≡ some (hex id_token))
      × (pinned (codes "shs_b_ref") rows ≡ some (hex shs_token))
      × (load_server_identity file ≡ ok id_token)
load_server_identity-main generates id_token shs_token args no_id no_shs id_size shs_size bytes fits
      runs =
    let id_e = or_token-drawn id_token args.id_b no_id in
    let shs_e = or_token-drawn shs_token args.shs_b no_shs in
    let id_b = or_token args.id_b id_token in
    let shs_b = or_token args.shs_b shs_token in
    let rows = write_nvs_csv id_b shs_b args.wifi_ssid args.wifi_pass args.id_a in
    let run =
      main-writes generates id_token shs_token args
        (ap length id_e ∙ omega (arith, length-hex id_token))
        (ap length shs_e ∙ omega (arith, length-hex shs_token)) fits runs in
    let (id', shs', id'_e, shs'_e, id'_size, shs'_size, pin_id, pin_shs, loads) =
      main-written generates true id_token shs_token args rows (identity id_b) run in
    (
      rows,
      identity id_b,
      run,
      pin_id ∙ ap some (id'_e ∙ id_e),
      pin_shs ∙ ap some (shs'_e ∙ shs_e),
      loads
          ∙ ap (λ t. hex_to_bin t 16) (id'_e ∙ id_e)
          ∙ subst (λ n. hex_to_bin (hex id_token) n ≡ ok id_token) id_size
              (hex_to_bin-hex id_token bytes),
    )
