-- ===== src/Primary/Identity.antt =====
-- The identity of smg_primary_server/server.py.
use smg_secure_microgrid.Wire.Hex.{unhexlify-hex, hex_digit, unhexlify, hex}
use smg_secure_microgrid.Primary.{Config, load_or_generate_server_identity}
use smg_secure_microgrid.Base.{
  ℕ, ◌/◌, ◌%◌, ◌≡◌, refl, Option, none, some, [], ◌∷◌, All, Result, ok, Bytes, Text, IsByte,
}

abbrev config : Option Text → Option Text → Config
config id_hex key_hex = record { server_id = id_hex; server_key = key_hex }

both :
    (urandom : ℕ → ℕ → Bytes) (c d : ℕ) (s t : Text) (x y : Bytes)
    → unhexlify (c ∷ s) ≡ ok x
    → unhexlify (d ∷ t) ≡ ok y
    → load_or_generate_server_identity urandom (config (some (c ∷ s)) (some (d ∷ t))) ≡ ok (x, y)
unfolding load_or_generate_server_identity
both urandom c d s t x y e f = rw (e, f) refl

no_key :
    (urandom : ℕ → ℕ → Bytes) (entry : Option Text)
    → (load_or_generate_server_identity urandom (config entry none)
        ≡ ok (urandom 0 16, urandom 1 32))
      × (load_or_generate_server_identity urandom (config entry (some []))
          ≡ ok (urandom 0 16, urandom 1 32))
unfolding load_or_generate_server_identity
no_key urandom none = (refl, refl)
no_key urandom (some []) = (refl, refl)
no_key urandom (some (c ∷ s)) = (refl, refl)

-- The server's identity is the one of the configuration if both entries are there, as hexadecimal
-- text of at least a byte; if one of them is missing or empty, whatever the other is, it is a fresh
-- one.
pub load_or_generate_lem :
    (urandom : ℕ → ℕ → Bytes) (x y : ℕ) (id key : Bytes) (entry : Option Text)
    → All IsByte (x ∷ id)
    → All IsByte (y ∷ key)
    → let load = λ (i k : Option Text). load_or_generate_server_identity urandom (config i k) in
      let fresh : Result (Bytes × Bytes) = ok (urandom 0 16, urandom 1 32) in
      (load (some (hex (x ∷ id))) (some (hex (y ∷ key))) ≡ ok (x ∷ id, y ∷ key))
      × (load none entry ≡ fresh)
      × (load (some []) entry ≡ fresh)
      × (load entry none ≡ fresh)
      × (load entry (some []) ≡ fresh)
unfolding load_or_generate_server_identity hex
load_or_generate_lem urandom x y id key entry id_bytes key_bytes =
    let (missing, empty) = no_key urandom entry in
    (
      both urandom (hex_digit (x / 16)) (hex_digit (y / 16)) (hex_digit (x % 16) ∷ hex id)
          (hex_digit (y % 16) ∷ hex key) (x ∷ id) (y ∷ key) (unhexlify-hex (x ∷ id) id_bytes)
          (unhexlify-hex (y ∷ key) key_bytes),
      refl,
      refl,
      missing,
      empty,
    )
