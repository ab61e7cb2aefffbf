-- ===== src/Crypto/Tests.antt =====
-- The cryptographic helpers with a small stand-in for the library.
use smg_secure_microgrid.Crypto.Hkdf.{hkdf_expand_lem, stream}
use smg_secure_microgrid.Crypto.Hmac.{hmac_sha256_lem, key_block}
use smg_secure_microgrid.Base.{
  ℕ, ◌+◌, ◌-◌, ◌%◌, ◌≡◌, refl, ap, some, [], ◌∷◌, ◌++◌, map, arith, length, take, replicate,
  length-append, take-append_exact, ok, Bytes,
}
use smg_secure_microgrid.Crypto.Gcm.{decrypt_gcm-encrypt_gcm, Aead}
use smg_secure_microgrid.Crypto.{encrypt_gcm, decrypt_gcm, hkdf_expand, hmac_sha256, Library}
use Prim.Native.Nat.{bit_xor}

abbrev total : Bytes → ℕ
total [] = 0
total (b ∷ bs) = b + total bs

abbrev pub checksum : Bytes → Bytes
checksum b = replicate 31 0 ++ (total b % 256 ∷ [])

abbrev pub toy : Library
toy = record {
  h_sha256 = checksum;
  aes_encrypt = λ k n p. p ++ replicate 16 7;
  aes_decrypt = λ k n c. some (take (length c - 16) c);
}

pub toy_digest : (m : Bytes) → length (checksum m) ≡ 32
toy_digest m = refl

pub toy_Aead : Aead toy
toy_Aead = record {
  decrypt-encrypt = λ k n p.
      let len = length-append p (replicate 16 7) in
      ap some
        (take-append_exact (length (p ++ replicate 16 7) - 16) p (replicate 16 7) (omega arith));
  has_tag = λ k n p. omega (arith, length-append p (replicate 16 7));
}

hmac_sha256_example :
    hmac_sha256 toy (replicate 65 1) (3 ∷ [])
    ≡ toy.h_sha256 (
        map (λ b. bit_xor b 0x5c) (key_block toy (replicate 65 1))
        ++ toy.h_sha256 (map (λ b. bit_xor b 0x36) (key_block toy (replicate 65 1)) ++ 3 ∷ []))
hmac_sha256_example = hmac_sha256_lem toy toy_digest (replicate 65 1) (3 ∷ [])

hkdf_expand_example :
    hkdf_expand toy (1 ∷ []) (2 ∷ []) 40 ≡ ok (take 40 (stream toy (1 ∷ []) (2 ∷ []) 255))
hkdf_expand_example = hkdf_expand_lem toy (1 ∷ []) (2 ∷ []) toy_digest 40 (omega arith)

decrypt_gcm_example :
    decrypt_gcm toy (encrypt_gcm toy (replicate 12 5) (1 ∷ 2 ∷ []) (9 ∷ [])) (9 ∷ [])
    ≡ ok (1 ∷ 2 ∷ [])
decrypt_gcm_example =
    decrypt_gcm-encrypt_gcm toy toy_Aead (replicate 12 5) (1 ∷ 2 ∷ []) (9 ∷ []) refl
