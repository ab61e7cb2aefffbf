-- ===== src/Crypto/Gcm.antt =====
-- `encrypt_gcm` and `decrypt_gcm` of smg_primary_server/crypto_utils.py together.
use smg_secure_microgrid.Base.{
  ℕ, ◌-◌, ◌≤◌, ◌≡◌, ap, ◌∙◌, some, ◌++◌, arith, length, drop, replicate, length-append,
  take-append-drop, length-take, length-replicate, drop-append_of_ge, take-append_exact,
  drop-append_exact, invalid_tag, ok, of_option, Bytes,
}
use smg_secure_microgrid.Crypto.{
  digest_size, gcm_nonce_size, aes_key_size, gcm_tag_size, Library, fit_key, encrypt_gcm,
  decrypt_gcm,
}

module _ (lib : Library) where
  -- The documented behaviour of `AESGCM`: it decrypts what it encrypted, and the tag is there.
  pub record Aead : Type 0 where
    pub decrypt-encrypt : (k n p : Bytes) → lib.aes_decrypt k n (lib.aes_encrypt k n p) ≡ some p
    pub has_tag : (k n p : Bytes) → gcm_tag_size ≤ length (lib.aes_encrypt k n p)

  -- The cut and the join of ciphertext and tag cancel.
  encrypt_gcm_lem :
      (nonce plaintext key : Bytes)
      → encrypt_gcm lib nonce plaintext key
        ≡ nonce ++ lib.aes_encrypt (fit_key lib key aes_key_size) nonce plaintext
  unfolding encrypt_gcm
  encrypt_gcm_lem nonce plaintext key =
      let c = lib.aes_encrypt (fit_key lib key aes_key_size) nonce plaintext in
      ap (λ xs. nonce ++ xs) (take-append-drop (length c - gcm_tag_size) c)

  decrypt_gcm_lem :
      (nonce c key : Bytes)
      → length nonce ≡ gcm_nonce_size
      → gcm_tag_size ≤ length c
      → decrypt_gcm lib (nonce ++ c) key
        ≡ of_option invalid_tag (lib.aes_decrypt (fit_key lib key aes_key_size) nonce c)
  unfolding decrypt_gcm
  decrypt_gcm_lem nonce c key hn ht =
      let cut = length (nonce ++ c) - gcm_tag_size in
      let total = length-append nonce c in
      let body : drop gcm_nonce_size (nonce ++ c) ≡ c =
        drop-append_exact gcm_nonce_size nonce c hn in
      let tag : drop cut (nonce ++ c) ≡ drop (cut - gcm_nonce_size) c =
        drop-append_of_ge cut nonce c (omega arith) ∙ ap (λ i. drop i c) (omega arith) in
      rw (
        take-append_exact gcm_nonce_size nonce c hn,
        body,
        tag,
        take-append-drop (cut - gcm_nonce_size) c,
      )

  -- With a 12-byte nonce, `decrypt_gcm` gives back the plaintext that `encrypt_gcm` was given
  -- under the same key, whatever the length of either.
  pub decrypt_gcm-encrypt_gcm :
      (laws : Aead) (nonce plaintext key : Bytes)
      → length nonce ≡ gcm_nonce_size
      → decrypt_gcm lib (encrypt_gcm lib nonce plaintext key) key ≡ ok plaintext
  decrypt_gcm-encrypt_gcm laws nonce plaintext key h =
      let k = fit_key lib key aes_key_size in
      ap (λ x. decrypt_gcm lib x key) (encrypt_gcm_lem nonce plaintext key)
      ∙ decrypt_gcm_lem nonce (lib.aes_encrypt k nonce plaintext) key h
          (laws.has_tag k nonce plaintext)
      ∙ ap (of_option invalid_tag) (laws.decrypt-encrypt k nonce plaintext)

  -- With 32-byte digests the cipher always gets a 32-byte key.
  pub length-fit_key :
      ((m : Bytes) → length (lib.h_sha256 m) ≡ digest_size)
      → (key : Bytes) → length (fit_key lib key aes_key_size) ≡ aes_key_size
  unfolding fit_key
  length-fit_key h key = ground (
    arith,
    h key,
    length-take aes_key_size (lib.h_sha256 key),
    length-append key (replicate (aes_key_size - length key) 0),
    length-replicate {A = ℕ} (aes_key_size - length key) 0,
  )
