-- ===== src/Rot/Data.antt =====
-- `decrypt_data_message` and `encrypt_data_message` of smg_primary_server/rot_challenge_service.py.
use smg_secure_microgrid.Base.{
  ℕ, ◌-◌, [], ◌∷◌, ◌++◌, length, take, drop, invalid_tag, Result, of_option, Bytes, codes, ◌>>=◌,
}
use smg_secure_microgrid.Base.{◌>>=◌}
use smg_secure_microgrid.Base.Dict.{Payload, str, get_str}
use smg_secure_microgrid.Wire.Hex.{hex, from_hex, hex_to_bin}
use smg_secure_microgrid.Rot.Primitives.{Primitives}

abbrev pub gcm_nonce_len : ℕ
gcm_nonce_len = 12

abbrev pub gcm_tag_len : ℕ
gcm_tag_len = 16

module _ (p : Primitives) where
  unfoldable pub decrypt_data_message : Payload → Bytes → Result Bytes
  unfolding get_str hex_to_bin
  decrypt_data_message msg key_ab = do
    nonce_hex ← get_str (codes "nonce") msg
    nonce ← hex_to_bin nonce_hex gcm_nonce_len
    ciphertext_hex ← get_str (codes "ciphertext") msg
    ciphertext ← from_hex ciphertext_hex
    tag_hex ← get_str (codes "tag") msg
    tag ← hex_to_bin tag_hex gcm_tag_len
    of_option invalid_tag (p.aes_decrypt key_ab nonce (ciphertext ++ tag))

  -- The nonce is what `secrets.token_bytes` returns. `ct[:-16]` and `ct[-16:]` of a short string
  -- are the empty string and the string.
  unfoldable pub encrypt_data_message : Bytes → Bytes → Bytes → Payload
  encrypt_data_message nonce plaintext key_ab =
      let ct_and_tag = p.aes_encrypt key_ab nonce plaintext in
      let cut = length ct_and_tag - gcm_tag_len in
      (codes "type", str (codes "data"))
      ∷ (codes "nonce", str (hex nonce))
      ∷ (codes "ciphertext", str (hex (take cut ct_and_tag)))
      ∷ (codes "tag", str (hex (drop cut ct_and_tag)))
      ∷ []
