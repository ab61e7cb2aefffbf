-- ===== src/Crypto.antt =====
-- smg_primary_server/crypto_utils.py over its two imports, SHA-256 and AES-GCM, which are
-- parameters. smg_primary_server/pc_client.py holds a copy of the same functions.
pub mod Hmac
pub mod Hkdf
pub mod Gcm
pub mod Tests
use smg_secure_microgrid.Base.{
  ℕ, zero, suc, ◌+◌, ◌-◌, ◌^◌, ◌<◌, Option, List, [], ◌∷◌, ◌++◌, ltb, leb, if◌then◌else◌, length,
  set, take, drop, replicate, value, invalid_tag, Result, ok, err, of_option, Bytes, same, ◌>>=◌,
  ◌>>◌,
}
use Prim.Native.Nat.{bit_xor}
use smg_secure_microgrid.Base.{◌>>=◌, ◌>>◌}

abbrev pub digest_size : ℕ
digest_size = 32

abbrev pub id_size : ℕ
id_size = 16

abbrev pub aes_key_size : ℕ
aes_key_size = 32

abbrev pub gcm_nonce_size : ℕ
gcm_nonce_size = 12

abbrev pub gcm_tag_size : ℕ
gcm_tag_size = 16

abbrev pub block_size : ℕ
block_size = 64

abbrev pub ipad_byte : ℕ
ipad_byte = 0x36

abbrev pub opad_byte : ℕ
opad_byte = 0x5c

-- `hashlib.sha256(data).digest()`, `AESGCM(key).encrypt` and `AESGCM(key).decrypt`, whose `none`
-- is `InvalidTag`
pub record Library : Type 0 where
  pub h_sha256 : Bytes → Bytes
  pub aes_encrypt : Bytes → Bytes → Bytes → Bytes
  pub aes_decrypt : Bytes → Bytes → Bytes → Option Bytes

-- `b''.join(args)`
abbrev pub concat : List Bytes → Bytes
concat [] = []
concat (b ∷ bs) = b ++ concat bs

-- `for i, b in enumerate(key): padded[i] = b ^ pad_byte`, from index `i` on
unfoldable pub write_key : ℕ → ℕ → Bytes → Bytes → Bytes
write_key pad i [] padded = padded
write_key pad i (b ∷ key) padded = write_key pad (i + 1) key (set padded i (bit_xor b pad))

-- `for i in range(len(key), block_size): padded[i] = pad_byte`, `n` rounds from index `i` on
unfoldable pub write_pad : ℕ → ℕ → ℕ → Bytes → Bytes
write_pad pad zero i padded = padded
write_pad pad (suc n) i padded = write_pad pad n (i + 1) (set padded i pad)

module _ (lib : Library) where
  -- The first test of `_xor_pad`: a long key is hashed.
  unfoldable pub short_key : Bytes → ℕ → Bytes
  short_key key size = if ltb size (length key) then lib.h_sha256 key else key

  unfoldable pub xor_pad : Bytes → ℕ → ℕ → Bytes
  unfolding short_key write_key write_pad
  xor_pad key pad_byte size =
      let k = short_key key size in
      write_pad pad_byte (size - length k) (length k) (write_key pad_byte 0 k (replicate size 0))

  unfoldable pub hmac_sha256 : Bytes → Bytes → Bytes
  unfolding xor_pad
  hmac_sha256 key msg =
      let ipad = xor_pad key ipad_byte block_size in
      let opad = xor_pad key opad_byte block_size in
      let inner = lib.h_sha256 (ipad ++ msg) in lib.h_sha256 (opad ++ inner)

  unfoldable pub hkdf_extract : Bytes → Bytes → Bytes
  unfolding hmac_sha256
  hkdf_extract [] ikm = hmac_sha256 (replicate digest_size 0) ikm
  hkdf_extract (b ∷ salt) ikm = hmac_sha256 (b ∷ salt) ikm

  -- `while len(okm) < length`, on fuel. `bytes([counter])` raises above 255.
  unfoldable pub expand_loop : ℕ → Bytes → Bytes → ℕ → Bytes → Bytes → ℕ → Result Bytes
  unfolding hmac_sha256
  expand_loop zero prk info size okm t_prev counter = ok okm
  expand_loop (suc fuel) prk info size okm t_prev counter =
      let t = hmac_sha256 prk (t_prev ++ (info ++ (counter ∷ []))) in
      let more = expand_loop fuel prk info size (okm ++ t) t (counter + 1) in
      if ltb (length okm) size then (if ltb 255 counter then err value else more) else ok okm

  -- Every block has a byte at least, so `size` rounds are enough.
  unfoldable pub hkdf_expand : Bytes → Bytes → ℕ → Result Bytes
  unfolding expand_loop
  hkdf_expand prk info size = do okm ← expand_loop size prk info size [] [] 1; ok (take size okm)

  unfoldable pub hkdf : Bytes → Bytes → Bytes → ℕ → Result Bytes
  unfolding hkdf_expand hkdf_extract
  hkdf salt ikm info size = hkdf_expand (hkdf_extract salt ikm) info size

  unfoldable pub fit_key : Bytes → ℕ → Bytes
  fit_key key size =
      if leb size (length key)
      then take size (lib.h_sha256 key)
      else key ++ replicate (size - length key) 0

  -- The nonce is what `os.urandom` returns. `ct[:-16]` and `ct[-16:]`.
  unfoldable pub encrypt_gcm : Bytes → Bytes → Bytes → Bytes
  unfolding fit_key
  encrypt_gcm nonce plaintext key =
      let ct_and_tag = lib.aes_encrypt (fit_key key aes_key_size) nonce plaintext in
      let cut = length ct_and_tag - gcm_tag_size in
      nonce ++ (take cut ct_and_tag ++ drop cut ct_and_tag)

  -- `ciphertext[:12]`, `ciphertext[12:-16]` and `ciphertext[-16:]`, short strings included
  unfoldable pub decrypt_gcm : Bytes → Bytes → Result Bytes
  unfolding fit_key
  decrypt_gcm ciphertext key =
      let cut = length ciphertext - gcm_tag_size in
      let nonce = take gcm_nonce_size ciphertext in
      let ct = take (cut - gcm_nonce_size) (drop gcm_nonce_size ciphertext) in
      let tag = drop cut ciphertext in
      of_option invalid_tag (lib.aes_decrypt (fit_key key aes_key_size) nonce (ct ++ tag))
