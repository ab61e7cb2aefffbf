-- ===== src/Crypto/Hmac.antt =====
-- `_xor_pad` of smg_primary_server/crypto_utils.py against the padding of RFC 2104.
use smg_secure_microgrid.Base.{
  ℕ, zero, suc, ◌+◌, ◌-◌, ◌≤◌, ◌≡◌, refl, sym, ap, ap₂, ◌∙◌, inl, inr, true, false, [], ◌∷◌, ◌++◌,
  map, append_assoc, arith, ltb, leb, if◌then◌else◌, Bool-cases, length, set-append, replicate,
  length-append, length-replicate, Bytes,
}
use smg_secure_microgrid.Crypto.{
  ipad_byte, opad_byte, block_size, digest_size, hmac_sha256, xor_pad, short_key, Library,
  write_key, write_pad,
}
use Prim.Native.Nat.{bit_xor}
use smg_secure_microgrid.Base.{ltb, leb, true, false, Bool-cases, inl, inr, if◌then◌else◌}

-- The write of the key, once `done` is written and the zeros `rest` follow.
write_key_lem :
    (pad : ℕ) (done key rest tail : Bytes)
    → length rest ≡ length key
    → write_key pad (length done) key (done ++ (rest ++ tail))
      ≡ done ++ (map (λ b. bit_xor b pad) key ++ tail)
unfolding write_key
write_key_lem pad done [] [] tail h = refl
write_key_lem pad done [] (x ∷ rest) tail h = absurd (omega arith)
write_key_lem pad done (b ∷ key) [] tail h = absurd (omega arith)
write_key_lem pad done (b ∷ key) (x ∷ rest) tail h =
    let y = bit_xor b pad in
    let step = write_key_lem pad (done ++ y ∷ []) key rest tail (omega arith) in
    let len = length-append done (y ∷ []) in
    ap (write_key pad (length done + 1) key) (set-append done x (rest ++ tail) y)
    ∙ ap₂ (λ i xs. write_key pad i key xs) (sym len)
        (sym (append_assoc done (y ∷ []) (rest ++ tail)))
    ∙ step
    ∙ append_assoc done (y ∷ []) (map (λ c. bit_xor c pad) key ++ tail)

write_pad_lem :
    (pad n : ℕ) (done : Bytes)
    → write_pad pad n (length done) (done ++ replicate n 0) ≡ done ++ replicate n pad
unfolding write_pad
write_pad_lem pad zero done = refl
write_pad_lem pad (suc n) done =
    let step = write_pad_lem pad n (done ++ pad ∷ []) in
    ap (write_pad pad n (length done + 1)) (set-append done 0 (replicate n 0) pad)
    ∙ ap₂ (λ i xs. write_pad pad n i xs) (sym (length-append done (pad ∷ [])))
        (sym (append_assoc done (pad ∷ []) (replicate n 0)))
    ∙ step
    ∙ append_assoc done (pad ∷ []) (replicate n pad)

replicate_add : (m n : ℕ) (a : ℕ) → replicate (m + n) a ≡ replicate m a ++ replicate n a
replicate_add zero n a = ap (λ i. replicate i a) (omega arith)
replicate_add (suc m) n a =
    let assoc : suc m + n ≡ suc (m + n) = omega arith in
    ap (λ i. replicate i a) assoc ∙ ap (λ xs. a ∷ xs) (replicate_add m n a)

map-replicate : (f : ℕ → ℕ) (n a : ℕ) → map f (replicate n a) ≡ replicate n (f a)
map-replicate f zero a = refl
map-replicate f (suc n) a = ap (λ xs. f a ∷ xs) (map-replicate f n a)

map-append : (f : ℕ → ℕ) (xs ys : Bytes) → map f (xs ++ ys) ≡ map f xs ++ map f ys
map-append f [] ys = refl
map-append f (x ∷ xs) ys = ap (λ zs. f x ∷ zs) (map-append f xs ys)

length-map : (f : ℕ → ℕ) (xs : Bytes) → length (map f xs) ≡ length xs
length-map f [] = refl
length-map f (x ∷ xs) = ap suc (length-map f xs)

module _ (lib : Library) where
  -- The loops xor the short key with zeros behind it.
  xor_pad_lem :
      (key : Bytes) (pad size : ℕ)
      → length (short_key lib key size) ≤ size
      → bit_xor 0 pad ≡ pad
      → xor_pad lib key pad size
        ≡ map
            (λ b. bit_xor b pad)
            (short_key lib key size ++ replicate (size - length (short_key lib key size)) 0)
  unfolding xor_pad
  xor_pad_lem key pad size h z =
      let k = short_key lib key size in
      let n = size - length k in
      let mk = map (λ b. bit_xor b pad) k in
      let split : replicate size 0 ≡ replicate (length k) 0 ++ replicate n 0 =
        ap (λ i. replicate i 0) (omega arith) ∙ replicate_add (length k) n 0 in
      let wrote : write_key pad 0 k (replicate size 0) ≡ mk ++ replicate n 0 =
        ap (write_key pad 0 k) split
        ∙ write_key_lem pad [] k (replicate (length k) 0) (replicate n 0)
            (length-replicate (length k) 0) in
      ap₂ (write_pad pad n) (sym (length-map (λ b. bit_xor b pad) k)) wrote
      ∙ write_pad_lem pad n mk
      ∙ ap (λ i. mk ++ replicate n i) (sym z)
      ∙ ap (λ xs. mk ++ xs) (sym (map-replicate (λ b. bit_xor b pad) n 0))
      ∙ sym (map-append (λ b. bit_xor b pad) k (replicate n 0))

  -- The key block of RFC 2104 for blocks of 64 bytes: a key of more bytes is hashed, and zeros
  -- fill up the block.
  unfoldable pub key_block : Bytes → Bytes
  key_block key =
      if leb (length key) 64
      then key ++ replicate (64 - length key) 0
      else lib.h_sha256 key ++ replicate 32 0

  short_key-key_block :
      ((m : Bytes) → length (lib.h_sha256 m) ≡ digest_size)
      → (key : Bytes)
      → (length (short_key lib key block_size) ≤ block_size)
        × (short_key lib key block_size
              ++ replicate (block_size - length (short_key lib key block_size)) 0
            ≡ key_block key)
  unfolding short_key key_block
  short_key-key_block h key = elim (Bool-cases (leb (length key) 64)) [
    | inl fits ↦
        let test : ltb block_size (length key) ≡ false = ground arith in
        rw (fits, test) (ground arith, refl)
    | inr longer ↦
        let test : ltb block_size (length key) ≡ true = ground arith in
        rw (longer, test, h key) (omega arith, refl)
  ]

  -- With 32-byte digests `hmac_sha256` is the function of RFC 2104: the key, hashed first if it has
  -- more than 64 bytes, is filled up with zeros to a block of 64 bytes, which is xored with 0x36 and
  -- 0x5c in the two hashes, for a key and a message of any length.
  pub hmac_sha256_lem :
      ((m : Bytes) → length (lib.h_sha256 m) ≡ digest_size)
      → (key msg : Bytes)
      → hmac_sha256 lib key msg
        ≡ lib.h_sha256 (
            map (λ b. bit_xor b 0x5c) (key_block key)
            ++ lib.h_sha256 (map (λ b. bit_xor b 0x36) (key_block key) ++ msg))
  unfolding hmac_sha256
  hmac_sha256_lem h key msg =
      let (short, block) = short_key-key_block h key in
      let padded : (pad : ℕ)
          → bit_xor 0 pad ≡ pad
          → xor_pad lib key pad block_size ≡ map (λ b. bit_xor b pad) (key_block key) =
        λ pad z. xor_pad_lem key pad block_size short z ∙ ap (map (λ b. bit_xor b pad)) block in
      ap₂ (λ o i. lib.h_sha256 (o ++ lib.h_sha256 (i ++ msg))) (padded opad_byte refl)
        (padded ipad_byte refl)
