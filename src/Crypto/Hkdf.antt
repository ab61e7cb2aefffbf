-- ===== src/Crypto/Hkdf.antt =====
-- `hkdf_expand` of smg_primary_server/crypto_utils.py against RFC 5869.
use native.Mathlib.Decide.{dec_lt}
use smg_secure_microgrid.Base.{
  ℕ, zero, suc, ◌+◌, ◌-◌, ◌*◌, ◌≤◌, ◌<◌, ◌≡◌, refl, sym, ap, ◌∙◌, true, false, [], ◌∷◌, ◌++◌, arith,
  ltb, lt→ltb, length, take, length-append, take-append_of_le, ok, Bytes,
}
use smg_secure_microgrid.Crypto.{digest_size, Library, hmac_sha256, expand_loop, hkdf_expand}

module _ (lib : Library) (prk info : Bytes) where
  -- The blocks T(i) of RFC 5869 and the text T(1) ++ ... ++ T(n).
  unfoldable pub block : ℕ → Bytes
  block zero = []
  block (suc n) = hmac_sha256 lib prk (block n ++ (info ++ (suc n ∷ [])))

  unfoldable pub stream : ℕ → Bytes
  unfolding block
  stream zero = []
  stream (suc n) = stream n ++ block (suc n)

  module _ (digest : (m : Bytes) → length (lib.h_sha256 m) ≡ digest_size) where
    length-block : (n : ℕ) → length (block (suc n)) ≡ 32
    unfolding block hmac_sha256
    length-block n = digest _

    length-stream : (n : ℕ) → length (stream n) ≡ n * 32
    unfolding stream
    length-stream zero = refl
    length-stream (suc n) =
        omega (arith, length-append (stream n) (block (suc n)), length-stream n, length-block n)

    -- A longer text begins like a shorter one.
    take-stream : (k n size : ℕ) → size ≤ n * 32 → take size (stream (k + n)) ≡ take size (stream n)
    unfolding stream
    take-stream zero n size h =
        let same_index : 0 + n ≡ n = omega arith in ap (λ i. take size (stream i)) same_index
    take-stream (suc k) n size h =
        let assoc : suc k + n ≡ suc (k + n) = omega arith in
        ap (λ i. take size (stream i)) assoc
        ∙ take-append_of_le size (stream (k + n)) (block (suc (k + n)))
            (omega (arith, length-stream (k + n)))
        ∙ take-stream k n size h

    -- One round.
    expand_loop_round :
        (fuel size n : ℕ)
        → n * 32 < size
        → n < 255
        → expand_loop lib (suc fuel) prk info size (stream n) (block n) (suc n)
          ≡ expand_loop lib fuel prk info size (stream (suc n)) (block (suc n)) (suc (suc n))
    unfolding expand_loop stream block
    expand_loop_round fuel size n h b =
        let more : ltb (length (stream n)) size ≡ true =
          lt→ltb (length (stream n)) size (omega (arith, length-stream n)) in
        let low : ltb 255 (suc n) ≡ false = ground arith in
        let next : suc n + 1 ≡ suc (suc n) = omega arith in rw (more, low, next)

    -- From any round on, the loop ends with enough blocks, of which there are at most 255.
    expand_loop_lem :
        (fuel size n : ℕ)
        → size ≤ fuel + n * 32
        → size ≤ 255 * 32
        → n ≤ 255
        → (m : ℕ) × (expand_loop lib fuel prk info size (stream n) (block n) (suc n)
            ≡ ok (stream m))
          × (size ≤ m * 32)
          × (m ≤ 255)
    unfolding expand_loop stream block
    expand_loop_lem zero size n f s b = (n, refl, omega arith, b)
    expand_loop_lem (suc fuel) size n f s b = elim (dec_lt (length (stream n)) size) [
      | no q ↦ (n, ground arith, omega (arith, length-stream n), b)
      | yes p ↦
          let len = length-stream n in
          let (m, e, l, u) = expand_loop_lem fuel size (suc n) (omega arith) s (omega arith) in
          (m, expand_loop_round fuel size n (omega arith) (omega arith) ∙ e, l, u)
    ]

    -- With 32-byte digests, `hkdf_expand` returns for a length of up to 8160 that many bytes from the
    -- beginning of the stream of RFC 5869.
    pub hkdf_expand_lem :
        (size : ℕ) → size ≤ 8160 → hkdf_expand lib prk info size ≡ ok (take size (stream 255))
    unfolding hkdf_expand stream block
    hkdf_expand_lem size h =
        let (m, e, l, u) = expand_loop_lem size size 0 (omega arith) (omega arith) (omega arith) in
        let k : (255 - m) + m ≡ 255 = omega arith in
        rw e (ap ok (sym (take-stream (255 - m) m size l) ∙ ap (λ i. take size (stream i)) k))
