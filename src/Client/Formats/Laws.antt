-- ===== src/Client/Formats/Laws.antt =====
-- The records of smg_primary_server/pc_client.py read back as smg_primary_server/auth_service.py
-- reads them.
use smg_secure_microgrid.Wire.Tlv.{pack_fields}
use smg_secure_microgrid.Wire.Endian.{unpack-pack, length-pack, unpack, pack}
use smg_secure_microgrid.Client.Formats.{make_msg_reg, smg_normalize, padding}
use smg_secure_microgrid.Base.{
  ℕ, ◌+◌, ◌%◌, ◌≡◌, refl, subst, [], ◌∷◌, ◌++◌, append_assoc, arith, length, take, drop, replicate,
  length-append, length-replicate, take-append_exact, drop-append_exact, ok, >>=-eq-ok, Bytes,
}

padding_lem : (n : ℕ) → (n + padding n) % 64 ≡ 0
unfolding padding
padding_lem n = omega arith

-- A normalised reading fills whole blocks of 64 bytes, and the server, which takes the length from
-- the first four bytes and as many bytes from there on, gets the reading without the padding.
pub smg_normalize_lem :
    (reading s : Bytes)
    → smg_normalize reading ≡ ok s
    → (length s % 64 ≡ 0)
      × (unpack 4 (take 4 s) ≡ ok (length reading))
      × (take (length reading) (drop 4 s) ≡ reading)
unfolding smg_normalize
smg_normalize_lem reading s h =
    let pad = λ (hd : Bytes). replicate (padding (length (hd ++ reading))) 0 in
    let (header, packed, e) =
      >>=-eq-ok (pack 4 (length reading)) (λ hd. ok ((hd ++ reading) ++ pad hd)) h in
    let four = length-pack 4 (length reading) packed in
    let eq : (header ++ reading) ++ pad header ≡ s = cc in
    subst
      (λ x.
        (length x % 64 ≡ 0)
        × (unpack 4 (take 4 x) ≡ ok (length reading))
        × (take (length reading) (drop 4 x) ≡ reading))
      eq
      (
        omega (
          arith,
          length-append (header ++ reading) (pad header),
          length-replicate {A = ℕ} (padding (length (header ++ reading))) 0,
          padding_lem (length (header ++ reading)),
        ),
        rw (append_assoc, take-append_exact 4 header (reading ++ pad header) four)
            (unpack-pack 4 (length reading) packed),
        rw (append_assoc, drop-append_exact 4 header (reading ++ pad header) four)
            (take-append_exact (length reading) reading (pad header) refl),
      )

-- A message record is six fields, the third of them the number.
pub make_msg_reg-fields :
    (s t : Bytes) (m : ℕ) (a p q : Bytes) {r : Bytes}
    → make_msg_reg s t m a p q ≡ ok r
    → (m_b : Bytes) × (pack 4 m ≡ ok m_b) × (pack_fields (s ∷ t ∷ m_b ∷ a ∷ p ∷ q ∷ []) ≡ ok r)
unfolding make_msg_reg
make_msg_reg-fields s t m a p q h =
    >>=-eq-ok (pack 4 m) (λ m_b. pack_fields (s ∷ t ∷ m_b ∷ a ∷ p ∷ q ∷ [])) h
