-- ===== src/Wire/Tlv/Laws.antt =====
-- Packed fields parse back, whatever follows them, and determine the fields.
use smg_secure_microgrid.Base.{
  ℕ, suc, ◌+◌, ◌^◌, ◌<◌, ◌≡◌, refl, sym, ◌∙◌, false, some, List, [], ◌∷◌, ◌++◌, append_assoc, arith,
  ltb, length, take, drop, length-append, take-append_exact, drop-append_exact, Result, ok, err,
  >>=-eq-ok, Bytes, ◌>>=◌,
}
use mathlib.Core.Option
use mathlib.Core.Option.{some-injective}
use smg_secure_microgrid.Base.{◌>>=◌}
use smg_secure_microgrid.Wire.Endian.{
  unpack-pack, pack, be_bytes, length-be_bytes, be_value-be_bytes,
}
use smg_secure_microgrid.Wire.Tlv.{tlv_field, pack_fields, parse_from, parse_tlv, make_reg_reg}

tlv_field_lem :
    (p : Bytes) {b : Bytes}
    → tlv_field p ≡ ok b
    → (length p < 2 ^ 16) × (b ≡ be_bytes 2 (length p) ++ p)
unfolding tlv_field pack
tlv_field_lem p h = ground arith

pack_fields-cons :
    (p : Bytes) (ps : List Bytes) {b : Bytes}
    → pack_fields (p ∷ ps) ≡ ok b
    → (rest : Bytes) × (length p < 2 ^ 16)
      × (pack_fields ps ≡ ok rest)
      × (b ≡ (be_bytes 2 (length p) ++ p) ++ rest)
unfolding pack_fields
pack_fields-cons p ps {b} h = go (tlv_field p) (pack_fields ps) refl refl h
  where
    go :
        (f r : Result Bytes)
        → tlv_field p ≡ f
        → pack_fields ps ≡ r
        → (f >>= λ field. r >>= λ rest. ok (field ++ rest)) ≡ ok b
        → (rest : Bytes) × (length p < 2 ^ 16)
          × (pack_fields ps ≡ ok rest)
          × (b ≡ (be_bytes 2 (length p) ++ p) ++ rest)
    go (ok field) (ok rest) e e' k = let (fits, eq) = tlv_field_lem p e in (rest, fits, e', cc)
    go (ok field) (err x) e e' k = cc
    go (err x) r e e' k = cc

-- One round of the loop, at a field that is there.
module _ (pre p post : Bytes) where
  abbrev input : Bytes
  input = pre ++ (be_bytes 2 (length p) ++ (p ++ post))

  at_field : drop (length pre) input ≡ be_bytes 2 (length p) ++ (p ++ post)
  at_field = drop-append_exact (length pre) pre (be_bytes 2 (length p) ++ (p ++ post)) refl

  field_length : take 2 (be_bytes 2 (length p) ++ (p ++ post)) ≡ be_bytes 2 (length p)
  field_length =
      take-append_exact 2 (be_bytes 2 (length p)) (p ++ post) (length-be_bytes 2 (length p))

  at_value : drop (length pre + 2) input ≡ p ++ post
  at_value = rw (← append_assoc) (
      drop-append_exact (length pre + 2) (pre ++ be_bytes 2 (length p)) (p ++ post)
        (omega (arith, length-append pre (be_bytes 2 (length p)), length-be_bytes 2 (length p))))

  length-input : length input ≡ length pre + 2 + length p + length post
  length-input = omega (
    arith,
    length-append pre (be_bytes 2 (length p) ++ (p ++ post)),
    length-append (be_bytes 2 (length p)) (p ++ post),
    length-append p post,
    length-be_bytes 2 (length p),
  )

  has_header : ltb (length input) (length pre + 2) ≡ false
  has_header = ground (arith, length-input)

  has_value : ltb (length input) (length pre + 2 + length p) ≡ false
  has_value = ground (arith, length-input)

  parse_from-step :
      (n : ℕ)
      → length p < 2 ^ 16
      → parse_from input (suc n) (length pre)
        ≡ Option.map (λ fields. p ∷ fields) (parse_from input n (length pre + 2 + length p))
  unfolding parse_from
  parse_from-step n fits =
      rw
        (
          at_field,
          field_length,
          be_value-be_bytes 2 (length p) fits,
          has_header,
          has_value,
          at_value,
          take-append_exact (length p) p post refl,
        )
        refl

-- Fields that were packed parse back, wherever they stand and whatever follows.
parse_from-pack_fields :
    (ps : List Bytes) (pre post : Bytes) {b : Bytes}
    → pack_fields ps ≡ ok b
    → parse_from (pre ++ (b ++ post)) (length ps) (length pre) ≡ some ps
parse_from-pack_fields [] pre post h = unfold parse_from in refl
parse_from-pack_fields (p ∷ ps) pre post {b} h =
    let (rest, fits, packed, e) = pack_fields-cons p ps h in
    let ln = be_bytes 2 (length p) in
    let ih = parse_from-pack_fields ps (pre ++ (ln ++ p)) post packed in
    let here : pre ++ (b ++ post) ≡ pre ++ (ln ++ (p ++ (rest ++ post))) =
      rw e (simp append_assoc) in
    let moved : (pre ++ (ln ++ p)) ++ (rest ++ post) ≡ pre ++ (ln ++ (p ++ (rest ++ post))) =
      simp append_assoc in
    let pos : length (pre ++ (ln ++ p)) ≡ length pre + 2 + length p =
      omega
        (arith, length-append pre (ln ++ p), length-append ln p, length-be_bytes 2 (length p)) in
    rw (here, parse_from-step pre p (rest ++ post) (length ps) fits, ← pos, ← moved, ih) refl

-- `_parse_tlv` reads back the fields that were packed, whatever bytes follow them.
pub parse_tlv-pack_fields :
    (ps : List Bytes) (post b : Bytes)
    → pack_fields ps ≡ ok b
    → parse_tlv (b ++ post) (length ps) ≡ some ps
unfolding parse_tlv
parse_tlv-pack_fields ps post b h = parse_from-pack_fields ps [] post h

-- The packed form of a list begins with that of its beginning.
pub pack_fields-append :
    (ps qs : List Bytes) {b : Bytes}
    → pack_fields (ps ++ qs) ≡ ok b
    → (x : Bytes) × (y : Bytes) × (pack_fields ps ≡ ok x) × (b ≡ x ++ y)
unfolding pack_fields
pack_fields-append [] qs {b} h = ([], b, refl, refl)
pack_fields-append (p ∷ ps) qs {b} h =
    let (field, field_e, h') =
      >>=-eq-ok (tlv_field p) (λ field. pack_fields (ps ++ qs) >>= (λ rest. ok (field ++ rest)))
        h in
    let (rest, rest_e, h'') = >>=-eq-ok (pack_fields (ps ++ qs)) (λ rest. ok (field ++ rest)) h' in
    let (x, y, x_e, cut) = pack_fields-append ps qs rest_e in
    let joined : field ++ rest ≡ b = cc in
    (field ++ x, y, rw (field_e, x_e) refl, sym joined ∙ rw (cut, append_assoc) refl)

-- Two records of as many fields with one packed form have the same fields.
pub pack_fields_inj :
    (ps qs : List Bytes) {b : Bytes}
    → length ps ≡ length qs
    → pack_fields ps ≡ ok b
    → pack_fields qs ≡ ok b
    → ps ≡ qs
pack_fields_inj ps qs {b} l h k =
    some-injective ps qs
      (sym (parse_tlv-pack_fields ps [] b h) ∙ rw l (parse_tlv-pack_fields qs [] b k))

pack_inj : (w m n : ℕ) {bs : Bytes} → pack w m ≡ ok bs → pack w n ≡ ok bs → m ≡ n
pack_inj w m n h k = cc (unpack-pack w m h, unpack-pack w n k)

make_reg_reg-fields :
    (s t : Bytes) (m : ℕ) (a b e : Bytes) {r : Bytes}
    → make_reg_reg s t m a b e ≡ ok r
    → (m_b : Bytes) × (pack 4 m ≡ ok m_b) × (pack_fields (s ∷ t ∷ m_b ∷ a ∷ b ∷ e ∷ []) ≡ ok r)
unfolding make_reg_reg
make_reg_reg-fields s t m a b e h =
    >>=-eq-ok (pack 4 m) (λ m_b. pack_fields (s ∷ t ∷ m_b ∷ a ∷ b ∷ e ∷ [])) h

abbrev SixEq : (s s' t t' m m' a a' b b' e e' : Bytes) → Type 0
SixEq s s' t t' m m' a a' b b' e e' =
    (s ≡ s') × (t ≡ t') × (m ≡ m') × (a ≡ a') × (b ≡ b') × (e ≡ e')

six_inj :
    (s s' t t' m m' a a' b b' e e' : Bytes)
    → ◌≡◌ {A = List Bytes} (s ∷ t ∷ m ∷ a ∷ b ∷ e ∷ []) (s' ∷ t' ∷ m' ∷ a' ∷ b' ∷ e' ∷ [])
    → SixEq s s' t t' m m' a a' b b' e e'
six_inj s s' t t' m m' a a' b b' e e' h = ground arith

-- The record that both sides hash for a reading determines the reading, its time, its number, both
-- identifiers and the session.
pub make_reg_reg_inj :
    (s s' t t' : Bytes) (m m' : ℕ) (a a' b b' e e' r : Bytes)
    → make_reg_reg s t m a b e ≡ ok r
    → make_reg_reg s' t' m' a' b' e' ≡ ok r
    → (s ≡ s') × (t ≡ t') × (m ≡ m') × (a ≡ a') × (b ≡ b') × (e ≡ e')
make_reg_reg_inj s s' t t' m m' a a' b b' e e' r h k =
    let (m_b, pm, f) = make_reg_reg-fields s t m a b e h in
    let (m_b', pm', f') = make_reg_reg-fields s' t' m' a' b' e' k in
    let (es, et, em, ea, eb, ee) =
      six_inj s s' t t' m_b m_b' a a' b b' e e' (pack_fields_inj _ _ refl f f') in
    (es, et, pack_inj 4 m m' pm (rw em pm'), ea, eb, ee)
