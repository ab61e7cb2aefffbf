-- ===== src/Wire/Tlv.antt =====
-- The TLV records of smg_primary_server/auth_service.py: `_make_reg_reg`, `_make_end_reg`,
-- `_pack_tlv_pair` and `_parse_tlv`. Each field has its length in two bytes in front.
pub mod Laws
use smg_secure_microgrid.Base.{
  ℕ, zero, suc, ◌+◌, Option, none, some, List, [], ◌∷◌, ◌++◌, map, ltb, if◌then◌else◌, length, take,
  drop, Result, ok, Bytes, ◌>>=◌, ◌>>◌,
}
use mathlib.Core.Option
use smg_secure_microgrid.Base.{◌>>=◌, ◌>>◌}
use smg_secure_microgrid.Wire.Endian.{pack, be_value}

-- `struct.pack(">H", len(p)) + p`
unfoldable pub tlv_field : Bytes → Result Bytes
unfolding pack
tlv_field p = do ln ← pack 2 (length p); ok (ln ++ p)

-- `b"".join(... for p in parts)`
unfoldable pub pack_fields : List Bytes → Result Bytes
unfolding tlv_field
pack_fields [] = ok []
pack_fields (p ∷ parts) = do field ← tlv_field p; rest ← pack_fields parts; ok (field ++ rest)

unfoldable pub make_reg_reg : Bytes → Bytes → ℕ → Bytes → Bytes → Bytes → Result Bytes
unfolding pack_fields pack
make_reg_reg smg_reg ts_b m_num id_a id_b ses_id = do
  m ← pack 4 m_num
  pack_fields (smg_reg ∷ ts_b ∷ m ∷ id_a ∷ id_b ∷ ses_id ∷ [])

unfoldable pub make_end_reg : Bytes → Bytes → Bytes → Bytes → Result Bytes
unfolding pack_fields
make_end_reg ts_b ses_id id_a id_b = pack_fields (ts_b ∷ ses_id ∷ id_a ∷ id_b ∷ [])

unfoldable pub pack_tlv_pair : Bytes → Bytes → Result Bytes
unfolding pack_fields
pack_tlv_pair a b = pack_fields (a ∷ b ∷ [])

-- The rounds of the loop left, and `pos`. `none` is the early `return None`.
unfoldable pub parse_from : Bytes → ℕ → ℕ → Option (List Bytes)
parse_from input zero pos = some []
parse_from input (suc n) pos =
    let ln = be_value (take 2 (drop pos input)) in
    let rest = parse_from input n (pos + 2 + ln) in
    if ltb (length input) (pos + 2)
    then none
    else if ltb (length input) (pos + 2 + ln)
    then none
    else Option.map (λ fields. take ln (drop (pos + 2) input) ∷ fields) rest

unfoldable pub parse_tlv : Bytes → ℕ → Option (List Bytes)
unfolding parse_from
parse_tlv input n_fields = parse_from input n_fields 0
