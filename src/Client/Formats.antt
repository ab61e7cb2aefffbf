-- ===== src/Client/Formats.antt =====
-- The records that smg_primary_server/pc_client.py builds for itself.
pub mod Laws
use smg_secure_microgrid.Wire.Tlv.{pack_fields}
use smg_secure_microgrid.Wire.Endian.{pack}
use smg_secure_microgrid.Base.{
  ℕ, ◌-◌, ◌%◌, [], ◌∷◌, ◌++◌, length, replicate, Result, ok, Bytes, ◌>>=◌, ◌>>◌,
}
use smg_secure_microgrid.Base.{◌>>=◌, ◌>>◌}

-- `struct.pack(">Q", int(time.time()))`
unfoldable pub ts_bytes : ℕ → Result Bytes
unfolding pack
ts_bytes now = pack 8 now

-- `(64 - len % 64) % 64`
unfoldable pub padding : ℕ → ℕ
padding n = (64 - n % 64) % 64

unfoldable pub smg_normalize : Bytes → Result Bytes
unfolding pack padding
smg_normalize raw_data = do
  header ← pack 4 (length raw_data)
  let payload = header ++ raw_data
  ok (payload ++ replicate (padding (length payload)) 0)

unfoldable pub make_msg_reg : Bytes → Bytes → ℕ → Bytes → Bytes → Bytes → Result Bytes
unfolding pack_fields pack
make_msg_reg smg_reg ts_b m_num id_a preg_bl a_reg_bl = do
  m ← pack 4 m_num
  pack_fields (smg_reg ∷ ts_b ∷ m ∷ id_a ∷ preg_bl ∷ a_reg_bl ∷ [])
