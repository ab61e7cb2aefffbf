-- ===== src/Session/Logout.antt =====
-- `_handle_p5` of smg_primary_server/auth_service.py, the logout.
use smg_secure_microgrid.Wire.Frame.{send_msg}
use smg_secure_microgrid.Wire.Tlv.{parse_tlv}
use smg_secure_microgrid.Base.Dict.{Payload}
use smg_secure_microgrid.Session.{
  raw, str, on_conn, draw, field, as_bytes, update, item, State, log_error, Server,
}
use smg_secure_microgrid.Crypto.{gcm_nonce_size, encrypt_gcm, decrypt_gcm, Library}
use smg_secure_microgrid.Base.{
  false, List, [], ◌∷◌, ◌++◌, Error, value, runtime, other, Result, ok, err, guard, of_option,
  Bytes, codes, same,
}
use smg_secure_microgrid.Base.Exec.{lift, try, Exec, ◌>>=◌, ◌>>◌}

-- `END_reg_rx, A_END_bl_rx = fields`
unfoldable pub two_fields : List Bytes → Result (Bytes × Bytes)
two_fields (a ∷ b ∷ []) = ok (a, b)
two_fields _ = err value

-- `end_fields[2]`
unfoldable pub third_field : List Bytes → Result Bytes
third_field (a ∷ b ∷ d ∷ rest) = ok d
third_field _ = err other

module _ (lib : Library) where
  -- `expected_a_end`
  unfoldable pub end_block : Bytes → Bytes → Bytes → Bytes
  end_block end_reg ses_id id_a = lib.h_sha256 (end_reg ++ (ses_id ++ id_a))

  -- `B_END_bl`
  unfoldable pub b_end_of : Bytes → Bytes → Bytes → Bytes
  b_end_of prv a_end_bl ses_key = lib.h_sha256 (lib.h_sha256 (prv ++ a_end_bl) ++ ses_key)

module _ (c : Server) where
  unfoldable pub p5_body : Payload → Exec (State c) (Unit {0})
  unfolding two_fields third_field end_block b_end_of decrypt_gcm encrypt_gcm parse_tlv item
      as_bytes send_msg
  p5_body msg = do
    cif_v ← lift (item (codes "A_END_cif") msg)
    ses_key ← field (λ s. s.ses_key)
    a_end_cif ← lift (as_bytes cif_v)
    plain ← lift (decrypt_gcm c.library a_end_cif ses_key)
    fields ← lift (of_option runtime (parse_tlv plain 2))
    (end_reg, a_end_bl) ← lift (two_fields fields)
    end_fields ← lift (of_option runtime (parse_tlv end_reg 4))
    id_a ← lift (third_field end_fields)
    ses_id ← field (λ s. s.ses_id)
    lift (guard (same (end_block c.library end_reg ses_id id_a) a_end_bl) runtime)
    prv ← field (λ s. s.prv_bl)
    nonce ← draw c gcm_nonce_size
    let b_end_cif = encrypt_gcm c.library nonce (b_end_of c.library prv a_end_bl ses_key) ses_key
    on_conn (
        send_msg c.json
          ((codes "type", str (codes "logout_res")) ∷ (codes "B_END_cif", raw b_end_cif) ∷ []))
    update (λ s. record s { session_active = false })

  -- `except Exception`
  unfoldable pub p5_failed : Error → Exec (State c) (Unit {0})
  unfolding log_error
  p5_failed e = do update (log_error e); update (λ s. record s { session_active = false })

  unfoldable pub handle_p5 : Payload → Exec (State c) (Unit {0})
  unfolding p5_body p5_failed
  handle_p5 msg = try (p5_body msg) p5_failed
