-- ===== src/Session/Genesis.antt =====
-- `_run_p2` of smg_primary_server/auth_service.py, the root of trust.
use smg_secure_microgrid.Wire.Frame.{send_msg}
use smg_secure_microgrid.Crypto.{digest_size, hkdf}
use smg_secure_microgrid.Wire.Hex.{hex, unhexlify}
use smg_secure_microgrid.Session.{
  raw, on_conn, update, State, send_error, log_error, item, as_bytes, Server,
}
use smg_secure_microgrid.Base.Dict.{Value, str, get_str, lookup, Payload}
use smg_secure_microgrid.Base.{
  Bool, true, false, Option, none, some, [], ◌∷◌, ◌++◌, take, Error, wrong_type, Result, ok, err,
  Bytes, Text, codes,
}
use smg_secure_microgrid.Base.Exec.{pure, try, lift, Exec, ◌>>=◌, ◌>>◌}

-- `entry.get("label", node_id_hex[:8])`. Labels in the registry are texts.
unfoldable pub label_text : Payload → Text → Result Text
label_text entry node_id_hex = elim (lookup (codes "label") entry) [
  | none ↦ ok (take 8 node_id_hex)
  | some (str t) ↦ ok t
  | some _ ↦ err wrong_type
]

-- `binascii.unhexlify(entry["node_salt"])`
unfoldable pub salt_of : Payload → Result Bytes
salt_of entry = elim (get_str (codes "node_salt") entry) [ ok t ↦ unhexlify t | err e ↦ err e ]

-- `rot_ack`
unfoldable pub rot_ack : Bytes → Bytes → Bytes → Payload
rot_ack shs_b b_gen_bl server_id =
    (codes "type", str (codes "rot_ack"))
    ∷ (codes "ShS_B", raw shs_b)
    ∷ (codes "B_GEN_bl", raw b_gen_bl)
    ∷ (codes "ID_B", raw server_id)
    ∷ []

module _ (c : Server) where
  -- What the server contributes, and its acknowledgement.
  unfoldable pub answer_hello : Bytes → Value → Value → Payload → Exec (State c) Bool
  unfolding label_text salt_of as_bytes hkdf rot_ack send_msg
  answer_hello id_a shs_v gen_v entry = do
    update (λ s. record s { peer_id = some id_a })
    label ← lift (label_text entry (hex id_a))
    update (λ s. record s { node_label = label })
    node_salt ← lift (salt_of entry)
    shs_b ← lift (hkdf c.library node_salt c.server_key [] digest_size)
    let b_gen_bl = c.library.h_sha256 (node_salt ++ c.server_id)
    shs_a ← lift (as_bytes shs_v)
    update (λ s. record s { shs_ab = some (c.library.h_sha256 (shs_a ++ shs_b)) })
    a_gen_bl ← lift (as_bytes gen_v)
    update (λ s. record s { prv_bl = some (c.library.h_sha256 (a_gen_bl ++ b_gen_bl)) })
    on_conn (send_msg c.json (rot_ack shs_b b_gen_bl c.server_id))
    pure true

  -- The node's entry in the registry, if any.
  unfoldable pub found : Bytes → Value → Value → Option Payload → Exec (State c) Bool
  unfolding answer_hello send_error
  found id_a shs_v gen_v none = do send_error c (codes "Unknown node ID: " ++ hex id_a); pure false
  found id_a shs_v gen_v (some entry) = answer_hello id_a shs_v gen_v entry

  unfoldable pub p2_body : Payload → Exec (State c) Bool
  unfolding found item as_bytes
  p2_body msg = do
    id_v ← lift (item (codes "ID_A") msg)
    shs_v ← lift (item (codes "ShS_A") msg)
    gen_v ← lift (item (codes "A_GEN_bl") msg)
    id_a ← lift (as_bytes id_v)
    found id_a shs_v gen_v (lookup (hex id_a) c.registry)

  -- `except Exception`
  unfoldable pub p2_failed : Error → Exec (State c) Bool
  unfolding log_error send_error
  p2_failed e = do update (log_error e); send_error c (codes "P2 failed"); pure false

  unfoldable pub run_p2 : Payload → Exec (State c) Bool
  unfolding p2_body p2_failed
  run_p2 msg = try (p2_body msg) p2_failed
