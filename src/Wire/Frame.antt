-- ===== src/Wire/Frame.antt =====
-- Length-prefixed JSON frames: `send_json` and `recv_json` of
-- smg_primary_server/rot_challenge_service.py, `pack_payload`, `unpack_payload`, `send_msg` and
-- `recv_msg` of smg_primary_server/protocol.py. The `json` module is a parameter.
pub mod Laws
pub mod Payloads
pub mod Sizes
use smg_secure_microgrid.Base.{
  ℕ, Bool, true, false, ◌||◌, List, [], ◌∷◌, ◌++◌, ltb, ◌==◌, if◌then◌else◌, length, Error,
  protocol, value, other, Result, ok, err, Bytes, Text, codes, same,
}
use smg_secure_microgrid.Base.Dict.{Payload, Value, str, raw}
use smg_secure_microgrid.Base.Exec.{Exec, continue, ◌>>=◌, ◌>>◌, pure, raise, lift}
use smg_secure_microgrid.Wire.Endian.{pack, unpack, be_bytes}
use smg_secure_microgrid.Wire.Hex.{hex, unhexlify}
use smg_secure_microgrid.Wire.Socket.{Conn, recv_exact, send_all}

-- What `json.loads` gives: a dict, or a value with no `.get`.
pub data Loaded : Type 0 where
  dict : Payload → Loaded
  not_dict : Loaded

-- `json.dumps(obj).encode()` and `json.loads(body.decode())`
pub record Json : Type 0 where
  pub dumps : Payload → Bytes
  pub loads : Bytes → Result Loaded

-- `msg.get`, which wants a dict
unfoldable pub as_dict : Loaded → Result Payload
as_dict (dict p) = ok p
as_dict not_dict = err other

-- The four bytes of the length and the body.
unfoldable pub send_frame : Bytes → Exec Conn (Unit {0})
send_frame body = do hdr ← lift (pack 4 (length body)); send_all (hdr ++ body)

-- The header, the test of the length, the body. `bad` is raised at a length of 0 or over `limit`.
unfoldable pub recv_frame : Error → ℕ → Exec Conn Bytes
recv_frame bad limit = do
  hdr ← recv_exact 4
  n ← lift (unpack 4 hdr)
  if n == 0 || ltb limit n then raise bad else recv_exact n

-- The fields that `unpack_payload` turns back into bytes.
abbrev pub bytes_fields : List Text
bytes_fields =
    codes "A_GEN_bl"
    ∷ codes "B_GEN_bl"
    ∷ codes "ID_A"
    ∷ codes "ID_B"
    ∷ codes "ShS_A"
    ∷ codes "ShS_B"
    ∷ codes "INIT_cif"
    ∷ codes "SES_cif"
    ∷ codes "SES_id"
    ∷ codes "MSG_cif"
    ∷ codes "RES_cif"
    ∷ codes "A_END_cif"
    ∷ codes "B_END_cif"
    ∷ codes "VERIF_cif"
    ∷ codes "RESP_cif"
    ∷ codes "CONF_cif"
    ∷ []

-- `k in BYTES_FIELDS`
unfoldable pub is_member : Text → List Text → Bool
is_member k [] = false
is_member k (j ∷ js) = same j k || is_member k js

-- `binascii.hexlify(v).decode() if isinstance(v, bytes) else v`
unfoldable pub encode_value : Value → Value
encode_value (raw b) = str (hex b)
encode_value v = v

unfoldable pub encode_fields : Payload → Payload
unfolding encode_value
encode_fields [] = []
encode_fields ((k, v) ∷ p) = (k, encode_value v) ∷ encode_fields p

-- `try: unhexlify(v) except: v`
unfoldable pub bytes_or_text : Text → Result Bytes → Value
bytes_or_text s (ok b) = raw b
bytes_or_text s (err e) = str s

unfoldable pub decode_value : Bool → Value → Value
unfolding bytes_or_text
decode_value true (str s) = bytes_or_text s (unhexlify s)
decode_value b v = v

unfoldable pub decode_fields : Payload → Payload
unfolding decode_value is_member
decode_fields [] = []
decode_fields ((k, v) ∷ p) = (k, decode_value (is_member k bytes_fields) v) ∷ decode_fields p

module _ (json : Json) where
  unfoldable pub send_json : Payload → Exec Conn (Unit {0})
  unfolding send_frame
  send_json obj = send_frame (json.dumps obj)

  unfoldable pub recv_json : Exec Conn Loaded
  unfolding recv_frame
  recv_json = do body ← recv_frame protocol 65536; lift (json.loads body)

  -- The body of `pack_payload`; its length prefix is written by `send_frame`.
  unfoldable pub pack_payload : Payload → Bytes
  unfolding encode_fields
  pack_payload p = json.dumps (encode_fields p)

  unfoldable pub unpack_payload : Bytes → Result Payload
  unfolding decode_fields
  unpack_payload body = elim (json.loads body) [
    | ok (dict p) ↦ ok (decode_fields p)
    | ok not_dict ↦ err other
    | err e ↦ err e
  ]

  unfoldable pub send_msg : Payload → Exec Conn (Unit {0})
  unfolding send_frame pack_payload
  send_msg p = send_frame (pack_payload p)

  unfoldable pub recv_msg : ℕ → Exec Conn Payload
  unfolding recv_frame unpack_payload
  recv_msg limit = do body ← recv_frame value limit; lift (unpack_payload body)
