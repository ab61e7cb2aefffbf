-- ===== src/Rot.antt =====
-- `RotSession` of smg_primary_server/rot_challenge_service.py: the P2 handshake, the P3 data loop
-- and `run`. The parameters are the cryptography, the `json` module, `str()` of a value, what the
-- random generators return in this session, the server's identifier and the node registry.
pub mod Primitives
pub mod Data
pub mod Run
pub mod Authentic
pub mod Transcript
pub mod Agreement
mod Tests
use smg_secure_microgrid.Base.{
  ℕ, ◌*◌, Bool, true, false, Option, none, some, List, [], ◌∷◌, ◌++◌, if◌then◌else◌, take, value,
  Result, ok, err, Bytes, Text, codes,
}
use smg_secure_microgrid.Base.Dict.{Dict, Payload, Value, str, lookup, get_str, has_str}
use smg_secure_microgrid.Base.Exec.{Exec, continue, ◌>>=◌, ◌>>◌, pure, raise, lift}
use smg_secure_microgrid.Wire.Hex.{hex, from_hex, hex_to_bin}
use smg_secure_microgrid.Wire.Socket.{Event, arrives, raises, Conn}
use smg_secure_microgrid.Wire.Frame.{Json, Loaded, as_dict, send_json, recv_json}
use Primitives.{Primitives as RotPrimitives}
use Data.{decrypt_data_message}

abbrev pub rot_id_len : ℕ
rot_id_len = 16

abbrev pub rot_digest_len : ℕ
rot_digest_len = 32

abbrev pub rot_pubkey_len : ℕ
rot_pubkey_len = 65

abbrev pub challenge_len : ℕ
challenge_len = 16

abbrev pub device_proof_domain_tag : Bytes
device_proof_domain_tag = codes "SMG-RoT-device-proof-v1"

-- The fields of the object that change. `log` holds the payloads of the data phase, which the code
-- hands to its logger.
pub record RotSession : Type 0 where
  pub conn : Conn
  pub key_ab : Option Bytes
  pub node_label : Value
  pub authenticated : Bool
  pub log : List Bytes

-- `RotSession(conn, ...)`
abbrev pub new_session : Conn → RotSession
new_session conn = record {
  conn = conn;
  key_ab = none;
  node_label = str (codes "unknown");
  authenticated = false;
  log = [];
}

abbrev pub on_conn : {A : Type 0} → Exec Conn A → Exec RotSession A
on_conn m s = ((m s.conn).0, record s { conn = (m s.conn).1 })

-- `hex_to_bin(d[k], n)`
unfoldable pub get_hex : Text → ℕ → Payload → Result Bytes
unfolding hex_to_bin get_str
get_hex k n d = elim (get_str k d) [ ok s ↦ hex_to_bin s n | err e ↦ err e ]

-- `bytes.fromhex(d[k])`
unfoldable pub get_hex_any : Text → Payload → Result Bytes
unfolding from_hex get_str
get_hex_any k d = elim (get_str k d) [ ok s ↦ from_hex s | err e ↦ err e ]

-- `entry.get("label", id_a.hex()[:8])`
unfoldable pub label_of : Payload → Bytes → Value
label_of entry id_a = elim (lookup (codes "label") entry) [
  | none ↦ str (take 8 (hex id_a))
  | some v ↦ v
]

-- What the handshake knows of the device after its hello and the registry.
pub record Peer (PublicKey : Type 0) : Type 0 where
  pub id_a : Bytes
  pub challenge_a : Bytes
  pub pk_a : PublicKey
  pub shs_b : Bytes

-- One session's surroundings.
pub record Setting : Type 1 where
  pub primitives : RotPrimitives
  pub open primitives use *
  pub json : Json
  -- `str(v)` of the result of `.get("type")`
  pub text_of : Option Value → Text
  -- what `secrets.token_bytes(CHALLENGE_LEN)` and `generate_private_key` return
  pub challenge_b : Bytes
  pub eph_sk_b : SecretKey
  pub id_b : Bytes
  pub registry : Dict Payload

module _ (c : Setting) where
  -- `_send_error`: a failure to send is swallowed.
  unfoldable pub send_error : Text → Exec RotSession (Unit {0})
  send_error message s =
      let failed =
        send_json c.json ((codes "type", str (codes "error")) ∷ (codes "error", str message) ∷ [])
          s.conn in
      (ok tt, record s { conn = failed.1 })

  -- `self._send_error(...)` and `return False`
  unfoldable pub refuse : Text → Exec RotSession Bool
  unfolding send_error
  refuse message = do send_error message; pure false

  -- `recv_json(...)`, and the `.get` that follows it
  unfoldable pub recv_dict : Exec RotSession Payload
  recv_dict = do loaded ← on_conn (recv_json c.json); lift (as_dict loaded)

  abbrev pub eph_pk_b : Bytes
  eph_pk_b = c.encode_point (c.public_key c.eph_sk_b)

  unfoldable pub server_proof : Peer c.PublicKey → Bytes
  server_proof peer = c.sha256 (peer.shs_b ++ (peer.challenge_a ++ eph_pk_b))

  -- The string whose hash the device signs.
  unfoldable pub transcript : Peer c.PublicKey → Bytes → Bytes
  transcript peer eph_pk_a =
      device_proof_domain_tag
      ++ (peer.id_a
          ++ (c.id_b
              ++ (c.challenge_b
                  ++ (peer.challenge_a ++ (eph_pk_a ++ (eph_pk_b ++ server_proof peer))))))

  unfoldable pub session_key : Peer c.PublicKey → c.PublicKey → Bytes
  session_key peer eph_pk_a =
      c.sha256
        (c.exchange c.eph_sk_b eph_pk_a ++ (peer.shs_b ++ (peer.challenge_a ++ c.challenge_b)))

  -- `self.key_ab = ...` and `self.authenticated = True`
  unfoldable pub accept : Bytes → Exec RotSession (Unit {0})
  accept key s = (ok tt, record s { key_ab = some key; authenticated = true })

  abbrev session_ack : Payload
  session_ack = (codes "type", str (codes "session_ack")) ∷ []

  -- After both points are known: the signature, the key, the acknowledgement.
  unfoldable pub conclude : Peer c.PublicKey → Bytes → c.PublicKey → Bytes → Exec RotSession Bool
  unfolding accept refuse
  conclude peer eph_pk_a_bytes eph_pk_a device_proof =
      if c.verify peer.pk_a device_proof (c.sha256 (transcript peer eph_pk_a_bytes))
      then (do
        accept (session_key peer eph_pk_a)
        on_conn (send_json c.json session_ack)
        pure true)
      else refuse (codes "device authentication failed")

  unfoldable pub check_response : Peer c.PublicKey → Payload → Exec RotSession Bool
  unfolding refuse get_hex get_hex_any
  check_response peer resp = do
    eph_pk_a_bytes ← lift (get_hex (codes "eph_pk_a") rot_pubkey_len resp)
    device_proof ← lift (get_hex_any (codes "device_proof") resp)
    elim (c.decode_point eph_pk_a_bytes) [
      | none ↦ refuse (codes "malformed ephemeral public key")
      | some eph_pk_a ↦ conclude peer eph_pk_a_bytes eph_pk_a device_proof
    ]

  unfoldable pub challenge_message : Peer c.PublicKey → Payload
  challenge_message peer =
      (codes "type", str (codes "challenge"))
      ∷ (codes "id_b", str (hex c.id_b))
      ∷ (codes "challenge_b", str (hex c.challenge_b))
      ∷ (codes "eph_pk_b", str (hex eph_pk_b))
      ∷ (codes "server_proof", str (hex (server_proof peer)))
      ∷ []

  -- From the challenge message to the response.
  unfoldable pub exchange_proofs : Peer c.PublicKey → Exec RotSession Bool
  unfolding refuse recv_dict
  exchange_proofs peer = do
    on_conn (send_json c.json (challenge_message peer))
    resp ← recv_dict
    if has_str (codes "type") (codes "response") resp
        then check_response peer resp
        else refuse (codes "expected response, got: " ++ c.text_of (lookup (codes "type") resp))

  -- `self.node_label = ...`
  unfoldable pub set_label : Value → Exec RotSession (Unit {0})
  set_label label s = (ok tt, record s { node_label = label })

  -- With the registry's entry: its two secrets' lengths and its point are checked.
  unfoldable pub enrolled : Bytes → Bytes → Payload → Exec RotSession Bool
  unfolding refuse get_hex set_label
  enrolled id_a challenge_a entry = do
    pk_a_bytes ← lift (get_hex (codes "pk_a") rot_pubkey_len entry)
    shs_b ← lift (get_hex (codes "shs_b") rot_digest_len entry)
    set_label (label_of entry id_a)
    elim (c.decode_point pk_a_bytes) [
      | none ↦ refuse (codes "malformed registered public key")
      | some pk_a ↦
          exchange_proofs
            (record { id_a = id_a; challenge_a = challenge_a; pk_a = pk_a; shs_b = shs_b })
    ]

  unfoldable pub identify : Payload → Exec RotSession Bool
  unfolding refuse get_hex
  identify hello = do
    id_a ← lift (get_hex (codes "id_a") rot_id_len hello)
    challenge_a ← lift (get_hex (codes "challenge_a") challenge_len hello)
    elim (lookup (hex id_a) c.registry) [
      | none ↦ refuse (codes "unknown device id_a")
      | some entry ↦ enrolled id_a challenge_a entry
    ]

  -- `_handshake`
  unfoldable pub handshake : Exec RotSession Bool
  unfolding refuse recv_dict
  handshake = do
    hello ← recv_dict
    if has_str (codes "type") (codes "hello") hello
        then identify hello
        else refuse (codes "expected hello, got: " ++ c.text_of (lookup (codes "type") hello))
