-- ===== src/Rot/Agreement.antt =====
-- The device of smg_primary_server/tests/test_rot_challenge_protocol.py (`FakeDevice`, which stands
-- for the firmware's rot_session.c) against the server: both end with one key.
pub mod Device
use smg_secure_microgrid.Base.{
  ℕ, suc, ◌^◌, ◌≤◌, ◌<◌, ◌≡◌, refl, true, false, none, some, List, [], ◌∷◌, ◌++◌, arith, All,
  length, protocol, ok, Bytes, Text, IsByte, codes, same,
}
use smg_secure_microgrid.Base.Dict.{has_str, lookup, get_str, Payload, Value, str}
use smg_secure_microgrid.Wire.Hex.{from_hex-hex, hex_to_bin-hex, hex}
use smg_secure_microgrid.Wire.Socket.{Event, Conn}
use smg_secure_microgrid.Wire.Socket.Exact.{delivers, opened}
use smg_secure_microgrid.Wire.Frame.{Json, dict, as_dict, send_json, recv_json}
use smg_secure_microgrid.Wire.Frame.Laws.{
  delivers-after_frame, frame, after_frame, send_frame_lem, recv_frame_lem,
}
use smg_secure_microgrid.Rot.{
  new_session, set_label, enrolled, identify, handshake, rot_digest_len, challenge_message,
  rot_pubkey_len, challenge_len, exchange_proofs, check_response, label_of, rot_id_len, get_hex_any,
  get_hex, RotSession, Setting, Peer, recv_dict, transcript, session_key, conclude, session_ack,
}

-- A session of the server with its object's fields spelled out.
abbrev at : Conn → Value → RotSession
at conn label = record {
  conn = conn;
  key_ab = none;
  node_label = label;
  authenticated = false;
  log = [];
}

abbrev pub hello_message : Bytes → Bytes → Payload
hello_message id_a challenge_a =
    (codes "type", str (codes "hello"))
    ∷ (codes "id_a", str (hex id_a))
    ∷ (codes "challenge_a", str (hex challenge_a))
    ∷ []

abbrev pub response_message : Bytes → Bytes → Payload
response_message eph_pk_a device_proof =
    (codes "type", str (codes "response"))
    ∷ (codes "eph_pk_a", str (hex eph_pk_a))
    ∷ (codes "device_proof", str (hex device_proof))
    ∷ []

module _ (c : Setting) where
  recv_dict_lem :
      (m : Payload) (rest : Bytes) (es : List Event) (sent : List Bytes) (room : ℕ) (label : Value)
      → c.json.loads (c.json.dumps m) ≡ ok (dict m)
      → 0 < length (c.json.dumps m)
      → length (c.json.dumps m) ≤ 65536
      → delivers es ≡ frame (c.json.dumps m) ++ rest
      → recv_dict c (at (opened es sent room) label)
        ≡ (ok m, at (opened (after_frame (c.json.dumps m) es) sent room) label)
  unfolding recv_dict recv_json as_dict
  recv_dict_lem m rest es sent room label back pos fits h =
      rw
        (
          recv_frame_lem (c.json.dumps m) rest es h protocol 65536 sent room pos fits (omega arith),
          back,
        )
        refl

  conclude-accepts :
      (peer : Peer c.PublicKey) (eph_pk_a_bytes : Bytes) (eph_pk_a : c.PublicKey)
      (device_proof : Bytes) (es : List Event) (sent : List Bytes) (room : ℕ) (label : Value)
      → c.verify peer.pk_a device_proof (c.sha256 (transcript c peer eph_pk_a_bytes)) ≡ true
      → length (c.json.dumps (session_ack c)) < 2 ^ 32
      → conclude c peer eph_pk_a_bytes eph_pk_a device_proof (at (opened es sent (suc room)) label)
        ≡ (
          ok true,
          record {
            conn = opened es (sent ++ (frame (c.json.dumps (session_ack c)) ∷ [])) room;
            key_ab = some (session_key c peer eph_pk_a);
            node_label = label;
            authenticated = true;
            log = [];
          },
        )
  unfolding conclude send_json
  conclude-accepts peer eb ep dp es sent room label signed small =
      rw (signed, send_frame_lem (c.json.dumps (session_ack c)) es sent room small) refl

pub get_hex_lem :
    (k : Text) (n : ℕ) (bs : Bytes) (d : Payload)
    → lookup k d ≡ some (str (hex bs))
    → All IsByte bs
    → length bs ≡ n
    → get_hex k n d ≡ ok bs
unfolding get_hex get_str
get_hex_lem k n bs d l h e = rw (l, get_hex, get_str) (rw (← e) (hex_to_bin-hex bs h))

get_hex_any_lem :
    (k : Text) (bs : Bytes) (d : Payload)
    → lookup k d ≡ some (str (hex bs))
    → All IsByte bs
    → get_hex_any k d ≡ ok bs
unfolding get_hex_any get_str
get_hex_any_lem k bs d l h = rw (l, get_hex_any, get_str) (from_hex-hex bs h)

-- `json.loads` reads the message back, and its text fits a frame.
abbrev pub Travels : Json → Payload → Type 0
Travels json m =
    (json.loads (json.dumps m) ≡ ok (dict m))
    × (0 < length (json.dumps m))
    × (length (json.dumps m) ≤ 65536)

-- A device of the registry that answers this session's challenge as `FakeDevice` does.
pub record Honest (c : Setting) : Type 0 where
  pub peer : Peer c.PublicKey
  pub entry : Payload
  pub pk_a_bytes : Bytes
  pub eph_pk_a_bytes : Bytes
  pub eph_pk_a : c.PublicKey
  pub device_proof : Bytes
  pub id_bytes : All IsByte peer.id_a
  pub id_length : length peer.id_a ≡ rot_id_len
  pub challenge_bytes : All IsByte peer.challenge_a
  pub challenge_length : length peer.challenge_a ≡ challenge_len
  pub eph_bytes : All IsByte eph_pk_a_bytes
  pub eph_length : length eph_pk_a_bytes ≡ rot_pubkey_len
  pub proof_bytes : All IsByte device_proof
  pub registered : lookup (hex peer.id_a) c.registry ≡ some entry
  pub pinned : get_hex (codes "pk_a") rot_pubkey_len entry ≡ ok pk_a_bytes
  pub key_point : c.decode_point pk_a_bytes ≡ some peer.pk_a
  pub verifier : get_hex (codes "shs_b") rot_digest_len entry ≡ ok peer.shs_b
  pub eph_point : c.decode_point eph_pk_a_bytes ≡ some eph_pk_a
  pub signed : c.verify peer.pk_a device_proof (c.sha256 (transcript c peer eph_pk_a_bytes)) ≡ true

module _ (c : Setting) (d : Honest c) where
  abbrev pub hello : Payload
  hello = hello_message d.peer.id_a d.peer.challenge_a

  abbrev pub response : Payload
  response = response_message d.eph_pk_a_bytes d.device_proof

  -- The state after a handshake that succeeded.
  abbrev pub authenticated_session : List Event → List Bytes → ℕ → RotSession
  authenticated_session es sent room = record {
    conn = opened es sent room;
    key_ab = some (session_key c d.peer d.eph_pk_a);
    node_label = label_of d.entry d.peer.id_a;
    authenticated = true;
    log = [];
  }

  module _ (ack_fits : length (c.json.dumps (session_ack c)) < 2 ^ 32) where
    check_response-accepts :
        (es : List Event) (sent : List Bytes) (room : ℕ) (label : Value)
        → check_response c d.peer response (at (opened es sent (suc room)) label) ≡ (
          ok true,
          record (authenticated_session es
              (sent ++ (frame (c.json.dumps (session_ack c)) ∷ []))
              room) { node_label = label },
        )
    unfolding check_response
    check_response-accepts es sent room label =
        rw
          (
            get_hex_lem (codes "eph_pk_a") rot_pubkey_len d.eph_pk_a_bytes response
                (unfold lookup same in refl) d.eph_bytes d.eph_length,
            get_hex_any_lem (codes "device_proof") d.device_proof response
                (unfold lookup same in refl) d.proof_bytes,
            d.eph_point,
            conclude-accepts c d.peer d.eph_pk_a_bytes d.eph_pk_a d.device_proof es sent room label
                d.signed ack_fits,
          )
          refl

    exchange_proofs-accepts :
        (es : List Event) (sent : List Bytes) (room : ℕ) (label : Value) (rest : Bytes)
        → length (c.json.dumps (challenge_message c d.peer)) < 2 ^ 32
        → Travels c.json response
        → delivers es ≡ frame (c.json.dumps response) ++ rest
        → exchange_proofs c d.peer (at (opened es sent (suc (suc room))) label) ≡ (
          ok true,
          record (authenticated_session
              (after_frame (c.json.dumps response) es)
              ((sent ++ (frame (c.json.dumps (challenge_message c d.peer)) ∷ []))
                ++ (frame (c.json.dumps (session_ack c)) ∷ []))
              room) { node_label = label },
        )
    unfolding exchange_proofs send_json
    exchange_proofs-accepts es sent room label rest fits (back, pos, small) h =
        rw
          (
            send_frame_lem (c.json.dumps (challenge_message c d.peer)) es sent (suc room) fits,
            recv_dict_lem c response rest es
                (sent ++ (frame (c.json.dumps (challenge_message c d.peer)) ∷ [])) (suc room) label
                back pos small h,
            is_response,
            check_response-accepts (after_frame (c.json.dumps response) es)
                (sent ++ (frame (c.json.dumps (challenge_message c d.peer)) ∷ [])) room label,
          )
          refl
      where
        is_response : has_str (codes "type") (codes "response") response ≡ true
        is_response = unfold has_str lookup same in refl

    handshake-accepts :
        (es : List Event) (room : ℕ) (rest : Bytes)
        → length (c.json.dumps (challenge_message c d.peer)) < 2 ^ 32
        → Travels c.json hello
        → Travels c.json response
        → delivers es ≡ frame (c.json.dumps hello) ++ (frame (c.json.dumps response) ++ rest)
        → handshake c (new_session (opened es [] (suc (suc room)))) ≡ (
          ok true,
          authenticated_session
              (after_frame (c.json.dumps response) (after_frame (c.json.dumps hello) es))
              (frame (c.json.dumps (challenge_message c d.peer))
                ∷ frame (c.json.dumps (session_ack c))
                ∷ [])
              room,
        )
    unfolding handshake identify enrolled set_label
    handshake-accepts es room rest fits (back, pos, small) tr h =
        rw
          (
            recv_dict_lem c hello (frame (c.json.dumps response) ++ rest) es [] (suc (suc room))
                (str (codes "unknown")) back pos small h,
            is_hello,
            get_hex_lem (codes "id_a") rot_id_len d.peer.id_a hello (unfold lookup same in refl)
                d.id_bytes d.id_length,
            get_hex_lem (codes "challenge_a") challenge_len d.peer.challenge_a hello
                (unfold lookup same in refl) d.challenge_bytes d.challenge_length,
            d.registered,
            d.pinned,
            d.verifier,
            d.key_point,
            exchange_proofs-accepts (after_frame (c.json.dumps hello) es) [] room
                (label_of d.entry d.peer.id_a) rest fits tr
                (delivers-after_frame (c.json.dumps hello) (frame (c.json.dumps response) ++ rest)
                  es h),
          )
          refl
      where
        is_hello : has_str (codes "type") (codes "hello") hello ≡ true
        is_hello = unfold has_str lookup same in refl
