-- ===== src/Rot/Agreement/Device.antt =====
-- `FakeDevice.handshake` of smg_primary_server/tests/test_rot_challenge_protocol.py, after its
-- hello: the checks of the challenge message, the response, the acknowledgement and the key. Against the server's
-- handshake of smg_primary_server/rot_challenge_service.py.
use smg_secure_microgrid.Base.{
  ℕ, suc, ◌^◌, ◌<◌, ◌≡◌, refl, true, some, List, [], ◌∷◌, ◌++◌, All, length, value, other, Result,
  ok, guard, of_option, Bytes, IsByte, codes, same, same_refl, ◌>>=◌, ◌>>◌,
}
use smg_secure_microgrid.Base.{◌>>=◌, ◌>>◌}
use smg_secure_microgrid.Base.Dict.{Payload, lookup, has_str}
use smg_secure_microgrid.Wire.Hex.{hex}
use smg_secure_microgrid.Wire.Socket.{Event}
use smg_secure_microgrid.Wire.Socket.Exact.{delivers, opened}
use smg_secure_microgrid.Wire.Frame.Laws.{frame, after_frame}
use smg_secure_microgrid.Rot.{
  Setting, Peer, get_hex, get_hex_any, transcript, session_key, server_proof, eph_pk_b,
  challenge_message, handshake, session_ack, new_session, label_of, rot_id_len, rot_digest_len,
  rot_pubkey_len, challenge_len, device_proof_domain_tag,
}
use smg_secure_microgrid.Rot.Agreement.{
  Honest, Travels, hello_message, response_message, get_hex_any_lem, handshake-accepts,
}

-- What a device holds: its identity key, its pinned references, and the session's fresh values.
pub record Device (c : Setting) : Type 0 where
  pub id_a : Bytes
  pub sk_a : c.SecretKey
  pub id_b_expected : Bytes
  pub shs_b_ref : Bytes
  pub challenge_a : Bytes
  pub eph_sk_a : c.SecretKey

module _ (c : Setting) (sign : c.SecretKey → Bytes → Bytes) (d : Device c) where
  abbrev pub eph_pk_a : Bytes
  eph_pk_a = c.encode_point (c.public_key d.eph_sk_a)

  -- What the device sends, and what it keeps of the challenge message for its key.
  pub record Answer : Type 0 where
    pub response : Payload
    pub eph_pk_b_bytes : Bytes
    pub challenge_b : Bytes

  unfoldable pub device_hash : Bytes → Bytes → Bytes → Bytes → Bytes
  device_hash id_b challenge_b eph_b proof = c.sha256 (
      device_proof_domain_tag
      ++ (d.id_a ++ (id_b ++ (challenge_b ++ (d.challenge_a ++ (eph_pk_a ++ (eph_b ++ proof)))))))

  unfoldable pub device_answer : Payload → Result Answer
  device_answer msg = do
    guard (has_str (codes "type") (codes "challenge") msg) other
    id_b ← get_hex_any (codes "id_b") msg
    challenge_b ← get_hex_any (codes "challenge_b") msg
    eph_b ← get_hex_any (codes "eph_pk_b") msg
    proof ← get_hex_any (codes "server_proof") msg
    guard (same id_b d.id_b_expected) other
    guard (same proof (c.sha256 (d.shs_b_ref ++ (d.challenge_a ++ eph_b)))) other
    ok (record {
      response = response_message eph_pk_a (sign d.sk_a (device_hash id_b challenge_b eph_b proof));
      eph_pk_b_bytes = eph_b;
      challenge_b = challenge_b;
    })

  -- The device's key, once it has received the acknowledgement.
  unfoldable pub device_key : Answer → Payload → Result Bytes
  device_key answer ack = do
    guard (has_str (codes "type") (codes "session_ack") ack) other
    point ← of_option value (c.decode_point answer.eph_pk_b_bytes)
    ok (
        c.sha256
          (c.exchange d.eph_sk_a point ++ (d.shs_b_ref ++ (d.challenge_a ++ answer.challenge_b))))

-- The laws of P-256 that the two sides rely on.
pub record Curve (c : Setting) (sign : c.SecretKey → Bytes → Bytes) : Type 0 where
  pub decode-encode : (pk : c.PublicKey) → c.decode_point (c.encode_point pk) ≡ some pk
  pub point_length : (pk : c.PublicKey) → length (c.encode_point pk) ≡ rot_pubkey_len
  pub point_bytes : (pk : c.PublicKey) → All IsByte (c.encode_point pk)
  pub hash_bytes : (b : Bytes) → All IsByte (c.sha256 b)
  pub sign_bytes : (sk : c.SecretKey) (h : Bytes) → All IsByte (sign sk h)
  pub verify-sign : (sk : c.SecretKey) (h : Bytes) → c.verify (c.public_key sk) (sign sk h) h ≡ true
  pub exchange_comm :
      (a b : c.SecretKey) → c.exchange a (c.public_key b) ≡ c.exchange b (c.public_key a)

-- The device's values are bytes of the protocol's lengths, and the registry holds its identifier
-- with its public key and with the verifier that it has pinned.
pub record Provisioned (c : Setting) (d : Device c) : Type 0 where
  pub entry : Payload
  pub id_bytes : All IsByte d.id_a
  pub id_length : length d.id_a ≡ rot_id_len
  pub challenge_bytes : All IsByte d.challenge_a
  pub challenge_length : length d.challenge_a ≡ challenge_len
  pub server_bytes : All IsByte c.id_b
  pub nonce_bytes : All IsByte c.challenge_b
  pub expected : d.id_b_expected ≡ c.id_b
  pub registered : lookup (hex d.id_a) c.registry ≡ some entry
  pub pinned :
      get_hex (codes "pk_a") rot_pubkey_len entry ≡ ok (c.encode_point (c.public_key d.sk_a))
  pub verifier : get_hex (codes "shs_b") rot_digest_len entry ≡ ok d.shs_b_ref

module _ (c : Setting) (sign : c.SecretKey → Bytes → Bytes) (curve : Curve c sign) (d : Device c)
    (p : Provisioned c d) where
  abbrev pub peer_of : Peer c.PublicKey
  peer_of = record {
    id_a = d.id_a;
    challenge_a = d.challenge_a;
    pk_a = c.public_key d.sk_a;
    shs_b = d.shs_b_ref;
  }

  abbrev pub honest : Honest c
  honest = record {
    peer = peer_of;
    entry = p.entry;
    pk_a_bytes = c.encode_point (c.public_key d.sk_a);
    eph_pk_a_bytes = c.encode_point (c.public_key d.eph_sk_a);
    eph_pk_a = c.public_key d.eph_sk_a;
    device_proof =
        sign d.sk_a (c.sha256 (transcript c peer_of (c.encode_point (c.public_key d.eph_sk_a))));
    id_bytes = p.id_bytes;
    id_length = p.id_length;
    challenge_bytes = p.challenge_bytes;
    challenge_length = p.challenge_length;
    eph_bytes = curve.point_bytes (c.public_key d.eph_sk_a);
    eph_length = curve.point_length (c.public_key d.eph_sk_a);
    proof_bytes = curve.sign_bytes d.sk_a _;
    registered = p.registered;
    pinned = p.pinned;
    key_point = curve.decode-encode (c.public_key d.sk_a);
    verifier = p.verifier;
    eph_point = curve.decode-encode (c.public_key d.eph_sk_a);
    signed = curve.verify-sign d.sk_a _;
  }

  abbrev pub challenge : Payload
  challenge = challenge_message c peer_of

  is_challenge : has_str (codes "type") (codes "challenge") challenge ≡ true
  unfolding has_str lookup same challenge_message
  is_challenge = refl

  reads_id_b : get_hex_any (codes "id_b") challenge ≡ ok c.id_b
  reads_id_b =
      get_hex_any_lem (codes "id_b") c.id_b challenge (unfold lookup same challenge_message in refl)
        p.server_bytes

  reads_challenge_b : get_hex_any (codes "challenge_b") challenge ≡ ok c.challenge_b
  reads_challenge_b =
      get_hex_any_lem (codes "challenge_b") c.challenge_b challenge
        (unfold lookup same challenge_message in refl) p.nonce_bytes

  reads_eph_pk_b : get_hex_any (codes "eph_pk_b") challenge ≡ ok (eph_pk_b c)
  reads_eph_pk_b =
      get_hex_any_lem (codes "eph_pk_b") (eph_pk_b c) challenge
        (unfold lookup same challenge_message in refl) (curve.point_bytes (c.public_key c.eph_sk_b))

  reads_server_proof : get_hex_any (codes "server_proof") challenge ≡ ok (server_proof c peer_of)
  reads_server_proof =
      get_hex_any_lem (codes "server_proof") (server_proof c peer_of) challenge
        (unfold lookup same challenge_message in refl) (unfold server_proof in curve.hash_bytes _)

  knows_server : same c.id_b d.id_b_expected ≡ true
  knows_server = rw p.expected (same_refl c.id_b)

  checks_proof :
      same (server_proof c peer_of) (c.sha256 (d.shs_b_ref ++ (d.challenge_a ++ eph_pk_b c))) ≡ true
  checks_proof = unfold server_proof in same_refl _

  same_hash :
      device_hash c sign d c.id_b c.challenge_b (eph_pk_b c) (server_proof c peer_of)
      ≡ c.sha256 (transcript c peer_of (c.encode_point (c.public_key d.eph_sk_a)))
  unfolding device_hash transcript
  same_hash = refl

  -- What the device makes of the server's challenge, and of the acknowledgement.
  abbrev pub answer_of : Answer c sign d
  answer_of = record {
    response = response_message honest.eph_pk_a_bytes honest.device_proof;
    eph_pk_b_bytes = eph_pk_b c;
    challenge_b = c.challenge_b;
  }

  pub device_answer-challenge : device_answer c sign d challenge ≡ ok answer_of
  device_answer-challenge =
      unfold device_answer in
      rw
        (
          is_challenge, reads_id_b, reads_challenge_b, reads_eph_pk_b, reads_server_proof,
          knows_server, checks_proof,
        )
        (rw same_hash refl)

  pub device_key-answer_of :
      device_key c sign d answer_of (session_ack c) ≡ ok (session_key c peer_of honest.eph_pk_a)
  device_key-answer_of =
      let is_ack : has_str (codes "type") (codes "session_ack") (session_ack c) ≡ true =
        unfold has_str lookup same in refl in
      unfold device_key in
      rw (is_ack, curve.decode-encode (c.public_key c.eph_sk_b))
        (rw (curve.exchange_comm d.eph_sk_a c.eph_sk_b) (unfold session_key in refl))

  abbrev pub hello : Payload
  hello = hello_message d.id_a d.challenge_a

  abbrev pub response : Payload
  response = response_message honest.eph_pk_a_bytes honest.device_proof

  -- A provisioned device and the server agree, over a network that delivers the device's two
  -- frames, cut in any way, and takes the server's two: the device accepts the server's challenge
  -- and answers it; the server sends that challenge and the acknowledgement, returns True and is
  -- authenticated; and the device derives a key on the acknowledgement, which is the server's. The laws of the curve are those of `Curve`; the four
  -- messages fit their frames and are read back by the codec.
  pub agreement :
      (es : List Event) (room : ℕ) (rest : Bytes)
      → length (c.json.dumps (session_ack c)) < 2 ^ 32
      → length (c.json.dumps challenge) < 2 ^ 32
      → Travels c.json hello
      → Travels c.json response
      → delivers es ≡ frame (c.json.dumps hello) ++ (frame (c.json.dumps response) ++ rest)
      → (key : Bytes) × (answer : Answer c sign d) × (device_answer c sign d challenge ≡ ok answer)
        × (answer.response ≡ response)
        × (device_key c sign d answer (session_ack c) ≡ ok key)
        × (handshake c (new_session (opened es [] (suc (suc room)))) ≡ (
          ok true,
          record {
            conn =
                opened
                  (after_frame (c.json.dumps response) (after_frame (c.json.dumps hello) es))
                  (frame (c.json.dumps challenge) ∷ frame (c.json.dumps (session_ack c)) ∷ [])
                  room;
            key_ab = some key;
            node_label = label_of p.entry d.id_a;
            authenticated = true;
            log = [];
          },
        ))
  agreement es room rest ack_fits fits th tr h = (
    session_key c peer_of honest.eph_pk_a,
    answer_of,
    device_answer-challenge,
    refl,
    device_key-answer_of,
    handshake-accepts c honest ack_fits es room rest fits th tr h,
  )
