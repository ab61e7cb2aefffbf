-- ===== src/Rot/Tests.antt =====
-- A run of a device against the server with small stand-ins for the cryptography and the codec.
use smg_secure_microgrid.Rot.Run.Loop.{data_loop-ends}
use smg_secure_microgrid.Rot.Transcript.{transcript_inj, WellSized}
use smg_secure_microgrid.Rot.Run.{out_of_fuel, run, data_loop}
use smg_secure_microgrid.Rot.Authentic.{handshake-Outcome, Outcome}
use smg_secure_microgrid.Rot.Run.Safe.{run-Session, Session}
use smg_secure_microgrid.Base.{
  ℕ, zero, suc, ◌+◌, ◌-◌, ◌%◌, ◌^◌, ◌<◌, ◌≡◌, refl, ◌≢◌, Bool, true, false, ◌&&◌, none, some, List,
  [], ◌∷◌, ◌++◌, arith, if◌then◌else◌, All, length, get_or, take, drop, replicate, timeout, ok,
  Bytes, IsByte, codes, same, same_refl,
}
use smg_secure_microgrid.Base.Dict.{Dict, Payload, str, lookup}
use smg_secure_microgrid.Wire.Hex.{hex, from_hex, hex_to_bin}
use smg_secure_microgrid.Wire.Endian.{be_bytes}
use smg_secure_microgrid.Wire.Socket.{Event, arrives, raises}
use smg_secure_microgrid.Wire.Socket.Exact.{delivers, opened}
use smg_secure_microgrid.Wire.Frame.{Json, dict}
use smg_secure_microgrid.Wire.Frame.Laws.{frame, after_frame}
use smg_secure_microgrid.Rot.{
  eph_pk_b, Peer, label_of, server_proof, transcript, Setting, new_session, handshake, session_ack,
  challenge_message, get_hex,
}
use smg_secure_microgrid.Rot.Primitives.{Primitives}
use smg_secure_microgrid.Rot.Agreement.{Travels}
use smg_secure_microgrid.Rot.Agreement.Device.{
  Device, Answer, device_key, Curve, Provisioned, peer_of, hello, response, device_answer,
  agreement, challenge,
}

abbrev bit : Bool → ℕ
bit true = 1
bit false = 0

abbrev sum : Bytes → ℕ
sum [] = 0
sum (b ∷ bs) = b + sum bs

abbrev checksum : Bytes → Bytes
checksum b = replicate 31 0 ++ (sum b % 256 ∷ [])

abbrev point : Bool → Bytes
point b = 4 ∷ replicate 64 (bit b)

abbrev signature : Bool → Bytes → Bytes
signature sk h = bit sk ∷ sum h % 256 ∷ []

abbrev toy : Primitives
toy = record {
  PublicKey = Bool;
  SecretKey = Bool;
  sha256 = checksum;
  decode_point = λ b.
      if same b (point true) then some true else if same b (point false) then some false else none;
  encode_point = point;
  public_key = λ sk. sk;
  exchange = λ sk pk. bit (sk && pk) ∷ [];
  verify = λ pk s h. same s (signature pk h);
  aes_encrypt = λ key nonce text. text ++ replicate 16 7;
  aes_decrypt = λ key nonce text. some (take (length text - 16) text);
}

-- A codec for dicts of short texts.
abbrev write : Payload → Bytes
write [] = []
write ((k, str s) ∷ p) = length k ∷ (k ++ (length s ∷ (s ++ write p)))
write (_ ∷ p) = write p

abbrev read : ℕ → Bytes → Payload
read zero bs = []
read (suc fuel) [] = []
read (suc fuel) (n ∷ bs) =
    let more = drop n bs in
    let size = get_or more 0 0 in
    (take n bs, str (take size (drop 1 more))) ∷ read fuel (drop (size + 1) more)

abbrev toy_json : Json
toy_json = record { dumps = write; loads = λ b. ok (dict (read (length b) b)) }

toy_hash_bytes : (b : Bytes) → All IsByte (checksum b)
toy_hash_bytes b = omega arith

toy_decode-encode : (pk : Bool) → toy.decode_point (point pk) ≡ some pk
unfolding same
toy_decode-encode true = refl
toy_decode-encode false = refl

toy_point-length : (pk : Bool) → length (point pk) ≡ 65
toy_point-length pk = refl

toy_point_bytes : (pk : Bool) → All IsByte (point pk)
toy_point_bytes true = omega arith
toy_point_bytes false = omega arith

toy_sign_bytes : (sk : Bool) (h : Bytes) → All IsByte (signature sk h)
toy_sign_bytes true h = omega arith
toy_sign_bytes false h = omega arith

toy_exchange_comm : (a b : Bool) → ◌≡◌ {A = Bytes} (bit (a && b) ∷ []) (bit (b && a) ∷ [])
toy_exchange_comm true true = refl
toy_exchange_comm true false = refl
toy_exchange_comm false true = refl
toy_exchange_comm false false = refl

abbrev id_a : Bytes
id_a = replicate 16 0xa1

node_entry : Payload
unfolding hex
node_entry =
    (codes "pk_a", str (hex (point true)))
    ∷ (codes "shs_b", str (hex (replicate 32 9)))
    ∷ (codes "label", str (codes "SMG_NODE_01"))
    ∷ []

node_registry : Dict Payload
unfolding hex
node_registry = (hex id_a, node_entry) ∷ []

abbrev setting : Setting
setting = record {
  primitives = toy;
  json = toy_json;
  text_of = λ v. codes "?";
  challenge_b = replicate 16 0xb2;
  eph_sk_b = true;
  id_b = replicate 16 0xbb;
  registry = node_registry;
}

toy_curve : Curve setting signature
toy_curve = record {
  decode-encode = toy_decode-encode;
  point_length = toy_point-length;
  point_bytes = toy_point_bytes;
  hash_bytes = toy_hash_bytes;
  sign_bytes = toy_sign_bytes;
  verify-sign = λ sk h. same_refl (signature sk h);
  exchange_comm = toy_exchange_comm;
}

abbrev node : Device setting
node = record {
  id_a = id_a;
  sk_a = true;
  id_b_expected = replicate 16 0xbb;
  shs_b_ref = replicate 32 9;
  challenge_a = replicate 16 0xa2;
  eph_sk_a = true;
}

provisioned : Provisioned setting node
unfolding node_registry node_entry hex from_hex lookup same get_hex hex_to_bin
provisioned = record {
  entry = node_entry;
  id_bytes = omega arith;
  id_length = refl;
  challenge_bytes = omega arith;
  challenge_length = refl;
  server_bytes = omega arith;
  nonce_bytes = omega arith;
  expected = refl;
  registered = refl;
  pinned = refl;
  verifier = refl;
}

-- The two frames of the device, cut into three chunks, and a byte of a later message.
arrived : List Event
unfolding hex frame be_bytes
arrived =
    cut (frame (toy_json.dumps (hello setting signature toy_curve node provisioned)))
      (frame (toy_json.dumps (response setting signature toy_curve node provisioned)))
  where
    chunk : Bytes → List Event → List Event
    chunk [] es = es
    chunk (b ∷ bs) es = arrives b bs ∷ es

    cut : Bytes → Bytes → List Event
    cut h r = chunk (take 3 h) (chunk (drop 3 h ++ take 40 r) (chunk (drop 40 r ++ (5 ∷ [])) []))

hello-Travels : Travels toy_json (hello setting signature toy_curve node provisioned)
unfolding hex
hello-Travels = (refl, omega arith, omega arith)

response-Travels : Travels toy_json (response setting signature toy_curve node provisioned)
unfolding hex transcript server_proof
response-Travels = (refl, omega arith, omega arith)

arrived_lem :
    delivers arrived
    ≡ frame (toy_json.dumps (hello setting signature toy_curve node provisioned))
      ++ (frame (toy_json.dumps (response setting signature toy_curve node provisioned)) ++ 5 ∷ [])
unfolding arrived hex frame be_bytes transcript server_proof
arrived_lem = refl

challenge_fits :
    length (toy_json.dumps (challenge setting signature toy_curve node provisioned)) < 2 ^ 32
unfolding challenge_message hex server_proof
challenge_fits = omega arith

agreement_example :
    (key : Bytes) × (answer : Answer setting signature node) × (device_answer setting signature node
        (challenge setting signature toy_curve node provisioned)
      ≡ ok answer)
    × (answer.response ≡ response setting signature toy_curve node provisioned)
    × (device_key setting signature node answer (session_ack setting) ≡ ok key)
    × (handshake setting (new_session (opened arrived [] 2)) ≡ (
      ok true,
      record {
        conn =
            opened
              (after_frame
                (toy_json.dumps (response setting signature toy_curve node provisioned))
                (after_frame
                  (toy_json.dumps (hello setting signature toy_curve node provisioned))
                  arrived))
              (frame (toy_json.dumps (challenge setting signature toy_curve node provisioned))
                ∷ frame (toy_json.dumps (session_ack setting))
                ∷ [])
              0;
        key_ab = some key;
        node_label = label_of node_entry id_a;
        authenticated = true;
        log = [];
      },
    ))
unfolding node_entry provisioned
agreement_example =
    agreement setting signature toy_curve node provisioned arrived 0 (5 ∷ []) (omega arith)
      challenge_fits hello-Travels response-Travels arrived_lem

-- Whole sessions: the device of above, and one that the registry does not know.
run-Session_example :
    Session setting
      (run setting (new_session (opened arrived [] 2))).0
      (run setting (new_session (opened arrived [] 2))).1
run-Session_example = run-Session setting (opened arrived [] 2)

handshake-Outcome_example :
    Outcome setting
      (handshake setting (new_session (opened arrived [] 2))).0
      (handshake setting (new_session (opened arrived [] 2))).1
handshake-Outcome_example =
    handshake-Outcome setting (new_session (opened arrived [] 2)) (refl, refl, refl)

data_loop-ends_example :
    (data_loop setting 20
      (new_session (opened (arrives 0 (0 ∷ 0 ∷ []) ∷ raises timeout ∷ []) [] 2))).0
    ≢ ok out_of_fuel
data_loop-ends_example =
    data_loop-ends setting 20
      (new_session (opened (arrives 0 (0 ∷ 0 ∷ []) ∷ raises timeout ∷ []) [] 2)) (omega arith)

well_sized : WellSized setting (peer_of setting signature toy_curve node provisioned) (point true)
well_sized = record {
  id_a = refl;
  id_b = refl;
  challenge_b = refl;
  challenge_a = refl;
  eph_a = refl;
  eph_b = refl;
}

abbrev peer : Peer Bool
peer = peer_of setting signature toy_curve node provisioned

transcript_inj_example :
    (peer.id_a ≡ peer.id_a)
    × (setting.id_b ≡ setting.id_b)
    × (setting.challenge_b ≡ setting.challenge_b)
    × (peer.challenge_a ≡ peer.challenge_a)
    × (point true ≡ point true)
    × (eph_pk_b setting ≡ eph_pk_b setting)
    × (server_proof setting peer ≡ server_proof setting peer)
transcript_inj_example =
    transcript_inj setting setting peer peer (point true) (point true) well_sized well_sized refl
