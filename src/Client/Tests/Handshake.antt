-- ===== src/Client/Tests/Handshake.antt =====
-- P2 and P3 with small stand-ins for the libraries.
use smg_secure_microgrid.Session.Establish.{confirmation}
use smg_secure_microgrid.Client.Genesis.{hello, p2_agreement}
use smg_secure_microgrid.Client.Establish.{p3_agreement, P3Agreed, Delivered, Rooted}
use smg_secure_microgrid.Wire.Hex.{hex, unhexlify}
use smg_secure_microgrid.Wire.Socket.{recv_exact, send_all}
use smg_secure_microgrid.Crypto.{fit_key, encrypt_gcm, hkdf}
use smg_secure_microgrid.Session.Genesis.{run_p2}
use smg_secure_microgrid.Session.{item, as_bytes, NodeSession, Server}
use smg_secure_microgrid.Base.Dict.{has_str, get_str, lookup, Payload}
use smg_secure_microgrid.Client.{p2_initiator_compute, str, new_client, SecureNodeClient}
use smg_secure_microgrid.Wire.Endian.{be_value_from, be_value, be_bytes, pack, unpack}
use smg_secure_microgrid.Session.Tests.{wire, proved}
use smg_secure_microgrid.Crypto.Tests.{toy_Aead, toy_digest}
use smg_secure_microgrid.Wire.Frame.{recv_msg, send_msg, dict}
use smg_secure_microgrid.Base.{
  ℕ, ◌+◌, ◌^◌, ◌<◌, ◌≡◌, refl, true, none, some, [], ◌∷◌, ◌++◌, arith, length, replicate,
  length-replicate, Result, ok, err, Bytes, Text, codes, same,
}
use smg_secure_microgrid.Client.Tests.{server, draws, hour, client, w, draws-size}
use smg_secure_microgrid.Client.Run.{take_rot_ack}

server_draws : (i k : ℕ) → length (server.urandom i k) ≡ k
server_draws i k = length-replicate {A = ℕ} k (i + 100)

-- The client and the session before P2.
abbrev fresh : NodeSession ℕ
fresh = record proved { shs_ab = none; prv_bl = none; peer_id = none }

abbrev newcomer : SecureNodeClient
newcomer = new_client (2 ∷ []) (5 ∷ [])

abbrev computed : Result (Bytes × Bytes) → Bytes × Bytes
computed (ok p) = p
computed (err e) = ([], [])

abbrev blocks : Bytes × Bytes
blocks = computed (p2_initiator_compute w (4 ∷ []) newcomer).0

newcomer_computes : (p2_initiator_compute w (4 ∷ []) newcomer).0 ≡ ok blocks
unfolding p2_initiator_compute new_client hkdf
newcomer_computes = refl

abbrev first_message : Payload
first_message =
    hello server toy_Aead draws hour draws-size server_draws toy_digest blocks.0 blocks.1
      newcomer.id

server_accepts : (run_p2 server first_message fresh).0 ≡ ok true
unfolding run_p2 p2_initiator_compute hkdf lookup same item as_bytes send_all pack unhexlify hex
    get_str new_client
server_accepts = refl

p2_agreement_example :
    let n1 = (p2_initiator_compute w (4 ∷ []) newcomer).1 in
    let t = (run_p2 server first_message fresh).1 in
    (ack : Payload) × (n2 : SecureNodeClient) × (send_msg server.json ack wire ≡ (ok tt, t.conn))
    × (take_rot_ack w server.json blocks.0 blocks.1 ack n1 ≡ (ok tt, n2))
    × Rooted server toy_Aead draws hour draws-size server_draws toy_digest n2 t
p2_agreement_example =
    p2_agreement server toy_Aead draws hour draws-size server_draws toy_digest newcomer fresh
      (4 ∷ []) blocks.0 blocks.1 newcomer_computes server_accepts

-- P3 over a connection that delivers the client's second message.
conf_hex : Text
unfolding hex
conf_hex = hex (replicate 12 3 ++ (replicate 31 0 ++ (225 ∷ replicate 16 7)))

abbrev server_after_p2 : Server
server_after_p2 = record server {
  json = record {
    dumps = λ p. 5 ∷ [];
    loads = λ b. ok (
        dict (
          (codes "type", str (codes "ses_conf"))
          ∷ (codes "CONF_cif", str conf_hex)
          ∷ (codes "ID_A", str (codes "02"))
          ∷ []));
  };
}

abbrev rooted_client : SecureNodeClient
rooted_client = record client {
  id = 2 ∷ [];
  shs_ab = some (1 ∷ []);
  ses_id = none;
  k_ab_enc = none;
}

abbrev rooted :
    Rooted server_after_p2 toy_Aead draws hour draws-size server_draws toy_digest rooted_client
      proved
rooted = record {
  shs = 1 ∷ [];
  prv = 3 ∷ [];
  client_shs = refl;
  server_shs = refl;
  client_head = refl;
  server_head = refl;
  client_peer = refl;
  server_peer = refl;
}

abbrev frame_out : Bytes
frame_out = 0 ∷ 0 ∷ 0 ∷ 1 ∷ 5 ∷ []

time_fits : hour (rooted_client.drawn + 1) < 256 ^ 8
time_fits = omega arith

delivered :
    Delivered server_after_p2 toy_Aead draws hour draws-size server_draws toy_digest rooted_client
      proved rooted time_fits
unfolding send_msg recv_msg lookup same pack be_bytes send_all recv_exact unpack be_value
    be_value_from has_str unhexlify conf_hex hex encrypt_gcm fit_key confirmation
delivered = record {
  conn_1 = record wire { sent = frame_out ∷ []; room = 4 };
  conn_2 = record wire { incoming = []; sent = frame_out ∷ []; room = 4 };
  conn_3 = record wire { incoming = []; sent = frame_out ∷ frame_out ∷ []; room = 3 };
  reply_lem = refl;
  conf_lem = refl;
  ack_lem = refl;
}

p3_agreement_example :
    P3Agreed server_after_p2 toy_Aead draws hour draws-size server_draws toy_digest rooted_client
      proved rooted time_fits delivered
p3_agreement_example =
    p3_agreement server_after_p2 toy_Aead draws hour draws-size server_draws toy_digest
      rooted_client proved rooted time_fits delivered
