-- ===== src/Client/Tests.antt =====
-- A client and a session with small stand-ins for the libraries.
pub mod Handshake
pub mod Runs
use smg_secure_microgrid.Client.Genesis.{hello, p2_agreement}
use smg_secure_microgrid.Client.Establish.{Rooted}
use smg_secure_microgrid.Wire.Hex.{hex, unhexlify}
use smg_secure_microgrid.Wire.Socket.{send_all}
use smg_secure_microgrid.Crypto.{hkdf}
use smg_secure_microgrid.Session.Genesis.{rot_ack, run_p2}
use smg_secure_microgrid.Client.Logout.{logout_refused}
use smg_secure_microgrid.Session.Exchange.{result_message, open_message, Message, handle_p4}
use smg_secure_microgrid.Session.Logout.{handle_p5}
use smg_secure_microgrid.Client.Conversation.{start, talk_invariant, InStep, Talk, IsReply, talk}
use smg_secure_microgrid.Client.Agreement.{InSync}
use smg_secure_microgrid.Session.{item, as_bytes, NodeSession, Server}
use smg_secure_microgrid.Base.Dict.{get_str, lookup, Dict, Payload}
use smg_secure_microgrid.Client.Formats.{padding, smg_normalize}
use smg_secure_microgrid.Client.Formats.Laws.{smg_normalize_lem}
use smg_secure_microgrid.Client.{
  p2_finalize, p2_initiator_compute, p4_finalize, str, p5_logout_initiate, p4_send, World, raw,
  new_client, SecureNodeClient,
}
use smg_secure_microgrid.Wire.Endian.{be_value_from, be_value, be_bytes, pack, unpack}
use smg_secure_microgrid.Crypto.Gcm.{Aead}
use smg_secure_microgrid.Base.{
  ℕ, ◌+◌, ◌%◌, ◌≡◌, refl, true, false, some, [], ◌∷◌, arith, if◌then◌else◌, tests, length, take,
  drop, replicate, length-replicate, runtime, Result, ok, err, Bytes, codes, same,
}
use smg_secure_microgrid.Client.Formats.{ts_bytes}
use smg_secure_microgrid.Client.Conversation.{start, next_round}
use smg_secure_microgrid.Session.Tests.{hundredths, wire, proved}
use smg_secure_microgrid.Crypto.Tests.{toy, toy_Aead}
use smg_secure_microgrid.Numbers.{number}
use smg_secure_microgrid.Wire.Frame.{send_msg, dict}

abbrev pub server : Server
server = record {
  arith_ops = hundredths;
  library = toy;
  json = record {
    dumps = λ p. 5 ∷ [];
    loads = λ b. ok (dict ((codes "type", str (codes "setpoint")) ∷ []));
  };
  loads_reading = λ b. ok ((codes "V_bus", number 1200) ∷ []);
  dumps_setpoint = λ x. x ∷ [];
  registry = (codes "02", (codes "node_salt", str (codes "0a0b")) ∷ []) ∷ [];
  server_id = 8 ∷ [];
  server_key = 9 ∷ [];
  urandom = λ i n. replicate n (i + 100);
  clock = λ i. i;
  get_setpoint = λ node. some 50;
}

abbrev pub draws : ℕ → ℕ → Bytes
draws i k = replicate k i

pub draws-size : (i k : ℕ) → length (draws i k) ≡ k
draws-size i k = length-replicate {A = ℕ} k i

abbrev pub hour : ℕ → ℕ
hour i = 1700000000 + i

abbrev reading : Bytes
reading = 1 ∷ 2 ∷ []

abbrev block : Bytes
block = 0 ∷ 0 ∷ 0 ∷ 2 ∷ 1 ∷ 2 ∷ replicate 58 0

smg_normalize_lem_example :
    (length block % 64 ≡ 0) × (unpack 4 (take 4 block) ≡ ok 2) × (take 2 (drop 4 block) ≡ reading)
smg_normalize_lem_example =
    smg_normalize_lem reading block (unfold smg_normalize pack be_bytes padding in refl)

-- The client in the session of the server's tests.
abbrev pub client : SecureNodeClient
client = record (new_client (2 ∷ []) (5 ∷ [])) {
  peer_id = some (raw (8 ∷ []));
  m_num = 2;
  ses_id = some (6 ∷ []);
  k_ab_enc = some (7 ∷ []);
  prv_bl = some (3 ∷ []);
  drawn = 0;
}

abbrev session : NodeSession ℕ
session = record proved {
  ses_id = some (6 ∷ []);
  ses_key = some (7 ∷ []);
  session_active = true;
  trust_score = 50;
}

client-InSync : InSync server toy_Aead draws hour draws-size client session
client-InSync = record {
  same_key = refl;
  same_id = refl;
  same_head = refl;
  peer_lem = unfold as_bytes in refl;
}

abbrev pub w : World
w = talk server toy_Aead draws hour draws-size

-- What an action returned, if it did.
abbrev returned : Result Payload → Payload
returned (ok m) = m
returned (err e) = []

abbrev data_message : Payload
data_message = returned (p4_send w reading client).0

client_sends : (p4_send w reading client).0 ≡ ok data_message
unfolding p4_send pack be_bytes as_bytes ts_bytes new_client
client_sends = refl

abbrev logout_message : Payload
logout_message = returned (p5_logout_initiate w client).0

client_leaves : (p5_logout_initiate w client).0 ≡ ok logout_message
unfolding p5_logout_initiate pack be_bytes as_bytes ts_bytes new_client
client_leaves = refl

logout_refused_example :
    handle_p5 server logout_message session
    ≡ (ok tt, record session { errors = runtime ∷ []; session_active = false })
logout_refused_example =
    logout_refused server toy_Aead draws hour draws-size client session logout_message client-InSync
      (omega arith) (omega arith) client_leaves

-- One round, with the nonce that the server draws.
abbrev taken : Result (Message × Bytes) → Message × Bytes
taken (ok p) = p
taken (err e) = (
  record { smg_reg = []; ts_b = []; m_num = 0; ts = 0; id_a = []; preg_bl = []; a_reg_bl = [] },
  [],
)

abbrev opened : Message × Bytes
opened = taken (open_message server data_message session).0

session_opens : (open_message server data_message session).0 ≡ ok opened
unfolding open_message p4_send pack be_bytes as_bytes ts_bytes new_client item lookup same be_value
    be_value_from
session_opens = refl

abbrev answer : Payload
answer = result_message server (replicate 12 100) opened.1 (7 ∷ []) opened.0.m_num

answer-IsReply : IsReply server toy_Aead draws hour draws-size data_message session answer
answer-IsReply = record {
  message = opened.0;
  b_reg_bl = opened.1;
  key = 7 ∷ [];
  nonce = replicate 12 100;
  opened = session_opens;
  key_lem = refl;
  nonce_lem = refl;
  reply_lem = refl;
}

one_round :
    Talk server toy_Aead draws hour draws-size client session 1
      (p4_finalize w answer (p4_send w reading client).1).1
      (handle_p4 server data_message session).1
one_round =
    next_round 0 client session reading data_message answer start client_sends answer-IsReply

talk_invariant_example :
    InStep server toy_Aead draws hour draws-size client session 1
      (p4_finalize w answer (p4_send w reading client).1).1
      (handle_p4 server data_message session).1
talk_invariant_example =
    talk_invariant server toy_Aead draws hour draws-size client session 1
      (p4_finalize w answer (p4_send w reading client).1).1
      (handle_p4 server data_message session).1 client-InSync one_round
