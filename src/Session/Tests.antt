-- ===== src/Session/Tests.antt =====
-- Sessions with small stand-ins for the libraries.
use smg_secure_microgrid.Session.Ends.{run_data_loop-ends}
use smg_secure_microgrid.Session.Run.{out_of_fuel, run_data_loop}
use smg_secure_microgrid.Base.Dict.{lookup, has_str, Payload}
use smg_secure_microgrid.Wire.Endian.{pack, unpack, be_value, be_bytes}
use smg_secure_microgrid.Wire.Socket.{send_all, recv_exact, arrives, Conn}
use smg_secure_microgrid.Wire.Hex.{unhexlify, hex}
use smg_secure_microgrid.Session.Trust.{
  update_trust_bounds, handle_p4-Outcome, Isolated, Refused, Accepted,
}
use smg_secure_microgrid.Session.Exchange.{handle_p4}
use smg_secure_microgrid.Wire.Frame.{dict}
use smg_secure_microgrid.Session.Confirm.{run_p3-Established, Agreed}
use smg_secure_microgrid.Session.Establish.{run_p3}
use smg_secure_microgrid.Session.{
  anomaly_window, sensor_anomaly, update_trust, raw, str, NodeSession, Server,
}
use smg_secure_microgrid.Numbers.{number, Arith}
use smg_secure_microgrid.Crypto.{Library}
use smg_secure_microgrid.Base.{
  ℕ, ◌+◌, ◌-◌, ◌*◌, ◌/◌, ◌≤◌, ◌<◌, ◌≡◌, refl, ◌≢◌, ◌⊎◌, true, false, none, some, [], ◌∷◌, ◌++◌,
  arith, ltb, leb, length, take, replicate, ok, codes, same,
}

abbrev toy_library : Library
toy_library = record {
  h_sha256 = λ m. replicate 32 1;
  aes_encrypt = λ k n p. p ++ replicate 16 7;
  aes_decrypt = λ k n t. some (take (length t - 16) t);
}

conf_message : Payload
unfolding hex
conf_message =
    (codes "type", str (codes "ses_conf"))
    ∷ (codes "CONF_cif", str (hex (replicate 12 0 ++ (replicate 32 1 ++ replicate 16 7))))
    ∷ []

abbrev pub hundredths : Arith
hundredths = record {
  Float = ℕ;
  decimal = λ n. n;
  negative = λ n. 0;
  lt = ltb;
  le = leb;
  add = λ x y. x + y;
  sub = λ x y. x - y;
  mul = λ x y. x * y / 100;
  div = λ x y. x * 100 / y;
  round = λ n x. x;
  of_nat = λ n. n * 100;
  abs = λ x. x;
}

abbrev server : Server
server = record {
  arith_ops = hundredths;
  library = toy_library;
  json = record { dumps = λ p. 5 ∷ []; loads = λ b. ok (dict conf_message) };
  loads_reading = λ b. ok ((codes "V_bus", number 1200) ∷ []);
  dumps_setpoint = λ x. x ∷ [];
  registry = [];
  server_id = 8 ∷ [];
  server_key = 9 ∷ [];
  urandom = λ i n. replicate n i;
  clock = λ i. i;
  get_setpoint = λ node. some 50;
}

abbrev pub wire : Conn
wire = record {
  incoming = arrives 0 (0 ∷ 0 ∷ 1 ∷ 9 ∷ []) ∷ [];
  sent = [];
  room = 5;
  closed = false;
}

-- A session after P2.
abbrev pub proved : NodeSession ℕ
proved = record {
  conn = wire;
  data_store = record { max_readings = 3; buffers = []; latest = []; record_counts = [] };
  drawn = 0;
  shs_ab = some (1 ∷ []);
  prv_bl = some (3 ∷ []);
  ses_id = none;
  ses_key = none;
  session_active = false;
  m_num_expected = 0;
  chain = [];
  peer_id = some (2 ∷ []);
  node_label = codes "SMG_NODE_01";
  p3_pending = [];
  trust_score = 0;
  consecutive_anomalies = 0;
  p4_count = 0;
  errors = [];
  trust_events = [];
}

abbrev init_message : Payload
init_message =
    (codes "type", str (codes "ses_init"))
    ∷ (
      codes "INIT_cif",
      raw (
          replicate 12 0
          ++ (replicate 32 1 ++ (replicate 16 2 ++ (replicate 8 4 ++ replicate 16 7)))),
    )
    ∷ []

init_runs : (run_p3 server init_message proved).0 ≡ ok true
unfolding run_p3 conf_message lookup same pack send_all recv_exact unpack be_value has_str unhexlify
init_runs = refl

run_p3-Established_example : Agreed server init_message proved (run_p3 server init_message proved).1
run_p3-Established_example = run_p3-Established server init_message proved init_runs

-- The head and the block agree as every hash is the same.
data_message : Payload
unfolding be_bytes
data_message =
    (codes "type", str (codes "dx_msg"))
    ∷ (
      codes "MSG_cif",
      raw (
          replicate 12 0
          ++ (0 ∷ 5 ∷ 0 ∷ 0 ∷ 0 ∷ 1 ∷ 6 ∷ [])
          ++ (0 ∷ 8 ∷ replicate 8 4)
          ++ (0 ∷ 4 ∷ 0 ∷ 0 ∷ 0 ∷ 3 ∷ [])
          ++ (0 ∷ 1 ∷ 2 ∷ [])
          ++ (0 ∷ 32 ∷ replicate 32 1)
          ++ (0 ∷ 2 ∷ 7 ∷ 7 ∷ [])
          ++ replicate 16 7),
    )
    ∷ []

abbrev established : NodeSession ℕ
established = record proved {
  ses_id = some (6 ∷ []);
  ses_key = some (7 ∷ []);
  session_active = true;
  trust_score = 50;
}

data_in_chain : length (handle_p4 server data_message established).1.chain ≡ 1
unfolding handle_p4 data_message lookup same be_value send_all
data_in_chain = refl

handle_p4-Outcome_example :
    (Accepted server data_message established (handle_p4 server data_message established).1
      ⊎ Refused server data_message established (handle_p4 server data_message established).1)
    × ((handle_p4 server data_message established).1.trust_score ≤ 50)
    × Isolated (handle_p4 server data_message established).1
handle_p4-Outcome_example = handle_p4-Outcome server data_message established

update_trust_bounds_example :
    ((update_trust sensor_anomaly established).trust_score ≤ 50)
    × (50 ≤ (update_trust sensor_anomaly established).trust_score + 40)
    × ((update_trust sensor_anomaly established).consecutive_anomalies < anomaly_window)
update_trust_bounds_example = update_trust_bounds sensor_anomaly established (omega arith)

run_data_loop-ends_example : (run_data_loop server 8 established).0 ≢ ok out_of_fuel
run_data_loop-ends_example = run_data_loop-ends server 8 established (omega arith)
