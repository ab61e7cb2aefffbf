-- ===== src/Session.antt =====
-- `NodeSession` of smg_primary_server/auth_service.py: its state, the trust score, and what all
-- handlers share. Trust is counted in hundredths: the floats 0.8, 0.3 and 0.4 of the code and all
-- their differences stay far from the threshold 0.30 but for rounding errors below it.
pub mod Genesis
pub mod Establish
pub mod Exchange
pub mod Logout
pub mod Run
pub mod Trust
pub mod Verified
pub mod Untouched
pub mod Ends
pub mod Records
pub mod Confirm
pub mod Tests
use smg_secure_microgrid.Wire.Frame.{Json, send_msg}
use smg_secure_microgrid.Crypto.{Library}
use smg_secure_microgrid.DataStore.{DataStore}
use smg_secure_microgrid.Base.Dict.{Dict, str, raw, lookup, Value, Payload}
use smg_secure_microgrid.Base.Exec.{Exec}
use smg_secure_microgrid.Numbers.{Reading, Arith}
use smg_secure_microgrid.Wire.Socket.{close, Conn}
use smg_secure_microgrid.Base.{
  arith, ℕ, ◌+◌, ◌-◌, Bool, false, Option, none, some, List, [], ◌∷◌, ◌++◌, leb, if◌then◌else◌,
  Error, value, missing_key, wrong_type, Result, ok, err, of_option, Bytes, Text, codes,
}

abbrev pub trust_drop_threshold : ℕ
trust_drop_threshold = 30

abbrev pub anomaly_window : ℕ
anomaly_window = 5

pub data TrustEvent : Type 0 where
  security_error sensor_anomaly sensor_ok : TrustEvent

-- An entry of `self._chain`. Its index is its place.
pub record ChainEntry : Type 0 where
  pub index : ℕ
  pub m_num : ℕ
  pub ts : ℕ
  pub reg_bl : Bytes
  pub node : Text

-- An entry of `metrics['trust_events']`.
pub record TrustEntry : Type 0 where
  pub event : TrustEvent
  pub score : ℕ
  pub at_m_num : ℕ

-- The session, with the shared store and the number of draws from `os.urandom` so far. The timings
-- of `metrics` are left out.
pub record NodeSession (F : Type 0) : Type 0 where
  pub conn : Conn
  pub data_store : DataStore F
  pub drawn : ℕ
  pub shs_ab : Option Bytes
  pub prv_bl : Option Bytes
  pub ses_id : Option Bytes
  pub ses_key : Option Bytes
  pub session_active : Bool
  pub m_num_expected : ℕ
  pub chain : List ChainEntry
  pub peer_id : Option Bytes
  pub node_label : Text
  pub p3_pending : Payload
  pub trust_score : ℕ
  pub consecutive_anomalies : ℕ
  pub p4_count : ℕ
  pub errors : List Error
  pub trust_events : List TrustEntry

-- What a session is given: the libraries, the registry and the identity of the server, the clock
-- and the coordinator's `get_setpoint`. `urandom i n` is the i-th draw.
pub record Server : Type 1 where
  pub arith_ops : Arith
  pub library : Library
  pub json : Json
  pub loads_reading : Bytes → Result (Reading arith_ops.Float)
  pub dumps_setpoint : arith_ops.Float → Bytes
  pub registry : Dict Payload
  pub server_id : Bytes
  pub server_key : Bytes
  pub urandom : ℕ → ℕ → Bytes
  pub clock : ℕ → arith_ops.Float
  pub get_setpoint : Text → Option arith_ops.Float

module _ {F : Type 0} where
  unfoldable pub new_session : Conn → DataStore F → NodeSession F
  new_session conn data_store = record {
    conn = conn;
    data_store = data_store;
    drawn = 0;
    shs_ab = none;
    prv_bl = none;
    ses_id = none;
    ses_key = none;
    session_active = false;
    m_num_expected = 0;
    chain = [];
    peer_id = none;
    node_label = codes "unknown";
    p3_pending = [];
    trust_score = 0;
    consecutive_anomalies = 0;
    p4_count = 0;
    errors = [];
    trust_events = [];
  }

  -- An assignment to fields of `self`.
  abbrev pub update : (NodeSession F → NodeSession F) → Exec (NodeSession F) (Unit {0})
  update f s = (ok tt, f s)

  -- A field of `self`, whose `None` fails where it is used.
  abbrev pub field : (NodeSession F → Option Bytes) → Exec (NodeSession F) Bytes
  field f s = (of_option wrong_type (f s), s)

  abbrev pub on_conn : {A : Type 0} → Exec Conn A → Exec (NodeSession F) A
  on_conn m s = let (r, c) = m s.conn in (r, record s { conn = c })

  -- `self._trust_score` after a loss, with its entry in the metrics.
  unfoldable pub lose_trust : TrustEvent → ℕ → NodeSession F → NodeSession F
  lose_trust event loss s =
      let score = s.trust_score - loss in
      record s {
        trust_score = score;
        trust_events =
            s.trust_events ++ (record { event = event; score = score; at_m_num = s.p4_count } ∷ []);
      }

  unfoldable pub update_trust : TrustEvent → NodeSession F → NodeSession F
  unfolding lose_trust
  update_trust security_error s = lose_trust security_error 30 s
  update_trust sensor_anomaly s =
      let count = s.consecutive_anomalies + 1 in
      if leb anomaly_window count
      then record (lose_trust sensor_anomaly 40 s) { consecutive_anomalies = 0 }
      else record s { consecutive_anomalies = count }
  update_trust sensor_ok s = record s { consecutive_anomalies = 0 }

  unfoldable pub drop_connection : NodeSession F → NodeSession F
  drop_connection s = record s { session_active = false; conn = close s.conn }

  unfoldable pub log_error : Error → NodeSession F → NodeSession F
  log_error e s = record s { errors = s.errors ++ (e ∷ []) }

-- `msg[k]`, and a value where bytes are then needed
unfoldable pub item : Text → Payload → Result Value
item k msg = of_option missing_key (lookup k msg)

unfoldable pub as_bytes : Value → Result Bytes
as_bytes (raw b) = ok b
as_bytes _ = err wrong_type

-- `"..." + msg.get("type", "?")` fails when the type is no text.
unfoldable pub type_text : Payload → Result Text
type_text msg = elim (lookup (codes "type") msg) [
  | none ↦ ok (codes "?")
  | some (str t) ↦ ok t
  | some _ ↦ err wrong_type
]

module _ (c : Server) where
  abbrev pub State : Type 0
  State = NodeSession c.arith_ops.Float

  -- `send_error` swallows every failure. The text of an exception is left out of the message.
  unfoldable pub send_error : Text → Exec State (Unit {0})
  send_error message s =
      let (r, conn) =
        send_msg c.json ((codes "type", str (codes "error")) ∷ (codes "error", str message) ∷ [])
          s.conn in
      (ok tt, record s { conn = conn })

  -- `os.urandom(n)`
  abbrev pub draw : ℕ → Exec State Bytes
  draw n s = (ok (c.urandom s.drawn n), record s { drawn = s.drawn + 1 })
