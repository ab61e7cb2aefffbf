-- ===== src/Primary.antt =====
-- `SMGServer` of smg_primary_server/server.py: what the threads of the primary server share, and what
-- each of them does to it. The identity in the configuration is two texts or missing.
pub mod Threads
pub mod Sound
pub mod Identity
pub mod Tests
use smg_secure_microgrid.Wire.Socket.{Conn, close}
use smg_secure_microgrid.Base.{
  ℕ, Option, none, some, List, [], ◌∷◌, ◌++◌, map, ◌==◌, if◌then◌else◌, connection, other, Result,
  ok, Bytes, Text, ◌>>=◌, ◌>>◌,
}
use smg_secure_microgrid.Session.Run.{run}
use smg_secure_microgrid.Session.{new_session, Server}
use smg_secure_microgrid.Ems.{update, get_setpoint, Coordinator}
use smg_secure_microgrid.Wire.Frame.{Json}
use smg_secure_microgrid.Crypto.{Library}
use smg_secure_microgrid.DataStore.{
  max_readings_per_node, get_record_count, DataStore, aggregate_power, get_all_nodes, new_store,
}
use smg_secure_microgrid.Base.Dict.{Payload, Dict}
use smg_secure_microgrid.Numbers.{Reading, Arith}
use smg_secure_microgrid.Wire.Hex.{unhexlify}
use smg_secure_microgrid.Base.{
  ℕ, Option, none, some, List, [], ◌∷◌, ◌++◌, map, ◌==◌, if◌then◌else◌, connection, other, Result,
  ok, Bytes, Text,
}

-- `server_id` and `server_key` of the configuration.
pub record Config : Type 0 where
  pub server_id : Option Text
  pub server_key : Option Text

-- `if id_hex and key_hex`, and the two values of `os.urandom` otherwise.
unfoldable pub load_or_generate_server_identity : (ℕ → ℕ → Bytes) → Config → Result (Bytes × Bytes)
unfolding unhexlify
load_or_generate_server_identity urandom config = from config.server_id config.server_key
  where
    generated : Result (Bytes × Bytes)
    generated = ok (urandom 0 16, urandom 1 32)

    from : Option Text → Option Text → Result (Bytes × Bytes)
    from (some (c ∷ id_hex)) (some (d ∷ key_hex)) = do
      server_id ← unhexlify (c ∷ id_hex)
      server_key ← unhexlify (d ∷ key_hex)
      ok (server_id, server_key)
    from id_hex key_hex = generated

-- What the sessions use besides the server's own state. `urandom i` and `clock i` are the draws of
-- the i-th connection's session.
pub record Services : Type 1 where
  pub arith_ops : Arith
  pub library : Library
  pub json : Json
  pub loads_reading : Bytes → Result (Reading arith_ops.Float)
  pub dumps_setpoint : arith_ops.Float → Bytes
  pub urandom : ℕ → ℕ → ℕ → Bytes
  pub clock : ℕ → ℕ → arith_ops.Float

-- The server's object. A session stands in `_sessions` as the number of its connection.
pub record SmgServer (F : Type 0) : Type 0 where
  pub registry : Dict Payload
  pub server_id : Bytes
  pub server_key : Bytes
  pub data_store : DataStore F
  pub ems : Coordinator F
  pub sessions : List ℕ

-- `list.remove(x)`: the first that is equal.
unfoldable pub remove_first : ℕ → List ℕ → List ℕ
remove_first i [] = []
remove_first i (j ∷ js) = let rest = remove_first i js in if j == i then js else j ∷ rest

module _ (v : Services) where
  abbrev pub Primary : Type 0
  Primary = SmgServer v.arith_ops.Float

  unfoldable pub new_server : (ℕ → ℕ → Bytes) → Config → Dict Payload → Result Primary
  unfolding load_or_generate_server_identity new_store
  new_server urandom config registry = do
    (server_id, server_key) ← load_or_generate_server_identity urandom config
    ok (record {
      registry = registry;
      server_id = server_id;
      server_key = server_key;
      data_store = new_store max_readings_per_node;
      ems = record { setpoints = []; last_update = [] };
      sessions = [];
    })

  -- What a session is given.
  unfoldable pub server_of : ℕ → Primary → Server
  unfolding get_setpoint
  server_of i srv = record {
    arith_ops = v.arith_ops;
    library = v.library;
    json = v.json;
    loads_reading = v.loads_reading;
    dumps_setpoint = v.dumps_setpoint;
    registry = srv.registry;
    server_id = srv.server_id;
    server_key = srv.server_key;
    urandom = v.urandom i;
    clock = v.clock i;
    get_setpoint = λ node. get_setpoint v.arith_ops node srv.ems;
  }

  -- `_handle_client` without other threads in between: the connection afterwards, and the server.
  unfoldable pub handle_client : ℕ → Conn → Primary → Conn × Primary
  unfolding server_of new_session run close remove_first
  handle_client i conn srv =
      let served = srv.sessions ++ (i ∷ []) in
      let s = (run (server_of i srv) (new_session conn srv.data_store)).1 in
      (close s.conn, record srv { data_store = s.data_store; sessions = remove_first i served })

  -- One round of `_ems_update_loop`, with the readings that `update` has read from the store. An
  -- exception is logged.
  unfoldable pub ems_round :
      v.arith_ops.Float → Dict (Reading v.arith_ops.Float) → Primary → Primary
  unfolding update
  ems_round now all_latest srv = record srv { ems = (update v.arith_ops now all_latest srv.ems).1 }

  -- `sp if sp else 0.0`
  unfoldable pub shown : Option v.arith_ops.Float → v.arith_ops.Float
  shown none = v.arith_ops.decimal 0
  shown (some sp) = sp

  -- One round of `_status_loop`: the two totals and the lines of the nodes, if there are nodes. An
  -- exception ends the thread.
  unfoldable pub status_round :
      Primary
      → Result
          (Option (v.arith_ops.Float × v.arith_ops.Float × List (Text × ℕ × v.arith_ops.Float)))
  unfolding get_all_nodes aggregate_power get_record_count get_setpoint shown
  status_round srv = report (get_all_nodes srv.data_store)
    where
      line : Text → Text × ℕ × v.arith_ops.Float
      line node = (
        node,
        get_record_count node srv.data_store,
        shown (get_setpoint v.arith_ops node srv.ems),
      )

      report :
          List Text
          → Result
              (Option (v.arith_ops.Float × v.arith_ops.Float × List (Text × ℕ × v.arith_ops.Float)))
      report [] = ok none
      report (node ∷ nodes) = do
        (p_bus, p_gen, node_count) ← aggregate_power v.arith_ops srv.data_store
        ok (some (p_gen, p_bus, map line (node ∷ nodes)))
