-- ===== src/Primary/Tests.antt =====
-- A server with a connection and with moves of its threads.
use smg_secure_microgrid.Primary.Sound.{reached-Sound}
use smg_secure_microgrid.DataStore.Refines.{Represents}
use smg_secure_microgrid.Ems.Setpoints.{InRange}
use smg_secure_microgrid.DataStore.{get_all_latest, record_reading}
use smg_secure_microgrid.Primary.Identity.{load_or_generate_lem}
use smg_secure_microgrid.Wire.Hex.{hex, unhexlify}
use smg_secure_microgrid.Primary.{
  get_setpoint, ems_round, handle_client, load_or_generate_server_identity, new_server, Primary,
  Config, Services,
}
use smg_secure_microgrid.Base.{
  ℕ, ◌+◌, ◌≡◌, refl, true, Option, none, some, List, [], ◌∷◌, arith, replicate, Result, ok, Bytes,
  Text, codes,
}
use smg_secure_microgrid.Primary.Threads.{
  Reaches, started, reading, setpoints, handle_client-Reaches,
}
use smg_secure_microgrid.Session.Tests.{wire}
use smg_secure_microgrid.Ems.Tests.{hundredths, hundredths_Ordered}
use smg_secure_microgrid.Crypto.Tests.{toy}
use smg_secure_microgrid.Numbers.{Reading, number}
use smg_secure_microgrid.Wire.Frame.{not_dict}

abbrev services : Services
services = record {
  arith_ops = hundredths;
  library = toy;
  json = record { dumps = λ p. 5 ∷ []; loads = λ b. ok not_dict };
  loads_reading = λ b. ok [];
  dumps_setpoint = λ x. x ∷ [];
  urandom = λ i k n. replicate n (i + k);
  clock = λ i k. k;
}

abbrev config : Config
config = record { server_id = some (codes "0a"); server_key = some (codes "ff01") }

abbrev fresh : Primary services
fresh = record {
  registry = [];
  server_id = 10 ∷ [];
  server_key = 255 ∷ 1 ∷ [];
  data_store = record { max_readings = 10800; buffers = []; latest = []; record_counts = [] };
  ems = record { setpoints = []; last_update = [] };
  sessions = [];
}

draws : ℕ → ℕ → Bytes
draws i n = replicate n i

starts : new_server services draws config [] ≡ ok fresh
unfolding new_server unhexlify
starts = refl

load_or_generate_lem_example :
    let load = λ (i k : Option Text).
      load_or_generate_server_identity draws (record { server_id = i; server_key = k }) in
    let new : Result (Bytes × Bytes) = ok (draws 0 16, draws 1 32) in
    (load (some (hex (10 ∷ []))) (some (hex (255 ∷ 1 ∷ []))) ≡ ok (10 ∷ [], 255 ∷ 1 ∷ []))
    × (load none (some []) ≡ new)
    × (load (some []) (some []) ≡ new)
    × (load (some []) none ≡ new)
    × (load (some []) (some []) ≡ new)
load_or_generate_lem_example =
    load_or_generate_lem draws 10 255 [] (1 ∷ []) (some []) (omega arith, tt)
      (omega arith, (omega arith, tt))

handle_client-Reaches_example :
    let out = handle_client services 4 wire (record fresh { sessions = 2 ∷ 3 ∷ [] }) in
    Reaches services (record fresh { sessions = 2 ∷ 3 ∷ [] }) out.1
    × (out.0.closed ≡ true)
    × (out.1.sessions ≡ 2 ∷ 3 ∷ [])
    × (out.1.ems ≡ fresh.ems)
    × (out.1.registry ≡ [])
handle_client-Reaches_example =
    handle_client-Reaches services 4 wire (record fresh { sessions = 2 ∷ 3 ∷ [] })
      (ground arith, (ground arith, tt))

-- A reading comes in while the EMS thread computes with what it read before.
abbrev first_reading : Reading ℕ
first_reading = (codes "V_bus", number 1300) ∷ []

abbrev with_reading : Primary services
with_reading = record fresh {
  data_store = record_reading 5 (codes "SMG_NODE_01") first_reading fresh.data_store;
}

abbrev with_two : Primary services
with_two = record with_reading {
  data_store = record_reading 6 (codes "SMG_NODE_02") first_reading with_reading.data_store;
}

abbrev updated : Primary services
updated = ems_round services 7 (get_all_latest with_reading.data_store) with_two

reaches_updated : Reaches services fresh updated
reaches_updated =
    setpoints fresh with_reading with_two 7
      (reading fresh fresh 5 (codes "SMG_NODE_01") first_reading (started fresh))
      (reading with_reading with_reading 6 (codes "SMG_NODE_02") first_reading
        (started with_reading))

reached-Sound_example :
    ((node : Text) (sp : ℕ)
      → get_setpoint hundredths node updated.ems ≡ some sp
      → InRange hundredths hundredths_Ordered sp)
    × (history : Text → List (Reading ℕ)) × Represents updated.data_store history
reached-Sound_example =
    reached-Sound services hundredths_Ordered draws config [] fresh updated starts reaches_updated
