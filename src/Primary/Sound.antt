-- ===== src/Primary/Sound.antt =====
-- What holds in every state that the threads of smg_primary_server/server.py can reach.
use smg_secure_microgrid.Base.Dict.{lookup-nil, Payload, Dict}
use smg_secure_microgrid.Numbers.{Reading, Ordered}
use smg_secure_microgrid.Primary.{
  load_or_generate_server_identity, new_server, Config, ems_round, Primary, Services,
}
use smg_secure_microgrid.Base.{
  ℕ, ◌≡◌, sym, ◌∙◌, subst, ◌≢◌, none, some, List, [], ok, >>=-eq-ok, Bytes, Text,
}
use smg_secure_microgrid.DataStore.{get_all_latest, stamp, new_store, max_readings_per_node}
use smg_secure_microgrid.Ems.{get_setpoint}
use smg_secure_microgrid.Primary.Threads.{Reaches, started, reading, connections, setpoints}
use smg_secure_microgrid.Ems.Setpoints.{
  AllInRange, InRange, update-AllInRange, get_setpoint-InRange,
}
use smg_secure_microgrid.DataStore.Refines.{
  Represents, record_reading-Represents, new_store-Represents, extend,
}

module _ (v : Services) (laws : Ordered v.arith_ops) where
  abbrev Sound : Primary v → Type 0
  Sound s =
      AllInRange v.arith_ops laws s.ems
      × (history : Text → List (Reading v.arith_ops.Float)) × Represents s.data_store history

  Reaches-Sound : (s t : Primary v) → Reaches v s t → Sound s → Sound t
  unfolding ems_round
  Reaches-Sound s t (started s') h = h
  Reaches-Sound s t (connections s' t' sessions before) h = Reaches-Sound s t' before h
  Reaches-Sound s t (reading s' t' now label r before) h =
      let (range, history, rep) = Reaches-Sound s t' before h in
      (
        range,
        extend label (stamp now r) history,
        record_reading-Represents t'.data_store history now label r rep,
      )
  Reaches-Sound s t (setpoints s' t' u now before between) h =
      let (range, history, rep) = Reaches-Sound t' u between (Reaches-Sound s t' before h) in
      (
        (update-AllInRange v.arith_ops laws now (get_all_latest t'.data_store) u.ems range).0,
        history,
        rep,
      )

  fresh : Dict Payload → Bytes × Bytes → Primary v
  fresh registry p = record {
    registry = registry;
    server_id = p.0;
    server_key = p.1;
    data_store = new_store max_readings_per_node;
    ems = record { setpoints = []; last_update = [] };
    sessions = [];
  }

  new_server-Sound :
      (urandom : ℕ → ℕ → Bytes) (config : Config) (registry : Dict Payload) (s : Primary v)
      → new_server v urandom config registry ≡ ok s
      → Sound s
  unfolding new_server fresh
  new_server-Sound urandom config registry s h =
      let (p, loaded, e) =
        >>=-eq-ok (load_or_generate_server_identity urandom config) (λ p. ok (fresh registry p))
          h in
      subst Sound (ok_inj (fresh registry p) s e) (
        λ node sp found. absurd (none≢some sp (sym (lookup-nil node) ∙ found)),
        (λ label. []),
        new_store-Represents max_readings_per_node,
      )
    where
      ok_inj : (x y : Primary v) → ok x ≡ ok y → x ≡ y
      ok_inj x y q = cc

      none≢some : (x : v.arith_ops.Float) → none ≢ some x
      none≢some x q = cc

  -- In every state that the threads can reach from a new server, in whatever order they take their
  -- turns and whatever the peers send: each setpoint that a session can be given is from 0 W to
  -- 100 W, and the store stands for some history of readings for every node. The floats are ordered.
  pub reached-Sound :
      (urandom : ℕ → ℕ → Bytes) (config : Config) (registry : Dict Payload) (s t : Primary v)
      → new_server v urandom config registry ≡ ok s
      → Reaches v s t
      → ((node : Text) (sp : v.arith_ops.Float)
          → get_setpoint v.arith_ops node t.ems ≡ some sp
          → InRange v.arith_ops laws sp)
        × (history : Text → List (Reading v.arith_ops.Float)) × Represents t.data_store history
  reached-Sound urandom config registry s t h reach =
      let (range, history, rep) =
        Reaches-Sound s t reach (new_server-Sound urandom config registry s h) in
      (λ node sp e. get_setpoint-InRange v.arith_ops laws t.ems node sp range e, history, rep)
