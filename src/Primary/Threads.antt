-- ===== src/Primary/Threads.antt =====
-- The threads of smg_primary_server/server.py on the shared state, in any order.
use smg_secure_microgrid.Session.{new_session}
use smg_secure_microgrid.Wire.Socket.{Conn, close}
use smg_secure_microgrid.Numbers.{Reading}
use smg_secure_microgrid.DataStore.{get_all_latest, record_reading, DataStore}
use smg_secure_microgrid.Primary.{
  run, ems_round, new_session, server_of, handle_client, remove_first, Primary, Services,
}
use smg_secure_microgrid.Base.{ℕ, ◌≡◌, refl, ◌≢◌, true, List, [], ◌∷◌, ◌++◌, arith, All, Text}
use smg_secure_microgrid.Session.Records.{Records, unchanged, recorded}
use smg_secure_microgrid.Session.Records.Run.{run-Records}

module _ (v : Services) where
  abbrev Store : Type 0
  Store = DataStore v.arith_ops.Float

  -- One state of the server follows another: a session has recorded a reading, sessions have come
  -- and gone, or the EMS thread has set the setpoints from the readings that it read from an earlier
  -- state, perhaps before other threads moved on.
  pub data Reaches : Primary v → Primary v → Type 0 where
    started : (s : Primary v) → Reaches s s
    reading :
        (s t : Primary v) (now : v.arith_ops.Float) (label : Text) (r : Reading v.arith_ops.Float)
        → Reaches s t
        → Reaches s (record t { data_store = record_reading now label r t.data_store })
    connections :
        (s t : Primary v) (sessions : List ℕ)
        → Reaches s t
        → Reaches s (record t { sessions = sessions })
    setpoints :
        (s t u : Primary v) (now : v.arith_ops.Float)
        → Reaches s t
        → Reaches t u
        → Reaches s (ems_round v now (get_all_latest t.data_store) u)

  records-Reaches :
      (s : Primary v) (d : Store) → Records s.data_store d → Reaches s (record s { data_store = d })
  records-Reaches s d unchanged = started s
  records-Reaches s d (recorded t now label r before) =
      reading s (record s { data_store = t }) now label r (records-Reaches s t before)

  remove_first-append :
      (i : ℕ) (js : List ℕ) → All (λ j. j ≢ i) js → remove_first i (js ++ (i ∷ [])) ≡ js
  unfolding remove_first
  remove_first-append i [] h = ground arith
  remove_first-append i (j ∷ js) (h, hs) = ground (arith, remove_first-append i js hs)

  -- A connection that is handled, whatever its peer sends: the state that it leaves is reached by
  -- the recording of readings; it is closed and its session is gone; and the registry, the identity
  -- and the setpoints are as before.
  pub handle_client-Reaches :
      (i : ℕ) (conn : Conn) (s : Primary v)
      → All (λ j. j ≢ i) s.sessions
      → let out = handle_client v i conn s in
        Reaches s out.1
        × (out.0.closed ≡ true)
        × (out.1.sessions ≡ s.sessions)
        × (out.1.ems ≡ s.ems)
        × (out.1.registry ≡ s.registry)
  unfolding handle_client server_of new_session close
  handle_client-Reaches i conn s fresh =
      let c = server_of v i s in
      let fresh_session = new_session conn s.data_store in
      let d = (run c fresh_session).1.data_store in
      let kept = remove_first-append i s.sessions fresh in
      (
        connections s (record s { data_store = d }) (remove_first i (s.sessions ++ (i ∷ [])))
            (records-Reaches s d (run-Records c fresh_session)),
        refl,
        kept,
        refl,
        refl,
      )
