-- ===== src/Session/Run.antt =====
-- `_run_data_loop` and `run` of smg_primary_server/auth_service.py.
use smg_secure_microgrid.Session.Logout.{handle_p5}
use smg_secure_microgrid.Session.Genesis.{run_p2}
use smg_secure_microgrid.Session.Establish.{run_p3}
use smg_secure_microgrid.Wire.Frame.{recv_msg}
use smg_secure_microgrid.Session.Exchange.{handle_p4}
use smg_secure_microgrid.Wire.Socket.Size.{size}
use smg_secure_microgrid.Base.Dict.{has_str, Payload}
use smg_secure_microgrid.Session.{
  on_conn, send_error, State, log_error, type_text, Server, NodeSession,
}
use smg_secure_microgrid.Base.{
  ℕ, zero, suc, Bool, true, false, ◌++◌, if◌then◌else◌, Error, connection, timeout, Result, ok, err,
  Text, codes,
}
use smg_secure_microgrid.Base.Exec.{try, lift, pure, Exec, ◌>>=◌, ◌>>◌}

-- What one round of the loop decides: `break`, or the end of the body.
pub data Round : Type 0 where
  break again : Round

pub data Ended : Type 0 where
  left out_of_fuel : Ended

-- A round uses up a byte or an event at least, or it is the last.
abbrev pub enough : {F : Type 0} → NodeSession F → ℕ
enough s = suc (size s.conn.incoming)

module _ (c : Server) where
  unfoldable pub dispatch : Payload → Exec (State c) Round
  unfolding handle_p4 handle_p5
  dispatch msg =
      if has_str (codes "type") (codes "dx_msg") msg
      then (do handle_p4 c msg; pure again)
      else if has_str (codes "type") (codes "logout_req") msg
      then (do handle_p5 c msg; pure break)
      else pure again

  -- `except TimeoutError: break`. No handler raises one.
  unfoldable pub on_received : Result Payload → Exec (State c) Round
  unfolding dispatch
  on_received (ok msg) s = dispatch msg s
  on_received (err timeout) s = (ok break, s)
  on_received (err e) s = (err e, s)

  unfoldable pub loop_round : Exec (State c) Round
  unfolding on_received recv_msg
  loop_round s = let (r, s') = on_conn (recv_msg c.json 65536) s in on_received r s'

  -- `while self._session_active`
  unfoldable pub run_data_loop : ℕ → Exec (State c) Ended
  unfolding loop_round
  run_data_loop zero s = (ok out_of_fuel, s)
  run_data_loop (suc fuel) s =
      let go =
        (do round ← loop_round; elim round [ break ↦ pure left | again ↦ run_data_loop fuel ]) s in
      if s.session_active then go else (ok left, s)

  -- The answer to a first message of another type, and `return`.
  unfoldable pub unexpected : Text → Payload → Exec (State c) (Unit {0})
  unfolding type_text send_error
  unexpected wanted msg = do t ← lift (type_text msg); send_error c (wanted ++ t)

  -- `self._run_data_loop()` after an accepted session
  unfoldable pub serve : Bool → Exec (State c) (Unit {0})
  unfolding run_data_loop
  serve false s = (ok tt, s)
  serve true s = (do run_data_loop (enough s); pure tt) s

  unfoldable pub after_p2 : Bool → Exec (State c) (Unit {0})
  unfolding run_p3 unexpected serve
  after_p2 false = pure tt
  after_p2 true = do
    msg ← on_conn (recv_msg c.json 65536)
    if has_str (codes "type") (codes "ses_init") msg
        then (do accepted ← run_p3 c msg; serve accepted)
        else unexpected (codes "Expected ses_init, got: ") msg

  unfoldable pub run_body : Exec (State c) (Unit {0})
  unfolding run_p2 unexpected after_p2
  run_body = do
    msg ← on_conn (recv_msg c.json 65536)
    if has_str (codes "type") (codes "rot_hello") msg
        then (do proved ← run_p2 c msg; after_p2 proved)
        else unexpected (codes "Expected rot_hello, got: ") msg

  -- `except ConnectionError` and `except Exception`
  unfoldable pub run_failed : Error → Exec (State c) (Unit {0})
  unfolding log_error
  run_failed connection s = (ok tt, s)
  run_failed e s = (ok tt, log_error e s)

  unfoldable pub run : Exec (State c) (Unit {0})
  unfolding run_body run_failed
  run = try run_body run_failed
