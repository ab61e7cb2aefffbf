-- ===== src/Rot/Run.antt =====
-- `_data_loop` and `run` of smg_primary_server/rot_challenge_service.py, and `handle_client` of
-- smg_primary_server/puf_server.py.
pub mod Loop
pub mod Safe
use smg_secure_microgrid.Base.{
  ℕ, zero, suc, Bool, true, false, Option, none, some, [], ◌∷◌, ◌++◌, if◌then◌else◌, connection,
  timeout, io, protocol, wrong_type, Result, ok, err, Bytes, codes,
}
use smg_secure_microgrid.Base.Dict.{Payload, str, has_str}
use smg_secure_microgrid.Base.Exec.{Exec, continue, ◌>>=◌, ◌>>◌, pure, raise, lift}
use smg_secure_microgrid.Wire.Socket.{Conn, close}
use smg_secure_microgrid.Wire.Socket.Size.{size}
use smg_secure_microgrid.Wire.Frame.{Loaded, as_dict, recv_json}
use smg_secure_microgrid.Rot.{RotSession, Setting, on_conn, send_error, handshake}
use smg_secure_microgrid.Rot.Data.{decrypt_data_message}

-- What one round of the loop decides: `return`, or `continue` and the end of the body.
pub data Round : Type 0 where
  stop again : Round

pub data Ended : Type 0 where
  returned out_of_fuel : Ended

-- A round uses up a byte or an event at least, or it is the last.
abbrev pub enough : RotSession → ℕ
enough s = suc (size s.conn.incoming)

-- `except (ConnectionError, ProtocolError)` and `except OSError`: `return self.authenticated`.
unfoldable pub rescue : Result Bool → Exec RotSession Bool
rescue (ok b) s = (ok b, s)
rescue (err connection) s = (ok s.authenticated, s)
rescue (err protocol) s = (ok s.authenticated, s)
rescue (err timeout) s = (ok s.authenticated, s)
rescue (err io) s = (ok s.authenticated, s)
rescue (err e) s = (err e, s)

module _ (c : Setting) where
  -- `decrypt_data_message(msg, self.key_ab)`, with the `TypeError` of a missing key
  unfoldable pub decrypt_with : Option Bytes → Payload → Result Bytes
  unfolding decrypt_data_message
  decrypt_with none msg = err wrong_type
  decrypt_with (some key) msg = decrypt_data_message c.primitives msg key

  -- `except Exception` answers with an error and goes on; a payload is logged.
  unfoldable pub take_payload : Result Bytes → Exec RotSession Round
  unfolding send_error
  take_payload (ok plaintext) s = (ok again, record s { log = s.log ++ (plaintext ∷ []) })
  take_payload (err e) s = (do send_error c (codes "GCM verification failed"); pure again) s

  unfoldable pub on_message : Payload → Exec RotSession Round
  unfolding decrypt_with take_payload
  on_message msg s =
      if has_str (codes "type") (codes "data") msg
      then take_payload (decrypt_with s.key_ab msg) s
      else (ok again, s)

  -- `except (ConnectionError, socket.timeout, TimeoutError): return`
  unfoldable pub after_recv : Result Loaded → Exec RotSession Round
  unfolding on_message
  after_recv (ok loaded) s = (do msg ← lift (as_dict loaded); on_message msg) s
  after_recv (err connection) s = (ok stop, s)
  after_recv (err timeout) s = (ok stop, s)
  after_recv (err e) s = (err e, s)

  -- One round of `while True`.
  unfoldable pub data_round : Exec RotSession Round
  unfolding after_recv
  data_round s = let (r, s') = on_conn (recv_json c.json) s in after_recv r s'

  unfoldable pub data_loop : ℕ → Exec RotSession Ended
  unfolding data_round
  data_loop zero s = (ok out_of_fuel, s)
  data_loop (suc fuel) s =
      (do round ← data_round; elim round [ stop ↦ pure returned | again ↦ data_loop fuel ]) s

  -- `self._data_loop()` and `return True`
  unfoldable pub serve_data : Exec RotSession Bool
  serve_data s = (do data_loop (enough s); pure true) s

  unfoldable pub run : Exec RotSession Bool
  run s =
      let (r, s') = (do accepted ← handshake c; if accepted then serve_data else pure false) s in
      rescue r s'

  -- `handle_client`: the connection is closed in any case.
  unfoldable pub handle_client : Exec RotSession Bool
  handle_client s = let (r, s') = run s in (r, record s' { conn = close s'.conn })
