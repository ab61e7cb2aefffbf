-- ===== src/Client/Run.antt =====
-- `run_client` of smg_primary_server/pc_client.py. The measured times, the pauses between messages
-- and the printing are left out; `sensor i` is the JSON of the i-th generated reading.
pub mod Kept
pub mod Summary
pub mod Skips
use smg_secure_microgrid.Session.{item}
use smg_secure_microgrid.Wire.Socket.Size.{size}
use smg_secure_microgrid.Wire.Hex.{hex}
use smg_secure_microgrid.Wire.Frame.{send_msg, recv_msg, Json}
use smg_secure_microgrid.Base.Dict.{Payload, has_str}
use smg_secure_microgrid.Wire.Socket.{close, Conn}
use smg_secure_microgrid.Client.{
  p2_finalize, p1_provision, p5_logout_finalize, p4_finalize, p3_initiator_finalize, str,
  new_client, p5_logout_initiate, p4_send, p3_initiator_prepare, p2_initiator_compute, World,
  SecureNodeClient,
}
use smg_secure_microgrid.Base.{
  ℕ, zero, suc, ◌+◌, Bool, true, false, not, Option, none, some, List, [], ◌∷◌, ◌++◌, ◌==◌,
  if◌then◌else◌, Error, connection, wrong_type, runtime, other, Result, ok, err, guard, of_option,
  Bytes, codes,
}
use smg_secure_microgrid.Base.Exec.{◌>>=◌, ◌>>◌, pure, lift, Exec}

-- Where an entry of `metrics['errors']` comes from: `P2: `, `P3: `, `P4 #i: ` or `P5: `.
pub data Step : Type 0 where
  p2 p3 p5 : Step
  p4 : ℕ → Step

-- The client's object, its socket, and the two counts of `metrics`.
pub record Runner : Type 0 where
  pub node : SecureNodeClient
  pub conn : Conn
  pub p4_count : ℕ
  pub errors : List (Step × Error)

abbrev pub on_node : {A : Type 0} → Exec SecureNodeClient A → Exec Runner A
on_node m r = let (a, n) = m r.node in (a, record r { node = n })

abbrev pub on_sock : {A : Type 0} → Exec Conn A → Exec Runner A
on_sock m r = let (a, c) = m r.conn in (a, record r { conn = c })

abbrev pub change : (Runner → Runner) → Exec Runner (Unit {0})
change f r = (ok tt, f r)

abbrev pub node_of : Exec Runner SecureNodeClient
node_of r = (ok r.node, r)

-- `if resp.get("type") == "error": raise RuntimeError`
unfoldable pub check_error : Payload → Result (Unit {0})
unfolding has_str
check_error resp = guard (not (has_str (codes "type") (codes "error") resp)) runtime

-- `metrics['errors'].append`
unfoldable pub note : Step → Error → Runner → Runner
note step e r = record r { errors = r.errors ++ ((step, e) ∷ []) }

-- `sock.close()`
unfoldable pub hang_up : Runner → Runner
unfolding close
hang_up r = record r { conn = close r.conn }

module _ (w : World) (json : Json) where
  -- `rot_msg`, with the three values in hexadecimal digits already
  unfoldable pub rot_message : Bytes → Bytes → Bytes → Payload
  unfolding hex
  rot_message shs_a gen_a id =
      (codes "type", str (codes "rot_hello"))
      ∷ (codes "ShS_A", str (hex shs_a))
      ∷ (codes "A_GEN_bl", str (hex gen_a))
      ∷ (codes "ID_A", str (hex id))
      ∷ []

  -- The reading of the server's answer, `rot_resp`.
  unfoldable pub take_rot_ack : Bytes → Bytes → Payload → Exec SecureNodeClient (Unit {0})
  unfolding check_error item p2_finalize
  take_rot_ack shs_a gen_a resp = do
    lift (check_error resp)
    shs_b ← lift (item (codes "ShS_B") resp)
    b_gen_bl ← lift (item (codes "B_GEN_bl") resp)
    id_b ← lift (item (codes "ID_B") resp)
    (λ n. (ok tt, record n { peer_id = some id_b }))
    p2_finalize w shs_a shs_b gen_a b_gen_bl

  unfoldable pub phase_2 : Bytes → Exec Runner (Unit {0})
  unfolding p2_initiator_compute rot_message send_msg recv_msg take_rot_ack
  phase_2 node_salt = do
    (shs_a, gen_a) ← on_node (p2_initiator_compute w node_salt)
    n ← node_of
    on_sock (send_msg json (rot_message shs_a gen_a n.id))
    resp ← on_sock (recv_msg json 16384)
    on_node (take_rot_ack shs_a gen_a resp)

  unfoldable pub phase_3 : Exec Runner (Unit {0})
  unfolding p3_initiator_prepare p3_initiator_finalize send_msg recv_msg check_error
  phase_3 = do
    n ← node_of
    peer ← lift (of_option wrong_type n.peer_id)
    ses_msg ← on_node (p3_initiator_prepare w peer)
    on_sock (send_msg json ses_msg)
    ses_resp ← on_sock (recv_msg json 16384)
    lift (check_error ses_resp)
    conf_msg ← on_node (p3_initiator_finalize w ses_resp)
    on_sock (send_msg json conf_msg)
    conf_ack ← on_sock (recv_msg json 16384)
    lift (check_error conf_ack)
    change (λ r. record r { node = record r.node { session_active = true } })

  -- `while dx_resp.get("type") == "setpoint"`, on fuel. It gives `none` without.
  unfoldable pub skip_setpoints : ℕ → Payload → Exec Conn (Option Payload)
  unfolding recv_msg has_str
  skip_setpoints zero resp c = (ok none, c)
  skip_setpoints (suc fuel) resp c =
      let next = (do r ← recv_msg json 16384; skip_setpoints fuel r) c in
      if has_str (codes "type") (codes "setpoint") resp then next else (ok (some resp), c)

  -- A message uses up a byte or an event at least.
  unfoldable pub next_answer : Exec Conn (Option Payload)
  unfolding skip_setpoints recv_msg
  next_answer = do
    resp ← recv_msg json 16384
    fuel ← (λ c. (ok (suc (size c.incoming)), c))
    skip_setpoints fuel resp

  -- The body of the `try` of one round.
  unfoldable pub send_one : Bytes → Exec Runner (Unit {0})
  unfolding p4_send p4_finalize send_msg next_answer check_error
  send_one sensor_json = do
    dx_msg ← on_node (p4_send w sensor_json)
    on_sock (send_msg json dx_msg)
    answer ← on_sock next_answer
    dx_resp ← lift (of_option other answer)
    lift (check_error dx_resp)
    on_node (p4_finalize w dx_resp)
    change (λ r. record r { p4_count = r.p4_count + 1 })

  -- `for i in range(num_sends)`, with the index and the rounds left. A failure breaks.
  unfoldable pub send_all_from : (ℕ → Bytes) → ℕ → ℕ → Runner → Runner
  unfolding send_one note
  send_all_from sensor i zero r = r
  send_all_from sensor i (suc left) r =
      let (done, t) = send_one (sensor i) r in
      elim done [ ok u ↦ send_all_from sensor (i + 1) left t | err e ↦ note (p4 (i + 1)) e t ]

  unfoldable pub phase_5 : Exec Runner (Unit {0})
  unfolding p5_logout_initiate p5_logout_finalize send_msg recv_msg has_str
  phase_5 = do
    logout_msg ← on_node (p5_logout_initiate w)
    on_sock (send_msg json logout_msg)
    logout_resp ← on_sock (recv_msg json 16384)
    if has_str (codes "type") (codes "logout_res") logout_resp
        then on_node (p5_logout_finalize w logout_resp)
        else pure tt

  -- A phase, whose failure is noted. It says whether it returned.
  unfoldable pub attempt : Step → Exec Runner (Unit {0}) → Runner → Bool × Runner
  unfolding note
  attempt step m r =
      let (done, t) = m r in elim done [ ok u ↦ (true, t) | err e ↦ (false, note step e t) ]

  -- What follows P3.
  unfoldable pub exchange_data : (ℕ → Bytes) → ℕ → Runner → Runner
  unfolding send_all_from phase_5 attempt hang_up
  exchange_data sensor num_sends r =
      hang_up (attempt p5 phase_5 (send_all_from sensor 0 num_sends r)).1

  unfoldable pub after_rooting : (ℕ → Bytes) → ℕ → Bool × Runner → Runner
  unfolding phase_3 attempt exchange_data hang_up
  after_rooting sensor num_sends (false, r) = hang_up r
  after_rooting sensor num_sends (true, r) =
      let (established, t) = attempt p3 phase_3 r in
      if established then exchange_data sensor num_sends t else hang_up t

  unfoldable pub start_runner : Bytes → Bytes → Conn → Runner
  unfolding new_client p1_provision
  start_runner node_id node_key conn = record {
    node = p1_provision node_id node_key (new_client node_id node_key);
    conn = conn;
    p4_count = 0;
    errors = [];
  }

  -- The connection is `none` where `connect` raises.
  unfoldable pub run_client : Option Conn → Bytes → Bytes → Bytes → (ℕ → Bytes) → ℕ → Option Runner
  unfolding start_runner phase_2 attempt after_rooting
  run_client none node_id node_key node_salt sensor num_sends = none
  run_client (some conn) node_id node_key node_salt sensor num_sends = some (
      after_rooting sensor num_sends
        (attempt p2 (phase_2 node_salt) (start_runner node_id node_key conn)))
