-- ===== src/Client.antt =====
-- `SecureNodeClient` of smg_primary_server/pc_client.py, the initiator of P2 to P5. The file's copies
-- of the cryptographic helpers and of the framing are those of Crypto and Wire.
pub mod Formats
pub mod Exchange
pub mod Agreement
pub mod Conversation
pub mod Totality
pub mod Logout
pub mod Genesis
pub mod Establish
pub mod Run
pub mod Tests
use smg_secure_microgrid.Wire.Tlv.{make_end_reg, make_reg_reg}
use smg_secure_microgrid.Session.{item, as_bytes}
use smg_secure_microgrid.Crypto.{gcm_nonce_size, decrypt_gcm, encrypt_gcm, hkdf, Library}
use smg_secure_microgrid.Base.Dict.{num, raw, str, Payload, Value}
use smg_secure_microgrid.Base.{
  ℕ, ◌+◌, Bool, false, not, Option, none, some, [], ◌∷◌, ◌++◌, leb, length, set, take, drop,
  wrong_type, runtime, Result, ok, err, guard, of_option, Bytes, codes, same,
}
use smg_secure_microgrid.Base.Exec.{pure, lift, Exec, ◌>>=◌, ◌>>◌}
use smg_secure_microgrid.Client.Formats.{smg_normalize, make_msg_reg, ts_bytes}

-- The client's object, with the number of its draws from `os.urandom` and `time.time` so far.
-- `_peer_id` is set to what the server sent, bytes or not.
pub record SecureNodeClient : Type 0 where
  pub id : Bytes
  pub key : Bytes
  pub peer_id : Option Value
  pub session_active : Bool
  pub m_num : ℕ
  pub r_a : Option Bytes
  pub r_a2 : Option Bytes
  pub k_ab : Option Bytes
  pub k_ab_enc : Option Bytes
  pub ses_id : Option Bytes
  pub shs_ab : Option Bytes
  pub prv_bl : Option Bytes
  pub last_a_reg_bl : Option Bytes
  pub drawn : ℕ

-- The libraries, the random generator and the clock: `urandom i n` and `time i` at the i-th draw.
pub record World : Type 0 where
  pub library : Library
  pub urandom : ℕ → ℕ → Bytes
  pub time : ℕ → ℕ

unfoldable pub new_client : Bytes → Bytes → SecureNodeClient
new_client device_id key = record {
  id = device_id;
  key = key;
  peer_id = none;
  session_active = false;
  m_num = 0;
  r_a = none;
  r_a2 = none;
  k_ab = none;
  k_ab_enc = none;
  ses_id = none;
  shs_ab = none;
  prv_bl = none;
  last_a_reg_bl = none;
  drawn = 0;
}

unfoldable pub p1_provision : Bytes → Bytes → SecureNodeClient → SecureNodeClient
p1_provision device_id key n = record n { id = device_id; key = key }

-- An assignment to fields of `self`.
abbrev pub update : (SecureNodeClient → SecureNodeClient) → Exec SecureNodeClient (Unit {0})
update f n = (ok tt, f n)

-- A field of `self`, whose `None` fails where it is used.
abbrev pub field : (SecureNodeClient → Option Bytes) → Exec SecureNodeClient Bytes
field f n = (of_option wrong_type (f n), n)

-- `self._peer_id` where bytes are needed
abbrev pub peer_of : SecureNodeClient → Result Bytes
peer_of n = elim n.peer_id [ none ↦ err wrong_type | some v ↦ as_bytes v ]

abbrev pub self : Exec SecureNodeClient SecureNodeClient
self n = (ok n, n)

module _ (w : World) where
  -- `os.urandom(size)`
  abbrev pub draw : ℕ → Exec SecureNodeClient Bytes
  draw size n = (ok (w.urandom n.drawn size), record n { drawn = n.drawn + 1 })

  -- `ts_bytes()`
  abbrev pub stamp : Exec SecureNodeClient Bytes
  stamp n = (ts_bytes (w.time n.drawn), record n { drawn = n.drawn + 1 })

  unfoldable pub p2_initiator_compute : Bytes → Exec SecureNodeClient (Bytes × Bytes)
  unfolding hkdf
  p2_initiator_compute salt = do
    r_a ← draw 16
    update (λ n. record n { r_a = some r_a })
    n ← self
    shs_a ← lift (hkdf w.library salt (r_a ++ n.id) [] 32)
    pure (shs_a, w.library.h_sha256 (r_a ++ (codes "GEN" ++ n.id)))

  -- The server's two values come from a message.
  unfoldable pub p2_finalize : Bytes → Value → Bytes → Value → Exec SecureNodeClient (Unit {0})
  unfolding hkdf as_bytes
  p2_finalize shs_a shs_v gen_a gen_v = do
    shs_b ← lift (as_bytes shs_v)
    let shs_ab = w.library.h_sha256 (shs_a ++ shs_b)
    update (λ n. record n { shs_ab = some shs_ab })
    gen_b ← lift (as_bytes gen_v)
    update (λ n. record n { prv_bl = some (w.library.h_sha256 (gen_a ++ gen_b)) })
    r_a ← field (λ n. n.r_a)
    n ← self
    peer ← lift (peer_of n)
    k_ab ← lift (hkdf w.library shs_ab (r_a ++ peer) [] 32)
    update (λ n. record n { k_ab = some k_ab })

  -- `INIT_reg`
  unfoldable pub init_reg : Bytes → Bytes → Bytes → Bytes → Bytes → Bytes
  init_reg r_a2 ts id peer shs_ab = r_a2 ++ (ts ++ (id ++ (peer ++ shs_ab)))

  unfoldable pub p3_initiator_prepare : Value → Exec SecureNodeClient Payload
  unfolding init_reg encrypt_gcm as_bytes
  p3_initiator_prepare peer_v = do
    r_a2 ← draw 16
    update (λ n. record n { r_a2 = some r_a2 })
    ts ← stamp
    n ← self
    peer ← lift (as_bytes peer_v)
    shs_ab ← field (λ n. n.shs_ab)
    prv ← field (λ n. n.prv_bl)
    let a_init_bl = w.library.h_sha256 (init_reg r_a2 ts n.id peer shs_ab)
    let preinit_bl = w.library.h_sha256 (prv ++ a_init_bl)
    nonce ← draw gcm_nonce_size
    let init_cif = encrypt_gcm w.library nonce (preinit_bl ++ (r_a2 ++ ts)) shs_ab
    pure (
        (codes "type", str (codes "ses_init"))
        ∷ (codes "INIT_cif", raw init_cif)
        ∷ (codes "ID_A", raw n.id)
        ∷ [])

  unfoldable pub p3_initiator_finalize : Payload → Exec SecureNodeClient Payload
  unfolding encrypt_gcm decrypt_gcm item as_bytes
  p3_initiator_finalize ses_resp = do
    ses_v ← lift (item (codes "SES_cif") ses_resp)
    shs_ab ← field (λ n. n.shs_ab)
    ses_cif ← lift (as_bytes ses_v)
    pt ← lift (decrypt_gcm w.library ses_cif shs_ab)
    let ses_id = take 16 pt
    update (λ n. record n { ses_id = some ses_id })
    let rdn2 = take 16 (drop 16 pt)
    r_a2 ← field (λ n. n.r_a2)
    lift (guard (same (take 16 (drop 32 pt)) r_a2) runtime)
    let k_ab_enc = w.library.h_sha256 (rdn2 ++ shs_ab)
    update (λ n. record n { k_ab_enc = some k_ab_enc })
    let conf_tag = w.library.h_sha256 (k_ab_enc ++ (ses_id ++ (r_a2 ++ rdn2)))
    nonce ← draw gcm_nonce_size
    let conf_cif = encrypt_gcm w.library nonce conf_tag k_ab_enc
    prv ← field (λ n. n.prv_bl)
    let preinit_bl = take 32 (drop 48 pt)
    update (λ n. record n { prv_bl = some (w.library.h_sha256 (prv ++ (ses_id ++ preinit_bl))) })
    n ← self
    pure (
        (codes "type", str (codes "ses_conf"))
        ∷ (codes "CONF_cif", raw conf_cif)
        ∷ (codes "ID_A", raw n.id)
        ∷ [])

  -- `PREG_bl` and `A_REG_bl`
  unfoldable pub preg_block : Bytes → Bytes → Bytes
  preg_block prv reg_reg = w.library.h_sha256 (prv ++ w.library.h_sha256 reg_reg)

  unfoldable pub a_reg_block : Bytes → Bytes → Bytes
  a_reg_block preg_bl key = w.library.h_sha256 (preg_bl ++ key)

  unfoldable pub p4_send : Bytes → Exec SecureNodeClient Payload
  unfolding smg_normalize make_reg_reg make_msg_reg preg_block a_reg_block encrypt_gcm
  p4_send sensor_json = do
    update (λ n. record n { m_num = n.m_num + 1 })
    ts ← stamp
    smg_reg ← lift (smg_normalize sensor_json)
    n ← self
    peer ← lift (peer_of n)
    ses_id ← field (λ n. n.ses_id)
    reg_reg ← lift (make_reg_reg smg_reg ts n.m_num n.id peer ses_id)
    prv ← field (λ n. n.prv_bl)
    let preg_bl = preg_block prv reg_reg
    let a_reg_bl = a_reg_block preg_bl n.key
    update (λ n. record n { last_a_reg_bl = some a_reg_bl })
    msg_reg ← lift (make_msg_reg smg_reg ts n.m_num n.id preg_bl a_reg_bl)
    k_ab_enc ← field (λ n. n.k_ab_enc)
    nonce ← draw gcm_nonce_size
    let msg_cif = encrypt_gcm w.library nonce msg_reg k_ab_enc
    pure (
        (codes "type", str (codes "dx_msg"))
        ∷ (codes "MSG_cif", raw msg_cif)
        ∷ (codes "ID_A", raw n.id)
        ∷ (codes "M_num", num n.m_num)
        ∷ [])

  unfoldable pub p4_finalize : Payload → Exec SecureNodeClient (Unit {0})
  unfolding decrypt_gcm item as_bytes
  p4_finalize res = do
    res_v ← lift (item (codes "RES_cif") res)
    k_ab_enc ← field (λ n. n.k_ab_enc)
    res_cif ← lift (as_bytes res_v)
    b_reg_bl ← lift (decrypt_gcm w.library res_cif k_ab_enc)
    a_reg_bl ← field (λ n. n.last_a_reg_bl)
    update (λ n. record n { prv_bl = some (w.library.h_sha256 (a_reg_bl ++ b_reg_bl)) })

  unfoldable pub p5_logout_initiate : Exec SecureNodeClient Payload
  unfolding make_end_reg encrypt_gcm
  p5_logout_initiate = do
    ts ← stamp
    ses_id ← field (λ n. n.ses_id)
    n ← self
    peer ← lift (peer_of n)
    end_reg ← lift (make_end_reg ts ses_id n.id peer)
    k_ab_enc ← field (λ n. n.k_ab_enc)
    nonce ← draw gcm_nonce_size
    let a_end_cif = encrypt_gcm w.library nonce end_reg k_ab_enc
    update (λ n. record n { session_active = false })
    pure (
        (codes "type", str (codes "logout_req"))
        ∷ (codes "A_END_cif", raw a_end_cif)
        ∷ (codes "ID_A", raw n.id)
        ∷ [])

  unfoldable pub p5_logout_finalize : Payload → Exec SecureNodeClient (Unit {0})
  unfolding decrypt_gcm item as_bytes
  p5_logout_finalize res = do
    end_v ← lift (item (codes "B_END_cif") res)
    k_ab_enc ← field (λ n. n.k_ab_enc)
    b_end_cif ← lift (as_bytes end_v)
    pt ← lift (decrypt_gcm w.library b_end_cif k_ab_enc)
    lift (guard (leb 4 (length pt)) runtime)
