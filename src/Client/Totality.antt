-- ===== src/Client/Totality.antt =====
-- When `p4_send` of smg_primary_server/pc_client.py returns, and that the session then takes the message.
use smg_secure_microgrid.Client.Conversation.{talk}
use smg_secure_microgrid.Client.{peer_of, SecureNodeClient, World}
use smg_secure_microgrid.Crypto.{digest_size}
use smg_secure_microgrid.Crypto.Gcm.{Aead}
use smg_secure_microgrid.Session.{Server}
use smg_secure_microgrid.Base.{ℕ, ◌+◌, ◌^◌, ◌<◌, ◌≡◌, some, length, ok, Bytes}

module _ (c : Server) (aead : Aead c.library) (urandom : ℕ → ℕ → Bytes) (time : ℕ → ℕ)
    (sizes : (i k : ℕ) → length (urandom i k) ≡ k)
    (digest : (m : Bytes) → length (c.library.h_sha256 m) ≡ digest_size) where
  abbrev w : World
  w = talk c aead urandom time sizes

  -- A client with a session, and with numbers and identifiers that fit their fields.
  pub record CanSend (n : SecureNodeClient) : Type 0 where
    pub key : Bytes
    pub id : Bytes
    pub prv : Bytes
    pub peer : Bytes
    pub key_lem : n.k_ab_enc ≡ some key
    pub id_lem : n.ses_id ≡ some id
    pub prv_lem : n.prv_bl ≡ some prv
    pub peer_lem : peer_of n ≡ ok peer
    pub id_size : length id < 2 ^ 16
    pub own_size : length n.id < 2 ^ 16
    pub peer_size : length peer < 2 ^ 16
    pub m_num_size : n.m_num + 1 < 256 ^ 4
    pub time_size : time n.drawn < 256 ^ 8
