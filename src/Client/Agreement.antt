-- ===== src/Client/Agreement.antt =====
-- The client of smg_primary_server/pc_client.py and the session of
-- smg_primary_server/auth_service.py, which share the two libraries.
use smg_secure_microgrid.Base.Dict.{lookup}
use smg_secure_microgrid.Wire.Endian.{unpack-pack}
use smg_secure_microgrid.Wire.Tlv.Laws.{parse_tlv-pack_fields}
use smg_secure_microgrid.Client.Formats.Laws.{make_msg_reg-fields}
use smg_secure_microgrid.Wire.Tlv.{make_reg_reg, parse_tlv}
use smg_secure_microgrid.Client.Formats.{ts_bytes}
use smg_secure_microgrid.Crypto.{gcm_nonce_size, encrypt_gcm, decrypt_gcm}
use smg_secure_microgrid.Session.Exchange.{
  result_message, preg_of, open_message, verify_chain, read_fields, b_reg_of, Message,
}
use smg_secure_microgrid.Client.Exchange.{a_reg, preg, IsSent, message_of, Sent}
use smg_secure_microgrid.Client.{p4_finalize, preg_block, peer_of, SecureNodeClient, World}
use smg_secure_microgrid.Crypto.Gcm.{decrypt_gcm-encrypt_gcm, Aead}
use smg_secure_microgrid.Session.{as_bytes, item, State, Server}
use smg_secure_microgrid.Base.{
  ℕ, ◌+◌, ◌≡◌, refl, sym, ap, ◌∙◌, ◌≢◌, some, List, [], ◌∷◌, ◌++◌, append-nil, length, Error,
  wrong_type, runtime, ok, err, of_option, Bytes, same, same_refl,
}
use smg_secure_microgrid.Base.Post.{continue-ok}

pub ok_inj : (x y : Bytes) → ok x ≡ ok y → x ≡ y
ok_inj x y h = cc

pub pair_inj : {A B : Type 0} {x y : A × B} → ok x ≡ ok y → x ≡ y
pair_inj {A} {B} {x} {y} h = cc

pub err≢ok : {A : Type 0} (e : Error) (x : A) → err e ≢ ok x
err≢ok e x h = cc

module _ (c : Server) (aead : Aead c.library) (urandom : ℕ → ℕ → Bytes) (time : ℕ → ℕ)
    (sizes : (i k : ℕ) → length (urandom i k) ≡ k) where
  abbrev pub world : World
  world = record { library = c.library; urandom = urandom; time = time }

  -- Both hold the same session, key and head of the chain, and the client knows whom it talks to.
  pub record InSync (n : SecureNodeClient) (s : State c) : Type 0 where
    pub same_key : s.ses_key ≡ n.k_ab_enc
    pub same_id : s.ses_id ≡ n.ses_id
    pub same_head : s.prv_bl ≡ n.prv_bl
    pub peer_lem : peer_of n ≡ ok c.server_id

  module _ (j : Bytes) (n : SecureNodeClient) (s : State c) (x : Sent world) where
    -- What the server reads.
    abbrev pub received : Message
    received = record {
      smg_reg = x.smg_reg;
      ts_b = x.ts;
      m_num = n.m_num + 1;
      ts = time n.drawn;
      id_a = n.id;
      preg_bl = preg world x;
      a_reg_bl = a_reg world n x;
    }

    abbrev pub answer : Bytes
    answer = b_reg_of c.library (preg world x) x.ses_key

    module _ (sync : InSync n s) (sent : IsSent world j n x) where
      opens :
          decrypt_gcm c.library (encrypt_gcm c.library x.nonce x.msg_reg x.ses_key) x.ses_key
          ≡ ok x.msg_reg
      opens =
          decrypt_gcm-encrypt_gcm c.library aead x.nonce x.msg_reg x.ses_key
            (rw sent.nonce_lem (sizes (n.drawn + 1) gcm_nonce_size))

      reads :
          (fields : List Bytes) × (of_option runtime (parse_tlv x.msg_reg 6) ≡ ok fields)
          × (read_fields fields ≡ ok received)
      unfolding read_fields ts_bytes
      reads =
          let (m_b, packed, all) =
            make_msg_reg-fields x.smg_reg x.ts (n.m_num + 1) n.id (preg world x) (a_reg world n x)
              sent.msg_lem in
          let fields = x.smg_reg ∷ x.ts ∷ m_b ∷ n.id ∷ preg world x ∷ a_reg world n x ∷ [] in
          let parsed : parse_tlv x.msg_reg 6 ≡ some fields =
            ap (λ r. parse_tlv r 6) (sym (append-nil x.msg_reg))
            ∙ parse_tlv-pack_fields fields [] x.msg_reg all in
          (
            fields,
            ap (of_option runtime) parsed,
            rw
                (
                  read_fields,
                  unpack-pack 4 (n.m_num + 1) packed,
                  unpack-pack 8 (time n.drawn) sent.ts_lem,
                )
                refl,
          )

      fits :
          verify_chain c (record { key = x.ses_key; id = x.ses_id; prv = x.prv }) received
          ≡ ok answer
      unfolding verify_chain preg_of preg_block
      fits =
          let same_peer : x.peer ≡ c.server_id =
            ok_inj x.peer c.server_id (sym sent.peer_lem ∙ sync.peer_lem) in
          let reg : make_reg_reg x.smg_reg x.ts (n.m_num + 1) n.id c.server_id x.ses_id
              ≡ ok x.reg_reg =
            ap (λ p. make_reg_reg x.smg_reg x.ts (n.m_num + 1) n.id p x.ses_id) (sym same_peer)
            ∙ sent.reg_lem in
          rw (verify_chain, reg, same_refl (preg world x)) refl

      pub open_message-message_of :
          open_message c (message_of world n x) s ≡ (ok (received, answer), s)
      unfolding open_message item as_bytes lookup same
      open_message-message_of =
          let (fields, parsed, read) = reads in
          let key = ap (of_option wrong_type) (sync.same_key ∙ sent.key_lem) in
          let id = ap (of_option wrong_type) (sync.same_id ∙ sent.id_lem) in
          let prv = ap (of_option wrong_type) (sync.same_head ∙ sent.prv_lem) in
          continue-ok (of_option wrong_type s.ses_key) s _ key
          ∙ continue-ok (decrypt_gcm c.library _ x.ses_key) s _ opens
          ∙ continue-ok (of_option runtime (parse_tlv x.msg_reg 6)) s _ parsed
          ∙ continue-ok (read_fields fields) s _ read
          ∙ continue-ok (of_option wrong_type s.ses_id) s _ id
          ∙ continue-ok (of_option wrong_type s.prv_bl) s _ prv
          ∙ continue-ok (verify_chain c _ received) s _ fits

  -- The client takes the server's answer, whatever its nonce.
  pub p4_finalize-result_message :
      (n : SecureNodeClient) (key a b nonce : Bytes) (k : ℕ)
      → n.k_ab_enc ≡ some key
      → n.last_a_reg_bl ≡ some a
      → length nonce ≡ gcm_nonce_size
      → p4_finalize world (result_message c nonce b key k) n
        ≡ (ok tt, record n { prv_bl = some (c.library.h_sha256 (a ++ b)) })
  unfolding p4_finalize result_message item as_bytes lookup same
  p4_finalize-result_message n key a b nonce k key_e a_e twelve =
      continue-ok (of_option wrong_type n.k_ab_enc) n _ (ap (of_option wrong_type) key_e)
      ∙ continue-ok (decrypt_gcm c.library _ key) n _
          (decrypt_gcm-encrypt_gcm c.library aead nonce b key twelve)
      ∙ continue-ok (of_option wrong_type n.last_a_reg_bl) n _ (ap (of_option wrong_type) a_e)
