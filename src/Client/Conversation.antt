-- ===== src/Client/Conversation.antt =====
-- A conversation of smg_primary_server/pc_client.py with smg_primary_server/auth_service.py: data
-- messages, each followed by its answer.
use smg_secure_microgrid.Session.Trust.{handle_p4-Outcome, Accepted}
use smg_secure_microgrid.Session.Untouched.{handle_p4-Untouched, Untouched}
use smg_secure_microgrid.Crypto.{gcm_nonce_size}
use smg_secure_microgrid.Client.Exchange.{
  a_reg, after_send, p4_send-Sends, Sends, message_of, IsSent, Sent,
}
use smg_secure_microgrid.Session.Exchange.{
  result_message, handle_p4, open_message, Message, reg_of, advance,
}
use smg_secure_microgrid.Base.Dict.{Payload}
use smg_secure_microgrid.Client.{p4_finalize, p4_send, SecureNodeClient, World}
use smg_secure_microgrid.Crypto.Gcm.{Aead}
use smg_secure_microgrid.Session.{ChainEntry, State, Server}
use smg_secure_microgrid.Base.{
  ℕ, ◌+◌, ◌≡◌, refl, sym, ap, ◌∙◌, subst, inl, inr, some, [], ◌∷◌, ◌++◌, arith, length,
  length-append, ok, Bytes,
}
use smg_secure_microgrid.Client.Agreement.{
  p4_finalize-result_message, open_message-message_of, world, InSync, pair_inj, err≢ok, received,
  answer,
}

module _ (c : Server) (aead : Aead c.library) (urandom : ℕ → ℕ → Bytes) (time : ℕ → ℕ)
    (sizes : (i k : ℕ) → length (urandom i k) ≡ k) where
  abbrev pub talk : World
  talk = world c aead urandom time sizes

  abbrev pub Synced : SecureNodeClient → State c → Type 0
  Synced = InSync c aead urandom time sizes

  -- What `send_result` answers to a message that `open_message` took.
  pub record IsReply (m : Payload) (s : State c) (p : Payload) : Type 0 where
    pub message : Message
    pub b_reg_bl : Bytes
    pub key : Bytes
    pub nonce : Bytes
    pub opened : (open_message c m s).0 ≡ ok (message, b_reg_bl)
    pub key_lem : s.ses_key ≡ some key
    pub nonce_lem : length nonce ≡ gcm_nonce_size
    pub reply_lem : p ≡ result_message c nonce b_reg_bl key message.m_num

  some_inj : (x y : Bytes) → some x ≡ some y → x ≡ y
  some_inj x y h = cc

  -- A reply to an honest message.
  reply_of :
      (j : Bytes) (n : SecureNodeClient) (s : State c) (x : Sent talk)
      → Synced n s
      → IsSent talk j n x
      → (p : Payload) (reply : IsReply (message_of talk n x) s p)
      → p
        ≡ result_message c reply.nonce
            (answer c aead urandom time sizes j n s x)
            x.ses_key
            (n.m_num + 1)
  reply_of j n s x sync sent p reply =
      let mine = open_message-message_of c aead urandom time sizes j n s x sync sent in
      let same : (
        received c aead urandom time sizes j n s x,
        answer c aead urandom time sizes j n s x,
      )
          ≡ (reply.message, reply.b_reg_bl) =
        pair_inj (sym (ap (λ r. r.0) mine) ∙ reply.opened) in
      let key : reply.key ≡ x.ses_key =
        some_inj reply.key x.ses_key (sym reply.key_lem ∙ sync.same_key ∙ sent.key_lem) in
      reply.reply_lem
      ∙ ap (λ k. result_message c reply.nonce reply.b_reg_bl k reply.message.m_num) key
      ∙ ap (λ q. result_message c reply.nonce q.1 x.ses_key q.0.m_num) (sym same)

  -- The session took the message: it has one entry more, and its answer brings the client, whose
  -- fields are the ones after the send, back in step.
  pub record Agreed (m : Payload) (n1 : SecureNodeClient) (s t : State c) : Type 0 where
    pub entry : ChainEntry
    pub chain_lem : t.chain ≡ s.chain ++ (entry ∷ [])
    pub index_lem : entry.index ≡ length s.chain + 1
    pub m_num_lem : entry.m_num ≡ n1.m_num
    pub finalize_lem :
        (p : Payload)
        → IsReply m s p
        → let n2 = record n1 { prv_bl = some entry.reg_bl } in
          (p4_finalize talk p n1 ≡ (ok tt, n2)) × Synced n2 t

  Accepted-Agreed :
      (j : Bytes) (n : SecureNodeClient) (s t : State c) (x : Sent talk)
      → Synced n s
      → IsSent talk j n x
      → Untouched s t
      → Accepted c (message_of talk n x) s t
      → Agreed (message_of talk n x) (after_send talk n x) s t
  unfolding advance reg_of
  Accepted-Agreed j n s t x sync sent (incoming, key_e, id_e)
        (m, b, opened, verified, chain, head) =
      let mine = open_message-message_of c aead urandom time sizes j n s x sync sent in
      let same : (
        received c aead urandom time sizes j n s x,
        answer c aead urandom time sizes j n s x,
      )
          ≡ (m, b) =
        pair_inj (sym (ap (λ r. r.0) mine) ∙ opened) in
      let n1 = after_send talk n x in
      let reg_bl =
        c.library.h_sha256 (a_reg talk n x ++ answer c aead urandom time sizes j n s x) in
      let head' : t.prv_bl ≡ some reg_bl =
        subst (λ p. t.prv_bl ≡ some (reg_of c.library p.0.a_reg_bl p.1)) (sym same) head in
      record {
        entry = record {
          index = length s.chain + 1;
          m_num = n.m_num + 1;
          ts = time n.drawn;
          reg_bl = reg_bl;
          node = s.node_label;
        };
        chain_lem = subst (λ p. t.chain ≡ (advance c p.0 p.1 s).chain) (sym same) chain;
        index_lem = refl;
        m_num_lem = refl;
        finalize_lem = λ p reply. (
          subst (λ q. p4_finalize talk q n1 ≡ (ok tt, record n1 { prv_bl = some reg_bl }))
              (sym (reply_of j n s x sync sent p reply))
              (p4_finalize-result_message c aead urandom time sizes n1 x.ses_key (a_reg talk n x)
                (answer c aead urandom time sizes j n s x) reply.nonce (n.m_num + 1) sent.key_lem
                refl reply.nonce_lem),
          record {
            same_key = key_e ∙ sync.same_key;
            same_id = id_e ∙ sync.same_id;
            same_head = head';
            peer_lem = sync.peer_lem;
          },
        );
      }

  -- A client that is in step with the session and whose `p4_send` returns is understood: the
  -- session's handler accepts the message, adds an entry under the client's number, and the client
  -- that takes the answer is in step with the session again.
  pub p4_send-Agreed :
      (j : Bytes) (n : SecureNodeClient) (s : State c) (m : Payload)
      → Synced n s
      → (p4_send talk j n).0 ≡ ok m
      → Agreed m (p4_send talk j n).1 s (handle_p4 c m s).1
  p4_send-Agreed j n s m sync h =
      let (x, sent, message, after) =
        subst (λ r. Sends talk j n r (p4_send talk j n).1) h (p4_send-Sends talk j n) in
      let t = (handle_p4 c m s).1 in
      let untouched = handle_p4-Untouched c s m s (refl, refl, refl) in
      let took : Accepted c (message_of talk n x) s t =
        subst (λ p. Accepted c p s t) message
          (elim (handle_p4-Outcome c m s).0 [
            | inl a ↦ a
            | inr (e, opened, kept, head, over) ↦ absurd (
                err≢ok e
                  (
                    received c aead urandom time sizes j n s x,
                    answer c aead urandom time sizes j n s x,
                  )
                  (sym opened
                    ∙ ap (λ p. (open_message c p s).0) message
                    ∙ ap (λ r. r.0)
                        (open_message-message_of c aead urandom time sizes j n s x sync sent)))
          ]) in
      subst (λ u. Agreed m u s t) (sym after)
        (subst (λ p. Agreed p (after_send talk n x) s t) (sym message)
          (Accepted-Agreed j n s t x sync sent untouched took))

  -- A conversation of so many rounds: the client sends, the handler takes the message, and the
  -- client takes the answer.
  pub data Talk (n0 : SecureNodeClient) (s0 : State c)
      : ℕ → SecureNodeClient → State c → Type 0 where
    start : Talk n0 s0 0 n0 s0
    next_round :
        (k : ℕ) (n : SecureNodeClient) (s : State c) (j : Bytes) (m p : Payload)
        → Talk n0 s0 k n s
        → (p4_send talk j n).0 ≡ ok m
        → IsReply m s p
        → Talk n0 s0 (k + 1) (p4_finalize talk p (p4_send talk j n).1).1 (handle_p4 c m s).1

  -- Both sides after so many rounds.
  abbrev pub InStep : SecureNodeClient → State c → ℕ → SecureNodeClient → State c → Type 0
  InStep n0 s0 k n s =
      Synced n s × (n.m_num ≡ n0.m_num + k) × (length s.chain ≡ length s0.chain + k)

  -- In a conversation that starts in step, of any number of rounds, both sides stay in step: the
  -- session, the key and the head of the chain are the same on both, the client has counted the
  -- rounds, and the chain has one entry more for each. A round is a `p4_send` that returned and a
  -- reply as `send_result` writes it under a 12-byte nonce; AES-GCM obeys `Aead`, and the client's
  -- `os.urandom` returns as many bytes as it is asked for.
  pub talk_invariant :
      (n0 : SecureNodeClient) (s0 : State c) (k : ℕ) (n : SecureNodeClient) (s : State c)
      → Synced n0 s0
      → Talk n0 s0 k n s
      → InStep n0 s0 k n s
  talk_invariant n0 s0 k n s sync start = (sync, omega arith, omega arith)
  talk_invariant n0 s0 k n s sync (next_round k' n' s' j m p before sent reply) =
      let (sync', count, entries) = talk_invariant n0 s0 k' n' s' sync before in
      let (x, is_sent, message, after) =
        subst (λ r. Sends talk j n' r (p4_send talk j n').1) sent (p4_send-Sends talk j n') in
      let agreed = p4_send-Agreed j n' s' m sync' sent in
      let (took, sync'') = agreed.finalize_lem p reply in
      subst (λ u. InStep n0 s0 (k' + 1) u (handle_p4 c m s').1) (sym (ap (λ r. r.1) took))
        (
          sync'',
          ap (λ u. u.m_num) after ∙ omega (arith, count),
          ap length agreed.chain_lem
              ∙ length-append s'.chain (agreed.entry ∷ [])
              ∙ omega (arith, entries),
        )
