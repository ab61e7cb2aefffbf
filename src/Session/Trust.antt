-- ===== src/Session/Trust.antt =====
-- The trust score and the chain of a `NodeSession` across `_handle_p4` of
-- smg_primary_server/auth_service.py.
use smg_secure_microgrid.Session.Verified.{Opened, open_message-Opened, Verified}
use smg_secure_microgrid.Numbers.{number, text}
use smg_secure_microgrid.DataStore.{get_median_v_bus}
use smg_secure_microgrid.Base.Dict.{insert, Payload}
use smg_secure_microgrid.Base.Post.{Keeps, try-Keeps, continue_post, try_post}
use smg_secure_microgrid.Session.{ChainEntry, security_error, sensor_anomaly, sensor_ok}
use smg_secure_microgrid.Session.Exchange.{
  p4_body, reg_of, handle_p4, judge, parse_reading, advance, accept_message, open_message, Message,
  store_reading, send_setpoint, send_result, take_reading, apply_event, p4_failed, finish_p4,
}
use smg_secure_microgrid.Session.{
  send_error, log_error, drop_connection, anomaly_window, State, trust_drop_threshold, TrustEvent,
  lose_trust, Server, NodeSession, update_trust,
}
use smg_secure_microgrid.Base.{
  ◌+◌, ◌-◌, ◌≤◌, ◌<◌, ◌≡◌, refl, sym, subst, ◌⊎◌, inl, inr, false, Option, none, some, [], ◌∷◌,
  ◌++◌, arith, ltb, leb, Bool-cases, Option-cases, length, Error, wrong_type, Result, ok, err,
  of_option, Bytes, codes,
}
use smg_secure_microgrid.Base.Exec.{pure}

module _ {F : Type 0} where
  -- One event never raises the trust, lowers it by 40 hundredths at most, and it leaves fewer than
  -- five anomalies in a row counted when there were fewer before.
  pub update_trust_bounds :
      (event : TrustEvent) (s : NodeSession F)
      → s.consecutive_anomalies < anomaly_window
      → ((update_trust event s).trust_score ≤ s.trust_score)
        × (s.trust_score ≤ (update_trust event s).trust_score + 40)
        × ((update_trust event s).consecutive_anomalies < anomaly_window)
  unfolding update_trust lose_trust
  update_trust_bounds security_error s h = (omega arith, omega arith, h)
  update_trust_bounds sensor_ok s h = (omega arith, omega arith, omega arith)
  update_trust_bounds sensor_anomaly s h =
      elim (Bool-cases (leb anomaly_window (s.consecutive_anomalies + 1))) [
        | inl e ↦ rw e (omega arith, omega arith, omega arith)
        | inr e ↦ rw e (omega arith, omega arith, ground arith)
      ]

  update_trust_le :
      (event : TrustEvent) (s : NodeSession F) → (update_trust event s).trust_score ≤ s.trust_score
  unfolding update_trust lose_trust
  update_trust_le security_error s = omega arith
  update_trust_le sensor_ok s = omega arith
  update_trust_le sensor_anomaly s =
      elim (Bool-cases (leb anomaly_window (s.consecutive_anomalies + 1))) [
        | inl e ↦ rw e (omega arith)
        | inr e ↦ rw e (omega arith)
      ]

  -- The chain and its head stay, and the trust does not rise.
  abbrev pub Same : NodeSession F → NodeSession F → Type 0
  Same s t = (t.chain ≡ s.chain) × (t.prv_bl ≡ s.prv_bl) × (t.trust_score ≤ s.trust_score)

  update_trust-Same :
      (s : NodeSession F) (event : TrustEvent) (t : NodeSession F)
      → Same s t
      → Same s (update_trust event t)
  unfolding update_trust lose_trust
  update_trust-Same s security_error t (c, p, l) = (c, p, omega arith)
  update_trust-Same s sensor_ok t (c, p, l) = (c, p, l)
  update_trust-Same s sensor_anomaly t (c, p, l) =
      elim (Bool-cases (leb anomaly_window (t.consecutive_anomalies + 1))) [
        | inl e ↦ rw e (c, p, omega arith)
        | inr e ↦ rw e (c, p, l)
      ]

  apply_event-Same :
      (s : NodeSession F) (event : Option TrustEvent) (t : NodeSession F)
      → Same s t
      → Same s (apply_event event t)
  apply_event-Same s none t h = h
  apply_event-Same s (some event) t h = update_trust-Same s event t h

-- Low trust has ended the session.
abbrev pub Isolated : {F : Type 0} → NodeSession F → Type 0
Isolated s = s.trust_score < trust_drop_threshold → s.session_active ≡ false

module _ (c : Server) (s : State c) where
  abbrev Post : Result (Unit {0}) → State c → Type 0
  Post r t = Same s t

  store_reading-Same : (m : Message) → Keeps (Same s) (store_reading c m)
  unfolding store_reading
  store_reading-Same m t h =
      continue_post Post (parse_reading c m.smg_reg) t _ (λ e _. h)
        λ parsed _.
          continue_post Post (get_median_v_bus c.arith_ops t.node_label t.data_store) t _ (λ e _. h)
            λ median _.
              let named = insert (codes "node") (text t.node_label) parsed in
              let reading = insert (codes "M_num") (number (c.arith_ops.of_nat m.m_num)) named in
              continue_post Post (judge c.arith_ops median reading) t _ (λ e _. h)
                λ event _. apply_event-Same s event t h

  take_reading-Same : (m : Message) → Keeps (Same s) (take_reading c m)
  unfolding take_reading
  take_reading-Same m =
      try-Keeps (Same s) (store_reading c m) (λ e. pure tt) (store_reading-Same m) (λ e t h. h)

  send_result-Same : (m : Message) (b : Bytes) → Keeps (Same s) (send_result c m b)
  unfolding send_result
  send_result-Same m b t h =
      continue_post Post (of_option wrong_type t.ses_key) t _ (λ e _. h) λ key _. h

  send_setpoint-Same : Keeps (Same s) (send_setpoint c)
  unfolding send_setpoint
  send_setpoint-Same t h = elim (Option-cases (c.get_setpoint t.node_label)) [
    | inl e ↦ rw (send_setpoint, e) h
    | inr (x, e) ↦ rw (send_setpoint, e) h
  ]

  finish_p4-Same : (t : State c) → Same s t → Same s (finish_p4 c t)
  unfolding finish_p4 drop_connection
  finish_p4-Same t h = elim (Bool-cases (ltb t.trust_score trust_drop_threshold)) [
    | inl e ↦ rw e h
    | inr e ↦ rw e h
  ]

  p4_failed-Same : (e : Error) → Keeps (Same s) (p4_failed c e)
  unfolding p4_failed log_error send_error drop_connection
  p4_failed-Same e t h =
      let (chain, prv, less) = update_trust-Same s security_error t h in
      elim (Bool-cases (ltb (update_trust security_error t).trust_score trust_drop_threshold)) [
        | inl low ↦ rw low (chain, prv, less)
        | inr high ↦ rw high (chain, prv, less)
      ]

module _ (c : Server) where
  finish_p4-Isolated : (t : State c) → Isolated (finish_p4 c t)
  unfolding finish_p4 drop_connection
  finish_p4-Isolated t = elim (Bool-cases (ltb t.trust_score trust_drop_threshold)) [
    | inl e ↦ rw e (λ _. refl)
    | inr e ↦ rw e (λ low. absurd (ground arith))
  ]

  -- A failed message ends the session in any case.
  p4_failed-inactive : (e : Error) (t : State c) → (p4_failed c e t).1.session_active ≡ false
  unfolding p4_failed log_error send_error drop_connection
  p4_failed-inactive e t = elim (Bool-cases (ltb (t.trust_score - 30) trust_drop_threshold)) [
    | inl low ↦ rw low refl
    | inr high ↦ rw high refl
  ]

  accept_message-Same :
      (s : State c) (m : Message) (b : Bytes) → Same (advance c m b s) (accept_message c m b s).1
  unfolding accept_message
  accept_message-Same s m b =
      let s1 = advance c m b s in
      let s2 = (take_reading c m s1).1 in
      let s3 = (send_result c m b s2).1 in
      let h2 : Same s1 s2 = take_reading-Same c s1 m s1 (refl, refl, omega arith) in
      let h3 : Same s1 s3 = send_result-Same c s1 m b s2 h2 in
      let h4 : Same s1 (send_setpoint c s3).1 = send_setpoint-Same c s1 s3 h3 in
      continue_post (Post c s1) (take_reading c m s1).0 s2 _ (λ _ _. h2)
        λ _ _.
          continue_post (Post c s1) (send_result c m b s2).0 s3 _ (λ _ _. h3)
            λ _ _.
              continue_post (Post c s1) (send_setpoint c s3).0 (send_setpoint c s3).1 _ (λ _ _. h4)
                λ _ _. finish_p4-Same c s1 (send_setpoint c s3).1 h4

  -- `ok` is reached through the last step only.
  abbrev Settled : Result (Unit {0}) → State c → Type 0
  Settled (ok u) t = Isolated t
  Settled (err e) t = Unit

  accept_message-Isolated :
      (s : State c) (m : Message) (b : Bytes)
      → Settled (accept_message c m b s).0 (accept_message c m b s).1
  unfolding accept_message
  accept_message-Isolated s m b =
      let s1 = advance c m b s in
      continue_post Settled (take_reading c m s1).0 (take_reading c m s1).1 _ (λ e _. tt)
        λ _ _.
          let s2 = (take_reading c m s1).1 in
          continue_post Settled (send_result c m b s2).0 (send_result c m b s2).1 _ (λ e _. tt)
            λ _ _.
              let s3 = (send_result c m b s2).1 in
              continue_post Settled (send_setpoint c s3).0 (send_setpoint c s3).1 _ (λ e _. tt)
                λ _ _. finish_p4-Isolated (send_setpoint c s3).1

  -- The entry of a message that a session takes.
  abbrev pub entry_of : Message → Bytes → State c → ChainEntry
  entry_of m b s = record {
    index = length s.chain + 1;
    m_num = m.m_num;
    ts = m.ts;
    reg_bl = c.library.h_sha256 (m.a_reg_bl ++ b);
    node = s.node_label;
  }

  -- How a message ends: verified and in the chain, or refused.
  abbrev pub Accepted : Payload → State c → State c → Type 0
  Accepted msg s t =
      (m : Message) × (b : Bytes) × ((open_message c msg s).0 ≡ ok (m, b))
      × Verified c s m b
      × (t.chain ≡ s.chain ++ (entry_of m b s ∷ []))
      × (t.prv_bl ≡ some (entry_of m b s).reg_bl)

  abbrev pub Refused : Payload → State c → State c → Type 0
  Refused msg s t =
      (e : Error) × ((open_message c msg s).0 ≡ err e)
      × (t.chain ≡ s.chain)
      × (t.prv_bl ≡ s.prv_bl)
      × (t.session_active ≡ false)

  -- The body of the handler before a failure is handled.
  abbrev Ran : Payload → State c → Result (Unit {0}) → State c → Type 0
  Ran msg s r t =
      ((m : Message) × (b : Bytes) × ((open_message c msg s).0 ≡ ok (m, b))
        × Verified c s m b
        × Same (advance c m b s) t
        × Settled r t)
      ⊎ ((e : Error) × ((open_message c msg s).0 ≡ err e) × (r ≡ err e) × (t ≡ s))

  p4_body-Ran : (msg : Payload) (s : State c) → Ran msg s (p4_body c msg s).0 (p4_body c msg s).1
  unfolding p4_body
  p4_body-Ran msg s =
      let out = open_message c msg s in
      let opened = open_message-Opened c msg s in
      continue_post (Ran msg s) out.0 out.1 _
        (λ e eq. inr (e, eq, refl, subst (λ r. Opened c s r out.1) eq opened))
        λ p eq.
          let (same_state, verified) = subst (λ r. Opened c s r out.1) eq opened in
          subst (λ u. Ran msg s (accept_message c p.0 p.1 u).0 (accept_message c p.0 p.1 u).1)
            (sym same_state)
            (inl (
              p.0,
              p.1,
              eq,
              verified,
              accept_message-Same s p.0 p.1,
              accept_message-Isolated s p.0 p.1,
            ))

  abbrev Outcome : Payload → State c → Result (Unit {0}) → State c → Type 0
  Outcome msg s r t =
      (Accepted msg s t ⊎ Refused msg s t) × (t.trust_score ≤ s.trust_score) × Isolated t

  -- Whatever `_handle_p4` is given, either the message was verified against the keys and the head
  -- of the chain, the chain has one entry more, with the next index, the message's number and time
  -- and the hash of its block and the server's, and the head is that hash, also where a later step
  -- fails; or it was refused, the chain and its head are as before and the session has
  -- ended. The trust is not higher than before, and if it is below the threshold, the session has
  -- ended.
  pub handle_p4-Outcome :
      (msg : Payload) (s : State c)
      → (Accepted msg s (handle_p4 c msg s).1 ⊎ Refused msg s (handle_p4 c msg s).1)
        × ((handle_p4 c msg s).1.trust_score ≤ s.trust_score)
        × Isolated (handle_p4 c msg s).1
  unfolding handle_p4 advance reg_of
  handle_p4-Outcome msg s =
      let body = p4_body c msg s in
      let ran = p4_body-Ran msg s in
      try_post (Outcome msg s) (p4_body c msg) (p4_failed c) s
        (λ u eq. elim (subst (λ r. Ran msg s r body.1) eq ran) [
          | inl (m, b, opened, verified, (chain, prv, less), isolated) ↦
              (inl (m, b, opened, verified, chain, prv), less, isolated)
          | inr (e, opened, wrong, stays) ↦ cc
        ])
        λ x eq.
          let inactive = p4_failed-inactive x body.1 in
          elim (subst (λ r. Ran msg s r body.1) eq ran) [
            | inl (m, b, opened, verified, kept, settled) ↦
                let (chain, prv, less) = p4_failed-Same c (advance c m b s) x body.1 kept in
                (inl (m, b, opened, verified, chain, prv), less, λ _. inactive)
            | inr (e, opened, wrong, stays) ↦
                let kept = subst (λ t. Same s t) (sym stays) (refl, refl, omega arith) in
                let (chain, prv, less) = p4_failed-Same c s x body.1 kept in
                (inr (e, opened, chain, prv, inactive), less, λ _. inactive)
          ]
