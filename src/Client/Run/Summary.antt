-- ===== src/Client/Run/Summary.antt =====
-- What `run_client` of smg_primary_server/pc_client.py reports.
use smg_secure_microgrid.Wire.Socket.{close, Conn}
use smg_secure_microgrid.Wire.Frame.{Json}
use smg_secure_microgrid.Client.{World}
use smg_secure_microgrid.Client.Run.{
  start_runner, p5, after_rooting, p3, run_client, exchange_data, hang_up, p2, note, Step,
  send_all_from, p4, attempt, send_one, phase_3, phase_5, phase_2, Runner,
}
use smg_secure_microgrid.Base.Post.{Result-cases}
use smg_secure_microgrid.Base.{
  ℕ, zero, suc, ◌+◌, ◌<◌, ◌≡◌, refl, sym, ap, ap₂, ◌∙◌, subst, ◌⊎◌, inl, inr, true, some, List, [],
  ◌∷◌, ◌++◌, arith, Error, Bytes, same,
}
use smg_secure_microgrid.Client.Run.Kept.{
  phase_2-Keeping, phase_3-Keeping, phase_5-Keeping, send_one-Counted, Counted, attempt_lem,
}

module _ (w : World) (json : Json) (sensor : ℕ → Bytes) where
  -- The messages of the rounds from the i-th on: all done, or one failed after those before it.
  abbrev Sending : ℕ → ℕ → Runner → Runner → Type 0
  Sending i left r t =
      ((t.p4_count ≡ r.p4_count + left) × (t.errors ≡ r.errors))
      ⊎ ((k : ℕ) × (e : Error) × (k < left)
          × (t.p4_count ≡ r.p4_count + k)
          × (t.errors ≡ r.errors ++ ((p4 (i + k + 1), e) ∷ [])))

  one_more :
      (i left : ℕ) (r s t : Runner)
      → s.p4_count ≡ r.p4_count + 1
      → s.errors ≡ r.errors
      → Sending (i + 1) left s t
      → Sending i (suc left) r t
  one_more i left r s t count errors (inl (all, same)) =
      inl (omega (arith, count, all), same ∙ errors)
  one_more i left r s t count errors (inr (k, e, less, some_sent, noted)) =
      let index : i + 1 + k + 1 ≡ i + suc k + 1 = omega arith in
      inr (
        suc k,
        e,
        omega arith,
        omega (arith, count, some_sent),
        noted ∙ ap₂ (λ es j. es ++ ((p4 j, e) ∷ [])) errors index,
      )

  send_all_from-Sending :
      (i left : ℕ) (r : Runner) → Sending i left r (send_all_from w json sensor i left r)
  unfolding send_all_from note
  send_all_from-Sending i zero r = inl (omega arith, refl)
  send_all_from-Sending i (suc left) r =
      let out = send_one w json (sensor i) r in
      let counted = send_one-Counted w json r (sensor i) in
      elim (Result-cases out.0) [
        | inr (e, q) ↦
            let (count, errors) = subst (λ x. Counted w json r x out.1) q counted in
            let stops : send_all_from w json sensor i (suc left) r ≡ note (p4 (i + 1)) e out.1 =
              rw (send_all_from, q) refl in
            let index : i + 1 ≡ i + 0 + 1 = omega arith in
            subst (Sending i (suc left) r) (sym stops) (
              inr (
                0,
                e,
                omega arith,
                omega (arith, count),
                ap₂ (λ es k. es ++ ((p4 k, e) ∷ [])) errors index,
              ))
        | inl (u, q) ↦
            let (count, errors) = subst (λ x. Counted w json r x out.1) q counted in
            let goes : send_all_from w json sensor i (suc left) r
                ≡ send_all_from w json sensor (i + 1) left out.1 =
              rw (send_all_from, q) refl in
            subst (Sending i (suc left) r) (sym goes) (
              one_more i left r out.1 (send_all_from w json sensor (i + 1) left out.1) count errors
                (send_all_from-Sending (i + 1) left out.1))
      ]

runner_inj : (s t : Runner) → some s ≡ some t → s ≡ t
runner_inj s t h = cc

-- What a run reports: the messages that got their answer, and the failures.
pub data Report (num_sends : ℕ) : ℕ → List (Step × Error) → Type 0 where
  p2_fails : (e : Error) → Report num_sends 0 ((p2, e) ∷ [])
  p3_fails : (e : Error) → Report num_sends 0 ((p3, e) ∷ [])
  all_done : Report num_sends num_sends []
  p5_fails : (e : Error) → Report num_sends num_sends ((p5, e) ∷ [])
  p4_fails : (k : ℕ) (e : Error) → k < num_sends → Report num_sends k ((p4 (k + 1), e) ∷ [])
  p4_p5_fail :
      (k : ℕ) (e e' : Error) → k < num_sends → Report num_sends k ((p4 (k + 1), e) ∷ (p5, e') ∷ [])

module _ (w : World) (json : Json) (sensor : ℕ → Bytes) (num_sends : ℕ) where
  abbrev Reports : Runner → Type 0
  Reports t = (t.conn.closed ≡ true) × Report num_sends t.p4_count t.errors

  report :
      (k : ℕ) (es : List (Step × Error)) (t : Runner)
      → Report num_sends k es
      → t.p4_count ≡ k
      → t.errors ≡ es
      → Report num_sends t.p4_count t.errors
  report k es t r c e = rw (c, e) r

  -- The logout after the messages.
  log_out-Reports :
      (k : ℕ) (es : List (Step × Error)) (t : Runner)
      → t.p4_count ≡ k
      → t.errors ≡ es
      → Report num_sends k es
      → ((e : Error) → Report num_sends k (es ++ ((p5, e) ∷ [])))
      → Reports (hang_up (attempt w json p5 (phase_5 w json) t).1)
  unfolding hang_up close note
  log_out-Reports k es t count errors fine failed =
      let (count', errors') = phase_5-Keeping w json t t (refl, refl) in
      elim (attempt_lem w json t p5 (phase_5 w json)) [
        | inl (q, done) ↦
            rw q (refl, report k es (phase_5 w json t).1 fine (count' ∙ count) (errors' ∙ errors))
        | inr (e, q) ↦ rw q (
          refl,
          report k (es ++ ((p5, e) ∷ [])) (note p5 e (phase_5 w json t).1) (failed e)
              (count' ∙ count) (ap (λ x. x ++ ((p5, e) ∷ [])) (errors' ∙ errors)),
        )
      ]

  exchange_data-Reports :
      (r : Runner)
      → r.p4_count ≡ 0
      → r.errors ≡ []
      → Reports (exchange_data w json sensor num_sends r)
  unfolding exchange_data
  exchange_data-Reports r count errors =
      let t = send_all_from w json sensor 0 num_sends r in
      elim (send_all_from-Sending w json sensor 0 num_sends r) [
        | inl (c, e) ↦
            log_out-Reports num_sends [] t (omega (arith, c, count)) (e ∙ errors) all_done p5_fails
        | inr (k, x, less, c, e) ↦
            log_out-Reports k ((p4 (k + 1), x) ∷ []) t (omega (arith, c, count))
              (e ∙ ap₂ (λ es j. es ++ ((p4 j, x) ∷ [])) errors (omega arith)) (p4_fails k x less)
              (λ e'. p4_p5_fail k x e' less)
      ]

  -- P3 and what follows, after P2.
  established-Reports :
      (r : Runner)
      → r.p4_count ≡ 0
      → r.errors ≡ []
      → Reports (after_rooting w json sensor num_sends (true, r))
  unfolding after_rooting hang_up close note
  established-Reports r count errors =
      let (count', errors') = phase_3-Keeping w json r r (refl, refl) in
      elim (attempt_lem w json r p3 (phase_3 w json)) [
        | inl (q, done) ↦
            rw q (exchange_data-Reports (phase_3 w json r).1 (count' ∙ count) (errors' ∙ errors))
        | inr (e, q) ↦ rw q (
          refl,
          report 0 ((p3, e) ∷ []) (note p3 e (phase_3 w json r).1) (p3_fails e) (count' ∙ count)
              (ap (λ x. x ++ ((p3, e) ∷ [])) (errors' ∙ errors)),
        )
      ]

  rooted-Reports :
      (node_salt : Bytes) (s : Runner)
      → s.p4_count ≡ 0
      → s.errors ≡ []
      → Reports
          (after_rooting w json sensor num_sends (attempt w json p2 (phase_2 w json node_salt) s))
  unfolding after_rooting hang_up close note
  rooted-Reports node_salt s count errors =
      let (count', errors') = phase_2-Keeping w json s node_salt s (refl, refl) in
      elim (attempt_lem w json s p2 (phase_2 w json node_salt)) [
        | inl (q, done) ↦
            subst (λ x. Reports (after_rooting w json sensor num_sends x)) (sym q)
              (established-Reports (phase_2 w json node_salt s).1 (count' ∙ count)
                (errors' ∙ errors))
        | inr (e, q) ↦
            subst (λ x. Reports (after_rooting w json sensor num_sends x)) (sym q)
              (
                refl,
                report 0 ((p2, e) ∷ []) (note p2 e (phase_2 w json node_salt s).1) (p2_fails e)
                    (count' ∙ count) (ap (λ x. x ++ ((p2, e) ∷ [])) (errors' ∙ errors)),
              )
      ]

  -- A run over a connection ends with the connection closed, and its report is one of these: P2 or
  -- P3 failed, and no message counts; all messages count and the logout went through or failed; or a
  -- message failed, exactly those before it count, its entry has the next number, and the logout
  -- went through or failed.
  pub run_client-Report :
      (node_id node_key node_salt : Bytes) (conn : Conn) (t : Runner)
      → run_client w json (some conn) node_id node_key node_salt sensor num_sends ≡ some t
      → (t.conn.closed ≡ true) × Report num_sends t.p4_count t.errors
  unfolding run_client after_rooting start_runner hang_up close note
  run_client-Report node_id node_key node_salt conn t h =
      let s = start_runner w json node_id node_key conn in
      let end =
        after_rooting w json sensor num_sends (attempt w json p2 (phase_2 w json node_salt) s) in
      subst Reports (runner_inj end t h) (rooted-Reports node_salt s refl refl)
