-- ===== src/Client/Run/Kept.antt =====
-- What the phases of `run_client` of smg_primary_server/pc_client.py leave of its report.
use smg_secure_microgrid.Base.Dict.{has_str}
use smg_secure_microgrid.Wire.Frame.{recv_msg, send_msg, Json}
use smg_secure_microgrid.Client.{
  p4_finalize, p3_initiator_finalize, p4_send, p3_initiator_prepare, p2_initiator_compute,
  p5_logout_initiate, World,
}
use smg_secure_microgrid.Client.Run.{
  note, Step, attempt, next_answer, check_error, rot_message, send_one, phase_3, phase_5, phase_2,
  Runner,
}
use smg_secure_microgrid.Base.Post.{Keeps, continue_post, Result-cases}
use smg_secure_microgrid.Base.Exec.{Exec}
use smg_secure_microgrid.Base.{
  ◌+◌, ◌≡◌, refl, ◌⊎◌, inl, inr, true, false, Bool-cases, Error, wrong_type, other, Result, ok, err,
  of_option, Bytes, codes,
}

-- The two counts of `metrics` are those of an earlier state.
abbrev pub Kept : Runner → Runner → Type 0
Kept r t = (t.p4_count ≡ r.p4_count) × (t.errors ≡ r.errors)

module _ (w : World) (json : Json) (r : Runner) where
  abbrev pub Keeping : {A : Type 0} → Exec Runner A → Type 0
  Keeping = Keeps (Kept r)

  abbrev P : {A : Type 0} → Result A → Runner → Type 0
  P x t = Kept r t

  pub phase_2-Keeping : (node_salt : Bytes) → Keeping (phase_2 w json node_salt)
  unfolding phase_2
  phase_2-Keeping node_salt t h =
      let o0 = p2_initiator_compute w node_salt t.node in
      let t0 = record t { node = o0.1 } in
      continue_post P o0.0 t0 _ (λ _ _. h)
        λ x _.
          let o1 = send_msg json (rot_message w json x.0 x.1 t0.node.id) t0.conn in
          let t1 = record t0 { conn = o1.1 } in
          continue_post P o1.0 t1 _ (λ _ _. h)
            λ u _.
              let o2 = recv_msg json 16384 t1.conn in
              let t2 = record t1 { conn = o2.1 } in continue_post P o2.0 t2 _ (λ _ _. h) λ resp _. h

  pub phase_3-Keeping : Keeping (phase_3 w json)
  unfolding phase_3
  phase_3-Keeping t h =
      continue_post P (of_option wrong_type t.node.peer_id) t _ (λ _ _. h)
        λ peer _.
          let o1 = p3_initiator_prepare w peer t.node in
          let t1 = record t { node = o1.1 } in
          continue_post P o1.0 t1 _ (λ _ _. h)
            λ m _.
              let o2 = send_msg json m t1.conn in
              let t2 = record t1 { conn = o2.1 } in
              continue_post P o2.0 t2 _ (λ _ _. h)
                λ u _.
                  let o3 = recv_msg json 16384 t2.conn in
                  let t3 = record t2 { conn = o3.1 } in
                  continue_post P o3.0 t3 _ (λ _ _. h)
                    λ resp _.
                      continue_post P (check_error resp) t3 _ (λ _ _. h)
                        λ v _.
                          let o5 = p3_initiator_finalize w resp t3.node in
                          let t5 = record t3 { node = o5.1 } in
                          continue_post P o5.0 t5 _ (λ _ _. h)
                            λ conf _.
                              let o6 = send_msg json conf t5.conn in
                              let t6 = record t5 { conn = o6.1 } in
                              continue_post P o6.0 t6 _ (λ _ _. h)
                                λ u2 _.
                                  let o7 = recv_msg json 16384 t6.conn in
                                  let t7 = record t6 { conn = o7.1 } in
                                  continue_post P o7.0 t7 _ (λ _ _. h)
                                    λ ack _.
                                      continue_post P (check_error ack) t7 _ (λ _ _. h) λ v2 _. h

  pub phase_5-Keeping : Keeping (phase_5 w json)
  unfolding phase_5
  phase_5-Keeping t h =
      let o0 = p5_logout_initiate w t.node in
      let t0 = record t { node = o0.1 } in
      continue_post P o0.0 t0 _ (λ _ _. h)
        λ m _.
          let o1 = send_msg json m t0.conn in
          let t1 = record t0 { conn = o1.1 } in
          continue_post P o1.0 t1 _ (λ _ _. h)
            λ u _.
              let o2 = recv_msg json 16384 t1.conn in
              let t2 = record t1 { conn = o2.1 } in
              continue_post P o2.0 t2 _ (λ _ _. h)
                λ resp _. elim (Bool-cases (has_str (codes "type") (codes "logout_res") resp)) [
                  | inl e ↦ rw e h
                  | inr e ↦ rw e h
                ]

  -- A message that is done counts, another one does not.
  abbrev pub Counted : Result (Unit {0}) → Runner → Type 0
  Counted (ok u) t = (t.p4_count ≡ r.p4_count + 1) × (t.errors ≡ r.errors)
  Counted (err e) t = Kept r t

  pub send_one-Counted :
      (sensor_json : Bytes) → let out = send_one w json sensor_json r in Counted out.0 out.1
  unfolding send_one
  send_one-Counted sensor_json =
      let o0 = p4_send w sensor_json r.node in
      let t0 = record r { node = o0.1 } in
      continue_post Counted o0.0 t0 _ (λ _ _. (refl, refl))
        λ m _.
          let o1 = send_msg json m t0.conn in
          let t1 = record t0 { conn = o1.1 } in
          continue_post Counted o1.0 t1 _ (λ _ _. (refl, refl))
            λ u _.
              let o2 = next_answer w json t1.conn in
              let t2 = record t1 { conn = o2.1 } in
              continue_post Counted o2.0 t2 _ (λ _ _. (refl, refl))
                λ answer _.
                  continue_post Counted (of_option other answer) t2 _ (λ _ _. (refl, refl))
                    λ resp _.
                      continue_post Counted (check_error resp) t2 _ (λ _ _. (refl, refl))
                        λ v _.
                          let o5 = p4_finalize w resp t2.node in
                          let t5 = record t2 { node = o5.1 } in
                          continue_post Counted o5.0 t5 _ (λ _ _. (refl, refl))
                            λ done _. (refl, refl)

  pub attempt_lem :
      (step : Step) (m : Exec Runner (Unit {0}))
      → ((attempt w json step m r ≡ (true, (m r).1)) × ((m r).0 ≡ ok tt))
        ⊎ ((e : Error) × (attempt w json step m r ≡ (false, note step e (m r).1)))
  unfolding attempt
  attempt_lem step m = elim (Result-cases (m r).0) [
    | inl (u, q) ↦ inl (rw (attempt, q) refl, q)
    | inr (e, q) ↦ inr (e, rw (attempt, q) refl)
  ]
