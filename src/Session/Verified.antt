-- ===== src/Session/Verified.antt =====
-- What the first part of `_handle_p4` of smg_primary_server/auth_service.py has verified.
use smg_secure_microgrid.Crypto.{decrypt_gcm}
use smg_secure_microgrid.Wire.Tlv.{parse_tlv, make_reg_reg}
use smg_secure_microgrid.Base.Dict.{Payload}
use smg_secure_microgrid.Session.Exchange.{
  read_fields, b_reg_of, preg_of, Keys, Message, open_message, verify_chain,
}
use smg_secure_microgrid.Session.{as_bytes, item, State, Server}
use smg_secure_microgrid.Base.{
  ◌≡◌, refl, sym, ap, ◌∙◌, Bool, true, false, some, ◌++◌, if◌then◌else◌, Error, wrong_type, runtime,
  Result, ok, err, of_option, Bytes, codes, same, same_sound,
}
use smg_secure_microgrid.Base.Post.{of_option-ok, continue_post}

module _ (c : Server) where
  -- What `open_message` has verified where it returns: the received block is the one of the
  -- chain's head, the fields and the session.
  abbrev pub Verified : State c → Message → Bytes → Type 0
  Verified s m b =
      (key : Bytes) × (id : Bytes) × (prv : Bytes) × (reg_reg : Bytes) × (s.ses_key ≡ some key)
      × (s.ses_id ≡ some id)
      × (s.prv_bl ≡ some prv)
      × (make_reg_reg m.smg_reg m.ts_b m.m_num m.id_a c.server_id id ≡ ok reg_reg)
      × (m.preg_bl ≡ c.library.h_sha256 (prv ++ c.library.h_sha256 reg_reg))
      × (b ≡ c.library.h_sha256 (m.preg_bl ++ key))

  if-ok :
      (t : Bool) (x y : Bytes) (e : Error)
      → (if t then ok x else err e) ≡ ok y
      → (t ≡ true) × (x ≡ y)
  if-ok true x y e h = (refl, cc)
  if-ok false x y e h = cc

  verify_chain-ok :
      (k : Keys) (m : Message) (b : Bytes)
      → verify_chain c k m ≡ ok b
      → (reg_reg : Bytes) × (make_reg_reg m.smg_reg m.ts_b m.m_num m.id_a c.server_id k.id
          ≡ ok reg_reg)
        × (m.preg_bl ≡ preg_of c.library k.prv reg_reg)
        × (b ≡ b_reg_of c.library m.preg_bl k.key)
  unfolding verify_chain
  verify_chain-ok k m b h =
      go (make_reg_reg m.smg_reg m.ts_b m.m_num m.id_a c.server_id k.id) refl h
    where
      go :
          (r : Result Bytes)
          → make_reg_reg m.smg_reg m.ts_b m.m_num m.id_a c.server_id k.id ≡ r
          → (elim r [
            | ok reg_reg ↦
                let preg_bl = preg_of c.library k.prv reg_reg in
                if same preg_bl m.preg_bl
                then ok (b_reg_of c.library preg_bl k.key)
                else err runtime
            | err e ↦ err e
          ])
            ≡ ok b
          → (reg_reg : Bytes) × (make_reg_reg m.smg_reg m.ts_b m.m_num m.id_a c.server_id k.id
              ≡ ok reg_reg)
            × (m.preg_bl ≡ preg_of c.library k.prv reg_reg)
            × (b ≡ b_reg_of c.library m.preg_bl k.key)
      go (err e) q h' = cc
      go (ok reg) q h' =
          let pg = preg_of c.library k.prv reg in
          let (fits, x) = if-ok (same pg m.preg_bl) (b_reg_of c.library pg k.key) b runtime h' in
          let pe : pg ≡ m.preg_bl = same_sound pg m.preg_bl fits in
          (reg, q, sym pe, sym x ∙ ap (λ z. b_reg_of c.library z k.key) pe)

  abbrev pub Opened : State c → Result (Message × Bytes) → State c → Type 0
  Opened s (ok (m, b)) t = (t ≡ s) × Verified s m b
  Opened s (err e) t = t ≡ s

  pub open_message-Opened :
      (msg : Payload) (s : State c) → Opened s (open_message c msg s).0 (open_message c msg s).1
  unfolding open_message preg_of b_reg_of
  open_message-Opened msg s =
      let P = Opened s in
      continue_post P (item (codes "MSG_cif") msg) s _ (λ _ _. refl)
        λ cif_v _.
          continue_post P (of_option wrong_type s.ses_key) s _ (λ _ _. refl)
            λ key key_e.
              continue_post P (as_bytes cif_v) s _ (λ _ _. refl)
                λ cif _.
                  continue_post P (decrypt_gcm c.library cif key) s _ (λ _ _. refl)
                    λ plain _.
                      continue_post P (of_option runtime (parse_tlv plain 6)) s _ (λ _ _. refl)
                        λ fields _.
                          continue_post P (read_fields fields) s _ (λ _ _. refl)
                            λ m _.
                              continue_post P (of_option wrong_type s.ses_id) s _ (λ _ _. refl)
                                λ id id_e.
                                  continue_post P (of_option wrong_type s.prv_bl) s _ (λ _ _. refl)
                                    λ prv prv_e.
                                      let k : Keys = record { key = key; id = id; prv = prv } in
                                      continue_post P (verify_chain c k m) s _ (λ _ _. refl)
                                        λ b b_e.
                                          let (reg, r, p, q) = verify_chain-ok k m b b_e in
                                          (
                                            refl,
                                            (
                                              key,
                                              id,
                                              prv,
                                              reg,
                                              of_option-ok wrong_type s.ses_key key key_e,
                                              of_option-ok wrong_type s.ses_id id id_e,
                                              of_option-ok wrong_type s.prv_bl prv prv_e,
                                              r,
                                              p,
                                              q,
                                            ),
                                          )

  -- It reads the session only.
  pub open_message-pure : (msg : Payload) (s : State c) → (open_message c msg s).1 ≡ s
  open_message-pure msg s = go (open_message c msg s).0 (open_message-Opened msg s)
    where
      go :
          (r : Result (Message × Bytes))
          → Opened s r (open_message c msg s).1
          → (open_message c msg s).1 ≡ s
      go (ok p) h = h.0
      go (err e) h = h
