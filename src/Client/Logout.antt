-- ===== src/Client/Logout.antt =====
-- `p5_logout_initiate` of smg_primary_server/pc_client.py and `_handle_p5` of
-- smg_primary_server/auth_service.py, which do not fit.
use smg_secure_microgrid.Wire.Tlv.Laws.{parse_tlv-pack_fields, pack_fields-append}
use smg_secure_microgrid.Crypto.{decrypt_gcm, gcm_nonce_size, encrypt_gcm}
use smg_secure_microgrid.Base.Post.{continue-err, continue-ok, of_option-ok, continue_post}
use smg_secure_microgrid.Base.Dict.{lookup, Payload}
use smg_secure_microgrid.Session.Logout.{two_fields, p5_failed, p5_body, handle_p5}
use smg_secure_microgrid.Client.{raw, peer_of, str, p5_logout_initiate, SecureNodeClient, World}
use smg_secure_microgrid.Crypto.Gcm.{decrypt_gcm-encrypt_gcm, Aead}
use smg_secure_microgrid.Client.Agreement.{InSync, world, ok_inj}
use smg_secure_microgrid.Session.{State, as_bytes, item, log_error, Server}
use smg_secure_microgrid.Client.Formats.{ts_bytes}
use smg_secure_microgrid.Wire.Endian.{pack-fits, be_value_from, be_value, be_bytes}
use smg_secure_microgrid.Wire.Tlv.{make_end_reg, parse_from, parse_tlv}
use smg_secure_microgrid.Base.{
  ℕ, suc, ◌+◌, ◌*◌, ◌/◌, ◌%◌, ◌^◌, ◌≤◌, ◌<◌, ◌≡◌, refl, sym, ap, ◌∙◌, subst, Bool, true, false,
  Option, none, some, List, [], ◌∷◌, ◌++◌, arith, ltb, if◌then◌else◌, lt→ltb, length, take, drop,
  wrong_type, runtime, Result, ok, err, of_option, Bytes, codes, same,
}

-- A record whose next field does not fit is refused, and so is one with such a rest.
field-too_long :
    (input : Bytes) (n pos ln : ℕ)
    → be_value (take 2 (drop pos input)) ≡ ln
    → length input < pos + 2 + ln
    → parse_from input (suc n) pos ≡ none
unfolding parse_from
field-too_long input n pos ln e h =
    rw (e, lt→ltb (length input) (pos + 2 + ln) h) (if-same (ltb (length input) (pos + 2)))
  where
    if-same : (b : Bool) → ◌≡◌ {A = Option (List Bytes)} (if b then none else none) none
    if-same true = refl
    if-same false = refl

rest-none :
    (input : Bytes) (n pos next : ℕ)
    → pos + 2 + be_value (take 2 (drop pos input)) ≡ next
    → parse_from input n next ≡ none
    → parse_from input (suc n) pos ≡ none
unfolding parse_from
rest-none input n pos next e h =
    rw (e, h) (both (ltb (length input) (pos + 2)) (ltb (length input) next))
  where
    both :
        (a b : Bool)
        → ◌≡◌ {A = Option (List Bytes)} (if a then none else if b then none else none) none
    both true b = refl
    both false true = refl
    both false false = refl

-- A time of day is no record of four fields: its fifth and sixth byte are no length of a field of
-- the two bytes that are left.
no_record :
    (d e f g : ℕ) → 2 < d * 256 + e → parse_tlv (0 ∷ 0 ∷ 0 ∷ 0 ∷ d ∷ e ∷ f ∷ g ∷ []) 4 ≡ none
unfolding parse_tlv
no_record d e f g h =
    let ts = 0 ∷ 0 ∷ 0 ∷ 0 ∷ d ∷ e ∷ f ∷ g ∷ [] in
    rest-none ts 3 0 2 (unfold be_value be_value_from in refl) (
      rest-none ts 2 2 4 (unfold be_value be_value_from in refl) (
        field-too_long ts 1 4 ((0 + d) * 256 + e) (unfold be_value be_value_from in refl)
          (omega arith)))

-- The bytes of a time before the year 2106.
bytes_of_time :
    (now : ℕ)
    → now < 2 ^ 32
    → be_bytes 8 now
      ≡ 0
        ∷ 0
        ∷ 0
        ∷ 0
        ∷ now / 256 / 256 / 256 % 256
        ∷ now / 256 / 256 % 256
        ∷ now / 256 % 256
        ∷ now % 256
        ∷ []
unfolding be_bytes
bytes_of_time now h =
    let n4 = now / 256 / 256 / 256 / 256 in let z4 : n4 ≡ 0 = omega arith in rw z4 refl

no_fields :
    (ts : Bytes) (now : ℕ)
    → 196608 ≤ now
    → now < 2 ^ 32
    → ts_bytes now ≡ ok ts
    → parse_tlv ts 4 ≡ none
unfolding ts_bytes
no_fields ts now late early h =
    let e : be_bytes 8 now ≡ ts =
      ok_inj (be_bytes 8 now) ts (sym (pack-fits 8 now (omega arith)) ∙ h) in
    subst (λ b. parse_tlv b 4 ≡ none) (sym (bytes_of_time now early) ∙ e)
      (no_record (now / 256 / 256 / 256 % 256) (now / 256 / 256 % 256) (now / 256 % 256) (now % 256)
        (omega arith))

module _ (c : Server) (aead : Aead c.library) (urandom : ℕ → ℕ → Bytes) (time : ℕ → ℕ)
    (sizes : (i k : ℕ) → length (urandom i k) ≡ k) where
  abbrev w : World
  w = world c aead urandom time sizes

  -- The client's message, and what it holds: four fields.
  abbrev LoggedOut : SecureNodeClient → Result Payload → Type 0
  LoggedOut n (ok m) =
      (key : Bytes) × (id : Bytes) × (peer : Bytes) × (ts : Bytes) × (end_reg : Bytes) × (n.k_ab_enc
        ≡ some key)
      × (ts_bytes (time n.drawn) ≡ ok ts)
      × (make_end_reg ts id n.id peer ≡ ok end_reg)
      × (m
          ≡ (codes "type", str (codes "logout_req"))
            ∷ (
              codes "A_END_cif",
              raw (encrypt_gcm c.library (urandom (n.drawn + 1) gcm_nonce_size) end_reg key),
            )
            ∷ (codes "ID_A", raw n.id)
            ∷ [])
  LoggedOut n (err e) = Unit

  p5_logout_initiate-LoggedOut : (n : SecureNodeClient) → LoggedOut n (p5_logout_initiate w n).0
  unfolding p5_logout_initiate
  p5_logout_initiate-LoggedOut n =
      let P = λ (r : Result Payload) (t : SecureNodeClient). LoggedOut n r in
      let n1 = record n { drawn = n.drawn + 1 } in
      continue_post P (ts_bytes (time n.drawn)) n1 _ (λ _ _. tt)
        λ ts ts_e.
          continue_post P (of_option wrong_type n.ses_id) n1 _ (λ _ _. tt)
            λ id id_e.
              continue_post P (peer_of n) n1 _ (λ _ _. tt)
                λ peer peer_e.
                  continue_post P (make_end_reg ts id n.id peer) n1 _ (λ _ _. tt)
                    λ reg reg_e.
                      continue_post P (of_option wrong_type n.k_ab_enc) n1 _ (λ _ _. tt)
                        λ key key_e. (
                          key,
                          id,
                          peer,
                          ts,
                          reg,
                          of_option-ok wrong_type n.k_ab_enc key key_e,
                          ts_e,
                          reg_e,
                          refl,
                        )

  -- The session of a client in step refuses its logout between 1970-01-03 and 2106: the handler
  -- returns, nothing is sent, the failure is noted and the session is over. The client's message is
  -- one that `p5_logout_initiate` returned; AES-GCM obeys `Aead`, and the client's `os.urandom`
  -- returns as many bytes as it is asked for.
  pub logout_refused :
      (n : SecureNodeClient) (s : State c) (m : Payload)
      → InSync c aead urandom time sizes n s
      → 196608 ≤ time n.drawn
      → time n.drawn < 2 ^ 32
      → (p5_logout_initiate w n).0 ≡ ok m
      → handle_p5 c m s
        ≡ (ok tt, record s { errors = s.errors ++ (runtime ∷ []); session_active = false })
  unfolding handle_p5 p5_body p5_failed log_error item as_bytes lookup same two_fields make_end_reg
  logout_refused n s m sync late early h =
      let (key, id, peer, ts, reg, key_e, ts_e, reg_e, m_e) =
        subst (LoggedOut n) h (p5_logout_initiate-LoggedOut n) in
      let (two, rest, packed, cut) = pack_fields-append (ts ∷ id ∷ []) (n.id ∷ peer ∷ []) reg_e in
      let opens =
        decrypt_gcm-encrypt_gcm c.library aead (urandom (n.drawn + 1) gcm_nonce_size) reg key
          (sizes (n.drawn + 1) gcm_nonce_size) in
      let parsed : parse_tlv reg 2 ≡ some (ts ∷ id ∷ []) =
        ap (λ r. parse_tlv r 2) cut ∙ parse_tlv-pack_fields (ts ∷ id ∷ []) rest two packed in
      let body : p5_body c m s ≡ (err runtime, s) =
        ap (λ p. p5_body c p s) m_e
        ∙ continue-ok (of_option wrong_type s.ses_key) s _
            (ap (of_option wrong_type) (sync.same_key ∙ key_e))
        ∙ continue-ok (decrypt_gcm c.library _ key) s _ opens
        ∙ continue-ok (of_option runtime (parse_tlv reg 2)) s _ (ap (of_option runtime) parsed)
        ∙ continue-err (of_option runtime (parse_tlv ts 4)) s _
            (ap (of_option runtime) (no_fields ts (time n.drawn) late early ts_e)) in
      rw body refl
