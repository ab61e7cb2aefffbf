-- ===== src/Registration/Handshake.antt =====
-- A device that smg_primary_server/tools/register_puf_node.py has registered, in the handshake of
-- smg_primary_server/rot_challenge_service.py.
use smg_secure_microgrid.Base.{
  ◌≡◌, refl, sym, ap, ap₂, ◌∙◌, subst, ◌⊎◌, inl, inr, Bool, true, false, Option, none, some, [],
  ◌∷◌, arith, ◌==◌, if◌then◌else◌, ==_iff, All, length, take, Bytes, Text, IsByte, codes, same,
}
use smg_secure_microgrid.Base.Dict.{str, lookup, Payload, Dict}
use smg_secure_microgrid.Base.Post.{continue-ok}
use smg_secure_microgrid.Wire.Hex.{hex, length-hex}
use smg_secure_microgrid.Rot.{
  Setting, RotSession, identify, enrolled, exchange_proofs, get_hex, label_of, set_label,
  challenge_len, rot_id_len, rot_pubkey_len, rot_digest_len,
}
use smg_secure_microgrid.Rot.Agreement.{get_hex_lem}
use smg_secure_microgrid.Registration.{given, choose_shs, main, Args, registered}
use smg_secure_microgrid.Registration.Lookups.{register-lookup}

-- The verifier in the arguments, or the fresh one.
abbrev pub HasVerifier : Bytes → Option Text → Bytes → Type 0
HasVerifier token o shs = (o ≡ some (hex shs)) ⊎ ((o ≡ none) × (shs ≡ token) × (length token ≡ 32))

choose_shs_lem :
    (token : Bytes) (o : Option Text) (t : Text) (shs : Bytes)
    → choose_shs token o ≡ some t
    → HasVerifier token o shs
    → (t ≡ hex shs) × (length shs ≡ 32)
unfolding choose_shs
choose_shs_lem token none t shs h (inl e) = cc
choose_shs_lem token none t shs h (inr (e, fresh, size)) = (cc, cc)
choose_shs_lem token (some x) t shs h (inr (e, fresh, size)) = cc
choose_shs_lem token (some x) t shs h (inl e) = go (length x == 64) refl h
  where
    go :
        (b : Bool)
        → (length x == 64) ≡ b
        → (if b then some x else none) ≡ some t
        → (t ≡ hex shs) × (length shs ≡ 32)
    go true q k =
        let same_text : x ≡ hex shs = cc in
        let size : length x ≡ 64 = (==_iff (length x) 64).0 q in
        (cc, omega (arith, length-hex shs, ap length same_text))
    go false q k = cc

-- The device's bytes as they stand in the arguments and in its hello.
pub record Enrols (token : Bytes) (args : Args) (c : Setting) (hello : Payload) : Type 0 where
  pub id : Bytes
  pub challenge : Bytes
  pub pk : Bytes
  pub shs : Bytes
  pub point : c.PublicKey
  pub id_given : given args.id_a ≡ some (hex id)
  pub pk_given : given args.pk_a ≡ some (hex pk)
  pub shs_given : HasVerifier token (given args.shs_b) shs
  pub id_sent : lookup (codes "id_a") hello ≡ some (str (hex id))
  pub challenge_sent : lookup (codes "challenge_a") hello ≡ some (str (hex challenge))
  pub challenge_size : length challenge ≡ challenge_len
  pub id_bytes : All IsByte id
  pub challenge_bytes : All IsByte challenge
  pub pk_bytes : All IsByte pk
  pub shs_bytes : All IsByte shs
  pub decoded : c.decode_point pk ≡ some point

abbrev text_entry : Text → Text → Text → Payload
text_entry pk shs label =
    (codes "pk_a", str pk) ∷ (codes "shs_b", str shs) ∷ (codes "label", str label) ∷ []

module _ {token : Bytes} {args : Args} {c : Setting} {hello : Payload}
    (d : Enrols token args c hello) (label : Text) where
  abbrev entry_of : Payload
  entry_of = text_entry (hex d.pk) (hex d.shs) label

  -- The handshake with this entry.
  enrolled_lem :
      length d.pk ≡ rot_pubkey_len
      → length d.shs ≡ rot_digest_len
      → (s : RotSession)
      → enrolled c d.id d.challenge entry_of s
        ≡ exchange_proofs c
            (record { id_a = d.id; challenge_a = d.challenge; pk_a = d.point; shs_b = d.shs })
            (record s { node_label = str label })
  unfolding enrolled set_label
  enrolled_lem pk_size shs_size s =
      let pk_stored : lookup (codes "pk_a") entry_of ≡ some (str (hex d.pk)) =
        unfold lookup same in refl in
      let shs_stored : lookup (codes "shs_b") entry_of ≡ some (str (hex d.shs)) =
        unfold lookup same in refl in
      let label_e : label_of entry_of d.id ≡ str label = unfold label_of lookup same in refl in
      continue-ok (get_hex (codes "pk_a") rot_pubkey_len entry_of) s _
        (get_hex_lem (codes "pk_a") rot_pubkey_len d.pk entry_of pk_stored d.pk_bytes pk_size)
      ∙ continue-ok (get_hex (codes "shs_b") rot_digest_len entry_of) s _ (
          get_hex_lem (codes "shs_b") rot_digest_len d.shs entry_of shs_stored d.shs_bytes shs_size)
      ∙ rw (label_e, d.decoded) refl

some_inj : (x y : Text) → some x ≡ some y → x ≡ y
some_inj x y h = cc

-- A run that registers a device by the hexadecimal digits of its identifier and of its key, and by
-- those of its verifier or with a fresh one of 32 bytes: when the device then says hello to a server
-- that has the saved registry, the handshake goes on to the exchange of proofs, with the
-- identifier and the challenge of the hello and with the key and the verifier that were registered,
-- and the session is labelled with the given label or the first eight digits. The key is one that
-- `from_encoded_point` decodes, the challenge has the protocol's length, and all four values are
-- bytes.
pub register-identify :
    (token : Bytes) (args : Args) (registry : Dict Payload) (c : Setting) (hello : Payload)
    (s : RotSession) (d : Enrols token args c hello)
    → main token args registry ≡ registered c.registry
    → (label : Text) × ((given args.label ≡ some label)
        ⊎ ((given args.label ≡ none) × (label ≡ take 8 (hex d.id))))
      × (identify c hello s
          ≡ exchange_proofs c
              (record { id_a = d.id; challenge_a = d.challenge; pk_a = d.point; shs_b = d.shs })
              (record s { node_label = str label }))
unfolding identify
register-identify token args registry c hello s d h =
    let (run, found, others) = register-lookup token args registry c.registry h in
    let id_e : run.id ≡ hex d.id = some_inj run.id (hex d.id) (sym run.id_given ∙ d.id_given) in
    let pk_e : run.pk ≡ hex d.pk = some_inj run.pk (hex d.pk) (sym run.pk_given ∙ d.pk_given) in
    let (shs_e, shs_size) =
      choose_shs_lem token (given args.shs_b) run.shs d.shs run.shs_chosen d.shs_given in
    let id_size : length d.id ≡ rot_id_len =
      omega (arith, length-hex d.id, ap length id_e, run.id_size) in
    let pk_size : length d.pk ≡ rot_pubkey_len =
      omega (arith, length-hex d.pk, ap length pk_e, run.pk_size) in
    let entry = entry_of d run.label in
    let stored : lookup (hex d.id) c.registry ≡ some entry =
      ap (λ i. lookup i c.registry) (sym id_e)
      ∙ found
      ∙ ap₂ (λ k v. some (text_entry k v run.label)) pk_e shs_e in
    (
      run.label,
      subst
          (λ i.
            (given args.label ≡ some run.label)
            ⊎ ((given args.label ≡ none) × (run.label ≡ take 8 i)))
          id_e run.label_chosen,
      continue-ok (get_hex (codes "id_a") rot_id_len hello) s _
            (get_hex_lem (codes "id_a") rot_id_len d.id hello d.id_sent d.id_bytes id_size)
          ∙ continue-ok (get_hex (codes "challenge_a") challenge_len hello) s _ (
              get_hex_lem (codes "challenge_a") challenge_len d.challenge hello d.challenge_sent
                d.challenge_bytes d.challenge_size)
          ∙ rw stored (enrolled_lem d run.label pk_size shs_size s),
    )
