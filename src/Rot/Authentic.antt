-- ===== src/Rot/Authentic.antt =====
-- Which devices `_handshake` authenticates, and what state it leaves in every other case.
use mathlib.Core.Bool.{true≢false}
use smg_secure_microgrid.Base.{
  ℕ, ◌≡◌, refl, sym, ◌∙◌, ◌≢◌, inl, inr, Bool, true, false, Option, none, some, [], Bool-cases,
  Option-cases, length, Error, Result, ok, err, Bytes, Text, codes,
}
use smg_secure_microgrid.Base.Dict.{Payload, lookup, has_str, get_str}
use smg_secure_microgrid.Wire.Hex.{hex, hex_to_bin, length-hex_to_bin}
use smg_secure_microgrid.Wire.Frame.{Loaded, send_json, recv_json}
use smg_secure_microgrid.Rot.{
  RotSession, Setting, Peer, get_hex, get_hex_any, refuse, recv_dict, transcript, session_key,
  conclude, check_response, challenge_message, exchange_proofs, label_of, enrolled, identify,
  handshake, rot_id_len, rot_digest_len, rot_pubkey_len, challenge_len, session_ack,
}
use smg_secure_microgrid.Base.Post.{continue_post}

-- A field that `hex_to_bin` accepted has the expected length.
length-get_hex : (k : Text) (n : ℕ) (d : Payload) {b : Bytes} → get_hex k n d ≡ ok b → length b ≡ n
unfolding get_hex
length-get_hex k n d h = go (get_str k d) h
  where
    go :
        (r : Result Text) {b : Bytes}
        → (elim r [ ok s ↦ hex_to_bin s n | err e ↦ err e ]) ≡ ok b
        → length b ≡ n
    go (ok s) e = length-hex_to_bin s n e
    go (err x) e = cc

module _ (c : Setting) where
  -- The peer is a device of the registry, with the key and the verifier that stand there.
  pub record Enrolment (peer : Peer c.PublicKey) : Type 0 where
    pub entry : Payload
    pub pk_a_bytes : Bytes
    pub id_length : length peer.id_a ≡ rot_id_len
    pub challenge_length : length peer.challenge_a ≡ challenge_len
    pub registered : lookup (hex peer.id_a) c.registry ≡ some entry
    pub pinned : get_hex (codes "pk_a") rot_pubkey_len entry ≡ ok pk_a_bytes
    pub key_point : c.decode_point pk_a_bytes ≡ some peer.pk_a
    pub verifier : get_hex (codes "shs_b") rot_digest_len entry ≡ ok peer.shs_b

  -- That device's registered key verifies the signature over this session's transcript, and
  -- `key` is the key of this transcript.
  pub record Evidence (key : Option Bytes) : Type 0 where
    pub peer : Peer c.PublicKey
    pub enrolment : Enrolment peer
    pub eph_pk_a_bytes : Bytes
    pub eph_pk_a : c.PublicKey
    pub device_proof : Bytes
    pub eph_length : length eph_pk_a_bytes ≡ rot_pubkey_len
    pub eph_point : c.decode_point eph_pk_a_bytes ≡ some eph_pk_a
    pub signed :
        c.verify peer.pk_a device_proof (c.sha256 (transcript c peer eph_pk_a_bytes)) ≡ true
    pub agreed : key ≡ some (session_key c peer eph_pk_a)

  -- Of a result and the state beside it.
  pub record Outcome (r : Result Bool) (s : RotSession) : Type 0 where
    pub authentic : s.authenticated ≡ true → Evidence s.key_ab
    pub accepted : r ≡ ok true → s.authenticated ≡ true
    pub rejected : r ≡ ok false → s.authenticated ≡ false
    pub keyless : s.authenticated ≡ false → s.key_ab ≡ none
    pub unlogged : s.log ≡ []

  abbrev pub Fresh : RotSession → Type 0
  Fresh s = (s.authenticated ≡ false) × (s.key_ab ≡ none) × (s.log ≡ [])

  unaccepted : (r : Result Bool) (s : RotSession) → r ≢ ok true → Fresh s → Outcome r s
  unaccepted r s n (a, k, l) = record {
    authentic = λ h. absurd (true≢false (sym h ∙ a));
    accepted = λ h. absurd (n h);
    rejected = λ h. a;
    keyless = λ h. k;
    unlogged = l;
  }

  refused :
      (message : Text) (s : RotSession)
      → Fresh s
      → Outcome (refuse c message s).0 (refuse c message s).1
  unfolding refuse
  refused message s f = unaccepted (ok false) _ (λ h. cc) f

  raised : (e : Error) (s : RotSession) → Fresh s → Outcome (err e) s
  raised e s f = unaccepted (err e) s (λ h. cc) f

  -- Once accepted, only the acknowledgement is left, and it may fail.
  known :
      (r : Result Bool) (s : RotSession)
      → r ≢ ok false
      → s.authenticated ≡ true
      → s.log ≡ []
      → Evidence s.key_ab
      → Outcome r s
  known r s n a l e = record {
    authentic = λ h. e;
    accepted = λ h. a;
    rejected = λ h. absurd (n h);
    keyless = λ h. absurd (true≢false (sym a ∙ h));
    unlogged = l;
  }

  recv_dict-Fresh : (s : RotSession) → Fresh s → Fresh (recv_dict c s).1
  unfolding recv_dict
  recv_dict-Fresh s f =
      continue_post {S = RotSession} {A = Loaded} {B = Payload} (λ _. Fresh)
        (recv_json c.json s.conn).0 (record s { conn = (recv_json c.json s.conn).1 }) _ (λ _ _. f)
        (λ _ _. f)

  module _ (peer : Peer c.PublicKey) (enrolment : Enrolment peer) where
    concluded :
        (eph_pk_a_bytes : Bytes) (eph_pk_a : c.PublicKey) (device_proof : Bytes) (s : RotSession)
        → length eph_pk_a_bytes ≡ rot_pubkey_len
        → c.decode_point eph_pk_a_bytes ≡ some eph_pk_a
        → Fresh s
        → let (r, s') = conclude c peer eph_pk_a_bytes eph_pk_a device_proof s in Outcome r s'
    unfolding conclude
    concluded eph_pk_a_bytes eph_pk_a device_proof s el ep f =
        elim (Bool-cases
          (c.verify peer.pk_a device_proof (c.sha256 (transcript c peer eph_pk_a_bytes)))) [
            | inl signed ↦ rw signed (
                continue_post Outcome (send_json c.json (session_ack c) s.conn).0
                  (record s {
                    conn = (send_json c.json (session_ack c) s.conn).1;
                    key_ab = some (session_key c peer eph_pk_a);
                    authenticated = true;
                  })
                  _ (λ e _. known (err e) _ (λ h. cc) refl f.2 (proof signed))
                  (λ _ _. known (ok true) _ (λ h. cc) refl f.2 (proof signed)))
            | inr bad ↦ rw bad (refused _ s f)
          ]
      where
        proof :
            c.verify peer.pk_a device_proof (c.sha256 (transcript c peer eph_pk_a_bytes)) ≡ true
            → Evidence (some (session_key c peer eph_pk_a))
        proof signed = record {
          peer = peer;
          enrolment = enrolment;
          eph_pk_a_bytes = eph_pk_a_bytes;
          eph_pk_a = eph_pk_a;
          device_proof = device_proof;
          eph_length = el;
          eph_point = ep;
          signed = signed;
          agreed = refl;
        }

    responded :
        (resp : Payload) (s : RotSession)
        → Fresh s
        → Outcome (check_response c peer resp s).0 (check_response c peer resp s).1
    unfolding check_response
    responded resp s f =
        continue_post Outcome (get_hex (codes "eph_pk_a") rot_pubkey_len resp) s _
          (λ e _. raised e s f)
          λ b eb.
            continue_post Outcome (get_hex_any (codes "device_proof") resp) s _
              (λ e _. raised e s f)
              λ d _. elim (Option-cases (c.decode_point b)) [
                | inl none_e ↦ rw none_e (refused _ s f)
                | inr (point, point_e) ↦
                    rw point_e (concluded b point d s (length-get_hex _ _ resp eb) point_e f)
              ]

    exchanged :
        (s : RotSession)
        → Fresh s
        → Outcome (exchange_proofs c peer s).0 (exchange_proofs c peer s).1
    unfolding exchange_proofs
    exchanged s f =
        let sent = send_json c.json (challenge_message c peer) s.conn in
        let t : RotSession = record s { conn = sent.1 } in
        continue_post Outcome sent.0 t _ (λ e _. raised e t f)
          λ _ _.
            continue_post Outcome (recv_dict c t).0 (recv_dict c t).1 _
              (λ e _. raised e (recv_dict c t).1 (recv_dict-Fresh t f))
              λ resp _. elim (Bool-cases (has_str (codes "type") (codes "response") resp)) [
                | inl yes_e ↦ rw yes_e (responded resp (recv_dict c t).1 (recv_dict-Fresh t f))
                | inr no_e ↦ rw no_e (refused _ (recv_dict c t).1 (recv_dict-Fresh t f))
              ]

  with_entry :
      (id_a challenge_a : Bytes) (entry : Payload) (s : RotSession)
      → length id_a ≡ rot_id_len
      → length challenge_a ≡ challenge_len
      → lookup (hex id_a) c.registry ≡ some entry
      → Fresh s
      → Outcome (enrolled c id_a challenge_a entry s).0 (enrolled c id_a challenge_a entry s).1
  unfolding enrolled
  with_entry id_a challenge_a entry s il cl reg f =
      continue_post Outcome (get_hex (codes "pk_a") rot_pubkey_len entry) s _ (λ e _. raised e s f)
        λ pk pk_e.
          continue_post Outcome (get_hex (codes "shs_b") rot_digest_len entry) s _
            (λ e _. raised e s f)
            λ shs shs_e.
              let t : RotSession = record s { node_label = label_of entry id_a } in
              elim (Option-cases (c.decode_point pk)) [
                | inl none_e ↦ rw none_e (refused _ t f)
                | inr (point, point_e) ↦ rw point_e (
                    exchanged
                      (record { id_a = id_a; challenge_a = challenge_a; pk_a = point; shs_b = shs })
                      (record {
                        entry = entry;
                        pk_a_bytes = pk;
                        id_length = il;
                        challenge_length = cl;
                        registered = reg;
                        pinned = pk_e;
                        key_point = point_e;
                        verifier = shs_e;
                      })
                      t f)
              ]

  identified :
      (hello : Payload) (s : RotSession)
      → Fresh s
      → Outcome (identify c hello s).0 (identify c hello s).1
  unfolding identify
  identified hello s f =
      continue_post Outcome (get_hex (codes "id_a") rot_id_len hello) s _ (λ e _. raised e s f)
        λ id id_e.
          continue_post Outcome (get_hex (codes "challenge_a") challenge_len hello) s _
            (λ e _. raised e s f)
            λ ch ch_e. elim (Option-cases (lookup (hex id) c.registry)) [
              | inl none_e ↦ rw none_e (refused _ s f)
              | inr (entry, entry_e) ↦ rw entry_e (
                  with_entry id ch entry s (length-get_hex _ _ hello id_e)
                    (length-get_hex _ _ hello ch_e) entry_e f)
            ]

  -- From a new session, whatever the device sends and whatever the network does: the handshake
  -- sets `authenticated` only for a device of the registry whose registered key verifies the
  -- signature over the transcript of this session, with `key_ab` the key of that transcript; it
  -- returns True only when it has set `authenticated`; and where it has not, there is no key. No payload is logged.
  pub handshake-Outcome : (s : RotSession) → Fresh s → Outcome (handshake c s).0 (handshake c s).1
  unfolding handshake
  handshake-Outcome s f =
      continue_post Outcome (recv_dict c s).0 (recv_dict c s).1 _
        (λ e _. raised e (recv_dict c s).1 (recv_dict-Fresh s f))
        λ hello _. elim (Bool-cases (has_str (codes "type") (codes "hello") hello)) [
          | inl yes_e ↦ rw yes_e (identified hello (recv_dict c s).1 (recv_dict-Fresh s f))
          | inr no_e ↦ rw no_e (refused _ (recv_dict c s).1 (recv_dict-Fresh s f))
        ]
