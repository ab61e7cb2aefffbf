-- ===== src/Rot/Transcript.antt =====
-- The signed string of smg_primary_server/rot_challenge_service.py determines every one of its
-- fields: no two sessions that differ in a field have one transcript.
use smg_secure_microgrid.Base.{◌≡◌, refl, arith, length, append_inj, Bytes}
use smg_secure_microgrid.Rot.{
  Setting, Peer, device_proof_domain_tag, eph_pk_b, server_proof, transcript, rot_id_len,
  rot_pubkey_len, challenge_len,
}

-- The lengths that `hex_to_bin`, the generators and the hash give the fields.
pub record WellSized (c : Setting) (peer : Peer c.PublicKey) (eph_pk_a : Bytes) : Type 0 where
  pub id_a : length peer.id_a ≡ rot_id_len
  pub id_b : length c.id_b ≡ rot_id_len
  pub challenge_b : length c.challenge_b ≡ challenge_len
  pub challenge_a : length peer.challenge_a ≡ challenge_len
  pub eph_a : length eph_pk_a ≡ rot_pubkey_len
  pub eph_b : length (eph_pk_b c) ≡ rot_pubkey_len

-- Two sessions, perhaps of different servers, with well-sized fields and equal signed strings have
-- the same identifiers, nonces, ephemeral keys and server proof.
pub transcript_inj :
    (c d : Setting) (p : Peer c.PublicKey) (q : Peer d.PublicKey) (x y : Bytes)
    → WellSized c p x
    → WellSized d q y
    → transcript c p x ≡ transcript d q y
    → (p.id_a ≡ q.id_a)
      × (c.id_b ≡ d.id_b)
      × (c.challenge_b ≡ d.challenge_b)
      × (p.challenge_a ≡ q.challenge_a)
      × (x ≡ y)
      × (eph_pk_b c ≡ eph_pk_b d)
      × (server_proof c p ≡ server_proof d q)
unfolding transcript
transcript_inj c d p q x y h k e =
    let (_, e1) = append_inj device_proof_domain_tag device_proof_domain_tag _ _ refl e in
    let (r1, e2) = append_inj p.id_a q.id_a _ _ (omega arith) e1 in
    let (r2, e3) = append_inj c.id_b d.id_b _ _ (omega arith) e2 in
    let (r3, e4) = append_inj c.challenge_b d.challenge_b _ _ (omega arith) e3 in
    let (r4, e5) = append_inj p.challenge_a q.challenge_a _ _ (omega arith) e4 in
    let (r5, e6) = append_inj x y _ _ (omega arith) e5 in
    let (r6, e7) = append_inj (eph_pk_b c) (eph_pk_b d) _ _ (omega arith) e6 in
    (r1, r2, r3, r4, r5, r6, e7)
