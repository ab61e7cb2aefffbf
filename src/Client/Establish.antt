-- ===== src/Client/Establish.antt =====
-- P3 between `SecureNodeClient` of smg_primary_server/pc_client.py and `_run_p3` of
-- smg_primary_server/auth_service.py.
pub mod Parts
use smg_secure_microgrid.Wire.Socket.{Conn}
use smg_secure_microgrid.Base.Exec.{pure, continue}
use smg_secure_microgrid.Wire.Frame.{recv_msg, send_msg}
use smg_secure_microgrid.Client.Establish.Parts.{
  part_3, part_2, part_1, part_0, head_lem, end_lem, middle_lem,
}
use smg_secure_microgrid.Client.Formats.{ts_bytes}
use smg_secure_microgrid.Session.Establish.{
  p3_body, check_conf_type, run_p3, check_conf, finalize, init_block, confirmation, reply_to,
  offer_session, new_offer, init_reg_of, pending, Offer, preinit_of,
}
use smg_secure_microgrid.Wire.Endian.{pack-fits, pack, be_bytes}
use smg_secure_microgrid.Base.Dict.{has_str, lookup, Payload}
use smg_secure_microgrid.Client.Agreement.{InSync, world}
use smg_secure_microgrid.Client.{
  p3_initiator_finalize, str, p3_initiator_prepare, init_reg, raw, SecureNodeClient, World,
}
use smg_secure_microgrid.Crypto.{decrypt_gcm, id_size, gcm_nonce_size, encrypt_gcm, digest_size}
use smg_secure_microgrid.Crypto.Gcm.{decrypt_gcm-encrypt_gcm, Aead}
use smg_secure_microgrid.Session.{as_bytes, item, on_conn, State, Server}
use smg_secure_microgrid.Base.{
  ℕ, ◌+◌, ◌^◌, ◌<◌, ◌≡◌, refl, ap, ap₂, ◌∙◌, true, some, [], ◌∷◌, ◌++◌, length, take, connection,
  wrong_type, runtime, other, Result, ok, guard, of_option, Bytes, codes, same, same_refl,
}
use smg_secure_microgrid.Base.Post.{continue-ok, >>=-ok}

module _ (c : Server) (aead : Aead c.library) (urandom : ℕ → ℕ → Bytes) (time : ℕ → ℕ)
    (sizes : (i k : ℕ) → length (urandom i k) ≡ k)
    (server_sizes : (i k : ℕ) → length (c.urandom i k) ≡ k)
    (digest : (m : Bytes) → length (c.library.h_sha256 m) ≡ digest_size) where
  abbrev w : World
  w = world c aead urandom time sizes

  -- After P2: both hold the shared secret and the genesis block, and know each other.
  pub record Rooted (n : SecureNodeClient) (s : State c) : Type 0 where
    pub shs : Bytes
    pub prv : Bytes
    pub client_shs : n.shs_ab ≡ some shs
    pub server_shs : s.shs_ab ≡ some shs
    pub client_head : n.prv_bl ≡ some prv
    pub server_head : s.prv_bl ≡ some prv
    pub client_peer : n.peer_id ≡ some (raw c.server_id)
    pub server_peer : s.peer_id ≡ some n.id

  module _ (n : SecureNodeClient) (s : State c) (roots : Rooted n s)
      (now : time (n.drawn + 1) < 256 ^ 8) where
    abbrev rdn1 : Bytes
    rdn1 = urandom n.drawn 16

    abbrev ts : Bytes
    ts = be_bytes 8 (time (n.drawn + 1))

    abbrev reg : Bytes
    reg = init_reg w rdn1 ts n.id c.server_id roots.shs

    abbrev preinit : Bytes
    preinit = preinit_of c.library roots.prv reg

    abbrev init_cif : Bytes
    init_cif =
        encrypt_gcm c.library (urandom (n.drawn + 1 + 1) gcm_nonce_size) (preinit ++ (rdn1 ++ ts))
          roots.shs

    -- The client's first message, and the client after it.
    abbrev pub init_message : Payload
    init_message =
        (codes "type", str (codes "ses_init"))
        ∷ (codes "INIT_cif", raw init_cif)
        ∷ (codes "ID_A", raw n.id)
        ∷ []

    abbrev pub prepared : SecureNodeClient
    prepared = record n { r_a2 = some rdn1; drawn = n.drawn + 1 + 1 + 1 }

    prepare_lem : p3_initiator_prepare w (raw c.server_id) n ≡ (ok init_message, prepared)
    unfolding p3_initiator_prepare ts_bytes as_bytes preinit_of
    prepare_lem =
        let n1 = record n { r_a2 = some rdn1; drawn = n.drawn + 1 + 1 } in
        continue-ok (pack 8 (time (n.drawn + 1))) n1 _ (pack-fits 8 (time (n.drawn + 1)) now)
        ∙ continue-ok (of_option wrong_type n.shs_ab) n1 _
            (ap (of_option wrong_type) roots.client_shs)
        ∙ continue-ok (of_option wrong_type n.prv_bl) n1 _
            (ap (of_option wrong_type) roots.client_head)

    -- What the server makes of it.
    abbrev pub offer : Offer
    offer = record {
      prv = roots.prv;
      preinit_bl = preinit;
      init_reg = reg;
      rdn1 = rdn1;
      rdn2 = c.urandom (s.drawn + 1) id_size;
      new_id = c.urandom s.drawn id_size;
      new_key = c.library.h_sha256 (c.urandom (s.drawn + 1) id_size ++ roots.shs);
    }

    abbrev pub reply : Payload
    reply = reply_to c.library offer (c.urandom (s.drawn + 1 + 1) gcm_nonce_size) preinit roots.shs

    abbrev pub offered : State c
    offered = record s { drawn = s.drawn + 1 + 1 + 1; p3_pending = pending offer }

    abbrev plain : Bytes
    plain = preinit ++ (rdn1 ++ ts)

    preinit_size : length preinit ≡ 32
    unfolding preinit_of
    preinit_size = digest _

    reg_lem : init_reg_of c.library plain n.id c.server_id roots.shs ≡ reg
    unfolding init_reg_of init_reg
    reg_lem =
        rw
          (
            middle_lem preinit rdn1 ts preinit_size (sizes n.drawn 16),
            end_lem preinit rdn1 ts preinit_size (sizes n.drawn 16),
          )
          refl

    offer_lem :
        new_offer c.library roots.prv
          (init_reg_of c.library plain n.id c.server_id roots.shs)
          plain
          roots.shs
          (c.urandom s.drawn id_size)
          (c.urandom (s.drawn + 1) id_size)
        ≡ offer
    offer_lem = rw (reg_lem, middle_lem preinit rdn1 ts preinit_size (sizes n.drawn 16)) refl

    -- The sending of the reply, with what it leaves.
    abbrev replies : Offer → Bytes → Result Offer × State c
    replies o p =
        let s1 = record s { drawn = s.drawn + 1 + 1 + 1; p3_pending = pending o } in
        let sent =
          on_conn
            (send_msg c.json
              (reply_to c.library o (c.urandom (s.drawn + 1 + 1) gcm_nonce_size) p roots.shs))
            s1 in
        continue sent.0 (λ u. pure o) sent.1

    offer_session_lem : offer_session c init_message s ≡ replies offer preinit
    unfolding offer_session item as_bytes lookup same
    offer_session_lem =
        let head = head_lem preinit rdn1 ts preinit_size (sizes n.drawn 16) in
        continue-ok (of_option wrong_type s.shs_ab) s _ (ap (of_option wrong_type) roots.server_shs)
        ∙ continue-ok (decrypt_gcm c.library init_cif roots.shs) s _ (
            decrypt_gcm-encrypt_gcm c.library aead _ plain roots.shs
              (sizes (n.drawn + 1 + 1) gcm_nonce_size))
        ∙ continue-ok (of_option wrong_type s.peer_id) s _
            (ap (of_option wrong_type) roots.server_peer)
        ∙ continue-ok (of_option wrong_type s.prv_bl) s _
            (ap (of_option wrong_type) roots.server_head)
        ∙ continue-ok
            (guard
              (same
                (preinit_of c.library roots.prv
                  (init_reg_of c.library plain n.id c.server_id roots.shs))
                (take digest_size plain))
              runtime)
            s _ (rw (reg_lem, head, same_refl preinit) refl)
        ∙ ap₂ replies offer_lem head

    -- The client's second message, and the client after it.
    abbrev pub conf_message : Payload
    conf_message =
        (codes "type", str (codes "ses_conf"))
        ∷ (
          codes "CONF_cif",
          raw (
              encrypt_gcm c.library (urandom (n.drawn + 1 + 1 + 1) gcm_nonce_size)
                (confirmation c.library offer.new_key offer.new_id rdn1 offer.rdn2) offer.new_key),
        )
        ∷ (codes "ID_A", raw n.id)
        ∷ []

    abbrev pub finalized : SecureNodeClient
    finalized = record prepared {
      ses_id = some offer.new_id;
      k_ab_enc = some offer.new_key;
      prv_bl = some (init_block c.library offer);
      drawn = n.drawn + 1 + 1 + 1 + 1;
    }

    client_takes : p3_initiator_finalize w reply prepared ≡ (ok conf_message, finalized)
    unfolding p3_initiator_finalize reply_to item as_bytes lookup same confirmation init_block
    client_takes =
        let a = c.urandom s.drawn id_size in
        let b = c.urandom (s.drawn + 1) id_size in
        let la = server_sizes s.drawn id_size in
        let lb = server_sizes (s.drawn + 1) id_size in
        let ld = sizes n.drawn 16 in
        continue-ok (of_option wrong_type n.shs_ab) prepared _
          (ap (of_option wrong_type) roots.client_shs)
        ∙ continue-ok (decrypt_gcm c.library _ roots.shs) prepared _ (
            decrypt_gcm-encrypt_gcm c.library aead _ (a ++ (b ++ (rdn1 ++ preinit))) roots.shs
              (server_sizes (s.drawn + 1 + 1) gcm_nonce_size))
        ∙ rw
            (
              part_0 a b rdn1 preinit la lb ld preinit_size,
              part_1 a b rdn1 preinit la lb ld preinit_size,
              part_2 a b rdn1 preinit la lb ld preinit_size,
              part_3 a b rdn1 preinit la lb ld preinit_size,
              same_refl rdn1,
              roots.client_head,
            )
            refl

    -- The acknowledgement of the session.
    abbrev pub ack : Payload
    ack = (codes "type", str (codes "ses_conf_ack")) ∷ (codes "SES_id", raw offer.new_id) ∷ []

    -- The connection takes the server's two messages and delivers the client's second one.
    pub record Delivered : Type 0 where
      pub conn_1 : Conn
      pub conn_2 : Conn
      pub conn_3 : Conn
      pub reply_lem : send_msg c.json reply s.conn ≡ (ok tt, conn_1)
      pub conf_lem : recv_msg c.json 65536 conn_1 ≡ (ok conf_message, conn_2)
      pub ack_lem : send_msg c.json ack conn_2 ≡ (ok tt, conn_3)

    module _ (net : Delivered) where
      abbrev waiting : State c
      waiting = record offered { conn = net.conn_1 }

      abbrev confirmed : State c
      confirmed = record offered { conn = net.conn_2 }

      abbrev pub established : State c
      established = record (finalize c offer confirmed) {
        conn = net.conn_3;
        trust_score = 80;
        consecutive_anomalies = 0;
      }

      offer_done : offer_session c init_message s ≡ (ok offer, waiting)
      offer_done =
          offer_session_lem
          ∙ >>=-ok (on_conn (send_msg c.json reply)) (λ u. pure offer) offered
              (ap (λ r. (r.0, record offered { conn = r.1 })) net.reply_lem)

      check_done : check_conf c offer waiting ≡ (ok tt, confirmed)
      unfolding check_conf check_conf_type has_str item as_bytes lookup same
      check_done =
          let tag = confirmation c.library offer.new_key offer.new_id rdn1 offer.rdn2 in
          >>=-ok (on_conn (recv_msg c.json 65536)) _ waiting
            (ap (λ r. (r.0, record offered { conn = r.1 })) net.conf_lem)
          ∙ continue-ok (decrypt_gcm c.library _ offer.new_key) confirmed _ (
              decrypt_gcm-encrypt_gcm c.library aead _ tag offer.new_key
                (sizes (n.drawn + 1 + 1 + 1) gcm_nonce_size))
          ∙ rw (same_refl tag) refl

      run_p3_lem : run_p3 c init_message s ≡ (ok true, established)
      unfolding run_p3 p3_body finalize
      run_p3_lem =
          let body : p3_body c init_message s ≡ (ok true, established) =
            >>=-ok (offer_session c init_message) _ s offer_done
            ∙ >>=-ok (check_conf c offer) _ waiting check_done
            ∙ >>=-ok (on_conn (send_msg c.json ack)) _ (finalize c offer confirmed)
                (ap (λ r. (r.0, record (finalize c offer confirmed) { conn = r.1 })) net.ack_lem) in
          rw body refl

      -- Both sides returned, and are in step.
      abbrev pub P3Agreed : Type 0
      P3Agreed =
          (p3_initiator_prepare w (raw c.server_id) n ≡ (ok init_message, prepared))
          × (p3_initiator_finalize w reply prepared ≡ (ok conf_message, finalized))
          × (run_p3 c init_message s ≡ (ok true, established))
          × InSync c aead urandom time sizes finalized established

      -- A client and a session that agree after P2 agree after P3, over a connection that delivers
      -- the three messages of that phase: the client prepares the first, takes the server's reply
      -- and gives the second, `_run_p3` returns True, and both are in step for the data messages.
      -- AES-GCM obeys `Aead`, digests have 32 bytes, `os.urandom` returns as many bytes as it is
      -- asked for on either side, and the client's time fits eight bytes.
      pub p3_agreement : P3Agreed
      unfolding finalize
      p3_agreement = (
        prepare_lem,
        client_takes,
        run_p3_lem,
        record {
          same_key = refl;
          same_id = refl;
          same_head = refl;
          peer_lem = rw roots.client_peer (unfold as_bytes in refl);
        },
      )
