-- ===== src/Registration/Tests.antt =====
-- Runs of the registration tool on small registries.
use smg_secure_microgrid.Wire.Hex.{hex}
use smg_secure_microgrid.Registration.Entries.{main-Described, Described}
use smg_secure_microgrid.Registration.Reachable.{after_runs-Formed, after_runs, Formed}
use smg_secure_microgrid.Registration.Lookups.{register_upper, HasUpper}
use smg_secure_microgrid.Base.Dict.{insert, lookup-nil, Payload, lookup, Dict}
use smg_secure_microgrid.Base.{
  ◌≡◌, refl, sym, ◌∙◌, ◌≢◌, ◌⊎◌, inl, inr, true, false, none, some, List, [], ◌∷◌, ◌++◌, arith,
  take, replicate, value, err, Bytes, Text, codes, same,
}
use smg_secure_microgrid.Registration.{new_entry, given, main, Args, registered}
use smg_secure_microgrid.Base.{◌⊎◌, inr, true, err, value, take}
use smg_secure_microgrid.Base.Dict.{str}
use smg_secure_microgrid.Rot.{Setting, RotSession, new_session, identify, exchange_proofs}
use smg_secure_microgrid.Registration.Handshake.{register-identify, Enrols}

abbrev no_args : Args
no_args = record {
  id_a = none;
  pk_a = none;
  label = none;
  shs_b = none;
  remove = none;
  list_entries = false;
}

-- Thirty-two characters, the first of them an `A`.
abbrev upper_id : Text
upper_id = 65 ∷ replicate 31 48

abbrev some_pk : Text
some_pk = codes "04" ++ replicate 128 49

abbrev args : Args
args = record no_args {
  id_a = some upper_id;
  pk_a = some some_pk;
  label = some (codes "SMG_NODE_01");
}

abbrev token : Bytes
token = replicate 32 171

abbrev written : Dict Payload
written = insert upper_id (new_entry some_pk (hex token) (codes "SMG_NODE_01")) []

writes : main token args [] ≡ registered written
unfolding main given same
writes = refl

-- A device in lower-case digits, and its hello to a server that has the registry.
abbrev device_pk : Bytes
device_pk = 4 ∷ replicate 64 1

abbrev device_args : Args
device_args = record no_args { id_a = some (hex (replicate 16 161)); pk_a = some (hex device_pk) }

abbrev server : Setting
server = record {
  primitives = record {
    PublicKey = Bytes;
    SecretKey = Bytes;
    sha256 = λ b. replicate 32 1;
    decode_point = λ b. some b;
    encode_point = λ pk. pk;
    public_key = λ sk. sk;
    exchange = λ sk pk. sk;
    verify = λ pk proof digest. true;
    aes_encrypt = λ key nonce text. text;
    aes_decrypt = λ key nonce text. some text;
  };
  json = record { dumps = λ p. []; loads = λ b. err value };
  text_of = λ v. [];
  challenge_b = replicate 16 2;
  eph_sk_b = 3 ∷ [];
  id_b = replicate 16 4;
  registry =
      insert (hex (replicate 16 161))
        (new_entry (hex device_pk) (hex token) (take 8 (hex (replicate 16 161)))) [];
}

abbrev hello : Payload
hello =
    (codes "type", str (codes "hello"))
    ∷ (codes "id_a", str (hex (replicate 16 161)))
    ∷ (codes "challenge_a", str (hex (replicate 16 5)))
    ∷ []

enrols : Enrols token device_args server hello
unfolding given hex lookup same
enrols = record {
  id = replicate 16 161;
  challenge = replicate 16 5;
  pk = device_pk;
  shs = token;
  point = device_pk;
  id_given = refl;
  pk_given = refl;
  shs_given = inr (refl, refl, refl);
  id_sent = refl;
  challenge_sent = refl;
  challenge_size = refl;
  id_bytes = grind arith;
  challenge_bytes = grind arith;
  pk_bytes = grind arith;
  shs_bytes = grind arith;
  decoded = refl;
}

device_written : main token device_args [] ≡ registered server.registry
unfolding main given same hex
device_written = refl

abbrev waiting : RotSession
waiting = new_session (record { incoming = []; sent = []; room = 1; closed = false })

register-identify_example :
    (label : Text) × ((given none ≡ some label)
      ⊎ ((given none ≡ none) × (label ≡ take 8 (hex enrols.id))))
    × (identify server hello waiting
        ≡ exchange_proofs server
            (record {
              id_a = enrols.id;
              challenge_a = enrols.challenge;
              pk_a = enrols.point;
              shs_b = enrols.shs;
            })
            (record waiting { node_label = str label }))
register-identify_example =
    register-identify token device_args [] server hello waiting enrols device_written

id_given : given (some upper_id) ≡ some upper_id
unfolding given
id_given = refl

upper_case : HasUpper upper_id
upper_case = inl (omega arith, omega arith)

register_upper_example :
    lookup (hex (160 ∷ replicate 15 0)) written ≡ lookup (hex (160 ∷ replicate 15 0)) []
register_upper_example =
    register_upper token args [] written upper_id writes id_given upper_case (160 ∷ replicate 15 0)
      (grind arith)

-- A registration and a removal.
abbrev runs : List (Bytes × Args)
runs = (token, args) ∷ (token, record no_args { remove = some upper_id }) ∷ []

nothing-Formed : Formed []
nothing-Formed id entry h = absurd (none≢some (sym (lookup-nil id) ∙ h))
  where
    none≢some : none ≢ some entry
    none≢some p = cc

after_runs-Formed_example : Formed (after_runs runs [])
after_runs-Formed_example = after_runs-Formed runs [] (refl, (refl, tt)) nothing-Formed

main-Described_example : Described token args [] (main token args [])
main-Described_example = main-Described token args []
