-- ===== src/Rot/Primitives.antt =====
-- What smg_primary_server/rot_challenge_service.py takes from `hashlib` and `cryptography`: SHA-256,
-- ECDSA and ECDH over P-256, AES-GCM. Nothing is assumed of them here; a theorem that relies on a
-- law names it.
use smg_secure_microgrid.Base.{Bool, Option, Bytes}

pub record Primitives : Type 1 where
  pub PublicKey : Type 0
  pub SecretKey : Type 0
  pub sha256 : Bytes → Bytes
  -- `from_encoded_point(SECP256R1(), b)`, where `none` is its `ValueError`
  pub decode_point : Bytes → Option PublicKey
  -- `public_bytes(X962, UncompressedPoint)`
  pub encode_point : PublicKey → Bytes
  pub public_key : SecretKey → PublicKey
  -- `sk.exchange(ECDH(), pk)`
  pub exchange : SecretKey → PublicKey → Bytes
  -- `pk.verify(signature, digest, ECDSA(Prehashed(SHA256())))`, where `false` is `InvalidSignature`
  pub verify : PublicKey → Bytes → Bytes → Bool
  -- `AESGCM(key).encrypt(nonce, text, None)`
  pub aes_encrypt : Bytes → Bytes → Bytes → Bytes
  -- `AESGCM(key).decrypt(nonce, text, None)`, where `none` is `InvalidTag`
  pub aes_decrypt : Bytes → Bytes → Bytes → Option Bytes
