-- ===== src/External/Ed25519.antt =====
-- Ed25519 as `ed25519-dalek` offers it. A signing key is its 32-byte seed.
use styrene_identity.Prelude.{◌≡◌, Bool, true, false, length, Bytes}

pub record Ed25519 : Type 0 where
  -- `SigningKey::from_bytes(seed).verifying_key().to_bytes()`
  pub verifying_key : Bytes → Bytes
  -- `SigningKey::from_bytes(seed).sign(message).to_bytes()`
  pub sign : Bytes → Bytes → Bytes
  -- Whether `VerifyingKey::from_bytes` succeeds, and `is_weak` of its result.
  pub is_point : Bytes → Bool
  pub is_weak : Bytes → Bool
  -- Whether `verify` and `verify_strict` of a key accept a message and a signature.
  pub verify : Bytes → Bytes → Bytes → Bool
  pub verify_strict : Bytes → Bytes → Bytes → Bool

-- The key of a seed is a valid point of large order, and accepts what the seed signs.
pub record IsEd25519 (ed : Ed25519) : Type 0 where
  pub key_size : (seed : Bytes) → length (ed.verifying_key seed) ≡ 32
  pub signature_size : (seed message : Bytes) → length (ed.sign seed message) ≡ 64
  pub key_point : (seed : Bytes) → ed.is_point (ed.verifying_key seed) ≡ true
  pub key_strong : (seed : Bytes) → ed.is_weak (ed.verifying_key seed) ≡ false
  pub verify-sign :
      (seed message : Bytes)
      → ed.verify (ed.verifying_key seed) message (ed.sign seed message) ≡ true
  pub verify_strict-sign :
      (seed message : Bytes)
      → ed.verify_strict (ed.verifying_key seed) message (ed.sign seed message) ≡ true
