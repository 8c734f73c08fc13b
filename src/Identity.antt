-- ===== src/Identity.antt =====
-- src/identity.rs: the identity's hash and key, attestations, and their verification. The
-- deprecated IdentityInfo holds the same two values as PublicIdentity.
pub mod Attestation
use styrene_identity.Prelude.{
  ℕ, Bool, true, false, Result, ok, err, ◌>>=◌, ok_or, if◌then◌else◌, Bytes,
}
use styrene_identity.External.Ed25519.{Ed25519}
use styrene_identity.External.Hex.{Hex}
use styrene_identity.Derive
use styrene_identity.Derive.{Hkdf}
use styrene_identity.IdentityId
use styrene_identity.IdentityId.{IdentityId, try_array}
use styrene_identity.Pubkey.{ed25519_verifying_key, sign_with_seed}

abbrev pub identity_hash_bytes : ℕ
identity_hash_bytes = 16

pub record IdentityInfo : Type 0 where
  pub hash : Bytes
  pub pubkey : Bytes

pub record SignedAttestation : Type 0 where
  pub hash : Bytes
  pub pubkey : Bytes
  pub signature : Bytes

pub record PublicIdentity : Type 0 where
  pub hash : Bytes
  pub pubkey : Bytes

-- The two errors of `from_hex`; their texts are not modelled.
pub data PublicIdentityError : Type 0 where
  invalid_hex invalid_length : PublicIdentityError

-- A signature has 64 bytes, so `Signature::from_bytes` cannot fail.
unfoldable pub identity_verify : Ed25519 → Bytes → Bytes → Bytes → Bool
identity_verify ed pubkey message sig =
    if Ed25519.is_point ed pubkey then Ed25519.verify ed pubkey message sig else false

module _ (hkdf : Hkdf) (ed : Ed25519) where
  unfoldable pub identity_pubkey : Bytes → Bytes
  identity_pubkey root =
      let seed = Derive.derive hkdf (Derive.new hkdf root) Derive.signing in
      ed25519_verifying_key ed seed

module _ (sha256 : Bytes → Bytes) (hex : Hex) where
  -- `IdentityId::from_public_key(..).to_string()`
  unfoldable pub hash_of : Bytes → Bytes
  hash_of pubkey = IdentityId.to_string hex (IdentityId.from_public_key sha256 pubkey)

  unfoldable pub from_pubkey : Bytes → PublicIdentity
  unfolding hash_of
  from_pubkey pubkey = record { hash = hash_of pubkey; pubkey = pubkey }

  unfoldable pub from_hex : Bytes → Result PublicIdentityError PublicIdentity
  from_hex hex_str = do
    bytes ← ok_or (Hex.decode hex hex_str) invalid_hex
    pubkey ← ok_or (try_array 32 bytes) invalid_length
    ok (from_pubkey pubkey)

  -- `parse::<IdentityId>().is_ok_and(..)`
  unfoldable pub verify_hash : PublicIdentity → Bytes → Bool
  verify_hash self claimed_hash = elim (IdentityId.from_str hex claimed_hash) [
    | err why ↦ false
    | ok claimed ↦ IdentityId.matches_public_key sha256 claimed self.pubkey
  ]

  unfoldable pub verify : Ed25519 → PublicIdentity → Bytes → Bytes → Bool
  verify ed self message sig = identity_verify ed self.pubkey message sig

  module _ (hkdf : Hkdf) (ed : Ed25519) where
    unfoldable pub identity_hash : Bytes → Bytes
    unfolding hash_of
    identity_hash root = hash_of (identity_pubkey hkdf ed root)

    unfoldable pub info_from_root : Bytes → IdentityInfo
    unfolding hash_of
    info_from_root root =
        let pubkey = identity_pubkey hkdf ed root in
        record { hash = hash_of pubkey; pubkey = pubkey }

    unfoldable pub identity_sign : Bytes → Bytes → SignedAttestation
    identity_sign root message =
        let seed = Derive.derive hkdf (Derive.new hkdf root) Derive.signing in
        record {
          hash = identity_hash root;
          pubkey = identity_pubkey hkdf ed root;
          signature = sign_with_seed ed seed message;
        }
