-- ===== src/Identity/Attestation.antt =====
-- Attestations of src/identity.rs verify, and a public key answers to one hash.
use styrene_identity.Prelude.{
  ℕ, suc, zero, ◌≡◌, ◌↔◌, refl, sym, ap, ◌∙◌, true, [], ◌∷◌, Result-cases, inl, inr, length, take,
  length-take, All, Bytes, bytes_eq_iff, arith,
}
use styrene_identity.External.Ed25519.{Ed25519, IsEd25519}
use styrene_identity.External.Hex.{Hex, IsByte, IsHex}
use styrene_identity.Derive
use styrene_identity.Derive.{Hkdf}
use styrene_identity.IdentityId
use styrene_identity.IdentityId.{IdentityId}
use styrene_identity.IdentityId.Text.{IsId, from_str-to_string, to_string-from_str}
use styrene_identity.Identity.{
  identity_verify, identity_pubkey, hash_of, from_pubkey, verify_hash, verify, identity_hash,
  identity_sign,
}
use styrene_identity.Pubkey.{ed25519_verifying_key, sign_with_seed}

-- SHA-256 gives 32 bytes.
pub record IsHash (sha256 : Bytes → Bytes) : Type 0 where
  pub size : (x : Bytes) → length (sha256 x) ≡ 32
  pub small : (x : Bytes) → All IsByte (sha256 x)

All-take : (n : ℕ) (xs : Bytes) → All IsByte xs → All IsByte (take n xs)
All-take zero xs h = tt
All-take (suc n) [] h = tt
All-take (suc n) (x ∷ xs) h = (h.0, All-take n xs h.1)

module _ (sha256 : Bytes → Bytes) (digest : IsHash sha256) (hex : Hex) (law : IsHex hex) where
  from_public_key-IsId : (key : Bytes) → IsId (IdentityId.from_public_key sha256 key)
  unfolding IdentityId.from_public_key
  from_public_key-IsId key = (
    length-take 16 (sha256 key) (omega (arith, digest.size key)),
    All-take 16 (sha256 key) (digest.small key),
  )

  matches_iff :
      (i : IdentityId) (key : Bytes)
      → (IdentityId.matches_public_key sha256 i key ≡ true)
        ↔ (i ≡ IdentityId.from_public_key sha256 key)
  unfolding IdentityId.matches_public_key
  matches_iff i key =
      ground (arith, bytes_eq_iff i.bytes (IdentityId.from_public_key sha256 key).bytes)

  -- A public key answers to its own hash and to no other text: not to another case, length or
  -- identity.
  pub verify_hash_iff :
      (key claimed : Bytes)
      → (verify_hash sha256 hex (from_pubkey sha256 hex key) claimed ≡ true)
        ↔ (claimed ≡ (from_pubkey sha256 hex key).hash)
  unfolding verify_hash from_pubkey hash_of
  verify_hash_iff key claimed =
      let own = IdentityId.from_public_key sha256 key in
      (
        λ h. elim (Result-cases (IdentityId.from_str hex claimed)) [
          | inr (why, failed) ↦ absurd (let h' = rw (verify_hash, failed) at h in cc)
          | inl (i, parsed) ↦
              let same = (matches_iff i key).0 (rw (verify_hash, parsed) at h) in
              sym (to_string-from_str hex law claimed i parsed).0
              ∙ ap (IdentityId.to_string hex) same
        ],
        λ e.
            rw
              (
                e,
                verify_hash,
                from_pubkey,
                hash_of,
                from_str-to_string hex law own (from_public_key-IsId key),
              )
              ((matches_iff own key).1 refl),
      )

  module _ (hkdf : Hkdf) (ed : Ed25519) (signs : IsEd25519 ed) where
    -- An attestation verifies from what it carries alone: its public key accepts its hash and its
    -- signature over the attested bytes, and the hash is that of the identity.
    pub verify-identity_sign :
        (root message : Bytes)
        → let a = identity_sign sha256 hex hkdf ed root message in
          let p = from_pubkey sha256 hex a.pubkey in
          (verify_hash sha256 hex p a.hash ≡ true)
          × (verify sha256 hex ed p message a.signature ≡ true)
          × (a.hash ≡ identity_hash sha256 hex hkdf ed root)
    unfolding identity_sign verify identity_verify identity_pubkey from_pubkey identity_hash
        ed25519_verifying_key sign_with_seed
    verify-identity_sign root message =
        let seed = Derive.derive hkdf (Derive.new hkdf root) Derive.signing in
        let key = Ed25519.verifying_key ed seed in
        (
          (verify_hash_iff key (hash_of sha256 hex key)).1 refl,
          rw (signs.key_point seed) (signs.verify-sign seed message),
          refl,
        )
