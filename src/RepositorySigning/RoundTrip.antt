-- ===== src/RepositorySigning/RoundTrip.antt =====
-- Issued bindings verify: src/repository_signing.rs, from `issue` to
-- `verify_repository_signer_binding`.
use styrene_identity.Prelude.{
  ℕ, ◌≤◌, ◌<◌, ◌^◌, ◌≡◌, refl, true, ◌++◌, ok, length, length-take, Bytes, bytes_eq_iff, arith,
}
use styrene_identity.External.Minicbor.{Minicbor, IsMinicbor}
use styrene_identity.External.Ed25519.{Ed25519, IsEd25519}
use styrene_identity.IdentityId
use styrene_identity.Derive
use styrene_identity.Derive.{Hkdf}
use styrene_identity.Records.Frame.{layout}
use styrene_identity.RepositorySigning.{
  Claims, RepositorySignerBinding, VerifiedRepositorySignerBinding, signing_domain, digest_domain,
  signing_frame, validate_public_key, issue, issue_derived, canonical_bytes, digest,
  verify_repository_signer_binding,
}
use styrene_identity.RepositorySigning.Protected.{
  IsClaims, protected_bytes, protected_size, encode_protected_lem, decode_protected_lem,
}
use styrene_identity.RepositorySigning.Outer.{
  outer_bytes, outer_size, encode_outer_lem, decode_outer_lem,
}

-- The frame is that of every signed structure of the program, under the binding's own domain.
pub signing_frame-layout :
    (protected : Bytes)
    → length protected ≤ 256
    → signing_frame protected ≡ ok (layout signing_domain protected)
unfolding signing_frame
signing_frame-layout protected h = ground arith

module _ (m : Minicbor) (law : IsMinicbor m) (ed : Ed25519) (signs : IsEd25519 ed)
    (sha256 : Bytes → Bytes) (hash_size : (x : Bytes) → length (sha256 x) ≡ 32) where
  -- What a binding of the key of `seed` states.
  abbrev pub stated : Bytes → Bytes → ℕ → Claims
  stated seed key epoch = record {
    identity_id = IdentityId.from_public_key sha256 (Ed25519.verifying_key ed seed);
    identity_public_key = Ed25519.verifying_key ed seed;
    repository_public_key = key;
    epoch = epoch;
  }

  stated-IsClaims :
      (seed key : Bytes) (epoch : ℕ)
      → length key ≡ 32
      → epoch < 2 ^ 32
      → IsClaims (stated seed key epoch)
  unfolding IdentityId.from_public_key
  stated-IsClaims seed key epoch size range = record {
    id_size =
        length-take 16 (sha256 (Ed25519.verifying_key ed seed))
          (omega (arith, hash_size (Ed25519.verifying_key ed seed)));
    identity_key_size = signs.key_size seed;
    repository_key_size = size;
    epoch_range = range;
  }

  -- The binding that is issued, and its bytes.
  abbrev pub issued : Bytes → Bytes → ℕ → RepositorySignerBinding
  issued seed key epoch =
      let protected = protected_bytes m law (stated seed key epoch) in
      record {
        protected = protected;
        signature = Ed25519.sign ed seed (layout signing_domain protected);
      }

  abbrev pub binding_bytes : RepositorySignerBinding → Bytes
  binding_bytes b = outer_bytes m law b.protected b.signature

  identity_key_valid :
      (seed : Bytes) → validate_public_key m ed (Ed25519.verifying_key ed seed) ≡ ok tt
  unfolding validate_public_key
  identity_key_valid seed = ground (arith, signs.key_point seed, signs.key_strong seed)

  module _ (seed key : Bytes) (epoch : ℕ) (size : length key ≡ 32) (range : epoch < 2 ^ 32)
      (valid : validate_public_key m ed key ≡ ok tt) where
    issue_lem : issue m ed sha256 seed key epoch ≡ ok (issued seed key epoch)
    unfolding issue
    issue_lem =
        let v = stated-IsClaims seed key epoch size range in
        rw (
          valid,
          encode_protected_lem m law (stated seed key epoch) v,
          signing_frame-layout _ (protected_size m law (stated seed key epoch) v),
        )

    canonical_bytes_lem :
        canonical_bytes m ed sha256 (issued seed key epoch)
        ≡ ok (binding_bytes (issued seed key epoch))
    unfolding canonical_bytes
    canonical_bytes_lem =
        encode_outer_lem m law _ _
          (protected_size m law _ (stated-IsClaims seed key epoch size range))
          (signs.signature_size seed _)

    matches :
        IdentityId.matches_public_key sha256
          (stated seed key epoch).identity_id
          (Ed25519.verifying_key ed seed)
        ≡ true
    unfolding IdentityId.matches_public_key
    matches = (bytes_eq_iff _ _).1 refl

    verified : VerifiedRepositorySignerBinding
    verified = record {
      identity_id = IdentityId.from_public_key sha256 (Ed25519.verifying_key ed seed);
      identity_public_key = Ed25519.verifying_key ed seed;
      repository_public_key = key;
      epoch = epoch;
      digest = sha256 (digest_domain ++ binding_bytes (issued seed key epoch));
    }

    verify_lem :
        verify_repository_signer_binding m ed sha256 (binding_bytes (issued seed key epoch))
        ≡ ok verified
    unfolding verify_repository_signer_binding verified
    verify_lem =
        let c = stated seed key epoch in
        let v = stated-IsClaims seed key epoch size range in
        let small = protected_size m law c v in
        let sized = signs.signature_size seed (layout signing_domain (protected_bytes m law c)) in
        let b = issued seed key epoch in
        let bounded = outer_size m law b.protected b.signature small sized in
        rw
          (
            decode_outer_lem m law b.protected b.signature (omega arith) sized,
            decode_protected_lem m law c v,
            identity_key_valid seed,
            valid,
            matches,
            encode_protected_lem m law c v,
            encode_outer_lem m law b.protected b.signature small sized,
            (bytes_eq_iff b.protected b.protected).1 refl,
            (bytes_eq_iff (binding_bytes b) (binding_bytes b)).1 refl,
            signs.key_point seed,
            signing_frame-layout b.protected small,
            signs.verify_strict-sign seed (layout signing_domain b.protected),
          )
          (ground arith)

    digest_lem : digest m ed sha256 (issued seed key epoch) ≡ ok verified.digest
    unfolding digest verified
    digest_lem = rw canonical_bytes_lem

  -- A binding issued for a valid repository key of 32 bytes, at any 32-bit epoch, has canonical
  -- bytes; they verify, and report the signer's identity id and key, the repository key, the epoch
  -- and the binding's own digest.
  pub verify-issue :
      (seed key : Bytes) (epoch : ℕ)
      → length key ≡ 32
      → epoch < 2 ^ 32
      → validate_public_key m ed key ≡ ok tt
      → (b : RepositorySignerBinding) × (bytes : Bytes) × (d : Bytes) × (issue m ed sha256 seed key
            epoch
          ≡ ok b)
        × (canonical_bytes m ed sha256 b ≡ ok bytes)
        × (digest m ed sha256 b ≡ ok d)
        × (verify_repository_signer_binding m ed sha256 bytes
            ≡ ok (record {
              identity_id = IdentityId.from_public_key sha256 (Ed25519.verifying_key ed seed);
              identity_public_key = Ed25519.verifying_key ed seed;
              repository_public_key = key;
              epoch = epoch;
              digest = d;
            }))
  unfolding verified
  verify-issue seed key epoch size range valid = (
    issued seed key epoch,
    binding_bytes (issued seed key epoch),
    sha256 (digest_domain ++ binding_bytes (issued seed key epoch)),
    issue_lem seed key epoch size range valid,
    canonical_bytes_lem seed key epoch size range valid,
    digest_lem seed key epoch size range valid,
    verify_lem seed key epoch size range valid,
  )

  -- From a root secret alone a binding of its identity key to its repository key of the epoch is
  -- issued, at any 32-bit epoch, and its canonical bytes verify and report both keys.
  pub verify-issue_derived :
      (hkdf : Hkdf) (root_secret : Bytes) (epoch : ℕ)
      → epoch < 2 ^ 32
      → (b : RepositorySignerBinding) × (bytes : Bytes) × (v : VerifiedRepositorySignerBinding)
        × (issue_derived m ed sha256 hkdf root_secret epoch ≡ ok b)
        × (canonical_bytes m ed sha256 b ≡ ok bytes)
        × (verify_repository_signer_binding m ed sha256 bytes ≡ ok v)
        × (v.identity_public_key
            ≡ Ed25519.verifying_key ed (Derive.derive_key hkdf root_secret Derive.signing))
        × (v.repository_public_key
            ≡ Ed25519.verifying_key ed
                (Derive.derive_repository_signing_key hkdf (Derive.new hkdf root_secret) epoch))
        × (v.epoch ≡ epoch)
  unfolding issue_derived Derive.derive_key Derive.signing_seed
  verify-issue_derived hkdf root_secret epoch range =
      let deriver = Derive.new hkdf root_secret in
      let seed = Derive.signing_seed hkdf deriver in
      let repository = Derive.derive_repository_signing_key hkdf deriver epoch in
      let key = Ed25519.verifying_key ed repository in
      let (b, bytes, d, i, c, _, v) =
        verify-issue seed key epoch (signs.key_size repository) range
          (identity_key_valid repository) in
      (b, bytes, _, i, c, v, refl, refl, refl)
