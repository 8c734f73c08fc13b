-- ===== src/Tests/Signing.antt =====
-- Issuing and verifying a repository signer binding at concrete keys.
use styrene_identity.Prelude.{◌≡◌, refl, ok, [], ◌∷◌, ◌++◌, Bytes, bytes_eq, arith, ◌⊎◌, Collision}
use styrene_identity.IdentityId
use styrene_identity.IdentityId.{IdentityId}
use styrene_identity.Derive
use styrene_identity.External.Ed25519.{Ed25519}
use styrene_identity.RepositorySigning.{
  RepositorySignerBinding, VerifiedRepositorySignerBinding, validate_public_key, issue,
  issue_derived, canonical_bytes, digest, digest_domain, verify_repository_signer_binding,
  encode_outer, encode_protected, decode_outer, decode_protected, signing_frame, require_map,
  require_key, require_array,
}
use styrene_identity.RepositorySigning.RoundTrip.{
  verify-issue, verify-issue_derived, issued, binding_bytes,
}
use styrene_identity.RepositorySigning.Outer.{outer_bytes}
use styrene_identity.RepositorySigning.Protected.{protected_bytes}
use styrene_identity.RepositorySigning.Strict.{IsVerified, verify-IsVerified, verify_digest-binding}
use styrene_identity.Tests.Codec.{codec, codec-IsMinicbor}
use styrene_identity.Tests.Cryptography.{fit, hash, hash_size, hkdf, ed25519, ed25519-IsEd25519}

abbrev seed : Bytes
seed = fit 32 (7 ∷ 1 ∷ 9 ∷ [])

abbrev key : Bytes
key = fit 32 (4 ∷ 4 ∷ 2 ∷ [])

key_valid : validate_public_key codec ed25519 key ≡ ok tt
unfolding validate_public_key
key_valid = refl

abbrev binding : RepositorySignerBinding
binding = issued codec codec-IsMinicbor ed25519 ed25519-IsEd25519 hash hash_size seed key 3

abbrev bytes : Bytes
bytes = binding_bytes codec codec-IsMinicbor ed25519 ed25519-IsEd25519 hash hash_size binding

abbrev verified : VerifiedRepositorySignerBinding
verified = record {
  identity_id = IdentityId.from_public_key hash seed;
  identity_public_key = seed;
  repository_public_key = key;
  epoch = 3;
  digest = hash (digest_domain ++ bytes);
}

accepted : verify_repository_signer_binding codec ed25519 hash bytes ≡ ok verified
unfolding verify_repository_signer_binding IdentityId.encode IdentityId.decode encode_outer
    encode_protected decode_outer decode_protected signing_frame outer_bytes protected_bytes
    codec-IsMinicbor validate_public_key bytes_eq require_map require_key require_array
    IdentityId.from_public_key IdentityId.matches_public_key IdentityId.from_bytes
    IdentityId.as_bytes
accepted = refl

verify-issue_example :
    (b : RepositorySignerBinding) × (written : Bytes) × (d : Bytes) × (issue codec ed25519 hash seed
        key 3
      ≡ ok b)
    × (canonical_bytes codec ed25519 hash b ≡ ok written)
    × (digest codec ed25519 hash b ≡ ok d)
    × (verify_repository_signer_binding codec ed25519 hash written
        ≡ ok (record {
          identity_id = IdentityId.from_public_key hash (Ed25519.verifying_key ed25519 seed);
          identity_public_key = Ed25519.verifying_key ed25519 seed;
          repository_public_key = key;
          epoch = 3;
          digest = d;
        }))
verify-issue_example =
    verify-issue codec codec-IsMinicbor ed25519 ed25519-IsEd25519 hash hash_size seed key 3 refl
      (omega arith) key_valid

verify-issue_derived_example :
    (b : RepositorySignerBinding) × (written : Bytes) × (v : VerifiedRepositorySignerBinding)
    × (issue_derived codec ed25519 hash hkdf seed 2 ≡ ok b)
    × (canonical_bytes codec ed25519 hash b ≡ ok written)
    × (verify_repository_signer_binding codec ed25519 hash written ≡ ok v)
    × (v.identity_public_key
        ≡ Ed25519.verifying_key ed25519 (Derive.derive_key hkdf seed Derive.signing))
    × (v.repository_public_key
        ≡ Ed25519.verifying_key ed25519
            (Derive.derive_repository_signing_key hkdf (Derive.new hkdf seed) 2))
    × (v.epoch ≡ 2)
verify-issue_derived_example =
    verify-issue_derived codec codec-IsMinicbor ed25519 ed25519-IsEd25519 hash hash_size hkdf seed 2
      (omega arith)

verify-IsVerified_example : IsVerified codec ed25519 hash bytes verified
verify-IsVerified_example = verify-IsVerified codec ed25519 hash bytes verified accepted

verify_digest-binding_example : (bytes ≡ bytes) ⊎ Collision hash
verify_digest-binding_example =
    verify_digest-binding codec ed25519 hash bytes bytes verified verified accepted accepted refl
