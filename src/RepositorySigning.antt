-- ===== src/RepositorySigning.antt =====
-- src/repository_signing.rs: bindings of an identity key to a repository-signing key, issued and
-- strictly verified. SHA-256, minicbor, Ed25519 and HKDF are parameters.
pub mod ErrorClass
pub mod Items
pub mod Protected
pub mod Outer
pub mod RoundTrip
pub mod Strict
use styrene_identity.Prelude.{
  ℕ, Bool, true, false, not, ◌&&◌, ◌||◌, ◌++◌, [], ◌∷◌, Option, none, some, Result, ok, err, ◌>>=◌,
  ◌>>◌, reject, ok_or, ltb, ◌==◌, if◌then◌else◌, length, Bytes, codes, bytes_eq, be16, be32,
  try_u16, try_u32,
}
use styrene_identity.External.Minicbor.{Minicbor, Decoder}
use styrene_identity.External.Ed25519.{Ed25519}
use styrene_identity.IdentityId
use styrene_identity.IdentityId.{IdentityId}
use styrene_identity.Derive
use styrene_identity.Derive.{Hkdf}

abbrev pub profile_version : ℕ
profile_version = 1

abbrev pub purpose : Bytes
purpose = codes "styrene-repository-signing-v1"

abbrev pub signing_domain : Bytes
signing_domain = codes "styrene-repository-signer-binding-v1"

abbrev pub digest_domain : Bytes
digest_domain = codes "styrene-repository-signer-binding-id-v1" ++ 0 ∷ []

abbrev pub max_protected_bytes : ℕ
max_protected_bytes = 256

abbrev pub max_binding_bytes : ℕ
max_binding_bytes = 384

pub data RepositorySignerBindingError : Type 0 where
  format too_large canonical semantic identity_mismatch signature : RepositorySignerBindingError

abbrev pub Outcome : Type 0 → Type 0
Outcome = Result RepositorySignerBindingError

pub record RepositorySignerBinding : Type 0 where
  pub protected : Bytes
  pub signature : Bytes

pub record VerifiedRepositorySignerBinding : Type 0 where
  pub identity_id : IdentityId
  pub identity_public_key : Bytes
  pub repository_public_key : Bytes
  pub epoch : ℕ
  pub digest : Bytes

pub record Claims : Type 0 where
  pub identity_id : IdentityId
  pub identity_public_key : Bytes
  pub repository_public_key : Bytes
  pub epoch : ℕ

unfoldable pub signing_frame : Bytes → Outcome Bytes
signing_frame protected = do
  domain_len ← try_u16 (length signing_domain) format
  protected_len ← try_u32 (length protected) format
  ok (
      be16 domain_len
      ++ (signing_domain ++ (be16 profile_version ++ (be32 protected_len ++ protected))))

infixl 5 ◌then◌
-- `Result::and_then` of the encoder.
abbrev ◌then◌ : Option Bytes → (Bytes → Option Bytes) → Option Bytes
none then f = none
some out then f = f out

module _ (m : Minicbor) where
  open m use {put_map, put_u8, put_u16, put_u32, put_bytes, put_str}
  open m use {get_map, get_u8, get_u16, get_u32, get_bytes, get_str}

  unfoldable pub encode_protected : IdentityId → Bytes → Bytes → ℕ → Outcome Bytes
  encode_protected identity_id identity_public_key repository_public_key epoch = do
    bytes ←
        ok_or
          (put_map 7 []
            then put_u8 0
            then put_u16 profile_version
            then put_u8 1
            then put_bytes (IdentityId.as_bytes identity_id)
            then put_u8 2
            then put_bytes identity_public_key
            then put_u8 3
            then put_bytes repository_public_key
            then put_u8 4
            then put_u32 epoch
            then put_u8 5
            then put_str purpose
            then put_u8 6
            then put_u8 0)
          format
    reject (ltb max_protected_bytes (length bytes)) too_large
    ok bytes

  unfoldable pub encode_outer : Bytes → Bytes → Outcome Bytes
  encode_outer protected sig = do
    bytes ←
        ok_or (put_map 2 [] then put_u8 0 then put_bytes protected then put_u8 1 then put_bytes sig)
          format
    reject (ltb max_binding_bytes (length bytes)) too_large
    ok bytes

  -- A decoder passed by `&mut` is handed on.
  unfoldable pub require_map : Decoder → ℕ → Outcome Decoder
  require_map decoder expected = do
    header ← ok_or (get_map decoder) format
    elim header.0 [
      | some actual ↦ if actual == expected then ok header.1 else err format
      | none ↦ err canonical
    ]

  unfoldable pub require_key : Decoder → ℕ → Outcome Decoder
  require_key decoder expected = do
    key ← ok_or (get_u8 decoder) format
    if key.0 == expected then ok key.1 else err format

  -- `decoder.bytes()` and `try_into` of a fixed array.
  unfoldable pub require_array : Decoder → ℕ → Outcome (Bytes × Decoder)
  require_array decoder size = do
    field ← ok_or (get_bytes decoder) format
    if length field.0 == size then ok field else err format

  unfoldable pub decode_outer : Bytes → Outcome (Bytes × Bytes)
  decode_outer bytes = do
    d1 ← require_map (record { unread = bytes; position = 0 }) 2
    d2 ← require_key d1 0
    protected ← ok_or (get_bytes d2) format
    d3 ← require_key protected.1 1
    sig ← require_array d3 64
    reject (not (sig.1.position == length bytes)) format
    ok (protected.0, sig.0)

  unfoldable pub decode_protected : Bytes → Outcome Claims
  decode_protected bytes = do
    d ← require_map (record { unread = bytes; position = 0 }) 7
    d0 ← require_key d 0
    version ← ok_or (get_u16 d0) format
    reject (not (version.0 == profile_version)) semantic
    d1 ← require_key version.1 1
    identity_id ← require_array d1 16
    d2 ← require_key identity_id.1 2
    identity_public_key ← require_array d2 32
    d3 ← require_key identity_public_key.1 3
    repository_public_key ← require_array d3 32
    d4 ← require_key repository_public_key.1 4
    epoch ← ok_or (get_u32 d4) format
    d5 ← require_key epoch.1 5
    stated ← ok_or (get_str d5) format
    reject (not (bytes_eq stated.0 purpose)) semantic
    d6 ← require_key stated.1 6
    suite ← ok_or (get_u8 d6) format
    reject (not (suite.0 == 0)) semantic
    reject (not (suite.1.position == length bytes)) format
    ok (record {
      identity_id = IdentityId.from_bytes identity_id.0;
      identity_public_key = identity_public_key.0;
      repository_public_key = repository_public_key.0;
      epoch = epoch.0;
    })

  module _ (ed : Ed25519) where
    unfoldable pub validate_public_key : Bytes → Outcome (Unit {0})
    validate_public_key bytes = do
      reject (not (Ed25519.is_point ed bytes)) signature
      reject (Ed25519.is_weak ed bytes) signature
      ok tt

    module _ (sha256 : Bytes → Bytes) where
      -- A signing key is its seed.
      unfoldable pub issue : Bytes → Bytes → ℕ → Outcome RepositorySignerBinding
      issue identity_signing_key repository_public_key epoch = do
        validate_public_key repository_public_key
        let identity_public_key = Ed25519.verifying_key ed identity_signing_key
        let identity_id = IdentityId.from_public_key sha256 identity_public_key
        protected ← encode_protected identity_id identity_public_key repository_public_key epoch
        frame ← signing_frame protected
        ok (record {
          protected = protected;
          signature = Ed25519.sign ed identity_signing_key frame;
        })

      unfoldable pub issue_from_identity_seed : Bytes → Bytes → ℕ → Outcome RepositorySignerBinding
      issue_from_identity_seed identity_seed repository_public_key epoch =
          issue identity_seed repository_public_key epoch

      unfoldable pub issue_derived : Hkdf → Bytes → ℕ → Outcome RepositorySignerBinding
      issue_derived hkdf root_secret epoch =
          let deriver = Derive.new hkdf root_secret in
          let identity_key = Derive.signing_seed hkdf deriver in
          let repository_key = Derive.derive_repository_signing_key hkdf deriver epoch in
          issue identity_key (Ed25519.verifying_key ed repository_key) epoch

      unfoldable pub canonical_bytes : RepositorySignerBinding → Outcome Bytes
      canonical_bytes self = encode_outer self.protected self.signature

      unfoldable pub digest : RepositorySignerBinding → Outcome Bytes
      unfolding canonical_bytes
      digest self = do bytes ← canonical_bytes self; ok (sha256 (digest_domain ++ bytes))

      unfoldable pub verify_repository_signer_binding :
          Bytes → Outcome VerifiedRepositorySignerBinding
      verify_repository_signer_binding bytes = do
        reject (ltb max_binding_bytes (length bytes)) too_large
        parts ← decode_outer bytes
        let protected = parts.0
        let sig = parts.1
        reject (ltb max_protected_bytes (length protected)) too_large
        claims ← decode_protected protected
        validate_public_key claims.identity_public_key
        validate_public_key claims.repository_public_key
        reject
            (not
              (IdentityId.matches_public_key sha256 claims.identity_id claims.identity_public_key))
            identity_mismatch
        canonical_protected ←
            encode_protected claims.identity_id claims.identity_public_key
              claims.repository_public_key claims.epoch
        reject (not (bytes_eq canonical_protected protected)) canonical
        canonical_outer ← encode_outer protected sig
        reject (not (bytes_eq canonical_outer bytes)) canonical
        reject (not (Ed25519.is_point ed claims.identity_public_key)) signature
        frame ← signing_frame protected
        reject (not (Ed25519.verify_strict ed claims.identity_public_key frame sig)) signature
        ok (record {
          identity_id = claims.identity_id;
          identity_public_key = claims.identity_public_key;
          repository_public_key = claims.repository_public_key;
          epoch = claims.epoch;
          digest = sha256 (digest_domain ++ bytes);
        })
