-- ===== src/Records/RuntimeCertificate.antt =====
-- src/records/runtime_certificate.rs: the claims of a runtime certificate, their validation, and
-- the signed record. minicbor's derived encoding of the claims and of the record is a parameter.
pub mod Times
pub mod Custody
pub mod Claims
pub mod Record
use Prim.Native.String.{String}
use styrene_identity.Prelude.{
  ℕ, ◌-◌, ◌*◌, ◌/◌, ◌^◌, Bool, true, false, not, ◌&&◌, ◌||◌, Option, none, some, Result, ok, err,
  ◌>>=◌, ◌>>◌, reject, ok_or, map_err, is_some, is_none, ltb, leb, ◌==◌, if◌then◌else◌, length,
  Bytes, bytes_eq,
}
use styrene_identity.Records.{
  RecordError, encode, unsupported_version, too_large, invalid_public_key, suite_mismatch,
  key_id_mismatch, invalid_validity, invalid_custody, SignatureSuite, suite_eq, RsaPublicKey,
  PublicKey, suite, EncodeRsa, derive_key_id, record_profile_version, runtime_certificate_domain,
  max_runtime_certificate_bytes, signing_frame, validate_ascii_identifier,
}

abbrev pub max_runtime_lifetime_ms : ℕ
max_runtime_lifetime_ms = 86_400_000

pub data SubjectKind : Type 0 where
  agent durable_workload : SubjectKind

pub data CustodyClass : Type 0 where
  software_ephemeral os_protected hardware_nonexportable : CustodyClass

pub data CanonicalPublicKey : Type 0 where
  ed25519 : Bytes → CanonicalPublicKey
  ecdsa_p256 : Bytes → CanonicalPublicKey
  rsa_pss : RsaPublicKey → CanonicalPublicKey

pub record RuntimeCertificateClaims : Type 0 where
  pub profile_version : ℕ
  pub certificate_id : Bytes
  pub issuer_key_id : Bytes
  pub issuer_key_version : ℕ
  pub issuer_suite : SignatureSuite
  pub subject_kind : SubjectKind
  pub subject_id : Bytes
  pub runtime_id : Bytes
  pub runtime_key_id : Bytes
  pub runtime_key_version : ℕ
  pub runtime_suite : SignatureSuite
  pub runtime_public_key : CanonicalPublicKey
  pub host_subject_binding : Bytes
  pub not_before_ms : ℕ
  pub not_after_ms : ℕ
  pub renew_after_ms : ℕ
  pub custody_class : CustodyClass
  pub evidence_profile_id : Option Bytes
  pub evidence_digest : Option Bytes
  pub attestation_verifier_id : Option Bytes
  pub attested_at_ms : Option ℕ
  pub degraded : Bool
  pub predecessor_certificate_digest : Option Bytes
  pub issuance_revision : ℕ
  pub extensions_digest : Option Bytes

unfoldable pub to_public_key : CanonicalPublicKey → Result RecordError PublicKey
to_public_key (CanonicalPublicKey.ed25519 value) = ok (PublicKey.ed25519 value)
to_public_key (CanonicalPublicKey.ecdsa_p256 value) =
    if length value == 33 then ok (PublicKey.ecdsa_p256 value) else err invalid_public_key
to_public_key (CanonicalPublicKey.rsa_pss value) = ok (PublicKey.rsa_pss value)

-- `u64::checked_sub` and `u64::checked_mul`.
abbrev pub checked_sub : ℕ → ℕ → Option ℕ
checked_sub a b = if leb b a then some (a - b) else none

abbrev pub checked_mul : ℕ → ℕ → Option ℕ
checked_mul a b = if ltb (a * b) (2 ^ 64) then some (a * b) else none

unfoldable pub validate_times : RuntimeCertificateClaims → Result RecordError (Unit {0})
validate_times c = do
  lifetime ← ok_or (checked_sub c.not_after_ms c.not_before_ms) invalid_validity
  renewal ← ok_or (checked_sub c.renew_after_ms c.not_before_ms) invalid_validity
  reject
      (lifetime == 0
        || (ltb max_runtime_lifetime_ms lifetime || leb c.not_after_ms c.renew_after_ms))
      invalid_validity
  let min = lifetime / 2
  product ← ok_or (checked_mul lifetime 4) invalid_validity
  let max = product / 5
  reject (ltb renewal min || ltb max renewal) invalid_validity
  ok tt

abbrev evidence : RuntimeCertificateClaims → Bool
evidence c =
    is_some c.evidence_profile_id
    && (is_some c.evidence_digest
        && (is_some c.attestation_verifier_id && is_some c.attested_at_ms))

abbrev absent : RuntimeCertificateClaims → Bool
absent c =
    is_none c.evidence_profile_id
    && (is_none c.evidence_digest
        && (is_none c.attestation_verifier_id && is_none c.attested_at_ms))

-- The `match` of `validate_custody`.
pub custody_of_class : CustodyClass → RuntimeCertificateClaims → Result RecordError (Unit {0})
custody_of_class software_ephemeral c = if absent c then ok tt else err invalid_custody
custody_of_class os_protected c = if evidence c then ok tt else err invalid_custody
custody_of_class hardware_nonexportable c =
    if evidence c && not c.degraded then ok tt else err invalid_custody

unfoldable pub validate_custody : RuntimeCertificateClaims → Result RecordError (Unit {0})
unfolding custody_of_class
validate_custody c = custody_of_class c.custody_class c

-- `if let Some(profile) = …`
validate_profile_id : Option Bytes → Result RecordError (Unit {0})
validate_profile_id none = ok tt
validate_profile_id (some profile) = validate_ascii_identifier profile 127

module _ (to_vec : EncodeRsa) (sha256 : Bytes → Bytes) where
  unfoldable pub validate : RuntimeCertificateClaims → Result RecordError (Unit {0})
  unfolding validate_profile_id
  validate c = do
    reject (not (c.profile_version == record_profile_version))
        (unsupported_version c.profile_version)
    validate_ascii_identifier c.subject_id 255
    validate_profile_id c.evidence_profile_id
    public_key ← to_public_key c.runtime_public_key
    reject (not (suite_eq (suite public_key) c.runtime_suite)) suite_mismatch
    key_id ← derive_key_id to_vec sha256 public_key
    reject (not (bytes_eq key_id c.runtime_key_id)) key_id_mismatch
    validate_times c
    validate_custody c
    ok tt

  module _ (claims_to_vec : RuntimeCertificateClaims → Result String Bytes) where
    unfoldable pub protected_bytes : RuntimeCertificateClaims → Result RecordError Bytes
    protected_bytes c = do validate c; map_err encode (claims_to_vec c)

    unfoldable pub signing_input : RuntimeCertificateClaims → Result RecordError Bytes
    signing_input c = do
      protected ← protected_bytes c
      signing_frame runtime_certificate_domain protected

pub record RuntimeCertificate : Type 0 where
  pub protected : Bytes
  pub signature : Bytes

unfoldable pub from_claims :
    EncodeRsa
    → (Bytes → Bytes)
    → (RuntimeCertificateClaims → Result String Bytes)
    → RuntimeCertificateClaims
    → Bytes
    → Result RecordError RuntimeCertificate
from_claims to_vec sha256 claims_to_vec claims signature = do
  protected ← protected_bytes to_vec sha256 claims_to_vec claims
  ok (record { protected = protected; signature = signature })

module _ (record_to_vec : RuntimeCertificate → Result String Bytes) where
  unfoldable pub encode_certificate : RuntimeCertificate → Result RecordError Bytes
  encode_certificate certificate = do
    bytes ← map_err encode (record_to_vec certificate)
    reject (ltb max_runtime_certificate_bytes (length bytes))
        (too_large (length bytes) max_runtime_certificate_bytes)
    ok bytes

  unfoldable pub digest : (Bytes → Bytes) → RuntimeCertificate → Result RecordError Bytes
  digest sha256 certificate = do ok (sha256 (← encode_certificate certificate))
