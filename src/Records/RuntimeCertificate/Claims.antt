-- ===== src/Records/RuntimeCertificate/Claims.antt =====
-- The whole validation of src/records/runtime_certificate.rs, against a description by parts.
use styrene_identity.Prelude.{
  ◌≡◌, refl, ◌↔◌, true, inl, inr, Result-cases, Option, none, some, ok, Bytes, bytes_eq_iff, arith,
}
use styrene_identity.Records.{
  suite, suite_eq, SignatureSuite, PublicKey, EncodeRsa, derive_key_id, validate_ascii_identifier,
}
use styrene_identity.Records.Identifier.{IsIdentifier, validate_ascii_identifier-IsIdentifier}
use styrene_identity.Records.RuntimeCertificate.{
  RuntimeCertificateClaims, to_public_key, validate_profile_id, validate, validate_times,
  validate_custody,
}
use styrene_identity.Records.RuntimeCertificate.Times.{IsValidWindow, validate_times-IsValidWindow}
use styrene_identity.Records.RuntimeCertificate.Custody.{
  IsConsistentCustody, validate_custody-IsConsistentCustody,
}

abbrev IsProfileId : Option Bytes → Type 0
IsProfileId none = Unit {0}
IsProfileId (some profile) = IsIdentifier profile 127

validate_profile_id-IsProfileId :
    (profile : Option Bytes) → (validate_profile_id profile ≡ ok tt) ↔ IsProfileId profile
unfolding validate_profile_id
validate_profile_id-IsProfileId none = (λ _. tt, λ _. refl)
validate_profile_id-IsProfileId (some profile) = validate_ascii_identifier-IsIdentifier profile 127

suite_eq_iff : (a b : SignatureSuite) → (suite_eq a b ≡ true) ↔ (a ≡ b)
unfolding suite_eq
suite_eq_iff a b = ground arith

module _ (to_vec : EncodeRsa) (sha256 : Bytes → Bytes) where
  -- The runtime key is of the declared suite and has the declared id.
  abbrev pub IsBoundKey : RuntimeCertificateClaims → PublicKey → Type 0
  IsBoundKey c key =
      (to_public_key c.runtime_public_key ≡ ok key)
      × (suite key ≡ c.runtime_suite)
      × (derive_key_id to_vec sha256 key ≡ ok c.runtime_key_id)

  pub record IsValidClaims (c : RuntimeCertificateClaims) : Type 0 where
    pub version : c.profile_version ≡ 1
    pub subject : IsIdentifier c.subject_id 255
    pub profile : IsProfileId c.evidence_profile_id
    pub key : PublicKey
    pub bound : IsBoundKey c key
    pub window : IsValidWindow c
    pub custody : IsConsistentCustody c

  accepted_key :
      (c : RuntimeCertificateClaims)
      → validate to_vec sha256 c ≡ ok tt
      → (key : PublicKey) × (to_public_key c.runtime_public_key ≡ ok key)
  unfolding validate
  accepted_key c h = elim (Result-cases (to_public_key c.runtime_public_key)) [
    | inl found ↦ found
    | inr (e, failed) ↦ absurd (ground arith)
  ]

  accepted_id :
      (c : RuntimeCertificateClaims) (key : PublicKey)
      → to_public_key c.runtime_public_key ≡ ok key
      → validate to_vec sha256 c ≡ ok tt
      → derive_key_id to_vec sha256 key ≡ ok c.runtime_key_id
  unfolding validate
  accepted_id c key e h = elim (Result-cases (derive_key_id to_vec sha256 key)) [
    | inl (key_id, found) ↦ ground (arith, bytes_eq_iff key_id c.runtime_key_id)
    | inr (why, failed) ↦ absurd (let h' = rw (validate, e, failed) at h in ground (arith))
  ]

  accepted_parts :
      (c : RuntimeCertificateClaims) (key : PublicKey)
      → to_public_key c.runtime_public_key ≡ ok key
      → validate to_vec sha256 c ≡ ok tt
      → (c.profile_version ≡ 1)
        × (validate_ascii_identifier c.subject_id 255 ≡ ok tt)
        × (validate_profile_id c.evidence_profile_id ≡ ok tt)
        × (suite key ≡ c.runtime_suite)
        × (validate_times c ≡ ok tt)
        × (validate_custody c ≡ ok tt)
  unfolding validate
  accepted_parts c key e h = ground (arith, suite_eq_iff (suite key) c.runtime_suite)

  -- Claims are accepted exactly when they are of version 1, name a subject and an evidence profile
  -- by identifiers, bind the runtime key to its suite and its id, and have a valid window and
  -- consistent custody.
  pub validate-IsValidClaims :
      (c : RuntimeCertificateClaims) → (validate to_vec sha256 c ≡ ok tt) ↔ IsValidClaims c
  unfolding validate
  validate-IsValidClaims c = (
    λ h.
        let (key, found) = accepted_key c h in
        let (version, subject, profile, same_suite, times, custody) =
          accepted_parts c key found h in
        record {
          version = version;
          subject = (validate_ascii_identifier-IsIdentifier _ 255).0 subject;
          profile = (validate_profile_id-IsProfileId _).0 profile;
          key = key;
          bound = (found, same_suite, accepted_id c key found h);
          window = (validate_times-IsValidWindow c).0 times;
          custody = (validate_custody-IsConsistentCustody c).0 custody;
        },
    λ v.
        let subject = (validate_ascii_identifier-IsIdentifier c.subject_id 255).1 v.subject in
        let profile = (validate_profile_id-IsProfileId c.evidence_profile_id).1 v.profile in
        let times = (validate_times-IsValidWindow c).1 v.window in
        let custody = (validate_custody-IsConsistentCustody c).1 v.custody in
        let (found, same_suite, same_id) = v.bound in
        let suites = (suite_eq_iff (suite v.key) c.runtime_suite).1 same_suite in
        let ids = (bytes_eq_iff c.runtime_key_id c.runtime_key_id).1 refl in ground arith,
  )
