-- ===== src/Records/RuntimeCertificate/Custody.antt =====
-- The custody rules of src/records/runtime_certificate.rs.
use styrene_identity.Prelude.{◌≡◌, ◌↔◌, true, false, none, is_some, ok, arith}
use styrene_identity.Records.RuntimeCertificate.{
  RuntimeCertificateClaims, CustodyClass, software_ephemeral, os_protected, hardware_nonexportable,
  custody_of_class, validate_custody,
}

-- Every piece of evidence is there, or none is.
pub record HasEvidence (c : RuntimeCertificateClaims) : Type 0 where
  pub profile : is_some c.evidence_profile_id ≡ true
  pub digest : is_some c.evidence_digest ≡ true
  pub verifier : is_some c.attestation_verifier_id ≡ true
  pub time : is_some c.attested_at_ms ≡ true

pub record LacksEvidence (c : RuntimeCertificateClaims) : Type 0 where
  pub profile : c.evidence_profile_id ≡ none
  pub digest : c.evidence_digest ≡ none
  pub verifier : c.attestation_verifier_id ≡ none
  pub time : c.attested_at_ms ≡ none

abbrev CustodyOf : CustodyClass → RuntimeCertificateClaims → Type 0
CustodyOf software_ephemeral c = LacksEvidence c
CustodyOf os_protected c = HasEvidence c
CustodyOf hardware_nonexportable c = HasEvidence c × (c.degraded ≡ false)

-- Software keys carry no evidence; protected keys carry all of it; a hardware key is not degraded.
abbrev pub IsConsistentCustody : RuntimeCertificateClaims → Type 0
IsConsistentCustody c = CustodyOf c.custody_class c

custody_of_class-CustodyOf :
    (class : CustodyClass) (c : RuntimeCertificateClaims)
    → (custody_of_class class c ≡ ok tt) ↔ CustodyOf class c
unfolding custody_of_class
custody_of_class-CustodyOf software_ephemeral c = ground arith
custody_of_class-CustodyOf os_protected c = ground arith
custody_of_class-CustodyOf hardware_nonexportable c = ground arith

-- Custody is accepted exactly when the evidence fields agree with the custody class.
pub validate_custody-IsConsistentCustody :
    (c : RuntimeCertificateClaims) → (validate_custody c ≡ ok tt) ↔ IsConsistentCustody c
unfolding validate_custody
validate_custody-IsConsistentCustody c = custody_of_class-CustodyOf c.custody_class c
