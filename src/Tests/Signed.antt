-- ===== src/Tests/Signed.antt =====
-- Public keys, certificates and transitions at concrete data.
use Prim.Native.String.{String}
use styrene_identity.Prelude.{
  ◌≡◌, ◌≢◌, ◌⊎◌, ◌↔◌, refl, false, Option, none, some, Result, ok, [], ◌∷◌, ◌++◌, length, take,
  drop, take_front, drop_front, Bytes, codes, Collision, IsReadBack, bytes_eq, arith,
}
use styrene_identity.Records
use styrene_identity.Records.{
  SignatureSuite, RsaPublicKey, PublicKey, EncodeRsa, derive_key_id, canonical_bytes, signing_frame,
  suite, suite_eq, id, validate_ascii_identifier,
}
use styrene_identity.Records.Frame.{signing_frame-injective}
use styrene_identity.Records.KeyId.{derive_key_id-binding}
use styrene_identity.Records.RuntimeCertificate
use styrene_identity.Records.RuntimeCertificate.{
  RuntimeCertificateClaims, RuntimeCertificate, CanonicalPublicKey, agent, software_ephemeral,
  hardware_nonexportable, to_public_key, validate_times, validate_custody, encode_certificate,
}
use styrene_identity.Records.RuntimeCertificate.Claims.{IsValidClaims, validate-IsValidClaims}
use styrene_identity.Records.RuntimeCertificate.Record.{digest-binding}
use styrene_identity.Records.LifecycleTransition
use styrene_identity.Records.LifecycleTransition.{
  LifecycleTransitionClaims, LifecycleTransition, Reconciliation, owner_state, revocation,
  reconcile, TargetKind, superseded, target_only, validate_domain_key, validate_reconciliation,
  any_unsorted, encode_transition,
}
use styrene_identity.Records.LifecycleTransition.Heads.{
  IsValidReconciliation, validate_reconciliation-IsValidReconciliation,
}
use styrene_identity.Records.LifecycleTransition.Claims.{validate-IsValidTransition}
use styrene_identity.Records.LifecycleTransition.Claims
use styrene_identity.Records.LifecycleTransition.Record.{signing_input-separation}
use styrene_identity.Tests.Cryptography.{fit, hash}

-- An RSA key is written as its exponent before its modulus.
abbrev rsa_to_vec : EncodeRsa
rsa_to_vec key = ok (key.exponent ∷ key.modulus)

abbrev read_rsa : Bytes → Option RsaPublicKey
read_rsa [] = none
read_rsa (e ∷ n) = some (record { modulus = n; exponent = e })

read_rsa-IsReadBack : IsReadBack rsa_to_vec read_rsa
read_rsa-IsReadBack key bytes h = ground arith

abbrev rsa : PublicKey
rsa = PublicKey.rsa_pss (record { modulus = fit 256 (200 ∷ 3 ∷ []); exponent = 65_537 })

abbrev point : Bytes
point = fit 33 (2 ∷ 77 ∷ [])

abbrev p256 : PublicKey
p256 = PublicKey.ecdsa_p256 point

abbrev key_id : Bytes
key_id = hash (codes "styrene-key-id-v1" ++ (0 ∷ 0 ∷ 1 ∷ point))

named : derive_key_id rsa_to_vec hash p256 ≡ ok key_id
unfolding derive_key_id canonical_bytes Records.validate suite id
named = refl

derive_key_id-binding_example : (p256 ≡ p256) ⊎ Collision hash
derive_key_id-binding_example =
    derive_key_id-binding rsa_to_vec read_rsa read_rsa-IsReadBack hash p256 p256 key_id named named

abbrev frame : Bytes
frame = 0 ∷ 1 ∷ 100 ∷ 0 ∷ 1 ∷ 0 ∷ 0 ∷ 0 ∷ 2 ∷ 5 ∷ 6 ∷ []

abbrev body : Bytes
body = 5 ∷ 6 ∷ []

framed : signing_frame (codes "d") body ≡ ok frame
unfolding signing_frame
framed = refl

signing_frame-injective_example : (codes "d" ≡ codes "d") × (body ≡ body)
signing_frame-injective_example =
    signing_frame-injective (codes "d") (codes "d") body body framed framed

-- An hour's certificate of a software key.
abbrev claims : RuntimeCertificateClaims
claims = record {
  profile_version = 1;
  certificate_id = fit 16 [];
  issuer_key_id = fit 32 (9 ∷ []);
  issuer_key_version = 1;
  issuer_suite = SignatureSuite.ed25519;
  subject_kind = agent;
  subject_id = codes "agent-7";
  runtime_id = fit 16 (1 ∷ []);
  runtime_key_id = key_id;
  runtime_key_version = 1;
  runtime_suite = SignatureSuite.ecdsa_p256_sha256;
  runtime_public_key = CanonicalPublicKey.ecdsa_p256 point;
  host_subject_binding = fit 32 [];
  not_before_ms = 1_000_000;
  not_after_ms = 4_600_000;
  renew_after_ms = 3_500_000;
  custody_class = software_ephemeral;
  evidence_profile_id = none;
  evidence_digest = none;
  attestation_verifier_id = none;
  attested_at_ms = none;
  degraded = false;
  predecessor_certificate_digest = none;
  issuance_revision = 0;
  extensions_digest = none;
}

abbrev hardware : RuntimeCertificateClaims
hardware = record claims { custody_class = hardware_nonexportable; attested_at_ms = some 5 }

validate-IsValidClaims_example :
    (RuntimeCertificate.validate rsa_to_vec hash claims ≡ ok tt)
    ↔ IsValidClaims rsa_to_vec hash claims
validate-IsValidClaims_example = validate-IsValidClaims rsa_to_vec hash claims

abbrev reconciliation : Reconciliation
reconciliation = record {
  fork_predecessor_digest = fit 32 (1 ∷ []);
  winning_head_digest = fit 32 (5 ∷ []);
  rejected_head_digests = fit 32 (4 ∷ []) ∷ fit 32 (6 ∷ []) ∷ [];
  superior_domain_key = owner_state (codes "owner");
  superior_transition_digest = fit 32 (2 ∷ []);
}

validate_reconciliation-IsValidReconciliation_example :
    (validate_reconciliation reconciliation ≡ ok tt) ↔ IsValidReconciliation reconciliation
validate_reconciliation-IsValidReconciliation_example =
    validate_reconciliation-IsValidReconciliation reconciliation

abbrev transition : LifecycleTransitionClaims
transition = record {
  profile_version = 1;
  transition_id = fit 16 [];
  domain_key = revocation (fit 16 []);
  revision = 4;
  previous_transition_digest = some (fit 32 []);
  transition_kind = reconcile;
  target_kind = TargetKind.lifecycle_transition;
  target_id = fit 32 (3 ∷ []);
  effective_at_ms = 900;
  reason_code = superseded;
  issuer_key_id = fit 32 (9 ∷ []);
  issuer_key_version = 1;
  issuer_suite = SignatureSuite.ed25519;
  replacement_digest = none;
  compromise_not_before_ms = none;
  descendant_scope = target_only;
  reconciliation = some reconciliation;
  extensions_digest = none;
}

validate-IsValidTransition_example :
    (LifecycleTransition.validate transition ≡ ok tt) ↔ Claims.IsValidClaims transition
validate-IsValidTransition_example = validate-IsValidTransition transition

abbrev certificate_frame : Bytes
certificate_frame =
    0 ∷ 30 ∷ (codes "styrene-runtime-certificate-v1" ++ (0 ∷ 1 ∷ 0 ∷ 0 ∷ 0 ∷ 2 ∷ body))

certificate_signed :
    RuntimeCertificate.signing_input rsa_to_vec hash (λ _. ok body) claims ≡ ok certificate_frame
unfolding RuntimeCertificate.signing_input RuntimeCertificate.protected_bytes
    RuntimeCertificate.validate validate_ascii_identifier to_public_key suite suite_eq id
    derive_key_id canonical_bytes Records.validate bytes_eq validate_times validate_custody
    signing_frame
certificate_signed = refl

signing_input-separation_example :
    LifecycleTransition.signing_input (λ _. ok body) transition ≢ ok certificate_frame
signing_input-separation_example =
    signing_input-separation rsa_to_vec hash (λ _. ok body) (λ _. ok body) claims transition
      certificate_frame certificate_signed

abbrev certificate : RuntimeCertificate
certificate = record { protected = body; signature = fit 64 [] }

abbrev certificate_to_vec : RuntimeCertificate → Result String Bytes
certificate_to_vec r = ok (length r.protected ∷ (r.protected ++ r.signature))

abbrev read_certificate : Bytes → Option RuntimeCertificate
read_certificate [] = none
read_certificate (n ∷ rest) = some (record { protected = take n rest; signature = drop n rest })

read_certificate-IsReadBack : IsReadBack certificate_to_vec read_certificate
read_certificate-IsReadBack r bytes h = ground (
  arith,
  take_front (length r.protected) r.protected r.signature refl,
  drop_front (length r.protected) r.protected r.signature refl,
)

abbrev certificate_digest : Bytes
certificate_digest = hash (2 ∷ (body ++ fit 64 []))

certificate_digested :
    RuntimeCertificate.digest certificate_to_vec hash certificate ≡ ok certificate_digest
unfolding RuntimeCertificate.digest encode_certificate
certificate_digested = refl

digest-binding_example : (certificate ≡ certificate) ⊎ Collision hash
digest-binding_example =
    digest-binding certificate_to_vec read_certificate read_certificate-IsReadBack hash certificate
      certificate certificate_digest certificate_digested certificate_digested

abbrev lifecycle : LifecycleTransition
lifecycle = record { protected = body; signature = fit 64 [] }

abbrev transition_to_vec : LifecycleTransition → Result String Bytes
transition_to_vec r = ok (length r.protected ∷ (r.protected ++ r.signature))

abbrev read_transition : Bytes → Option LifecycleTransition
read_transition [] = none
read_transition (n ∷ rest) = some (record { protected = take n rest; signature = drop n rest })

read_transition-IsReadBack : IsReadBack transition_to_vec read_transition
read_transition-IsReadBack r bytes h = ground (
  arith,
  take_front (length r.protected) r.protected r.signature refl,
  drop_front (length r.protected) r.protected r.signature refl,
)

transition_digested :
    LifecycleTransition.digest transition_to_vec hash lifecycle ≡ ok certificate_digest
unfolding LifecycleTransition.digest encode_transition
transition_digested = refl
