-- ===== src/Records/LifecycleTransition.antt =====
-- src/records/lifecycle_transition.rs: the claims of a lifecycle transition, their validation, and
-- the signed record. minicbor's derived encoding of the claims and of the record is a parameter.
pub mod Heads
pub mod Claims
pub mod Record
use Prim.Native.String.{String}
use styrene_identity.Prelude.{
  ℕ, Bool, true, false, not, ◌&&◌, ◌||◌, List, [], ◌∷◌, Option, none, some, Result, ok, err, ◌>>=◌,
  ◌>>◌, reject, map_err, is_some, is_none, ltb, ◌==◌, if◌then◌else◌, length, any, is_empty, Bytes,
  bytes_eq, bytes_lt, bool_ne,
}
use styrene_identity.Records.{
  RecordError, encode, unsupported_version, too_large, invalid_domain_key, invalid_transition,
  invalid_revision, invalid_reconciliation, SignatureSuite, record_profile_version,
  lifecycle_transition_domain, max_lifecycle_transition_bytes, signing_frame,
  validate_ascii_identifier,
}
use styrene_identity.Records.RuntimeCertificate.{SubjectKind}

pub data LifecycleDomainKey : Type 0 where
  owner_state : Bytes → LifecycleDomainKey
  authority : Bytes → Bytes → LifecycleDomainKey
  runtime_certificate : Bytes → SubjectKind → Bytes → LifecycleDomainKey
  revocation : Bytes → LifecycleDomainKey
  enrollment_nonce : Bytes → LifecycleDomainKey
  replica_quota : Bytes → Bytes → LifecycleDomainKey
  recovery_policy : Bytes → ℕ → LifecycleDomainKey
  api_grant : Bytes → Bytes → LifecycleDomainKey
  audit_purge : Bytes → LifecycleDomainKey
  key_family : Bytes → LifecycleDomainKey

-- The `match` of `validate`, before its errors are renamed.
pub validate_domain : LifecycleDomainKey → Result RecordError (Unit {0})
validate_domain (owner_state domain) = validate_ascii_identifier domain 255
validate_domain (audit_purge domain) = validate_ascii_identifier domain 255
validate_domain (authority domain _) = validate_ascii_identifier domain 255
validate_domain (recovery_policy domain _) = validate_ascii_identifier domain 255
validate_domain (runtime_certificate _ _ subject) = validate_ascii_identifier subject 255
validate_domain _ = ok tt

unfoldable pub validate_domain_key : LifecycleDomainKey → Result RecordError (Unit {0})
unfolding validate_domain
validate_domain_key key = map_err (λ _. invalid_domain_key) (validate_domain key)

pub data TransitionKind : Type 0 where
  bootstrap issue activate retire suspend reinstate : TransitionKind
  revoke_administrative revoke_compromise consume tombstone : TransitionKind
  reconcile grant purge_authorize : TransitionKind

pub data TargetKind : Type 0 where
  runtime_certificate key_version authority owner_state enrollment_challenge : TargetKind
  replica_lease recovery_policy api_grant audit_purge_proposal lifecycle_transition : TargetKind

pub data ReasonCode : Type 0 where
  unspecified routine_renewal operator_request policy_violation key_compromise : ReasonCode
  provider_or_host_compromise authority_compromise attestation_invalidation : ReasonCode
  lost_custody superseded provider_operation_failed recovery_action : ReasonCode

pub data DescendantScope : Type 0 where
  target_only key_version_and_certificates authority_descendants : DescendantScope
  provider_or_host_boundary trust_domain : DescendantScope

pub record Reconciliation : Type 0 where
  pub fork_predecessor_digest : Bytes
  pub winning_head_digest : Bytes
  pub rejected_head_digests : List Bytes
  pub superior_domain_key : LifecycleDomainKey
  pub superior_transition_digest : Bytes

-- `windows(2).any(|pair| pair[0] >= pair[1])`; arrays compare by their first difference.
unfoldable pub any_unsorted : List Bytes → Bool
any_unsorted [] = false
any_unsorted (a ∷ []) = false
any_unsorted (a ∷ b ∷ rest) = not (bytes_lt a b) || any_unsorted (b ∷ rest)

unfoldable pub validate_reconciliation : Reconciliation → Result RecordError (Unit {0})
validate_reconciliation r = do
  reject (is_empty r.rejected_head_digests || ltb 64 (length r.rejected_head_digests))
      invalid_reconciliation
  reject
      (any (λ digest. bytes_eq digest r.winning_head_digest) r.rejected_head_digests
        || any_unsorted r.rejected_head_digests)
      invalid_reconciliation
  validate_domain_key r.superior_domain_key
  ok tt

pub record LifecycleTransitionClaims : Type 0 where
  pub profile_version : ℕ
  pub transition_id : Bytes
  pub domain_key : LifecycleDomainKey
  pub revision : ℕ
  pub previous_transition_digest : Option Bytes
  pub transition_kind : TransitionKind
  pub target_kind : TargetKind
  pub target_id : Bytes
  pub effective_at_ms : ℕ
  pub reason_code : ReasonCode
  pub issuer_key_id : Bytes
  pub issuer_key_version : ℕ
  pub issuer_suite : SignatureSuite
  pub replacement_digest : Option Bytes
  pub compromise_not_before_ms : Option ℕ
  pub descendant_scope : DescendantScope
  pub reconciliation : Option Reconciliation
  pub extensions_digest : Option Bytes

abbrev is_bootstrap : TransitionKind → Bool
is_bootstrap bootstrap = true
is_bootstrap _ = false

abbrev is_compromise : TransitionKind → Bool
is_compromise revoke_compromise = true
is_compromise _ = false

abbrev is_target_only : DescendantScope → Bool
is_target_only target_only = true
is_target_only _ = false

-- `if let Some(start) = … && start > effective`
abbrev starts_late : Option ℕ → ℕ → Bool
starts_late none effective = false
starts_late (some start) effective = ltb effective start

-- The last `match` of `validate`.
pub check_reconciliation : TransitionKind → Option Reconciliation → Result RecordError (Unit {0})
check_reconciliation reconcile (some value) = validate_reconciliation value
check_reconciliation reconcile none = err invalid_reconciliation
check_reconciliation _ (some value) = err invalid_reconciliation
check_reconciliation _ none = ok tt

unfoldable pub validate : LifecycleTransitionClaims → Result RecordError (Unit {0})
validate c = do
  reject (not (c.profile_version == record_profile_version)) (unsupported_version c.profile_version)
  validate_domain_key c.domain_key
  let bootstrap = is_bootstrap c.transition_kind
  reject (bool_ne bootstrap (c.revision == 0 && is_none c.previous_transition_digest))
      invalid_revision
  reject (not bootstrap && (c.revision == 0 || is_none c.previous_transition_digest))
      invalid_revision
  let compromise = is_compromise c.transition_kind
  reject (not compromise && is_some c.compromise_not_before_ms) invalid_transition
  reject (starts_late c.compromise_not_before_ms c.effective_at_ms) invalid_transition
  reject (compromise && is_target_only c.descendant_scope) invalid_transition
  reject (not compromise && not (is_target_only c.descendant_scope)) invalid_transition
  check_reconciliation c.transition_kind c.reconciliation
  ok tt

module _ (claims_to_vec : LifecycleTransitionClaims → Result String Bytes) where
  unfoldable pub protected_bytes : LifecycleTransitionClaims → Result RecordError Bytes
  protected_bytes c = do validate c; map_err encode (claims_to_vec c)

  unfoldable pub signing_input : LifecycleTransitionClaims → Result RecordError Bytes
  signing_input c = do
    protected ← protected_bytes c
    signing_frame lifecycle_transition_domain protected

pub record LifecycleTransition : Type 0 where
  pub protected : Bytes
  pub signature : Bytes

unfoldable pub from_claims :
    (LifecycleTransitionClaims → Result String Bytes)
    → LifecycleTransitionClaims
    → Bytes
    → Result RecordError LifecycleTransition
from_claims claims_to_vec claims signature = do
  protected ← protected_bytes claims_to_vec claims
  ok (record { protected = protected; signature = signature })

module _ (record_to_vec : LifecycleTransition → Result String Bytes) where
  unfoldable pub encode_transition : LifecycleTransition → Result RecordError Bytes
  encode_transition transition = do
    bytes ← map_err encode (record_to_vec transition)
    reject (ltb max_lifecycle_transition_bytes (length bytes))
        (too_large (length bytes) max_lifecycle_transition_bytes)
    ok bytes

  unfoldable pub digest : (Bytes → Bytes) → LifecycleTransition → Result RecordError Bytes
  digest sha256 transition = do ok (sha256 (← encode_transition transition))
