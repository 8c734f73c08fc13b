-- ===== src/Records/LifecycleTransition/Claims.antt =====
-- The validation of src/records/lifecycle_transition.rs, against a description by parts.
use styrene_identity.Prelude.{
  ℕ, ◌≤◌, ◌<◌, ◌≡◌, refl, ◌≢◌, ◌↔◌, ◌⊎◌, true, Option, none, some, is_some, ok, arith,
}
use styrene_identity.Records.LifecycleTransition.{
  LifecycleTransitionClaims, TransitionKind, bootstrap, revoke_compromise, reconcile, target_only,
  Reconciliation, check_reconciliation, validate,
}
use styrene_identity.Records.LifecycleTransition.Heads.{
  IsDomainKey, validate_domain_key-IsDomainKey, IsValidReconciliation,
  validate_reconciliation-IsValidReconciliation,
}

-- Revision 0 with no predecessor is a bootstrap; every other transition has both.
abbrev IsChained : LifecycleTransitionClaims → Type 0
IsChained c =
    ((c.transition_kind ≡ bootstrap) × (c.revision ≡ 0) × (c.previous_transition_digest ≡ none))
    ⊎ ((c.transition_kind ≢ bootstrap)
        × (0 < c.revision)
        × (is_some c.previous_transition_digest ≡ true))

abbrev StartsBy : Option ℕ → ℕ → Type 0
StartsBy none effective = Unit {0}
StartsBy (some start) effective = start ≤ effective

-- Only the revocation of a compromised target reaches its descendants, and only it may be
-- backdated.
abbrev IsScoped : LifecycleTransitionClaims → Type 0
IsScoped c =
    ((c.transition_kind ≡ revoke_compromise)
      × (c.descendant_scope ≢ target_only)
      × StartsBy c.compromise_not_before_ms c.effective_at_ms)
    ⊎ ((c.transition_kind ≢ revoke_compromise)
        × (c.descendant_scope ≡ target_only)
        × (c.compromise_not_before_ms ≡ none))

-- A payload is there exactly for a reconciliation.
abbrev HasPayload : TransitionKind → Option Reconciliation → Type 0
HasPayload reconcile none = ⊥
HasPayload reconcile (some r) = IsValidReconciliation r
HasPayload _ none = Unit {0}
HasPayload _ (some r) = ⊥

pub record IsValidClaims (c : LifecycleTransitionClaims) : Type 0 where
  pub version : c.profile_version ≡ 1
  pub domain : IsDomainKey c.domain_key
  pub chained : IsChained c
  pub scoped : IsScoped c
  pub payload : HasPayload c.transition_kind c.reconciliation

check_reconciliation-HasPayload :
    (kind : TransitionKind) (payload : Option Reconciliation)
    → (check_reconciliation kind payload ≡ ok tt) ↔ HasPayload kind payload
unfolding check_reconciliation
check_reconciliation-HasPayload reconcile none = ground arith
check_reconciliation-HasPayload reconcile (some r) = validate_reconciliation-IsValidReconciliation r
check_reconciliation-HasPayload _ none = (λ _. tt, λ _. refl)
check_reconciliation-HasPayload _ (some r) = ground arith

-- Claims are accepted exactly when they are of version 1 with a well-formed domain key, a bootstrap
-- begins the chain and everything else continues it, scope and backdating belong to the revocation
-- of a compromise, and a valid payload comes with a reconciliation alone.
pub validate-IsValidTransition :
    (c : LifecycleTransitionClaims) → (validate c ≡ ok tt) ↔ IsValidClaims c
unfolding validate
validate-IsValidTransition c =
    let domain = validate_domain_key-IsDomainKey c.domain_key in
    let payload = check_reconciliation-HasPayload c.transition_kind c.reconciliation in
    (
      λ h. record {
        version = ground arith;
        domain = domain.0 (ground arith);
        chained = ground arith;
        scoped = ground arith;
        payload = payload.0 (ground arith);
      },
      λ v. let d = domain.1 v.domain in let p = payload.1 v.payload in ground arith,
    )
