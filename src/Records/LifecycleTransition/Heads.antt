-- ===== src/Records/LifecycleTransition/Heads.antt =====
-- Reconciliation payloads of src/records/lifecycle_transition.rs.
use styrene_identity.Prelude.{
  ◌≤◌, ◌≡◌, refl, ◌≢◌, ◌↔◌, true, false, List, [], ◌∷◌, ok, length, any, All, Bytes, bytes_eq,
  bytes_eq_iff, bytes_lt, bytes_lt_trans, arith,
}
use styrene_identity.Records.Identifier.{IsIdentifier, validate_ascii_identifier-IsIdentifier}
use styrene_identity.Records.LifecycleTransition.{
  LifecycleDomainKey, owner_state, authority, runtime_certificate, recovery_policy, audit_purge,
  validate_domain, validate_domain_key, Reconciliation, any_unsorted, validate_reconciliation,
}

-- The texts in a domain key are identifiers of at most 255 bytes.
abbrev pub IsDomainKey : LifecycleDomainKey → Type 0
IsDomainKey (owner_state domain) = IsIdentifier domain 255
IsDomainKey (audit_purge domain) = IsIdentifier domain 255
IsDomainKey (authority domain _) = IsIdentifier domain 255
IsDomainKey (recovery_policy domain _) = IsIdentifier domain 255
IsDomainKey (runtime_certificate _ _ subject) = IsIdentifier subject 255
IsDomainKey _ = Unit {0}

validate_domain-IsDomainKey :
    (key : LifecycleDomainKey) → (validate_domain key ≡ ok tt) ↔ IsDomainKey key
unfolding validate_domain
validate_domain-IsDomainKey (owner_state domain) = validate_ascii_identifier-IsIdentifier domain 255
validate_domain-IsDomainKey (audit_purge domain) = validate_ascii_identifier-IsIdentifier domain 255
validate_domain-IsDomainKey (authority domain _) = validate_ascii_identifier-IsIdentifier domain 255
validate_domain-IsDomainKey (recovery_policy domain _) =
    validate_ascii_identifier-IsIdentifier domain 255
validate_domain-IsDomainKey (runtime_certificate _ _ subject) =
    validate_ascii_identifier-IsIdentifier subject 255
validate_domain-IsDomainKey _ = (λ _. tt, λ _. refl)

pub validate_domain_key-IsDomainKey :
    (key : LifecycleDomainKey) → (validate_domain_key key ≡ ok tt) ↔ IsDomainKey key
unfolding validate_domain_key
validate_domain_key-IsDomainKey key = (
  λ h. (validate_domain-IsDomainKey key).0 (ground arith),
  λ v. let h = (validate_domain-IsDomainKey key).1 v in ground arith,
)

-- Every digest is below all that follow it, so no digest is listed twice.
abbrev pub IsAscending : List Bytes → Type 0
IsAscending [] = Unit {0}
IsAscending (d ∷ rest) = All (λ e. bytes_lt d e ≡ true) rest × IsAscending rest

All-bytes_lt :
    (a b : Bytes) (rest : List Bytes)
    → bytes_lt a b ≡ true
    → All (λ e. bytes_lt b e ≡ true) rest
    → All (λ e. bytes_lt a e ≡ true) rest
All-bytes_lt a b [] h _ = tt
All-bytes_lt a b (e ∷ rest) h (he, more) = (bytes_lt_trans a b e h he, All-bytes_lt a b rest h more)

any_unsorted-IsAscending : (heads : List Bytes) → (any_unsorted heads ≡ false) ↔ IsAscending heads
unfolding any_unsorted
any_unsorted-IsAscending [] = (λ _. tt, λ _. refl)
any_unsorted-IsAscending (a ∷ []) = (λ _. (tt, tt), λ _. refl)
any_unsorted-IsAscending (a ∷ b ∷ rest) = (
  λ h.
      let first : bytes_lt a b ≡ true = ground arith in
      let tail = (any_unsorted-IsAscending (b ∷ rest)).0 (ground arith) in
      ((first, All-bytes_lt a b rest first tail.0), tail),
  λ s. let tail = (any_unsorted-IsAscending (b ∷ rest)).1 s.1 in ground arith,
)

abbrev Others : Bytes → List Bytes → Type 0
Others winner heads = All (λ d. d ≢ winner) heads

any-bytes_eq :
    (winner : Bytes) (heads : List Bytes)
    → (any (λ d. bytes_eq d winner) heads ≡ false) ↔ Others winner heads
any-bytes_eq winner [] = (λ _. tt, λ _. refl)
any-bytes_eq winner (d ∷ heads) = ground (arith, bytes_eq_iff d winner, any-bytes_eq winner heads)

pub record IsValidReconciliation (r : Reconciliation) : Type 0 where
  pub some_rejected : 1 ≤ length r.rejected_head_digests
  pub bounded : length r.rejected_head_digests ≤ 64
  pub others : Others r.winning_head_digest r.rejected_head_digests
  pub ascending : IsAscending r.rejected_head_digests
  pub superior : IsDomainKey r.superior_domain_key

abbrev of_heads : Reconciliation → List Bytes → Reconciliation
of_heads r heads = record r { rejected_head_digests = heads }

heads_cases :
    (r : Reconciliation) (heads : List Bytes)
    → (validate_reconciliation (of_heads r heads) ≡ ok tt)
      ↔ IsValidReconciliation (of_heads r heads)
unfolding validate_reconciliation
heads_cases r [] = ground arith
heads_cases r (d ∷ heads) =
    let winner = any-bytes_eq r.winning_head_digest (d ∷ heads) in
    let order = any_unsorted-IsAscending (d ∷ heads) in
    let superior = validate_domain_key-IsDomainKey r.superior_domain_key in
    (
      λ h. record {
        some_rejected = omega arith;
        bounded = ground arith;
        others = winner.0 (ground arith);
        ascending = order.0 (ground arith);
        superior = superior.0 (ground arith);
      },
      λ v.
          let w = winner.1 v.others in
          let o = order.1 v.ascending in let s = superior.1 v.superior in ground arith,
    )

-- A reconciliation is accepted exactly when it rejects between one and 64 heads, none of them the
-- winner, listed in strictly ascending order, and its superior domain key is well formed.
pub validate_reconciliation-IsValidReconciliation :
    (r : Reconciliation) → (validate_reconciliation r ≡ ok tt) ↔ IsValidReconciliation r
validate_reconciliation-IsValidReconciliation r = heads_cases r r.rejected_head_digests
