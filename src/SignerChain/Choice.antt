-- ===== src/SignerChain/Choice.antt =====
-- Which signer of a chain answers: src/signer.rs.
use styrene_identity.Prelude.{
  ℕ, ◌≤◌, ◌≡◌, ◌⊎◌, ◌↔◌, refl, inl, inr, Bool-cases, true, false, List, [], ◌∷◌, none, some, err,
  leb, Bytes, All, Member, arith,
}
use styrene_identity.SignerChain.{
  rank, IdentitySigner, SignerChain, insert_by_tier, sort_by_tier, new_sorted, find_available,
  available, any_available, is_available, tier, label, first_root_secret, root_secret, first_sign,
  sign, no_signer, encrypted_file,
}

-- The signer that answers is available, and no available signer of the list is of an earlier tier.
pub record IsChosen (signers : List IdentitySigner) (s : IdentitySigner) : Type 0 where
  pub member : Member s signers
  pub ready : s.is_available ≡ true
  pub earliest :
      (t : IdentitySigner) → Member t signers → t.is_available ≡ true → rank s.tier ≤ rank t.tier

abbrev IsSorted : List IdentitySigner → Type 0
IsSorted [] = Unit {0}
IsSorted (s ∷ rest) = All (λ t. rank s.tier ≤ rank t.tier) rest × IsSorted rest

All-insert_by_tier :
    (n : ℕ) (s : IdentitySigner) (signers : List IdentitySigner)
    → n ≤ rank s.tier
    → All (λ t. n ≤ rank t.tier) signers
    → All (λ t. n ≤ rank t.tier) (insert_by_tier s signers)
unfolding insert_by_tier
All-insert_by_tier n s [] h _ = (h, tt)
All-insert_by_tier n s (t ∷ rest) h (first, more) =
    ground (arith, All-insert_by_tier n s rest h more)

All-le :
    (n m : ℕ) (signers : List IdentitySigner)
    → n ≤ m
    → All (λ t. m ≤ rank t.tier) signers
    → All (λ t. n ≤ rank t.tier) signers
All-le n m [] h _ = tt
All-le n m (t ∷ rest) h (first, more) = (omega arith, All-le n m rest h more)

insert_by_tier-IsSorted :
    (s : IdentitySigner) (signers : List IdentitySigner)
    → IsSorted signers
    → IsSorted (insert_by_tier s signers)
unfolding insert_by_tier
insert_by_tier-IsSorted s [] _ = (tt, tt)
insert_by_tier-IsSorted s (t ∷ rest) (first, more) =
    elim (Bool-cases (leb (rank s.tier) (rank t.tier))) [
      | inl before ↦
          let low : rank s.tier ≤ rank t.tier = ground arith in
          rw before ((low, All-le _ _ rest low first), (first, more))
      | inr after ↦ rw after (
        All-insert_by_tier (rank t.tier) s rest (ground arith) first,
        insert_by_tier-IsSorted s rest more,
      )
    ]

sort_by_tier-IsSorted : (signers : List IdentitySigner) → IsSorted (sort_by_tier signers)
unfolding sort_by_tier
sort_by_tier-IsSorted [] = tt
sort_by_tier-IsSorted (s ∷ rest) = insert_by_tier-IsSorted s _ (sort_by_tier-IsSorted rest)

Member-insert_by_tier :
    (t s : IdentitySigner) (signers : List IdentitySigner)
    → Member t (insert_by_tier s signers) ↔ Member t (s ∷ signers)
unfolding insert_by_tier
Member-insert_by_tier t s [] = (λ h. h, λ h. h)
Member-insert_by_tier t s (u ∷ rest) =
    let (down, up) = Member-insert_by_tier t s rest in
    elim (Bool-cases (leb (rank s.tier) (rank u.tier))) [
      | inl before ↦ rw before (λ h. h, λ h. h)
      | inr after ↦ rw after (
        λ h. elim h [
          | inl e ↦ inr (inl e)
          | inr k ↦ elim (down k) [ inl e ↦ inl e | inr k' ↦ inr (inr k') ]
        ],
        λ h. elim h [
          | inl e ↦ inr (up (inl e))
          | inr k ↦ elim k [ inl e ↦ inl e | inr k' ↦ inr (up (inr k')) ]
        ],
      )
    ]

Member-sort_by_tier :
    (t : IdentitySigner) (signers : List IdentitySigner)
    → Member t (sort_by_tier signers) ↔ Member t signers
unfolding sort_by_tier
Member-sort_by_tier t [] = (λ h. h, λ h. h)
Member-sort_by_tier t (s ∷ rest) =
    let (down, up) = Member-insert_by_tier t s (sort_by_tier rest) in
    let (below, above) = Member-sort_by_tier t rest in
    (
      λ h. elim (down h) [ inl e ↦ inl e | inr k ↦ inr (below k) ],
      λ h. elim h [ inl e ↦ up (inl e) | inr k ↦ up (inr (above k)) ],
    )

earliest_of :
    (n : ℕ) (signers : List IdentitySigner)
    → All (λ t. n ≤ rank t.tier) signers
    → (t : IdentitySigner) → Member t signers
    → n ≤ rank t.tier
earliest_of n [] _ t h = absurd h
earliest_of n (s ∷ rest) (first, more) t (inl e) = rw e first
earliest_of n (s ∷ rest) (first, more) t (inr h) = earliest_of n rest more t h

find_available-IsChosen :
    (signers : List IdentitySigner) (s : IdentitySigner)
    → IsSorted signers
    → find_available signers ≡ some s
    → IsChosen signers s
unfolding find_available
find_available-IsChosen [] s _ h = absurd (ground arith)
find_available-IsChosen (u ∷ rest) s (first, more) h = elim (Bool-cases u.is_available) [
  | inl ready ↦
      let h' = rw ready at h in
      let same : s ≡ u = cc in
      record {
        member = inl same;
        ready = rw same ready;
        earliest = λ t m available.
            rw same (earliest_of (rank u.tier) (u ∷ rest) (omega arith, first) t m);
      }
  | inr busy ↦
      let later = find_available-IsChosen rest s more (rw busy at h) in
      record {
        member = inr later.member;
        ready = later.ready;
        earliest = λ t m available. elim m [
          | inl e ↦ absurd (ground arith)
          | inr m' ↦ later.earliest t m' available
        ];
      }
]

-- Of a chain that was sorted by tier, the signer that is used is one of those given, it is
-- available, and no available one is of an earlier tier.
pub new_sorted-IsChosen :
    (signers : List IdentitySigner) (s : IdentitySigner)
    → available (new_sorted signers) ≡ some s
    → IsChosen signers s
unfolding available new_sorted
new_sorted-IsChosen signers s h =
    let found =
      find_available-IsChosen (sort_by_tier signers) s (sort_by_tier-IsSorted signers) h in
    record {
      member = (Member-sort_by_tier s signers).0 found.member;
      ready = found.ready;
      earliest = λ t m ready. found.earliest t ((Member-sort_by_tier t signers).1 m) ready;
    }

-- The first available signer answers for the whole chain.
pub record IsAnsweredBy (self : SignerChain) (s : IdentitySigner) : Type 0 where
  pub first : available self ≡ some s
  pub ready : is_available self ≡ true
  pub tier_lem : tier self ≡ s.tier
  pub label_lem : label self ≡ s.label
  pub root_lem : root_secret self ≡ s.root_secret
  pub sign_lem : (message : Bytes) → sign self message ≡ s.sign message

-- Nothing answers.
pub record IsUnanswered (self : SignerChain) : Type 0 where
  pub nobody : available self ≡ none
  pub busy : is_available self ≡ false
  pub default_tier : tier self ≡ encrypted_file
  pub no_root : root_secret self ≡ err no_signer
  pub no_signature : (message : Bytes) → sign self message ≡ err no_signer

abbrev chain : List IdentitySigner → SignerChain
chain signers = record { signers = signers }

answers :
    (signers : List IdentitySigner)
    → ((s : IdentitySigner) × IsAnsweredBy (chain signers) s) ⊎ IsUnanswered (chain signers)
unfolding available find_available is_available any_available tier label root_secret
    first_root_secret sign first_sign
answers [] = inr (record {
  nobody = refl;
  busy = refl;
  default_tier = refl;
  no_root = refl;
  no_signature = λ message. refl;
})
answers (s ∷ rest) = elim (Bool-cases s.is_available) [
  | inl ready ↦ inl (
    s,
    record {
      first = rw ready refl;
      ready = rw ready refl;
      tier_lem = rw ready refl;
      label_lem = rw ready refl;
      root_lem = rw ready refl;
      sign_lem = λ message. rw ready refl;
    },
  )
  | inr busy ↦ elim (answers rest) [
    | inl (t, found) ↦ inl (
      t,
      record {
        first = rw busy found.first;
        ready = rw busy found.ready;
        tier_lem = rw busy found.tier_lem;
        label_lem = rw busy found.label_lem;
        root_lem = rw busy found.root_lem;
        sign_lem = λ message. rw busy (found.sign_lem message);
      },
    )
    | inr lost ↦ inr (record {
      nobody = rw busy lost.nobody;
      busy = rw busy lost.busy;
      default_tier = rw busy lost.default_tier;
      no_root = rw busy lost.no_root;
      no_signature = λ message. rw busy (lost.no_signature message);
    })
  ]
]

-- Either one signer answers for the chain in every way, the first that is available, or the chain
-- says that it is not available and refuses both operations.
pub chain-IsAnsweredBy :
    (self : SignerChain) → ((s : IdentitySigner) × IsAnsweredBy self s) ⊎ IsUnanswered self
chain-IsAnsweredBy self = answers self.signers
