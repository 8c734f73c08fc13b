-- ===== src/Platform/Keychain/Lookup.antt =====
-- src/keychain_signer.rs: which lookups stop a secret from being stored.
use styrene_identity.Prelude.{
  ℕ, zero, suc, ◌≡◌, ◌⊎◌, inl, inr, refl, sym, ap, ◌∙◌, eq_ℤ, Result-cases, Bool, Bool-cases, true,
  false, Result, ok, err, reject, Bytes, arith,
}
use styrene_identity.FileSigner.{SignerError, unavailable, signing_failed, text}
use styrene_identity.Platform.Store.{Action, ◌>>◌, lift, map_err}
use styrene_identity.Platform.Keychain.{
  item_not_found, OsError, Keychain, KeychainSigner, presence_of, or_false, presence, exists,
  create_from_root_secret, restore_root_secret,
}

module _ {S : Type 0} (keychain : Keychain S) (self : KeychainSigner) where
  -- What the lookup answers.
  abbrev pub lookup : S → Result OsError ℕ
  lookup s = (keychain.search self.service self.account s).0

  abbrev pub looked : S → S
  looked s = (keychain.search self.service self.account s).1

  -- Storing, behind the lookup.
  abbrev pub storing : Bytes → Action S SignerError (Unit {0})
  storing secret = do
    map_err (λ _. signing_failed (text "Keychain access policy failed"))
        (lift keychain.access_control)
    map_err (λ _. signing_failed (text "Keychain store failed"))
        (keychain.set_password self.service self.account secret)

  exists-lookup :
      (s : S) → exists keychain self s ≡ (ok (or_false (presence_of (lookup s))), looked s)
  unfolding exists presence
  exists-lookup s = refl

  restore-here :
      (secret : Bytes) (s : S) (here : Bool)
      → or_false (presence_of (lookup s)) ≡ here
      → restore_root_secret keychain self secret s
        ≡ (lift (
                reject here
                  (unavailable (text "Identity already exists in Keychain. Delete it first.")))
              >> storing secret)
            (looked s)
  unfolding restore_root_secret create_from_root_secret exists presence
  restore-here secret s here e = rw e refl

  -- A search that answers with no item, or with the code for none, answers so only where no secret
  -- can be read.
  pub record IsSeen : Type 0 where
    pub none_found :
        (s : S)
        → lookup s ≡ ok 0
        → (why : OsError) × ((keychain.password self.service self.account s).0 ≡ err why)
    pub not_found :
        (s : S) (e : OsError)
        → lookup s ≡ err e
        → eq_ℤ e.code item_not_found ≡ true
        → (why : OsError) × ((keychain.password self.service self.account s).0 ≡ err why)

  -- What a restore that passes the lookup has met.
  unguarded :
      IsSeen
      → (s : S) → or_false (presence_of (lookup s)) ≡ false
      → ((why : OsError) × ((keychain.password self.service self.account s).0 ≡ err why))
        ⊎ ((e : OsError) × (lookup s ≡ err e) × (eq_ℤ e.code item_not_found ≡ false))
  unfolding or_false presence_of
  unguarded seen s passed = elim (Result-cases (lookup s)) [
    | inr (e, failed) ↦ elim (Bool-cases (eq_ℤ e.code item_not_found)) [
      | inl missing ↦ inl (seen.not_found s e failed missing)
      | inr other ↦ inr (e, failed, other)
    ]
    | inl (zero, found) ↦ inl (seen.none_found s found)
    | inl (suc n, found) ↦ absurd (let passed' = rw found at passed in ground arith)
  ]

  storing-ok :
      (secret : Bytes) (s : S)
      → (storing secret s).0 ≡ ok tt
      → ((keychain.set_password self.service self.account secret s).0 ≡ ok tt)
        × ((storing secret s).1 ≡ (keychain.set_password self.service self.account secret s).1)
  storing-ok secret s done = elim (Result-cases keychain.access_control) [
    | inr (why, refused) ↦
        absurd (let done' = rw (◌>>◌, map_err, lift, refused) at done in ground arith)
    | inl (made, e) ↦
        elim (Result-cases (keychain.set_password self.service self.account secret s).0) [
          | inr (why, failed) ↦ absurd (ground arith)
          | inl (a, stored) ↦ (stored, ground arith)
        ]
  ]

  -- A restore that succeeds has stored the secret with one call behind the lookup. Where the
  -- Keychain's search sees what a read would read, no secret could be read before, or the lookup
  -- had failed with another error than that there is no item: only such a failure lets a restore
  -- replace a secret.
  pub restore_root_secret-ok :
      IsSeen
      → (secret : Bytes) (s : S) → (restore_root_secret keychain self secret s).0 ≡ ok tt
      → (((why : OsError) × ((keychain.password self.service self.account s).0 ≡ err why))
          ⊎ ((e : OsError) × (lookup s ≡ err e) × (eq_ℤ e.code item_not_found ≡ false)))
        × ((keychain.set_password self.service self.account secret (looked s)).0 ≡ ok tt)
        × ((restore_root_secret keychain self secret s).1
            ≡ (keychain.set_password self.service self.account secret (looked s)).1)
  restore_root_secret-ok seen secret s done =
      elim (Bool-cases (or_false (presence_of (lookup s)))) [
        | inl here ↦ absurd (
            let refused = sym (ap (λ r. r.0) (restore-here secret s true here)) ∙ done in
            ground arith)
        | inr passed ↦
            let known = restore-here secret s false passed in
            let (stored, left) = storing-ok secret (looked s) (sym (ap (λ r. r.0) known) ∙ done) in
            (unguarded seen s passed, stored, ap (λ r. r.1) known ∙ left)
      ]
