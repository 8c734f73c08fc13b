-- ===== src/SshAgent/Session.antt =====
-- What the SSH agent of src/ssh_agent.rs signs.
use styrene_identity.Prelude.{
  ◌≢◌, ◌⊎◌, err, Bool-cases, bytes_eq, bytes_eq_iff, false, ◌≡◌, refl, sym, ap, ◌∙◌, inl, inr, true,
  List, Option, Option-cases, some, Result, ok, >>=-eq-ok, ok-injective, ok_or, length, All, Member,
  All-elim, Bytes, arith,
}
use mathlib.Core.Path.{subst}
use styrene_identity.External.Ed25519.{Ed25519, IsEd25519}
use styrene_identity.Derive.{Hkdf}
use styrene_identity.Derive
use styrene_identity.FileSigner.{SignerError}
use styrene_identity.Pubkey.{sign_with_seed}
use styrene_identity.SshAgent.{
  StyreneAgent, KeyData, Identity, SignRequest, KeySpec, AgentError, get, PublicMap,
  derive_public_map, derive_seed, seed_of, request_identities, requested_pubkey, sign,
}
use styrene_identity.SshAgent.Offers.{
  Offered, requested_pubkey-eq-ok, IsKeyOf, derive_public_map-IsValidMap, get-IsKeyOf,
}

bytes_ne : (a b : Bytes) → bytes_eq a b ≡ false → a ≢ b
bytes_ne a b differ same = ground (arith, bytes_eq_iff a b)

module _ (hkdf : Hkdf) (ed : Ed25519) (self : StyreneAgent) (root : Bytes) where
  -- A session over the signer's two answers, which give one root.
  abbrev pub sign_session : (Bytes → Option Bytes) → SignRequest → Result AgentError Bytes
  sign_session new_signature = sign hkdf ed new_signature self (ok root) (ok root)

  module _ (new_signature : Bytes → Option Bytes) where
    -- What is signed, for a key of the map.
    signed_lem :
        (m : PublicMap) (key message : Bytes) (spec : KeySpec)
        (k : IsKeyOf hkdf ed self root key spec)
        → derive_public_map hkdf ed self (ok root) ≡ ok m
        → get m.key_map key ≡ some spec
        → sign_session new_signature (record { pubkey = KeyData.ed25519 key; message = message })
          ≡ ok_or (new_signature (Ed25519.sign ed k.seed message)) AgentError.signature_refused
    unfolding sign requested_pubkey derive_seed sign_with_seed
    signed_lem m key message spec k made found = rw (made, found, k.derived) refl

    accepted_signature :
        ((bytes sig : Bytes) → new_signature bytes ≡ some sig → sig ≡ bytes)
        → (bytes sig : Bytes)
        → ◌≡◌ {A = Result AgentError Bytes}
            (ok_or (new_signature bytes) AgentError.signature_refused)
            (ok sig)
        → sig ≡ bytes
    accepted_signature kept bytes sig e = elim (Option-cases (new_signature bytes)) [
      | inl refused ↦ absurd (let e' = rw refused at e in ground arith)
      | inr (s, made) ↦ sym (ok-injective (rw made at e)) ∙ kept bytes s made
    ]

    derive_seed-eq-ok :
        (answer : Result SignerError Bytes) (spec : KeySpec) (seed : Bytes)
        → derive_seed hkdf ed answer spec ≡ ok seed
        → (r : Bytes) × (answer ≡ ok r) × (seed_of hkdf ed (Derive.new hkdf r) spec ≡ ok seed)
    unfolding derive_seed
    derive_seed-eq-ok (ok r) spec seed e = (r, refl, e)
    derive_seed-eq-ok (err why) spec seed e = absurd (ground arith)

    derive_public_map-eq-ok :
        (answer : Result SignerError Bytes) (m : PublicMap)
        → derive_public_map hkdf ed self answer ≡ ok m
        → (r : Bytes) × (answer ≡ ok r) × (derive_public_map hkdf ed self (ok r) ≡ ok m)
    unfolding derive_public_map
    derive_public_map-eq-ok (ok r) m e = (r, refl, e)
    derive_public_map-eq-ok (err why) m e = absurd (ground arith)

    -- The signer is asked twice for each signature: for the key and for the signing. When the agent
    -- returns a signature, the signer has given a root each time, the requested key is an Ed25519
    -- key that the first root derives for something the agent was told to serve, and the signature
    -- verifies under the key that the second root derives for it. So it verifies under the requested
    -- key unless the two roots differ. A signature of the crate holds the bytes it was made of.
    pub verify-sign :
        IsEd25519 ed
        → ((bytes sig : Bytes) → new_signature bytes ≡ some sig → sig ≡ bytes)
        → (first_root second_root : Result SignerError Bytes) (request : SignRequest) (sig : Bytes)
        → sign hkdf ed new_signature self first_root second_root request ≡ ok sig
        → (first : Bytes) × (second : Bytes) × (key : Bytes) × (spec : KeySpec) × (seed : Bytes)
          × (first_root ≡ ok first)
          × (second_root ≡ ok second)
          × (request.pubkey ≡ KeyData.ed25519 key)
          × IsKeyOf hkdf ed self first key spec
          × (seed_of hkdf ed (Derive.new hkdf second) spec ≡ ok seed)
          × (Ed25519.verify ed (Ed25519.verifying_key ed seed) request.message sig ≡ true)
          × ((first ≢ second) ⊎ (Ed25519.verify ed key request.message sig ≡ true))
    unfolding sign derive_seed sign_with_seed
    verify-sign signs kept first_root second_root request sig e =
        let (m, made', e1) = >>=-eq-ok (derive_public_map hkdf ed self first_root) _ e in
        let (first, given', made) = derive_public_map-eq-ok first_root m made' in
        let (key, asked, e2) = >>=-eq-ok (requested_pubkey request.pubkey) _ e1 in
        elim (Option-cases (get m.key_map key)) [
          | inl missing ↦ absurd (let e3 = rw missing at e2 in ground arith)
          | inr (spec, found) ↦
              let v = derive_public_map-IsValidMap hkdf ed self first m made in
              let k = get-IsKeyOf hkdf ed self first m.key_map key spec v.keys found in
              let e3 = rw found at e2 in
              let (seed, derived, e4) = >>=-eq-ok (derive_seed hkdf ed second_root spec) _ e3 in
              let (second, given, from) = derive_seed-eq-ok second_root spec seed derived in
              let holds =
                ap (Ed25519.verify ed (Ed25519.verifying_key ed seed) request.message)
                  (accepted_signature kept (Ed25519.sign ed seed request.message) sig e4)
                ∙ signs.verify-sign seed request.message in
              (
                first,
                second,
                key,
                spec,
                seed,
                given',
                given,
                requested_pubkey-eq-ok request.pubkey key asked,
                k,
                from,
                holds,
                elim (Bool-cases (bytes_eq first second)) [
                  | inr differ ↦ inl (λ same. bytes_ne first second differ same)
                  | inl same ↦ inr (
                      let roots = (bytes_eq_iff first second).0 same in
                      let seeds = ok-injective (
                        sym k.derived
                        ∙ ap (λ r. seed_of hkdf ed (Derive.new hkdf r) spec) roots
                        ∙ from) in
                      ap (λ t. Ed25519.verify ed t request.message sig)
                        (k.matched ∙ ap (Ed25519.verifying_key ed) seeds)
                      ∙ holds)
                ],
              )
        ]

    -- Where the signer gives one root for the listing and for both questions of `sign`, every
    -- identity that the agent lists can be used: a request to sign any message with it gives a
    -- signature that verifies under its key. The crate accepts 64 bytes as a signature.
    pub sign-request_identities :
        IsEd25519 ed
        → ((bytes : Bytes) → length bytes ≡ 64 → new_signature bytes ≡ some bytes)
        → (ids : List Identity) (i : Identity) (message : Bytes)
        → request_identities hkdf ed self (ok root) ≡ ok ids
        → Member i ids
        → (key : Bytes) × (sig : Bytes) × (i.pubkey ≡ KeyData.ed25519 key)
          × (sign_session new_signature (record { pubkey = i.pubkey; message = message }) ≡ ok sig)
          × (Ed25519.verify ed key message sig ≡ true)
    unfolding request_identities
    sign-request_identities signs accepts ids i message e listed =
        let (m, made, e1) = >>=-eq-ok (derive_public_map hkdf ed self (ok root)) _ e in
        let v = derive_public_map-IsValidMap hkdf ed self root m made in
        let all_offered = subst (λ l. All (Offered m.key_map) l) (ok-injective e1) v.offered in
        let (key, shown, spec, found) = All-elim (Offered m.key_map) ids all_offered i listed in
        let k = get-IsKeyOf hkdf ed self root m.key_map key spec v.keys found in
        let sig = Ed25519.sign ed k.seed message in
        let signed = signed_lem m key message spec k made found in
        (
          key,
          sig,
          shown,
          rw (shown, signed, accepts sig (signs.signature_size k.seed message)) refl,
          rw k.matched (signs.verify-sign k.seed message),
        )
