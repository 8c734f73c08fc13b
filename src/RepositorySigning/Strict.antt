-- ===== src/RepositorySigning/Strict.antt =====
-- What `verify_repository_signer_binding` of src/repository_signing.rs has established when it
-- succeeds. Nothing is assumed of the crates.
use styrene_identity.Prelude.{
  ◌≤◌, ◌≡◌, refl, sym, ◌∙◌, ◌⊎◌, inl, inr, true, ok, Result-cases, length, Bytes, bytes_eq_iff,
  ◌++◌, Collision, eq_or_Collision, append_inj, arith,
}
use styrene_identity.External.Minicbor.{Minicbor}
use styrene_identity.External.Ed25519.{Ed25519}
use styrene_identity.IdentityId
use styrene_identity.IdentityId.{IdentityId}
use styrene_identity.RepositorySigning.{
  Claims, VerifiedRepositorySignerBinding, signing_frame, encode_protected, encode_outer,
  decode_outer, decode_protected, validate_public_key, digest_domain,
  verify_repository_signer_binding,
}

module _ (m : Minicbor) (ed : Ed25519) (sha256 : Bytes → Bytes) where
  parts_of :
      (bytes : Bytes) (v : VerifiedRepositorySignerBinding)
      → verify_repository_signer_binding m ed sha256 bytes ≡ ok v
      → (parts : Bytes × Bytes) × (decode_outer m bytes ≡ ok parts)
  unfolding verify_repository_signer_binding
  parts_of bytes v h = elim (Result-cases (decode_outer m bytes)) [
    | inl found ↦ found
    | inr (why, failed) ↦ absurd (ground arith)
  ]

  claims_of :
      (bytes : Bytes) (v : VerifiedRepositorySignerBinding) (parts : Bytes × Bytes)
      → decode_outer m bytes ≡ ok parts
      → verify_repository_signer_binding m ed sha256 bytes ≡ ok v
      → (claims : Claims) × (decode_protected m parts.0 ≡ ok claims)
  unfolding verify_repository_signer_binding
  claims_of bytes v parts e h = elim (Result-cases (decode_protected m parts.0)) [
    | inl found ↦ found
    | inr (why, failed) ↦
        absurd (let h' = rw (verify_repository_signer_binding, e, failed) at h in ground arith)
  ]

  -- The claims that were read, and the checks that they passed.
  pub record IsVerified (bytes : Bytes) (v : VerifiedRepositorySignerBinding) : Type 0 where
    pub protected : Bytes
    pub sig : Bytes
    pub frame : Bytes
    pub bounded : length bytes ≤ 384
    pub read : decode_outer m bytes ≡ ok (protected, sig)
    pub claims_written :
        encode_protected m v.identity_id v.identity_public_key v.repository_public_key v.epoch
        ≡ ok protected
    pub binding_written : encode_outer m protected sig ≡ ok bytes
    pub framed : signing_frame protected ≡ ok frame
    pub signed : Ed25519.verify_strict ed v.identity_public_key frame sig ≡ true
    pub identity_bound : v.identity_id ≡ IdentityId.from_public_key sha256 v.identity_public_key
    pub identity_key_valid : validate_public_key m ed v.identity_public_key ≡ ok tt
    pub repository_key_valid : validate_public_key m ed v.repository_public_key ≡ ok tt
    pub digested : v.digest ≡ sha256 (digest_domain ++ bytes)

  matches_public_key-eq :
      (i : IdentityId) (key : Bytes)
      → IdentityId.matches_public_key sha256 i key ≡ true
      → i ≡ IdentityId.from_public_key sha256 key
  unfolding IdentityId.matches_public_key
  matches_public_key-eq i key h =
      ground (arith, bytes_eq_iff i.bytes (IdentityId.from_public_key sha256 key).bytes)

  module _ (bytes : Bytes) (v : VerifiedRepositorySignerBinding) (p s : Bytes) (c : Claims)
      (read : decode_outer m bytes ≡ ok (p, s)) (claimed : decode_protected m p ≡ ok c)
      (h : verify_repository_signer_binding m ed sha256 bytes ≡ ok v) where
    checked :
        (length bytes ≤ 384)
        × (validate_public_key m ed c.identity_public_key ≡ ok tt)
        × (validate_public_key m ed c.repository_public_key ≡ ok tt)
        × (IdentityId.matches_public_key sha256 c.identity_id c.identity_public_key ≡ true)
    unfolding verify_repository_signer_binding
    checked = let h' = rw (verify_repository_signer_binding, read, claimed) at h in ground arith

    rewritten :
        (encode_protected m c.identity_id c.identity_public_key c.repository_public_key c.epoch
          ≡ ok p)
        × (encode_outer m p s ≡ ok bytes)
    unfolding verify_repository_signer_binding
    rewritten =
        let h' = rw (verify_repository_signer_binding, read, claimed) at h in
        elim (Result-cases (
          encode_protected m c.identity_id c.identity_public_key c.repository_public_key c.epoch)) [
            | inr (why, failed) ↦ absurd (ground arith)
            | inl (q, written) ↦ elim (Result-cases (encode_outer m p s)) [
              | inr (why, failed) ↦ absurd (ground arith)
              | inl (b, outer) ↦ ground (arith, bytes_eq_iff q p, bytes_eq_iff b bytes)
            ]
          ]

    signed_frame :
        (frame : Bytes) × (signing_frame p ≡ ok frame)
        × (Ed25519.verify_strict ed c.identity_public_key frame s ≡ true)
    unfolding verify_repository_signer_binding
    signed_frame =
        let h' = rw (verify_repository_signer_binding, read, claimed) at h in
        elim (Result-cases (signing_frame p)) [
          | inr (why, failed) ↦ absurd (ground (arith, rewritten))
          | inl (frame, framed) ↦ (frame, framed, ground (arith, rewritten))
        ]

    reported : v ≡ record {
      identity_id = c.identity_id;
      identity_public_key = c.identity_public_key;
      repository_public_key = c.repository_public_key;
      epoch = c.epoch;
      digest = sha256 (digest_domain ++ bytes);
    }
    unfolding verify_repository_signer_binding
    reported =
        let h' = rw (verify_repository_signer_binding, read, claimed) at h in
        ground (arith, rewritten, signed_frame)

  -- Verification succeeds only on at most 384 bytes that are the canonical encoding of protected
  -- claims and a signature, where the claims are canonically encoded too, both keys are valid, the
  -- identity id is that of the identity key, and that key's signature over the frame of the claims
  -- verifies strictly. It reports those claims, and the digest of the bytes.
  pub verify-IsVerified :
      (bytes : Bytes) (v : VerifiedRepositorySignerBinding)
      → verify_repository_signer_binding m ed sha256 bytes ≡ ok v
      → IsVerified bytes v
  verify-IsVerified bytes v h =
      let (parts, read) = parts_of bytes v h in
      let (c, claimed) = claims_of bytes v parts read h in
      let p : Bytes = parts.0 in
      let s : Bytes = parts.1 in
      let (bounded, identity_key, repository_key, matches) = checked bytes v p s c read claimed h in
      let (protected, outer) = rewritten bytes v p s c read claimed h in
      let (frame, framed, signed) = signed_frame bytes v p s c read claimed h in
      rw (reported bytes v p s c read claimed h) (record {
        protected = p;
        sig = s;
        frame = frame;
        bounded = bounded;
        read = read;
        claims_written = protected;
        binding_written = outer;
        framed = framed;
        signed = signed;
        identity_bound = matches_public_key-eq c.identity_id c.identity_public_key matches;
        identity_key_valid = identity_key;
        repository_key_valid = repository_key;
        digested = refl;
      })

  -- A verified digest names one binding: two verified byte strings with one digest are equal, or
  -- show a collision of SHA-256.
  pub verify_digest-binding :
      (bytes bytes' : Bytes) (v v' : VerifiedRepositorySignerBinding)
      → verify_repository_signer_binding m ed sha256 bytes ≡ ok v
      → verify_repository_signer_binding m ed sha256 bytes' ≡ ok v'
      → v.digest ≡ v'.digest
      → (bytes ≡ bytes') ⊎ Collision sha256
  verify_digest-binding bytes bytes' v v' h h' e =
      let a = (verify-IsVerified bytes v h).digested in
      let a' = (verify-IsVerified bytes' v' h').digested in
      elim (eq_or_Collision sha256 _ _ (sym a ∙ e ∙ a')) [
        | inl same ↦ inl (append_inj digest_domain digest_domain refl same).1
        | inr collision ↦ inr collision
      ]
