-- ===== src/Records/LifecycleTransition/Record.antt =====
-- Signing inputs and encoded records of src/records/lifecycle_transition.rs.
use Prim.Native.String.{String}
use styrene_identity.Prelude.{
  ◌≤◌, ◌≡◌, ◌≢◌, sym, ◌∙◌, ◌⊎◌, inl, inr, Option, Result, ok, >>=-eq-ok, ok-injective, length,
  Bytes, IsReadBack, Collision, eq_or_Collision, arith,
}
use styrene_identity.Records.{EncodeRsa, lifecycle_transition_domain, signing_frame}
use styrene_identity.Records.RuntimeCertificate
use styrene_identity.Records.RuntimeCertificate.{RuntimeCertificateClaims}
use styrene_identity.Records.Frame.{signing_frame-injective}
use styrene_identity.Records.LifecycleTransition.{
  LifecycleTransitionClaims, validate, protected_bytes, signing_input, LifecycleTransition,
  encode_transition, digest,
}
use styrene_identity.Records.LifecycleTransition.Claims.{IsValidClaims, validate-IsValidTransition}

module _ (claims_to_vec : LifecycleTransitionClaims → Result String Bytes) where
  pub protected_bytes-eq-ok :
      (c : LifecycleTransitionClaims) {bytes : Bytes}
      → protected_bytes claims_to_vec c ≡ ok bytes
      → (validate c ≡ ok tt) × (claims_to_vec c ≡ ok bytes)
  unfolding protected_bytes
  protected_bytes-eq-ok c h = ground arith

  pub signing_input-eq-ok :
      (c : LifecycleTransitionClaims) {frame : Bytes}
      → signing_input claims_to_vec c ≡ ok frame
      → (protected : Bytes) × (protected_bytes claims_to_vec c ≡ ok protected)
        × (signing_frame lifecycle_transition_domain protected ≡ ok frame)
  unfolding signing_input
  signing_input-eq-ok c h =
      >>=-eq-ok (protected_bytes claims_to_vec c) (signing_frame lifecycle_transition_domain) h

  -- What is signed determines the claims, and only valid claims are signed: two claims with one
  -- signing input are the same claims.
  pub signing_input-injective :
      (decode : Bytes → Option LifecycleTransitionClaims)
      → IsReadBack claims_to_vec decode
      → (c c' : LifecycleTransitionClaims) (frame : Bytes)
      → signing_input claims_to_vec c ≡ ok frame
      → signing_input claims_to_vec c' ≡ ok frame
      → (c ≡ c') × IsValidClaims c
  signing_input-injective decode law c c' frame h h' =
      let (p, hp, e) = signing_input-eq-ok c h in
      let (p', hp', e') = signing_input-eq-ok c' h' in
      let same = (signing_frame-injective _ _ p p' e e').1 in
      let (valid, written) = protected_bytes-eq-ok c hp in
      let (_, written') = protected_bytes-eq-ok c' hp' in
      (ground (arith, law c p written, law c' p' written'), (validate-IsValidTransition c).0 valid)

module _ (record_to_vec : LifecycleTransition → Result String Bytes) where
  encode_transition-eq-ok :
      (r : LifecycleTransition) {bytes : Bytes}
      → encode_transition record_to_vec r ≡ ok bytes
      → (record_to_vec r ≡ ok bytes) × (length bytes ≤ 65_535)
  unfolding encode_transition
  encode_transition-eq-ok r h = ground arith

  -- Where the encoding of records can be read back, a digest binds the whole record, signature
  -- included: two records with one digest are equal, or show a collision of SHA-256.
  pub digest-injective :
      (decode : Bytes → Option LifecycleTransition)
      → IsReadBack record_to_vec decode
      → (sha256 : Bytes → Bytes) (r r' : LifecycleTransition) (d : Bytes)
      → digest record_to_vec sha256 r ≡ ok d
      → digest record_to_vec sha256 r' ≡ ok d
      → (r ≡ r') ⊎ Collision sha256
  unfolding digest
  digest-injective decode law sha256 r r' d h h' =
      let (b, hb, e) = >>=-eq-ok (encode_transition record_to_vec r) (λ b. ok (sha256 b)) h in
      let (b', hb', e') = >>=-eq-ok (encode_transition record_to_vec r') (λ b. ok (sha256 b)) h' in
      let written = (encode_transition-eq-ok r hb).0 in
      let written' = (encode_transition-eq-ok r' hb').0 in
      elim (eq_or_Collision sha256 b b' (ok-injective e ∙ sym (ok-injective e'))) [
        | inl same ↦ inl (ground (arith, law r b written, law r' b' written'))
        | inr collision ↦ inr collision
      ]

-- No runtime certificate and no lifecycle transition have one signing input.
pub signing_input-separation :
    (to_vec : EncodeRsa) (sha256 : Bytes → Bytes)
    (certificate_to_vec : RuntimeCertificateClaims → Result String Bytes)
    (transition_to_vec : LifecycleTransitionClaims → Result String Bytes)
    (c : RuntimeCertificateClaims) (t : LifecycleTransitionClaims) (frame : Bytes)
    → RuntimeCertificate.signing_input to_vec sha256 certificate_to_vec c ≡ ok frame
    → signing_input transition_to_vec t ≢ ok frame
signing_input-separation to_vec sha256 certificate_to_vec transition_to_vec c t frame h h' =
    let (p, _, e) =
      RuntimeCertificate.Record.signing_input-eq-ok to_vec sha256 certificate_to_vec c h in
    let (p', _, e') = signing_input-eq-ok transition_to_vec t h' in
    absurd (ground (arith, (signing_frame-injective _ _ p p' e e').0))
