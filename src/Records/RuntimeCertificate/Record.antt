-- ===== src/Records/RuntimeCertificate/Record.antt =====
-- Signing inputs and encoded records of src/records/runtime_certificate.rs.
use Prim.Native.String.{String}
use styrene_identity.Prelude.{
  ◌≤◌, ◌≡◌, sym, ◌∙◌, ◌⊎◌, inl, inr, Option, Result, ok, >>=-eq-ok, ok-injective, length, Bytes,
  IsReadBack, Collision, eq_or_Collision, arith,
}
use styrene_identity.Records.{EncodeRsa, runtime_certificate_domain, signing_frame}
use styrene_identity.Records.Frame.{signing_frame-injective}
use styrene_identity.Records.RuntimeCertificate.{
  RuntimeCertificateClaims, validate, protected_bytes, signing_input, RuntimeCertificate,
  encode_certificate, digest,
}
use styrene_identity.Records.RuntimeCertificate.Claims.{IsValidClaims, validate-IsValidClaims}

module _ (to_vec : EncodeRsa) (sha256 : Bytes → Bytes)
    (claims_to_vec : RuntimeCertificateClaims → Result String Bytes) where
  pub protected_bytes-eq-ok :
      (c : RuntimeCertificateClaims) {bytes : Bytes}
      → protected_bytes to_vec sha256 claims_to_vec c ≡ ok bytes
      → (validate to_vec sha256 c ≡ ok tt) × (claims_to_vec c ≡ ok bytes)
  unfolding protected_bytes
  protected_bytes-eq-ok c h = ground arith

  pub signing_input-eq-ok :
      (c : RuntimeCertificateClaims) {frame : Bytes}
      → signing_input to_vec sha256 claims_to_vec c ≡ ok frame
      → (protected : Bytes) × (protected_bytes to_vec sha256 claims_to_vec c ≡ ok protected)
        × (signing_frame runtime_certificate_domain protected ≡ ok frame)
  unfolding signing_input
  signing_input-eq-ok c h =
      >>=-eq-ok (protected_bytes to_vec sha256 claims_to_vec c)
        (signing_frame runtime_certificate_domain) h

  -- What is signed determines the claims, and only valid claims are signed: two claims with one
  -- signing input are the same claims.
  pub signing_input-binding :
      (decode : Bytes → Option RuntimeCertificateClaims)
      → IsReadBack claims_to_vec decode
      → (c c' : RuntimeCertificateClaims) (frame : Bytes)
      → signing_input to_vec sha256 claims_to_vec c ≡ ok frame
      → signing_input to_vec sha256 claims_to_vec c' ≡ ok frame
      → (c ≡ c') × IsValidClaims to_vec sha256 c
  signing_input-binding decode law c c' frame h h' =
      let (p, hp, e) = signing_input-eq-ok c h in
      let (p', hp', e') = signing_input-eq-ok c' h' in
      let same = (signing_frame-injective _ _ p p' e e').1 in
      let (valid, written) = protected_bytes-eq-ok c hp in
      let (_, written') = protected_bytes-eq-ok c' hp' in
      (
        ground (arith, law c p written, law c' p' written'),
        (validate-IsValidClaims to_vec sha256 c).0 valid,
      )

module _ (record_to_vec : RuntimeCertificate → Result String Bytes) where
  encode_certificate-eq-ok :
      (r : RuntimeCertificate) {bytes : Bytes}
      → encode_certificate record_to_vec r ≡ ok bytes
      → (record_to_vec r ≡ ok bytes) × (length bytes ≤ 16_384)
  unfolding encode_certificate
  encode_certificate-eq-ok r h = ground arith

  -- Where the encoding of records can be read back, a digest binds the whole record, signature
  -- included: two records with one digest are equal, or show a collision of SHA-256.
  pub digest-binding :
      (decode : Bytes → Option RuntimeCertificate)
      → IsReadBack record_to_vec decode
      → (sha256 : Bytes → Bytes) (r r' : RuntimeCertificate) (d : Bytes)
      → digest record_to_vec sha256 r ≡ ok d
      → digest record_to_vec sha256 r' ≡ ok d
      → (r ≡ r') ⊎ Collision sha256
  unfolding digest
  digest-binding decode law sha256 r r' d h h' =
      let (b, hb, e) = >>=-eq-ok (encode_certificate record_to_vec r) (λ b. ok (sha256 b)) h in
      let (b', hb', e') = >>=-eq-ok (encode_certificate record_to_vec r') (λ b. ok (sha256 b)) h' in
      let written = (encode_certificate-eq-ok r hb).0 in
      let written' = (encode_certificate-eq-ok r' hb').0 in
      elim (eq_or_Collision sha256 b b' (ok-injective e ∙ sym (ok-injective e'))) [
        | inl same ↦ inl (ground (arith, law r b written, law r' b' written'))
        | inr collision ↦ inr collision
      ]
