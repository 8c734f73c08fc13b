-- ===== src/Pki/Issue/Windows.antt =====
-- src/pki.rs: when the certificates of a chain are valid, and what they may be used for.
use styrene_identity.Prelude.{
  ℤ, leb_ℤ, ltb_ℤ, ◌≡◌, refl, sym, ap, ◌∙◌, inl, inr, Bool, true, false, not, Option-cases, some,
  ok, >>=-eq-ok, >>-eq-ok, reject-eq-ok, ok-injective, List, Bytes, map_err, map_err-eq-ok, arith,
}
use styrene_identity.External.Ed25519.{Ed25519}
use styrene_identity.External.Hex.{Hex}
use styrene_identity.Derive.{Hkdf}
use styrene_identity.Pki.{CertificateRole}
use styrene_identity.Pki.Profile.{
  StyreneCertificateProfile, certificate, validate_label, validate_profile,
}
use styrene_identity.Pki.Names.{NameText, normalize_subject_alt_names}
use styrene_identity.Pki.Params.{
  Rcgen, CertificateParams, explicit_no_ca, ca_constrained, ca_params, leaf_params,
  extended_key_usage, new_years_day,
}
use styrene_identity.Pki.Issue.{
  StyreneCertificateChain, derive_leaf_certificate_chain, material_from_cert,
}
use styrene_identity.Pki.Issue.Anchor.{chain-LeafStages}

-- The years of a profile: both windows begin before they end, and the leaf's lies in the CA's.
pub record IsNested (p : StyreneCertificateProfile) : Type 0 where
  pub ca_window : leb_ℤ p.ca_not_after_year p.ca_not_before_year ≡ false
  pub leaf_window : leb_ℤ p.leaf_not_after_year p.leaf_not_before_year ≡ false
  pub starts_within : leb_ℤ p.ca_not_before_year p.leaf_not_before_year ≡ true
  pub ends_within : leb_ℤ p.leaf_not_after_year p.ca_not_after_year ≡ true

not-false : (b : Bool) → not b ≡ false → b ≡ true
not-false true h = refl
not-false false h = cc

validate_profile-IsNested :
    {Error : Type 0} (p : StyreneCertificateProfile)
    → validate_profile {Error = Error} p ≡ ok tt
    → IsNested p
unfolding validate_profile
validate_profile-IsNested {Error} p h =
    let (_, h1) = >>-eq-ok (validate_label {Error = Error} p.profile) _ h in
    let (_, h2) = >>-eq-ok (validate_label {Error = Error} p.ca_epoch) _ h1 in
    let (_, h3) = >>-eq-ok (validate_label {Error = Error} p.leaf_epoch) _ h2 in
    let (a, h4) = reject-eq-ok (leb_ℤ p.ca_not_after_year p.ca_not_before_year) _ _ h3 in
    let (b, h5) = reject-eq-ok (leb_ℤ p.leaf_not_after_year p.leaf_not_before_year) _ _ h4 in
    let (c, h6) = reject-eq-ok (ltb_ℤ p.leaf_not_before_year p.ca_not_before_year) _ _ h5 in
    let (d, _) = reject-eq-ok (ltb_ℤ p.ca_not_after_year p.leaf_not_after_year) _ _ h6 in
    record {
      ca_window = a;
      leaf_window = b;
      starts_within = not-false _ c;
      ends_within = not-false _ d;
    }

module _ {Error Date KeyPair Certificate : Type 0} (rcgen : Rcgen Error Date KeyPair Certificate)
    (sha256 : Bytes → Bytes) (text : NameText Error) where
  new_years_day-eq-ok :
      (year : ℤ) {d : Date}
      → new_years_day rcgen year ≡ ok d
      → rcgen.date_time_ymd year 1 1 ≡ some d
  unfolding new_years_day
  new_years_day-eq-ok year h = elim (Option-cases (rcgen.date_time_ymd year 1 1)) [
    | inl none_such ↦ absurd (let h' = rw none_such at h in ground arith)
    | inr (d, e) ↦ e ∙ ap some (ok-injective (rw e at h))
  ]

  ca_params-window :
      (hash scope uri : Bytes) (p : StyreneCertificateProfile) {made : CertificateParams Date}
      → ca_params rcgen text sha256 hash scope uri p ≡ ok made
      → (rcgen.date_time_ymd p.ca_not_before_year 1 1 ≡ some made.not_before)
        × (rcgen.date_time_ymd p.ca_not_after_year 1 1 ≡ some made.not_after)
        × (made.is_ca ≡ ca_constrained 0)
  unfolding ca_params
  ca_params-window hash scope uri p h =
      let (params, _, h1) = >>=-eq-ok (map_err certificate rcgen.new_params) _ h in
      let (before, b, h2) = >>=-eq-ok (new_years_day rcgen p.ca_not_before_year) _ h1 in
      let (after, a, h3) = >>=-eq-ok (new_years_day rcgen p.ca_not_after_year) _ h2 in
      let (uri_name, _, h4) = >>=-eq-ok (map_err certificate (text.to_ia5 uri)) _ h3 in
      let made = ok-injective h4 in
      (
        new_years_day-eq-ok p.ca_not_before_year b
            ∙ ap (λ (c : CertificateParams Date). some c.not_before) made,
        new_years_day-eq-ok p.ca_not_after_year a
            ∙ ap (λ (c : CertificateParams Date). some c.not_after) made,
        sym (ap CertificateParams.is_ca made),
      )

  leaf_params-window :
      (hash : Bytes) (role : CertificateRole) (label uri : Bytes) (names : List Bytes)
      (p : StyreneCertificateProfile) {made : CertificateParams Date}
      → leaf_params rcgen text sha256 hash role label uri names p ≡ ok made
      → (rcgen.date_time_ymd p.leaf_not_before_year 1 1 ≡ some made.not_before)
        × (rcgen.date_time_ymd p.leaf_not_after_year 1 1 ≡ some made.not_after)
        × (made.is_ca ≡ explicit_no_ca)
  unfolding leaf_params
  leaf_params-window hash role label uri names p h =
      let (_, h1) = >>-eq-ok (validate_label label) _ h in
      let (normal, _, h2) = >>=-eq-ok (normalize_subject_alt_names text names) _ h1 in
      let (params, _, h3) = >>=-eq-ok (map_err certificate rcgen.new_params) _ h2 in
      let (before, b, h4) = >>=-eq-ok (new_years_day rcgen p.leaf_not_before_year) _ h3 in
      let (after, a, h5) = >>=-eq-ok (new_years_day rcgen p.leaf_not_after_year) _ h4 in
      let (uri_name, _, h6) = >>=-eq-ok (map_err certificate (text.to_ia5 uri)) _ h5 in
      let (usage, _, h7) = >>=-eq-ok (extended_key_usage role) _ h6 in
      let made = ok-injective h7 in
      (
        new_years_day-eq-ok p.leaf_not_before_year b
            ∙ ap (λ (c : CertificateParams Date). some c.not_before) made,
        new_years_day-eq-ok p.leaf_not_after_year a
            ∙ ap (λ (c : CertificateParams Date). some c.not_after) made,
        sym (ap CertificateParams.is_ca made),
      )

  -- A leaf that was signed by a CA, each valid from one new year's day of the profile to another,
  -- the leaf's window inside the CA's; the leaf is no CA, and the CA signs no further CA.
  pub record IsIssuedWithin (p : StyreneCertificateProfile) (chain : StyreneCertificateChain)
      : Type 0 where
    pub issuer : CertificateParams Date
    pub subject : CertificateParams Date
    pub issuer_key : KeyPair
    pub subject_key : KeyPair
    pub cert : Certificate
    pub signed : rcgen.signed_by subject subject_key (issuer, issuer_key) ≡ ok cert
    pub shipped : chain.leaf.cert_der ≡ rcgen.certificate_der cert
    pub issuer_from : rcgen.date_time_ymd p.ca_not_before_year 1 1 ≡ some issuer.not_before
    pub issuer_to : rcgen.date_time_ymd p.ca_not_after_year 1 1 ≡ some issuer.not_after
    pub subject_from : rcgen.date_time_ymd p.leaf_not_before_year 1 1 ≡ some subject.not_before
    pub subject_to : rcgen.date_time_ymd p.leaf_not_after_year 1 1 ≡ some subject.not_after
    pub issuer_is_ca : issuer.is_ca ≡ ca_constrained 0
    pub subject_is_leaf : subject.is_ca ≡ explicit_no_ca
    pub nested : IsNested p

  module _ (hex : Hex) (hkdf : Hkdf) (ed : Ed25519) (root ca_scope : Bytes)
      (profile : StyreneCertificateProfile) (role : CertificateRole) (label : Bytes)
      (names : List Bytes) where
    -- The leaf certificate of a derived chain was signed by a CA, each valid from one new year's
    -- day of the profile to another, the leaf's window inside the CA's; the leaf is no CA, and the
    -- CA signs no further CA.
    pub chain-IsIssuedWithin :
        {chain : StyreneCertificateChain}
        → derive_leaf_certificate_chain sha256 hex rcgen text hkdf ed root ca_scope role label names
            profile
          ≡ ok chain
        → IsIssuedWithin profile chain
    unfolding material_from_cert
    chain-IsIssuedWithin h =
        let (s, l, e) =
          chain-LeafStages rcgen sha256 hex text hkdf ed root ca_scope profile role label names h in
        let (ca_from, ca_to, constrained) = ca_params-window _ ca_scope _ profile s.params_ok in
        let (leaf_from, leaf_to, no_ca) =
          leaf_params-window _ role label l.uri names profile l.leaf_params_ok in
        record {
          issuer = s.params;
          subject = l.leaf_params_of;
          issuer_key = s.key;
          subject_key = l.leaf_key;
          cert = l.leaf_cert;
          signed = map_err-eq-ok certificate _ l.leaf_cert_ok;
          shipped = ap (λ (c : StyreneCertificateChain). c.leaf.cert_der) e;
          issuer_from = ca_from;
          issuer_to = ca_to;
          subject_from = leaf_from;
          subject_to = leaf_to;
          issuer_is_ca = constrained;
          subject_is_leaf = no_ca;
          nested = validate_profile-IsNested profile s.profile_ok;
        }
