-- ===== src/Pki/Issue/Anchor.antt =====
-- src/pki.rs: the trust anchor of a chain is the CA certificate of its scope and profile.
use styrene_identity.Prelude.{
  ok, map_err, >>=-eq-ok, >>-eq-ok, ok-injective, List, ◌≡◌, refl, sym, ap, Bytes,
}
use styrene_identity.External.Ed25519.{Ed25519}
use styrene_identity.External.Hex.{Hex}
use styrene_identity.Derive.{Hkdf}
use styrene_identity.Identity
use styrene_identity.Pki.{CertificateRole, ca, styrene_ca_uri}
use styrene_identity.Pki.Profile.{
  StyreneCertificateProfile, StyrenePkiError, certificate, validate_label, validate_profile,
}
use styrene_identity.Pki.Names.{NameText}
use styrene_identity.Pki.Params.{
  Rcgen, CertificateParams, key_pair_from_derived_seed, ca_params, leaf_params,
}
use styrene_identity.Pki.Issue.{
  StyreneCertificate, StyreneCertificateChain, ca_seed_label, leaf_seed_label, leaf_uri,
  material_from_cert, derive_ca_certificate_with_profile, derive_leaf_certificate_chain,
}

module _ {Error Date KeyPair Certificate : Type 0} (rcgen : Rcgen Error Date KeyPair Certificate)
    (sha256 : Bytes → Bytes) (hex : Hex) (text : NameText Error) (hkdf : Hkdf) (ed : Ed25519)
    (root ca_scope : Bytes) (profile : StyreneCertificateProfile) where
  abbrev hash : Bytes
  hash = Identity.identity_hash sha256 hex hkdf ed root

  -- The CA's part of the work.
  pub record CaStages : Type 0 where
    pub scope_ok : validate_label {Error = Error} ca_scope ≡ ok tt
    pub profile_ok : validate_profile {Error = Error} profile ≡ ok tt
    pub key : KeyPair
    pub key_ok :
        key_pair_from_derived_seed rcgen hkdf root (ca_seed_label ca_scope profile) ≡ ok key
    pub params : CertificateParams Date
    pub params_ok :
        ca_params rcgen text sha256 hash ca_scope (styrene_ca_uri hash ca_scope) profile ≡ ok params
    pub cert : Certificate
    pub cert_ok :
        map_err {F = StyrenePkiError Error} certificate (Rcgen.self_signed rcgen params key)
        ≡ ok cert

  abbrev pub ca_material : CaStages → StyreneCertificate
  ca_material s =
      material_from_cert sha256 hex rcgen ca hash ca_scope profile.profile profile.ca_epoch
        (styrene_ca_uri hash ca_scope) s.cert s.key

  pub CaStages-ca :
      (s : CaStages)
      → derive_ca_certificate_with_profile sha256 hex rcgen text hkdf ed root ca_scope profile
        ≡ ok (ca_material s)
  unfolding derive_ca_certificate_with_profile
  CaStages-ca s = rw (s.scope_ok, s.profile_ok, s.key_ok, s.params_ok, s.cert_ok) refl

  pub ca-CaStages :
      {made : StyreneCertificate}
      → derive_ca_certificate_with_profile sha256 hex rcgen text hkdf ed root ca_scope profile
        ≡ ok made
      → (s : CaStages) × (made ≡ ca_material s)
  unfolding derive_ca_certificate_with_profile
  ca-CaStages h =
      let (scope_ok, h1) = >>-eq-ok (validate_label ca_scope) _ h in
      let (profile_ok, h2) = >>-eq-ok (validate_profile profile) _ h1 in
      let (key, key_ok, h3) =
        >>=-eq-ok (key_pair_from_derived_seed rcgen hkdf root (ca_seed_label ca_scope profile)) _
          h2 in
      let (params, params_ok, h4) =
        >>=-eq-ok (ca_params rcgen text sha256 hash ca_scope (styrene_ca_uri hash ca_scope) profile)
          _ h3 in
      let (cert, cert_ok, h5) =
        >>=-eq-ok
          (map_err {F = StyrenePkiError Error} certificate (Rcgen.self_signed rcgen params key)) _
          h4 in
      (
        record {
          scope_ok = scope_ok;
          profile_ok = profile_ok;
          key = key;
          key_ok = key_ok;
          params = params;
          params_ok = params_ok;
          cert = cert;
          cert_ok = cert_ok;
        },
        sym (ok-injective h5),
      )

  module _ (role : CertificateRole) (label : Bytes) (names : List Bytes) where
    -- The leaf's part, behind the CA's.
    pub record LeafStages (s : CaStages) : Type 0 where
      pub label_ok : validate_label {Error = Error} label ≡ ok tt
      pub seed : Bytes
      pub seed_ok : leaf_seed_label {Error = Error} role ca_scope label profile ≡ ok seed
      pub uri : Bytes
      pub uri_ok : leaf_uri {Error = Error} role hash label ≡ ok uri
      pub leaf_key : KeyPair
      pub leaf_key_ok : key_pair_from_derived_seed rcgen hkdf root seed ≡ ok leaf_key
      pub leaf_params_of : CertificateParams Date
      pub leaf_params_ok :
          leaf_params rcgen text sha256 hash role label uri names profile ≡ ok leaf_params_of
      pub leaf_cert : Certificate
      pub leaf_cert_ok :
          map_err {F = StyrenePkiError Error} certificate
            (Rcgen.signed_by rcgen leaf_params_of leaf_key (s.params, s.key))
          ≡ ok leaf_cert

    abbrev chain_of : (s : CaStages) → LeafStages s → StyreneCertificateChain
    chain_of s l = record {
      profile = profile;
      ca_cert_pem = (ca_material s).cert_pem;
      ca_cert_der = (ca_material s).cert_der;
      ca_fingerprint_sha256 = (ca_material s).fingerprint_sha256;
      leaf =
          material_from_cert sha256 hex rcgen role hash label profile.profile profile.leaf_epoch
            l.uri l.leaf_cert l.leaf_key;
    }

    pub chain-LeafStages :
        {chain : StyreneCertificateChain}
        → derive_leaf_certificate_chain sha256 hex rcgen text hkdf ed root ca_scope role label names
            profile
          ≡ ok chain
        → (s : CaStages) × (l : LeafStages s) × (chain ≡ chain_of s l)
    unfolding derive_leaf_certificate_chain material_from_cert
    chain-LeafStages h =
        let (scope_ok, h1) = >>-eq-ok (validate_label ca_scope) _ h in
        let (label_ok, h2) = >>-eq-ok (validate_label label) _ h1 in
        let (profile_ok, h3) = >>-eq-ok (validate_profile profile) _ h2 in
        let (key, key_ok, h4) =
          >>=-eq-ok (key_pair_from_derived_seed rcgen hkdf root (ca_seed_label ca_scope profile)) _
            h3 in
        let (params, params_ok, h5) =
          >>=-eq-ok
            (ca_params rcgen text sha256 hash ca_scope (styrene_ca_uri hash ca_scope) profile) _
            h4 in
        let (cert, cert_ok, h6) =
          >>=-eq-ok
            (map_err {F = StyrenePkiError Error} certificate (Rcgen.self_signed rcgen params key)) _
            h5 in
        let (seed, seed_ok, h7) = >>=-eq-ok (leaf_seed_label role ca_scope label profile) _ h6 in
        let (uri, uri_ok, h8) = >>=-eq-ok (leaf_uri role hash label) _ h7 in
        let (leaf_key, leaf_key_ok, h9) =
          >>=-eq-ok (key_pair_from_derived_seed rcgen hkdf root seed) _ h8 in
        let (made, made_ok, h10) =
          >>=-eq-ok (leaf_params rcgen text sha256 hash role label uri names profile) _ h9 in
        let (leaf_cert, leaf_cert_ok, h11) =
          >>=-eq-ok
            (map_err {F = StyrenePkiError Error} certificate
              (Rcgen.signed_by rcgen made leaf_key (params, key)))
            _ h10 in
        let s : CaStages = record {
          scope_ok = scope_ok;
          profile_ok = profile_ok;
          key = key;
          key_ok = key_ok;
          params = params;
          params_ok = params_ok;
          cert = cert;
          cert_ok = cert_ok;
        } in
        (
          s,
          record {
            label_ok = label_ok;
            seed = seed;
            seed_ok = seed_ok;
            uri = uri;
            uri_ok = uri_ok;
            leaf_key = leaf_key;
            leaf_key_ok = leaf_key_ok;
            leaf_params_of = made;
            leaf_params_ok = made_ok;
            leaf_cert = leaf_cert;
            leaf_cert_ok = leaf_cert_ok;
          },
          sym (ok-injective h11),
        )

    -- Where a chain is derived, the CA certificate of its scope and profile can be derived by
    -- itself, and it is the chain's trust anchor: its PEM, its DER and its fingerprint. So the
    -- chains of one root, scope and profile share their trust anchor, whatever their role, label
    -- and names.
    pub chain-derive_ca :
        {chain : StyreneCertificateChain}
        → derive_leaf_certificate_chain sha256 hex rcgen text hkdf ed root ca_scope role label names
            profile
          ≡ ok chain
        → (anchor : StyreneCertificate) × (derive_ca_certificate_with_profile sha256 hex rcgen text
              hkdf ed root ca_scope profile
            ≡ ok anchor)
          × (chain.ca_cert_pem ≡ anchor.cert_pem)
          × (chain.ca_cert_der ≡ anchor.cert_der)
          × (chain.ca_fingerprint_sha256 ≡ anchor.fingerprint_sha256)
    chain-derive_ca h =
        let (s, l, e) = chain-LeafStages h in
        (
          ca_material s,
          CaStages-ca s,
          ap StyreneCertificateChain.ca_cert_pem e,
          ap StyreneCertificateChain.ca_cert_der e,
          ap StyreneCertificateChain.ca_fingerprint_sha256 e,
        )
