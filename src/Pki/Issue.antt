-- ===== src/Pki/Issue.antt =====
-- src/pki.rs: deriving CA certificates, and the chains of server and client certificates.
pub mod Anchor
pub mod Keys
pub mod Windows
use styrene_identity.Prelude.{
  Result, ok, err, ◌>>=◌, ◌>>◌, map_err, List, [], ◌∷◌, ◌++◌, ◌≡◌, Bytes, codes,
}
use styrene_identity.External.Ed25519.{Ed25519}
use styrene_identity.External.Hex.{Hex}
use styrene_identity.Derive.{Hkdf}
use styrene_identity.Identity
use styrene_identity.Pki.{
  CertificateRole, ca, server, client, tls_seed_label, styrene_agent_uri, styrene_client_uri,
  styrene_ca_uri,
}
use styrene_identity.Pki.Profile.{
  StyreneCertificateProfile, default_profile, StyrenePkiError, pki_empty_label, panicked,
  certificate, validate_label, validate_profile,
}
use styrene_identity.Pki.Names.{NameText}
use styrene_identity.Pki.Params.{Rcgen, key_pair_from_derived_seed, ca_params, leaf_params}

pub record StyreneCertificate : Type 0 where
  pub role : CertificateRole
  pub identity_hash : Bytes
  pub label : Bytes
  pub profile : Bytes
  pub epoch : Bytes
  pub uri_san : Bytes
  pub cert_pem : Bytes
  pub cert_der : Bytes
  pub private_key_pem : Bytes
  pub private_key_der : Bytes
  pub fingerprint_sha256 : Bytes

pub record StyreneCertificateChain : Type 0 where
  pub profile : StyreneCertificateProfile
  pub ca_cert_pem : Bytes
  pub ca_cert_der : Bytes
  pub ca_fingerprint_sha256 : Bytes
  pub leaf : StyreneCertificate

unfoldable pub cert_chain_pem : StyreneCertificateChain → Bytes
cert_chain_pem self = self.leaf.cert_pem ++ self.ca_cert_pem

unfoldable pub ca_bundle_pem : StyreneCertificateChain → Bytes
ca_bundle_pem self = self.ca_cert_pem

-- The label of the CA's key, and those of the leaves' keys.
unfoldable pub ca_seed_label : Bytes → StyreneCertificateProfile → Bytes
ca_seed_label ca_scope profile =
    tls_seed_label (codes "ca") (profile.profile ∷ ca_scope ∷ profile.ca_epoch ∷ [])

unfoldable pub leaf_seed_label :
    {Error : Type 0}
    → CertificateRole
    → Bytes
    → Bytes
    → StyreneCertificateProfile
    → Result (StyrenePkiError Error) Bytes
leaf_seed_label server ca_scope label profile =
    ok (
      tls_seed_label (codes "server")
        (profile.profile ∷ ca_scope ∷ label ∷ profile.leaf_epoch ∷ []))
leaf_seed_label client ca_scope label profile =
    ok (
      tls_seed_label (codes "client")
        (profile.profile ∷ ca_scope ∷ label ∷ profile.leaf_epoch ∷ []))
leaf_seed_label ca ca_scope label profile = err pki_empty_label

unfoldable pub leaf_uri :
    {Error : Type 0} → CertificateRole → Bytes → Bytes → Result (StyrenePkiError Error) Bytes
leaf_uri server identity_hash label = ok (styrene_agent_uri identity_hash label)
leaf_uri client identity_hash label = ok (styrene_client_uri identity_hash label)
leaf_uri ca identity_hash label = err panicked

module _ (sha256 : Bytes → Bytes) (hex : Hex) where
  unfoldable pub fingerprint_sha256 : Bytes → Bytes
  fingerprint_sha256 der = Hex.encode hex (sha256 der)

  module _ {Error Date KeyPair Certificate : Type 0}
      (rcgen : Rcgen Error Date KeyPair Certificate) where
    -- `material_from_cert`, with the `material_from_raw` that it calls.
    unfoldable pub material_from_cert :
        CertificateRole
        → Bytes
        → Bytes
        → Bytes
        → Bytes
        → Bytes
        → Certificate
        → KeyPair
        → StyreneCertificate
    material_from_cert role identity_hash label profile epoch uri_san cert key_pair =
        let cert_der = Rcgen.certificate_der rcgen cert in
        record {
          role = role;
          identity_hash = identity_hash;
          label = label;
          profile = profile;
          epoch = epoch;
          uri_san = uri_san;
          cert_pem = Rcgen.certificate_pem rcgen cert;
          cert_der = cert_der;
          private_key_pem = Rcgen.serialize_pem rcgen key_pair;
          private_key_der = Rcgen.serialize_der rcgen key_pair;
          fingerprint_sha256 = fingerprint_sha256 cert_der;
        }

    module _ (text : NameText Error) (hkdf : Hkdf) (ed : Ed25519) where
      unfoldable pub derive_ca_certificate_with_profile :
          Bytes
          → Bytes
          → StyreneCertificateProfile
          → Result (StyrenePkiError Error) StyreneCertificate
      derive_ca_certificate_with_profile root ca_scope profile = do
        validate_label ca_scope
        validate_profile profile
        let identity_hash = Identity.identity_hash sha256 hex hkdf ed root
        let uri = styrene_ca_uri identity_hash ca_scope
        key_pair ← key_pair_from_derived_seed rcgen hkdf root (ca_seed_label ca_scope profile)
        params ← ca_params rcgen text sha256 identity_hash ca_scope uri profile
        cert ← map_err certificate (Rcgen.self_signed rcgen params key_pair)
        ok (
            material_from_cert ca identity_hash ca_scope profile.profile profile.ca_epoch uri cert
              key_pair)

      unfoldable pub derive_ca_certificate :
          Bytes → Bytes → Result (StyrenePkiError Error) StyreneCertificate
      derive_ca_certificate root ca_scope =
          derive_ca_certificate_with_profile root ca_scope default_profile

      unfoldable pub derive_leaf_certificate_chain :
          Bytes
          → Bytes
          → CertificateRole
          → Bytes
          → List Bytes
          → StyreneCertificateProfile
          → Result (StyrenePkiError Error) StyreneCertificateChain
      derive_leaf_certificate_chain root ca_scope role label subject_alt_names profile = do
        validate_label ca_scope
        validate_label label
        validate_profile profile
        let identity_hash = Identity.identity_hash sha256 hex hkdf ed root
        let ca_uri = styrene_ca_uri identity_hash ca_scope
        ca_key_pair ← key_pair_from_derived_seed rcgen hkdf root (ca_seed_label ca_scope profile)
        issuer_params ← ca_params rcgen text sha256 identity_hash ca_scope ca_uri profile
        ca_cert ← map_err certificate (Rcgen.self_signed rcgen issuer_params ca_key_pair)
        seed_label ← leaf_seed_label role ca_scope label profile
        uri ← leaf_uri role identity_hash label
        leaf_key_pair ← key_pair_from_derived_seed rcgen hkdf root seed_label
        params ←
            leaf_params rcgen text sha256 identity_hash role label uri subject_alt_names profile
        leaf_cert ←
            map_err certificate
              (Rcgen.signed_by rcgen params leaf_key_pair (issuer_params, ca_key_pair))
        let ca_cert_der = Rcgen.certificate_der rcgen ca_cert
        ok (record {
          profile = profile;
          ca_cert_pem = Rcgen.certificate_pem rcgen ca_cert;
          ca_cert_der = ca_cert_der;
          ca_fingerprint_sha256 = fingerprint_sha256 ca_cert_der;
          leaf =
              material_from_cert role identity_hash label profile.profile profile.leaf_epoch uri
                leaf_cert leaf_key_pair;
        })

      unfoldable pub derive_server_certificate_chain_with_profile :
          Bytes
          → Bytes
          → Bytes
          → List Bytes
          → StyreneCertificateProfile
          → Result (StyrenePkiError Error) StyreneCertificateChain
      derive_server_certificate_chain_with_profile root ca_scope agent_label names profile =
          derive_leaf_certificate_chain root ca_scope server agent_label names profile

      unfoldable pub derive_server_certificate_chain :
          Bytes
          → Bytes
          → Bytes
          → List Bytes
          → Result (StyrenePkiError Error) StyreneCertificateChain
      derive_server_certificate_chain root ca_scope agent_label names =
          derive_server_certificate_chain_with_profile root ca_scope agent_label names
            default_profile

      unfoldable pub derive_client_certificate_chain_with_profile :
          Bytes
          → Bytes
          → Bytes
          → StyreneCertificateProfile
          → Result (StyrenePkiError Error) StyreneCertificateChain
      derive_client_certificate_chain_with_profile root ca_scope client_label profile =
          derive_leaf_certificate_chain root ca_scope client client_label [] profile

      unfoldable pub derive_client_certificate_chain :
          Bytes → Bytes → Bytes → Result (StyrenePkiError Error) StyreneCertificateChain
      derive_client_certificate_chain root ca_scope client_label =
          derive_client_certificate_chain_with_profile root ca_scope client_label default_profile
