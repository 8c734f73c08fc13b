-- ===== src/Pki/Params.antt =====
-- src/pki.rs: the parameters of the certificates, and the keys. The `rcgen` crate is a parameter.
use styrene_identity.Prelude.{
  ℤ, Bool, true, Option, some, Result, ok, err, ◌>>=◌, ◌>>◌, ok_or, reject, map_err, map, List, [],
  ◌∷◌, ◌++◌, ℕ, is_empty, Bytes, codes,
}
use styrene_identity.Derive
use styrene_identity.Derive.{Hkdf}
use styrene_identity.Pki.{CertificateRole, ca, server, client, role_name, deterministic_serial}
use styrene_identity.Pki.Profile.{
  to_string, StyreneCertificateProfile, StyrenePkiError, pki_empty_label, panicked, certificate,
  from_derive_error, validate_label,
}
use styrene_identity.Pki.Names.{NameText, SanType, uri, San, normalize_subject_alt_names}

pub data IsCa : Type 0 where
  no_ca explicit_no_ca : IsCa
  ca_constrained : ℕ → IsCa

pub data KeyUsagePurpose : Type 0 where
  digital_signature key_cert_sign crl_sign : KeyUsagePurpose

pub data ExtendedKeyUsagePurpose : Type 0 where
  server_auth client_auth : ExtendedKeyUsagePurpose

-- The fields that the program sets; a distinguished name is its common names.
pub record CertificateParams (Date : Type 0) : Type 0 where
  pub serial_number : Option Bytes
  pub not_before : Date
  pub not_after : Date
  pub is_ca : IsCa
  pub common_names : List Bytes
  pub subject_alt_names : List SanType
  pub key_usages : List KeyUsagePurpose
  pub extended_key_usages : List ExtendedKeyUsagePurpose
  pub use_authority_key_identifier_extension : Bool

-- `CertificateParams::new` of no names, `date_time_ymd`, which panics where there is no such date,
-- and the calls on keys and certificates. An issuer is its parameters and its key.
pub record Rcgen (Error Date KeyPair Certificate : Type 0) : Type 0 where
  pub new_params : Result Error (CertificateParams Date)
  pub date_time_ymd : ℤ → ℕ → ℕ → Option Date
  pub try_from_der : Bytes → Result Error KeyPair
  pub serialize_pem : KeyPair → Bytes
  pub serialize_der : KeyPair → Bytes
  pub self_signed : CertificateParams Date → KeyPair → Result Error Certificate
  pub signed_by :
      CertificateParams Date → KeyPair → CertificateParams Date × KeyPair → Result Error Certificate
  pub certificate_pem : Certificate → Bytes
  pub certificate_der : Certificate → Bytes

unfoldable pub ed25519_seed_to_pkcs8_der : Bytes → Bytes
ed25519_seed_to_pkcs8_der seed =
    (0x30 ∷ 0x2e ∷ 0x02 ∷ 0x01 ∷ 0x00 ∷ 0x30 ∷ 0x05 ∷ 0x06 ∷ 0x03 ∷ 0x2b ∷ 0x65 ∷ 0x70 ∷ 0x04 ∷ 0x22
      ∷ 0x04 ∷ 0x20 ∷ [])
    ++ seed

-- The extended usage that a leaf's role calls for; a CA's is unreachable.
unfoldable pub extended_key_usage :
    {Error : Type 0} → CertificateRole → Result (StyrenePkiError Error) ExtendedKeyUsagePurpose
extended_key_usage server = ok server_auth
extended_key_usage client = ok client_auth
extended_key_usage ca = err panicked

module _ {Error Date KeyPair Certificate : Type 0}
    (rcgen : Rcgen Error Date KeyPair Certificate) where
  unfoldable pub new_years_day : ℤ → Result (StyrenePkiError Error) Date
  new_years_day year = ok_or (Rcgen.date_time_ymd rcgen year 1 1) panicked

  unfoldable pub key_pair_from_derived_seed :
      Hkdf → Bytes → Bytes → Result (StyrenePkiError Error) KeyPair
  key_pair_from_derived_seed hkdf root label = do
    reject (is_empty label) pki_empty_label
    let deriver = Derive.new hkdf root
    seed ← map_err from_derive_error (Derive.derive_tls_certificate_key hkdf deriver label)
    map_err certificate (Rcgen.try_from_der rcgen (ed25519_seed_to_pkcs8_der seed))

  module _ (text : NameText Error) (sha256 : Bytes → Bytes) where
    unfoldable pub ca_params :
        Bytes
        → Bytes
        → Bytes
        → StyreneCertificateProfile
        → Result (StyrenePkiError Error) (CertificateParams Date)
    unfolding new_years_day
    ca_params identity_hash scope uri_text profile = do
      params ← map_err certificate (Rcgen.new_params rcgen)
      let serial = deterministic_serial sha256 (
          codes "ca"
          ∷ identity_hash
          ∷ scope
          ∷ uri_text
          ∷ profile.profile
          ∷ profile.ca_epoch
          ∷ to_string profile.ca_not_before_year
          ∷ to_string profile.ca_not_after_year
          ∷ codes "v1"
          ∷ [])
      not_before ← new_years_day profile.ca_not_before_year
      not_after ← new_years_day profile.ca_not_after_year
      uri_name ← map_err certificate (NameText.to_ia5 text uri_text)
      ok (record params {
        serial_number = some serial;
        not_before = not_before;
        not_after = not_after;
        is_ca = ca_constrained 0;
        common_names = (codes "styrene:" ++ (identity_hash ++ (codes ":ca:" ++ scope))) ∷ [];
        subject_alt_names = params.subject_alt_names ++ (uri uri_name ∷ []);
        key_usages = params.key_usages ++ (digital_signature ∷ key_cert_sign ∷ crl_sign ∷ []);
      })

    unfoldable pub leaf_params :
        Bytes
        → CertificateRole
        → Bytes
        → Bytes
        → List Bytes
        → StyreneCertificateProfile
        → Result (StyrenePkiError Error) (CertificateParams Date)
    unfolding new_years_day
    leaf_params identity_hash role label uri_text subject_alt_names profile = do
      validate_label label
      normalized ← normalize_subject_alt_names text subject_alt_names
      params ← map_err certificate (Rcgen.new_params rcgen)
      let serial_parts =
          (role_name role
            ∷ identity_hash
            ∷ label
            ∷ uri_text
            ∷ profile.profile
            ∷ profile.ca_epoch
            ∷ profile.leaf_epoch
            ∷ to_string profile.leaf_not_before_year
            ∷ to_string profile.leaf_not_after_year
            ∷ codes "v1"
            ∷ [])
          ++ map San.serial_part normalized
      not_before ← new_years_day profile.leaf_not_before_year
      not_after ← new_years_day profile.leaf_not_after_year
      uri_name ← map_err certificate (NameText.to_ia5 text uri_text)
      usage ← extended_key_usage role
      ok (record params {
        serial_number = some (deterministic_serial sha256 serial_parts);
        not_before = not_before;
        not_after = not_after;
        is_ca = explicit_no_ca;
        common_names =
            (codes "styrene:" ++ (identity_hash ++ (b':' ∷ (role_name role ++ (b':' ∷ label)))))
            ∷ [];
        subject_alt_names = params.subject_alt_names ++ (uri uri_name ∷ map San.name normalized);
        key_usages = params.key_usages ++ (digital_signature ∷ []);
        extended_key_usages = params.extended_key_usages ++ (usage ∷ []);
        use_authority_key_identifier_extension = true;
      })
