-- ===== src/Tests/Issuing.antt =====
-- Certificates at concrete data.
use styrene_identity.Prelude.{
  ℤ, ◌≡◌, ◌⊎◌, refl, sym, false, none, some, ok, ok-injective, List, [], ◌∷◌, ◌++◌, if◌then◌else◌,
  leb, ◌&&◌, first_or, Bytes, bytes_eq, bytes_lt, codes, arith,
}
use styrene_identity.Derive
use styrene_identity.Derive.Families.{HkdfCollision}
use styrene_identity.Identity
use styrene_identity.Pki
use styrene_identity.Pki.{CertificateRole, server, client}
use styrene_identity.Pki.Profile
use styrene_identity.Pki.Profile.{StyreneCertificateProfile, StyrenePkiError, default_profile}
use styrene_identity.Pki.Utf8
use styrene_identity.Pki.Names
use styrene_identity.Pki.Names.{
  NameText, San, SanType, dns_name, ip_address, normalize_subject_alt_names,
}
use styrene_identity.Pki.Names.Canonical.{IsStrict}
use styrene_identity.Pki.Names.Same.{IsNameText, normalize_subject_alt_names-same}
use styrene_identity.Pki.Params
use styrene_identity.Pki.Params.{Rcgen, CertificateParams, IsCa}
use styrene_identity.Pki.Issue
use styrene_identity.Pki.Issue.{
  StyreneCertificate, StyreneCertificateChain, derive_leaf_certificate_chain,
  derive_ca_certificate_with_profile,
}
use styrene_identity.Pki.Issue.Anchor.{chain-derive_ca}
use styrene_identity.Pki.Issue.Windows.{IsIssuedWithin, chain-IsIssuedWithin}
use styrene_identity.Pki.Issue.Keys.{IsRcgen, leaf_keys-separate}
use styrene_identity.Tests.Cryptography.{fit, hash, hkdf, ed25519}
use styrene_identity.Tests.HexText.{hex}

-- A text that begins with a digit is an address.
abbrev text : NameText (Unit {0})
text = record {
  parse_ip = λ s. if leb b'0' (first_or s 0) && leb (first_or s 0) b'9' then some s else none;
  display_ip = λ ip. ip;
  to_ia5 = λ s. ok s;
}

text-IsNameText : IsNameText text
text-IsNameText = record { parse-display = λ s ip read. ground arith }

abbrev names : List Bytes
names = codes " Web.mesh " ∷ codes "10.0.0.1" ∷ codes " " ∷ codes "web.mesh" ∷ []

abbrev others : List Bytes
others =
    codes "10.0.0.1" ∷ codes "web.mesh" ∷ codes " Web.mesh " ∷ codes " " ∷ codes "10.0.0.1" ∷ []

abbrev entries : List San
entries =
    record { serial_part = codes "dns:web.mesh"; name = dns_name (codes "web.mesh") }
    ∷ record { serial_part = codes "ip:10.0.0.1"; name = ip_address (codes "10.0.0.1") }
    ∷ []

normalized : normalize_subject_alt_names text names ≡ ok entries
unfolding normalize_subject_alt_names Names.normalize_each Names.normalize_name Names.dedup_sans
    Names.dedup_from Names.sort_sans Names.insert_san Utf8.trim Utf8.strip Utf8.white_len
    Utf8.white_len_back Utf8.to_ascii_lowercase bytes_eq bytes_lt
normalized = refl

normalize_subject_alt_names-same_example :
    (normalize_subject_alt_names text others ≡ ok entries) × IsStrict entries
normalize_subject_alt_names-same_example =
    normalize_subject_alt_names-same text text-IsNameText names others entries
      (λ name m. ground arith) (λ name m. ground arith) normalized

-- A date is its year, a key is its encoding, and a certificate says who signed it.
abbrev rcgen : Rcgen (Unit {0}) ℤ Bytes Bytes
rcgen = record {
  new_params = ok (record {
    serial_number = none;
    not_before = ℤ.pos 1975;
    not_after = ℤ.pos 4096;
    is_ca = IsCa.no_ca;
    common_names = [];
    subject_alt_names = [];
    key_usages = [];
    extended_key_usages = [];
    use_authority_key_identifier_extension = false;
  });
  date_time_ymd = λ year month day. some year;
  try_from_der = λ der. ok der;
  serialize_pem = λ key. codes "PEM " ++ key;
  serialize_der = λ key. key;
  self_signed = λ params key. ok (codes "self-signed");
  signed_by = λ params key issuer. ok (codes "signed");
  certificate_pem = λ cert. codes "PEM " ++ cert;
  certificate_der = λ cert. cert;
}

rcgen-IsRcgen : IsRcgen rcgen
rcgen-IsRcgen = record { serialize-read = λ der k read. sym (ok-injective read) }

abbrev root : Bytes
root = fit 32 (1 ∷ 2 ∷ 3 ∷ [])

abbrev scope : Bytes
scope = codes "mesh"

abbrev label : Bytes
label = codes "web"

abbrev own_hash : Bytes
own_hash = Identity.identity_hash hash hex hkdf ed25519 root

abbrev leaf_key : Bytes
leaf_key = Params.ed25519_seed_to_pkcs8_der (
    fit 32 (Pki.tls_seed_label (codes "server") (codes "default" ∷ scope ∷ label ∷ codes "0" ∷ [])))

abbrev chain : StyreneCertificateChain
chain = record {
  profile = default_profile;
  ca_cert_pem = codes "PEM self-signed";
  ca_cert_der = codes "self-signed";
  ca_fingerprint_sha256 = Issue.fingerprint_sha256 hash hex (codes "self-signed");
  leaf = record {
    role = server;
    identity_hash = own_hash;
    label = label;
    profile = codes "default";
    epoch = codes "0";
    uri_san = Pki.styrene_agent_uri own_hash label;
    cert_pem = codes "PEM signed";
    cert_der = codes "signed";
    private_key_pem = codes "PEM " ++ leaf_key;
    private_key_der = leaf_key;
    fingerprint_sha256 = Issue.fingerprint_sha256 hash hex (codes "signed");
  };
}

issued :
    derive_leaf_certificate_chain hash hex rcgen text hkdf ed25519 root scope server label names
      default_profile
    ≡ ok chain
unfolding derive_leaf_certificate_chain Profile.validate_label Profile.validate_profile
    default_profile Issue.ca_seed_label Issue.leaf_seed_label Issue.leaf_uri
    Issue.material_from_cert Params.key_pair_from_derived_seed Params.ca_params Params.leaf_params
    Params.extended_key_usage Params.ed25519_seed_to_pkcs8_der Derive.derive_tls_certificate_key
    Derive.derive_parameterized Pki.tls_seed_label Pki.seed_components Pki.hex_digits
    normalize_subject_alt_names Names.normalize_each Names.normalize_name Names.dedup_sans
    Names.dedup_from Names.sort_sans Names.insert_san Utf8.trim Utf8.strip Utf8.white_len
    Utf8.white_len_back Utf8.any_control Utf8.to_ascii_lowercase bytes_eq bytes_lt
issued = refl

chain-derive_ca_example :
    (anchor : StyreneCertificate) × (derive_ca_certificate_with_profile hash hex rcgen text hkdf
        ed25519 root scope default_profile
      ≡ ok anchor)
    × (chain.ca_cert_pem ≡ anchor.cert_pem)
    × (chain.ca_cert_der ≡ anchor.cert_der)
    × (chain.ca_fingerprint_sha256 ≡ anchor.fingerprint_sha256)
chain-derive_ca_example =
    chain-derive_ca rcgen hash hex text hkdf ed25519 root scope default_profile server label names
      issued

leaf_keys-separate_example :
    ((server ≡ server)
      × (default_profile.profile ≡ default_profile.profile)
      × (scope ≡ scope)
      × (label ≡ label)
      × (default_profile.leaf_epoch ≡ default_profile.leaf_epoch))
    ⊎ HkdfCollision hkdf
leaf_keys-separate_example =
    leaf_keys-separate rcgen rcgen-IsRcgen hash hex text hkdf ed25519 root scope scope server server
      label label names names default_profile default_profile issued issued refl

chain-IsIssuedWithin_example : IsIssuedWithin rcgen hash text default_profile chain
chain-IsIssuedWithin_example =
    chain-IsIssuedWithin rcgen hash text hex hkdf ed25519 root scope default_profile server label
      names issued
