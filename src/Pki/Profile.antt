-- ===== src/Pki/Profile.antt =====
-- src/pki.rs: the issuance profile, and the validation of labels and profiles.
use Prim.Native.String.{String}
use styrene_identity.Prelude.{
  ℤ, pos, negsuc, leb_ℤ, ltb_ℤ, ℕ, zero, suc, ◌+◌, ◌/◌, ◌%◌, not, Result, ok, reject, ◌>>◌, [], ◌∷◌,
  ◌++◌, ltb, if◌then◌else◌, length, is_empty, Bytes, bytes_eq, codes,
}
use styrene_identity.Derive.{DeriveError, empty_label}
use styrene_identity.Pki.Utf8.{trim, any_control}

abbrev pub max_label_bytes : ℕ
max_label_bytes = 256

-- The decimal digits of a number of at most so many digits.
unfoldable pub digits : ℕ → ℕ → Bytes
digits zero n = []
digits (suc most) n =
    let front = digits most (n / 10) in (if ltb n 10 then [] else front) ++ ((b'0' + n % 10) ∷ [])

-- `to_string` of an `i32`, which has at most ten digits.
unfoldable pub to_string : ℤ → Bytes
unfolding digits
to_string (pos n) = digits 10 n
to_string (negsuc n) = b'-' ∷ digits 10 (suc n)

-- A year is an `i32`.
pub record StyreneCertificateProfile : Type 0 where
  pub profile : Bytes
  pub ca_epoch : Bytes
  pub leaf_epoch : Bytes
  pub ca_not_before_year : ℤ
  pub ca_not_after_year : ℤ
  pub leaf_not_before_year : ℤ
  pub leaf_not_after_year : ℤ

-- `StyreneCertificateProfile::default`
unfoldable pub default_profile : StyreneCertificateProfile
default_profile = record {
  profile = codes "default";
  ca_epoch = codes "0";
  leaf_epoch = codes "0";
  ca_not_before_year = pos 2026;
  ca_not_after_year = pos 2036;
  leaf_not_before_year = pos 2026;
  leaf_not_after_year = pos 2031;
}

unfoldable pub with_leaf_epoch : StyreneCertificateProfile → Bytes → StyreneCertificateProfile
with_leaf_epoch self leaf_epoch = record self { leaf_epoch = leaf_epoch }

unfoldable pub with_ca_epoch : StyreneCertificateProfile → Bytes → StyreneCertificateProfile
with_ca_epoch self ca_epoch = record self { ca_epoch = ca_epoch }

unfoldable pub with_profile : StyreneCertificateProfile → Bytes → StyreneCertificateProfile
with_profile self profile = record self { profile = profile }

-- The errors of the `rcgen` crate are a parameter. `panicked` stands for a panic.
pub data StyrenePkiError (Error : Type 0) : Type 0 where
  pki_empty_label invalid_validity panicked : StyrenePkiError Error
  invalid_label : String → StyrenePkiError Error
  certificate : Error → StyrenePkiError Error

module _ {Error : Type 0} where
  unfoldable pub from_derive_error : DeriveError → StyrenePkiError Error
  from_derive_error empty_label = pki_empty_label

  unfoldable pub validate_label : Bytes → Result (StyrenePkiError Error) (Unit {0})
  validate_label value = do
    reject (is_empty value) pki_empty_label
    reject (not (bytes_eq (trim value) value)) (invalid_label "leading or trailing whitespace")
    reject (ltb max_label_bytes (length value)) (invalid_label "too long")
    reject (any_control value) (invalid_label "control character")
    ok tt

  unfoldable pub validate_profile :
      StyreneCertificateProfile → Result (StyrenePkiError Error) (Unit {0})
  validate_profile profile = do
    validate_label profile.profile
    validate_label profile.ca_epoch
    validate_label profile.leaf_epoch
    reject (leb_ℤ profile.ca_not_after_year profile.ca_not_before_year) invalid_validity
    reject (leb_ℤ profile.leaf_not_after_year profile.leaf_not_before_year) invalid_validity
    reject (ltb_ℤ profile.leaf_not_before_year profile.ca_not_before_year) invalid_validity
    reject (ltb_ℤ profile.ca_not_after_year profile.leaf_not_after_year) invalid_validity
    ok tt
