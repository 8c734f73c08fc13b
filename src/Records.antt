-- ===== src/Records.antt =====
-- src/records/mod.rs: signature suites, public keys, key ids, signing frames and identifiers.
-- A fixed array and a UTF-8 text are lists of bytes. SHA-256 and minicbor's encoding of an RSA key
-- are parameters.
pub mod Frame
pub mod KeyId
pub mod Identifier
pub mod RuntimeCertificate
pub mod LifecycleTransition
use Prim.Native.String.{String}
use styrene_identity.Prelude.{
  ℕ, ◌*◌, ◌^◌, Bool, true, false, not, ◌&&◌, ◌||◌, List, [], ◌∷◌, ◌++◌, Option, none, some, Result,
  ok, err, ◌>>=◌, ◌>>◌, reject, ok_or, map_err, ltb, leb, ◌==◌, if◌then◌else◌, length, all,
  is_empty, Bytes, codes, be16, be32, try_u16, try_u32, first_or,
}

abbrev pub record_profile_version : ℕ
record_profile_version = 1

abbrev pub key_id_domain : Bytes
key_id_domain = codes "styrene-key-id-v1" ++ 0 ∷ []

abbrev pub runtime_certificate_domain : Bytes
runtime_certificate_domain = codes "styrene-runtime-certificate-v1"

abbrev pub lifecycle_transition_domain : Bytes
lifecycle_transition_domain = codes "styrene-lifecycle-transition-v1"

abbrev pub max_runtime_certificate_bytes : ℕ
max_runtime_certificate_bytes = 16_384

abbrev pub max_lifecycle_transition_bytes : ℕ
max_lifecycle_transition_bytes = 65_535

pub data RecordError : Type 0 where
  encode : String → RecordError
  unsupported_version : ℕ → RecordError
  too_large : ℕ → ℕ → RecordError
  length_overflow invalid_domain invalid_identifier invalid_public_key : RecordError
  suite_mismatch key_id_mismatch invalid_validity invalid_custody : RecordError
  invalid_domain_key invalid_transition invalid_revision invalid_reconciliation : RecordError

pub data SignatureSuite : Type 0 where
  ed25519 ecdsa_p256_sha256 rsa_pss_sha256 : SignatureSuite

unfoldable pub id : SignatureSuite → ℕ
id SignatureSuite.ed25519 = 0
id SignatureSuite.ecdsa_p256_sha256 = 1
id SignatureSuite.rsa_pss_sha256 = 2

-- The derived `PartialEq`.
unfoldable pub suite_eq : SignatureSuite → SignatureSuite → Bool
unfolding id
suite_eq a b = id a == id b

pub record RsaPublicKey : Type 0 where
  pub modulus : Bytes
  pub exponent : ℕ

pub data PublicKey : Type 0 where
  ed25519 : Bytes → PublicKey
  ecdsa_p256 : Bytes → PublicKey
  rsa_pss : RsaPublicKey → PublicKey

unfoldable pub suite : PublicKey → SignatureSuite
suite (PublicKey.ed25519 _) = SignatureSuite.ed25519
suite (PublicKey.ecdsa_p256 _) = SignatureSuite.ecdsa_p256_sha256
suite (PublicKey.rsa_pss _) = SignatureSuite.rsa_pss_sha256

-- `usize::checked_mul` on 64 bits.
abbrev checked_mul : ℕ → ℕ → Option ℕ
checked_mul a b = if ltb (a * b) (2 ^ 64) then some (a * b) else none

unfoldable pub validate : PublicKey → Result RecordError (Unit {0})
validate (PublicKey.ed25519 _) = ok tt
validate (PublicKey.ecdsa_p256 bytes) =
    if first_or bytes 0 == 0x02 || first_or bytes 0 == 0x03 then ok tt else err invalid_public_key
validate (PublicKey.rsa_pss key) = do
  bits ← ok_or (checked_mul (length key.modulus) 8) invalid_public_key
  reject
      (not (bits == 2048 || (bits == 3072 || bits == 4096))
        || (first_or key.modulus 0 == 0 || not (key.exponent == 65_537)))
      invalid_public_key
  ok tt

-- `minicbor::to_vec` of an RSA key, and its error's text.
abbrev pub EncodeRsa : Type 0
EncodeRsa = RsaPublicKey → Result String Bytes

module _ (to_vec : EncodeRsa) where
  encoding : PublicKey → Result RecordError Bytes
  encoding (PublicKey.ed25519 bytes) = ok bytes
  encoding (PublicKey.ecdsa_p256 bytes) = ok bytes
  encoding (PublicKey.rsa_pss key) = map_err encode (to_vec key)

  unfoldable pub canonical_bytes : PublicKey → Result RecordError Bytes
  unfolding encoding
  canonical_bytes key = do validate key; encoding key

  module _ (sha256 : Bytes → Bytes) where
    unfoldable pub derive_key_id : PublicKey → Result RecordError Bytes
    derive_key_id key = do
      canonical ← canonical_bytes key
      ok (sha256 (key_id_domain ++ (be16 (id (suite key)) ++ canonical)))

unfoldable pub signing_frame : Bytes → Bytes → Result RecordError Bytes
signing_frame domain protected = do
  domain_len ← try_u16 (length domain) length_overflow
  protected_len ← try_u32 (length protected) length_overflow
  reject (is_empty domain || not (all (λ byte. ltb byte 128) domain)) invalid_domain
  ok (
      be16 domain_len
      ++ (domain ++ (be16 record_profile_version ++ (be32 protected_len ++ protected))))

unfoldable pub validate_ascii_identifier : Bytes → ℕ → Result RecordError (Unit {0})
validate_ascii_identifier bytes max = do
  reject
      (is_empty bytes
        || (ltb max (length bytes) || not (all (λ byte. leb 0x21 byte && leb byte 0x7e) bytes)))
      invalid_identifier
  ok tt
