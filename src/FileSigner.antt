-- ===== src/FileSigner.antt =====
-- src/file_signer.rs: the format of the identity file. Argon2id and ChaCha20-Poly1305 are
-- parameters; zeroizing memory is not modelled. The operations on the file are in `Custody`.
pub mod RoundTrip
pub mod Custody
use Prim.Native.String.{String}
use styrene_identity.Prelude.{
  ℕ, ◌+◌, Bool, true, false, not, ◌&&◌, ◌++◌, [], ◌∷◌, Option, none, some, Result, ok, err, ◌>>=◌,
  ◌>>◌, ok_or, reject, ◌==◌, leb, ◌-◌, if◌then◌else◌, length, take, drop, Bytes, codes, bytes_eq,
}
use styrene_identity.FileSystem.{FilePath, IoError}

abbrev pub magic : Bytes
magic = codes "STID"

abbrev pub format_version : ℕ
format_version = 1

abbrev pub header_len : ℕ
header_len = length magic + 1

abbrev pub salt_len : ℕ
salt_len = 32

abbrev pub nonce_len : ℕ
nonce_len = 12

abbrev pub secret_len : ℕ
secret_len = 32

abbrev pub tag_len : ℕ
tag_len = 16

abbrev pub file_len : ℕ
file_len = header_len + salt_len + nonce_len + secret_len + tag_len

abbrev pub legacy_file_len : ℕ
legacy_file_len = salt_len + nonce_len + secret_len + tag_len

-- What an error's text says.
pub data Message : Type 0 where
  text : String → Message
  argon2id cipher_init encrypt_failed wrong_passphrase_or_corrupted : Message
  unsupported_version invalid_length : ℕ → Message

-- `SignerError` of src/signer.rs; `panicked` is a panic of slicing, of indexing,
-- or of a slice copied at a wrong length.
pub data SignerError : Type 0 where
  unavailable auth_required key_not_found signing_failed decryption_failed : Message → SignerError
  io : IoError → SignerError
  panicked : SignerError

-- Argon2id with the hardened parameters, and the cipher: `new_from_slice` accepts the key.
pub record FileCrypto : Type 0 where
  pub hash_password : Bytes → Bytes → Option Bytes
  pub key_accepted : Bytes → Bool
  pub encrypt : Bytes → Bytes → Bytes → Option Bytes
  pub decrypt : Bytes → Bytes → Bytes → Option Bytes

-- The provider's answer to each call of `get_passphrase`, which may fail and need not repeat: the
-- number says how many passphrases were asked for before, of this provider or another.
pub record FileSigner : Type 0 where
  pub path : FilePath
  pub passphrase_provider : ℕ → Result SignerError Bytes

unfoldable pub new : FilePath → (ℕ → Result SignerError Bytes) → FileSigner
new path provider = record { path = path; passphrase_provider = provider }

-- `StaticPassphraseProvider` gives its passphrase to every call.
unfoldable pub static_passphrase : Bytes → ℕ → Result SignerError Bytes
static_passphrase passphrase asked = ok passphrase

unfoldable pub with_static_passphrase : FilePath → Bytes → FileSigner
with_static_passphrase path passphrase = new path (static_passphrase passphrase)

-- `starts_with`
abbrev pub starts_with : Bytes → Bytes → Bool
starts_with content prefix = bytes_eq (take (length prefix) content) prefix

-- `&content[first..last]`, which panics out of range.
unfoldable pub slice : ℕ → ℕ → Bytes → Result SignerError Bytes
slice first last content =
    if leb first last && leb last (length content)
    then ok (take (last - first) (drop first content))
    else err panicked

-- `&content[first..]`
unfoldable pub slice_from : ℕ → Bytes → Result SignerError Bytes
slice_from first content =
    if leb first (length content) then ok (drop first content) else err panicked

unfoldable pub byte_or_panic : Bytes → Result SignerError ℕ
byte_or_panic [] = err panicked
byte_or_panic (b ∷ _) = ok b

-- `content[at]`
unfoldable pub index : ℕ → Bytes → Result SignerError ℕ
index at content = byte_or_panic (drop at content)

-- `Nonce::from_slice` panics at another length.
unfoldable pub from_slice : Bytes → Result SignerError Bytes
from_slice bytes = if length bytes == nonce_len then ok bytes else err panicked

-- The payload behind the header, once its version is checked.
unfoldable pub versioned_payload : Bytes → Result SignerError Bytes
versioned_payload file_data = do
  version ← index (length magic) file_data
  if version == format_version
      then slice_from header_len file_data
      else err (decryption_failed (unsupported_version version))

-- What a passphrase opens, when the provider's answer is one.
unfoldable pub opened_by :
    Result SignerError Bytes → (Bytes → Result SignerError Bytes) → Result SignerError Bytes
opened_by (ok passphrase) decrypts = decrypts passphrase
opened_by (err why) decrypts = err why

module _ (crypto : FileCrypto) where
  -- `encrypt_root_secret` behind the random draws.
  unfoldable pub seal : Bytes → Bytes → Bytes → Bytes → Result SignerError Bytes
  seal salt nonce root_secret passphrase = do
    key ← ok_or (FileCrypto.hash_password crypto passphrase salt) (signing_failed argon2id)
    reject (not (FileCrypto.key_accepted crypto key)) (signing_failed cipher_init)
    ciphertext ←
        ok_or (FileCrypto.encrypt crypto key nonce root_secret) (signing_failed encrypt_failed)
    ok (magic ++ (format_version ∷ (salt ++ (nonce ++ ciphertext))))

  -- The choice of the payload in `decrypt`.
  unfoldable pub payload_of : Bytes → Result SignerError Bytes
  payload_of file_data =
      if length file_data == file_len && starts_with file_data magic
      then versioned_payload file_data
      else if length file_data == legacy_file_len
      then ok file_data
      else err (decryption_failed (invalid_length (length file_data)))

  -- The root secret is its bytes.
  unfoldable pub decrypt : Bytes → Bytes → Result SignerError Bytes
  unfolding payload_of
  decrypt file_data passphrase = do
    payload ← payload_of file_data
    salt ← slice 0 salt_len payload
    nonce_bytes ← slice salt_len (salt_len + nonce_len) payload
    ciphertext ← slice_from (salt_len + nonce_len) payload
    key ← ok_or (FileCrypto.hash_password crypto passphrase salt) (decryption_failed argon2id)
    reject (not (FileCrypto.key_accepted crypto key)) (decryption_failed cipher_init)
    nonce ← from_slice nonce_bytes
    plaintext ←
        ok_or (FileCrypto.decrypt crypto key nonce ciphertext)
          (decryption_failed wrong_passphrase_or_corrupted)
    if length plaintext == secret_len then ok plaintext else err panicked
