-- ===== src/Platform/Keychain.antt =====
-- src/keychain_signer.rs: the root secret in the Keychain of macOS and iOS. The calls of the
-- `security_framework` crate are parameters, and so is each secret that is drawn. Of an error's text
-- its fixed part is kept.
pub mod Lookup
use styrene_identity.Prelude.{
  ℕ, ℤ, negsuc, eq_ℤ, ◌||◌, Bool, true, false, not, Result, ok, err, reject, if◌then◌else◌, ◌==◌,
  length, Bytes, codes,
}
use styrene_identity.External.Ed25519.{Ed25519}
use styrene_identity.Derive
use styrene_identity.Derive.{Hkdf}
use styrene_identity.FileSigner.{
  SignerError, unavailable, auth_required, key_not_found, signing_failed, decryption_failed, text,
  invalid_length,
}
use styrene_identity.Platform.Store.{Action, ◌>>=◌, ◌>>◌, lift, map_err, attempt}
use styrene_identity.Pubkey.{sign_with_seed}

abbrev pub service_name : Bytes
service_name = codes "io.styrene.identity"

abbrev pub account_name : Bytes
account_name = codes "root-secret-v2"

abbrev pub legacy_biometric_account : Bytes
legacy_biometric_account = codes "root-secret"

-- An error of the platform, by its code.
pub record OsError : Type 0 where
  pub code : ℤ

-- The number of the items of a service and an account, whether an access policy can be made, and
-- the calls that store, read and delete an item's secret.
pub record Keychain (S : Type 0) : Type 0 where
  pub search : Bytes → Bytes → Action S OsError ℕ
  pub access_control : Result OsError (Unit {0})
  pub set_password : Bytes → Bytes → Bytes → Action S OsError (Unit {0})
  pub password : Bytes → Bytes → Action S OsError Bytes
  pub delete_password : Bytes → Bytes → Action S OsError (Unit {0})

pub record KeychainSigner : Type 0 where
  pub service : Bytes
  pub account : Bytes

unfoldable pub new : Bytes → Bytes → KeychainSigner
new service account = record { service = service; account = account }

unfoldable pub default_signer : KeychainSigner
default_signer = record { service = service_name; account = account_name }

-- `errSecItemNotFound`
abbrev pub item_not_found : ℤ
item_not_found = negsuc 25_299

unfoldable pub presence_of : Result OsError ℕ → Result SignerError Bool
presence_of (ok items) = ok (not (items == 0))
presence_of (err error) =
    if eq_ℤ error.code item_not_found
    then ok false
    else err (unavailable (text "Keychain lookup failed"))

-- `unwrap_or(false)`
unfoldable pub or_false : Result SignerError Bool → Bool
or_false (ok here) = here
or_false (err _) = false

-- What a failed read means, by its code.
unfoldable pub read_error : OsError → SignerError
read_error error =
    if eq_ℤ error.code (negsuc 25_292) || eq_ℤ error.code (negsuc 127)
    then auth_required (text "Device authentication cancelled")
    else if eq_ℤ error.code (negsuc 25_307)
    then auth_required (text "Unlock the device once after restart to access the identity")
    else if eq_ℤ error.code item_not_found
    then key_not_found (text "No identity in Keychain")
    else decryption_failed (text "Keychain read failed")

unfoldable pub checked_length : Bytes → Result SignerError Bytes
checked_length content =
    if length content == 32
    then ok content
    else err (decryption_failed (invalid_length (length content)))

module _ {S : Type 0} (keychain : Keychain S) (self : KeychainSigner) where
  unfoldable pub presence : Action S SignerError Bool
  presence = do
    found ← attempt (Keychain.search keychain self.service self.account)
    lift (presence_of found)

  unfoldable pub exists : Action S SignerError Bool
  exists = do here ← attempt presence; lift (ok (or_false here))

  unfoldable pub create_from_root_secret : Bytes → Action S SignerError (Unit {0})
  create_from_root_secret root = do
    here ← exists
    lift (reject here (unavailable (text "Identity already exists in Keychain. Delete it first.")))
    map_err (λ _. signing_failed (text "Keychain access policy failed"))
        (lift (Keychain.access_control keychain))
    map_err (λ _. signing_failed (text "Keychain store failed"))
        (Keychain.set_password keychain self.service self.account root)

  unfoldable pub create_root_secret : Bytes → Action S SignerError Bytes
  create_root_secret drawn = do
    here ← exists
    lift (reject here (unavailable (text "Identity already exists in Keychain. Delete it first.")))
    create_from_root_secret drawn
    lift (ok drawn)

  unfoldable pub create : Bytes → Action S SignerError (Unit {0})
  create drawn = do root ← create_root_secret drawn; lift (ok tt)

  unfoldable pub restore_root_secret : Bytes → Action S SignerError (Unit {0})
  restore_root_secret secret = create_from_root_secret secret

  unfoldable pub delete : Action S SignerError (Unit {0})
  delete =
      map_err (λ _. unavailable (text "Keychain delete failed"))
        (Keychain.delete_password keychain self.service self.account)

  unfoldable pub root_secret : Action S SignerError Bytes
  root_secret = do
    content ← map_err read_error (Keychain.password keychain self.service self.account)
    lift (checked_length content)

  unfoldable pub sign : Hkdf → Ed25519 → Bytes → Action S SignerError Bytes
  sign hkdf ed message = do
    root ← root_secret
    let seed = Derive.derive hkdf (Derive.new hkdf root) Derive.signing
    lift (ok (sign_with_seed ed seed message))
