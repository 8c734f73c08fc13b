-- ===== src/Platform/Android.antt =====
-- src/android_keystore_signer.rs: the root secret in the Android Keystore. The `keyring` entry is a
-- parameter, and so is each secret that is drawn. Of an error's text its fixed part is kept.
pub mod Custody
use styrene_identity.Prelude.{
  ℕ, Bool, true, false, not, Result, ok, err, reject, if◌then◌else◌, ◌==◌, length, Bytes, bytes_eq,
}
use styrene_identity.External.Ed25519.{Ed25519}
use styrene_identity.Derive
use styrene_identity.Derive.{Hkdf}
use styrene_identity.FileSigner.{
  SignerError, unavailable, key_not_found, decryption_failed, text, invalid_length,
}
use styrene_identity.Platform.Store.{Action, ◌>>=◌, ◌>>◌, lift, map_err, attempt}
use styrene_identity.Pubkey.{sign_with_seed}

pub data KeyringError : Type 0 where
  no_entry no_storage_access other : KeyringError

pub record Entry (S : Type 0) : Type 0 where
  pub get_secret : Action S KeyringError Bytes
  pub set_secret : Bytes → Action S KeyringError (Unit {0})

unfoldable pub decode_root_secret : Bytes → Result SignerError Bytes
decode_root_secret secret =
    if length secret == 32
    then ok secret
    else err (decryption_failed (invalid_length (length secret)))

unfoldable pub map_storage_error : KeyringError → SignerError
map_storage_error no_entry = key_not_found (text "no Android identity")
map_storage_error no_storage_access = unavailable (text "Android Keystore access")
map_storage_error other = decryption_failed (text "Android Keystore")

module _ {S : Type 0} (entry : Entry S) where
  -- A secret is stored, and read back to be compared.
  unfoldable pub store_verified : Bytes → Action S SignerError (Unit {0})
  store_verified secret = do
    map_err map_storage_error (Entry.set_secret entry secret)
    persisted ← map_err map_storage_error (Entry.get_secret entry)
    lift (
        reject (not (bytes_eq secret persisted))
          (decryption_failed (text "Android Keystore root secret verification failed")))

  -- The branches on what the entry gave; `drawn` are the random bytes.
  unfoldable pub load_or_create : Bytes → Result KeyringError Bytes → Action S SignerError Bytes
  load_or_create drawn (ok secret) = lift (decode_root_secret secret)
  load_or_create drawn (err no_entry) = do store_verified drawn; lift (ok drawn)
  load_or_create drawn (err no_storage_access) = lift (err (map_storage_error no_storage_access))
  load_or_create drawn (err other) = lift (err (map_storage_error other))

  unfoldable pub load_or_create_root_secret : Bytes → Action S SignerError Bytes
  load_or_create_root_secret drawn = do
    found ← attempt (Entry.get_secret entry)
    load_or_create drawn found

  unfoldable pub load_root_secret : Action S SignerError Bytes
  load_root_secret = do
    secret ← map_err map_storage_error (Entry.get_secret entry)
    lift (decode_root_secret secret)

  unfoldable pub existence : Result KeyringError Bytes → Result SignerError Bool
  existence (ok _) = ok true
  existence (err no_entry) = ok false
  existence (err no_storage_access) = err (map_storage_error no_storage_access)
  existence (err other) = err (map_storage_error other)

  unfoldable pub exists : Action S SignerError Bool
  exists = do found ← attempt (Entry.get_secret entry); lift (existence found)

  unfoldable pub restore_root_secret : Bytes → Action S SignerError (Unit {0})
  restore_root_secret secret = do
    here ← exists
    lift (reject here (unavailable (text "Identity already exists in Android Keystore")))
    store_verified secret

  unfoldable pub sign : Hkdf → Ed25519 → Bytes → Bytes → Action S SignerError Bytes
  sign hkdf ed drawn message = do
    root ← load_or_create_root_secret drawn
    let seed = Derive.derive hkdf (Derive.new hkdf root) Derive.signing
    lift (ok (sign_with_seed ed seed message))
