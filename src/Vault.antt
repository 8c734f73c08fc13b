-- ===== src/Vault.antt =====
-- src/vault.rs: the encrypted backup of an identity, and the vault around its file.
pub mod Keeps
pub mod Restore
pub mod Twice
pub mod Protect
pub mod History
pub mod Spec
pub mod Refine
pub mod Created
pub mod Kept
pub mod Race
use styrene_identity.Prelude.{
  ℕ, ◌^◌, ◌<◌, ◌++◌, Bool, true, false, not, ◌&&◌, Result, ok, err, reject, List, [], ◌∷◌, Option,
  none, some, if◌then◌else◌, ◌==◌, ltb, length, Bytes, codes, bytes_eq, is_empty, is_err,
}
use styrene_identity.Prelude
use styrene_identity.FileSystem.{
  FilePath, path_eq, IoError, is_already_exists, Env, Action, ◌>>=◌, ◌>>◌, lift, map_err, attempt,
  exists, create_dir_all, read, create_new, write_all, sync_all,
}
use styrene_identity.External.Hex.{Hex}
use styrene_identity.Derive.{validate_label}
use styrene_identity.FileSigner
use styrene_identity.FileSigner.{
  FileCrypto, FileSigner, SignerError, io, file_len, legacy_file_len, starts_with, magic,
  format_version, unavailable, auth_required, key_not_found, seal, decrypt, salt_len, nonce_len,
}
use styrene_identity.FileSigner.Custody

abbrev pub backup_contract_version : ℕ
backup_contract_version = 1

pub data EncryptedIdentityBackupFormat : Type 0 where
  legacy_v0 stid_v1 : EncryptedIdentityBackupFormat

pub record EncryptedIdentityBackupMetadata : Type 0 where
  pub contract_version : ℕ
  pub format : EncryptedIdentityBackupFormat
  pub encrypted_size : ℕ

pub record EncryptedIdentityBackup : Type 0 where
  pub metadata : EncryptedIdentityBackupMetadata
  pub encrypted_bytes : Bytes

pub data IdentityRestoreOutcome : Type 0 where
  restored already_present : IdentityRestoreOutcome

-- Paths are carried as paths, not as text.
pub data VaultError : Type 0 where
  exists_already not_initialized backup_exists : FilePath → VaultError
  invalid_backup protection_required backup_authentication_failed : VaultError
  custody_unavailable identity_conflict : VaultError
  signer : SignerError → VaultError
  io_failed : IoError → VaultError

pub record IdentityVault : Type 0 where
  pub file : FileSigner
  pub path : FilePath

unfoldable pub new : FilePath → (ℕ → Result SignerError Bytes) → IdentityVault
new path provider = record { file = FileSigner.new path provider; path = path }

unfoldable pub encrypted_backup_format : Bytes → Result VaultError EncryptedIdentityBackupFormat
encrypted_backup_format content =
    if length content == file_len && starts_with content (magic ++ (format_version ∷ []))
    then ok stid_v1
    else if length content == legacy_file_len
    then ok legacy_v0
    else err invalid_backup

unfoldable pub map_backup_authentication_error : SignerError → VaultError
map_backup_authentication_error (unavailable _) = custody_unavailable
map_backup_authentication_error (auth_required _) = custody_unavailable
map_backup_authentication_error (key_not_found _) = custody_unavailable
map_backup_authentication_error _ = backup_authentication_failed

-- `usize` converts to `u64`.
unfoldable pub from_encrypted_bytes : Bytes → Result VaultError EncryptedIdentityBackup
from_encrypted_bytes encrypted = elim (encrypted_backup_format encrypted) [
  | err e ↦ err e
  | ok format ↦ ok (record {
    metadata = record {
      contract_version = backup_contract_version;
      format = format;
      encrypted_size = length encrypted;
    };
    encrypted_bytes = encrypted;
  })
]

-- `write_exclusive` and the part of `backup` behind the choice of the content.
module _ (env : Env) where
  unfoldable pub write_exclusive : FilePath → Bytes → Action IoError (Unit {0})
  write_exclusive path content = do
    create_dir_all env path.dir
    create_new env path
    write_all env path content
    sync_all env

abbrev pub restore_error : IoError → VaultError
restore_error error = if is_already_exists error then identity_conflict else io_failed error

-- How `init` names the signer's errors.
unfoldable pub init_error : FilePath → SignerError → VaultError
init_error path (io error) =
    if is_already_exists error then exists_already path else signer (io error)
init_error path error = signer error

module _ (crypto : FileCrypto) (hex : Hex) (env : Env) where
  unfoldable pub protect_root_secret : Bytes → Bytes → Action VaultError EncryptedIdentityBackup
  protect_root_secret root_secret passphrase =
      if is_empty passphrase then lift (err protection_required) else (do
        encrypted ←
            map_err signer (Custody.encrypt_root_secret crypto hex env root_secret passphrase)
        lift (from_encrypted_bytes encrypted))

  unfoldable pub decrypt_root_secret : EncryptedIdentityBackup → Bytes → Result VaultError Bytes
  decrypt_root_secret self passphrase =
      if is_empty passphrase
      then err protection_required
      else Prelude.map_err (λ _. backup_authentication_failed)
          (decrypt crypto self.encrypted_bytes passphrase)

  unfoldable pub init : IdentityVault → Bytes → Action VaultError (Unit {0})
  init self passphrase =
      map_err (init_error self.path) (Custody.generate crypto hex env self.file passphrase)

  -- Of a file system with POSIX modes; the mode itself is not modelled.
  unfoldable pub backup : IdentityVault → FilePath → Action VaultError (Unit {0})
  backup self dest = do
    here ← exists self.path
    lift (reject (not here) (not_initialized self.path))
    there ← exists dest
    lift (reject there (backup_exists dest))
    content ← map_err io_failed (read env self.path)
    format ← lift (encrypted_backup_format content)
    map_err io_failed (create_dir_all env dest.dir)
    map_err io_failed (create_new env dest)
    map_err io_failed (write_all env dest content)
    map_err io_failed (sync_all env)

  unfoldable pub export_encrypted_backup : IdentityVault → Action VaultError EncryptedIdentityBackup
  export_encrypted_backup self = do
    here ← exists self.path
    lift (reject (not here) (not_initialized self.path))
    encrypted ← map_err io_failed (read env self.path)
    exported ← lift (from_encrypted_bytes encrypted)
    secret ←
        map_err map_backup_authentication_error
          (Custody.load_encrypted_bytes crypto self.file exported.encrypted_bytes)
    lift (ok exported)

  unfoldable pub encrypted_backup_metadata :
      IdentityVault → Action VaultError EncryptedIdentityBackupMetadata
  encrypted_backup_metadata self = do
    here ← exists self.path
    lift (reject (not here) (not_initialized self.path))
    encrypted ← map_err io_failed (read env self.path)
    found ← lift (from_encrypted_bytes encrypted)
    lift (ok found.metadata)

  -- The comparison of the secrets takes constant time, which is not modelled.
  unfoldable pub compare_custody : IdentityVault → Bytes → Action VaultError IdentityRestoreOutcome
  compare_custody self backup_secret = do
    existing_bytes ← map_err io_failed (read env self.path)
    existing_secret ←
        map_err (λ _. custody_unavailable)
          (Custody.load_encrypted_bytes crypto self.file existing_bytes)
    lift (
        if bytes_eq existing_secret backup_secret
        then ok already_present
        else err identity_conflict)

  unfoldable pub restore_encrypted_backup :
      IdentityVault → EncryptedIdentityBackup → Action VaultError IdentityRestoreOutcome
  restore_encrypted_backup self artifact = do
    backup_secret ←
        map_err map_backup_authentication_error
          (Custody.load_encrypted_bytes crypto self.file artifact.encrypted_bytes)
    here ← exists self.path
    if here then compare_custody self backup_secret else (do
      map_err restore_error (write_exclusive env self.path artifact.encrypted_bytes)
      lift (ok restored))

  unfoldable pub unlock : IdentityVault → Action VaultError Bytes
  unlock self = do
    here ← exists self.path
    lift (reject (not here) (not_initialized self.path))
    map_err signer (Custody.root_secret crypto hex env self.file)

-- The names that are no labels, in their order.
unfoldable pub validate_agent_names : List Bytes → List Bytes
validate_agent_names [] = []
validate_agent_names (name ∷ names) =
    let rest = validate_agent_names names in
    if is_err (validate_label name) then name ∷ rest else rest
