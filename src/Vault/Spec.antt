-- ===== src/Vault/Spec.antt =====
-- What the vault of src/vault.rs promises about one identity file: a state that knows what a
-- passphrase opens, and not the bytes, paths and steps behind it.
use styrene_identity.Prelude.{
  ℕ, suc, map_err, Result, ok, err, Option, none, some, List, [], ◌∷◌, if◌then◌else◌, Bytes,
  bytes_eq,
}
use styrene_identity.FileSystem.{FilePath, Env, World}
use styrene_identity.External.Hex.{Hex}
use styrene_identity.FileSigner.{FileCrypto, SignerError, opened_by, decrypt}
use styrene_identity.Vault.{
  VaultError, signer, not_initialized, custody_unavailable, identity_conflict,
  IdentityRestoreOutcome, restored, already_present, IdentityVault, EncryptedIdentityBackup,
  map_backup_authentication_error, restore_encrypted_backup, unlock,
}

-- There is no identity, or there is a sealed one, known by what each passphrase opens.
pub data Custody : Type 0 where
  absent : Custody
  sealed : (Bytes → Result SignerError Bytes) → Custody

-- The custody, and the number of passphrases that the provider was asked for.
abbrev pub State : Type 0
State = Custody × ℕ

pub data Response : Type 0 where
  unlocked : Result VaultError Bytes → Response
  restoration : Result VaultError IdentityRestoreOutcome → Response

-- What two secrets are to each other, where the second is in custody.
abbrev pub compared : Bytes → Result SignerError Bytes → Result VaultError IdentityRestoreOutcome
compared secret (ok existing) =
    if bytes_eq existing secret then ok already_present else err identity_conflict
compared secret (err _) = err custody_unavailable

module _ (provider : ℕ → Result SignerError Bytes) where
  -- Only an identity that is there is asked a passphrase for.
  unfoldable pub spec_unlock : FilePath → Custody → ℕ → Result VaultError Bytes × State
  spec_unlock path absent asked = (err (not_initialized path), (absent, asked))
  spec_unlock path (sealed decrypts) asked =
      (map_err signer (opened_by (provider asked) decrypts), (sealed decrypts, suc asked))

  -- With the backup open, it is installed where there is nothing, and compared otherwise.
  unfoldable pub spec_install :
      (Bytes → Result SignerError Bytes)
      → Bytes
      → Custody
      → ℕ
      → Result VaultError IdentityRestoreOutcome × State
  spec_install backup secret absent asked = (ok restored, (sealed backup, asked))
  spec_install backup secret (sealed decrypts) asked =
      (compared secret (opened_by (provider asked) decrypts), (sealed decrypts, suc asked))

  unfoldable pub spec_restore :
      (Bytes → Result SignerError Bytes)
      → Custody
      → ℕ
      → Result VaultError IdentityRestoreOutcome × State
  spec_restore backup custody asked = elim (opened_by (provider asked) backup) [
    | err why ↦ (err (map_backup_authentication_error why), (custody, suc asked))
    | ok secret ↦ spec_install backup secret custody (suc asked)
  ]

pub data Command : Type 0 where
  unlock_identity : Command
  restore_backup : EncryptedIdentityBackup → Command

module _ (crypto : FileCrypto) (self : IdentityVault) where
  -- The custody that a file's content stands for.
  unfoldable pub custody_of : Option Bytes → Custody
  custody_of none = absent
  custody_of (some b) = sealed (decrypt crypto b)

  unfoldable pub spec_execute : Command → State → Response × State
  spec_execute unlock_identity state =
      let after = spec_unlock self.file.passphrase_provider self.path state.0 state.1 in
      (unlocked after.0, after.1)
  spec_execute (restore_backup artifact) state =
      let after =
        spec_restore self.file.passphrase_provider (decrypt crypto artifact.encrypted_bytes) state.0
          state.1 in
      (restoration after.0, after.1)

  unfoldable pub spec_run : List Command → State → List Response × State
  spec_run [] state = ([], state)
  spec_run (command ∷ commands) state =
      let first = spec_execute command state in
      let rest = spec_run commands first.1 in (first.0 ∷ rest.0, rest.1)

  module _ (hex : Hex) (env : Env) where
    unfoldable pub execute : Command → World → Response × World
    execute unlock_identity w =
        let after = unlock crypto hex env self w in (unlocked after.0, after.1)
    execute (restore_backup artifact) w =
        let after = restore_encrypted_backup crypto hex env self artifact w in
        (restoration after.0, after.1)

    unfoldable pub run : List Command → World → List Response × World
    run [] w = ([], w)
    run (command ∷ commands) w =
        let first = execute command w in
        let rest = run commands first.1 in (first.0 ∷ rest.0, rest.1)
