-- ===== src/Vault/Twice.antt =====
-- src/vault.rs: installing a backup where no call fails.
use styrene_identity.Prelude.{ℕ, suc, ◌≡◌, ap, none, Result, ok, Bytes, arith}
use styrene_identity.FileSystem.{
  FilePath, IoError, Env, World, create_dir_all, create_new, write_all, sync_all, lift, map_err,
}
use styrene_identity.FileSystem.Steps.{bind-ok, map_err-ok}
use styrene_identity.External.Hex.{Hex}
use styrene_identity.FileSigner.{FileCrypto}
use styrene_identity.Vault.{
  IdentityVault, EncryptedIdentityBackup, restore_error, write_exclusive, restored,
}
use styrene_identity.Vault.Restore.{install}

module _ (env : Env) (clear : (time : ℕ) → env.fault time ≡ none) (crypto : FileCrypto) (hex : Hex)
    (self : IdentityVault) where
  write_exclusive-done :
      (path : FilePath) (content : Bytes) (w : World)
      → w.files path ≡ none
      → (write_exclusive env path content w).0 ≡ ok tt
  unfolding write_exclusive create_dir_all create_new write_all sync_all
  write_exclusive-done path content w absent = ground (
    arith,
    clear w.time,
    clear (suc w.time),
    clear (suc (suc w.time)),
    clear (suc (suc (suc w.time))),
  )

  pub install-done :
      (artifact : EncryptedIdentityBackup) (w : World)
      → w.files self.path ≡ none
      → (install env crypto hex self artifact w).0 ≡ ok restored
  install-done artifact w absent =
      let put = write_exclusive env self.path artifact.encrypted_bytes in
      let e = write_exclusive-done self.path artifact.encrypted_bytes w absent in
      ap (λ r. r.0)
        (bind-ok (map_err restore_error put) (λ _. lift (ok restored))
          (map_err-ok restore_error put (
            ap
              (λ (r : Result IoError (Unit {0})).
                let s : Result IoError (Unit {0}) × World = (r, (put w).1) in s)
              e)))
