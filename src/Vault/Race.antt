-- ===== src/Vault/Race.antt =====
-- src/vault.rs: two restores of one identity file that both found it absent.
use styrene_identity.Prelude.{◌≡◌, inl, inr, some, Result-cases, ok, err, Bytes, arith}
use styrene_identity.FileSystem.{FilePath, Env, World}
use styrene_identity.External.Hex.{Hex}
use styrene_identity.FileSigner.{FileCrypto}
use styrene_identity.FileSigner.Custody.Exclusive.{Keeps, bind-Keeps, lift-Keeps}
use styrene_identity.Vault.{
  VaultError, IdentityVault, EncryptedIdentityBackup, IdentityRestoreOutcome, restored,
}
use styrene_identity.Vault.Keeps.{write_exclusive-Keeps}
use styrene_identity.Vault.Restore.{install, install-ok}
use styrene_identity.Vault.History.{Reach, Reach-Holds}

module _ (env : Env) (crypto : FileCrypto) (hex : Hex) (self : IdentityVault) where
  install-Keeps :
      (q : FilePath) (content : Bytes) (artifact : EncryptedIdentityBackup)
      → Keeps q content (install env crypto hex self artifact)
  install-Keeps q content artifact =
      bind-Keeps q content _ _
        (write_exclusive-Keeps q content env self.path artifact.encrypted_bytes)
        λ _. lift-Keeps q content (ok restored)

  -- Two restores may both find the identity file absent before either writes it. Where one of them
  -- has then written it, and any operations on vaults have run since, the other one fails, and the
  -- file holds the backup of the first.
  pub install-race :
      (rival artifact : EncryptedIdentityBackup) (w v : World) {outcome : IdentityRestoreOutcome}
      → (install env crypto hex self rival w).0 ≡ ok outcome
      → Reach crypto hex env (install env crypto hex self rival w).1 v
      → ((why : VaultError) × ((install env crypto hex self artifact v).0 ≡ err why))
        × ((install env crypto hex self artifact v).1.files self.path ≡ some rival.encrypted_bytes)
  install-race rival artifact w v won run =
      let (_, _, there) = install-ok env crypto hex self rival w won in
      let still = Reach-Holds crypto hex env self.path rival.encrypted_bytes run there in
      (
        elim (Result-cases (install env crypto hex self artifact v).0) [
          | inr (why, e) ↦ (why, e)
          | inl (second, e) ↦
              let (_, absent, _) = install-ok env crypto hex self artifact v e in
              absurd (ground arith)
        ],
        (install-Keeps self.path rival.encrypted_bytes artifact).keep v still,
      )
