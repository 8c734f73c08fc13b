-- ===== src/Vault/Keeps.antt =====
-- src/vault.rs: what the vault does to files that are there.
use styrene_identity.Prelude.{
  Bool, true, false, not, ok, err, if◌then◌else◌, Bytes, reject, bytes_eq, arith,
}
use styrene_identity.FileSystem.{FilePath, Env, ◌>>◌, lift, map_err, exists, read}
use styrene_identity.External.Hex.{Hex}
use styrene_identity.FileSigner.{FileCrypto}
use styrene_identity.FileSigner.Custody.Exclusive.{
  Keeps, load_encrypted_bytes-Keeps, bind-Keeps, map_err-Keeps, lift-Keeps, create_dir_all-Keeps,
  create_new-Keeps, create_then-Keeps, write_all-Keeps, sync_all-Keeps,
}
use styrene_identity.FileSigner.Custody.Generate.{generate-Keeps}
use styrene_identity.Vault.{
  VaultError, io_failed, init_error, restore_error, IdentityVault, EncryptedIdentityBackup,
  encrypted_backup_format, write_exclusive, init, backup, compare_custody, restore_encrypted_backup,
  not_initialized, backup_exists, custody_unavailable, identity_conflict, already_present, restored,
  map_backup_authentication_error,
}

module _ (q : FilePath) (content : Bytes) where
  pub exists-Keeps : (p : FilePath) → Keeps q content {E = VaultError} (exists p)
  unfolding exists
  exists-Keeps p = record { keep = λ w here. here }

  module _ (env : Env) where
    pub read-Keeps : (p : FilePath) → Keeps q content (read env p)
    unfolding read
    read-Keeps p = record { keep = λ w here. ground arith }

    pub write_exclusive-Keeps :
        (p : FilePath) (b : Bytes)
        → Keeps q content (map_err restore_error (write_exclusive env p b))
    unfolding write_exclusive
    write_exclusive-Keeps p b = map_err-Keeps q content restore_error _ (
        bind-Keeps q content _ _ (create_dir_all-Keeps q content env p.dir) λ _.
          create_then-Keeps q content env p _ λ ne.
            bind-Keeps q content _ _ (write_all-Keeps q content env p b ne)
              λ _. sync_all-Keeps q content env)

  module _ (crypto : FileCrypto) (hex : Hex) (env : Env) where
    pub init-Keeps :
        (self : IdentityVault) (passphrase : Bytes)
        → Keeps q content (init crypto hex env self passphrase)
    unfolding init
    init-Keeps self passphrase =
        map_err-Keeps q content (init_error self.path) _
          (generate-Keeps q content crypto hex env self.file passphrase)

    pub backup-Keeps :
        (self : IdentityVault) (dest : FilePath) → Keeps q content (backup crypto hex env self dest)
    unfolding backup
    backup-Keeps self dest = bind-Keeps q content _ _ (exists-Keeps self.path) λ here.
        bind-Keeps q content _ _
          (lift-Keeps q content (reject (not here) (not_initialized self.path)))
          λ _. bind-Keeps q content _ _ (exists-Keeps dest) λ there.
            bind-Keeps q content _ _ (lift-Keeps q content (reject there (backup_exists dest))) λ _.
              bind-Keeps q content _ _
                (map_err-Keeps q content io_failed _ (read-Keeps env self.path))
                λ b.
                  bind-Keeps q content _ _ (lift-Keeps q content (encrypted_backup_format b))
                    λ format.
                      bind-Keeps q content _ _
                        (map_err-Keeps q content io_failed _
                          (create_dir_all-Keeps q content env dest.dir))
                        λ _. create_new-Keeps q content env io_failed dest _ λ ne.
                          bind-Keeps q content _ _
                            (map_err-Keeps q content io_failed _
                              (write_all-Keeps q content env dest b ne))
                            λ _. map_err-Keeps q content io_failed _ (sync_all-Keeps q content env)

    compare_custody-Keeps :
        (self : IdentityVault) (secret : Bytes)
        → Keeps q content (compare_custody crypto hex env self secret)
    unfolding compare_custody
    compare_custody-Keeps self secret =
        bind-Keeps q content _ _ (map_err-Keeps q content io_failed _ (read-Keeps env self.path))
          λ b.
            bind-Keeps q content _ _
              (map_err-Keeps q content (λ _. custody_unavailable) _
                (load_encrypted_bytes-Keeps q content crypto self.file b))
              λ existing.
                lift-Keeps q content
                  (if bytes_eq existing secret then ok already_present else err identity_conflict)

    branch-Keeps :
        (self : IdentityVault) (artifact : EncryptedIdentityBackup) (secret : Bytes) (here : Bool)
        → Keeps q content (
            if here then compare_custody crypto hex env self secret else (do
              map_err restore_error (write_exclusive env self.path artifact.encrypted_bytes)
              lift (ok restored)))
    branch-Keeps self artifact secret true = compare_custody-Keeps self secret
    branch-Keeps self artifact secret false =
        bind-Keeps q content _ _ (write_exclusive-Keeps env self.path artifact.encrypted_bytes)
          λ _. lift-Keeps q content (ok restored)

    pub restore-Keeps :
        (self : IdentityVault) (artifact : EncryptedIdentityBackup)
        → Keeps q content (restore_encrypted_backup crypto hex env self artifact)
    unfolding restore_encrypted_backup
    restore-Keeps self artifact =
        bind-Keeps q content _ _
          (map_err-Keeps q content map_backup_authentication_error _
            (load_encrypted_bytes-Keeps q content crypto self.file artifact.encrypted_bytes))
          λ secret.
            bind-Keeps q content _ _ (exists-Keeps self.path)
              λ here. branch-Keeps self artifact secret here

    -- A file that exists when an operation of the vault begins holds the same content when it
    -- ends, whatever calls fail: creating an identity, making a backup and restoring one
    -- overwrite nothing, neither at the vault's path nor elsewhere.
    pub init-backup_restore-Keeps :
        (self : IdentityVault) (passphrase : Bytes) (dest : FilePath)
        (artifact : EncryptedIdentityBackup)
        → Keeps q content (init crypto hex env self passphrase)
          × Keeps q content (backup crypto hex env self dest)
          × Keeps q content (restore_encrypted_backup crypto hex env self artifact)
    init-backup_restore-Keeps self passphrase dest artifact =
        (init-Keeps self passphrase, backup-Keeps self dest, restore-Keeps self artifact)
