-- ===== src/Vault/Protect.antt =====
-- src/vault.rs: a root secret that is protected as a backup is read back from it.
use styrene_identity.Prelude.{
  ℕ, ◌≡◌, ◌≢◌, refl, ap, ◌∙◌, false, [], ◌∷◌, ◌++◌, ok, length, take, Bytes, is_empty, bytes_eq_iff,
  arith,
}
use styrene_identity.FileSystem.{Env, World, tick, lift, map_err}
use styrene_identity.FileSystem.Steps.{bind-ok, map_err-ok}
use styrene_identity.External.Hex.{Hex}
use styrene_identity.FileSigner.{FileCrypto, seal, magic}
use styrene_identity.FileSigner.RoundTrip.{IsFileCrypto, decrypt-seal}
use styrene_identity.FileSigner.Custody.{encrypt_root_secret}
use styrene_identity.FileSigner.Custody.Saved.{encrypt_root_secret-ok}
use styrene_identity.Vault.{
  EncryptedIdentityBackup, stid_v1, from_encrypted_bytes, encrypted_backup_format,
  protect_root_secret, decrypt_root_secret, signer,
}

module _ (crypto : FileCrypto) (law : IsFileCrypto crypto) (hex : Hex) (env : Env)
    (drawn : (time n : ℕ) → length (env.random time n) ≡ n) where
  seal-starts_with :
      (salt nonce secret passphrase file : Bytes)
      → seal crypto salt nonce secret passphrase ≡ ok file
      → take 5 file ≡ magic ++ (1 ∷ [])
  unfolding seal
  seal-starts_with salt nonce secret passphrase file h = ground arith

  encrypted_backup_format_current :
      (file : Bytes)
      → length file ≡ 97
      → take 5 file ≡ magic ++ (1 ∷ [])
      → encrypted_backup_format file ≡ ok stid_v1
  unfolding encrypted_backup_format
  encrypted_backup_format_current file size start =
      ground (arith, bytes_eq_iff (take 5 file) (magic ++ (1 ∷ [])))

  abbrev backup_of : Bytes → EncryptedIdentityBackup
  backup_of file = record {
    metadata = record { contract_version = 1; format = stid_v1; encrypted_size = length file };
    encrypted_bytes = file;
  }

  from_encrypted_bytes_current :
      (file : Bytes)
      → encrypted_backup_format file ≡ ok stid_v1
      → from_encrypted_bytes file ≡ ok (backup_of file)
  unfolding from_encrypted_bytes
  from_encrypted_bytes_current file h = rw (from_encrypted_bytes, h) refl

  module _ (secret passphrase : Bytes) (w : World) (file : Bytes)
      (sealed : seal crypto (env.random w.time 32) (env.random (tick w).time 12) secret passphrase
        ≡ ok file) where
    protect_root_secret-ok :
        is_empty passphrase ≡ false
        → (protect_root_secret crypto hex env secret passphrase w).0 ≡ from_encrypted_bytes file
    unfolding protect_root_secret
    protect_root_secret-ok some_passphrase = rw some_passphrase (
        ap (λ r. r.0)
          (bind-ok (map_err signer (encrypt_root_secret crypto hex env secret passphrase))
            (λ e. lift (from_encrypted_bytes e))
            (map_err-ok signer (encrypt_root_secret crypto hex env secret passphrase)
              (encrypt_root_secret-ok crypto hex env secret passphrase file w sealed))))

  -- A 32-byte root secret and a passphrase that is not empty make a backup of the current format,
  -- and the backup gives the secret under that passphrase.
  pub decrypt_root_secret-protect_root_secret :
      (secret passphrase : Bytes) (w : World)
      → length secret ≡ 32
      → passphrase ≢ []
      → (b : EncryptedIdentityBackup) × ((protect_root_secret crypto hex env secret passphrase w).0
          ≡ ok b)
        × (b.metadata.format ≡ stid_v1)
        × (decrypt_root_secret crypto hex env b passphrase ≡ ok secret)
  unfolding decrypt_root_secret
  decrypt_root_secret-protect_root_secret secret [] w size some_passphrase =
      absurd (some_passphrase refl)
  decrypt_root_secret-protect_root_secret secret (c ∷ passphrase) w size some_passphrase =
      let salt = env.random w.time 32 in
      let nonce = env.random (tick w).time 12 in
      let (file, sealed, long, opens, _) =
        decrypt-seal crypto law salt nonce secret (c ∷ passphrase) (drawn w.time 32)
          (drawn (tick w).time 12) size in
      let start = seal-starts_with salt nonce secret (c ∷ passphrase) file sealed in
      let made =
        from_encrypted_bytes_current file (encrypted_backup_format_current file long start) in
      (
        backup_of file,
        protect_root_secret-ok secret (c ∷ passphrase) w file sealed refl ∙ made,
        refl,
        rw opens refl,
      )
