-- ===== src/Vault/History.antt =====
-- src/vault.rs and src/file_signer.rs: every sequence of operations on vaults and identity files.
use styrene_identity.Prelude.{
  ◌≡◌, ◌⊎◌, inl, inr, refl, sym, ap, ◌∙◌, not, Bool, true, false, Option, Option-cases, none, some,
  is_some, Result, Result-cases, ok, err, reject, List, Bytes, arith,
}
use styrene_identity.Prelude
use styrene_identity.FileSystem.{FilePath, IoError, Env, World, lift, exists, read}
use styrene_identity.External.Ed25519.{Ed25519}
use styrene_identity.External.Hex.{Hex}
use styrene_identity.Derive.{Hkdf}
use styrene_identity.FileSigner.{FileCrypto, FileSigner, io, opened_by, decrypt}
use styrene_identity.FileSigner.Custody
use styrene_identity.FileSigner.Custody.Exclusive.{
  Keeps, get_passphrase-Keeps, load_encrypted_bytes-Keeps, bind-Keeps, map_err-Keeps, lift-Keeps,
}
use styrene_identity.FileSigner.Custody.Generate.{generate-Keeps, restore_root_secret-Keeps}
use styrene_identity.Vault
use styrene_identity.Vault.{
  VaultError, signer, io_failed, not_initialized, IdentityVault, EncryptedIdentityBackup,
  export_encrypted_backup, encrypted_backup_metadata, unlock, from_encrypted_bytes,
  map_backup_authentication_error, restore_encrypted_backup,
}
use styrene_identity.Vault.Keeps.{exists-Keeps, read-Keeps, init-Keeps, backup-Keeps, restore-Keeps}

module _ (crypto : FileCrypto) (hex : Hex) (env : Env) where
  module _ (q : FilePath) (content : Bytes) where
    reject-Keeps :
        (path : FilePath) (here : Bool)
        → Keeps q content (lift (reject (not here) (not_initialized path)))
    reject-Keeps path here = lift-Keeps q content (reject (not here) (not_initialized path))

    export-Keeps :
        (self : IdentityVault) → Keeps q content (export_encrypted_backup crypto hex env self)
    unfolding export_encrypted_backup
    export-Keeps self = bind-Keeps q content _ _ (exists-Keeps q content self.path) λ here.
        bind-Keeps q content _ _ (reject-Keeps self.path here) λ _.
          bind-Keeps q content _ _
            (map_err-Keeps q content io_failed _ (read-Keeps q content env self.path))
            λ b.
              bind-Keeps q content _ _ (lift-Keeps q content (from_encrypted_bytes b)) λ exported.
                bind-Keeps q content _ _
                  (map_err-Keeps q content map_backup_authentication_error _ (
                    load_encrypted_bytes-Keeps q content crypto self.file exported.encrypted_bytes))
                  λ _. lift-Keeps q content (ok exported)

    metadata-Keeps :
        (self : IdentityVault) → Keeps q content (encrypted_backup_metadata crypto hex env self)
    unfolding encrypted_backup_metadata
    metadata-Keeps self = bind-Keeps q content _ _ (exists-Keeps q content self.path) λ here.
        bind-Keeps q content _ _ (reject-Keeps self.path here) λ _.
          bind-Keeps q content _ _
            (map_err-Keeps q content io_failed _ (read-Keeps q content env self.path))
            λ b.
              bind-Keeps q content _ _ (lift-Keeps q content (from_encrypted_bytes b))
                λ found. lift-Keeps q content (ok found.metadata)

    root_secret-Keeps :
        (self : FileSigner) → Keeps q content (Custody.root_secret crypto hex env self)
    unfolding Custody.root_secret Custody.load
    root_secret-Keeps self =
        bind-Keeps q content _ _ (get_passphrase-Keeps q content self) λ passphrase.
          bind-Keeps q content _ _
            (map_err-Keeps q content io _ (read-Keeps q content env self.path))
            λ b. lift-Keeps q content (decrypt crypto b passphrase)

    unlock-Keeps : (self : IdentityVault) → Keeps q content (unlock crypto hex env self)
    unfolding unlock
    unlock-Keeps self = bind-Keeps q content _ _ (exists-Keeps q content self.path) λ here.
        bind-Keeps q content _ _ (reject-Keeps self.path here)
          λ _. map_err-Keeps q content signer _ (root_secret-Keeps self.file)

    sign-Keeps :
        (hkdf : Hkdf) (ed : Ed25519) (self : FileSigner) (message : Bytes)
        → Keeps q content (Custody.sign crypto hex env hkdf ed self message)
    unfolding Custody.sign
    sign-Keeps hkdf ed self message =
        bind-Keeps q content _ _ (root_secret-Keeps self) λ root. lift-Keeps q content (ok _)

  -- One operation of any vault or signer, whatever its result.
  pub data Step : World → World → Type 0 where
    init :
        (self : IdentityVault) (passphrase : Bytes) {w : World}
        → Step w (Vault.init crypto hex env self passphrase w).1
    backup :
        (self : IdentityVault) (dest : FilePath) {w : World}
        → Step w (Vault.backup crypto hex env self dest w).1
    export :
        (self : IdentityVault) {w : World}
        → Step w (export_encrypted_backup crypto hex env self w).1
    metadata :
        (self : IdentityVault) {w : World}
        → Step w (encrypted_backup_metadata crypto hex env self w).1
    restore :
        (self : IdentityVault) (artifact : EncryptedIdentityBackup) {w : World}
        → Step w (restore_encrypted_backup crypto hex env self artifact w).1
    unlocked : (self : IdentityVault) {w : World} → Step w (unlock crypto hex env self w).1
    generate :
        (self : FileSigner) (passphrase : Bytes) {w : World}
        → Step w (Custody.generate crypto hex env self passphrase w).1
    restore_secret :
        (self : FileSigner) (secret : Bytes) {w : World}
        → Step w (Custody.restore_root_secret crypto hex env self secret w).1
    root_secret :
        (self : FileSigner) {w : World} → Step w (Custody.root_secret crypto hex env self w).1
    sign :
        (hkdf : Hkdf) (ed : Ed25519) (self : FileSigner) (message : Bytes) {w : World}
        → Step w (Custody.sign crypto hex env hkdf ed self message w).1

  pub data Reach (start : World) : World → Type 0 where
    here : Reach start start
    next : {w v : World} → Reach start w → Step w v → Reach start v

  abbrev Holds : FilePath → Bytes → World → Type 0
  Holds q content w = w.files q ≡ some content

  Step-Holds :
      {w v : World} (q : FilePath) (content : Bytes)
      → Step w v
      → Holds q content w
      → Holds q content v
  Step-Holds q b (init self p {w}) = (init-Keeps q b crypto hex env self p).keep w
  Step-Holds q b (backup self d {w}) = (backup-Keeps q b crypto hex env self d).keep w
  Step-Holds q b (export self {w}) = (export-Keeps q b self).keep w
  Step-Holds q b (metadata self {w}) = (metadata-Keeps q b self).keep w
  Step-Holds q b (restore self a {w}) = (restore-Keeps q b crypto hex env self a).keep w
  Step-Holds q b (unlocked self {w}) = (unlock-Keeps q b self).keep w
  Step-Holds q b (generate self p {w}) = (generate-Keeps q b crypto hex env self p).keep w
  Step-Holds q b (restore_secret self s {w}) =
      (restore_root_secret-Keeps q b crypto hex env self s).keep w
  Step-Holds q b (root_secret self {w}) = (root_secret-Keeps q b self).keep w
  Step-Holds q b (sign hkdf ed self m {w}) = (sign-Keeps q b hkdf ed self m).keep w

  pub Reach-Holds :
      {w v : World} (q : FilePath) (content : Bytes)
      → Reach w v
      → Holds q content w
      → Holds q content v
  Reach-Holds q content here h = h
  Reach-Holds q content (next before step) h =
      Step-Holds q content step (Reach-Holds q content before h)

  module _ (self : IdentityVault) (secret : Bytes) where
    -- What an unlocking that succeeds has found.
    unlock-ok :
        (w : World)
        → (unlock crypto hex env self w).0 ≡ ok secret
        → (a : Bytes) × (b : Bytes) × Holds self.path a w
          × Holds self.file.path b w
          × ((passphrase : Bytes) × (self.file.passphrase_provider w.asked ≡ ok passphrase)
              × (decrypt crypto b passphrase ≡ ok secret))
    unfolding unlock Custody.root_secret Custody.load exists read
    unlock-ok w done = elim (Option-cases (w.files self.path)) [
      | inl g ↦ absurd (ground arith)
      | inr (a, g) ↦ elim (Result-cases (self.file.passphrase_provider w.asked)) [
        | inr (why, p) ↦ absurd (ground arith)
        | inl (passphrase, p) ↦ elim (Option-cases (env.fault w.time)) [
          | inr (e, f) ↦ absurd (ground arith)
          | inl f ↦ elim (Option-cases (w.files self.file.path)) [
            | inl k ↦ absurd (ground arith)
            | inr (b, k) ↦ (a, b, g, k, (passphrase, p, ground arith))
          ]
        ]
      ]
    ]

    unlock-found :
        (v : World) (a b : Bytes)
        → Holds self.path a v
        → Holds self.file.path b v
        → ((unlock crypto hex env self v).0
            ≡ Prelude.map_err signer
                (opened_by (self.file.passphrase_provider v.asked) (decrypt crypto b)))
          ⊎ ((e : IoError) × (env.fault v.time ≡ some e)
              × ((unlock crypto hex env self v).0 ≡ err (signer (io e))))
    unfolding unlock Custody.root_secret Custody.load exists read opened_by
    unlock-found v a b g k = elim (Result-cases (self.file.passphrase_provider v.asked)) [
      | inr (why, p) ↦ inl (ground arith)
      | inl (passphrase, p) ↦ elim (Option-cases (env.fault v.time)) [
        | inr (e, f) ↦ inr (e, f, ground arith)
        | inl f ↦ elim (Result-cases (decrypt crypto b passphrase)) [
          | inr (why, d) ↦ inl (ground arith)
          | inl (found, d) ↦ inl (ground arith)
        ]
      ]
    ]

    pub unlock-Reach :
        {w v : World}
        → Reach w v
        → (unlock crypto hex env self w).0 ≡ ok secret
        → (b : Bytes) × (passphrase : Bytes) × (self.file.passphrase_provider w.asked
            ≡ ok passphrase)
          × (decrypt crypto b passphrase ≡ ok secret)
          × (((unlock crypto hex env self v).0
                ≡ Prelude.map_err signer
                    (opened_by (self.file.passphrase_provider v.asked) (decrypt crypto b)))
              ⊎ ((e : IoError) × (env.fault v.time ≡ some e)
                  × ((unlock crypto hex env self v).0 ≡ err (signer (io e)))))
    unlock-Reach {w} {v} run done =
        let (a, b, g, k, (passphrase, p, d)) = unlock-ok w done in
        (
          b,
          passphrase,
          p,
          d,
          unlock-found v a b (Reach-Holds self.path a run g) (Reach-Holds self.file.path b run k),
        )
