-- ===== src/Vault/Restore.antt =====
-- src/vault.rs: what restoring a backup has done when it returns.
use styrene_identity.Prelude.{
  ℕ, suc, ◌≡◌, ◌≢◌, refl, ap, sym, ◌∙◌, Bool, true, false, not, Option, Option-cases, some, none,
  is_some, Result, Result-cases, ok, err, if◌then◌else◌, Bytes, reject, bytes_eq, bytes_eq_iff, inl,
  inr, ◌⊎◌, Bool-cases, arith,
}
use styrene_identity.Prelude
use styrene_identity.FileSystem.{
  FilePath, path_eq_iff, IoError, Env, World, Action, ask, ◌>>=◌, ◌>>◌, lift, map_err, exists, tick,
  read, create_new, write_all, sync_all, create_dir_all,
}
use styrene_identity.FileSystem.Steps.{bind-ok, map_err-ok, bind-err, map_err-err}
use styrene_identity.External.Hex.{Hex}
use styrene_identity.FileSigner.{FileCrypto, SignerError, opened_by, decrypt}
use styrene_identity.FileSigner.Custody.{load_encrypted_bytes}
use styrene_identity.Vault.{
  VaultError, io_failed, restore_error, IdentityVault, EncryptedIdentityBackup, write_exclusive,
  compare_custody, IdentityRestoreOutcome, restore_encrypted_backup, custody_unavailable,
  map_backup_authentication_error, identity_conflict, already_present, restored,
}

module _ (env : Env) where
  -- What was written exclusively is there, where nothing was.
  pub write_exclusive-ok :
      (path : FilePath) (content : Bytes) (w : World)
      → (write_exclusive env path content w).0 ≡ ok tt
      → (w.files path ≡ none) × ((write_exclusive env path content w).1.files path ≡ some content)
  unfolding write_exclusive create_dir_all create_new write_all sync_all
  write_exclusive-ok path content w done = ground (arith, path_eq_iff path path)

  module _ (crypto : FileCrypto) (hex : Hex) (self : IdentityVault) where
    pub read_file :
        (w : World) (b : Bytes)
        → env.fault w.time ≡ none
        → w.files self.path ≡ some b
        → read env self.path w ≡ (ok b, tick w)
    unfolding read
    read_file w b f g = ground arith

    -- What the provider opens of a content with its answer to the next call.
    abbrev pub opened : World → Bytes → Result SignerError Bytes
    opened w b = opened_by (self.file.passphrase_provider w.asked) (decrypt crypto b)

    pub load_encrypted_bytes-opened :
        (w : World) (b : Bytes) → load_encrypted_bytes crypto self.file b w ≡ (opened w b, ask w)
    unfolding load_encrypted_bytes opened_by
    load_encrypted_bytes-opened w b = elim (Result-cases (self.file.passphrase_provider w.asked)) [
      | inl (passphrase, p) ↦ rw (p, ◌>>=◌, lift) refl
      | inr (why, p) ↦ rw (p, ◌>>=◌, lift) refl
    ]

    -- What `compare_custody` does with the existing file.
    abbrev pub judge : Bytes → Bytes → Action VaultError IdentityRestoreOutcome
    judge secret existing_bytes = do
      existing_secret ←
          map_err (λ _. custody_unavailable) (load_encrypted_bytes crypto self.file existing_bytes)
      lift (if bytes_eq existing_secret secret then ok already_present else err identity_conflict)

    loads :
        (w : World) (b : Bytes) {r : Result SignerError Bytes}
        → opened w b ≡ r
        → load_encrypted_bytes crypto self.file b w ≡ (r, ask w)
    loads w b e =
        load_encrypted_bytes-opened w b
        ∙ ap
            (λ (r : Result SignerError Bytes).
              let s : Result SignerError Bytes × World = (r, ask w) in s)
            e

    judge_lem :
        (secret : Bytes) (w : World) (b : Bytes)
        → judge secret b w ≡ (
          elim (opened w b) [
            | ok a ↦ if bytes_eq a secret then ok already_present else err identity_conflict
            | err e ↦ err custody_unavailable
          ],
          ask w,
        )
    judge_lem secret w b =
        let load = load_encrypted_bytes crypto self.file b in
        let refuse : SignerError → VaultError = λ _. custody_unavailable in
        let finish : Bytes → Action VaultError IdentityRestoreOutcome =
          λ a. lift (if bytes_eq a secret then ok already_present else err identity_conflict) in
        elim (Result-cases (opened w b)) [
          | inr (why, l) ↦
              bind-err (map_err refuse load) finish (map_err-err refuse load (loads w b l))
              ∙ rw l refl
          | inl (a, l) ↦
              bind-ok (map_err refuse load) finish (map_err-ok refuse load (loads w b l))
              ∙ rw l refl
        ]

    pub compare_lem :
        (secret : Bytes) (w : World) (b : Bytes)
        → read env self.path w ≡ (ok b, tick w)
        → compare_custody crypto hex env self secret w ≡ (
          elim (opened (tick w) b) [
            | ok a ↦ if bytes_eq a secret then ok already_present else err identity_conflict
            | err e ↦ err custody_unavailable
          ],
          ask (tick w),
        )
    unfolding compare_custody
    compare_lem secret w b e =
        bind-ok (map_err io_failed (read env self.path)) (judge secret)
          (map_err-ok io_failed (read env self.path) e)
        ∙ judge_lem secret (tick w) b

    compare_custody-ok :
        (secret : Bytes) (w : World) {outcome : IdentityRestoreOutcome}
        → (compare_custody crypto hex env self secret w).0 ≡ ok outcome
        → (outcome ≡ already_present)
          × ((compare_custody crypto hex env self secret w).1.files ≡ w.files)
          × ((b : Bytes) × (w.files self.path ≡ some b) × (opened w b ≡ ok secret))
    unfolding compare_custody read
    compare_custody-ok secret w done = elim (Option-cases (env.fault w.time)) [
      | inr (e, f) ↦ absurd (ground arith)
      | inl f ↦ elim (Option-cases (w.files self.path)) [
        | inl g ↦ absurd (ground arith)
        | inr (b, g) ↦ elim (Result-cases (opened w b)) [
          | inr (why, l) ↦ absurd (
              let done' = rw (compare_lem secret w b (read_file w b f g), l) at done in
              ground arith)
          | inl (a, l) ↦
              let known = compare_lem secret w b (read_file w b f g) in
              let done' = rw (known, l) at done in
              elim (Bool-cases (bytes_eq a secret)) [
                | inr t ↦ absurd (let done2 = rw t at done' in ground arith)
                | inl t ↦ (
                  sym (Prelude.ok-injective (rw t at done')),
                  ap (λ r. r.1.files) known,
                  (b, g, l ∙ ap ok ((bytes_eq_iff a secret).0 t)),
                )
              ]
        ]
      ]
    ]

    abbrev pub install : EncryptedIdentityBackup → Action VaultError IdentityRestoreOutcome
    install artifact = do
      map_err restore_error (write_exclusive env self.path artifact.encrypted_bytes)
      lift (ok restored)

    pub install-ok :
        (artifact : EncryptedIdentityBackup) (w : World) {outcome : IdentityRestoreOutcome}
        → (install artifact w).0 ≡ ok outcome
        → (outcome ≡ restored)
          × (w.files self.path ≡ none)
          × ((install artifact w).1.files self.path ≡ some artifact.encrypted_bytes)
    install-ok artifact w done =
        elim (Result-cases (write_exclusive env self.path artifact.encrypted_bytes w).0) [
          | inr (why, e) ↦ absurd (let done' = rw (◌>>=◌, map_err, e) at done in ground arith)
          | inl (a, e) ↦
              let put = write_exclusive env self.path artifact.encrypted_bytes in
              let made = write_exclusive-ok self.path artifact.encrypted_bytes w e in
              let known =
                bind-ok (map_err restore_error put) (λ _. lift (ok restored))
                  (map_err-ok restore_error put (
                    ap
                      (λ (r : Result IoError (Unit {0})).
                        let s : Result IoError (Unit {0}) × World = (r, (put w).1) in s)
                      e)) in
              (
                sym (Prelude.ok-injective (sym (ap (λ r. r.0) known) ∙ done)),
                made.0,
                ap (λ r. r.1.files self.path) known ∙ made.1,
              )
        ]

    pub install-asked :
        (artifact : EncryptedIdentityBackup) (w : World) → (install artifact w).1.asked ≡ w.asked
    unfolding write_exclusive create_dir_all create_new write_all sync_all
    install-asked artifact w = ground arith

    -- What a restore does once the backup is open.
    abbrev pub install_or_compare :
        EncryptedIdentityBackup → Bytes → Action VaultError IdentityRestoreOutcome
    install_or_compare artifact secret = do
      here ← exists self.path
      if here then compare_custody crypto hex env self secret else install artifact

    pub restore_locked :
        (artifact : EncryptedIdentityBackup) (w : World) (why : SignerError)
        → opened w artifact.encrypted_bytes ≡ err why
        → restore_encrypted_backup crypto hex env self artifact w
          ≡ (err (map_backup_authentication_error why), ask w)
    unfolding restore_encrypted_backup
    restore_locked artifact w why l =
        let load = load_encrypted_bytes crypto self.file artifact.encrypted_bytes in
        bind-err (map_err map_backup_authentication_error load) (install_or_compare artifact)
          (map_err-err map_backup_authentication_error load (loads w artifact.encrypted_bytes l))

    restore_opened :
        (artifact : EncryptedIdentityBackup) (w : World) (secret : Bytes)
        → opened w artifact.encrypted_bytes ≡ ok secret
        → restore_encrypted_backup crypto hex env self artifact w
          ≡ install_or_compare artifact secret (ask w)
    unfolding restore_encrypted_backup
    restore_opened artifact w secret l =
        let load = load_encrypted_bytes crypto self.file artifact.encrypted_bytes in
        bind-ok (map_err map_backup_authentication_error load) (install_or_compare artifact)
          (map_err-ok map_backup_authentication_error load (loads w artifact.encrypted_bytes l))

    module _ (artifact : EncryptedIdentityBackup) (w : World) (secret : Bytes)
        (opens : opened w artifact.encrypted_bytes ≡ ok secret) where
      pub restore_absent :
          w.files self.path ≡ none
          → restore_encrypted_backup crypto hex env self artifact w ≡ install artifact (ask w)
      unfolding exists
      restore_absent g = restore_opened artifact w secret opens ∙ rw (◌>>=◌, g) refl

      pub restore_present :
          (b : Bytes)
          → w.files self.path ≡ some b
          → restore_encrypted_backup crypto hex env self artifact w
            ≡ compare_custody crypto hex env self secret (ask w)
      unfolding exists
      restore_present b g = restore_opened artifact w secret opens ∙ rw (◌>>=◌, g) refl

    -- A restore that succeeds has opened the backup with the provider's passphrase, and either
    -- there was no identity file and the file now holds the backup's bytes, or there was one, it
    -- holds the same secret under the provider's next answer, and no file has changed.
    pub restore_encrypted_backup-ok :
        (artifact : EncryptedIdentityBackup) (w : World) {outcome : IdentityRestoreOutcome}
        → (restore_encrypted_backup crypto hex env self artifact w).0 ≡ ok outcome
        → (secret : Bytes) × (opened w artifact.encrypted_bytes ≡ ok secret)
          × (((outcome ≡ restored)
                × (w.files self.path ≡ none)
                × ((restore_encrypted_backup crypto hex env self artifact w).1.files self.path
                    ≡ some artifact.encrypted_bytes))
              ⊎ ((outcome ≡ already_present)
                  × ((restore_encrypted_backup crypto hex env self artifact w).1.files ≡ w.files)
                  × ((b : Bytes) × (w.files self.path ≡ some b) × (opened (ask w) b ≡ ok secret))))
    restore_encrypted_backup-ok artifact w done =
        elim (Result-cases (opened w artifact.encrypted_bytes)) [
          | inr (why, l) ↦ absurd (
              let refused = sym (ap (λ r. r.0) (restore_locked artifact w why l)) ∙ done in
              ground arith)
          | inl (secret, l) ↦ elim (Option-cases (w.files self.path)) [
            | inl g ↦
                let known = restore_absent artifact w secret l g in
                let made = install-ok artifact (ask w) (sym (ap (λ r. r.0) known) ∙ done) in
                (secret, l, inl (made.0, made.1, ap (λ r. r.1.files self.path) known ∙ made.2))
            | inr (b, g) ↦
                let known = restore_present artifact w secret l b g in
                let same = compare_custody-ok secret (ask w) (sym (ap (λ r. r.0) known) ∙ done) in
                (secret, l, inr (same.0, ap (λ r. r.1.files) known ∙ same.1, same.2))
          ]
        ]
