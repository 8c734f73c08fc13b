-- ===== src/Vault/Refine.antt =====
-- src/vault.rs: where no call on the files fails, the vault implements `Spec`.
use styrene_identity.Prelude.{
  ℕ, suc, ◌≡◌, inl, inr, refl, sym, ap, ◌∙◌, Option-cases, none, some, Result, Result-cases, ok,
  err, List, [], ◌∷◌, Bytes, arith,
}
use styrene_identity.FileSystem.{FilePath, Env, World, ask, exists, read}
use styrene_identity.External.Hex.{Hex}
use styrene_identity.FileSigner
use styrene_identity.FileSigner.{FileCrypto, SignerError, opened_by, decrypt}
use styrene_identity.FileSigner.Custody
use styrene_identity.Vault.{
  VaultError, map_backup_authentication_error, IdentityRestoreOutcome, IdentityVault,
  EncryptedIdentityBackup, new, restore_encrypted_backup, unlock,
}
use styrene_identity.Vault.Restore.{
  opened, install-asked, restore_locked, read_file, compare_lem, restore_absent, restore_present,
  install-ok,
}
use styrene_identity.Vault.Twice.{install-done}
use styrene_identity.Vault.Spec.{
  unlocked, restoration, Custody, State, absent, sealed, spec_install, Command, unlock_identity,
  restore_backup, custody_of, spec_unlock, spec_restore, spec_execute, spec_run, execute, run,
}

module _ (env : Env) (clear : (time : ℕ) → env.fault time ≡ none) (crypto : FileCrypto) (hex : Hex)
    (path : FilePath) (provider : ℕ → Result SignerError Bytes) where
  -- The vault that `new` makes.
  abbrev pub self : IdentityVault
  self = record { file = record { path = path; passphrase_provider = provider }; path = path }

  self-new : self ≡ new path provider
  unfolding new FileSigner.new
  self-new = refl

  abbrev pub abstract_state : World → State
  abstract_state w = (custody_of crypto self (w.files path), w.asked)

  -- An operation with its result and the abstract state it leaves.
  abbrev pub unlocking : World → Result VaultError Bytes × State
  unlocking w = let after = unlock crypto hex env self w in (after.0, abstract_state after.1)

  abbrev restoring :
      EncryptedIdentityBackup → World → Result VaultError IdentityRestoreOutcome × State
  restoring artifact w =
      let after = restore_encrypted_backup crypto hex env self artifact w in
      (after.0, abstract_state after.1)

  pub unlock-refines :
      (w : World)
      → unlocking w ≡ spec_unlock provider path (custody_of crypto self (w.files path)) w.asked
  unfolding unlock Custody.root_secret Custody.load exists read custody_of spec_unlock opened_by
  unlock-refines w = elim (Option-cases (w.files path)) [
    | inl g ↦ ground arith
    | inr (b, g) ↦ elim (Result-cases (provider w.asked)) [
      | inr (why, p) ↦ ground arith
      | inl (passphrase, p) ↦ elim (Result-cases (decrypt crypto b passphrase)) [
        | inr (why, d) ↦ ground (arith, clear w.time)
        | inl (secret, d) ↦ ground (arith, clear w.time)
      ]
    ]
  ]

  module _ (artifact : EncryptedIdentityBackup) (w : World) (secret : Bytes)
      (opens : opened env crypto hex self w artifact.encrypted_bytes ≡ ok secret) where
    restore_absent-refines :
        w.files path ≡ none
        → restoring artifact w
          ≡ spec_install provider
              (decrypt crypto artifact.encrypted_bytes)
              secret
              absent
              (suc w.asked)
    unfolding custody_of spec_install
    restore_absent-refines g =
        let known = restore_absent env crypto hex self artifact w secret opens g in
        let done = install-done env clear crypto hex self artifact (ask w) g in
        let there = (install-ok env crypto hex self artifact (ask w) done).2 in
        let count = install-asked env crypto hex self artifact (ask w) in
        rw (known, done, there, count) refl

    restore_present-refines :
        (b : Bytes)
        → w.files path ≡ some b
        → restoring artifact w
          ≡ spec_install provider
              (decrypt crypto artifact.encrypted_bytes)
              secret
              (sealed (decrypt crypto b))
              (suc w.asked)
    unfolding custody_of spec_install
    restore_present-refines b g =
        let known =
          restore_present env crypto hex self artifact w secret opens b g
          ∙ compare_lem env crypto hex self secret (ask w) b
              (read_file env crypto hex self (ask w) b (clear w.time) g) in
        elim (Result-cases (opened env crypto hex self (ask w) b)) [
          | inr (why, l) ↦ rw (known, g, l) refl
          | inl (existing, l) ↦ rw (known, g, l) refl
        ]

  spec_restore_opened :
      (backup : Bytes → Result SignerError Bytes) (custody : Custody) (count : ℕ) (secret : Bytes)
      → opened_by (provider count) backup ≡ ok secret
      → spec_install provider backup secret custody (suc count)
        ≡ spec_restore provider backup custody count
  unfolding spec_restore
  spec_restore_opened backup custody count secret l = rw (spec_restore, l) refl

  spec_restore_locked :
      (backup : Bytes → Result SignerError Bytes) (custody : Custody) (count : ℕ)
      (why : SignerError)
      → opened_by (provider count) backup ≡ err why
      → (err (map_backup_authentication_error why), (custody, suc count))
        ≡ spec_restore provider backup custody count
  unfolding spec_restore
  spec_restore_locked backup custody count why l = rw (spec_restore, l) refl

  restore-refines :
      (artifact : EncryptedIdentityBackup) (w : World)
      → restoring artifact w
        ≡ spec_restore provider
            (decrypt crypto artifact.encrypted_bytes)
            (custody_of crypto self (w.files path))
            w.asked
  unfolding custody_of
  restore-refines artifact w =
      let backup = decrypt crypto artifact.encrypted_bytes in
      let custody = custody_of crypto self (w.files path) in
      elim (Result-cases (opened env crypto hex self w artifact.encrypted_bytes)) [
        | inr (why, l) ↦
            ap
              (λ (r : Result VaultError IdentityRestoreOutcome × World).
                let s : Result VaultError IdentityRestoreOutcome × State =
                  (r.0, abstract_state r.1) in
                s)
              (restore_locked env crypto hex self artifact w why l)
            ∙ spec_restore_locked backup custody w.asked why l
        | inl (secret, l) ↦ elim (Option-cases (w.files path)) [
          | inl g ↦
              restore_absent-refines artifact w secret l g
              ∙ ap
                  (λ content.
                    spec_install provider backup secret (custody_of crypto self content)
                      (suc w.asked))
                  (sym g)
              ∙ spec_restore_opened backup custody w.asked secret l
          | inr (b, g) ↦
              restore_present-refines artifact w secret l b g
              ∙ ap
                  (λ content.
                    spec_install provider backup secret (custody_of crypto self content)
                      (suc w.asked))
                  (sym g)
              ∙ spec_restore_opened backup custody w.asked secret l
        ]
      ]

  execute-refines :
      (command : Command) (w : World)
      → ((execute crypto self hex env command w).0
          ≡ (spec_execute crypto self command (abstract_state w)).0)
        × (abstract_state (execute crypto self hex env command w).1
            ≡ (spec_execute crypto self command (abstract_state w)).1)
  unfolding execute spec_execute
  execute-refines unlock_identity w =
      let same = unlock-refines w in (ap (λ r. unlocked r.0) same, ap (λ r. r.1) same)
  execute-refines (restore_backup artifact) w =
      let same = restore-refines artifact w in (ap (λ r. restoration r.0) same, ap (λ r. r.1) same)

  -- Where no call on the files fails, every sequence of unlocking and restoring has the responses of
  -- the specification and leaves the custody that the specification says, with as many passphrases
  -- asked for, whatever the provider answers to each call: it may refuse, and it may answer
  -- differently.
  pub run-refines :
      (commands : List Command) (w : World)
      → ((run crypto self hex env commands w).0
          ≡ (spec_run crypto self commands (abstract_state w)).0)
        × (abstract_state (run crypto self hex env commands w).1
            ≡ (spec_run crypto self commands (abstract_state w)).1)
  unfolding run spec_run
  run-refines [] w = (refl, refl)
  run-refines (command ∷ commands) w =
      let (first, state) = execute-refines command w in
      let (rest, last) = run-refines commands (execute crypto self hex env command w).1 in
      (rw (← state, first, rest) refl, rw (← state) last)
