-- ===== src/Tests/Vaults.antt =====
-- Histories of vaults, the vault's specification, and saving at concrete data.
use styrene_identity.Prelude.{
  ℕ, length, ◌≡◌, refl, none, some, ok, err, [], ◌∷◌, suc, List, Bytes, bytes_eq, codes, ◌++◌,
}
use styrene_identity.FileSystem.{
  fill_bytes, hard_link, path_eq, os_eq, open_dir, remove_file, create_dir_all, create_new,
  write_all, sync_all, already_exists, World,
}
use styrene_identity.FileSigner.{io, seal}
use styrene_identity.FileSigner.Custody
use styrene_identity.FileSigner.Custody.{save_exclusive}
use styrene_identity.FileSigner.Custody.Saved.{save_exclusive_iff}
use styrene_identity.Vault.{restore_encrypted_backup, unlock}
use styrene_identity.Vault
use styrene_identity.Vault.{IdentityVault, VaultError, restored, write_exclusive}
use styrene_identity.Vault.Kept.{static_vault, unlock-static_passphrase}
use styrene_identity.Vault.Created.{unlock-init}
use styrene_identity.Vault.Race.{install-race}
use styrene_identity.Vault.Restore.{install}
use styrene_identity.Vault.History
use styrene_identity.Vault.History.{Reach, here, next}
use styrene_identity.Vault.Spec.{Command, unlock_identity, restore_backup, spec_run, run}
use styrene_identity.Vault.Refine.{abstract_state, run-refines}
use styrene_identity.Tests.Cryptography.{length-fit, crypto-IsFileCrypto, fit, crypto}
use styrene_identity.Tests.HexText.{hex}
use styrene_identity.Tests.Storage.{
  provider, elsewhere, env, healthy, clear, vault, path, artifact, encrypted, empty, secret,
  passphrase,
}

-- The file is there, and the next call succeeds.
abbrev stored : World
stored = record { files = λ _. some encrypted; time = 2; asked = 0 }

-- An identity is created elsewhere, and then the backup is restored.
abbrev created : World
created = (Custody.generate crypto hex env vault.file passphrase stored).1

abbrev later : World
later = (restore_encrypted_backup crypto hex env vault artifact created).1

abbrev commands : List Command
commands =
    unlock_identity ∷ restore_backup artifact ∷ unlock_identity ∷ restore_backup artifact ∷ []

run-refines_example :
    ((run crypto vault hex healthy commands empty).0
      ≡ (spec_run crypto vault commands
          (abstract_state healthy clear crypto hex path provider empty)).0)
    × (abstract_state healthy clear crypto hex path provider
          (run crypto vault hex healthy commands empty).1
        ≡ (spec_run crypto vault commands
            (abstract_state healthy clear crypto hex path provider empty)).1)
run-refines_example = run-refines healthy clear crypto hex path provider commands empty

abbrev drawn_salt : Bytes
drawn_salt = fit 32 (2 ∷ 9 ∷ [])

abbrev file : Bytes
file =
    codes "STID"
    ++ (1
        ∷ (drawn_salt
            ++ (fit 12 (3 ∷ 9 ∷ []) ++ (secret ++ fit 16 (fit 32 (passphrase ++ drawn_salt))))))

sealed :
    seal crypto
      (healthy.random empty.time 32)
      (healthy.random (suc empty.time) 12)
      secret
      passphrase
    ≡ ok file
unfolding seal
sealed = refl

save_exclusive_iff_example :
    (empty.files path ≡ none
      → ((save_exclusive crypto hex healthy vault.file secret passphrase empty).0 ≡ ok tt)
        × ((save_exclusive crypto hex healthy vault.file secret passphrase empty).1.files path
            ≡ some file))
    × ((old : Bytes)
        → empty.files path ≡ some old
        → (save_exclusive crypto hex healthy vault.file secret passphrase empty).0
          ≡ err (io already_exists))
save_exclusive_iff_example =
    save_exclusive_iff crypto hex healthy clear vault.file secret passphrase file empty sealed refl

drawn_size : (time n : ℕ) → length (healthy.random time n) ≡ n
drawn_size time n = length-fit n (time ∷ 9 ∷ [])

-- Creating the identity asks for no passphrase of the provider.
answers : provider (Vault.init crypto hex healthy vault passphrase empty).1.asked ≡ ok passphrase
unfolding Vault.init Custody.generate fill_bytes save_exclusive Custody.encrypt_root_secret seal
    create_dir_all create_new Custody.stage Custody.discard write_all sync_all hard_link path_eq
    os_eq bytes_eq Custody.staging_path open_dir remove_file Vault.init_error
answers = refl

unlock-init_example :
    ((Vault.init crypto hex healthy vault passphrase empty).0 ≡ ok tt)
    × ((unlock crypto hex healthy vault (Vault.init crypto hex healthy vault passphrase empty).1).0
        ≡ ok (healthy.random empty.time 32))
unlock-init_example =
    unlock-init healthy clear drawn_size crypto crypto-IsFileCrypto hex path provider passphrase
      empty refl refl answers

abbrev fixed : IdentityVault
fixed = static_vault healthy clear drawn_size crypto crypto-IsFileCrypto hex path passphrase

abbrev begun : World
begun = (Vault.init crypto hex healthy fixed passphrase empty).1

-- The vault that may be refused tries a restore, and a backup is made.
abbrev tried : World
tried = (restore_encrypted_backup crypto hex healthy vault artifact begun).1

abbrev backed_up : World
backed_up = (Vault.backup crypto hex healthy fixed elsewhere tried).1

unlock-static_passphrase_example :
    ((Vault.init crypto hex healthy fixed passphrase empty).0 ≡ ok tt)
    × ((unlock crypto hex healthy fixed backed_up).0 ≡ ok (healthy.random empty.time 32))
unlock-static_passphrase_example =
    unlock-static_passphrase healthy clear drawn_size crypto crypto-IsFileCrypto hex path passphrase
      empty backed_up refl refl
      (next (next here (History.restore vault artifact)) (History.backup fixed elsewhere))

won : (install env crypto hex vault artifact empty).0 ≡ ok restored
unfolding write_exclusive create_dir_all create_new write_all sync_all
won = refl

-- The first one's operations since: it unlocks its vault.
abbrev installed : World
installed = (install env crypto hex vault artifact empty).1

abbrev second : World
second = (unlock crypto hex env vault installed).1

install-race_example :
    ((why : VaultError) × ((install env crypto hex vault artifact second).0 ≡ err why))
    × ((install env crypto hex vault artifact second).1.files vault.path
        ≡ some artifact.encrypted_bytes)
install-race_example =
    install-race env crypto hex vault artifact artifact empty second won
      (next here (History.unlocked vault))
