-- ===== src/Tests/Storage.antt =====
-- Identity files and the vault at concrete data.
use styrene_identity.Prelude.{
  ℕ, arith, ◌≡◌, ◌≢◌, ◌⊎◌, refl, none, some, ok, err, Result, [], ◌∷◌, ◌++◌, if◌then◌else◌, length,
  drop, Bytes, codes, bytes_eq, ◌==◌,
}
use styrene_identity.FileSystem.{
  utf8, ask, FilePath, Env, World, other, create_dir_all, create_new, write_all, sync_all, exists,
}
use styrene_identity.FileSigner.{
  SignerError, auth_required, text, panicked, seal, decrypt, payload_of, slice, slice_from, index,
  byte_or_panic, from_slice, versioned_payload,
}
use styrene_identity.FileSigner.RoundTrip.{decrypt-seal, decrypt-ne-panicked}
use styrene_identity.FileSigner.Custody.{save_exclusive, load_encrypted_bytes}
use styrene_identity.FileSigner.Custody.Exclusive.{Keeps, save_exclusive-Keeps}
use styrene_identity.Vault.{
  IdentityVault, EncryptedIdentityBackup, restored, already_present, from_encrypted_bytes,
  encrypted_backup_format, restore_encrypted_backup, write_exclusive, stid_v1, protect_root_secret,
  decrypt_root_secret,
}
use styrene_identity.Vault.Protect.{decrypt_root_secret-protect_root_secret}
use styrene_identity.Vault.Restore.{opened, restore_encrypted_backup-ok}
use styrene_identity.Tests.Cryptography.{fit, length-fit, crypto, crypto-IsFileCrypto}
use styrene_identity.Tests.HexText.{hex}

abbrev pub salt : Bytes
salt = fit 32 (3 ∷ 5 ∷ [])

abbrev pub nonce : Bytes
nonce = fit 12 (8 ∷ [])

abbrev pub secret : Bytes
secret = fit 32 (6 ∷ 6 ∷ 6 ∷ [])

abbrev pub passphrase : Bytes
passphrase = codes "open"

decrypt-seal_example :
    (file : Bytes) × (seal crypto salt nonce secret passphrase ≡ ok file)
    × (length file ≡ 97)
    × (decrypt crypto file passphrase ≡ ok secret)
    × (decrypt crypto (drop 5 file) passphrase ≡ ok secret)
decrypt-seal_example =
    decrypt-seal crypto crypto-IsFileCrypto salt nonce secret passphrase refl refl refl

decrypt-ne-panicked_example : decrypt crypto (fit 92 passphrase) passphrase ≢ err panicked
decrypt-ne-panicked_example =
    decrypt-ne-panicked crypto crypto-IsFileCrypto (fit 92 passphrase) passphrase

-- The second call fails.
abbrev pub env : Env
env = record {
  fault = λ time. if time == 1 then some (other 28) else none;
  partial = λ _. 7;
  random = λ time n. fit n (time ∷ 9 ∷ []);
}

abbrev pub path : FilePath
path = record { dir = codes "/home/op"; name = utf8 (codes "identity.key") }

abbrev pub elsewhere : FilePath
elsewhere = record { dir = codes "/mnt"; name = utf8 (codes "identity.bak") }

-- The fourth call is refused.
abbrev pub provider : ℕ → Result SignerError Bytes
provider asked = if asked == 3 then err (auth_required (text "refused")) else ok passphrase

abbrev pub vault : IdentityVault
vault = record { file = record { path = path; passphrase_provider = provider }; path = path }

abbrev pub encrypted : Bytes
encrypted =
    codes "STID" ++ (1 ∷ (salt ++ (nonce ++ (secret ++ fit 16 (fit 32 (passphrase ++ salt))))))

abbrev pub artifact : EncryptedIdentityBackup
artifact = record {
  metadata = record { contract_version = 1; format = stid_v1; encrypted_size = 97 };
  encrypted_bytes = encrypted;
}

from_encrypted_bytes_example : from_encrypted_bytes encrypted ≡ ok artifact
unfolding from_encrypted_bytes encrypted_backup_format bytes_eq
from_encrypted_bytes_example = refl

save_exclusive-Keeps_example :
    Keeps path encrypted (save_exclusive crypto hex env vault.file secret passphrase)
save_exclusive-Keeps_example =
    save_exclusive-Keeps path encrypted crypto hex env vault.file secret passphrase

-- Nothing is stored, and no call fails from here on.
abbrev pub empty : World
empty = record { files = λ _. none; time = 2; asked = 0 }

restores : (restore_encrypted_backup crypto hex env vault artifact empty).0 ≡ ok restored
unfolding restore_encrypted_backup load_encrypted_bytes decrypt payload_of versioned_payload slice
    slice_from index byte_or_panic from_slice exists write_exclusive create_dir_all create_new
    write_all sync_all bytes_eq
restores = refl

restore_encrypted_backup-ok_example :
    (found : Bytes) × (opened env crypto hex vault empty artifact.encrypted_bytes ≡ ok found)
    × (((restored ≡ restored)
          × (empty.files vault.path ≡ none)
          × ((restore_encrypted_backup crypto hex env vault artifact empty).1.files vault.path
              ≡ some artifact.encrypted_bytes))
        ⊎ ((restored ≡ already_present)
            × ((restore_encrypted_backup crypto hex env vault artifact empty).1.files ≡ empty.files)
            × ((b : Bytes) × (empty.files vault.path ≡ some b)
                × (opened env crypto hex vault (ask empty) b ≡ ok found))))
restore_encrypted_backup-ok_example =
    restore_encrypted_backup-ok env crypto hex vault artifact empty restores

drawn : (time n : ℕ) → length (env.random time n) ≡ n
drawn time n = length-fit n (time ∷ 9 ∷ [])

some_passphrase : passphrase ≢ []
some_passphrase e = absurd (ground arith)

decrypt_root_secret-protect_root_secret_example :
    (b : EncryptedIdentityBackup) × ((protect_root_secret crypto hex env secret passphrase empty).0
      ≡ ok b)
    × (b.metadata.format ≡ stid_v1)
    × (decrypt_root_secret crypto hex env b passphrase ≡ ok secret)
decrypt_root_secret-protect_root_secret_example =
    decrypt_root_secret-protect_root_secret crypto crypto-IsFileCrypto hex env drawn secret
      passphrase empty refl some_passphrase

abbrev pub healthy : Env
healthy = record env { fault = λ time. none }

pub clear : (time : ℕ) → healthy.fault time ≡ none
clear time = refl
