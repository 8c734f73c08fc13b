-- ===== src/FileSigner/Custody.antt =====
-- src/file_signer.rs: the operations on the identity file.
pub mod Exclusive
pub mod Generate
pub mod Saved
use styrene_identity.Prelude.{
  ℕ, ◌++◌, Bool, true, false, some, none, Result, ok, err, ◌≡◌, Bytes, codes,
}
use styrene_identity.FileSystem.{
  FilePath, OsString, utf8, to_str, join, IoError, Env, Action, ask, ◌>>=◌, ◌>>◌, lift, map_err,
  attempt, exists, fill_bytes, create_dir_all, read, create_new, write_all, sync_all, open_dir,
  remove_file, hard_link,
}
use styrene_identity.External.Hex.{Hex}
use styrene_identity.External.Ed25519.{Ed25519}
use styrene_identity.Derive
use styrene_identity.Derive.{Hkdf}
use styrene_identity.FileSigner.{
  FileCrypto, FileSigner, SignerError, io, salt_len, nonce_len, secret_len, seal, decrypt,
}

home_or_here : Result (Unit {0}) Bytes → Bytes
home_or_here (ok home) = home
home_or_here (err _) = codes "."

-- `FileSigner::default_path`, from the value of `HOME`.
unfoldable pub default_path : Result (Unit {0}) Bytes → FilePath
unfolding home_or_here
default_path home = record {
  dir = join (join (home_or_here home) (codes ".config")) (codes "styrene");
  name = utf8 (codes "identity.key");
}

-- `to_str` of a name, or `unwrap_or("identity")`.
abbrev pub name_or_identity : OsString → Bytes
name_or_identity name = elim (to_str name) [ some text ↦ text | none ↦ codes "identity" ]

-- The file under which the content is written before it is linked.
unfoldable pub staging_path : Hex → FilePath → Bytes → FilePath
staging_path hex path suffix = record path {
  name = utf8 (
      codes "."
      ++ (name_or_identity path.name ++ (codes "." ++ (Hex.encode hex suffix ++ codes ".tmp"))));
}

abbrev pub get_passphrase : FileSigner → Action SignerError Bytes
get_passphrase self w = (self.passphrase_provider w.asked, ask w)

module _ (crypto : FileCrypto) where
  unfoldable pub load_encrypted_bytes : FileSigner → Bytes → Action SignerError Bytes
  load_encrypted_bytes self file_data = do
    passphrase ← get_passphrase self
    lift (decrypt crypto file_data passphrase)

module _ (crypto : FileCrypto) (hex : Hex) (env : Env) where
  unfoldable pub encrypt_root_secret : Bytes → Bytes → Action SignerError Bytes
  encrypt_root_secret root_secret passphrase = do
    salt ← fill_bytes env salt_len
    nonce ← fill_bytes env nonce_len
    lift (seal crypto salt nonce root_secret passphrase)

  -- `if let Err(error) = staged`
  unfoldable pub discard : FilePath → Result IoError (Unit {0}) → Action SignerError (Unit {0})
  discard staging (ok _) = lift (ok tt)
  discard staging (err error) = do
    ignored ← attempt {F = SignerError} (remove_file env staging)
    lift (err (io error))

  -- The content is written and synced; where that fails, the staging file is removed.
  unfoldable pub stage : FilePath → Bytes → Action SignerError (Unit {0})
  stage staging file_data = do
    staged ← attempt (do write_all env staging file_data; sync_all env)
    discard staging staged

  unfoldable pub save_exclusive : FileSigner → Bytes → Bytes → Action SignerError (Unit {0})
  save_exclusive self root_secret passphrase = do
    file_data ← encrypt_root_secret root_secret passphrase
    map_err io (create_dir_all env self.path.dir)
    suffix ← fill_bytes env 8
    let staging = staging_path hex self.path suffix
    map_err io (create_new env staging)
    stage staging file_data
    installed ← attempt (hard_link env staging self.path)
    ignored ← attempt {F = SignerError} (remove_file env staging)
    map_err io (lift installed)
    map_err io (open_dir env self.path.dir)
    map_err io (sync_all env)

  unfoldable pub generate : FileSigner → Bytes → Action SignerError (Unit {0})
  generate self passphrase = do
    root_secret ← fill_bytes env secret_len
    save_exclusive self root_secret passphrase

  unfoldable pub restore_root_secret : FileSigner → Bytes → Action SignerError (Unit {0})
  restore_root_secret self root_secret = do
    passphrase ← get_passphrase self
    save_exclusive self root_secret passphrase

  unfoldable pub load : FileSigner → Bytes → Action SignerError Bytes
  load self passphrase = do
    file_data ← map_err io (read env self.path)
    lift (decrypt crypto file_data passphrase)

  unfoldable pub root_secret : FileSigner → Action SignerError Bytes
  root_secret self = do passphrase ← get_passphrase self; load self passphrase

  unfoldable pub sign : Hkdf → Ed25519 → FileSigner → Bytes → Action SignerError Bytes
  sign hkdf ed self message = do
    root ← root_secret self
    let seed = Derive.derive hkdf (Derive.new hkdf root) Derive.signing
    lift (ok (Ed25519.sign ed seed message))
