-- ===== src/FileSigner/Custody/Generate.antt =====
-- src/file_signer.rs: `generate` and `restore_root_secret` keep the files there are.
use styrene_identity.Prelude.{Bytes}
use styrene_identity.FileSystem.{FilePath, Env}
use styrene_identity.External.Hex.{Hex}
use styrene_identity.FileSigner.{FileCrypto, FileSigner}
use styrene_identity.FileSigner.Custody.{generate, restore_root_secret}
use styrene_identity.FileSigner.Custody.Exclusive.{
  Keeps, bind-Keeps, get_passphrase-Keeps, fill_bytes-Keeps, save_exclusive-Keeps,
}

module _ (q : FilePath) (content : Bytes) (crypto : FileCrypto) (hex : Hex) (env : Env) where
  pub generate-Keeps :
      (self : FileSigner) (passphrase : Bytes)
      → Keeps q content (generate crypto hex env self passphrase)
  unfolding generate
  generate-Keeps self passphrase =
      bind-Keeps q content _ _ (fill_bytes-Keeps q content env 32)
        λ secret. save_exclusive-Keeps q content crypto hex env self secret passphrase

  pub restore_root_secret-Keeps :
      (self : FileSigner) (secret : Bytes)
      → Keeps q content (restore_root_secret crypto hex env self secret)
  unfolding restore_root_secret
  restore_root_secret-Keeps self secret =
      bind-Keeps q content _ _ (get_passphrase-Keeps q content self)
        λ passphrase. save_exclusive-Keeps q content crypto hex env self secret passphrase
