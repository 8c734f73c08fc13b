-- ===== src/FileSigner/Custody/Saved.antt =====
-- src/file_signer.rs: saving where no call fails.
use styrene_identity.Prelude.{
  ℕ, suc, ◌≡◌, ◌≢◌, refl, ap, ◌∙◌, ◌++◌, none, some, Result, ok, err, length, length-append, Bytes,
  codes, arith,
}
use styrene_identity.FileSystem.{
  FilePath, OsString, utf8, raw, display, path_eq_iff, already_exists, Env, World, Action, tick,
  lift, map_err, attempt, fill_bytes, create_dir_all, create_new, write_all, sync_all, open_dir,
  remove_file, hard_link, ◌>>=◌, ◌>>◌,
}
use styrene_identity.FileSystem.Steps.{bind-ok, map_err-ok}
use styrene_identity.External.Hex.{Hex}
use styrene_identity.FileSigner.{FileCrypto, FileSigner, SignerError, io, seal}
use styrene_identity.FileSigner.Custody.{
  staging_path, name_or_identity, encrypt_root_secret, discard, stage, save_exclusive,
}

module _ (crypto : FileCrypto) (hex : Hex) (env : Env) where
  pub encrypt_root_secret-ok :
      (secret passphrase file : Bytes) (w : World)
      → seal crypto (env.random w.time 32) (env.random (suc w.time) 12) secret passphrase ≡ ok file
      → encrypt_root_secret crypto hex env secret passphrase w ≡ (ok file, tick (tick w))
  unfolding encrypt_root_secret fill_bytes
  encrypt_root_secret-ok secret passphrase file w sealed = rw (sealed, ◌>>=◌, lift) refl

module _ (crypto : FileCrypto) (hex : Hex) (env : Env)
    (clear : (time : ℕ) → env.fault time ≡ none) where
  -- The steps of `save_exclusive` behind the choice of the staging file.
  install : FilePath → FilePath → Bytes → World → Result SignerError (Unit {0}) × World
  install staging path file = do
    map_err io (create_new env staging)
    stage crypto hex env staging file
    installed ← attempt (hard_link env staging path)
    ignored ← attempt {F = SignerError} (remove_file env staging)
    map_err io (lift installed)
    map_err io (open_dir env path.dir)
    map_err io (sync_all env)

  install-absent :
      (staging path : FilePath) (file : Bytes) (w : World)
      → staging ≢ path
      → w.files staging ≡ none
      → w.files path ≡ none
      → ((install staging path file w).0 ≡ ok tt)
        × ((install staging path file w).1.files path ≡ some file)
  unfolding install stage discard create_new write_all sync_all hard_link remove_file open_dir
  install-absent staging path file w ne free absent =
      let t = w.time in
      ground (
        arith,
        clear t,
        clear (suc t),
        clear (suc (suc t)),
        clear (suc (suc (suc t))),
        clear (suc (suc (suc (suc t)))),
        clear (suc (suc (suc (suc (suc t))))),
        clear (suc (suc (suc (suc (suc (suc t)))))),
        path_eq_iff staging path,
        path_eq_iff staging staging,
        path_eq_iff path path,
      )

  install-present :
      (staging path : FilePath) (file old : Bytes) (w : World)
      → staging ≢ path
      → w.files staging ≡ none
      → w.files path ≡ some old
      → (install staging path file w).0 ≡ err (io already_exists)
  unfolding install stage discard create_new write_all sync_all hard_link remove_file open_dir
  install-present staging path file old w ne free here =
      let t = w.time in
      ground (
        arith,
        clear t,
        clear (suc t),
        clear (suc (suc t)),
        clear (suc (suc (suc t))),
        clear (suc (suc (suc (suc t)))),
        path_eq_iff staging path,
        path_eq_iff staging staging,
        path_eq_iff path path,
      )

  -- The staging file of a run that begins in `w`.
  abbrev pub staging_at : FileSigner → World → FilePath
  staging_at self w = staging_path hex self.path (env.random (suc (suc (suc w.time))) 8)

  -- A staging name is longer than a name that is text, and it is text itself.
  staging_name-ne :
      (name : OsString) (rest : Bytes)
      → utf8 (codes "." ++ (name_or_identity name ++ (codes "." ++ rest))) ≢ name
  staging_name-ne (utf8 text) rest e =
      let longer = ap (λ n. length (display n)) e in
      omega (arith, length-append text (codes "." ++ rest))
  staging_name-ne (raw bytes shown) rest e = absurd (ground arith)

  staging_path-ne : (path : FilePath) (suffix : Bytes) → staging_path hex path suffix ≢ path
  unfolding staging_path
  staging_path-ne path suffix e =
      staging_name-ne path.name (Hex.encode hex suffix ++ codes ".tmp") (ap FilePath.name e)

  abbrev later : World → World
  later w = tick (tick (tick (tick w)))

  create_dir_all-ok : (dir : Bytes) (w : World) → create_dir_all env dir w ≡ (ok tt, tick w)
  unfolding create_dir_all
  create_dir_all-ok dir w = ground (arith, clear w.time)

  -- The steps behind the sealing, and behind the creation of the directory.
  drawing : FileSigner → Bytes → Action SignerError (Unit {0})
  drawing self file = do
    suffix ← fill_bytes env 8
    install (staging_path hex self.path suffix) self.path file

  preparing : FileSigner → Bytes → Action SignerError (Unit {0})
  preparing self file = do map_err io (create_dir_all env self.path.dir); drawing self file

  save_exclusive-install :
      (self : FileSigner) (secret passphrase file : Bytes) (w : World)
      → seal crypto (env.random w.time 32) (env.random (suc w.time) 12) secret passphrase ≡ ok file
      → save_exclusive crypto hex env self secret passphrase w
        ≡ install (staging_at self w) self.path file (later w)
  unfolding save_exclusive fill_bytes install drawing preparing
  save_exclusive-install self secret passphrase file w sealed =
      let made = encrypt_root_secret-ok crypto hex env secret passphrase file w sealed in
      let dir = map_err io (create_dir_all env self.path.dir) in
      let created =
        map_err-ok {A = Unit {0}} io (create_dir_all env self.path.dir)
          (create_dir_all-ok self.path.dir (tick (tick w))) in
      bind-ok (encrypt_root_secret crypto hex env secret passphrase) (preparing self) made
      ∙ bind-ok dir (λ _. drawing self file) created

  -- Where no call fails, saving a secret that can be sealed under a path that holds nothing
  -- succeeds, and the path holds the sealed file; where the path holds a file, the result is the
  -- error that it exists already. In both cases the staging name must be free.
  pub save_exclusive_iff :
      (self : FileSigner) (secret passphrase file : Bytes) (w : World)
      → seal crypto (env.random w.time 32) (env.random (suc w.time) 12) secret passphrase ≡ ok file
      → w.files (staging_at self w) ≡ none
      → (w.files self.path ≡ none
          → ((save_exclusive crypto hex env self secret passphrase w).0 ≡ ok tt)
            × ((save_exclusive crypto hex env self secret passphrase w).1.files self.path
                ≡ some file))
        × ((old : Bytes)
            → w.files self.path ≡ some old
            → (save_exclusive crypto hex env self secret passphrase w).0 ≡ err (io already_exists))
  save_exclusive_iff self secret passphrase file w sealed free =
      let known = save_exclusive-install self secret passphrase file w sealed in
      let ne = staging_path-ne self.path (env.random (suc (suc (suc w.time))) 8) in
      (
        λ absent.
            let done = install-absent (staging_at self w) self.path file (later w) ne free absent in
            (ap (λ r. r.0) known ∙ done.0, ap (λ r. r.1.files self.path) known ∙ done.1),
        λ old here.
            ap (λ r. r.0) known
            ∙ install-present (staging_at self w) self.path file old (later w) ne free here,
      )
