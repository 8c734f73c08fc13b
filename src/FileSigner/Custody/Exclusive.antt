-- ===== src/FileSigner/Custody/Exclusive.antt =====
-- Saving an identity file never touches a file that exists: src/file_signer.rs, `save_exclusive`.
use styrene_identity.Prelude.{
  ℕ, ◌≡◌, ◌≢◌, inl, inr, some, Result, Result-cases, ok, err, ◌∙◌, Bytes,
}
use styrene_identity.FileSystem.{
  FilePath, IoError, Env, World, Action, ◌>>=◌, ◌>>◌, lift, map_err, attempt, fill_bytes,
  create_dir_all, create_new, write_all, sync_all, open_dir, remove_file, hard_link,
}
use styrene_identity.FileSystem.Frame.{
  create_dir_all-Same, sync_all-Same, open_dir-Same, write_all-Same, remove_file-Same,
  create_new-Same, create_new-ne, hard_link-Same,
}
use styrene_identity.External.Hex.{Hex}
use styrene_identity.FileSigner.{FileCrypto, FileSigner, SignerError, io, decrypt}
use styrene_identity.FileSigner.Custody.{
  get_passphrase, load_encrypted_bytes, staging_path, encrypt_root_secret, discard, stage,
  save_exclusive,
}

-- A file that holds `content` before holds it after, whatever the result.
pub record Keeps (q : FilePath) (content : Bytes) {E A : Type 0} (m : Action E A) : Type 0 where
  pub keep : (w : World) → w.files q ≡ some content → (m w).1.files q ≡ some content

module _ (q : FilePath) (content : Bytes) where
  pub bind-Keeps :
      {E A B : Type 0} (m : Action E A) (f : A → Action E B)
      → Keeps q content m
      → ((a : A) → Keeps q content (f a))
      → Keeps q content (m >>= f)
  bind-Keeps m f hm hf = record {
    keep = λ w here. elim (Result-cases (m w).0) [
      | inl (a, e) ↦ rw (e, ◌>>=◌) ((hf a).keep (m w).1 (hm.keep w here))
      | inr (why, e) ↦ rw (e, ◌>>=◌) (hm.keep w here)
    ];
  }

  pub map_err-Keeps :
      {E F A : Type 0} (g : E → F) (m : Action E A)
      → Keeps q content m
      → Keeps q content (map_err g m)
  map_err-Keeps g m hm = record {
    keep = λ w here. elim (Result-cases (m w).0) [
      | inl (a, e) ↦ rw (e, map_err) (hm.keep w here)
      | inr (why, e) ↦ rw (e, map_err) (hm.keep w here)
    ];
  }

  pub attempt-Keeps :
      {E F A : Type 0} (m : Action E A) → Keeps q content m → Keeps q content (attempt {F = F} m)
  attempt-Keeps m hm = record { keep = λ w here. hm.keep w here }

  pub lift-Keeps : {E A : Type 0} (r : Result E A) → Keeps q content (lift r)
  lift-Keeps r = record { keep = λ w here. here }

  pub get_passphrase-Keeps : (self : FileSigner) → Keeps q content (get_passphrase self)
  get_passphrase-Keeps self = record { keep = λ w here. here }

  pub load_encrypted_bytes-Keeps :
      (crypto : FileCrypto) (self : FileSigner) (b : Bytes)
      → Keeps q content (load_encrypted_bytes crypto self b)
  unfolding load_encrypted_bytes
  load_encrypted_bytes-Keeps crypto self b =
      bind-Keeps _ _ (get_passphrase-Keeps self)
        λ passphrase. lift-Keeps (decrypt crypto b passphrase)

  module _ (env : Env) where
    pub fill_bytes-Keeps : {E : Type 0} (n : ℕ) → Keeps q content {E = E} (fill_bytes env n)
    unfolding fill_bytes
    fill_bytes-Keeps n = record { keep = λ w here. here }

    pub create_dir_all-Keeps : (dir : Bytes) → Keeps q content (create_dir_all env dir)
    create_dir_all-Keeps dir = record { keep = λ w here. create_dir_all-Same env q w dir ∙ here }

    pub sync_all-Keeps : Keeps q content (sync_all env)
    sync_all-Keeps = record { keep = λ w here. sync_all-Same env q w ∙ here }

    open_dir-Keeps : (dir : Bytes) → Keeps q content (open_dir env dir)
    open_dir-Keeps dir = record { keep = λ w here. open_dir-Same env q w dir ∙ here }

    hard_link-Keeps : (source target : FilePath) → Keeps q content (hard_link env source target)
    hard_link-Keeps source target = record {
      keep = λ w here. hard_link-Same env q w source target here ∙ here;
    }

    pub write_all-Keeps : (p : FilePath) (b : Bytes) → p ≢ q → Keeps q content (write_all env p b)
    write_all-Keeps p b ne = record { keep = λ w here. write_all-Same env q w p b ne ∙ here }

    remove_file-Keeps : (p : FilePath) → p ≢ q → Keeps q content (remove_file env p)
    remove_file-Keeps p ne = record { keep = λ w here. remove_file-Same env q w p ne ∙ here }

    pub created-Keeps : (p : FilePath) → Keeps q content (create_new env p)
    created-Keeps p = record { keep = λ w here. create_new-Same env q w p here ∙ here }

    -- Behind an exclusive creation the created file is not `q`.
    pub create_new-Keeps :
        {E A : Type 0} (g : IoError → E) (p : FilePath) (k : Action E A)
        → (p ≢ q → Keeps q content k)
        → Keeps q content (map_err g (create_new env p) >> k)
    create_new-Keeps g p k hk = record {
      keep = λ w here.
          let kept = (map_err-Keeps g (create_new env p) (created-Keeps p)).keep w here in
          elim (Result-cases (create_new env p w).0) [
            | inr (why, e) ↦ rw (e, ◌>>=◌, map_err) kept
            | inl (a, e) ↦
                rw (e, ◌>>=◌, map_err)
                  ((hk (create_new-ne env q w p here e)).keep (map_err g (create_new env p) w).1
                    kept)
          ];
    }

    pub create_then-Keeps :
        {A : Type 0} (p : FilePath) (k : Action IoError A)
        → (p ≢ q → Keeps q content k)
        → Keeps q content (create_new env p >> k)
    create_then-Keeps p k hk = record {
      keep = λ w here.
          let kept = (created-Keeps p).keep w here in
          elim (Result-cases (create_new env p w).0) [
            | inr (why, e) ↦ rw (e, ◌>>=◌) kept
            | inl (a, e) ↦
                rw (e, ◌>>=◌)
                  ((hk (create_new-ne env q w p here e)).keep (create_new env p w).1 kept)
          ];
    }

  module _ (crypto : FileCrypto) (hex : Hex) (env : Env) where
    pub encrypt_root_secret-Keeps :
        (secret passphrase : Bytes)
        → Keeps q content (encrypt_root_secret crypto hex env secret passphrase)
    unfolding encrypt_root_secret
    encrypt_root_secret-Keeps secret passphrase =
        bind-Keeps _ _ (fill_bytes-Keeps env 32)
          λ salt. bind-Keeps _ _ (fill_bytes-Keeps env 12) λ nonce. lift-Keeps _

    -- Staging and discarding write to the staging file alone.
    module _ (staging : FilePath) (ne : staging ≢ q) where
      discard-Keeps :
          (staged : Result IoError (Unit {0}))
          → Keeps q content (discard crypto hex env staging staged)
      unfolding discard
      discard-Keeps (ok _) = lift-Keeps _
      discard-Keeps (err e) =
          bind-Keeps _ _ (attempt-Keeps _ (remove_file-Keeps env staging ne))
            λ _. lift-Keeps (err (io e))

      stage-Keeps : (b : Bytes) → Keeps q content (stage crypto hex env staging b)
      unfolding stage
      stage-Keeps b =
          bind-Keeps _ _
            (attempt-Keeps _
              (bind-Keeps _ _ (write_all-Keeps env staging b ne) λ _. sync_all-Keeps env))
            discard-Keeps

      install-Keeps :
          (target : FilePath)
          → Keeps q content (do
            installed ← attempt {F = SignerError} (hard_link env staging target)
            ignored ← attempt {F = SignerError} (remove_file env staging)
            map_err io (lift installed)
            map_err io (open_dir env target.dir)
            map_err io (sync_all env))
      install-Keeps target =
          bind-Keeps _ _ (attempt-Keeps _ (hard_link-Keeps env staging target)) λ installed.
            bind-Keeps _ _ (attempt-Keeps _ (remove_file-Keeps env staging ne)) λ ignored.
              bind-Keeps _ _ (map_err-Keeps io _ (lift-Keeps installed)) λ _.
                bind-Keeps _ _ (map_err-Keeps io _ (open_dir-Keeps env target.dir))
                  λ _. map_err-Keeps io _ (sync_all-Keeps env)

    -- Saving a secret changes no file that exists, whatever fails on the way: not the identity
    -- file, and no other.
    pub save_exclusive-Keeps :
        (self : FileSigner) (secret passphrase : Bytes)
        → Keeps q content (save_exclusive crypto hex env self secret passphrase)
    unfolding save_exclusive
    save_exclusive-Keeps self secret passphrase =
        bind-Keeps _ _ (encrypt_root_secret-Keeps secret passphrase) λ file_data.
          bind-Keeps _ _ (map_err-Keeps io _ (create_dir_all-Keeps env self.path.dir)) λ _.
            bind-Keeps _ _ (fill_bytes-Keeps env 8) λ suffix.
              create_new-Keeps env io (staging_path hex self.path suffix) _
                λ ne. bind-Keeps _ _ (stage-Keeps _ ne file_data) λ _. install-Keeps _ ne self.path
