-- ===== src/FileSystem/Frame.antt =====
-- Which files the calls of `FileSystem` leave alone, whatever fails.
use styrene_identity.Prelude.{◌≡◌, ◌≢◌, some, ok, Bytes, arith}
use styrene_identity.FileSystem.{
  FilePath, path_eq_iff, Env, World, create_dir_all, create_new, write_all, sync_all, open_dir,
  remove_file, hard_link,
}

-- The content of one file before and after.
abbrev pub Same : FilePath → World → World → Type 0
Same q w w' = w'.files q ≡ w.files q

module _ (env : Env) (q : FilePath) (w : World) where
  pub create_dir_all-Same : (dir : Bytes) → Same q w (create_dir_all env dir w).1
  unfolding create_dir_all
  create_dir_all-Same dir = ground arith

  pub sync_all-Same : Same q w (sync_all env w).1
  unfolding sync_all
  sync_all-Same = ground arith

  pub open_dir-Same : (dir : Bytes) → Same q w (open_dir env dir w).1
  unfolding open_dir
  open_dir-Same dir = ground arith

  pub write_all-Same : (p : FilePath) (b : Bytes) → p ≢ q → Same q w (write_all env p b w).1
  unfolding write_all
  write_all-Same p b ne = ground (arith, path_eq_iff p q)

  pub remove_file-Same : (p : FilePath) → p ≢ q → Same q w (remove_file env p w).1
  unfolding remove_file
  remove_file-Same p ne = ground (arith, path_eq_iff p q)

  -- Exclusive creation changes a file only where there was none, and then it succeeds.
  pub create_new-Same :
      (p : FilePath) {content : Bytes} → w.files q ≡ some content → Same q w (create_new env p w).1
  unfolding create_new
  create_new-Same p here = ground (arith, path_eq_iff p q)

  -- Where a file was created, it is another than one that was there before.
  pub create_new-ne :
      (p : FilePath) {content : Bytes}
      → w.files q ≡ some content
      → (create_new env p w).0 ≡ ok tt
      → p ≢ q
  unfolding create_new
  create_new-ne p here done e = ground arith

  pub hard_link-Same :
      (source target : FilePath) {content : Bytes}
      → w.files q ≡ some content
      → Same q w (hard_link env source target w).1
  unfolding hard_link
  hard_link-Same source target here = ground (arith, path_eq_iff target q)
