-- ===== src/FileSystem.antt =====
-- The part of `std::fs` that src/file_signer.rs and src/vault.rs use, over a store of files by path.
-- Any call may fail as the environment decides. Directories are not modelled: creating one only
-- may fail. No other process writes while an operation runs.
pub mod Frame
pub mod Steps
use styrene_identity.Prelude.{
  ℕ, suc, Bool, true, false, ◌&&◌, Option, none, some, Result, ok, err, is_some, ◌≡◌, ◌↔◌, refl,
  if◌then◌else◌, take, Bytes, bytes_eq, bytes_eq_iff, [], ◌∷◌, ◌||◌, ◌++◌, ◌==◌, is_empty, arith,
}

-- A file name: text, or bytes that are not UTF-8, with what `display` shows of them.
pub data OsString : Type 0 where
  utf8 : Bytes → OsString
  raw : Bytes → Bytes → OsString

abbrev pub to_str : OsString → Option Bytes
to_str (utf8 text) = some text
to_str (raw _ _) = none

abbrev pub display : OsString → Bytes
display (utf8 text) = text
display (raw _ shown) = shown

unfoldable pub os_eq : OsString → OsString → Bool
os_eq (utf8 a) (utf8 b) = bytes_eq a b
os_eq (raw a s) (raw b t) = bytes_eq a b && bytes_eq s t
os_eq _ _ = false

os_eq_iff : (p q : OsString) → (os_eq p q ≡ true) ↔ (p ≡ q)
unfolding os_eq
os_eq_iff (utf8 a) (utf8 b) = ground (arith, bytes_eq_iff a b)
os_eq_iff (utf8 a) (raw b t) = ground arith
os_eq_iff (raw a s) (utf8 b) = ground arith
os_eq_iff (raw a s) (raw b t) = ground (arith, bytes_eq_iff a b, bytes_eq_iff s t)

-- A path is its parent directory and its file name.
pub record FilePath : Type 0 where
  pub dir : Bytes
  pub name : OsString

unfoldable pub path_eq : FilePath → FilePath → Bool
path_eq p q = bytes_eq p.dir q.dir && os_eq p.name q.name

pub path_eq_iff : (p q : FilePath) → (path_eq p q ≡ true) ↔ (p ≡ q)
unfolding path_eq
path_eq_iff p q = ground (arith, bytes_eq_iff p.dir q.dir, os_eq_iff p.name q.name)

ends_with_slash : Bytes → Bool
ends_with_slash [] = false
ends_with_slash (x ∷ []) = x == b'/'
ends_with_slash (x ∷ y ∷ rest) = ends_with_slash (y ∷ rest)

-- `PathBuf::join` of a relative name.
unfoldable pub join : Bytes → Bytes → Bytes
unfolding ends_with_slash
join path name =
    if is_empty path || ends_with_slash path then path ++ name else path ++ (b'/' ∷ name)

-- `std::io::Error`, by its kind.
pub data IoError : Type 0 where
  already_exists not_found : IoError
  other : ℕ → IoError

abbrev pub is_already_exists : IoError → Bool
is_already_exists already_exists = true
is_already_exists _ = false

-- What the environment decides about the call at each time: whether it fails, how much a failing
-- write has written, and which random bytes are drawn.
pub record Env : Type 0 where
  pub fault : ℕ → Option IoError
  pub partial : ℕ → ℕ
  pub random : ℕ → ℕ → Bytes

-- The files, the number of calls of the environment so far, and the number of passphrases that
-- were asked for.
pub record World : Type 0 where
  pub files : FilePath → Option Bytes
  pub time : ℕ
  pub asked : ℕ

abbrev pub Action {ℓ κ} : Type ℓ → Type κ → Type (ℓ ⊔ κ)
Action E A = World → Result E A × World

infixl 5 ◌>>=◌ ◌>>◌
abbrev pub ◌>>=◌ {ℓ κ μ} :
    {E : Type ℓ} {A : Type κ} {B : Type μ} → Action E A → (A → Action E B) → Action E B
◌>>=◌ m f w = let r = m w in elim r.0 [ ok a ↦ f a r.1 | err e ↦ (err e, r.1) ]

abbrev pub ◌>>◌ {ℓ κ} : {E : Type ℓ} {B : Type κ} → Action E (Unit {0}) → Action E B → Action E B
m >> k = m >>= λ _. k

-- A computation that touches no file.
abbrev pub lift {ℓ κ} : {E : Type ℓ} {A : Type κ} → Result E A → Action E A
lift r w = (r, w)

abbrev pub map_err {ℓ κ μ} :
    {E : Type ℓ} {F : Type κ} {A : Type μ} → (E → F) → Action E A → Action F A
map_err f m w = let r = m w in elim r.0 [ ok a ↦ (ok a, r.1) | err e ↦ (err (f e), r.1) ]

-- The result of an action as a value, for `let _ = …` and a later `?`.
abbrev pub attempt {ℓ κ μ} :
    {E : Type ℓ} {F : Type κ} {A : Type μ} → Action E A → Action F (Result E A)
attempt m w = let r = m w in (ok r.0, r.1)

abbrev pub tick : World → World
tick w = record w { time = suc w.time }

abbrev pub ask : World → World
ask w = record w { asked = suc w.asked }

abbrev pub update : (FilePath → Option Bytes) → FilePath → Option Bytes → FilePath → Option Bytes
update files p content q = if path_eq p q then content else files q

-- `Path::exists`
unfoldable pub exists {ℓ} : {E : Type ℓ} → FilePath → Action E Bool
exists p w = (ok (is_some (w.files p)), w)

module _ (env : Env) where
  unfoldable pub fill_bytes {ℓ} : {E : Type ℓ} → ℕ → Action E Bytes
  fill_bytes n w = (ok (Env.random env w.time n), tick w)

  unfoldable pub create_dir_all : Bytes → Action IoError (Unit {0})
  create_dir_all dir w = elim (Env.fault env w.time) [
    | some e ↦ (err e, tick w)
    | none ↦ (ok tt, tick w)
  ]

  unfoldable pub read : FilePath → Action IoError Bytes
  read p w = elim (Env.fault env w.time) [
    | some e ↦ (err e, tick w)
    | none ↦ elim (w.files p) [
      | some content ↦ (ok content, tick w)
      | none ↦ (err not_found, tick w)
    ]
  ]

  -- `OpenOptions::new().write(true).create_new(true)`: an empty file, if there was none.
  unfoldable pub create_new : FilePath → Action IoError (Unit {0})
  create_new p w = elim (Env.fault env w.time) [
    | some e ↦ (err e, tick w)
    | none ↦ elim (w.files p) [
      | some content ↦ (err already_exists, tick w)
      | none ↦ (ok tt, tick (record w { files = update w.files p (some []) }))
    ]
  ]

  -- `write_all` of a file that was opened empty.
  unfoldable pub write_all : FilePath → Bytes → Action IoError (Unit {0})
  write_all p content w = elim (Env.fault env w.time) [
    | some e ↦
        let written = take (Env.partial env w.time) content in
        (err e, tick (record w { files = update w.files p (some written) }))
    | none ↦ (ok tt, tick (record w { files = update w.files p (some content) }))
  ]

  unfoldable pub sync_all : Action IoError (Unit {0})
  sync_all w = elim (Env.fault env w.time) [ some e ↦ (err e, tick w) | none ↦ (ok tt, tick w) ]

  -- `File::open` of a directory.
  unfoldable pub open_dir : Bytes → Action IoError (Unit {0})
  open_dir dir w = elim (Env.fault env w.time) [ some e ↦ (err e, tick w) | none ↦ (ok tt, tick w) ]

  unfoldable pub remove_file : FilePath → Action IoError (Unit {0})
  remove_file p w = elim (Env.fault env w.time) [
    | some e ↦ (err e, tick w)
    | none ↦ (ok tt, tick (record w { files = update w.files p none }))
  ]

  unfoldable pub hard_link : FilePath → FilePath → Action IoError (Unit {0})
  hard_link source target w = elim (Env.fault env w.time) [
    | some e ↦ (err e, tick w)
    | none ↦ elim (w.files target) [
      | some content ↦ (err already_exists, tick w)
      | none ↦ elim (w.files source) [
        | none ↦ (err not_found, tick w)
        | some content ↦ (ok tt, tick (record w { files = update w.files target (some content) }))
      ]
    ]
  ]
