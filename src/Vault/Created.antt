-- ===== src/Vault/Created.antt =====
-- src/vault.rs: an identity that was created can be unlocked.
use styrene_identity.Prelude.{ℕ, suc, ◌≡◌, refl, ap, ◌∙◌, none, some, Result, ok, Bytes, length}
use styrene_identity.FileSystem.{FilePath, Env, World, tick, fill_bytes}
use styrene_identity.FileSystem.Steps.{map_err-ok}
use styrene_identity.External.Hex.{Hex}
use styrene_identity.FileSigner.{FileCrypto, SignerError, decrypt, opened_by}
use styrene_identity.FileSigner.RoundTrip.{IsFileCrypto, decrypt-seal}
use styrene_identity.FileSigner.Custody.{generate, save_exclusive}
use styrene_identity.FileSigner.Custody.Saved.{staging_at, save_exclusive_iff}
use styrene_identity.Vault.{IdentityVault, init, init_error, unlock}
use styrene_identity.Vault.Spec.{custody_of, spec_unlock}
use styrene_identity.Vault.Refine.{self, unlock-refines}

module _ (env : Env) (clear : (time : ℕ) → env.fault time ≡ none)
    (drawn : (time n : ℕ) → length (env.random time n) ≡ n) (crypto : FileCrypto)
    (law : IsFileCrypto crypto) (hex : Hex) (path : FilePath)
    (provider : ℕ → Result SignerError Bytes) (passphrase : Bytes) where
  abbrev pub own : IdentityVault
  own = self env clear crypto hex path provider

  generate-save :
      (w : World)
      → generate crypto hex env own.file passphrase w
        ≡ save_exclusive crypto hex env own.file (env.random w.time 32) passphrase (tick w)
  unfolding generate fill_bytes
  generate-save w = refl

  -- What `unlock` gives of a file, by the provider's answer to its call.
  unlock-opened :
      (v : World) (file secret : Bytes)
      → v.files path ≡ some file
      → provider v.asked ≡ ok passphrase
      → decrypt crypto file passphrase ≡ ok secret
      → (unlock crypto hex env own v).0 ≡ ok secret
  unfolding spec_unlock custody_of opened_by
  unlock-opened v file secret held answered opens =
      ap (λ r. r.0) (unlock-refines env clear crypto hex path provider v)
      ∙ ap (λ content. (spec_unlock provider path (custody_of crypto own content) v.asked).0) held
      ∙ rw (answered, opened_by, opens) refl

  -- Where no call on the files fails, the path holds nothing and the staging name is free, creating
  -- an identity under a passphrase succeeds, and where the provider then answers with that
  -- passphrase, unlocking gives the 32 bytes that were drawn first.
  pub unlock-init :
      (w : World)
      → w.files path ≡ none
      → w.files (staging_at crypto hex env clear own.file (tick w)) ≡ none
      → provider (init crypto hex env own passphrase w).1.asked ≡ ok passphrase
      → ((init crypto hex env own passphrase w).0 ≡ ok tt)
        × ((unlock crypto hex env own (init crypto hex env own passphrase w).1).0
            ≡ ok (env.random w.time 32))
  unfolding init
  unlock-init w absent free answered =
      let secret = env.random w.time 32 in
      let (file, sealed, _, opens, _) =
        decrypt-seal crypto law (env.random (suc w.time) 32) (env.random (suc (suc w.time)) 12)
          secret passphrase (drawn (suc w.time) 32) (drawn (suc (suc w.time)) 12)
          (drawn w.time 32) in
      let (done, there) =
        (save_exclusive_iff crypto hex env clear own.file secret passphrase file (tick w) sealed
            free).0
          absent in
      let make = generate crypto hex env own.file passphrase in
      let known = generate-save w in
      let made = map_err-ok {w = w} (init_error path) make (
        ap
          (λ (r : Result SignerError (Unit {0})).
            let s : Result SignerError (Unit {0}) × World = (r, (make w).1) in s)
          (ap (λ r. r.0) known ∙ done)) in
      let after = (init crypto hex env own passphrase w).1 in
      let held = ap (λ r. r.1.files path) made ∙ ap (λ r. r.1.files path) known ∙ there in
      (ap (λ r. r.0) made, unlock-opened after file secret held answered opens)
