-- ===== src/Vault/Kept.antt =====
-- src/vault.rs and src/file_signer.rs: an identity that was created stays with its vault.
use styrene_identity.Prelude.{
  ℕ, ◌≡◌, refl, ap, sym, ◌∙◌, inl, inr, none, some, Result, ok, ok-injective, Bytes, length, arith,
}
use styrene_identity.Prelude
use styrene_identity.FileSystem.{FilePath, Env, World, tick}
use styrene_identity.External.Hex.{Hex}
use styrene_identity.FileSigner.{FileCrypto, static_passphrase, decrypt, opened_by}
use styrene_identity.FileSigner.RoundTrip.{IsFileCrypto}
use styrene_identity.FileSigner.Custody.Saved.{staging_at}
use styrene_identity.Vault.{IdentityVault, signer, init, unlock}
use styrene_identity.Vault.Created.{own, unlock-init}
use styrene_identity.Vault.History.{Reach, unlock-Reach}

module _ (env : Env) (clear : (time : ℕ) → env.fault time ≡ none)
    (drawn : (time n : ℕ) → length (env.random time n) ≡ n) (crypto : FileCrypto)
    (law : IsFileCrypto crypto) (hex : Hex) (path : FilePath) (passphrase : Bytes) where
  abbrev pub static_vault : IdentityVault
  static_vault = own env clear drawn crypto law hex path (static_passphrase passphrase) passphrase

  same_answer :
      (p b secret : Bytes) (first later : ℕ)
      → static_passphrase passphrase first ≡ ok p
      → decrypt crypto b p ≡ ok secret
      → Prelude.map_err signer (opened_by (static_passphrase passphrase later) (decrypt crypto b))
        ≡ ok secret
  unfolding static_passphrase opened_by
  same_answer p b secret first later known opens =
      let same : passphrase ≡ p = ok-injective known in rw (same, opens) refl

  -- Where no call on the files fails, the path holds nothing and the staging name is free, a vault
  -- whose provider gives one passphrase creates an identity under it; and after every sequence of
  -- operations on vaults and identity files since then, this vault's and any other's, it unlocks to
  -- the 32 bytes that were drawn first.
  pub unlock-static_passphrase :
      (w v : World)
      → w.files path ≡ none
      → w.files (staging_at crypto hex env clear static_vault.file (tick w)) ≡ none
      → Reach crypto hex env (init crypto hex env static_vault passphrase w).1 v
      → ((init crypto hex env static_vault passphrase w).0 ≡ ok tt)
        × ((unlock crypto hex env static_vault v).0 ≡ ok (env.random w.time 32))
  unfolding static_passphrase
  unlock-static_passphrase w v absent free run =
      let provider = static_passphrase passphrase in
      let (done, found) =
        unlock-init env clear drawn crypto law hex path provider passphrase w absent free refl in
      let secret = env.random w.time 32 in
      let after = (init crypto hex env static_vault passphrase w).1 in
      let (b, p, known, opens, later) = unlock-Reach crypto hex env static_vault secret run found in
      (
        done,
        elim later [
          | inl answer ↦ answer ∙ same_answer p b secret after.asked v.asked known opens
          | inr (e, failed, _) ↦ absurd (let fine = clear v.time in ground arith)
        ],
      )
