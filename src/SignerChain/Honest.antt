-- ===== src/SignerChain/Honest.antt =====
-- Every signer, and so every chain, signs for the identity whose root secret it gives.
use styrene_identity.Prelude.{
  ◌≡◌, sym, ◌∙◌, inl, inr, Bool, true, Option, Result-cases, ok, ok-injective, >>=-eq-ok, List, [],
  ◌∷◌, map, All, All-elim, Bytes, arith,
}
use styrene_identity.External.Ed25519.{Ed25519, IsEd25519}
use styrene_identity.External.Hex.{Hex}
use styrene_identity.Derive
use styrene_identity.Derive.{Hkdf}
use styrene_identity.Identity.{identity_pubkey}
use styrene_identity.Pubkey.{ed25519_verifying_key, sign_with_seed}
use styrene_identity.FileSystem.{Env, World, ◌>>=◌, lift}
use styrene_identity.Platform.Store
use styrene_identity.FileSigner.{FileCrypto, FileSigner}
use styrene_identity.FileSigner.Custody
use styrene_identity.SignerChain.{IdentitySigner, new_sorted, root_secret, sign}
use styrene_identity.SignerChain.Choice.{new_sorted-IsChosen, chain-IsAnsweredBy}
use styrene_identity.SignerChain.Signers.{
  Configured, file, android, keychain, yubikey, signer_of, file_identity_signer,
  android_identity_signer, keychain_identity_signer, yubikey_identity_signer,
}
use styrene_identity.Platform.Android
use styrene_identity.Platform.Keychain
use styrene_identity.Platform.YubiKey

module _ (hkdf : Hkdf) (ed : Ed25519) where
  -- A signature of the signer verifies under the identity of the root secret that it gives.
  pub record IsHonest (s : IdentitySigner) : Type 0 where
    pub honest :
        (message sig : Bytes)
        → s.sign message ≡ ok sig
        → (root : Bytes) × (s.root_secret ≡ ok root)
          × (Ed25519.verify ed (identity_pubkey hkdf ed root) message sig ≡ true)

  module _ (signs : IsEd25519 ed) where
    own_signature :
        (root message sig : Bytes)
        → sign_with_seed ed (Derive.derive hkdf (Derive.new hkdf root) Derive.signing) message ≡ sig
        → Ed25519.verify ed (identity_pubkey hkdf ed root) message sig ≡ true
    unfolding identity_pubkey ed25519_verifying_key sign_with_seed
    own_signature root message sig e =
        let seed = Derive.derive hkdf (Derive.new hkdf root) Derive.signing in
        rw (← e) (signs.verify-sign seed message)

    file-IsHonest :
        (crypto : FileCrypto) (hex : Hex) (env : Env) (self : FileSigner) (w : World)
        → IsHonest (file_identity_signer hkdf ed crypto hex env self w)
    unfolding file_identity_signer Custody.sign sign_with_seed
    file-IsHonest crypto hex env self w = record {
      honest = λ message sig h. elim (Result-cases (Custody.root_secret crypto hex env self w).0) [
        | inr (why, e) ↦ absurd (let h' = rw (e, ◌>>=◌) at h in ground arith)
        | inl (root, e) ↦
            (root, e, own_signature root message sig (ok-injective (rw (e, ◌>>=◌, lift) at h)))
      ];
    }

    android-IsHonest :
        {S : Type 0} (entry : Android.Entry S) (drawn : Bytes) (s : S)
        → IsHonest (android_identity_signer hkdf ed entry drawn s)
    unfolding android_identity_signer Android.sign
    android-IsHonest entry drawn s = record {
      honest = λ message sig h.
          elim (Result-cases (Android.load_or_create_root_secret entry drawn s).0) [
            | inr (why, e) ↦ absurd (let h' = rw (e, Store.◌>>=◌) at h in ground arith)
            | inl (root, e) ↦ (
              root,
              e,
              own_signature root message sig (ok-injective (rw (e, Store.◌>>=◌, Store.lift) at h)),
            )
          ];
    }

    keychain-IsHonest :
        {S : Type 0} (access : Keychain.Keychain S) (self : Keychain.KeychainSigner) (s : S)
        → IsHonest (keychain_identity_signer hkdf ed access self s)
    unfolding keychain_identity_signer Keychain.sign
    keychain-IsHonest access self s = record {
      honest = λ message sig h. elim (Result-cases (Keychain.root_secret access self s).0) [
        | inr (why, e) ↦ absurd (let h' = rw (e, Store.◌>>=◌) at h in ground arith)
        | inl (root, e) ↦ (
          root,
          e,
          own_signature root message sig (ok-injective (rw (e, Store.◌>>=◌, Store.lift) at h)),
        )
      ];
    }

    yubikey-IsHonest :
        (base64 : YubiKey.Base64) (sha256 : Bytes → Bytes) (connected : Option YubiKey.Device)
        (plugged : Bool) (self : YubiKey.YubiKeySigner) (challenge : Bytes)
        → IsHonest (yubikey_identity_signer hkdf ed base64 sha256 connected plugged self challenge)
    unfolding yubikey_identity_signer YubiKey.sign
    yubikey-IsHonest base64 sha256 connected plugged self challenge = record {
      honest = λ message sig h.
          let (root, e, h') =
            >>=-eq-ok (YubiKey.root_secret base64 sha256 connected self challenge) _ h in
          (root, e, own_signature root message sig (ok-injective h'));
    }

  new_sorted-IsHonest :
      (signers : List IdentitySigner)
      → All IsHonest signers
      → (message sig : Bytes) → sign (new_sorted signers) message ≡ ok sig
      → (root : Bytes) × (root_secret (new_sorted signers) ≡ ok root)
        × (Ed25519.verify ed (identity_pubkey hkdf ed root) message sig ≡ true)
  new_sorted-IsHonest signers all message sig h = elim (chain-IsAnsweredBy (new_sorted signers)) [
    | inr silent ↦ absurd (let refused = silent.no_signature message in ground arith)
    | inl (s, answer) ↦
        let member = (new_sorted-IsChosen signers s answer.first).member in
        let one = All-elim IsHonest signers all s member in
        let (root, given, verified) = one.honest message sig (sym (answer.sign_lem message) ∙ h) in
        (root, answer.root_lem ∙ given, verified)
  ]

  configured-IsHonest :
      {S T : Type 0} → IsEd25519 ed → (c : Configured S T) → IsHonest (signer_of hkdf ed c)
  unfolding signer_of
  configured-IsHonest signs (file crypto hex env self w) = file-IsHonest signs crypto hex env self w
  configured-IsHonest signs (android entry drawn s) = android-IsHonest signs entry drawn s
  configured-IsHonest signs (keychain access self s) = keychain-IsHonest signs access self s
  configured-IsHonest signs (yubikey base64 sha256 connected plugged self challenge) =
      yubikey-IsHonest signs base64 sha256 connected plugged self challenge

  all-IsHonest :
      {S T : Type 0}
      → IsEd25519 ed
      → (signers : List (Configured S T)) → All IsHonest (map (signer_of hkdf ed) signers)
  all-IsHonest signs [] = tt
  all-IsHonest signs (c ∷ rest) = (configured-IsHonest signs c, all-IsHonest signs rest)

  -- A signature of a sorted chain of file, Android, Keychain and YubiKey signers verifies under the
  -- identity of the root secret that the same chain gives in the same states of their stores, the
  -- file's passphrase provider included.
  pub verify-new_sorted :
      {S T : Type 0}
      → IsEd25519 ed
      → (signers : List (Configured S T)) (message sig : Bytes)
      → sign (new_sorted (map (signer_of hkdf ed) signers)) message ≡ ok sig
      → (root : Bytes) × (root_secret (new_sorted (map (signer_of hkdf ed) signers)) ≡ ok root)
        × (Ed25519.verify ed (identity_pubkey hkdf ed root) message sig ≡ true)
  verify-new_sorted signs signers message sig h =
      new_sorted-IsHonest (map (signer_of hkdf ed) signers) (all-IsHonest signs signers) message sig
        h
