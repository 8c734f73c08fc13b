-- ===== src/Tests/Honest.antt =====
-- A chain of a file signer and an Android signer at concrete data.
use styrene_identity.Prelude.{
  ◌≡◌, refl, true, none, ok, List, [], ◌∷◌, ◌++◌, map, Option, Bytes, bytes_eq, codes,
}
use styrene_identity.External.Ed25519.{Ed25519}
use styrene_identity.Derive
use styrene_identity.Identity.{identity_pubkey}
use styrene_identity.Pubkey.{sign_with_seed}
use styrene_identity.Platform.Android
use styrene_identity.SignerChain
use styrene_identity.SignerChain.{new_sorted, root_secret, sign}
use styrene_identity.SignerChain.Signers.{
  Configured, file, android, signer_of, file_identity_signer, android_identity_signer,
}
use styrene_identity.SignerChain.Honest.{verify-new_sorted}
use styrene_identity.Tests.Cryptography.{fit, hkdf, ed25519, ed25519-IsEd25519, crypto}
use styrene_identity.Tests.HexText.{hex}
use styrene_identity.Tests.Storage.{env, vault, empty}
use styrene_identity.Tests.Stores.{entry, drawn}

abbrev signers : List (Configured (Option Bytes) (Unit {0}))
signers = file crypto hex env vault.file empty ∷ android entry drawn none ∷ []

abbrev message : Bytes
message = codes "hello"

abbrev key : Bytes
key = fit 32 (codes "styrene-rns-signing-v1" ++ (Derive.hkdf_salt ++ drawn))

signed :
    sign (new_sorted (map (signer_of hkdf ed25519) signers)) message
    ≡ ok (Ed25519.sign ed25519 key message)
unfolding sign SignerChain.first_sign new_sorted SignerChain.sort_by_tier SignerChain.insert_by_tier
    SignerChain.rank signer_of file_identity_signer android_identity_signer Android.sign
    Android.load_or_create_root_secret Android.load_or_create Android.store_verified sign_with_seed
    Derive.new Derive.derive Derive.info bytes_eq
signed = refl

verify-new_sorted_example :
    (root : Bytes) × (root_secret (new_sorted (map (signer_of hkdf ed25519) signers)) ≡ ok root)
    × (Ed25519.verify ed25519
          (identity_pubkey hkdf ed25519 root)
          message
          (Ed25519.sign ed25519 key message)
        ≡ true)
verify-new_sorted_example =
    verify-new_sorted hkdf ed25519 ed25519-IsEd25519 signers message
      (Ed25519.sign ed25519 key message) signed
