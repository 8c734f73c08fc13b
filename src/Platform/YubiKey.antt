-- ===== src/Platform/YubiKey.antt =====
-- src/yubikey_signer.rs: the root secret that a FIDO2 device computes. The device, Base64 and SHA-256
-- are parameters, and so is each challenge that is drawn. Of an error's text its fixed part is kept.
pub mod Root
use styrene_identity.Prelude.{
  Bool, true, false, not, Option, none, some, Result, ok, err, ◌>>=◌, ok_or, reject, ◌>>◌,
  if◌then◌else◌, List, [], ◌∷◌, ◌++◌, Bytes, codes, is_empty,
}
use styrene_identity.External.Ed25519.{Ed25519}
use styrene_identity.Derive
use styrene_identity.Derive.{Hkdf}
use styrene_identity.FileSigner.{SignerError, unavailable, key_not_found, signing_failed, text}
use styrene_identity.Pubkey.{sign_with_seed}

-- The extensions of an assertion.
pub data Extension : Type 0 where
  hmac_secret : Option Bytes → Extension
  other_extension : Extension

pub record Assertion : Type 0 where
  pub extensions : List Extension

-- The arguments of an assertion: the salt is that of the hmac-secret extension.
pub record GetAssertionArgs : Type 0 where
  pub rp_id : Bytes
  pub challenge : Bytes
  pub credential_id : Bytes
  pub salt : Bytes
  pub pin : Option Bytes
  pub without_pin_and_uv : Bool

-- The arguments of a new credential: an Ed25519 key, resident, with the hmac-secret extension.
pub record MakeCredentialArgs : Type 0 where
  pub rp_id : Bytes
  pub challenge : Bytes
  pub pin : Option Bytes

pub record Device : Type 0 where
  pub get_assertion_with_args : GetAssertionArgs → Option (List Assertion)
  -- The id of the credential that was made.
  pub make_credential_with_args : MakeCredentialArgs → Option Bytes

pub record Base64 : Type 0 where
  pub encode : Bytes → Bytes
  pub decode : Bytes → Option Bytes

pub record YubiKeySigner : Type 0 where
  pub credential_id_b64 : Bytes
  pub rp_id : Bytes
  pub require_touch : Bool
  pub label : Bytes
  -- `get_pin` of the provider has this result.
  pub pin_provider : Result SignerError (Option Bytes)

unfoldable pub new : Bytes → Bytes → Bool → Result SignerError (Option Bytes) → YubiKeySigner
new credential_id_b64 rp_id require_touch pin_provider = record {
  credential_id_b64 = credential_id_b64;
  rp_id = rp_id;
  require_touch = require_touch;
  label = codes "yubikey:" ++ rp_id;
  pin_provider = pin_provider;
}

-- `NoPinProvider`
unfoldable pub no_pin_provider : Result SignerError (Option Bytes)
no_pin_provider = ok none

-- The loop over the extensions.
unfoldable pub first_hmac_secret : List Extension → Result SignerError Bytes
first_hmac_secret [] = err (key_not_found (text "YubiKey did not return hmac-secret output"))
first_hmac_secret (hmac_secret (some output) ∷ rest) = ok output
first_hmac_secret (hmac_secret none ∷ rest) = first_hmac_secret rest
first_hmac_secret (other_extension ∷ rest) = first_hmac_secret rest

unfoldable pub first_assertion : List Assertion → Result SignerError Assertion
first_assertion [] = err (key_not_found (text "no assertion returned"))
first_assertion (assertion ∷ _) = ok assertion

-- The PIN where there is one, and otherwise no user verification unless touch is required.
unfoldable pub waives_verification : Option Bytes → Bool → Bool
waives_verification (some _) require_touch = false
waives_verification none require_touch = not require_touch

-- `connected` is the device that is found, if any.
module _ (base64 : Base64) (sha256 : Bytes → Bytes) (connected : Option Device) where
  unfoldable pub styrene_identity_salt : Bytes
  styrene_identity_salt = sha256 (codes "styrene-identity-root-v1")

  unfoldable pub setup_credential : Bytes → Option Bytes → Bytes → Result SignerError Bytes
  setup_credential rp_id pin challenge = do
    device ← ok_or connected (unavailable (text "no YubiKey detected"))
    let args : MakeCredentialArgs = record { rp_id = rp_id; challenge = challenge; pin = pin }
    cred_id ←
        ok_or (Device.make_credential_with_args device args)
          (signing_failed (text "credential creation failed"))
    reject (is_empty cred_id) (key_not_found (text "no credential ID in attestation response"))
    ok (Base64.encode base64 cred_id)

  unfoldable pub derive_root : YubiKeySigner → Option Bytes → Bytes → Result SignerError Bytes
  derive_root self pin challenge = do
    device ← ok_or connected (unavailable (text "no YubiKey detected"))
    credential_id ←
        ok_or (Base64.decode base64 self.credential_id_b64)
          (key_not_found (text "invalid credential ID base64"))
    let args : GetAssertionArgs = record {
      rp_id = self.rp_id;
      challenge = challenge;
      credential_id = credential_id;
      salt = styrene_identity_salt;
      pin = pin;
      without_pin_and_uv = waives_verification pin self.require_touch;
    }
    assertions ←
        ok_or (Device.get_assertion_with_args device args)
          (signing_failed (text "hmac-secret assertion failed"))
    assertion ← first_assertion assertions
    first_hmac_secret assertion.extensions

  unfoldable pub root_secret : YubiKeySigner → Bytes → Result SignerError Bytes
  root_secret self challenge = do pin ← self.pin_provider; derive_root self pin challenge

  unfoldable pub sign : Hkdf → Ed25519 → YubiKeySigner → Bytes → Bytes → Result SignerError Bytes
  sign hkdf ed self challenge message = do
    root ← root_secret self challenge
    let seed = Derive.derive hkdf (Derive.new hkdf root) Derive.signing
    ok (sign_with_seed ed seed message)
