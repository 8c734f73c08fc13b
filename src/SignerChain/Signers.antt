-- ===== src/SignerChain/Signers.antt =====
-- The implementations of `IdentitySigner`: src/file_signer.rs, src/android_keystore_signer.rs,
-- src/keychain_signer.rs and src/yubikey_signer.rs. Each is what it answers in one state of its store.
use styrene_identity.Prelude.{Bool, true, Option, is_some, ◌++◌, Bytes, codes}
use styrene_identity.External.Ed25519.{Ed25519}
use styrene_identity.External.Hex.{Hex}
use styrene_identity.Derive.{Hkdf}
use styrene_identity.FileSystem.{Env, World, join, display}
use styrene_identity.FileSigner.{FileCrypto, FileSigner}
use styrene_identity.FileSigner.Custody
use styrene_identity.SignerChain.{IdentitySigner, hardware_hsm, device_hsm, encrypted_file}
use styrene_identity.Platform.Android
use styrene_identity.Platform.Keychain
use styrene_identity.Platform.YubiKey

module _ (hkdf : Hkdf) (ed : Ed25519) where
  unfoldable pub file_identity_signer : FileCrypto → Hex → Env → FileSigner → World → IdentitySigner
  file_identity_signer crypto hex env self w = record {
    tier = encrypted_file;
    label = codes "file:" ++ join self.path.dir (display self.path.name);
    is_available = is_some (w.files self.path);
    root_secret = (Custody.root_secret crypto hex env self w).0;
    sign = λ message. (Custody.sign crypto hex env hkdf ed self message w).0;
  }

  unfoldable pub android_identity_signer :
      {S : Type 0} → Android.Entry S → Bytes → S → IdentitySigner
  android_identity_signer entry drawn s = record {
    tier = device_hsm;
    label = codes "Android Keystore";
    is_available = true;
    root_secret = (Android.load_or_create_root_secret entry drawn s).0;
    sign = λ message. (Android.sign entry hkdf ed drawn message s).0;
  }

  unfoldable pub keychain_identity_signer :
      {S : Type 0} → Keychain.Keychain S → Keychain.KeychainSigner → S → IdentitySigner
  keychain_identity_signer keychain self s = record {
    tier = device_hsm;
    label = codes "Keychain (after first unlock)";
    is_available = Keychain.or_false (Keychain.presence keychain self s).0;
    root_secret = (Keychain.root_secret keychain self s).0;
    sign = λ message. (Keychain.sign keychain self hkdf ed message s).0;
  }

  -- `plugged` says whether a FIDO device is listed.
  unfoldable pub yubikey_identity_signer :
      YubiKey.Base64
      → (Bytes → Bytes)
      → Option YubiKey.Device
      → Bool
      → YubiKey.YubiKeySigner
      → Bytes
      → IdentitySigner
  yubikey_identity_signer base64 sha256 connected plugged self challenge = record {
    tier = hardware_hsm;
    label = self.label;
    is_available = plugged;
    root_secret = YubiKey.root_secret base64 sha256 connected self challenge;
    sign = λ message. YubiKey.sign base64 sha256 connected hkdf ed self challenge message;
  }

-- A signer in a state of its store: the Android entry has a store `S`, the Keychain a store `T`.
pub data Configured (S T : Type 0) : Type 0 where
  file : FileCrypto → Hex → Env → FileSigner → World → Configured S T
  android : Android.Entry S → Bytes → S → Configured S T
  keychain : Keychain.Keychain T → Keychain.KeychainSigner → T → Configured S T
  yubikey :
      YubiKey.Base64
      → (Bytes → Bytes)
      → Option YubiKey.Device
      → Bool
      → YubiKey.YubiKeySigner
      → Bytes
      → Configured S T

unfoldable pub signer_of : {S T : Type 0} → Hkdf → Ed25519 → Configured S T → IdentitySigner
signer_of hkdf ed (file crypto hex env self w) = file_identity_signer hkdf ed crypto hex env self w
signer_of hkdf ed (android entry drawn s) = android_identity_signer hkdf ed entry drawn s
signer_of hkdf ed (keychain access self s) = keychain_identity_signer hkdf ed access self s
signer_of hkdf ed (yubikey base64 sha256 connected plugged self challenge) =
    yubikey_identity_signer hkdf ed base64 sha256 connected plugged self challenge
