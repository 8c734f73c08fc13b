-- ===== src/Format.antt =====
-- src/format.rs: the texts of derived keys. A text is its bytes. Base64, Bech32, SHA-256 and X25519 are
-- parameters.
pub mod Export
pub mod Fingerprint
use styrene_identity.Prelude.{
  ◌-◌, ◌&&◌, leb, true, false, if◌then◌else◌, ℕ, Bool, true, false, [], ◌∷◌, ◌++◌, if◌then◌else◌,
  length, Bytes, codes, be32,
}
use styrene_identity.External.Ed25519.{Ed25519}
use styrene_identity.Pubkey.{ed25519_verifying_key, x25519_public_key}

-- Base64 with and without padding, and Bech32 with a prefix.
pub record TextCodec : Type 0 where
  pub base64 : Bytes → Bytes
  pub base64_no_pad : Bytes → Bytes
  pub bech32 : Bytes → Bytes → Bytes

-- `to_uppercase` of an ASCII text, as Bech32 gives.
unfoldable pub to_uppercase : Bytes → Bytes
to_uppercase [] = []
to_uppercase (x ∷ xs) = (if leb b'a' x && leb x b'z' then x - 32 else x) ∷ to_uppercase xs

abbrev pub key_type : Bytes
key_type = codes "ssh-ed25519"

module _ (codec : TextCodec) (ed : Ed25519) (x25519 sha256 : Bytes → Bytes) where
  unfoldable pub ssh_wire_pubkey : Bytes → Bytes
  ssh_wire_pubkey seed =
      let pubkey_bytes = ed25519_verifying_key ed seed in
      be32 (length key_type) ++ (key_type ++ (be32 (length pubkey_bytes) ++ pubkey_bytes))

  unfoldable pub ssh_pubkey : Bytes → Bytes → Bytes
  ssh_pubkey seed comment =
      codes "ssh-ed25519 "
      ++ (TextCodec.base64 codec (ssh_wire_pubkey seed) ++ (b' ' ∷ (comment ++ (10 ∷ []))))

  unfoldable pub ssh_pubkey_fingerprint : Bytes → Bytes
  ssh_pubkey_fingerprint seed =
      codes "SHA256:" ++ TextCodec.base64_no_pad codec (sha256 (ssh_wire_pubkey seed))

  unfoldable pub wireguard_privkey : Bytes → Bytes
  wireguard_privkey secret = TextCodec.base64 codec secret

  unfoldable pub wireguard_pubkey : Bytes → Bytes
  wireguard_pubkey secret = TextCodec.base64 codec (x25519_public_key x25519 secret)

  unfoldable pub age_identity : Bytes → Bytes
  age_identity secret = to_uppercase (TextCodec.bech32 codec (codes "AGE-SECRET-KEY-") secret)

  unfoldable pub age_recipient : Bytes → Bytes
  age_recipient secret = TextCodec.bech32 codec (codes "age") (x25519_public_key x25519 secret)

  unfoldable pub git_signing_config : Bytes → Bytes
  git_signing_config seed =
      codes "[gpg]\n    format = ssh\n[user]\n    signingkey = key::ssh-ed25519 "
      ++ (TextCodec.base64 codec (ssh_wire_pubkey seed) ++ codes "\n[commit]\n    gpgsign = true\n")
