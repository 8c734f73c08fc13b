-- ===== src/Format/Export.antt =====
-- src/export.rs: all public keys of an identity.
use styrene_identity.Prelude.{Bool, [], if◌then◌else◌, Bytes, codes}
use styrene_identity.External.Ed25519.{Ed25519}
use styrene_identity.External.Hex.{Hex}
use styrene_identity.Derive
use styrene_identity.Derive.{Hkdf}
use styrene_identity.Identity
use styrene_identity.Format.{
  TextCodec, ssh_pubkey, ssh_pubkey_fingerprint, wireguard_pubkey, age_recipient,
}

pub record AllPublicKeys : Type 0 where
  pub identity_hash : Bytes
  pub signing_pubkey : Bytes
  pub signing_pubkey_hex : Bytes
  pub ssh_host_pubkey : Bytes
  pub ssh_host_fingerprint : Bytes
  pub wireguard_pubkey : Bytes
  pub age_recipient : Bytes

-- The last argument but one says whether the program is built with the `age-format` feature.
unfoldable pub from_root :
    TextCodec
    → Ed25519
    → (Bytes → Bytes)
    → (Bytes → Bytes)
    → Hex
    → Hkdf
    → Bool
    → Bytes
    → AllPublicKeys
from_root codec ed x25519 sha256 hex hkdf age_format root =
    let pubkey = Identity.identity_pubkey hkdf ed root in
    let deriver = Derive.new hkdf root in
    let host = Derive.derive hkdf deriver Derive.ssh_host in
    let wireguard = Derive.derive hkdf deriver Derive.wire_guard in
    let age = Derive.derive hkdf deriver Derive.age in
    record {
      identity_hash = Identity.identity_hash sha256 hex hkdf ed root;
      signing_pubkey = pubkey;
      signing_pubkey_hex = Hex.encode hex pubkey;
      ssh_host_pubkey = ssh_pubkey codec ed x25519 sha256 host (codes "styrene");
      ssh_host_fingerprint = ssh_pubkey_fingerprint codec ed x25519 sha256 host;
      wireguard_pubkey = wireguard_pubkey codec ed x25519 sha256 wireguard;
      age_recipient = if age_format then age_recipient codec ed x25519 sha256 age else [];
    }
