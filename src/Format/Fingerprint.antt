-- ===== src/Format/Fingerprint.antt =====
-- src/format.rs: a fingerprint stands for one public key.
use styrene_identity.Prelude.{
  ◌≡◌, ◌⊎◌, inl, inr, refl, sym, ap, ◌∙◌, Option, some, length, append_inj, Bytes, codes, be32,
  Collision, eq_or_Collision,
}
use styrene_identity.External.Ed25519.{Ed25519, IsEd25519}
use styrene_identity.Pubkey.{ed25519_verifying_key}
use styrene_identity.Format.{TextCodec, key_type, ssh_wire_pubkey, ssh_pubkey_fingerprint}

-- Base64 is read back.
pub record IsBase64 (codec : TextCodec) : Type 0 where
  pub decode : Bytes → Option Bytes
  pub decode-encode : (b : Bytes) → decode (codec.base64_no_pad b) ≡ some b

module _ (codec : TextCodec) (law : IsBase64 codec) (ed : Ed25519) (points : IsEd25519 ed)
    (x25519 sha256 : Bytes → Bytes) where
  base64-injective : (a b : Bytes) → codec.base64_no_pad a ≡ codec.base64_no_pad b → a ≡ b
  base64-injective a b e =
      let read = law.decode-encode a in
      let read' = law.decode-encode b in let same = ap law.decode e in cc

  ssh_wire_pubkey-injective :
      (a b : Bytes)
      → ssh_wire_pubkey codec ed x25519 sha256 a ≡ ssh_wire_pubkey codec ed x25519 sha256 b
      → ed25519_verifying_key ed a ≡ ed25519_verifying_key ed b
  unfolding ssh_wire_pubkey ed25519_verifying_key
  ssh_wire_pubkey-injective a b e =
      let (_, behind) = append_inj (be32 (length key_type)) (be32 (length key_type)) refl e in
      let (_, sized) = append_inj key_type key_type refl behind in
      let size = points.key_size a ∙ sym (points.key_size b) in
      (append_inj (be32 (length (ed.verifying_key a))) (be32 (length (ed.verifying_key b))) refl
        sized).1

  -- Two seeds with one fingerprint have the same public key, or their wire forms are a collision
  -- of SHA-256.
  pub ssh_pubkey_fingerprint-binding :
      (a b : Bytes)
      → ssh_pubkey_fingerprint codec ed x25519 sha256 a
        ≡ ssh_pubkey_fingerprint codec ed x25519 sha256 b
      → (ed25519_verifying_key ed a ≡ ed25519_verifying_key ed b) ⊎ Collision sha256
  unfolding ssh_pubkey_fingerprint
  ssh_pubkey_fingerprint-binding a b e =
      let (_, texts) = append_inj (codes "SHA256:") (codes "SHA256:") refl e in
      let wire = ssh_wire_pubkey codec ed x25519 sha256 in
      elim (eq_or_Collision sha256 (wire a) (wire b)
        (base64-injective (sha256 (wire a)) (sha256 (wire b)) texts)) [
          | inl same ↦ inl (ssh_wire_pubkey-injective a b same)
          | inr collision ↦ inr collision
        ]
