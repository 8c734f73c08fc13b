-- ===== src/Records/KeyId.antt =====
-- Public keys and key ids of src/records/mod.rs: what `validate` accepts, and what a key id binds.
use styrene_identity.Prelude.{
  ◌<◌, ◌^◌, ◌≡◌, refl, sym, ◌∙◌, ◌≢◌, ◌↔◌, ◌⊎◌, inl, inr, Option, ◌++◌, ok, >>=-eq-ok, ok-injective,
  length, append_inj, Bytes, be16, first_or, IsReadBack, Collision, eq_or_Collision, arith,
}
use styrene_identity.Records.Frame.{be16-injective}
use styrene_identity.Records.{
  SignatureSuite, id, RsaPublicKey, PublicKey, suite, validate, EncodeRsa, canonical_bytes,
  key_id_domain, derive_key_id,
}

-- A key is well formed: an Ed25519 key always is; a P-256 point is compressed; an RSA modulus has
-- one of three sizes and no leading zero, and the exponent is 65537.
abbrev pub IsWellFormed : PublicKey → Type 0
IsWellFormed (PublicKey.ed25519 _) = Unit {0}
IsWellFormed (PublicKey.ecdsa_p256 bytes) = (first_or bytes 0 ≡ 2) ⊎ (first_or bytes 0 ≡ 3)
IsWellFormed (PublicKey.rsa_pss key) =
    ((length key.modulus ≡ 256) ⊎ ((length key.modulus ≡ 384) ⊎ (length key.modulus ≡ 512)))
    × (first_or key.modulus 0 ≢ 0)
    × (key.exponent ≡ 65_537)

-- Validation accepts exactly the well-formed keys.
pub validate-IsWellFormed : (key : PublicKey) → (validate key ≡ ok tt) ↔ IsWellFormed key
unfolding validate
validate-IsWellFormed (PublicKey.ed25519 _) = (λ _. tt, λ _. refl)
validate-IsWellFormed (PublicKey.ecdsa_p256 bytes) = ground arith
validate-IsWellFormed (PublicKey.rsa_pss key) = ground arith

id-injective : (a b : SignatureSuite) → id a ≡ id b → a ≡ b
unfolding id
id-injective a b e = ground arith

id-lt : (a : SignatureSuite) → id a < 2 ^ 16
unfolding id
id-lt a = ground arith

module _ (to_vec : EncodeRsa) (decode : Bytes → Option RsaPublicKey)
    (law : IsReadBack to_vec decode) where
  canonical_bytes-injective :
      (k k' : PublicKey) (bytes : Bytes)
      → suite k ≡ suite k'
      → canonical_bytes to_vec k ≡ ok bytes
      → canonical_bytes to_vec k' ≡ ok bytes
      → k ≡ k'
  unfolding canonical_bytes suite
  canonical_bytes-injective (PublicKey.ed25519 a) (PublicKey.ed25519 b) bytes s h h' = ground arith
  canonical_bytes-injective (PublicKey.ed25519 a) (PublicKey.ecdsa_p256 b) bytes s h h' = cc
  canonical_bytes-injective (PublicKey.ed25519 a) (PublicKey.rsa_pss b) bytes s h h' = cc
  canonical_bytes-injective (PublicKey.ecdsa_p256 a) (PublicKey.ed25519 b) bytes s h h' = cc
  canonical_bytes-injective (PublicKey.ecdsa_p256 a) (PublicKey.ecdsa_p256 b) bytes s h h' =
      ground (arith)
  canonical_bytes-injective (PublicKey.ecdsa_p256 a) (PublicKey.rsa_pss b) bytes s h h' = cc
  canonical_bytes-injective (PublicKey.rsa_pss a) (PublicKey.ed25519 b) bytes s h h' = cc
  canonical_bytes-injective (PublicKey.rsa_pss a) (PublicKey.ecdsa_p256 b) bytes s h h' = cc
  canonical_bytes-injective (PublicKey.rsa_pss a) (PublicKey.rsa_pss b) bytes s h h' =
      ground (arith, law a bytes, law b bytes)

  preimage : PublicKey → Bytes → Bytes
  preimage key canonical = key_id_domain ++ (be16 (id (suite key)) ++ canonical)

  derive_key_id-preimage :
      (sha256 : Bytes → Bytes) (k : PublicKey) {key_id : Bytes}
      → derive_key_id to_vec sha256 k ≡ ok key_id
      → (c : Bytes) × (canonical_bytes to_vec k ≡ ok c) × (sha256 (preimage k c) ≡ key_id)
  unfolding derive_key_id preimage
  derive_key_id-preimage sha256 k h =
      let (c, canonical, e) =
        >>=-eq-ok (canonical_bytes to_vec k) (λ c. ok (sha256 (preimage k c))) h in
      (c, canonical, ok-injective e)

  preimage-injective :
      (k k' : PublicKey) (c c' : Bytes)
      → preimage k c ≡ preimage k' c'
      → (suite k ≡ suite k') × (c ≡ c')
  unfolding preimage
  preimage-injective k k' c c' e =
      let (_, rest) = append_inj key_id_domain key_id_domain refl e in
      let (ids, same) = append_inj (be16 (id (suite k))) (be16 (id (suite k'))) refl rest in
      (id-injective _ _ (be16-injective _ _ (id-lt (suite k)) (id-lt (suite k')) ids), same)

  -- Where the encoding of RSA keys can be read back, two public keys with one key id are the same
  -- key, or they exhibit a collision of SHA-256. The suite is part of what the id binds, so this
  -- holds for keys of different suites too.
  pub derive_key_id-binding :
      (sha256 : Bytes → Bytes) (k k' : PublicKey) (key_id : Bytes)
      → derive_key_id to_vec sha256 k ≡ ok key_id
      → derive_key_id to_vec sha256 k' ≡ ok key_id
      → (k ≡ k') ⊎ Collision sha256
  derive_key_id-binding sha256 k k' key_id h h' =
      let (c, hc, e) = derive_key_id-preimage sha256 k h in
      let (c', hc', e') = derive_key_id-preimage sha256 k' h' in
      elim (eq_or_Collision sha256 (preimage k c) (preimage k' c') (e ∙ sym e')) [
        | inl same ↦
            let (suites, bytes) = preimage-injective k k' c c' same in
            inl (canonical_bytes-injective k k' c suites hc (rw bytes hc'))
        | inr collision ↦ inr collision
      ]
