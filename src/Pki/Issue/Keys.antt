-- ===== src/Pki/Issue/Keys.antt =====
-- src/pki.rs: which certificates share a private key.
use styrene_identity.Prelude.{
  ◌<◌, ◌^◌, Result, ok, map_err, map_err-eq-ok, >>=-eq-ok, >>-eq-ok, reject-eq-ok, ok-injective,
  ltb, List, [], ◌∷◌, length, All, ◌≡◌, ◌≢◌, ◌⊎◌, inl, inr, sym, ap, ◌∙◌, Bytes, is_empty, arith,
}
use styrene_identity.External.Ed25519.{Ed25519}
use styrene_identity.External.Hex.{Hex}
use styrene_identity.Derive.{Hkdf}
use styrene_identity.Derive.Families.{HkdfCollision, tls_certificate, key_of, key_of-binding}
use styrene_identity.Pki.{CertificateRole, ca, server, client, role_name, tls_seed_label}
use styrene_identity.Pki.SeedLabel.{tls_seed_label-injective}
use styrene_identity.Pki.Profile.{
  StyreneCertificateProfile, StyrenePkiError, from_derive_error, certificate, validate_label,
  validate_profile, max_label_bytes,
}
use styrene_identity.Pki.Names.{NameText}
use styrene_identity.Pki.Params.{Rcgen, key_pair_from_derived_seed, ed25519_seed_to_pkcs8_der}
use styrene_identity.Pki.Issue.{
  StyreneCertificateChain, ca_seed_label, leaf_seed_label, derive_leaf_certificate_chain,
  derive_ca_certificate_with_profile, material_from_cert, StyreneCertificate,
}
use styrene_identity.Pki.Issue.Anchor.{chain-LeafStages, ca-CaStages}

-- A key that was read is written as what was read.
pub record IsRcgen {Error Date KeyPair Certificate : Type 0}
    (rcgen : Rcgen Error Date KeyPair Certificate) : Type 0 where
  pub serialize-read :
      (der : Bytes) (k : KeyPair) → rcgen.try_from_der der ≡ ok k → rcgen.serialize_der k ≡ der

label_size :
    {Error : Type 0} (v : Bytes) → validate_label {Error = Error} v ≡ ok tt → length v < 2 ^ 64
unfolding validate_label
label_size v h =
    let (_, h1) = reject-eq-ok (is_empty v) _ _ h in
    let (_, h2) = reject-eq-ok _ _ _ h1 in
    let (short, _) = reject-eq-ok (ltb max_label_bytes (length v)) _ _ h2 in ground arith

profile_sizes :
    {Error : Type 0} (p : StyreneCertificateProfile)
    → validate_profile {Error = Error} p ≡ ok tt
    → (length p.profile < 2 ^ 64) × (length p.ca_epoch < 2 ^ 64) × (length p.leaf_epoch < 2 ^ 64)
unfolding validate_profile
profile_sizes {Error} p h =
    let (a, h1) = >>-eq-ok (validate_label {Error = Error} p.profile) _ h in
    let (b, h2) = >>-eq-ok (validate_label {Error = Error} p.ca_epoch) _ h1 in
    let (c, _) = >>-eq-ok (validate_label {Error = Error} p.leaf_epoch) _ h2 in
    (label_size p.profile a, label_size p.ca_epoch b, label_size p.leaf_epoch c)

pkcs8-injective : (a b : Bytes) → ed25519_seed_to_pkcs8_der a ≡ ed25519_seed_to_pkcs8_der b → a ≡ b
unfolding ed25519_seed_to_pkcs8_der
pkcs8-injective a b e = ground arith

module _ {Error Date KeyPair Certificate : Type 0} (rcgen : Rcgen Error Date KeyPair Certificate)
    (law : IsRcgen rcgen) (hkdf : Hkdf) (root : Bytes) where
  -- The derivation of the key behind a key pair.
  key_of-key_pair :
      (label : Bytes) (k : KeyPair)
      → key_pair_from_derived_seed rcgen hkdf root label ≡ ok k
      → (seed : Bytes) × (key_of hkdf root (tls_certificate label) ≡ ok seed)
        × (rcgen.serialize_der k ≡ ed25519_seed_to_pkcs8_der seed)
  unfolding key_pair_from_derived_seed key_of
  key_of-key_pair label k h =
      let (_, h1) = reject-eq-ok (is_empty label) _ _ h in
      let (seed, found, h2) = >>=-eq-ok (map_err from_derive_error _) _ h1 in
      (
        seed,
        map_err-eq-ok from_derive_error _ found,
        law.serialize-read (ed25519_seed_to_pkcs8_der seed) k (map_err-eq-ok certificate _ h2),
      )

  -- Key pairs of one root with one private key have one seed label.
  label_of-key_pair :
      (a b : Bytes) (k l : KeyPair)
      → key_pair_from_derived_seed rcgen hkdf root a ≡ ok k
      → key_pair_from_derived_seed rcgen hkdf root b ≡ ok l
      → rcgen.serialize_der k ≡ rcgen.serialize_der l
      → (a ≡ b) ⊎ HkdfCollision hkdf
  label_of-key_pair a b k l ha hb e =
      let (s, fs, ds) = key_of-key_pair a k ha in
      let (t, ft, dt) = key_of-key_pair b l hb in
      let same = pkcs8-injective s t (sym ds ∙ e ∙ dt) in
      elim (key_of-binding hkdf root (tls_certificate a) (tls_certificate b) s tt tt fs
        (ft ∙ ap ok (sym same))) [ inl labels ↦ inl (ground arith) | inr collision ↦ inr collision ]

leaf_seed_label-eq :
    {Error : Type 0} (role : CertificateRole) (scope label : Bytes) (p : StyreneCertificateProfile)
    {seed : Bytes}
    → leaf_seed_label {Error = Error} role scope label p ≡ ok seed
    → (role ≢ ca)
      × (tls_seed_label (role_name role) (p.profile ∷ scope ∷ label ∷ p.leaf_epoch ∷ []) ≡ seed)
unfolding leaf_seed_label role_name
leaf_seed_label-eq server scope label p h = (ground arith, ok-injective h)
leaf_seed_label-eq client scope label p h = (ground arith, ok-injective h)
leaf_seed_label-eq ca scope label p h = absurd (ground arith)

module _ {Error Date KeyPair Certificate : Type 0} (rcgen : Rcgen Error Date KeyPair Certificate)
    (law : IsRcgen rcgen) (sha256 : Bytes → Bytes) (hex : Hex) (text : NameText Error) (hkdf : Hkdf)
    (ed : Ed25519) (root : Bytes) where
  abbrev pub leaf_chain :
      Bytes
      → CertificateRole
      → Bytes
      → List Bytes
      → StyreneCertificateProfile
      → Result (StyrenePkiError Error) StyreneCertificateChain
  leaf_chain = derive_leaf_certificate_chain sha256 hex rcgen text hkdf ed root

  -- What the private key of a leaf was derived from.
  leaf_origin :
      (scope : Bytes) (role : CertificateRole) (label : Bytes) (names : List Bytes)
      (p : StyreneCertificateProfile) {chain : StyreneCertificateChain}
      → leaf_chain scope role label names p ≡ ok chain
      → (k : KeyPair) × (key_pair_from_derived_seed rcgen hkdf root
            (tls_seed_label (role_name role) (p.profile ∷ scope ∷ label ∷ p.leaf_epoch ∷ []))
          ≡ ok k)
        × (chain.leaf.private_key_der ≡ rcgen.serialize_der k)
        × (role ≢ ca)
        × All (λ c. length c < 2 ^ 64) (p.profile ∷ scope ∷ label ∷ p.leaf_epoch ∷ [])
  unfolding material_from_cert
  leaf_origin scope role label names p h =
      let (s, l, e) =
        chain-LeafStages rcgen sha256 hex text hkdf ed root scope p role label names h in
      let (leaf, seed) = leaf_seed_label-eq role scope label p l.seed_ok in
      let (named, _, epoch) = profile_sizes p s.profile_ok in
      (
        l.leaf_key,
        rw seed l.leaf_key_ok,
        ap (λ (c : StyreneCertificateChain). c.leaf.private_key_der) e,
        leaf,
        (named, (label_size scope s.scope_ok, (label_size label l.label_ok, (epoch, tt)))),
      )

  -- Two leaf certificates of one root that share a private key have the same role, profile name,
  -- scope, label and leaf epoch, or they show a collision inside HKDF. A key that was read is
  -- written as what was read.
  pub leaf_keys-separate :
      (scope scope' : Bytes) (role role' : CertificateRole) (label label' : Bytes)
      (names names' : List Bytes) (p p' : StyreneCertificateProfile)
      {chain chain' : StyreneCertificateChain}
      → leaf_chain scope role label names p ≡ ok chain
      → leaf_chain scope' role' label' names' p' ≡ ok chain'
      → chain.leaf.private_key_der ≡ chain'.leaf.private_key_der
      → ((role ≡ role')
          × (p.profile ≡ p'.profile)
          × (scope ≡ scope')
          × (label ≡ label')
          × (p.leaf_epoch ≡ p'.leaf_epoch))
        ⊎ HkdfCollision hkdf
  leaf_keys-separate scope scope' role role' label label' names names' p p' h h' e =
      let (k, made, key, _, sizes) = leaf_origin scope role label names p h in
      let (k', made', key', _, sizes') = leaf_origin scope' role' label' names' p' h' in
      elim (label_of-key_pair rcgen law hkdf root _ _ k k' made made' (sym key ∙ e ∙ key')) [
        | inr collision ↦ inr collision
        | inl labels ↦
            let (same, parts) = tls_seed_label-injective role role' _ _ sizes sizes' labels in
            inl (same, ground arith, ground arith, ground arith, ground arith)
      ]

  -- No leaf shares its private key with the CA of any scope and profile of the same root, or they
  -- show a collision inside HKDF.
  pub leaf_key-ne_ca :
      (scope scope' : Bytes) (role : CertificateRole) (label : Bytes) (names : List Bytes)
      (p p' : StyreneCertificateProfile) {chain : StyreneCertificateChain}
      {made : StyreneCertificate}
      → leaf_chain scope role label names p ≡ ok chain
      → derive_ca_certificate_with_profile sha256 hex rcgen text hkdf ed root scope' p' ≡ ok made
      → chain.leaf.private_key_der ≡ made.private_key_der
      → HkdfCollision hkdf
  unfolding ca_seed_label material_from_cert role_name
  leaf_key-ne_ca scope scope' role label names p p' h h' e =
      let (k, key, written, leaf, sizes) = leaf_origin scope role label names p h in
      let (s, es) = ca-CaStages rcgen sha256 hex text hkdf ed root scope' p' h' in
      let (named, epoch, _) = profile_sizes p' s.profile_ok in
      elim (label_of-key_pair rcgen law hkdf root _ _ k s.key key s.key_ok
        (sym written ∙ e ∙ ap StyreneCertificate.private_key_der es)) [
          | inr collision ↦ collision
          | inl labels ↦
              let (same, _) =
                tls_seed_label-injective role ca _ _ sizes
                  (named, (label_size scope' s.scope_ok, (epoch, tt))) labels in
              absurd (leaf same)
        ]
