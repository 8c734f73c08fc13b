-- ===== src/Derive/Families.antt =====
-- Every key that src/derive.rs can derive from one root, and when two of them coincide.
use mathlib.Core.List.{append_cancel_right}
use styrene_identity.Prelude.{
  ℕ, ◌<◌, ◌^◌, ◌≡◌, refl, sym, ap, ◌∙◌, ◌≢◌, ◌⊎◌, inl, inr, [], ◌∷◌, ◌++◌, Result, ok, ◌>>=◌,
  ok-injective, >>=-eq-ok, ◌==◌, if◌then◌else◌, drop, append_inj, Bytes, codes, bytes_eq,
  bytes_eq_iff, Bool-cases, be32, first_or, length, arith,
}
use styrene_identity.Derive.{
  KeyPurpose, info, Hkdf, new, derive, DeriveError, derive_parameterized, derive_agent_key,
  derive_tls_certificate_key, derive_ssh_user_key, derive_i2p_service, derive_onion_service,
  derive_repository_signing_key, hkdf_salt, hkdf_salt_agent, hkdf_salt_tls_cert, hkdf_salt_ssh_user,
  hkdf_salt_i2p_service, hkdf_salt_onion_service, hkdf_salt_repository_signing,
}
use styrene_identity.Derive.Purposes.{canonical, info-injective}

-- The keys of one identity: a flat purpose, a label of a family, a half of an I2P service's pair,
-- or an epoch.
pub data Derivation : Type 0 where
  flat : KeyPurpose → Derivation
  agent : Bytes → Derivation
  tls_certificate : Bytes → Derivation
  ssh_user : Bytes → Derivation
  onion_service : Bytes → Derivation
  i2p_service_signing : Bytes → Derivation
  i2p_service_encryption : Bytes → Derivation
  repository_signing : ℕ → Derivation

abbrev pub IsEpoch : Derivation → Type 0
IsEpoch (repository_signing epoch) = epoch < 2 ^ 32
IsEpoch _ = Unit {0}

-- Legacy purposes stand for `signing`.
abbrev pub unalias : Derivation → Derivation
unalias (flat p) = flat (canonical p)
unalias x = x

-- Two different arguments that a function of two arguments does not tell apart.
abbrev pub Collision₂ : (Bytes → Bytes → Bytes) → Type 0
Collision₂ f =
    (a : Bytes) × (b : Bytes) × (c : Bytes) × (d : Bytes) × ((a ≢ c) ⊎ (b ≢ d)) × (f a b ≡ f c d)

abbrev pub HkdfCollision : Hkdf → Type 0
HkdfCollision hkdf = Collision₂ (Hkdf.extract hkdf) ⊎ Collision₂ (Hkdf.expand hkdf)

eq_or_Collision₂ :
    (f : Bytes → Bytes → Bytes) (a b c d : Bytes)
    → f a b ≡ f c d
    → ((a ≡ c) × (b ≡ d)) ⊎ Collision₂ f
eq_or_Collision₂ f a b c d same = elim (Bool-cases (bytes_eq a c)) [
  | inl first ↦ elim (Bool-cases (bytes_eq b d)) [
    | inl second ↦ inl ((bytes_eq_iff a c).0 first, (bytes_eq_iff b d).0 second)
    | inr differ ↦ inr (a, b, c, d, inr (ground (arith, (bytes_eq_iff b d).1)), same)
  ]
  | inr differ ↦ inr (a, b, c, d, inl (ground (arith, (bytes_eq_iff a c).1)), same)
]

-- The salt that a derivation's pseudo-random key is extracted with.
salt : Derivation → Bytes
salt (flat p) = hkdf_salt
salt (agent name) = hkdf_salt_agent
salt (tls_certificate label) = hkdf_salt_tls_cert
salt (ssh_user label) = hkdf_salt_ssh_user
salt (onion_service name) = hkdf_salt_onion_service
salt (i2p_service_signing name) = hkdf_salt_i2p_service
salt (i2p_service_encryption name) = hkdf_salt_i2p_service
salt (repository_signing epoch) = hkdf_salt_repository_signing

-- The info that the key is expanded for.
context : Derivation → Bytes
context (flat p) = info p
context (agent name) = name
context (tls_certificate label) = label
context (ssh_user label) = label
context (onion_service name) = name
context (i2p_service_signing name) = name ++ codes "/signing"
context (i2p_service_encryption name) = name ++ codes "/encryption"
context (repository_signing epoch) =
    (codes "styrene-repository-signing-epoch-v1" ++ (0 ∷ [])) ++ be32 epoch

module _ (hkdf : Hkdf) (root_secret : Bytes) where
  -- The key that the code derives.
  unfoldable pub key_of : Derivation → Result DeriveError Bytes
  key_of (flat p) = ok (derive hkdf (new hkdf root_secret) p)
  key_of (agent name) = derive_agent_key hkdf (new hkdf root_secret) name
  key_of (tls_certificate label) = derive_tls_certificate_key hkdf (new hkdf root_secret) label
  key_of (ssh_user label) = derive_ssh_user_key hkdf (new hkdf root_secret) label
  key_of (onion_service name) = derive_onion_service hkdf (new hkdf root_secret) name
  key_of (i2p_service_signing name) =
      derive_i2p_service hkdf (new hkdf root_secret) name >>= λ keys. ok keys.0
  key_of (i2p_service_encryption name) =
      derive_i2p_service hkdf (new hkdf root_secret) name >>= λ keys. ok keys.1
  key_of (repository_signing epoch) =
      ok (derive_repository_signing_key hkdf (new hkdf root_secret) epoch)

  master : Bytes → Bytes
  master name = Hkdf.expand hkdf (Hkdf.extract hkdf hkdf_salt root_secret) name

  -- Every key is an expansion of what is extracted from this material.
  material : Derivation → Bytes
  material (flat p) = root_secret
  material (agent name) = master (codes "styrene-agent-master-v1")
  material (tls_certificate label) = master (codes "styrene-tls-cert-master-v1")
  material (ssh_user label) = master (codes "styrene-ssh-user-master-v1")
  material (onion_service name) = master (codes "styrene-onion-master-v1")
  material (i2p_service_signing name) = master (codes "styrene-i2p-service-master-v1")
  material (i2p_service_encryption name) = master (codes "styrene-i2p-service-master-v1")
  material (repository_signing epoch) = master (codes "styrene-repository-signing-master-v1")

  expansion : Derivation → Bytes
  expansion x = Hkdf.expand hkdf (Hkdf.extract hkdf (salt x) (material x)) (context x)

  parameterized-eq-ok :
      (master_info level2_salt label key : Bytes)
      → derive_parameterized hkdf (new hkdf root_secret) master_info level2_salt label ≡ ok key
      → Hkdf.expand hkdf (Hkdf.extract hkdf level2_salt (master master_info)) label ≡ key
  unfolding derive_parameterized new master
  parameterized-eq-ok master_info level2_salt label key h = ground arith

  i2p-eq-ok :
      (name : Bytes) (keys : Bytes × Bytes)
      → derive_i2p_service hkdf (new hkdf root_secret) name ≡ ok keys
      → (expansion (i2p_service_signing name) ≡ keys.0)
        × (expansion (i2p_service_encryption name) ≡ keys.1)
  unfolding derive_i2p_service derive_parameterized new expansion master salt material context
  i2p-eq-ok [] keys h = ground arith
  i2p-eq-ok (n ∷ name) keys h = ground arith

  key_of-expansion : (x : Derivation) (key : Bytes) → key_of x ≡ ok key → expansion x ≡ key
  unfolding key_of expansion salt material context derive derive_agent_key
      derive_tls_certificate_key derive_ssh_user_key derive_onion_service
      derive_repository_signing_key
  key_of-expansion (flat p) key h = unfold new in ok-injective h
  key_of-expansion (agent name) key h = parameterized-eq-ok _ _ name key h
  key_of-expansion (tls_certificate label) key h = parameterized-eq-ok _ _ label key h
  key_of-expansion (ssh_user label) key h = parameterized-eq-ok _ _ label key h
  key_of-expansion (onion_service name) key h = parameterized-eq-ok _ _ name key h
  key_of-expansion (i2p_service_signing name) key h =
      let (keys, found, e) =
        >>=-eq-ok (derive_i2p_service hkdf (new hkdf root_secret) name) (λ keys. ok keys.0) h in
      (i2p-eq-ok name keys found).0 ∙ ok-injective e
  key_of-expansion (i2p_service_encryption name) key h =
      let (keys, found, e) =
        >>=-eq-ok (derive_i2p_service hkdf (new hkdf root_secret) name) (λ keys. ok keys.1) h in
      (i2p-eq-ok name keys found).1 ∙ ok-injective e
  key_of-expansion (repository_signing epoch) key h = unfold new master in ok-injective h

-- A number for each family, and how it is read off the salt.
abbrev family : Derivation → ℕ
family (flat p) = 0
family (agent name) = 1
family (tls_certificate label) = 2
family (ssh_user label) = 3
family (onion_service name) = 4
family (i2p_service_signing name) = 5
family (i2p_service_encryption name) = 5
family (repository_signing epoch) = 6

family_of_salt : Bytes → ℕ
family_of_salt text =
    let n = length text in
    if n == 19
    then 0
    else if n == 25
    then 1
    else if n == 28
    then (if first_or (drop 17 text) 0 == b't' then 2 else 3)
    else if n == 33
    then 4
    else if n == 31
    then 5
    else 6

family_of_salt-salt : (x : Derivation) → family_of_salt (salt x) ≡ family x
unfolding family_of_salt salt
family_of_salt-salt (flat p) = refl
family_of_salt-salt (agent name) = refl
family_of_salt-salt (tls_certificate label) = refl
family_of_salt-salt (ssh_user label) = refl
family_of_salt-salt (onion_service name) = refl
family_of_salt-salt (i2p_service_signing name) = refl
family_of_salt-salt (i2p_service_encryption name) = refl
family_of_salt-salt (repository_signing epoch) = refl

salt-family : (x y : Derivation) → salt x ≡ salt y → family x ≡ family y
salt-family x y e = sym (family_of_salt-salt x) ∙ ap family_of_salt e ∙ family_of_salt-salt y

last_or : Bytes → ℕ → ℕ
last_or [] d = d
last_or (x ∷ xs) d = last_or xs x

last_or-append : (xs ys : Bytes) (y d : ℕ) → last_or (xs ++ y ∷ ys) d ≡ last_or ys y
unfolding last_or
last_or-append [] ys y d = refl
last_or-append (x ∷ xs) ys y d = last_or-append xs ys y x

i2p_halves : (name name' : Bytes) → name ++ codes "/signing" ≢ name' ++ codes "/encryption"
i2p_halves name name' e =
    let d : ℕ = 0 in
    let left = last_or-append name (codes "signing") b'/' d in
    let right = last_or-append name' (codes "encryption") b'/' d in
    let same : last_or (codes "signing") b'/' ≡ last_or (codes "encryption") b'/' =
      sym left ∙ ap (λ t. last_or t d) e ∙ right in
    unfold last_or in absurd (omega arith)

be32-injective : (a b : ℕ) → a < 2 ^ 32 → b < 2 ^ 32 → be32 a ≡ be32 b → a ≡ b
be32-injective a b ha hb e = ground arith

context-injective :
    (x y : Derivation)
    → salt x ≡ salt y
    → context x ≡ context y
    → IsEpoch x
    → IsEpoch y
    → unalias x ≡ unalias y
unfolding context
context-injective (flat p) (flat q) s e _ _ = ap flat (info-injective p q e)
context-injective (agent a) (agent b) s e _ _ = ap agent e
context-injective (tls_certificate a) (tls_certificate b) s e _ _ = ap tls_certificate e
context-injective (ssh_user a) (ssh_user b) s e _ _ = ap ssh_user e
context-injective (onion_service a) (onion_service b) s e _ _ = ap onion_service e
context-injective (i2p_service_signing a) (i2p_service_signing b) s e _ _ =
    ap i2p_service_signing (append_cancel_right a b _ e)
context-injective (i2p_service_encryption a) (i2p_service_encryption b) s e _ _ =
    ap i2p_service_encryption (append_cancel_right a b _ e)
context-injective (i2p_service_signing a) (i2p_service_encryption b) s e _ _ =
    absurd (i2p_halves a b e)
context-injective (i2p_service_encryption a) (i2p_service_signing b) s e _ _ =
    absurd (i2p_halves b a (sym e))
context-injective (repository_signing a) (repository_signing b) s e ha hb =
    let (_, low) =
      append_inj (codes "styrene-repository-signing-epoch-v1" ++ (0 ∷ []))
        (codes "styrene-repository-signing-epoch-v1" ++ (0 ∷ [])) refl e in
    ap repository_signing (be32-injective a b ha hb low)
context-injective x y s e _ _ = absurd (omega (arith, salt-family x y s))

-- Two derivations from one root that give one key are the same derivation, up to the legacy
-- aliases, or they show a collision inside HKDF. So flat purposes, labels, families, the two halves
-- of an I2P service and repository epochs of 32 bits are all kept apart.
pub key_of-binding :
    (hkdf : Hkdf) (root_secret : Bytes) (x y : Derivation) (key : Bytes)
    → IsEpoch x
    → IsEpoch y
    → key_of hkdf root_secret x ≡ ok key
    → key_of hkdf root_secret y ≡ ok key
    → (unalias x ≡ unalias y) ⊎ HkdfCollision hkdf
unfolding expansion
key_of-binding hkdf root_secret x y key ex ey hx hy =
    let same =
      key_of-expansion hkdf root_secret x key hx
      ∙ sym (key_of-expansion hkdf root_secret y key hy) in
    elim (eq_or_Collision₂ (Hkdf.expand hkdf) _ _ _ _ same) [
      | inr collision ↦ inr (inr collision)
      | inl (prks, contexts) ↦ elim (eq_or_Collision₂ (Hkdf.extract hkdf) _ _ _ _ prks) [
        | inr collision ↦ inr (inl collision)
        | inl (salts, _) ↦ inl (context-injective x y salts contexts ex ey)
      ]
    ]
