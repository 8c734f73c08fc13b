-- ===== src/Pki/SeedLabel.antt =====
-- Labels of TLS key seeds are unambiguous: src/pki.rs.
use styrene_identity.Prelude.{
  ℕ, zero, suc, ◌/◌, ◌%◌, ◌^◌, ◌<◌, ◌≡◌, refl, sym, ap, ◌∙◌, ◌==◌, if◌then◌else◌, List, [], ◌∷◌,
  ◌++◌, length, length-append, append_inj, All, Bytes, codes, arith,
}
use native.Mathlib.Numerals.{unary_clauses}
use styrene_identity.Pki.{
  CertificateRole, ca, server, client, role_name, hex_digit, hex_digits, seed_components,
  tls_seed_label,
}

length-hex_digits : (k n : ℕ) → length (hex_digits k n) ≡ k
unfolding hex_digits
length-hex_digits zero n = refl
length-hex_digits (suc k) n = omega (
  arith,
  length-append (hex_digits k (n / 16)) (hex_digit (n % 16) ∷ []),
  length-hex_digits k (n / 16),
)

hex_digit-injective : (a b : ℕ) → a < 16 → b < 16 → hex_digit a ≡ hex_digit b → a ≡ b
hex_digit-injective a b ha hb e = ground arith

hex_digits-injective :
    (k a b : ℕ) → a < 16 ^ k → b < 16 ^ k → hex_digits k a ≡ hex_digits k b → a ≡ b
unfolding hex_digits
hex_digits-injective zero a b ha hb e = omega arith
hex_digits-injective (suc k) a b ha hb e =
    let (high, low) =
      append_inj (hex_digits k (a / 16)) (hex_digits k (b / 16))
        (length-hex_digits k (a / 16) ∙ sym (length-hex_digits k (b / 16))) e in
    let ha' = simp unary_clauses at ha in
    let hb' = simp unary_clauses at hb in
    let upper = hex_digits-injective k (a / 16) (b / 16) (omega arith) (omega arith) high in
    let lower = hex_digit-injective (a % 16) (b % 16) (omega arith) (omega arith) (ground arith) in
    omega arith

seed_components-injective :
    (xs ys : List Bytes)
    → All (λ x. length x < 2 ^ 64) xs
    → All (λ y. length y < 2 ^ 64) ys
    → seed_components xs ≡ seed_components ys
    → xs ≡ ys
unfolding seed_components
seed_components-injective [] [] _ _ e = refl
seed_components-injective [] (y ∷ ys) _ _ e = absurd (ground arith)
seed_components-injective (x ∷ xs) [] _ _ e = absurd (ground arith)
seed_components-injective (x ∷ xs) (y ∷ ys) (hx, more) (hy, more') e =
    let (_, behind) = append_inj (b'/' ∷ []) (b'/' ∷ []) refl e in
    let (sizes, tail) =
      append_inj (hex_digits 16 (length x)) (hex_digits 16 (length y))
        (length-hex_digits 16 (length x) ∙ sym (length-hex_digits 16 (length y))) behind in
    let size = hex_digits-injective 16 (length x) (length y) (omega arith) (omega arith) sizes in
    let (_, body) = append_inj (b':' ∷ []) (b':' ∷ []) refl tail in
    let (same, rest) = append_inj x y size body in
    let others = seed_components-injective xs ys more more' rest in cc

-- The first two characters of a role's name tell it.
role_of : Bytes → CertificateRole
role_of (c ∷ d ∷ _) = if c == b's' then server else if d == b'a' then ca else client
role_of _ = ca

role_of-role_name : (r : CertificateRole) (rest : Bytes) → role_of (role_name r ++ rest) ≡ r
unfolding role_of role_name
role_of-role_name ca rest = refl
role_of-role_name server rest = refl
role_of-role_name client rest = refl

-- A seed label determines the role and every component: labels of different roles, profiles,
-- scopes, labels or epochs are different, whatever characters the components hold. A component is
-- shorter than 2 ^ 64 bytes.
pub tls_seed_label-injective :
    (r s : CertificateRole) (xs ys : List Bytes)
    → All (λ x. length x < 2 ^ 64) xs
    → All (λ y. length y < 2 ^ 64) ys
    → tls_seed_label (role_name r) xs ≡ tls_seed_label (role_name s) ys
    → (r ≡ s) × (xs ≡ ys)
unfolding tls_seed_label
tls_seed_label-injective r s xs ys hx hy e =
    let (_, named) = append_inj (codes "styrene/tls/v2/") (codes "styrene/tls/v2/") refl e in
    let same =
      sym (role_of-role_name r (seed_components xs))
      ∙ ap role_of named
      ∙ role_of-role_name s (seed_components ys) in
    let (_, tail) =
      append_inj (role_name r) (role_name s) (ap (λ t. length (role_name t)) same) named in
    (same, seed_components-injective xs ys hx hy tail)
