-- ===== src/Pki/Text.antt =====
-- Serial numbers and percent-encoded paths: src/pki.rs.
use styrene_identity.Prelude.{
  ℕ, ◌≤◌, ◌<◌, ◌≡◌, refl, Bool-cases, inl, inr, [], ◌∷◌, ◌++◌, length, length-take, take, first_or,
  All, Bytes, List, arith,
}
use styrene_identity.Pki.{
  serial_preimage, positive, deterministic_serial, is_unreserved, pct_byte, pct_encode_path,
}

bounds :
    (b : Bytes)
    → length b ≡ 20
    → (length (positive b) ≡ 20) × (1 ≤ first_or (positive b) 0) × (first_or (positive b) 0 < 128)
unfolding positive
bounds [] h = absurd (omega arith)
bounds (first ∷ rest) h = ground arith

-- A serial number has 20 bytes and is positive: its first byte is not zero and its sign bit is
-- clear. The hash has 32 bytes.
pub deterministic_serial-bounds :
    (sha256 : Bytes → Bytes)
    → ((x : Bytes) → length (sha256 x) ≡ 32)
    → (parts : List Bytes)
    → (length (deterministic_serial sha256 parts) ≡ 20)
      × (1 ≤ first_or (deterministic_serial sha256 parts) 0)
      × (first_or (deterministic_serial sha256 parts) 0 < 128)
unfolding deterministic_serial
deterministic_serial-bounds sha256 hash_size parts =
    let digest = sha256 (serial_preimage parts) in
    let size = length-take 20 digest (omega (arith, hash_size (serial_preimage parts))) in
    bounds (take 20 digest) size

pct_byte_inj :
    (x y : ℕ) {s t : Bytes}
    → x < 256
    → y < 256
    → pct_byte x ++ s ≡ pct_byte y ++ t
    → (x ≡ y) × (s ≡ t)
unfolding pct_byte is_unreserved
pct_byte_inj x y hx hy e = elim (Bool-cases (is_unreserved x)) [
  | inl ux ↦ elim (Bool-cases (is_unreserved y)) [ inl uy ↦ ground arith | inr vy ↦ ground arith ]
  | inr vx ↦ elim (Bool-cases (is_unreserved y)) [ inl uy ↦ ground arith | inr vy ↦ ground arith ]
]

-- Percent-encoding loses nothing: two texts of bytes with one encoding are equal.
pub pct_encode_path-injective :
    (xs ys : Bytes)
    → All (λ x. x < 256) xs
    → All (λ y. y < 256) ys
    → pct_encode_path xs ≡ pct_encode_path ys
    → xs ≡ ys
unfolding pct_encode_path
pct_encode_path-injective [] [] _ _ e = refl
pct_encode_path-injective [] (y ∷ ys) _ _ e = absurd (unfold pct_byte in ground arith)
pct_encode_path-injective (x ∷ xs) [] _ _ e = absurd (unfold pct_byte in ground arith)
pct_encode_path-injective (x ∷ xs) (y ∷ ys) (hx, more) (hy, more') e =
    let (same, rest) = pct_byte_inj x y hx hy e in
    let others = pct_encode_path-injective xs ys more more' rest in cc
