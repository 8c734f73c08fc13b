-- ===== src/IdentityId/Text.antt =====
-- The text of an identity id: src/identity_id.rs, `Display` and `FromStr`.
use styrene_identity.Prelude.{
  ap, ◌≡◌, refl, ◌↔◌, true, [], ◌∷◌, inl, inr, Option-cases, some, ok, length, all, All, Bytes,
  arith,
}
use mathlib.Core.Path.{subst}
use styrene_identity.External.Hex.{Hex, IsHex, IsByte, IsLowerHex}
use styrene_identity.IdentityId.{IdentityId, is_lower_hex, to_string, from_str}

all-IsLowerHex : (s : Bytes) → (all is_lower_hex s ≡ true) ↔ All IsLowerHex s
all-IsLowerHex [] = (λ _. tt, λ _. refl)
all-IsLowerHex (c ∷ s) = ground (arith, all-IsLowerHex s)

abbrev pub IsText : Bytes → Type 0
IsText s = (length s ≡ 32) × All IsLowerHex s

abbrev pub IsId : IdentityId → Type 0
IsId i = (length i.bytes ≡ 16) × All IsByte i.bytes

module _ (hex : Hex) (law : IsHex hex) where
  -- Every identity id of 16 bytes is read back from its text.
  pub from_str-to_string : (i : IdentityId) → IsId i → from_str hex (to_string hex i) ≡ ok i
  unfolding from_str to_string
  from_str-to_string i (size, small) = ground (
    arith,
    law.length-encode i.bytes,
    (all-IsLowerHex (Hex.encode hex i.bytes)).1 (law.encode_lower i.bytes small),
    law.decode-encode i.bytes small,
  )

  accepted :
      (s : Bytes) (i : IdentityId)
      → from_str hex s ≡ ok i
      → (length s ≡ 32) × (all is_lower_hex s ≡ true)
  unfolding from_str
  accepted s i h = ground arith

  decoded :
      (s : Bytes) (i : IdentityId)
      → from_str hex s ≡ ok i
      → (Hex.decode hex s ≡ some i.bytes) × (length i.bytes ≡ 16)
  unfolding from_str
  decoded s i h = elim (Option-cases (Hex.decode hex s)) [
    | inl failed ↦ absurd (ground arith)
    | inr (d, found) ↦ ground arith
  ]

  -- An id that is read prints as its text.
  pub to_string-from_str :
      (s : Bytes) (i : IdentityId)
      → from_str hex s ≡ ok i
      → (to_string hex i ≡ s) × (length s ≡ 32) × (length i.bytes ≡ 16)
  unfolding from_str to_string
  to_string-from_str s i h =
      let (size, lower) = accepted s i h in
      let (read, short) = decoded s i h in
      (law.encode-decode s i.bytes ((all-IsLowerHex s).0 lower) read, size, short)

  from_str-IsId : (s : Bytes) (i : IdentityId) → from_str hex s ≡ ok i → IsId i
  from_str-IsId s i h =
      let (size, lower) = accepted s i h in
      let (read, short) = decoded s i h in
      let (b, found, bytes) = law.decode_digits s 16 ((all-IsLowerHex s).0 lower) size in
      let same : b ≡ i.bytes = ground arith in (short, subst (All IsByte) same bytes)

  -- The bytes of 32 lower-case digits.
  from_digits : (s : Bytes) → IsText s → (i : IdentityId) × (to_string hex i ≡ s) × IsId i
  unfolding to_string
  from_digits s (size, lower) =
      let (b, found, bytes) = law.decode_digits s 16 lower size in
      let back = law.encode-decode s b lower found in
      (record { bytes = b }, back, (omega (arith, law.length-encode b, ap length back), bytes))

  -- A text is accepted as an identity id exactly where it is what printing that id gives and the id
  -- is 16 bytes; and the texts that are accepted are exactly those of 32 lower-case hexadecimal
  -- digits.
  pub from_str_iff :
      (s : Bytes)
      → ((i : IdentityId) → (from_str hex s ≡ ok i) ↔ ((to_string hex i ≡ s) × IsId i))
        × (((i : IdentityId) × (from_str hex s ≡ ok i)) ↔ IsText s)
  from_str_iff s = (
    λ i. (
      λ h. ((to_string-from_str s i h).0, from_str-IsId s i h),
      λ (printed, id). rw (← printed) (from_str-to_string i id),
    ),
    (
      λ (i, h). let (size, lower) = accepted s i h in (size, (all-IsLowerHex s).0 lower),
      λ digits.
          let (i, printed, id) = from_digits s digits in
          (i, rw (← printed) (from_str-to_string i id)),
    ),
  )
