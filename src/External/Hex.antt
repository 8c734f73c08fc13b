-- ===== src/External/Hex.antt =====
-- Hexadecimal text as the `hex` crate writes and reads it.
use styrene_identity.Prelude.{ℕ, ◌*◌, ◌≤◌, ◌<◌, ◌≡◌, ◌⊎◌, Option, some, length, All, Bytes}

pub record Hex : Type 0 where
  pub encode : Bytes → Bytes
  pub decode : Bytes → Option Bytes

abbrev pub IsByte : ℕ → Type 0
IsByte n = n < 256

abbrev pub IsLowerHex : ℕ → Type 0
IsLowerHex c = ((b'0' ≤ c) × (c ≤ b'9')) ⊎ ((b'a' ≤ c) × (c ≤ b'f'))

-- Bytes are written as two lower-case digits each; reading undoes writing, and writing undoes the
-- reading of lower-case digits. An even number of lower-case digits is read, as bytes.
pub record IsHex (hex : Hex) : Type 0 where
  pub length-encode : (b : Bytes) → length (hex.encode b) ≡ 2 * length b
  pub encode_lower : (b : Bytes) → All IsByte b → All IsLowerHex (hex.encode b)
  pub decode-encode : (b : Bytes) → All IsByte b → hex.decode (hex.encode b) ≡ some b
  pub encode-decode : (s b : Bytes) → All IsLowerHex s → hex.decode s ≡ some b → hex.encode b ≡ s
  pub decode_digits :
      (s : Bytes) (n : ℕ)
      → All IsLowerHex s
      → length s ≡ 2 * n
      → (b : Bytes) × (hex.decode s ≡ some b) × All IsByte b
