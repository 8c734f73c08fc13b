-- ===== src/Tests/HexText.antt =====
-- Hexadecimal text with lower-case digits.
use styrene_identity.Prelude.{
  ℕ, zero, suc, ◌+◌, ◌-◌, ◌*◌, ◌/◌, ◌%◌, ◌<◌, ◌≡◌, refl, ap, Option-cases, inl, inr, ◌&&◌, Option,
  none, some, [], ◌∷◌, if◌then◌else◌, leb, ltb, length, All, Bytes, arith,
}
use styrene_identity.External.Hex.{Hex, IsByte, IsLowerHex, IsHex}

abbrev digit : ℕ → ℕ
digit n = if ltb n 10 then b'0' + n else 87 + n

abbrev value : ℕ → Option ℕ
value c =
    if leb b'0' c && leb c b'9'
    then some (c - 48)
    else if leb b'a' c && leb c b'f'
    then some (c - 87)
    else none

abbrev encode : Bytes → Bytes
encode [] = []
encode (x ∷ xs) = digit (x / 16) ∷ digit (x % 16) ∷ encode xs

abbrev join : Option ℕ → Option ℕ → Option Bytes → Option Bytes
join (some high) (some low) (some rest) = some ((16 * high + low) ∷ rest)
join _ _ _ = none

abbrev decode : Bytes → Option Bytes
decode [] = some []
decode (a ∷ []) = none
decode (a ∷ b ∷ rest) = join (value a) (value b) (decode rest)

abbrev pub hex : Hex
hex = record { encode = encode; decode = decode }

length-encode : (b : Bytes) → length (encode b) ≡ 2 * length b
length-encode [] = refl
length-encode (x ∷ xs) = let h = length-encode xs in omega arith

digit_lower : (n : ℕ) → n < 16 → IsLowerHex (digit n)
digit_lower n h = ground arith

value-digit : (n : ℕ) → n < 16 → value (digit n) ≡ some n
value-digit n h = ground arith

encode_lower : (b : Bytes) → All IsByte b → All IsLowerHex (encode b)
encode_lower [] _ = tt
encode_lower (x ∷ xs) (small, rest) =
    (digit_lower (x / 16) (omega arith), (digit_lower (x % 16) (omega arith), encode_lower xs rest))

decode-encode : (b : Bytes) → All IsByte b → decode (encode b) ≡ some b
decode-encode [] _ = refl
decode-encode (x ∷ xs) (small, rest) =
    rw
      (
        value-digit (x / 16) (omega arith),
        value-digit (x % 16) (omega arith),
        decode-encode xs rest,
      )
      (ap (λ n. some (n ∷ xs)) (omega arith))

digit-value : (c n : ℕ) → value c ≡ some n → IsLowerHex c → (digit n ≡ c) × (n < 16)
digit-value c n h lower = ground arith

encode-decode : (s b : Bytes) → All IsLowerHex s → decode s ≡ some b → encode b ≡ s
encode-decode [] b _ h = ground arith
encode-decode (x ∷ []) b _ h = absurd (ground arith)
encode-decode (x ∷ y ∷ rest) b (lx, (ly, more)) h = elim (Option-cases (value x)) [
  | inl no_high ↦ absurd (ground arith)
  | inr (u, high) ↦ elim (Option-cases (value y)) [
    | inl no_low ↦ absurd (ground arith)
    | inr (v, low) ↦ elim (Option-cases (decode rest)) [
      | inl failed ↦ absurd (let h' = rw (high, low, failed) at h in ground arith)
      | inr (d, found) ↦
          let h' = rw (high, low, found) at h in
          let (first, _) = digit-value x u high lx in
          let (second, below) = digit-value y v low ly in
          let tail = encode-decode rest d more found in
          let whole : (16 * u + v) ∷ d ≡ b = ground arith in
          let upper : (16 * u + v) / 16 ≡ u = omega arith in
          let lower : (16 * u + v) % 16 ≡ v = omega arith in
          rw (← whole) (rw (upper, lower, first, second, tail) refl)
    ]
  ]
]

digit_value : (c : ℕ) → IsLowerHex c → (n : ℕ) × (value c ≡ some n) × (n < 16)
digit_value c lower = elim lower [
  | inl (above, below) ↦ (c - 48, ground arith, omega arith)
  | inr (above, below) ↦ (c - 87, ground arith, omega arith)
]

decode_digits :
    (s : Bytes) (n : ℕ)
    → All IsLowerHex s
    → length s ≡ 2 * n
    → (b : Bytes) × (decode s ≡ some b) × All IsByte b
decode_digits [] n _ size = ([], refl, tt)
decode_digits (x ∷ []) n _ size = absurd (omega arith)
decode_digits (x ∷ y ∷ rest) zero _ size = absurd (omega arith)
decode_digits (x ∷ y ∷ rest) (suc n) (lx, (ly, more)) size =
    let (u, high, small) = digit_value x lx in
    let (v, low, short) = digit_value y ly in
    let (b, found, bytes) = decode_digits rest n more (omega arith) in
    ((16 * u + v) ∷ b, rw (high, low, found) refl, (omega arith, bytes))

pub hex-IsHex : IsHex hex
hex-IsHex = record {
  length-encode = length-encode;
  encode_lower = encode_lower;
  decode-encode = decode-encode;
  encode-decode = encode-decode;
  decode_digits = decode_digits;
}
