-- ===== src/Prelude/ByteStrings.antt =====
-- Byte strings as lists of numbers: equality, order, and big-endian integers.
use Prim.Native.Nat.{ℕ, ◌/◌, ◌%◌, ◌^◌}
use Prim.Native.Char.{code}
use Prim.Native.String.{String}
use mathlib.Core.Path.{◌≡◌, refl}
use mathlib.Core.Logic.{◌↔◌, ◌≢◌, ◌⊎◌, inl, inr}
use mathlib.Core.Bool.{Bool, true, false, ◌&&◌, ◌||◌}
use mathlib.Core.List.{List, [], ◌∷◌}
use native.Mathlib.Omega.{arith}
use mathlib.Core.Option.{Option, some}
use styrene_identity.Prelude.Tests.{Bool-cases, ◌==◌, ltb, if◌then◌else◌}
use styrene_identity.Prelude.Results.{Result, ok, err}

abbrev pub Bytes : Type 0
Bytes = List ℕ

-- The code points of a literal: its bytes, if it is ASCII.
abbrev pub codes : String → Bytes
codes String.[] = []
codes (String.◌∷◌ c s) = code c ∷ codes s

unfoldable pub bytes_eq : Bytes → Bytes → Bool
bytes_eq [] [] = true
bytes_eq (x ∷ xs) (y ∷ ys) = x == y && bytes_eq xs ys
bytes_eq _ _ = false

pub bytes_eq_iff : (xs ys : Bytes) → (bytes_eq xs ys ≡ true) ↔ (xs ≡ ys)
unfolding bytes_eq
bytes_eq_iff [] [] = (λ _. refl, λ _. refl)
bytes_eq_iff [] (y ∷ ys) = ground arith
bytes_eq_iff (x ∷ xs) [] = ground arith
bytes_eq_iff (x ∷ xs) (y ∷ ys) = ground (arith, bytes_eq_iff xs ys)

abbrev pub be16 : ℕ → Bytes
be16 n = (n / 256 % 256) ∷ (n % 256) ∷ []

abbrev pub be32 : ℕ → Bytes
be32 n = (n / 2 ^ 24 % 256) ∷ (n / 2 ^ 16 % 256) ∷ (n / 256 % 256) ∷ (n % 256) ∷ []

-- Lexicographic order, as on arrays and slices.
unfoldable pub bytes_lt : Bytes → Bytes → Bool
bytes_lt [] [] = false
bytes_lt [] (y ∷ ys) = true
bytes_lt (x ∷ xs) [] = false
bytes_lt (x ∷ xs) (y ∷ ys) = ltb x y || (x == y && bytes_lt xs ys)

pub bytes_lt_irrefl : (xs : Bytes) → bytes_lt xs xs ≡ false
unfolding bytes_lt
bytes_lt_irrefl [] = refl
bytes_lt_irrefl (x ∷ xs) = ground (arith, bytes_lt_irrefl xs)

pub bytes_lt_trans :
    (xs ys zs : Bytes) → bytes_lt xs ys ≡ true → bytes_lt ys zs ≡ true → bytes_lt xs zs ≡ true
unfolding bytes_lt
bytes_lt_trans [] [] zs h k = cc
bytes_lt_trans [] (y ∷ ys) [] h k = cc
bytes_lt_trans [] (y ∷ ys) (z ∷ zs) h k = refl
bytes_lt_trans (x ∷ xs) [] zs h k = cc
bytes_lt_trans (x ∷ xs) (y ∷ ys) [] h k = cc
bytes_lt_trans (x ∷ xs) (y ∷ ys) (z ∷ zs) h k = ground (arith, bytes_lt_trans xs ys zs)

-- `u16::try_from` and `u32::try_from` on a length.
abbrev pub try_u16 {ℓ} : {E : Type ℓ} → ℕ → E → Result E ℕ
try_u16 n e = if ltb n (2 ^ 16) then ok n else err e

abbrev pub try_u32 {ℓ} : {E : Type ℓ} → ℕ → E → Result E ℕ
try_u32 n e = if ltb n (2 ^ 32) then ok n else err e

-- The first byte, or a default where there is none.
abbrev pub first_or : Bytes → ℕ → ℕ
first_or [] d = d
first_or (x ∷ xs) d = x

-- Two different inputs that a hash function does not tell apart.
abbrev pub Collision : (Bytes → Bytes) → Type 0
Collision hash = (x : Bytes) × (y : Bytes) × (x ≢ y) × (hash x ≡ hash y)

-- Inputs with one hash are equal, or they are a collision.
pub eq_or_Collision :
    (hash : Bytes → Bytes) (x y : Bytes) → hash x ≡ hash y → (x ≡ y) ⊎ Collision hash
eq_or_Collision hash x y same = elim (Bool-cases (bytes_eq x y)) [
  | inl equal ↦ inl ((bytes_eq_iff x y).0 equal)
  | inr differ ↦ inr (x, y, ground (arith, (bytes_eq_iff x y).1), same)
]

-- A serializer's documented round trip: what `to_vec` writes, `decode` reads back.
abbrev pub IsReadBack : {A : Type 0} → (A → Result String Bytes) → (Bytes → Option A) → Type 0
IsReadBack {A} to_vec decode = (a : A) (bytes : Bytes) → to_vec a ≡ ok bytes → decode bytes ≡ some a
