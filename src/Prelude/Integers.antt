-- ===== src/Prelude/Integers.antt =====
-- Integers over the native numbers, for years and status codes.
use Prim.Native.Nat.{ℕ}
use mathlib.Core.Bool.{Bool, true, false, not}
use styrene_identity.Prelude.Tests.{leb, ◌==◌}

pub data ℤ : Type 0 where
  pos : ℕ → ℤ
  negsuc : ℕ → ℤ

abbrev pub leb_ℤ : ℤ → ℤ → Bool
leb_ℤ (pos m) (pos n) = leb m n
leb_ℤ (negsuc m) (pos n) = true
leb_ℤ (pos m) (negsuc n) = false
leb_ℤ (negsuc m) (negsuc n) = leb n m

abbrev pub ltb_ℤ : ℤ → ℤ → Bool
ltb_ℤ x y = not (leb_ℤ y x)

abbrev pub eq_ℤ : ℤ → ℤ → Bool
eq_ℤ (pos m) (pos n) = m == n
eq_ℤ (negsuc m) (negsuc n) = m == n
eq_ℤ _ _ = false
