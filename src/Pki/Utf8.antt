-- ===== src/Pki/Utf8.antt =====
-- The functions of `str` that src/pki.rs uses, on UTF-8 bytes.
use mathlib.Core.List.{reverse}
use styrene_identity.Prelude.{
  ℕ, ◌+◌, ◌-◌, Bool, false, ◌&&◌, ◌||◌, [], ◌∷◌, ◌==◌, ltb, leb, if◌then◌else◌, Bytes,
}

abbrev in_range : ℕ → ℕ → ℕ → Bool
in_range low high byte = leb low byte && leb byte high

-- The third byte of a white-space character that begins with E2 80.
abbrev is_spacing : ℕ → Bool
is_spacing byte = in_range 0x80 0x8a byte || (byte == 0xa8 || (byte == 0xa9 || byte == 0xaf))

-- Whether one, two or three bytes are a character of the Unicode property White_Space.
unfoldable pub is_white_1 : ℕ → Bool
is_white_1 x = in_range 9 13 x || x == 32

unfoldable pub is_white_2 : ℕ → ℕ → Bool
is_white_2 x y = x == 0xc2 && (y == 0x85 || y == 0xa0)

unfoldable pub is_white_3 : ℕ → ℕ → ℕ → Bool
is_white_3 x y z =
    (x == 0xe1 && (y == 0x9a && z == 0x80))
    || ((x == 0xe2 && ((y == 0x80 && is_spacing z) || (y == 0x81 && z == 0x9f)))
        || (x == 0xe3 && (y == 0x80 && z == 0x80)))

-- The length of the white-space character that a text begins with, and 0 where it begins with none.
unfoldable pub white_len : Bytes → ℕ
unfolding is_white_1 is_white_2 is_white_3
white_len [] = 0
white_len (x ∷ []) = if is_white_1 x then 1 else 0
white_len (x ∷ y ∷ []) = if is_white_1 x then 1 else if is_white_2 x y then 2 else 0
white_len (x ∷ y ∷ z ∷ _) =
    if is_white_1 x then 1 else if is_white_2 x y then 2 else if is_white_3 x y z then 3 else 0

-- The same for the character that a text ends with; the text is given backwards.
unfoldable pub white_len_back : Bytes → ℕ
unfolding is_white_1 is_white_2 is_white_3
white_len_back [] = 0
white_len_back (x ∷ []) = if is_white_1 x then 1 else 0
white_len_back (x ∷ y ∷ []) = if is_white_1 x then 1 else if is_white_2 y x then 2 else 0
white_len_back (x ∷ y ∷ z ∷ _) =
    if is_white_1 x then 1 else if is_white_2 y x then 2 else if is_white_3 z y x then 3 else 0

-- Leaves out characters as long as `len` finds one; `skip` bytes are left of the one found last.
unfoldable pub strip : (Bytes → ℕ) → ℕ → Bytes → Bytes
strip len skip [] = []
strip len skip (x ∷ xs) =
    let found = if skip == 0 then len (x ∷ xs) else skip in
    let rest = strip len (found - 1) xs in if found == 0 then x ∷ xs else rest

unfoldable pub trim : Bytes → Bytes
trim text = reverse (strip white_len_back 0 (reverse (strip white_len 0 text)))

unfoldable pub is_control_1 : ℕ → Bool
is_control_1 x = ltb x 32 || x == 127

-- `chars().any(char::is_control)`: the ASCII controls, and the two-byte characters up to U+009F.
unfoldable pub any_control : Bytes → Bool
unfolding is_control_1
any_control [] = false
any_control (x ∷ []) = is_control_1 x
any_control (x ∷ y ∷ rest) =
    is_control_1 x || ((x == 0xc2 && in_range 0x80 0x9f y) || any_control (y ∷ rest))

unfoldable pub to_ascii_lowercase : Bytes → Bytes
to_ascii_lowercase [] = []
to_ascii_lowercase (x ∷ xs) = (if in_range b'A' b'Z' x then x + 32 else x) ∷ to_ascii_lowercase xs
