-- ===== src/External/Minicbor.antt =====
-- The `minicbor` encoder over a byte vector and its decoder, as far as the program uses them.
use styrene_identity.Prelude.{ℕ, ◌+◌, ◌≤◌, ◌<◌, ◌^◌, ◌≡◌, Option, some, ◌++◌, length, Bytes}

-- A decoder: the bytes not yet read, and the position reached.
pub record Decoder : Type 0 where
  pub unread : Bytes
  pub position : ℕ

-- A `put` appends to the bytes written so far. A `get` reads from a decoder. Either may fail.
-- `get_map` gives no length for a map of indefinite length.
pub record Minicbor : Type 0 where
  pub put_map : ℕ → Bytes → Option Bytes
  pub put_u8 : ℕ → Bytes → Option Bytes
  pub put_u16 : ℕ → Bytes → Option Bytes
  pub put_u32 : ℕ → Bytes → Option Bytes
  pub put_bytes : Bytes → Bytes → Option Bytes
  pub put_str : Bytes → Bytes → Option Bytes
  pub get_map : Decoder → Option (Option ℕ × Decoder)
  pub get_u8 : Decoder → Option (ℕ × Decoder)
  pub get_u16 : Decoder → Option (ℕ × Decoder)
  pub get_u32 : Decoder → Option (ℕ × Decoder)
  pub get_bytes : Decoder → Option (Bytes × Decoder)
  pub get_str : Decoder → Option (Bytes × Decoder)

pub data Item : Type 0 where
  map_header : ℕ → Item
  uint : ℕ → Item
  byte_string : Bytes → Item
  text_string : Bytes → Item

-- A decoder before bytes that begin with an item, and the one behind it.
abbrev pub before : Bytes → Bytes → ℕ → Decoder
before item rest position = record { unread = item ++ rest; position = position }

abbrev pub behind : Bytes → Bytes → ℕ → Decoder
behind item rest position = record { unread = rest; position = position + length item }

-- Writing to a vector never fails and appends the item's shortest form, whose length RFC 8949
-- bounds; reading an item that was written gives its value and stops behind it.
pub record IsMinicbor (m : Minicbor) : Type 0 where
  pub item : Item → Bytes
  pub put_map_lem : (n : ℕ) (out : Bytes) → m.put_map n out ≡ some (out ++ item (map_header n))
  pub put_u8_lem : (n : ℕ) (out : Bytes) → m.put_u8 n out ≡ some (out ++ item (uint n))
  pub put_u16_lem : (n : ℕ) (out : Bytes) → m.put_u16 n out ≡ some (out ++ item (uint n))
  pub put_u32_lem : (n : ℕ) (out : Bytes) → m.put_u32 n out ≡ some (out ++ item (uint n))
  pub put_bytes_lem : (b out : Bytes) → m.put_bytes b out ≡ some (out ++ item (byte_string b))
  pub put_str_lem : (s out : Bytes) → m.put_str s out ≡ some (out ++ item (text_string s))
  pub get_map_lem :
      (n : ℕ) (rest : Bytes) (p : ℕ)
      → n < 2 ^ 16
      → m.get_map (before (item (map_header n)) rest p)
        ≡ some (some n, behind (item (map_header n)) rest p)
  pub get_u8_lem :
      (n : ℕ) (rest : Bytes) (p : ℕ)
      → n < 2 ^ 8
      → m.get_u8 (before (item (uint n)) rest p) ≡ some (n, behind (item (uint n)) rest p)
  pub get_u16_lem :
      (n : ℕ) (rest : Bytes) (p : ℕ)
      → n < 2 ^ 16
      → m.get_u16 (before (item (uint n)) rest p) ≡ some (n, behind (item (uint n)) rest p)
  pub get_u32_lem :
      (n : ℕ) (rest : Bytes) (p : ℕ)
      → n < 2 ^ 32
      → m.get_u32 (before (item (uint n)) rest p) ≡ some (n, behind (item (uint n)) rest p)
  pub get_bytes_lem :
      (b rest : Bytes) (p : ℕ)
      → length b < 2 ^ 16
      → m.get_bytes (before (item (byte_string b)) rest p)
        ≡ some (b, behind (item (byte_string b)) rest p)
  pub get_str_lem :
      (s rest : Bytes) (p : ℕ)
      → length s < 2 ^ 16
      → m.get_str (before (item (text_string s)) rest p)
        ≡ some (s, behind (item (text_string s)) rest p)
  pub map_size : (n : ℕ) → n < 2 ^ 16 → length (item (map_header n)) ≤ 3
  pub u8_size : (n : ℕ) → n < 2 ^ 8 → length (item (uint n)) ≤ 2
  pub u16_size : (n : ℕ) → n < 2 ^ 16 → length (item (uint n)) ≤ 3
  pub u32_size : (n : ℕ) → n < 2 ^ 32 → length (item (uint n)) ≤ 5
  pub bytes_size : (b : Bytes) → length b < 2 ^ 16 → length (item (byte_string b)) ≤ length b + 3
  pub text_size : (s : Bytes) → length s < 2 ^ 16 → length (item (text_string s)) ≤ length s + 3
