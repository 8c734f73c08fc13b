-- ===== src/Tests/Codec.antt =====
-- A codec with tagged items, in place of `minicbor`.
use styrene_identity.Prelude.{
  ℕ, suc, ◌+◌, ◌≡◌, refl, Option, none, some, [], ◌∷◌, ◌++◌, if◌then◌else◌, leb, length, take, drop,
  length-append, take_front, drop_front, Bytes, arith,
}
use styrene_identity.External.Minicbor.{
  Decoder, Minicbor, Item, map_header, uint, byte_string, text_string, IsMinicbor,
}

abbrev item : Item → Bytes
item (map_header n) = 5 ∷ n ∷ []
item (uint n) = 0 ∷ n ∷ []
item (byte_string b) = 2 ∷ length b ∷ b
item (text_string b) = 3 ∷ length b ∷ b

abbrev number : ℕ → Bytes → ℕ → Option (ℕ × Decoder)
number tag (k ∷ n ∷ rest) p =
    if leb k tag
    then (if leb tag k then some (n, record { unread = rest; position = p + 2 }) else none)
    else none
number tag _ p = none

abbrev content : ℕ → Bytes → ℕ → Option (Bytes × Decoder)
content tag (k ∷ n ∷ rest) p =
    if leb k tag
    then (if leb tag k
        then (if leb n (length rest)
            then some (take n rest, record { unread = drop n rest; position = p + suc (suc n) })
            else none)
        else none)
    else none
content tag _ p = none

abbrev length_of : Option (ℕ × Decoder) → Option (Option ℕ × Decoder)
length_of none = none
length_of (some (n, d)) = some (some n, d)

abbrev pub codec : Minicbor
codec = record {
  put_map = λ n out. some (out ++ item (map_header n));
  put_u8 = λ n out. some (out ++ item (uint n));
  put_u16 = λ n out. some (out ++ item (uint n));
  put_u32 = λ n out. some (out ++ item (uint n));
  put_bytes = λ b out. some (out ++ item (byte_string b));
  put_str = λ b out. some (out ++ item (text_string b));
  get_map = λ d. length_of (number 5 d.unread d.position);
  get_u8 = λ d. number 0 d.unread d.position;
  get_u16 = λ d. number 0 d.unread d.position;
  get_u32 = λ d. number 0 d.unread d.position;
  get_bytes = λ d. content 2 d.unread d.position;
  get_str = λ d. content 3 d.unread d.position;
}

pub content_lem :
    (tag : ℕ) (b rest : Bytes) (p : ℕ)
    → content tag (tag ∷ length b ∷ (b ++ rest)) p
      ≡ some (b, record { unread = rest; position = p + suc (suc (length b)) })
content_lem tag b rest p = ground (
  arith,
  take_front (length b) b rest refl,
  drop_front (length b) b rest refl,
  length-append b rest,
)

unfoldable pub codec-IsMinicbor : IsMinicbor codec
codec-IsMinicbor = record {
  item = item;
  put_map_lem = λ n out. refl;
  put_u8_lem = λ n out. refl;
  put_u16_lem = λ n out. refl;
  put_u32_lem = λ n out. refl;
  put_bytes_lem = λ b out. refl;
  put_str_lem = λ b out. refl;
  get_map_lem = λ n rest p h. refl;
  get_u8_lem = λ n rest p h. refl;
  get_u16_lem = λ n rest p h. refl;
  get_u32_lem = λ n rest p h. refl;
  get_bytes_lem = λ b rest p h. content_lem 2 b rest p;
  get_str_lem = λ b rest p h. content_lem 3 b rest p;
  map_size = λ n h. omega arith;
  u8_size = λ n h. omega arith;
  u16_size = λ n h. omega arith;
  u32_size = λ n h. omega arith;
  bytes_size = λ b h. omega arith;
  text_size = λ b h. omega arith;
}
