-- ===== src/RepositorySigning/Items.antt =====
-- The decoding helpers of src/repository_signing.rs on items that minicbor wrote.
use styrene_identity.Prelude.{ℕ, ◌<◌, ◌^◌, ◌≡◌, ok, length, Bytes, arith}
use styrene_identity.External.Minicbor.{
  Minicbor, IsMinicbor, map_header, uint, byte_string, before, behind,
}
use styrene_identity.RepositorySigning.{require_map, require_key, require_array}

module _ (m : Minicbor) (law : IsMinicbor m) (rest : Bytes) (p : ℕ) where
  open law use {item}

  pub require_map_lem :
      (n : ℕ)
      → n < 2 ^ 16
      → require_map m (before (item (map_header n)) rest p) n
        ≡ ok (behind (item (map_header n)) rest p)
  unfolding require_map
  require_map_lem n h = ground (arith, law.get_map_lem n rest p)

  pub require_key_lem :
      (n : ℕ)
      → n < 2 ^ 8
      → require_key m (before (item (uint n)) rest p) n ≡ ok (behind (item (uint n)) rest p)
  unfolding require_key
  require_key_lem n h = ground (arith, law.get_u8_lem n rest p)

  pub require_array_lem :
      (b : Bytes) (size : ℕ)
      → length b ≡ size
      → size < 2 ^ 16
      → require_array m (before (item (byte_string b)) rest p) size
        ≡ ok (b, behind (item (byte_string b)) rest p)
  unfolding require_array
  require_array_lem b size e h = ground (arith, law.get_bytes_lem b rest p)
