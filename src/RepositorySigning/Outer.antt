-- ===== src/RepositorySigning/Outer.antt =====
-- Encoding and decoding the outer map of src/repository_signing.rs.
use styrene_identity.Prelude.{
  ◌+◌, ◌≤◌, ◌<◌, ◌^◌, ◌≡◌, [], ◌++◌, append-nil, append_assoc, some, ok, length, length-append,
  Bytes, arith,
}
use styrene_identity.External.Minicbor.{Minicbor, IsMinicbor, map_header, uint, byte_string}
use styrene_identity.RepositorySigning.{encode_outer, decode_outer, ◌then◌}
use styrene_identity.RepositorySigning.Items.{require_map_lem, require_key_lem, require_array_lem}

module _ (m : Minicbor) (law : IsMinicbor m) (protected sig : Bytes) where
  open law use {item}

  unfoldable pub outer_bytes : Bytes
  outer_bytes =
      item (map_header 2)
      ++ (item (uint 0)
          ++ (item (byte_string protected) ++ (item (uint 1) ++ (item (byte_string sig) ++ []))))

  length-outer_bytes :
      length outer_bytes
      ≡ length (item (map_header 2))
        + (length (item (uint 0))
            + (length (item (byte_string protected))
                + (length (item (uint 1)) + (length (item (byte_string sig)) + 0))))
  unfolding outer_bytes
  length-outer_bytes = simp length-append

  pub outer_size : length protected ≤ 256 → length sig ≡ 64 → length outer_bytes ≤ 384
  outer_size small size = omega (
    arith,
    length-outer_bytes,
    law.map_size 2 (omega arith),
    law.u8_size 0 (omega arith),
    law.u8_size 1 (omega arith),
    law.bytes_size protected (omega arith),
    law.bytes_size sig (omega arith),
  )

  written :
      (m.put_map 2 []
        then m.put_u8 0
        then m.put_bytes protected
        then m.put_u8 1
        then m.put_bytes sig)
      ≡ some outer_bytes
  unfolding outer_bytes
  written = simp (law.put_map_lem, law.put_u8_lem, law.put_bytes_lem, append-nil, append_assoc)

  -- The encoder writes the items one behind the other, within the limit.
  pub encode_outer_lem :
      length protected ≤ 256 → length sig ≡ 64 → encode_outer m protected sig ≡ ok outer_bytes
  unfolding encode_outer
  encode_outer_lem small size = rw written (ground (arith, outer_size small size))

  pub decode_outer_lem :
      length protected < 2 ^ 16 → length sig ≡ 64 → decode_outer m outer_bytes ≡ ok (protected, sig)
  unfolding decode_outer outer_bytes
  decode_outer_lem small size =
      rw
        (
          require_map_lem m law _ 0 2 (omega arith),
          require_key_lem m law _ _ 0 (omega arith),
          law.get_bytes_lem protected _ _ small,
          require_key_lem m law _ _ 1 (omega arith),
          require_array_lem m law _ _ sig 64 size (omega arith),
        )
        (ground (arith, length-outer_bytes))
