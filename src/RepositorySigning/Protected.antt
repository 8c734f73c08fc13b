-- ===== src/RepositorySigning/Protected.antt =====
-- Encoding and decoding the protected claims of src/repository_signing.rs.
use styrene_identity.Prelude.{
  ◌+◌, ◌≤◌, ◌<◌, ◌^◌, ◌≡◌, refl, [], ◌++◌, append-nil, append_assoc, some, ok, length,
  length-append, Bytes, bytes_eq_iff, arith,
}
use styrene_identity.External.Minicbor.{
  Minicbor, IsMinicbor, map_header, uint, byte_string, text_string,
}
use styrene_identity.IdentityId
use styrene_identity.RepositorySigning.{Claims, purpose, encode_protected, decode_protected, ◌then◌}
use styrene_identity.RepositorySigning.Items.{require_map_lem, require_key_lem, require_array_lem}

-- The sizes and ranges of the fields' types.
pub record IsClaims (c : Claims) : Type 0 where
  pub id_size : length c.identity_id.bytes ≡ 16
  pub identity_key_size : length c.identity_public_key ≡ 32
  pub repository_key_size : length c.repository_public_key ≡ 32
  pub epoch_range : c.epoch < 2 ^ 32

module _ (m : Minicbor) (law : IsMinicbor m) (c : Claims) where
  open law use {item}

  unfoldable pub protected_bytes : Bytes
  protected_bytes =
      item (map_header 7)
      ++ (item (uint 0)
          ++ (item (uint 1)
              ++ (item (uint 1)
                  ++ (item (byte_string c.identity_id.bytes)
                      ++ (item (uint 2)
                          ++ (item (byte_string c.identity_public_key)
                              ++ (item (uint 3)
                                  ++ (item (byte_string c.repository_public_key)
                                      ++ (item (uint 4)
                                          ++ (item (uint c.epoch)
                                              ++ (item (uint 5)
                                                  ++ (item (text_string purpose)
                                                      ++ (item (uint 6)
                                                          ++ (item (uint 0) ++ []))))))))))))))

  length-protected_bytes :
      length protected_bytes
      ≡ length (item (map_header 7))
        + (length (item (uint 0))
            + (length (item (uint 1))
                + (length (item (uint 1))
                    + (length (item (byte_string c.identity_id.bytes))
                        + (length (item (uint 2))
                            + (length (item (byte_string c.identity_public_key))
                                + (length (item (uint 3))
                                    + (length (item (byte_string c.repository_public_key))
                                        + (length (item (uint 4))
                                            + (length (item (uint c.epoch))
                                                + (length (item (uint 5))
                                                    + (length (item (text_string purpose))
                                                        + (length (item (uint 6))
                                                            + (length (item (uint 0))
                                                            + 0))))))))))))))
  unfolding protected_bytes
  length-protected_bytes = simp length-append

  pub protected_size : IsClaims c → length protected_bytes ≤ 256
  protected_size v = omega (
    arith,
    length-protected_bytes,
    law.map_size 7 (omega arith),
    law.u8_size 0 (omega arith),
    law.u8_size 1 (omega arith),
    law.u8_size 2 (omega arith),
    law.u8_size 3 (omega arith),
    law.u8_size 4 (omega arith),
    law.u8_size 5 (omega arith),
    law.u8_size 6 (omega arith),
    law.u32_size c.epoch (omega arith),
    law.bytes_size c.identity_id.bytes (omega arith),
    law.bytes_size c.identity_public_key (omega arith),
    law.bytes_size c.repository_public_key (omega arith),
    law.text_size purpose (omega arith),
  )

  written :
      (m.put_map 7 []
        then m.put_u8 0
        then m.put_u16 1
        then m.put_u8 1
        then m.put_bytes c.identity_id.bytes
        then m.put_u8 2
        then m.put_bytes c.identity_public_key
        then m.put_u8 3
        then m.put_bytes c.repository_public_key
        then m.put_u8 4
        then m.put_u32 c.epoch
        then m.put_u8 5
        then m.put_str purpose
        then m.put_u8 6
        then m.put_u8 0)
      ≡ some protected_bytes
  unfolding protected_bytes
  written = simp (
    law.put_map_lem, law.put_u8_lem, law.put_u16_lem, law.put_u32_lem, law.put_bytes_lem,
    law.put_str_lem, append-nil, append_assoc,
  )

  pub encode_protected_lem :
      IsClaims c
      → encode_protected m c.identity_id c.identity_public_key c.repository_public_key c.epoch
        ≡ ok protected_bytes
  unfolding encode_protected IdentityId.as_bytes
  encode_protected_lem v = rw written (ground (arith, protected_size v))

  pub decode_protected_lem : IsClaims c → decode_protected m protected_bytes ≡ ok c
  unfolding decode_protected protected_bytes IdentityId.from_bytes
  decode_protected_lem v =
      rw
        (
          require_map_lem m law _ 0 7 (omega arith),
          require_key_lem m law _ _ 0 (omega arith),
          law.get_u16_lem 1 _ _ (omega arith),
          require_key_lem m law _ _ 1 (omega arith),
          require_array_lem m law _ _ c.identity_id.bytes 16 v.id_size (omega arith),
          require_key_lem m law _ _ 2 (omega arith),
          require_array_lem m law _ _ c.identity_public_key 32 v.identity_key_size (omega arith),
          require_key_lem m law _ _ 3 (omega arith),
          require_array_lem m law _ _ c.repository_public_key 32 v.repository_key_size
              (omega arith),
          require_key_lem m law _ _ 4 (omega arith),
          law.get_u32_lem c.epoch _ _ v.epoch_range,
          require_key_lem m law _ _ 5 (omega arith),
          law.get_str_lem purpose _ _ (omega arith),
          (bytes_eq_iff purpose purpose).1 refl,
          require_key_lem m law _ _ 6 (omega arith),
          law.get_u8_lem 0 _ _ (omega arith),
        )
        (ground (arith, length-protected_bytes))
