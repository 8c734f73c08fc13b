-- ===== src/IdentityId.antt =====
-- src/identity_id.rs: the 16-byte identifier of an identity, its text and its CBOR form. SHA-256,
-- the `hex` crate and minicbor are parameters; the constant-time comparison is equality.
pub mod Text
use styrene_identity.Prelude.{
  ℕ, Bool, true, false, not, ◌&&◌, ◌||◌, Option, none, some, Result, ok, err, ◌>>=◌, ◌>>◌, reject,
  ok_or, leb, ◌==◌, if◌then◌else◌, length, take, all, Bytes, bytes_eq,
}
use styrene_identity.External.Hex.{Hex}
use styrene_identity.External.Minicbor.{Minicbor, Decoder}

pub record IdentityId : Type 0 where
  pub bytes : Bytes

pub data IdentityIdError : Type 0 where
  identity_id_error : IdentityIdError

unfoldable pub from_bytes : Bytes → IdentityId
from_bytes bytes = record { bytes = bytes }

unfoldable pub as_bytes : IdentityId → Bytes
as_bytes self = self.bytes

module _ (sha256 : Bytes → Bytes) where
  unfoldable pub from_public_key : Bytes → IdentityId
  from_public_key public_key = record { bytes = take 16 (sha256 public_key) }

  unfoldable pub matches_public_key : IdentityId → Bytes → Bool
  unfolding from_public_key
  matches_public_key self public_key = bytes_eq self.bytes (from_public_key public_key).bytes

-- `try_into` of a slice into an array of n bytes.
abbrev pub try_array : ℕ → Bytes → Option Bytes
try_array n bytes = if length bytes == n then some bytes else none

-- `is_ascii_digit() || (b'a'..=b'f').contains(..)`
abbrev pub is_lower_hex : ℕ → Bool
is_lower_hex byte = (leb b'0' byte && leb byte b'9') || (leb b'a' byte && leb byte b'f')

module _ (hex : Hex) where
  -- `Display`
  unfoldable pub to_string : IdentityId → Bytes
  to_string self = Hex.encode hex self.bytes

  unfoldable pub from_str : Bytes → Result IdentityIdError IdentityId
  from_str value = do
    reject (not (length value == 32) || not (all is_lower_hex value)) identity_id_error
    decoded ← ok_or (Hex.decode hex value) identity_id_error
    bytes ← ok_or (try_array 16 decoded) identity_id_error
    ok (record { bytes = bytes })

module _ (m : Minicbor) where
  -- `Encode`: none stands for the encoder's error.
  unfoldable pub encode : IdentityId → Bytes → Option Bytes
  encode self out = Minicbor.put_bytes m self.bytes out

  -- `Decode`
  unfoldable pub decode : Decoder → Option (IdentityId × Decoder)
  decode decoder = elim (Minicbor.get_bytes m decoder) [
    | none ↦ none
    | some (bytes, rest) ↦
        if length bytes == 16 then some (record { bytes = bytes }, rest) else none
  ]
