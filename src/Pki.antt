-- ===== src/Pki.antt =====
-- src/pki.rs: the labels of TLS key seeds, serial numbers, and the text of identity URIs. A text is
-- its UTF-8 bytes. Profiles, names, certificate parameters and issuing are in the child modules.
pub mod Utf8
pub mod Profile
pub mod Names
pub mod Params
pub mod Issue
pub mod SeedLabel
pub mod Text
use styrene_identity.Prelude.{
  ℕ, zero, suc, ◌+◌, ◌/◌, ◌%◌, Bool, List, [], ◌∷◌, ◌++◌, ltb, leb, ◌==◌, ◌&&◌, ◌||◌, if◌then◌else◌,
  length, take, Bytes, codes, is_empty, be32,
}

pub data CertificateRole : Type 0 where
  ca server client : CertificateRole

unfoldable pub role_name : CertificateRole → Bytes
role_name ca = codes "ca"
role_name server = codes "server"
role_name client = codes "client"

abbrev pub hex_digit : ℕ → ℕ
hex_digit n = if ltb n 10 then b'0' + n else 87 + n

-- The last k hexadecimal digits of a number.
unfoldable pub hex_digits : ℕ → ℕ → Bytes
hex_digits zero n = []
hex_digits (suc k) n = hex_digits k (n / 16) ++ (hex_digit (n % 16) ∷ [])

-- `format!("/{:016x}:{component}")` of each component; a length is below 2 ^ 64.
unfoldable pub seed_components : List Bytes → Bytes
seed_components [] = []
seed_components (component ∷ rest) =
    b'/' ∷ (hex_digits 16 (length component) ++ (b':' ∷ (component ++ seed_components rest)))

unfoldable pub tls_seed_label : Bytes → List Bytes → Bytes
tls_seed_label kind components = codes "styrene/tls/v2/" ++ (kind ++ seed_components components)

-- `part.len() as u64` in big-endian bytes.
abbrev pub be64 : ℕ → Bytes
be64 n = be32 (n / 4_294_967_296) ++ be32 (n % 4_294_967_296)

unfoldable pub serial_preimage : List Bytes → Bytes
serial_preimage [] = []
serial_preimage (part ∷ parts) = be64 (length part) ++ (part ++ serial_preimage parts)

-- `serial[0] &= 0x7f`, and one in place of zero.
unfoldable pub positive : Bytes → Bytes
positive [] = []
positive (first ∷ rest) = (if first % 128 == 0 then 1 else first % 128) ∷ rest

unfoldable pub deterministic_serial : (Bytes → Bytes) → List Bytes → Bytes
deterministic_serial sha256 parts = positive (take 20 (sha256 (serial_preimage parts)))

abbrev pub upper_hex_digit : ℕ → ℕ
upper_hex_digit n = if ltb n 10 then b'0' + n else 55 + n

unfoldable pub is_unreserved : ℕ → Bool
is_unreserved byte =
    (leb b'A' byte && leb byte b'Z')
    || ((leb b'a' byte && leb byte b'z')
        || ((leb b'0' byte && leb byte b'9')
            || (byte == b'-' || (byte == b'.' || (byte == b'_' || byte == b'~')))))

unfoldable pub pct_byte : ℕ → Bytes
pct_byte byte =
    if is_unreserved byte
    then byte ∷ []
    else b'%' ∷ upper_hex_digit (byte / 16) ∷ upper_hex_digit (byte % 16) ∷ []

unfoldable pub pct_encode_path : Bytes → Bytes
pct_encode_path [] = []
pct_encode_path (byte ∷ rest) = pct_byte byte ++ pct_encode_path rest

unfoldable pub styrene_uri : Bytes → Bytes → Bytes → Bytes
styrene_uri identity_hash role label =
    codes "spiffe://styrene.dev"
    ++ (codes "/identity/"
        ++ (pct_encode_path identity_hash
            ++ (b'/' ∷ (role ++ (if is_empty label then [] else b'/' ∷ pct_encode_path label)))))

unfoldable pub styrene_agent_uri : Bytes → Bytes → Bytes
styrene_agent_uri identity_hash agent_label = styrene_uri identity_hash (codes "agent") agent_label

unfoldable pub styrene_client_uri : Bytes → Bytes → Bytes
styrene_client_uri identity_hash client_label =
    styrene_uri identity_hash (codes "client") client_label

unfoldable pub styrene_ca_uri : Bytes → Bytes → Bytes
styrene_ca_uri identity_hash ca_scope = styrene_uri identity_hash (codes "ca") ca_scope
