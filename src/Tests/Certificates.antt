-- ===== src/Tests/Certificates.antt =====
-- Seed labels, serial numbers and paths of certificates.
use styrene_identity.Prelude.{
  ◌≤◌, ◌<◌, ◌≡◌, refl, List, [], ◌∷◌, length, first_or, Bytes, codes, arith,
}
use styrene_identity.Prelude.{ℤ, true, false}
use styrene_identity.Pki.Utf8.{trim, strip, white_len, white_len_back, any_control}
use styrene_identity.Pki.Profile.{to_string, digits}
use styrene_identity.Pki.{
  server, role_name, hex_digits, seed_components, tls_seed_label, deterministic_serial,
  pct_encode_path, pct_byte, is_unreserved, styrene_agent_uri, styrene_uri,
}
use styrene_identity.Pki.Text.{deterministic_serial-bounds, pct_encode_path-injective}
use styrene_identity.Tests.Cryptography.{hash, hash_size}

abbrev components : List Bytes
components = codes "default" ∷ codes "mesh/a" ∷ codes "web" ∷ codes "0" ∷ []

labelled :
    tls_seed_label (role_name server) (codes "x" ∷ codes "mesh/a" ∷ [])
    ≡ codes "styrene/tls/v2/server/0000000000000001:x/0000000000000006:mesh/a"
unfolding tls_seed_label role_name seed_components hex_digits
labelled = refl

deterministic_serial-bounds_example :
    (length (deterministic_serial hash components) ≡ 20)
    × (1 ≤ first_or (deterministic_serial hash components) 0)
    × (first_or (deterministic_serial hash components) 0 < 128)
deterministic_serial-bounds_example = deterministic_serial-bounds hash hash_size components

uri :
    styrene_agent_uri (codes "ab") (codes "a b")
    ≡ codes "spiffe://styrene.dev/identity/ab/agent/a%20b"
unfolding styrene_agent_uri styrene_uri pct_encode_path pct_byte is_unreserved
uri = refl

pct_encode_path-injective_example : codes "a b/" ≡ codes "a b/"
pct_encode_path-injective_example =
    pct_encode_path-injective (codes "a b/") (codes "a b/") (ground arith) (ground arith) refl

year : (to_string (ℤ.pos 2026) ≡ codes "2026") × (to_string (ℤ.negsuc 41) ≡ codes "-42")
unfolding to_string digits
year = (refl, refl)

-- White space of one, two and three bytes is left out at both ends, and a lone byte is not.
trimmed :
    (trim (9 ∷ 0xc2 ∷ 0xa0 ∷ b'a' ∷ b' ' ∷ b'b' ∷ 0xe2 ∷ 0x80 ∷ 0x83 ∷ []) ≡ codes "a b")
    × (trim (0xa0 ∷ []) ≡ 0xa0 ∷ [])
unfolding trim strip white_len white_len_back
trimmed = (refl, refl)

controls : (any_control (codes "a b") ≡ false) × (any_control (b'a' ∷ 0xc2 ∷ 0x85 ∷ []) ≡ true)
unfolding any_control
controls = (refl, refl)
