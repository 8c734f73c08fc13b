-- ===== src/Records/Identifier.antt =====
-- What `validate_ascii_identifier` of src/records/mod.rs accepts.
use styrene_identity.Prelude.{
  ℕ, ◌≤◌, ◌≡◌, refl, ◌≢◌, ◌↔◌, true, ◌&&◌, [], ◌∷◌, ok, leb, length, all, All, Bytes, arith,
}
use styrene_identity.Records.{validate_ascii_identifier}

-- The visible ASCII characters.
abbrev pub IsGraphic : ℕ → Type 0
IsGraphic byte = (0x21 ≤ byte) × (byte ≤ 0x7e)

abbrev pub IsIdentifier : Bytes → ℕ → Type 0
IsIdentifier bytes max = (bytes ≢ []) × (length bytes ≤ max) × All IsGraphic bytes

all-IsGraphic :
    (bytes : Bytes)
    → (all (λ byte. leb 0x21 byte && leb byte 0x7e) bytes ≡ true) ↔ All IsGraphic bytes
all-IsGraphic [] = (λ _. tt, λ _. refl)
all-IsGraphic (b ∷ bytes) = ground (arith, all-IsGraphic bytes)

-- An identifier is accepted exactly when it has between one and `max` bytes, all of them visible
-- ASCII characters.
pub validate_ascii_identifier-IsIdentifier :
    (bytes : Bytes) (max : ℕ)
    → (validate_ascii_identifier bytes max ≡ ok tt) ↔ IsIdentifier bytes max
unfolding validate_ascii_identifier
validate_ascii_identifier-IsIdentifier [] max = ground arith
validate_ascii_identifier-IsIdentifier (b ∷ bytes) max = ground (arith, all-IsGraphic (b ∷ bytes))
