-- ===== src/Tests/Keys.antt =====
-- Derived keys and identity ids at concrete data.
use styrene_identity.Prelude.{◌↔◌, ◌≡◌, ◌⊎◌, refl, ok, [], ◌∷◌, Bytes, codes}
use styrene_identity.Derive.{signing, rns_signing, new, derive, info}
use styrene_identity.Derive.Families.{flat, unalias, key_of, key_of-binding, HkdfCollision}
use styrene_identity.IdentityId
use styrene_identity.IdentityId.{IdentityId}
use styrene_identity.IdentityId.Text.{IsId, IsText, from_str_iff}
use styrene_identity.Tests.Cryptography.{fit, hkdf}
use styrene_identity.Tests.HexText.{hex, hex-IsHex}

abbrev root : Bytes
root = fit 32 (1 ∷ 2 ∷ 3 ∷ [])

aliased : key_of hkdf root (flat rns_signing) ≡ key_of hkdf root (flat signing)
unfolding key_of derive info
aliased = refl

key_of-binding_example : (unalias (flat rns_signing) ≡ unalias (flat signing)) ⊎ HkdfCollision hkdf
unfolding key_of
key_of-binding_example =
    key_of-binding hkdf root (flat rns_signing) (flat signing) (derive hkdf (new hkdf root) signing)
      tt tt aliased refl

abbrev identity : IdentityId
identity = record { bytes = fit 16 (254 ∷ 1 ∷ 160 ∷ []) }

abbrev written : Bytes
written = codes "fe01a000000000000000000000000000"

from_str_iff_example :
    ((i : IdentityId)
      → (IdentityId.from_str hex written ≡ ok i)
        ↔ ((IdentityId.to_string hex i ≡ written) × IsId i))
    × (((i : IdentityId) × (IdentityId.from_str hex written ≡ ok i)) ↔ IsText written)
from_str_iff_example = from_str_iff hex hex-IsHex written

parsed : IdentityId.from_str hex written ≡ ok identity
unfolding IdentityId.from_str
parsed = refl
