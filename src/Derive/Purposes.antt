-- ===== src/Derive/Purposes.antt =====
-- Flat purposes of src/derive.rs: info strings tell canonical purposes apart, and aliases coincide.
use styrene_identity.Prelude.{◌≡◌, refl, sym, ap, ◌∙◌, ◌==◌, if◌then◌else◌, drop, Bytes, first_or}
use styrene_identity.Derive.{
  KeyPurpose, signing, rns_encryption, age, wire_guard, ssh_host, yggdrasil, i2p_signing,
  i2p_encryption, tor, rns_signing, git_signing, info, Hkdf, KeyDeriver, derive,
}

-- The purpose that a purpose stands for: the legacy ones are aliases of `signing`.
abbrev pub canonical : KeyPurpose → KeyPurpose
canonical rns_signing = signing
canonical git_signing = signing
canonical p = p

-- The purpose that two characters of an info string give away.
identify : Bytes → KeyPurpose
identify text =
    let c = first_or (drop 8 text) 0 in
    let d = first_or (drop 12 text) 0 in
    if c == b'r'
    then (if d == b's' then signing else rns_encryption)
    else if c == b'i'
    then (if d == b's' then i2p_signing else i2p_encryption)
    else if c == b'a'
    then age
    else if c == b'w'
    then wire_guard
    else if c == b's'
    then ssh_host
    else if c == b'y'
    then yggdrasil
    else tor

identify-info : (p : KeyPurpose) → identify (info p) ≡ canonical p
unfolding identify info
identify-info signing = refl
identify-info rns_encryption = refl
identify-info age = refl
identify-info wire_guard = refl
identify-info ssh_host = refl
identify-info yggdrasil = refl
identify-info i2p_signing = refl
identify-info i2p_encryption = refl
identify-info tor = refl
identify-info rns_signing = refl
identify-info git_signing = refl

pub info-injective : (p q : KeyPurpose) → info p ≡ info q → canonical p ≡ canonical q
info-injective p q e = sym (identify-info p) ∙ ap identify e ∙ identify-info q

info-canonical : (p : KeyPurpose) → info (canonical p) ≡ info p
unfolding info
info-canonical rns_signing = refl
info-canonical git_signing = refl
info-canonical _ = refl

-- A legacy purpose derives the key of the purpose that it stands for.
pub derive-canonical :
    (hkdf : Hkdf) (d : KeyDeriver) (p : KeyPurpose) → derive hkdf d (canonical p) ≡ derive hkdf d p
unfolding derive
derive-canonical hkdf d p = ap (Hkdf.expand hkdf d.prk) (info-canonical p)
