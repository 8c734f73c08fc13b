-- ===== src/Discover/Sources.antt =====
-- src/discover.rs: what a found identity stands for.
use styrene_identity.Prelude.{
  ◌≡◌, ◌⊎◌, inl, inr, refl, Bool, Bool-cases, true, false, Option, none, some, [], ◌∷◌, ◌++◌, Bytes,
  codes, is_empty, not, ◌∙◌, bytes_eq,
}
use styrene_identity.SignerChain.{encrypted_file}
use styrene_identity.Discover.{
  DiscoveredIdentity, is_hash_only, default_identity_path, from_default, from_custom_path,
  from_hash, discover_from_sources,
}

-- Whether the default file of the home exists, the custom path is a file, a hash is given.
abbrev pub has_default : (Bytes → Bool) → Option Bytes → Bool
has_default is_file none = false
has_default is_file (some home) = is_file (default_identity_path home)

abbrev pub has_custom : (Bytes → Bool) → Option Bytes → Bool
has_custom is_file none = false
has_custom is_file (some path) = is_file path

abbrev pub has_hash : Option Bytes → Bool
has_hash none = false
has_hash (some hash) = not (is_empty hash)

module _ (is_file : Bytes → Bool) (home custom_path identity_hash : Option Bytes) where
  -- The default file, where it exists; else the custom path, where it is a file; else the hash.
  abbrev pub IsFound : DiscoveredIdentity → Type 0
  IsFound d =
      ((has_default is_file home ≡ true)
        × (is_hash_only d ≡ false)
        × ((h : Bytes) × (home ≡ some h) × (d.path ≡ default_identity_path h)))
      ⊎ ((has_default is_file home ≡ false)
          × (has_custom is_file custom_path ≡ true)
          × (is_hash_only d ≡ false)
          × (custom_path ≡ some d.path))
      ⊎ ((has_default is_file home ≡ false)
          × (has_custom is_file custom_path ≡ false)
          × (has_hash identity_hash ≡ true)
          × (is_hash_only d ≡ true)
          × ((hash : Bytes) × (identity_hash ≡ some hash)
              × (d.label ≡ codes "env:STYRENE_IDENTITY_HASH=" ++ hash)))

from_hash-cases :
    (identity_hash : Option Bytes)
    → ((d : DiscoveredIdentity) × (from_hash identity_hash ≡ some d)
        × (has_hash identity_hash ≡ true)
        × (is_hash_only d ≡ true)
        × ((hash : Bytes) × (identity_hash ≡ some hash)
            × (d.label ≡ codes "env:STYRENE_IDENTITY_HASH=" ++ hash)))
      ⊎ ((from_hash identity_hash ≡ none) × (has_hash identity_hash ≡ false))
unfolding from_hash is_hash_only bytes_eq
from_hash-cases none = inr (refl, refl)
from_hash-cases (some []) = inr (refl, refl)
from_hash-cases (some (c ∷ cs)) = inl (_, refl, refl, refl, (c ∷ cs, refl, refl))

-- The identities that stand for a file.
abbrev default_file : Bytes → DiscoveredIdentity
default_file home = record {
  path = default_identity_path home;
  tier = encrypted_file;
  label = codes "~/.config/styrene/identity.key";
}

abbrev custom_file : Bytes → DiscoveredIdentity
custom_file path = record {
  path = path;
  tier = encrypted_file;
  label = codes "env:STYRENE_IDENTITY_PATH=" ++ path;
}

from_custom_path-cases :
    (is_file : Bytes → Bool) (custom_path : Option Bytes) (otherwise : Option DiscoveredIdentity)
    → ((d : DiscoveredIdentity) × (from_custom_path is_file custom_path otherwise ≡ some d)
        × (has_custom is_file custom_path ≡ true)
        × (is_hash_only d ≡ false)
        × (custom_path ≡ some d.path))
      ⊎ ((from_custom_path is_file custom_path otherwise ≡ otherwise)
          × (has_custom is_file custom_path ≡ false))
unfolding from_custom_path is_hash_only
from_custom_path-cases is_file none otherwise = inr (refl, refl)
from_custom_path-cases is_file (some path) otherwise = elim (Bool-cases (is_file path)) [
  | inl there ↦ inl (custom_file path, rw there refl, there, refl, refl)
  | inr missing ↦ inr (rw missing refl, missing)
]

from_default-cases :
    (is_file : Bytes → Bool) (home : Option Bytes) (otherwise : Option DiscoveredIdentity)
    → ((d : DiscoveredIdentity) × (from_default is_file home otherwise ≡ some d)
        × (has_default is_file home ≡ true)
        × (is_hash_only d ≡ false)
        × ((h : Bytes) × (home ≡ some h) × (d.path ≡ default_identity_path h)))
      ⊎ ((from_default is_file home otherwise ≡ otherwise) × (has_default is_file home ≡ false))
unfolding from_default is_hash_only
from_default-cases is_file none otherwise = inr (refl, refl)
from_default-cases is_file (some home) otherwise =
    elim (Bool-cases (is_file (default_identity_path home))) [
      | inl there ↦ inl (default_file home, rw there refl, there, refl, (home, refl, refl))
      | inr missing ↦ inr (rw missing refl, missing)
    ]

-- What is found is the default identity file where it exists, else the file at the custom path where
-- that is one, else the hash where one is given that is not empty; and nothing is found where there
-- is none of the three. Exactly the third of these is hash-only, and carries its hash in its label.
pub discover_from_sources-IsFound :
    (is_file : Bytes → Bool) (home custom_path identity_hash : Option Bytes)
    → ((d : DiscoveredIdentity) × (discover_from_sources is_file home custom_path identity_hash
          ≡ some d)
        × IsFound is_file home custom_path identity_hash d)
      ⊎ ((discover_from_sources is_file home custom_path identity_hash ≡ none)
          × (has_default is_file home ≡ false)
          × (has_custom is_file custom_path ≡ false)
          × (has_hash identity_hash ≡ false))
unfolding discover_from_sources
discover_from_sources-IsFound is_file home custom_path identity_hash =
    let third = from_hash identity_hash in
    let second = from_custom_path is_file custom_path third in
    elim (from_default-cases is_file home second) [
      | inl (d, e, there, file, from) ↦ inl (d, e, inl (there, file, from))
      | inr (e, no_default) ↦ elim (from_custom_path-cases is_file custom_path third) [
        | inl (d, e', there, file, from) ↦
            inl (d, e ∙ e', inr (inl (no_default, there, file, from)))
        | inr (e', no_custom) ↦ elim (from_hash-cases identity_hash) [
          | inl (d, e2, given, only, from) ↦
              inl (d, e ∙ e' ∙ e2, inr (inr (no_default, no_custom, given, only, from)))
          | inr (e2, no_hash) ↦ inr (e ∙ e' ∙ e2, no_default, no_custom, no_hash)
        ]
      ]
    ]
