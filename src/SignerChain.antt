-- ===== src/SignerChain.antt =====
-- src/signer.rs: the chain of signers. A signer is what it answers: `sign` and `root_secret` are
-- functions of the argument. What a signer holds is not modelled, and its answers do not change
-- while the chain asks.
pub mod Choice
pub mod Signers
pub mod Honest
use styrene_identity.Prelude.{
  ℕ, Bool, true, false, ◌||◌, List, [], ◌∷◌, Option, none, some, Result, ok, err, leb,
  if◌then◌else◌, Bytes, codes,
}
use styrene_identity.FileSigner.{SignerError, unavailable, text}

pub data SignerTier : Type 0 where
  hardware_hsm device_hsm credential_manager encrypted_file : SignerTier

-- The order of the tiers, from the derived `Ord`.
unfoldable pub rank : SignerTier → ℕ
rank hardware_hsm = 0
rank device_hsm = 1
rank credential_manager = 2
rank encrypted_file = 3

pub record IdentitySigner : Type 0 where
  pub tier : SignerTier
  pub label : Bytes
  pub is_available : Bool
  pub root_secret : Result SignerError Bytes
  pub sign : Bytes → Result SignerError Bytes

pub record SignerChain : Type 0 where
  pub signers : List IdentitySigner

unfoldable pub new : List IdentitySigner → SignerChain
new signers = record { signers = signers }

-- The stable sort of `sort_by_key`, by insertion before the first signer of a later tier.
unfoldable pub insert_by_tier : IdentitySigner → List IdentitySigner → List IdentitySigner
insert_by_tier s [] = s ∷ []
insert_by_tier s (t ∷ rest) =
    let later = insert_by_tier s rest in
    if leb (rank s.tier) (rank t.tier) then s ∷ t ∷ rest else t ∷ later

unfoldable pub sort_by_tier : List IdentitySigner → List IdentitySigner
sort_by_tier [] = []
sort_by_tier (s ∷ rest) = insert_by_tier s (sort_by_tier rest)

unfoldable pub new_sorted : List IdentitySigner → SignerChain
new_sorted signers = record { signers = sort_by_tier signers }

unfoldable pub find_available : List IdentitySigner → Option IdentitySigner
find_available [] = none
find_available (s ∷ rest) = if s.is_available then some s else find_available rest

unfoldable pub available : SignerChain → Option IdentitySigner
available self = find_available self.signers

unfoldable pub statuses : List IdentitySigner → List (Bytes × SignerTier × Bool)
statuses [] = []
statuses (s ∷ rest) = (s.label, s.tier, s.is_available) ∷ statuses rest

unfoldable pub status : SignerChain → List (Bytes × SignerTier × Bool)
status self = statuses self.signers

abbrev tier_of : Option IdentitySigner → SignerTier
tier_of none = encrypted_file
tier_of (some s) = s.tier

abbrev label_of : Option IdentitySigner → Bytes
label_of none = codes "(no signer available)"
label_of (some s) = s.label

unfoldable pub tier : SignerChain → SignerTier
tier self = tier_of (available self)

unfoldable pub label : SignerChain → Bytes
label self = label_of (available self)

unfoldable pub any_available : List IdentitySigner → Bool
any_available [] = false
any_available (s ∷ rest) = s.is_available || any_available rest

unfoldable pub is_available : SignerChain → Bool
is_available self = any_available self.signers

abbrev pub no_signer : SignerError
no_signer = unavailable (text "no signer available in chain")

unfoldable pub first_root_secret : List IdentitySigner → Result SignerError Bytes
first_root_secret [] = err no_signer
first_root_secret (s ∷ rest) = if s.is_available then s.root_secret else first_root_secret rest

unfoldable pub root_secret : SignerChain → Result SignerError Bytes
root_secret self = first_root_secret self.signers

unfoldable pub first_sign : List IdentitySigner → Bytes → Result SignerError Bytes
first_sign [] message = err no_signer
first_sign (s ∷ rest) message = if s.is_available then s.sign message else first_sign rest message

unfoldable pub sign : SignerChain → Bytes → Result SignerError Bytes
sign self message = first_sign self.signers message
