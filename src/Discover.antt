-- ===== src/Discover.antt =====
-- src/discover.rs: the search for an identity on the machine. A path is its text, and which paths are
-- files is a parameter, like the variables of the environment. Whether a Keychain item exists is
-- asked where the program is built with the Keychain.
pub mod Sources
use styrene_identity.Prelude.{
  Bool, true, false, ◌&&◌, ◌||◌, Option, none, some, [], ◌∷◌, ◌++◌, if◌then◌else◌, Bytes, codes,
  is_empty,
}
use styrene_identity.FileSystem.{join}
use styrene_identity.FileSigner.{starts_with}
use styrene_identity.SignerChain.{
  SignerTier, hardware_hsm, device_hsm, credential_manager, encrypted_file,
}

pub record DiscoveredIdentity : Type 0 where
  pub path : Bytes
  pub tier : SignerTier
  pub label : Bytes

abbrev is_credential_manager : SignerTier → Bool
is_credential_manager credential_manager = true
is_credential_manager _ = false

unfoldable pub is_hash_only : DiscoveredIdentity → Bool
is_hash_only self =
    is_credential_manager self.tier && starts_with self.label (codes "env:STYRENE_IDENTITY_HASH")

unfoldable pub default_identity_path : Bytes → Bytes
default_identity_path home =
    join (join (join home (codes ".config")) (codes "styrene")) (codes "identity.key")

-- `home_dir`, from the variable `HOME`: an absolute path.
unfoldable pub home_dir : Option Bytes → Option Bytes
home_dir none = none
home_dir (some home) = if starts_with home (b'/' ∷ []) then some home else none

-- The three sources of `discover_from_sources`; each is passed what is done without it.
module _ (is_file : Bytes → Bool) where
  unfoldable pub from_default : Option Bytes → Option DiscoveredIdentity → Option DiscoveredIdentity
  from_default none otherwise = otherwise
  from_default (some home) otherwise =
      let default_path = default_identity_path home in
      if is_file default_path
      then some (record {
        path = default_path;
        tier = encrypted_file;
        label = codes "~/.config/styrene/identity.key";
      })
      else otherwise

  unfoldable pub from_custom_path :
      Option Bytes → Option DiscoveredIdentity → Option DiscoveredIdentity
  from_custom_path none otherwise = otherwise
  from_custom_path (some custom_path) otherwise =
      if is_file custom_path
      then some (record {
        path = custom_path;
        tier = encrypted_file;
        label = codes "env:STYRENE_IDENTITY_PATH=" ++ custom_path;
      })
      else otherwise

unfoldable pub from_hash : Option Bytes → Option DiscoveredIdentity
from_hash none = none
from_hash (some hash) =
    if is_empty hash
    then none
    else some (record {
      path = codes "hash:" ++ hash;
      tier = credential_manager;
      label = codes "env:STYRENE_IDENTITY_HASH=" ++ hash;
    })

unfoldable pub discover_from_sources :
    (Bytes → Bool) → Option Bytes → Option Bytes → Option Bytes → Option DiscoveredIdentity
discover_from_sources is_file home custom_path identity_hash =
    from_default is_file home (from_custom_path is_file custom_path (from_hash identity_hash))

-- Whether the current and the legacy Keychain item exist, then the variables `HOME`,
-- `STYRENE_IDENTITY_PATH` and `STYRENE_IDENTITY_HASH`.
unfoldable pub discover :
    (Bytes → Bool)
    → Bool
    → Bool
    → Option Bytes
    → Option Bytes
    → Option Bytes
    → Option DiscoveredIdentity
discover is_file keychain legacy home custom_path identity_hash =
    if keychain || legacy
    then some (record {
      path = codes "(Keychain)";
      tier = device_hsm;
      label = codes "Keychain (after first unlock)";
    })
    else discover_from_sources is_file (home_dir home) custom_path identity_hash
