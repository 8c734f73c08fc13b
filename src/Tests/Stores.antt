-- ===== src/Tests/Stores.antt =====
-- Platform stores and the discovery of identities at concrete data.
use styrene_identity.Prelude.{
  arith, eq_ℤ, true, ℕ, ℤ, ◌≡◌, ◌⊎◌, refl, Bool, false, Option, none, some, Result, ok, err, [],
  ◌∷◌, length, Bytes, bytes_eq, codes,
}
use styrene_identity.SignerChain.{credential_manager}
use styrene_identity.Discover.{
  DiscoveredIdentity, discover_from_sources, from_default, from_custom_path, from_hash,
}
use styrene_identity.Discover.Sources.{
  IsFound, has_default, has_custom, has_hash, discover_from_sources-IsFound,
}
use styrene_identity.Platform.Android
use styrene_identity.Platform.Android.{KeyringError, Entry, no_entry, load_or_create_root_secret}
use styrene_identity.Platform.Android.Custody.{load_or_create_root_secret-ok}
use styrene_identity.Platform.Keychain
use styrene_identity.Platform.Keychain.{
  item_not_found, OsError, Keychain, KeychainSigner, restore_root_secret,
}
use styrene_identity.Platform.Keychain.Lookup.{IsSeen, lookup, looked, restore_root_secret-ok}
use styrene_identity.Tests.Cryptography.{fit}

abbrev pub drawn : Bytes
drawn = fit 32 (4 ∷ 4 ∷ [])

-- An entry that holds what was set last.
abbrev pub get : Option Bytes → Result KeyringError Bytes × Option Bytes
get none = (err no_entry, none)
get (some b) = (ok b, some b)

abbrev pub entry : Entry (Option Bytes)
entry = record { get_secret = get; set_secret = λ b s. (ok tt, some b) }

creates : (load_or_create_root_secret entry drawn none).0 ≡ ok drawn
unfolding load_or_create_root_secret Android.load_or_create Android.store_verified get bytes_eq
creates = refl

load_or_create_root_secret-ok_example :
    (((entry.get_secret none).0 ≡ ok drawn) × (length drawn ≡ 32))
    ⊎ (((entry.get_secret none).0 ≡ err no_entry)
        × (drawn ≡ drawn)
        × ((entry.set_secret drawn (entry.get_secret none).1).0 ≡ ok tt)
        × ((entry.get_secret (entry.set_secret drawn (entry.get_secret none).1).1).0 ≡ ok drawn))
load_or_create_root_secret-ok_example = load_or_create_root_secret-ok entry drawn drawn none creates

-- A Keychain with at most one item, which can be locked: then its lookups and reads fail, and it
-- stores all the same.
abbrev locked_error : OsError
locked_error = record { code = ℤ.negsuc 25_307 }

abbrev count : Bool → Option Bytes → Result OsError ℕ
count true stored = err locked_error
count false none = ok 0
count false (some b) = ok 1

abbrev reading : Bool → Option Bytes → Result OsError Bytes
reading true stored = err locked_error
reading false none = err (record { code = item_not_found })
reading false (some b) = ok b

abbrev keychain : Keychain (Bool × Option Bytes)
keychain = record {
  search = λ service account s. (count s.0 s.1, s);
  access_control = ok tt;
  set_password = λ service account b s. (ok tt, (s.0, some b));
  password = λ service account s. (reading s.0 s.1, s);
  delete_password = λ service account s. (ok tt, (s.0, none));
}

abbrev signer : KeychainSigner
signer = record { service = codes "io.styrene.identity"; account = codes "root-secret-v2" }

none_found :
    (locked : Bool) (stored : Option Bytes)
    → count locked stored ≡ ok 0
    → (why : OsError) × (reading locked stored ≡ err why)
none_found true stored e = (locked_error, refl)
none_found false none e = (record { code = item_not_found }, refl)
none_found false (some b) e = absurd (ground arith)

not_found :
    (locked : Bool) (stored : Option Bytes) (e : OsError)
    → count locked stored ≡ err e
    → eq_ℤ e.code item_not_found ≡ true
    → (why : OsError) × (reading locked stored ≡ err why)
not_found true stored e failed missing = (locked_error, refl)
not_found false none e failed missing = (record { code = item_not_found }, refl)
not_found false (some b) e failed missing = absurd (ground arith)

keychain-IsSeen : IsSeen keychain signer
keychain-IsSeen = record {
  none_found = λ s. none_found s.0 s.1;
  not_found = λ s. not_found s.0 s.1;
}

-- It is locked, and holds a secret.
abbrev existing : Bool × Option Bytes
existing = (true, some (fit 32 (7 ∷ [])))

replaces : (restore_root_secret keychain signer drawn existing).0 ≡ ok tt
unfolding restore_root_secret Keychain.create_from_root_secret Keychain.exists Keychain.presence
    Keychain.presence_of Keychain.or_false
replaces = refl

restore_root_secret-ok_example :
    (((why : OsError) × ((keychain.password signer.service signer.account existing).0 ≡ err why))
      ⊎ ((e : OsError) × (lookup keychain signer existing ≡ err e)
          × (eq_ℤ e.code item_not_found ≡ false)))
    × ((keychain.set_password signer.service signer.account drawn
          (looked keychain signer existing)).0
        ≡ ok tt)
    × ((restore_root_secret keychain signer drawn existing).1
        ≡ (keychain.set_password signer.service signer.account drawn
            (looked keychain signer existing)).1)
restore_root_secret-ok_example =
    restore_root_secret-ok keychain signer keychain-IsSeen drawn existing replaces

abbrev no_file : Bytes → Bool
no_file path = false

abbrev attributed : DiscoveredIdentity
attributed = record {
  path = codes "hash:ab12";
  tier = credential_manager;
  label = codes "env:STYRENE_IDENTITY_HASH=ab12";
}

discover_from_sources-IsFound_example :
    ((d : DiscoveredIdentity) × (discover_from_sources no_file
          (some (codes "/home/op"))
          (some (codes "/x"))
          (some (codes "ab12"))
        ≡ some d)
      × IsFound no_file (some (codes "/home/op")) (some (codes "/x")) (some (codes "ab12")) d)
    ⊎ ((discover_from_sources no_file
            (some (codes "/home/op"))
            (some (codes "/x"))
            (some (codes "ab12"))
          ≡ none)
        × (has_default no_file (some (codes "/home/op")) ≡ false)
        × (has_custom no_file (some (codes "/x")) ≡ false)
        × (has_hash (some (codes "ab12")) ≡ false))
discover_from_sources-IsFound_example =
    discover_from_sources-IsFound no_file (some (codes "/home/op")) (some (codes "/x"))
      (some (codes "ab12"))

discovered :
    discover_from_sources no_file
      (some (codes "/home/op"))
      (some (codes "/x"))
      (some (codes "ab12"))
    ≡ some attributed
unfolding discover_from_sources from_default from_custom_path from_hash
discovered = refl
