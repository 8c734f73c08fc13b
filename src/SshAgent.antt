-- ===== src/SshAgent.antt =====
-- src/ssh_agent.rs: the session of the SSH agent. The signer's answers to its calls are arguments:
-- `sign` asks it twice. A hash map is the list of its insertions, latest first. The protocol loop
-- and the lock around the signer belong to other crates.
pub mod Offers
pub mod Session
pub mod Labels
use Prim.Native.String.{String}
use styrene_identity.Prelude.{
  ℕ, Bool, true, false, List, [], ◌∷◌, ◌++◌, Option, none, some, Result, ok, err, ◌>>=◌, ◌>>◌,
  map_err, ok_or, if◌then◌else◌, Bytes, codes, bytes_eq,
}
use styrene_identity.External.Ed25519.{Ed25519}
use styrene_identity.Derive
use styrene_identity.Derive.{Hkdf, KeyDeriver, DeriveError}
use styrene_identity.FileSigner.{SignerError, unavailable, key_not_found, text}
use styrene_identity.Pubkey.{ed25519_verifying_key, sign_with_seed}

pub record StyreneAgent : Type 0 where
  pub labels : List Bytes
  pub agent_names : List Bytes
  pub serve_git_signing : Bool
  pub serve_host_key : Bool

-- `KeyData` of the ssh-key crate: an Ed25519 key or one of another algorithm.
pub data KeyData : Type 0 where
  ed25519 : Bytes → KeyData
  other_algorithm : Bytes → KeyData

pub record Identity : Type 0 where
  pub pubkey : KeyData
  pub comment : Bytes

pub record SignRequest : Type 0 where
  pub pubkey : KeyData
  pub message : Bytes

pub data KeySpec : Type 0 where
  ssh_user : Bytes → KeySpec
  git_signing : KeySpec
  agent : Bytes → KeySpec
  host : KeySpec

-- `AgentError` around a signer's error or one of `Signature::new`. `panicked` is the panic of an
-- `expect`.
pub data AgentError : Type 0 where
  signer : SignerError → AgentError
  signature_refused : AgentError
  panicked : AgentError

unfoldable pub new : List Bytes → StyreneAgent
new labels = record {
  labels = labels;
  agent_names = [];
  serve_git_signing = false;
  serve_host_key = false;
}

unfoldable pub with_host_key : StyreneAgent → StyreneAgent
with_host_key self = record self { serve_host_key = true }

unfoldable pub with_git_signing : StyreneAgent → StyreneAgent
with_git_signing self = record self { serve_git_signing = true }

unfoldable pub with_agent_keys : StyreneAgent → List Bytes → StyreneAgent
with_agent_keys self agent_names = record self { agent_names = agent_names }

-- `HashMap::get`
abbrev pub get : List (Bytes × KeySpec) → Bytes → Option KeySpec
get [] key = none
get ((k, spec) ∷ rest) key = if bytes_eq k key then some spec else get rest key

pub record PublicMap : Type 0 where
  pub identities : List Identity
  pub key_map : List (Bytes × KeySpec)

-- `.expect(..)`
abbrev pub expect : Result DeriveError Bytes → Result AgentError Bytes
expect r = map_err (λ _. panicked) r

-- The bytes of the key, or the error for another algorithm.
unfoldable pub requested_pubkey : KeyData → Result AgentError Bytes
requested_pubkey (KeyData.ed25519 pubkey) = ok pubkey
requested_pubkey (KeyData.other_algorithm _) =
    err (signer (unavailable (text "only Ed25519 keys are supported")))

module _ (hkdf : Hkdf) (ed : Ed25519) where
  -- `identities.push(..); key_map.insert(..)`
  unfoldable pub serve : KeySpec → Bytes → Bytes → PublicMap → PublicMap
  serve spec comment seed m =
      let pubkey = ed25519_verifying_key ed seed in
      record {
        identities =
            m.identities ++ (record { pubkey = KeyData.ed25519 pubkey; comment = comment } ∷ []);
        key_map = (pubkey, spec) ∷ m.key_map;
      }

  unfoldable pub add_ssh_users : KeyDeriver → List Bytes → PublicMap → Result AgentError PublicMap
  add_ssh_users deriver [] m = ok m
  add_ssh_users deriver (label ∷ rest) m =
      expect (Derive.derive_ssh_user_key hkdf deriver label) >>= λ seed.
      add_ssh_users deriver rest
        (serve (ssh_user label) (codes "styrene-ssh-user-" ++ label) seed m)

  unfoldable pub add_agents : KeyDeriver → List Bytes → PublicMap → Result AgentError PublicMap
  add_agents deriver [] m = ok m
  add_agents deriver (name ∷ rest) m =
      expect (Derive.derive_agent_key hkdf deriver name) >>= λ seed.
      add_agents deriver rest (serve (agent name) (codes "styrene-agent:" ++ name) seed m)

  unfoldable pub add_git_signing : Bool → KeyDeriver → PublicMap → PublicMap
  add_git_signing served deriver m =
      if served
      then serve git_signing (codes "styrene-git-signing") (Derive.git_signing_seed hkdf deriver) m
      else m

  unfoldable pub add_host_key : Bool → KeyDeriver → PublicMap → PublicMap
  add_host_key served deriver m =
      if served
      then serve host (codes "styrene-ssh-host") (Derive.derive hkdf deriver Derive.ssh_host) m
      else m

  unfoldable pub derive_public_map :
      StyreneAgent → Result SignerError Bytes → Result AgentError PublicMap
  derive_public_map self root_secret = do
    root ← map_err signer root_secret
    let deriver = Derive.new hkdf root
    users ← add_ssh_users deriver self.labels (record { identities = []; key_map = [] })
    let git = add_git_signing self.serve_git_signing deriver users
    agents ← add_agents deriver self.agent_names git
    ok (add_host_key self.serve_host_key deriver agents)

  unfoldable pub seed_of : KeyDeriver → KeySpec → Result AgentError Bytes
  seed_of deriver (ssh_user label) = expect (Derive.derive_ssh_user_key hkdf deriver label)
  seed_of deriver git_signing = ok (Derive.git_signing_seed hkdf deriver)
  seed_of deriver (agent name) = expect (Derive.derive_agent_key hkdf deriver name)
  seed_of deriver host = ok (Derive.derive hkdf deriver Derive.ssh_host)

  unfoldable pub derive_seed : Result SignerError Bytes → KeySpec → Result AgentError Bytes
  derive_seed root_secret spec = do
    root ← map_err signer root_secret
    seed_of (Derive.new hkdf root) spec

  unfoldable pub request_identities :
      StyreneAgent → Result SignerError Bytes → Result AgentError (List Identity)
  request_identities self root_secret = do m ← derive_public_map self root_secret; ok m.identities

  -- `Signature::new` of the ssh-key crate, for Ed25519, is the argument `new_signature`.
  unfoldable pub sign :
      (Bytes → Option Bytes)
      → StyreneAgent
      → Result SignerError Bytes
      → Result SignerError Bytes
      → SignRequest
      → Result AgentError Bytes
  sign new_signature self first_root second_root request = do
    m ← derive_public_map self first_root
    pubkey ← requested_pubkey request.pubkey
    spec ←
        ok_or (get m.key_map pubkey)
          (signer (key_not_found (text "no matching key found for this public key")))
    seed ← derive_seed second_root spec
    ok_or (new_signature (sign_with_seed ed seed request.message)) signature_refused
