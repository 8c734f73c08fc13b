-- ===== src/Tests/Agent.antt =====
-- The SSH agent and attestations at concrete data.
use styrene_identity.Prelude.{
  Result, false, List, ◌≢◌, zero, suc, ◌≡◌, ◌⊎◌, inl, refl, true, false, ◌||◌, any, is_empty, [],
  ◌∷◌, ◌++◌, ◌%◌, ℕ, some, ok, err, All, Bytes, bytes_eq, codes, arith,
}
use styrene_identity.External.Ed25519.{Ed25519}
use styrene_identity.External.Hex.{IsByte}
use styrene_identity.Derive
use styrene_identity.Pubkey.{ed25519_verifying_key, sign_with_seed}
use styrene_identity.Identity.{identity_sign, from_pubkey, verify_hash, verify, identity_hash}
use styrene_identity.Identity.Attestation.{IsHash, verify-identity_sign}
use styrene_identity.SshAgent.{
  StyreneAgent, KeyData, Identity, SignRequest, KeySpec, panicked, PublicMap, requested_pubkey,
  serve, add_ssh_users, add_agents, add_git_signing, add_host_key, derive_public_map, seed_of,
  derive_seed, request_identities, sign,
}
use styrene_identity.FileSigner.{SignerError}
use styrene_identity.SshAgent.Offers.{IsKeyOf}
use styrene_identity.SshAgent.Session.{sign_session, verify-sign, sign-request_identities}
use styrene_identity.SshAgent.Labels.{agent_of, derive_public_map-panics}
use styrene_identity.Tests.Cryptography.{fit, length-fit, hkdf, ed25519, ed25519-IsEd25519}
use styrene_identity.Tests.HexText.{hex, hex-IsHex}

abbrev root : Bytes
root = fit 32 (1 ∷ 2 ∷ 3 ∷ [])

abbrev served : StyreneAgent
served = record { labels = []; agent_names = []; serve_git_signing = true; serve_host_key = false }

abbrev message : Bytes
message = codes "session"

abbrev key : Bytes
key = fit 32 (codes "styrene-rns-signing-v1" ++ (Derive.hkdf_salt ++ root))

abbrev request : SignRequest
request = record { pubkey = KeyData.ed25519 key; message = message }

abbrev signature : Bytes
signature = Ed25519.sign ed25519 key message

signed : sign_session hkdf ed25519 served root some request ≡ ok signature
unfolding sign derive_public_map add_ssh_users add_git_signing add_agents add_host_key serve
    requested_pubkey derive_seed seed_of sign_with_seed ed25519_verifying_key Derive.new
    Derive.git_signing_seed Derive.derive Derive.info bytes_eq
signed = refl

verify-sign_example :
    (first : Bytes) × (second : Bytes) × (k : Bytes) × (spec : KeySpec) × (seed : Bytes) × (◌≡◌
      {A = Result SignerError Bytes}
      (ok root)
      (ok first))
    × (◌≡◌ {A = Result SignerError Bytes} (ok root) (ok second))
    × (request.pubkey ≡ KeyData.ed25519 k)
    × IsKeyOf hkdf ed25519 served first k spec
    × (seed_of hkdf ed25519 (Derive.new hkdf second) spec ≡ ok seed)
    × (Ed25519.verify ed25519 (Ed25519.verifying_key ed25519 seed) request.message signature ≡ true)
    × ((first ≢ second) ⊎ (Ed25519.verify ed25519 k request.message signature ≡ true))
verify-sign_example =
    verify-sign hkdf ed25519 served root some ed25519-IsEd25519 (λ bytes sig e. cc) (ok root)
      (ok root) request signature signed

abbrev offered : Identity
offered = record { pubkey = KeyData.ed25519 key; comment = codes "styrene-git-signing" }

listed : request_identities hkdf ed25519 served (ok root) ≡ ok (offered ∷ [])
unfolding request_identities derive_public_map add_ssh_users add_git_signing add_agents add_host_key
    serve ed25519_verifying_key Derive.new Derive.git_signing_seed Derive.derive Derive.info
listed = refl

sign-request_identities_example :
    (k : Bytes) × (sig : Bytes) × (offered.pubkey ≡ KeyData.ed25519 k)
    × (sign_session hkdf ed25519 served root some
          (record { pubkey = offered.pubkey; message = message })
        ≡ ok sig)
    × (Ed25519.verify ed25519 k message sig ≡ true)
sign-request_identities_example =
    sign-request_identities hkdf ed25519 served root some ed25519-IsEd25519 (λ bytes size. refl)
      (offered ∷ []) offered message listed (inl refl)

-- An empty label, and one name.
abbrev labels : List Bytes
labels = [] ∷ []

abbrev names : List Bytes
names = codes "relay" ∷ []

derive_public_map-panics_example :
    ((any is_empty labels || any is_empty names ≡ true)
      × (derive_public_map hkdf ed25519 (agent_of labels names true false) (ok root)
          ≡ err panicked))
    ⊎ ((any is_empty labels || any is_empty names ≡ false)
        × (m : PublicMap) × (derive_public_map hkdf ed25519
              (agent_of labels names true false)
              (ok root)
            ≡ ok m))
derive_public_map-panics_example =
    derive_public_map-panics hkdf ed25519 labels names true false root

-- A hash whose digest is made of bytes.
abbrev reduce : Bytes → Bytes
reduce [] = []
reduce (x ∷ xs) = (x % 256) ∷ reduce xs

reduced : (xs : Bytes) → All IsByte (reduce xs)
reduced [] = tt
reduced (x ∷ xs) = (omega arith, reduced xs)

fit_small : (n : ℕ) (xs : Bytes) → All IsByte xs → All IsByte (fit n xs)
fit_small zero xs h = tt
fit_small (suc n) [] h = (ground arith, fit_small n [] tt)
fit_small (suc n) (x ∷ xs) (small, more) = (small, fit_small n xs more)

abbrev digest : Bytes → Bytes
digest bytes = fit 32 (reduce bytes)

digest-IsHash : IsHash digest
digest-IsHash = record {
  size = λ x. length-fit 32 (reduce x);
  small = λ x. fit_small 32 (reduce x) (reduced x);
}

verify-identity_sign_example :
    let a = identity_sign digest hex hkdf ed25519 root message in
    let p = from_pubkey digest hex a.pubkey in
    (verify_hash digest hex p a.hash ≡ true)
    × (verify digest hex ed25519 p message a.signature ≡ true)
    × (a.hash ≡ identity_hash digest hex hkdf ed25519 root)
verify-identity_sign_example =
    verify-identity_sign digest digest-IsHash hex hex-IsHex hkdf ed25519 ed25519-IsEd25519 root
      message
