-- ===== src/SshAgent/Labels.antt =====
-- When the SSH agent of src/ssh_agent.rs panics.
use styrene_identity.Prelude.{
  if◌then◌else◌, Bool, ◌≡◌, refl, ◌⊎◌, inl, inr, true, false, ◌||◌, List, [], ◌∷◌, ok, err, any,
  is_empty, Bytes,
}
use styrene_identity.External.Ed25519.{Ed25519}
use styrene_identity.Derive
use styrene_identity.Derive.{Hkdf, KeyDeriver}
use styrene_identity.SshAgent.{
  StyreneAgent, new, with_agent_keys, with_git_signing, with_host_key, panicked, PublicMap, expect,
  add_ssh_users, add_agents, add_git_signing, add_host_key, derive_public_map,
}

module _ (hkdf : Hkdf) (ed : Ed25519) (d : KeyDeriver) where
  derive_ssh_user_key-cases :
      (label : Bytes)
      → ((is_empty label ≡ true)
          × (expect (Derive.derive_ssh_user_key hkdf d label) ≡ err panicked))
        ⊎ ((is_empty label ≡ false)
            × (seed : Bytes) × (expect (Derive.derive_ssh_user_key hkdf d label) ≡ ok seed))
  unfolding Derive.derive_ssh_user_key Derive.derive_parameterized Derive.validate_label
  derive_ssh_user_key-cases [] = inl (refl, refl)
  derive_ssh_user_key-cases (c ∷ label) = inr (refl, _, refl)

  derive_agent_key-cases :
      (name : Bytes)
      → ((is_empty name ≡ true) × (expect (Derive.derive_agent_key hkdf d name) ≡ err panicked))
        ⊎ ((is_empty name ≡ false)
            × (seed : Bytes) × (expect (Derive.derive_agent_key hkdf d name) ≡ ok seed))
  unfolding Derive.derive_agent_key Derive.derive_parameterized Derive.validate_label
  derive_agent_key-cases [] = inl (refl, refl)
  derive_agent_key-cases (c ∷ name) = inr (refl, _, refl)

  add_ssh_users-cases :
      (labels : List Bytes) (m : PublicMap)
      → ((any is_empty labels ≡ true) × (add_ssh_users hkdf ed d labels m ≡ err panicked))
        ⊎ ((any is_empty labels ≡ false)
            × (after : PublicMap) × (add_ssh_users hkdf ed d labels m ≡ ok after))
  unfolding add_ssh_users
  add_ssh_users-cases [] m = inr (refl, m, refl)
  add_ssh_users-cases (label ∷ rest) m = elim (derive_ssh_user_key-cases label) [
    | inl (broken, e) ↦ inl (rw broken refl, rw e refl)
    | inr (fine, seed, e) ↦ rw (fine, e) (add_ssh_users-cases rest _)
  ]

  add_agents-cases :
      (names : List Bytes) (m : PublicMap)
      → ((any is_empty names ≡ true) × (add_agents hkdf ed d names m ≡ err panicked))
        ⊎ ((any is_empty names ≡ false)
            × (after : PublicMap) × (add_agents hkdf ed d names m ≡ ok after))
  unfolding add_agents
  add_agents-cases [] m = inr (refl, m, refl)
  add_agents-cases (name ∷ rest) m = elim (derive_agent_key-cases name) [
    | inl (broken, e) ↦ inl (rw broken refl, rw e refl)
    | inr (fine, seed, e) ↦ rw (fine, e) (add_agents-cases rest _)
  ]

derive_public_map-cases :
    (hkdf : Hkdf) (ed : Ed25519) (self : StyreneAgent) (root : Bytes)
    → ((any is_empty self.labels || any is_empty self.agent_names ≡ true)
        × (derive_public_map hkdf ed self (ok root) ≡ err panicked))
      ⊎ ((any is_empty self.labels || any is_empty self.agent_names ≡ false)
          × (m : PublicMap) × (derive_public_map hkdf ed self (ok root) ≡ ok m))
unfolding derive_public_map
derive_public_map-cases hkdf ed self root =
    let d = Derive.new hkdf root in
    elim (add_ssh_users-cases hkdf ed d self.labels (record { identities = []; key_map = [] })) [
      | inl (broken, e) ↦ inl (rw broken refl, rw e refl)
      | inr (fine, users, e) ↦
          elim (add_agents-cases hkdf ed d self.agent_names
            (add_git_signing hkdf ed self.serve_git_signing d users)) [
              | inl (broken, e') ↦ inl (rw (fine, broken) refl, rw (e, e') refl)
              | inr (fine', agents, e') ↦ inr (
                rw (fine, fine') refl,
                add_host_key hkdf ed self.serve_host_key d agents,
                rw (e, e') refl,
              )
            ]
    ]

-- An agent as its constructors make it, with the keys that are switched on.
abbrev pub agent_of : List Bytes → List Bytes → Bool → Bool → StyreneAgent
agent_of labels agent_names git host =
    let named = with_agent_keys (new labels) agent_names in
    let signing = if git then with_git_signing named else named in
    if host then with_host_key signing else signing

-- The constructors make an agent of any labels and any agents' names. With a root at hand, listing
-- its keys fails in one way only: it panics exactly when one of these labels or names is empty.
pub derive_public_map-panics :
    (hkdf : Hkdf) (ed : Ed25519) (labels agent_names : List Bytes) (git host : Bool) (root : Bytes)
    → ((any is_empty labels || any is_empty agent_names ≡ true)
        × (derive_public_map hkdf ed (agent_of labels agent_names git host) (ok root)
            ≡ err panicked))
      ⊎ ((any is_empty labels || any is_empty agent_names ≡ false)
          × (m : PublicMap) × (derive_public_map hkdf ed
                (agent_of labels agent_names git host)
                (ok root)
              ≡ ok m))
unfolding new with_agent_keys with_git_signing with_host_key
derive_public_map-panics hkdf ed labels names true true root =
    derive_public_map-cases hkdf ed (agent_of labels names true true) root
derive_public_map-panics hkdf ed labels names true false root =
    derive_public_map-cases hkdf ed (agent_of labels names true false) root
derive_public_map-panics hkdf ed labels names false true root =
    derive_public_map-cases hkdf ed (agent_of labels names false true) root
derive_public_map-panics hkdf ed labels names false false root =
    derive_public_map-cases hkdf ed (agent_of labels names false false) root
