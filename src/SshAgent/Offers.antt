-- ===== src/SshAgent/Offers.antt =====
-- The keys that the SSH agent of src/ssh_agent.rs offers.
use styrene_identity.Prelude.{
  ◌≡◌, refl, ap, inl, inr, Bool, Bool-cases, true, false, List, [], ◌∷◌, some, ok, >>=-eq-ok,
  ok-injective, All, Member, All-Member, All-append, Bytes, bytes_eq, bytes_eq_iff, arith,
}
use mathlib.Core.Path.{subst}
use styrene_identity.External.Ed25519.{Ed25519}
use styrene_identity.Derive
use styrene_identity.Derive.{Hkdf, KeyDeriver}
use styrene_identity.Pubkey.{ed25519_verifying_key}
use styrene_identity.SshAgent.{
  StyreneAgent, KeyData, Identity, KeySpec, ssh_user, git_signing, agent, host, get, PublicMap,
  expect, serve, add_ssh_users, add_agents, add_git_signing, add_host_key, derive_public_map,
  seed_of, requested_pubkey,
}

-- What the agent was told to serve.
abbrev pub IsServed : StyreneAgent → KeySpec → Type 0
IsServed self (ssh_user label) = Member label self.labels
IsServed self git_signing = self.serve_git_signing ≡ true
IsServed self (agent name) = Member name self.agent_names
IsServed self host = self.serve_host_key ≡ true

-- The key is offered, and the map knows it.
abbrev pub Offered : List (Bytes × KeySpec) → Identity → Type 0
Offered keys i =
    (key : Bytes) × (i.pubkey ≡ KeyData.ed25519 key) × (spec : KeySpec) × (get keys key ≡ some spec)

Offered-cons :
    (k : Bytes) (s : KeySpec) (keys : List (Bytes × KeySpec)) (ids : List Identity)
    → All (Offered keys) ids
    → All (Offered ((k, s) ∷ keys)) ids
Offered-cons k s keys [] h = tt
Offered-cons k s keys (i ∷ ids) ((key, shown, spec, found), more) = (
  elim (Bool-cases (bytes_eq k key)) [
    | inl same ↦ (key, shown, s, rw same refl)
    | inr differ ↦ (key, shown, spec, rw differ found)
  ],
  Offered-cons k s keys ids more,
)

pub requested_pubkey-eq-ok :
    (k : KeyData) (key : Bytes) → requested_pubkey k ≡ ok key → k ≡ KeyData.ed25519 key
unfolding requested_pubkey
requested_pubkey-eq-ok (KeyData.ed25519 pubkey) key h = ap KeyData.ed25519 (ok-injective h)
requested_pubkey-eq-ok (KeyData.other_algorithm _) key h = cc

module _ (hkdf : Hkdf) (ed : Ed25519) (self : StyreneAgent) (root : Bytes) where
  abbrev pub deriver : KeyDeriver
  deriver = Derive.new hkdf root

  -- The key of a seed that the root derives for something served.
  pub record IsKeyOf (key : Bytes) (spec : KeySpec) : Type 0 where
    pub seed : Bytes
    pub derived : seed_of hkdf ed (Derive.new hkdf root) spec ≡ ok seed
    pub matched : key ≡ Ed25519.verifying_key ed seed
    pub served : IsServed self spec

  pub record IsValidMap (m : PublicMap) : Type 0 where
    pub keys : All (λ e. IsKeyOf e.0 e.1) m.key_map
    pub offered : All (Offered m.key_map) m.identities

  serve-IsValidMap :
      (spec : KeySpec) (comment seed : Bytes) (m : PublicMap)
      → seed_of hkdf ed deriver spec ≡ ok seed
      → IsServed self spec
      → IsValidMap m
      → IsValidMap (serve hkdf ed spec comment seed m)
  unfolding serve ed25519_verifying_key
  serve-IsValidMap spec comment seed m derived served v =
      let key = Ed25519.verifying_key ed seed in
      let own = (bytes_eq_iff key key).1 refl in
      record {
        keys = (record { seed = seed; derived = derived; matched = refl; served = served }, v.keys);
        offered =
            All-append (Offered ((key, spec) ∷ m.key_map)) m.identities _
              (Offered-cons key spec m.key_map m.identities v.offered)
              ((key, refl, spec, rw own refl), tt);
      }

  add_ssh_users-IsValidMap :
      (labels : List Bytes) (m : PublicMap) {after : PublicMap}
      → All (λ l. Member l self.labels) labels
      → IsValidMap m
      → add_ssh_users hkdf ed deriver labels m ≡ ok after
      → IsValidMap after
  unfolding add_ssh_users seed_of
  add_ssh_users-IsValidMap [] m h v e = subst IsValidMap (ok-injective e) v
  add_ssh_users-IsValidMap (label ∷ rest) m h v e =
      let (seed, found, e') =
        >>=-eq-ok (expect (Derive.derive_ssh_user_key hkdf deriver label)) _ e in
      add_ssh_users-IsValidMap rest _ h.1 (serve-IsValidMap (ssh_user label) _ seed m found h.0 v)
        e'

  add_agents-IsValidMap :
      (names : List Bytes) (m : PublicMap) {after : PublicMap}
      → All (λ n. Member n self.agent_names) names
      → IsValidMap m
      → add_agents hkdf ed deriver names m ≡ ok after
      → IsValidMap after
  unfolding add_agents seed_of
  add_agents-IsValidMap [] m h v e = subst IsValidMap (ok-injective e) v
  add_agents-IsValidMap (name ∷ rest) m h v e =
      let (seed, found, e') = >>=-eq-ok (expect (Derive.derive_agent_key hkdf deriver name)) _ e in
      add_agents-IsValidMap rest _ h.1 (serve-IsValidMap (agent name) _ seed m found h.0 v) e'

  add_git_signing-IsValidMap :
      (served : Bool) (m : PublicMap)
      → (served ≡ true → self.serve_git_signing ≡ true)
      → IsValidMap m
      → IsValidMap (add_git_signing hkdf ed served deriver m)
  unfolding add_git_signing seed_of
  add_git_signing-IsValidMap true m h v = serve-IsValidMap git_signing _ _ m refl (h refl) v
  add_git_signing-IsValidMap false m h v = v

  add_host_key-IsValidMap :
      (served : Bool) (m : PublicMap)
      → (served ≡ true → self.serve_host_key ≡ true)
      → IsValidMap m
      → IsValidMap (add_host_key hkdf ed served deriver m)
  unfolding add_host_key seed_of
  add_host_key-IsValidMap true m h v = serve-IsValidMap host _ _ m refl (h refl) v
  add_host_key-IsValidMap false m h v = v

  pub derive_public_map-IsValidMap :
      (m : PublicMap) → derive_public_map hkdf ed self (ok root) ≡ ok m → IsValidMap m
  unfolding derive_public_map
  derive_public_map-IsValidMap m e =
      let (users, made, e') =
        >>=-eq-ok
          (add_ssh_users hkdf ed deriver self.labels (record { identities = []; key_map = [] })) _
          e in
      let (agents, made', e2) =
        >>=-eq-ok
          (add_agents hkdf ed deriver self.agent_names
            (add_git_signing hkdf ed self.serve_git_signing deriver users))
          _ e' in
      let first =
        add_ssh_users-IsValidMap self.labels _ (All-Member _ self.labels (λ l m. m))
          (record { keys = tt; offered = tt }) made in
      let second = add_git_signing-IsValidMap self.serve_git_signing users (λ h. h) first in
      let third =
        add_agents-IsValidMap self.agent_names _ (All-Member _ self.agent_names (λ n m. m)) second
          made' in
      subst IsValidMap (ok-injective e2)
        (add_host_key-IsValidMap self.serve_host_key agents (λ h. h) third)

  pub get-IsKeyOf :
      (keys : List (Bytes × KeySpec)) (key : Bytes) (spec : KeySpec)
      → All (λ e. IsKeyOf e.0 e.1) keys
      → get keys key ≡ some spec
      → IsKeyOf key spec
  get-IsKeyOf [] key spec h e = absurd (ground arith)
  get-IsKeyOf ((k, s) ∷ keys) key spec (first, more) e = elim (Bool-cases (bytes_eq k key)) [
    | inr differ ↦ get-IsKeyOf keys key spec more (rw differ at e)
    | inl same ↦
        let e' = rw same at e in
        let specs : s ≡ spec = ground arith in
        subst (λ t. IsKeyOf key t) specs
          (subst (λ t. IsKeyOf t s) ((bytes_eq_iff k key).0 same) first)
  ]
