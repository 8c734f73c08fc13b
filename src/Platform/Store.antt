-- ===== src/Platform/Store.antt =====
-- Calls of a platform's store, one after the other.
use styrene_identity.Prelude.{Result, ok, err}

abbrev pub Action {ℓ κ μ} : Type ℓ → Type κ → Type μ → Type (ℓ ⊔ κ ⊔ μ)
Action S E A = S → Result E A × S

infixl 5 ◌>>=◌ ◌>>◌
abbrev pub ◌>>=◌ {ℓ κ μ ν} :
    {S : Type ℓ} {E : Type κ} {A : Type μ} {B : Type ν}
    → Action S E A
    → (A → Action S E B)
    → Action S E B
◌>>=◌ m f s = let r = m s in elim r.0 [ ok a ↦ f a r.1 | err e ↦ (err e, r.1) ]

abbrev pub ◌>>◌ {ℓ κ μ} :
    {S : Type ℓ} {E : Type κ} {B : Type μ} → Action S E (Unit {0}) → Action S E B → Action S E B
m >> k = m >>= λ _. k

-- A computation that leaves the store alone.
abbrev pub lift {ℓ κ μ} : {S : Type ℓ} {E : Type κ} {A : Type μ} → Result E A → Action S E A
lift r s = (r, s)

abbrev pub map_err {ℓ κ μ ν} :
    {S : Type ℓ} {E : Type κ} {F : Type μ} {A : Type ν} → (E → F) → Action S E A → Action S F A
map_err f m s = let r = m s in elim r.0 [ ok a ↦ (ok a, r.1) | err e ↦ (err (f e), r.1) ]

-- The result of a call as a value, for a `match` on it.
abbrev pub attempt {ℓ κ μ ν} :
    {S : Type ℓ} {E : Type κ} {F : Type μ} {A : Type ν} → Action S E A → Action S F (Result E A)
attempt m s = let r = m s in (ok r.0, r.1)
