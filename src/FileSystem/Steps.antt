-- ===== src/FileSystem/Steps.antt =====
-- Steps of a chain of actions, when the action before has a known result.
use styrene_identity.Prelude.{◌≡◌, ap, Result, ok, err}
use styrene_identity.FileSystem.{World, Action, ◌>>=◌, map_err}

module _ {E A : Type 0} {w w' : World} where
  pub bind-ok :
      {B : Type 0} (m : Action E A) (f : A → Action E B) {a : A}
      → m w ≡ (ok a, w')
      → (m >>= f) w ≡ f a w'
  bind-ok m f e =
      ap (λ (r : Result E A × World). elim r.0 [ ok a ↦ f a r.1 | err e ↦ (err e, r.1) ]) e

  pub map_err-ok :
      {F : Type 0} (g : E → F) (m : Action E A) {a : A}
      → m w ≡ (ok a, w')
      → map_err g m w ≡ (ok a, w')
  map_err-ok g m e =
      ap (λ (r : Result E A × World). elim r.0 [ ok a ↦ (ok a, r.1) | err e ↦ (err (g e), r.1) ]) e

  pub bind-err :
      {B : Type 0} (m : Action E A) (f : A → Action E B) {e : E}
      → m w ≡ (err e, w')
      → (m >>= f) w ≡ (err e, w')
  bind-err m f e =
      ap (λ (r : Result E A × World). elim r.0 [ ok a ↦ f a r.1 | err e ↦ (err e, r.1) ]) e

  pub map_err-err :
      {F : Type 0} (g : E → F) (m : Action E A) {e : E}
      → m w ≡ (err e, w')
      → map_err g m w ≡ (err (g e), w')
  map_err-err g m e =
      ap (λ (r : Result E A × World). elim r.0 [ ok a ↦ (ok a, r.1) | err e ↦ (err (g e), r.1) ]) e
