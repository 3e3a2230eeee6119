-- ===== src/Prelude/Results.antt =====
-- Go's `(T, error)` results.
use mathlib.Core.Path.{◌≡◌, refl}
use mathlib.Core.Logic.{◌⊎◌, inl, inr}

pub data Result {ℓ κ} (E : Type κ) (A : Type ℓ) : Type (ℓ ⊔ κ) where
  ok : A → Result E A
  err : E → Result E A

-- `return …, f(err)` on an error.
abbrev pub map_err {ℓ κ μ} :
    {E : Type μ} {F : Type κ} {A : Type ℓ} → (E → F) → Result E A → Result F A
map_err wrap (ok value) = ok value
map_err wrap (err cause) = err (wrap cause)

module _ {ℓ κ} {E : Type κ} {A : Type ℓ} where
  pub Result-cases : (r : Result E A) → ((a : A) × (r ≡ ok a)) ⊎ ((e : E) × (r ≡ err e))
  Result-cases (ok value) = inl (value, refl)
  Result-cases (err cause) = inr (cause, refl)

module _ {ℓ κ μ} {E : Type μ} {A : Type ℓ} {B : Type κ} where
  -- `if err != nil { return …, err }`
  infixl 5 ◌>>=◌ ◌>>◌
  abbrev pub ◌>>=◌ : Result E A → (A → Result E B) → Result E B
  (ok value) >>= next = next value
  (err cause) >>= next = err cause

  abbrev pub ◌>>◌ : Result E A → Result E B → Result E B
  first >> second = first >>= λ done. second

  -- Inversion of a successful chain.
  pub >>=-eq-ok :
      (m : Result E A) (f : A → Result E B) {b : B}
      → (m >>= f) ≡ ok b
      → (a : A) × (m ≡ ok a) × (f a ≡ ok b)
  >>=-eq-ok (ok value) f h = (value, refl, h)
  >>=-eq-ok (err cause) f h = cc
