-- ===== src/Prelude/Family.antt =====
-- Families indexed by the natural numbers, and their update at one index.
use Prim.Native.Nat.{ℕ}
use mathlib.Core.Path.{◌≡◌}
use mathlib.Core.Logic.{◌≢◌, ◌⊎◌, inl, inr, ite}
use native.Mathlib.Decide.{ℕ_discrete}
use native.Mathlib.Omega.{arith}

module _ {ℓ} {A : Type ℓ} where
  abbrev pub update : (ℕ → A) → ℕ → A → ℕ → A
  update f i a j = ite (ℕ_discrete i j) a (f j)

  -- To split on whether an index is the one updated.
  pub update-cases :
      (f : ℕ → A) (i : ℕ) (a : A) (j : ℕ)
      → ((i ≡ j) × (update f i a j ≡ a)) ⊎ ((i ≢ j) × (update f i a j ≡ f j))
  update-cases f i a j = elim (ℕ_discrete i j) [
    | yes same ↦ inl (same, ground arith)
    | no other ↦ inr (other, ground arith)
  ]
