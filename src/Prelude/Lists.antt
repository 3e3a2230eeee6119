-- ===== src/Prelude/Lists.antt =====
-- Lists, options and Go's slices.
use Prim.Native.Nat.{ℕ, zero, suc}
use mathlib.Core.Path.{◌≡◌, refl}
use mathlib.Core.Logic.{◌⊎◌, inl, inr}
use mathlib.Core.Bool.{Bool, true, false, ◌||◌}
use mathlib.Core.Option.{Option, none, some}
use mathlib.Core.List.{List, [], ◌∷◌, ◌++◌}

module _ {ℓ} {A : Type ℓ} where
  pub Option-cases : (o : Option A) → (o ≡ none) ⊎ ((a : A) × (o ≡ some a))
  Option-cases none = inl refl
  Option-cases (some a) = inr (a, refl)

  abbrev pub length : List A → ℕ
  length [] = 0
  length (x ∷ xs) = suc (length xs)

  abbrev pub is_empty : List A → Bool
  is_empty [] = true
  is_empty (x ∷ xs) = false

  abbrev pub any : (A → Bool) → List A → Bool
  any p [] = false
  any p (x ∷ xs) = p x || any p xs

  unfoldable pub take : ℕ → List A → List A
  take zero xs = []
  take (suc n) [] = []
  take (suc n) (x ∷ xs) = x ∷ take n xs

  unfoldable pub drop : ℕ → List A → List A
  drop zero xs = xs
  drop (suc n) [] = []
  drop (suc n) (x ∷ xs) = drop n xs

  -- An element with its place in the list.
  pub data Member (a : A) : List A → Type ℓ where
    here : {xs : List A} → Member a (a ∷ xs)
    there : {x : A} {xs : List A} → Member a xs → Member a (x ∷ xs)

  -- A Go slice: `nil`, which `reflect.DeepEqual` tells from an empty one, or its elements.
  abbrev pub elems : Option (List A) → List A
  elems none = []
  elems (some xs) = xs

abbrev pub Slice {ℓ} : Type ℓ → Type ℓ
Slice A = Option (List A)

module _ {ℓ κ} {A : Type ℓ} (P : A → Type κ) where
  abbrev pub All : List A → Type κ
  All [] = Unit
  All (x ∷ xs) = P x × All xs

  pub All-++ : (xs ys : List A) → All xs → All ys → All (xs ++ ys)
  All-++ [] ys hx hy = hy
  All-++ (x ∷ xs) ys hx hy = (hx.0, All-++ xs ys hx.1 hy)

  pub All-Member : {x : A} (xs : List A) → All xs → Member x xs → P x
  All-Member [] h m = elim m [ ]
  All-Member (x ∷ xs) h here = h.0
  All-Member (x ∷ xs) h (there m) = All-Member xs h.1 m

module _ {ℓ κ} {A : Type ℓ} (P Q : A → Type κ) (weaker : (x : A) → P x → Q x) where
  pub weaken-All : (xs : List A) → All P xs → All Q xs
  weaken-All [] h = h
  weaken-All (x ∷ xs) h = (weaker x h.0, weaken-All xs h.1)
