-- ===== src/Text/Laws.antt =====
-- Trimming what has been trimmed.
use Prim.Native.Char.{code}
use Prim.Native.String.{[], ◌∷◌}
use continuum_plugin_whmcs_l.Prelude.{
  ℕ, ◌≡◌, refl, String, Bool, false, ◌&&◌, arith, Bool-cases, inl, inr,
}
use continuum_plugin_whmcs_l.Text.{
  is_space, is_nil, trim_left, trim_right_by, trim_space, is_slash, trim_right_slash,
}

pub trim_right_by_idem :
    (p : ℕ → Bool) (s : String) → trim_right_by p (trim_right_by p s) ≡ trim_right_by p s
unfolding trim_right_by
trim_right_by_idem p [] = refl
trim_right_by_idem p (c ∷ s) = ground (arith, trim_right_by_idem p s)

-- The first character is no space.
abbrev pub StartsPlain : String → Type 0
StartsPlain [] = Unit
StartsPlain (c ∷ s) = is_space (code c) ≡ false

trim_left-StartsPlain : (s : String) → StartsPlain (trim_left s)
unfolding trim_left
trim_left-StartsPlain [] = tt
trim_left-StartsPlain (c ∷ s) = elim (Bool-cases (is_space (code c))) [
  | inl space ↦ rw space (trim_left-StartsPlain s)
  | inr plain ↦ rw plain plain
]

trim_right_by-StartsPlain :
    (p : ℕ → Bool) (s : String) → StartsPlain s → StartsPlain (trim_right_by p s)
unfolding trim_right_by
trim_right_by-StartsPlain p [] h = tt
trim_right_by-StartsPlain p (c ∷ s) h =
    elim (Bool-cases (is_nil (trim_right_by p s) && p (code c))) [
      | inl dropped ↦ rw dropped tt
      | inr kept ↦ rw kept h
    ]

trim_left_of_StartsPlain : (s : String) → StartsPlain s → trim_left s ≡ s
unfolding trim_left
trim_left_of_StartsPlain [] h = refl
trim_left_of_StartsPlain (c ∷ s) h = rw h refl

pub trim_space_idem : (s : String) → trim_space (trim_space s) ≡ trim_space s
unfolding trim_space
trim_space_idem s =
    rw
      (trim_left_of_StartsPlain (trim_space s)
        (trim_right_by-StartsPlain is_space (trim_left s) (trim_left-StartsPlain s)))
      (trim_right_by_idem is_space (trim_left s))

pub trim_right_slash_idem :
    (s : String) → trim_right_slash (trim_right_slash s) ≡ trim_right_slash s
unfolding trim_right_slash
trim_right_slash_idem s = trim_right_by_idem is_slash s
