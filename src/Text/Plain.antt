-- ===== src/Text/Plain.antt =====
-- Trimming texts with no space in them.
use Prim.Native.Char.{code}
use Prim.Native.String.{[], ◌∷◌}
use continuum_plugin_whmcs_l.Prelude.{◌≡◌, refl, String, false, arith}
use continuum_plugin_whmcs_l.Text.{is_space, trim_right_by, trim_space}

abbrev pub NoSpace : String → Type 0
NoSpace [] = Unit
NoSpace (c ∷ s) = (is_space (code c) ≡ false) × NoSpace s

trim_right_by_of_NoSpace : (s : String) → NoSpace s → trim_right_by is_space s ≡ s
unfolding trim_right_by
trim_right_by_of_NoSpace [] h = refl
trim_right_by_of_NoSpace (c ∷ s) (p, h) = rw (trim_right_by_of_NoSpace s h) (ground arith)

pub trim_space_of_NoSpace : (s : String) → NoSpace s → trim_space s ≡ s
unfolding trim_space
trim_space_of_NoSpace [] h = refl
trim_space_of_NoSpace (c ∷ s) (p, h) = rw p (trim_right_by_of_NoSpace (c ∷ s) (p, h))
