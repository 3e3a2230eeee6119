-- ===== src/Server/Href.antt =====
-- `computeBaseHref` (internal/server/prerender_handler.go), on texts as lists of code points.
pub mod Laws
use continuum_plugin_whmcs_l.Prelude.{
  ℕ, zero, suc, ◌+◌, ◌-◌, Bool, List, [], ◌∷◌, ◌++◌, Option, none, some, eqb, leb, if◌then◌else◌,
}

-- `strings.Count(s, "/")`
unfoldable pub count_slashes : List ℕ → ℕ
count_slashes [] = 0
count_slashes (c ∷ s) = let rest = count_slashes s in if eqb c b'/' then suc rest else rest

-- `s[:strings.LastIndex(s, "/")+1]`, if there is a slash.
unfoldable pub directory : List ℕ → Option (List ℕ)
directory [] = none
directory (c ∷ s) = elim (directory s) [
  | some d ↦ some (c ∷ d)
  | none ↦ if eqb c b'/' then some (c ∷ []) else none
]

-- `strings.Repeat("../", n)`
unfoldable pub ups : ℕ → List ℕ
ups zero = []
ups (suc n) = b'.' ∷ b'.' ∷ b'/' ∷ ups n

abbrev pub here_href : List ℕ
here_href = b'.' ∷ b'/' ∷ []

abbrev pub href_of_depth : ℕ → List ℕ
href_of_depth zero = here_href
href_of_depth (suc n) = ups (suc n)

unfoldable pub compute_base_href : List ℕ → List ℕ
unfolding directory count_slashes ups
compute_base_href path = elim (directory path) [
  | none ↦ here_href
  | some dir ↦ href_of_depth (count_slashes dir - 1)
]
