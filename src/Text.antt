-- ===== src/Text.antt =====
-- The functions of Go's `strings` that the plugin uses, over native texts, by code point.
pub mod Laws
pub mod Plain
use Prim.Native.Char.{Char, code}
use Prim.Native.String.{[], ◌∷◌}
use continuum_plugin_whmcs_l.Prelude.{
  ℕ, ◌+◌, String, ◌<>◌, Bool, true, false, ◌&&◌, ◌||◌, List, [], ◌∷◌, Option, none, some, ◌==◌, ltb,
  leb, eqb, if◌then◌else◌,
}

-- `unicode.IsSpace`
abbrev pub is_space : ℕ → Bool
is_space c =
    leb 9 c && leb c 13
    || eqb c 32
    || eqb c 0x85
    || eqb c 0xa0
    || eqb c 0x1680
    || leb 0x2000 c && leb c 0x200a
    || eqb c 0x2028
    || eqb c 0x2029
    || eqb c 0x202f
    || eqb c 0x205f
    || eqb c 0x3000

abbrev pub is_nil : String → Bool
is_nil [] = true
is_nil (c ∷ s) = false

unfoldable pub trim_left : String → String
trim_left [] = []
trim_left (c ∷ s) = if is_space (code c) then trim_left s else c ∷ s

-- Drops the longest end all of whose characters satisfy the test.
unfoldable pub trim_right_by : (ℕ → Bool) → String → String
trim_right_by p [] = []
trim_right_by p (c ∷ s) =
    let rest = trim_right_by p s in if is_nil rest && p (code c) then [] else c ∷ rest

-- `strings.TrimSpace`
unfoldable pub trim_space : String → String
unfolding trim_left trim_right_by
trim_space s = trim_right_by is_space (trim_left s)

abbrev pub is_slash : ℕ → Bool
is_slash c = eqb c b'/'

-- `strings.TrimRight(s, "/")`
unfoldable pub trim_right_slash : String → String
unfolding trim_right_by
trim_right_slash s = trim_right_by is_slash s

-- The smallest member of a code point's class under simple case folding, for the ASCII letters and
-- the two other code points that fold to one; `other` folds the rest.
abbrev pub fold : (ℕ → ℕ) → ℕ → ℕ
fold other c =
    if ltb c 128
    then (if leb b'A' c && leb c b'Z' then c + 32 else c)
    else if eqb c 0x17f
    then b's'
    else if eqb c 0x212a
    then b'k'
    else other c

-- `strings.EqualFold`
unfoldable pub equal_fold_by : (ℕ → ℕ) → String → String → Bool
equal_fold_by other [] [] = true
equal_fold_by other [] (d ∷ t) = false
equal_fold_by other (c ∷ s) [] = false
equal_fold_by other (c ∷ s) (d ∷ t) =
    eqb (fold other (code c)) (fold other (code d)) && equal_fold_by other s t

-- `strings.EqualFold` where one of the texts is ASCII: no other code point folds to an ASCII letter.
unfoldable pub equal_fold : String → String → Bool
unfolding equal_fold_by
equal_fold = equal_fold_by (λ c. c)

cut_prefix : String → String → Option String
cut_prefix [] s = some s
cut_prefix (c ∷ p) [] = none
cut_prefix (c ∷ p) (d ∷ s) =
    let rest = cut_prefix p s in if eqb (code c) (code d) then rest else none

-- `strings.TrimPrefix(s, p)`
unfoldable pub trim_prefix : String → String → String
unfolding cut_prefix
trim_prefix p s = elim (cut_prefix p s) [ none ↦ s | some rest ↦ rest ]

-- `strings.HasSuffix(s, t)`
unfoldable pub has_suffix : String → String → Bool
has_suffix t [] = t == ""
has_suffix t (c ∷ s) = (c ∷ s) == t || has_suffix t s

-- The code points of a text.
unfoldable pub codes : String → List ℕ
codes [] = []
codes (c ∷ s) = code c ∷ codes s

-- The loop of `strings.Split(s, ",")`, with the part read so far.
split_from : String → String → List String
split_from cur [] = cur ∷ []
split_from cur (c ∷ s) =
    let closed : List String = cur ∷ split_from "" s in
    let longer : List String = split_from (cur <> (c ∷ [])) s in
    if eqb (code c) b',' then closed else longer

unfoldable pub split_comma : String → List String
unfolding split_from
split_comma s = split_from "" s
