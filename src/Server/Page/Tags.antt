-- ===== src/Server/Page/Tags.antt =====
-- What `htmlTagRE.ReplaceAll` and `headTagRE.ReplaceAllFunc` do (internal/server/prerender_handler.go):
-- the matches of `(?i)<name(\s[^>]*)?>`, leftmost first, each replaced.
use continuum_plugin_whmcs_l.Prelude.{
  ℕ, zero, suc, ◌+◌, Bool, ◌||◌, List, [], ◌∷◌, ◌++◌, Option, none, some, eqb, if◌then◌else◌,
  length, take,
}
use continuum_plugin_whmcs_l.Text.{fold}

-- How many code points a literal of a case-insensitive pattern matches, with what follows it.
unfoldable pub after_name : List ℕ → List ℕ → Option (List ℕ)
after_name [] s = some s
after_name (c ∷ p) [] = none
after_name (c ∷ p) (d ∷ s) =
    let rest = after_name p s in if eqb (fold (λ x. x) c) (fold (λ x. x) d) then rest else none

-- `\s` of Go's patterns.
abbrev pub is_blank : ℕ → Bool
is_blank c = eqb c 9 || eqb c 10 || eqb c 12 || eqb c 13 || eqb c 32

-- `[^>]*>`: the length of the match.
unfoldable pub to_close : List ℕ → Option ℕ
to_close [] = none
to_close (c ∷ s) = elim (to_close s) [
  | none ↦ if eqb c b'>' then some 1 else none
  | some n ↦ if eqb c b'>' then some 1 else some (suc n)
]

-- `(\s[^>]*)?>`
abbrev pub tag_end : List ℕ → Option ℕ
tag_end [] = none
tag_end (c ∷ s) =
    if eqb c b'>'
    then some 1
    else if is_blank c
    then elim (to_close s) [ none ↦ none | some n ↦ some (suc n) ]
    else none

-- The length of the match of `(?i)<name(\s[^>]*)?>` that begins a text, 0 if there is none.
unfoldable pub tag_length : List ℕ → List ℕ → ℕ
unfolding after_name to_close
tag_length name s = elim (after_name name s) [
  | none ↦ 0
  | some rest ↦ elim (tag_end rest) [ none ↦ 0 | some n ↦ length name + n ]
]

-- `ReplaceAllFunc`, where `skip` code points of the last match are still to be passed over.
unfoldable pub replace_tags : List ℕ → (List ℕ → List ℕ) → ℕ → List ℕ → List ℕ
unfolding tag_length take
replace_tags name put skip [] = []
replace_tags name put (suc skip) (c ∷ s) = replace_tags name put skip s
replace_tags name put zero (c ∷ s) = elim (tag_length name (c ∷ s)) [
  | zero ↦ c ∷ replace_tags name put zero s
  | suc n ↦ put (take (suc n) (c ∷ s)) ++ replace_tags name put n s
]
