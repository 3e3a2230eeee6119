-- ===== src/Server/Page/Expand.antt =====
-- `Regexp.Expand`, which `ReplaceAll` applies to its replacement (internal/server/prerender_handler.go),
-- for a pattern with one group that has no name.
use continuum_plugin_whmcs_l.Prelude.{
  ℕ, zero, suc, ◌+◌, ◌-◌, ◌*◌, Bool, false, ◌&&◌, ◌||◌, List, [], ◌∷◌, ◌++◌, Option, none, some,
  ltb, leb, eqb, if◌then◌else◌, take, drop,
}
use continuum_plugin_whmcs_l.Decimal.{is_digit}

-- `'0' <= name[i] <= '9'` at each byte, and a bound on the number.
unfoldable pub group_from : ℕ → List ℕ → Option ℕ
group_from n [] = some n
group_from n (c ∷ s) =
    let rest = group_from (n * 10 + (c - b'0')) s in
    if is_digit c && ltb n 100_000_000 then rest else none

-- The number of a group; none where the name is no number, or has a leading zero.
abbrev pub group_number : List ℕ → Option ℕ
group_number (c ∷ d ∷ s) = if eqb c b'0' then none else group_from 0 (c ∷ d ∷ s)
group_number s = group_from 0 s

-- `other` says which code points outside ASCII are letters or digits.
module _ (other : ℕ → Bool) where
  abbrev pub is_name_char : ℕ → Bool
  is_name_char c =
      if ltb c 128
      then is_digit c || leb b'A' c && leb c b'Z' || leb b'a' c && leb c b'z' || eqb c b'_'
      else other c

  unfoldable pub name_length : List ℕ → ℕ
  name_length [] = 0
  name_length (c ∷ s) = let rest = name_length s in if is_name_char c then suc rest else 0

-- What the groups have matched: the whole, and the group's text, empty if it took no part.
pub record Match : Type 0 where
  pub whole : List ℕ
  pub inner : List ℕ

abbrev pub group_text : Match → Option ℕ → List ℕ
group_text m (some zero) = m.whole
group_text m (some (suc zero)) = m.inner
group_text m _ = []

abbrev pub begins_with_brace : ℕ → List ℕ → Bool
begins_with_brace brace [] = false
begins_with_brace brace (c ∷ s) = eqb c brace

module _ (other : ℕ → Bool) (m : Match) where
  -- `extract` at a name of `n` code points, without braces.
  abbrev pub plain_name : List ℕ → ℕ → Option (ℕ × List ℕ)
  plain_name s zero = none
  plain_name s (suc n) = some (suc n, group_text m (group_number (take (suc n) s)))

  abbrev pub braced_name : List ℕ → ℕ → Option (ℕ × List ℕ)
  braced_name s zero = none
  braced_name s (suc n) =
      if begins_with_brace b'}' (drop (suc n) s)
      then some (suc (suc (suc n)), group_text m (group_number (take (suc n) s)))
      else none

  -- What stands for the text after a `$`, and how much of that text it takes the place of.
  unfoldable pub after_dollar : List ℕ → Option (ℕ × List ℕ)
  unfolding name_length drop take group_from
  after_dollar [] = none
  after_dollar (c ∷ s) =
      if eqb c b'$'
      then some (1, b'$' ∷ [])
      else if eqb c b'{'
      then braced_name s (name_length other s)
      else plain_name (c ∷ s) (name_length other (c ∷ s))

  abbrev pub directive : ℕ → List ℕ → Option (ℕ × List ℕ)
  directive c s = if eqb c b'$' then after_dollar s else none

  -- `skip` code points of the last reference are still to be passed over.
  unfoldable pub expand : ℕ → List ℕ → List ℕ
  unfolding after_dollar
  expand skip [] = []
  expand (suc skip) (c ∷ s) = expand skip s
  expand zero (c ∷ s) = elim (directive c s) [
    | none ↦ c ∷ expand zero s
    | some (n, text) ↦ text ++ expand n s
  ]
