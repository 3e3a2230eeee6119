-- ===== src/Server/Page/Quotes.antt =====
-- Which quotes the prerendered tag has.
use continuum_plugin_whmcs_l.Prelude.{
  ℕ, zero, suc, ◌-◌, ◌≤◌, Bool, true, false, List, [], ◌∷◌, ◌++◌, Option, none, some, eqb, length,
  All, ◌≡◌, refl, ap, arith, Bool-cases, inl, inr, take, drop,
}
use continuum_plugin_whmcs_l.Server.Page.Expand.{
  name_length, Match, group_number, group_text, begins_with_brace, plain_name, braced_name,
  after_dollar,
}
use continuum_plugin_whmcs_l.Server.Page.{escape_quotes, html_match}

abbrev pub Quoteless : List ℕ → Type 0
Quoteless = All (λ c. eqb c b'"' ≡ false)

pub Quoteless-++ : (s t : List ℕ) → Quoteless s → Quoteless t → Quoteless (s ++ t)
Quoteless-++ [] t hs ht = ht
Quoteless-++ (c ∷ s) t hs ht = (hs.0, Quoteless-++ s t hs.1 ht)

Quoteless-take : (n : ℕ) (s : List ℕ) → Quoteless s → Quoteless (take n s)
unfolding take
Quoteless-take zero s h = tt
Quoteless-take (suc n) [] h = tt
Quoteless-take (suc n) (c ∷ s) h = (h.0, Quoteless-take n s h.1)

Quoteless-drop : (n : ℕ) (s : List ℕ) → Quoteless s → Quoteless (drop n s)
unfolding drop
Quoteless-drop zero s h = h
Quoteless-drop (suc n) [] h = tt
Quoteless-drop (suc n) (c ∷ s) h = Quoteless-drop n s h.1

-- What holds of the code points of a text but the quotes, and of those of "&quot;", holds of the escaped
-- text.
pub escape_quotes-All :
    (p : ℕ → Type 0) (s : List ℕ)
    → All p (b'&' ∷ b'q' ∷ b'u' ∷ b'o' ∷ b't' ∷ b';' ∷ [])
    → All (λ c. (eqb c b'"' ≡ false) → p c) s
    → All p (escape_quotes s)
unfolding escape_quotes
escape_quotes-All p [] (a, (q, (u, (o, (t, (e, _)))))) h = tt
escape_quotes-All p (c ∷ s) (a, (q, (u, (o, (t, (e, _)))))) h =
    let rest = escape_quotes-All p s (a, (q, (u, (o, (t, (e, tt)))))) h.1 in
    elim (Bool-cases (eqb c b'"')) [
      | inl quote ↦ rw (escape_quotes, quote) (a, (q, (u, (o, (t, (e, rest))))))
      | inr other ↦ rw (escape_quotes, other) (h.0 other, rest)
    ]

unless_quote : (s : List ℕ) → All (λ c. (eqb c b'"' ≡ false) → eqb c b'"' ≡ false) s
unless_quote [] = tt
unless_quote (c ∷ s) = (λ h. h, unless_quote s)

pub escape_quotes-Quoteless : (s : List ℕ) → Quoteless (escape_quotes s)
escape_quotes-Quoteless s =
    escape_quotes-All (λ c. eqb c b'"' ≡ false) s (refl, (refl, (refl, (refl, (refl, (refl, tt))))))
      (unless_quote s)

-- A match whose texts have no quote.
abbrev pub QuotelessMatch : Match → Type 0
QuotelessMatch m = Quoteless m.whole × Quoteless m.inner

group_text-Quoteless : (m : Match) (o : Option ℕ) → QuotelessMatch m → Quoteless (group_text m o)
group_text-Quoteless m none h = tt
group_text-Quoteless m (some zero) h = h.0
group_text-Quoteless m (some (suc zero)) h = h.1
group_text-Quoteless m (some (suc (suc n))) h = tt

pub html_match-Quoteless : (tag : List ℕ) → Quoteless tag → QuotelessMatch (html_match tag)
unfolding html_match
html_match-Quoteless tag h =
    (h, Quoteless-take (length tag - 6) (drop 5 tag) (Quoteless-drop 5 tag h))

-- The text before a quote, and what comes from the quote on.
abbrev pub quoted : List ℕ → List ℕ → List ℕ
quoted s rest = s ++ (b'"' ∷ rest)

module _ (other : ℕ → Bool) where
  name_length-quoted : (s rest : List ℕ) → name_length other (quoted s rest) ≡ name_length other s
  unfolding name_length
  name_length-quoted [] rest = refl
  name_length-quoted (c ∷ s) rest = rw (name_length, name_length-quoted s rest) refl

  name_length_bound : (s : List ℕ) → name_length other s ≤ length s
  unfolding name_length
  name_length_bound [] = omega arith
  name_length_bound (c ∷ s) = let bound = name_length_bound s in ground arith

take-quoted : (n : ℕ) (s rest : List ℕ) → n ≤ length s → take n (quoted s rest) ≡ take n s
unfolding take
take-quoted zero s rest h = refl
take-quoted (suc n) [] rest h = absurd (omega arith)
take-quoted (suc n) (c ∷ s) rest h = ap (λ t. c ∷ t) (take-quoted n s rest (omega arith))

brace-quoted :
    (n : ℕ) (s rest : List ℕ)
    → n ≤ length s
    → begins_with_brace b'}' (drop n (quoted s rest)) ≡ begins_with_brace b'}' (drop n s)
unfolding drop
brace-quoted zero [] rest h = refl
brace-quoted zero (c ∷ s) rest h = refl
brace-quoted (suc n) [] rest h = absurd (omega arith)
brace-quoted (suc n) (c ∷ s) rest h = brace-quoted n s rest (omega arith)

module _ (other : ℕ → Bool) (m : Match) where
  plain_name-quoted :
      (n : ℕ) (s rest : List ℕ)
      → n ≤ length s
      → plain_name other m (quoted s rest) n ≡ plain_name other m s n
  plain_name-quoted zero s rest h = refl
  plain_name-quoted (suc n) s rest h = rw (take-quoted (suc n) s rest h) refl

  braced_name-quoted :
      (n : ℕ) (s rest : List ℕ)
      → n ≤ length s
      → braced_name other m (quoted s rest) n ≡ braced_name other m s n
  braced_name-quoted zero s rest h = refl
  braced_name-quoted (suc n) s rest h =
      rw (take-quoted (suc n) s rest h, brace-quoted (suc n) s rest h) refl

  -- A quote ends every name, so what is after it changes no reference before it.
  pub after_dollar-quoted :
      (s rest : List ℕ) → after_dollar other m (quoted s rest) ≡ after_dollar other m s
  unfolding after_dollar name_length
  after_dollar-quoted [] rest = refl
  after_dollar-quoted (c ∷ s) rest = rw (name_length-quoted other s rest) (
      rw
        (
          braced_name-quoted (name_length other s) s rest (name_length_bound other s),
          plain_name-quoted _ (c ∷ s) rest (name_length_bound other (c ∷ s)),
        )
        refl)

  -- That a reference takes no more than the text, and stands for a text without quotes.
  abbrev pub Fits : List ℕ → Option (ℕ × List ℕ) → Type 0
  Fits s none = Unit
  Fits s (some (n, text)) = (n ≤ length s) × Quoteless text

  plain_name-Fits :
      (s : List ℕ) (n : ℕ) → QuotelessMatch m → n ≤ length s → Fits s (plain_name other m s n)
  plain_name-Fits s zero q h = tt
  plain_name-Fits s (suc n) q h = (h, group_text-Quoteless m (group_number (take (suc n) s)) q)

  brace_bound : (n : ℕ) (s : List ℕ) → begins_with_brace b'}' (drop n s) ≡ true → suc n ≤ length s
  unfolding drop
  brace_bound zero [] h = absurd (cc)
  brace_bound zero (c ∷ s) h = omega arith
  brace_bound (suc n) [] h = absurd (cc)
  brace_bound (suc n) (c ∷ s) h = let bound = brace_bound n s h in omega arith

  braced_name-Fits :
      (c : ℕ) (s : List ℕ) (n : ℕ) → QuotelessMatch m → Fits (c ∷ s) (braced_name other m s n)
  braced_name-Fits c s zero q = tt
  braced_name-Fits c s (suc n) q = elim (Bool-cases (begins_with_brace b'}' (drop (suc n) s))) [
    | inr unclosed ↦ rw unclosed tt
    | inl closed ↦
        let bound = brace_bound (suc n) s closed in
        rw closed (omega arith, group_text-Quoteless m (group_number (take (suc n) s)) q)
  ]

  pub after_dollar-Fits : (s : List ℕ) → QuotelessMatch m → Fits s (after_dollar other m s)
  unfolding after_dollar
  after_dollar-Fits [] q = tt
  after_dollar-Fits (c ∷ s) q = elim (Bool-cases (eqb c b'$')) [
    | inl dollar ↦ rw dollar (omega arith, (refl, tt))
    | inr plain ↦ elim (Bool-cases (eqb c b'{')) [
      | inl braced ↦ rw (plain, braced) (braced_name-Fits c s (name_length other s) q)
      | inr named ↦
          rw (plain, named)
            (plain_name-Fits (c ∷ s) (name_length other (c ∷ s)) q
              (name_length_bound other (c ∷ s)))
    ]
  ]
