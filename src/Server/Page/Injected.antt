-- ===== src/Server/Page/Injected.antt =====
-- The tag that the theme is injected into.
use continuum_plugin_whmcs_l.Prelude.{
  ℕ, zero, suc, ◌≤◌, Bool, false, List, [], ◌∷◌, ◌++◌, none, some, eqb, length, All, weaken-All,
  ◌≡◌, refl, ap, subst, ◌∙◌, arith, Bool-cases, Option-cases, inl, inr,
}
use continuum_plugin_whmcs_l.Server.Page.Expand.{Match, after_dollar, directive, expand}
use continuum_plugin_whmcs_l.Server.Page.{
  escape_quotes, theme_open, tag_close, html_match, html_tag,
}
use continuum_plugin_whmcs_l.Server.Page.Quotes.{
  Quoteless, Quoteless-++, QuotelessMatch, quoted, after_dollar-quoted, after_dollar-Fits, Fits,
  escape_quotes-All, escape_quotes-Quoteless, html_match-Quoteless,
}

++-quoted : (s t rest : List ℕ) → s ++ quoted t rest ≡ quoted (s ++ t) rest
++-quoted [] t rest = refl
++-quoted (c ∷ s) t rest = ap (λ x. c ∷ x) (++-quoted s t rest)

module _ (other : ℕ → Bool) (m : Match) where
  -- What a template without quotes comes to, before a quote.
  abbrev Expands : ℕ → List ℕ → List ℕ → Type 0
  Expands skip s rest =
      (v : List ℕ) × Quoteless v
      × (expand other m skip (quoted s rest) ≡ quoted v (expand other m 0 rest))

  expand-none :
      (c : ℕ) (s : List ℕ)
      → directive other m c s ≡ none
      → expand other m 0 (c ∷ s) ≡ c ∷ expand other m 0 s
  unfolding expand
  expand-none c s h = rw (expand, h) refl

  expand-some :
      (c : ℕ) (s : List ℕ) (n : ℕ) (text : List ℕ)
      → directive other m c s ≡ some (n, text)
      → expand other m 0 (c ∷ s) ≡ text ++ expand other m n s
  unfolding expand
  expand-some c s n text h = rw (expand, h) refl

  expand-quoted :
      (skip : ℕ) (s rest : List ℕ)
      → QuotelessMatch m
      → Quoteless s
      → skip ≤ length s
      → Expands skip s rest
  unfolding expand
  expand-quoted zero [] rest q h bound = ([], tt, refl)
  expand-quoted (suc skip) [] rest q h bound = absurd (omega arith)
  expand-quoted (suc skip) (c ∷ s) rest q h bound = expand-quoted skip s rest q h.1 (omega arith)
  expand-quoted zero (c ∷ s) rest q h bound =
      let (v, clean, rec_eq) = expand-quoted zero s rest q h.1 (omega arith) in
      elim (Bool-cases (eqb c b'$')) [
        | inr plain ↦
            let literal : directive other m c (quoted s rest) ≡ none = rw plain refl in
            (c ∷ v, (h.0, clean), expand-none c (quoted s rest) literal ∙ ap (λ x. c ∷ x) rec_eq)
        | inl dollar ↦
            let fits = after_dollar-Fits other m s q in
            elim (Option-cases (after_dollar other m s)) [
              | inl raw ↦
                  let literal : directive other m c (quoted s rest) ≡ none =
                    rw (dollar, after_dollar-quoted other m s rest) raw in
                  (
                    c ∷ v,
                    (h.0, clean),
                    expand-none c (quoted s rest) literal ∙ ap (λ x. c ∷ x) rec_eq,
                  )
              | inr ((n, text), named) ↦
                  let found : directive other m c (quoted s rest) ≡ some (n, text) =
                    rw (dollar, after_dollar-quoted other m s rest) named in
                  let (short, free) : Fits other m s (some (n, text)) =
                    subst (Fits other m s) named fits in
                  let (u, clean_u, eq_u) = expand-quoted n s rest q h.1 short in
                  (
                    text ++ u,
                    Quoteless-++ text u free clean_u,
                    expand-some c (quoted s rest) n text found
                        ∙ ap (λ x. text ++ x) eq_u
                        ∙ ++-quoted text u _,
                  )
            ]
      ]

-- Where the page's own html tag has no quote: whatever the theme, references to the match included, what
-- takes the place of that tag, before the head tags are replaced, is an html tag with one attribute, whose
-- value has no quote.
pub html_tag-Quoteless :
    (other : ℕ → Bool) (theme tag : List ℕ)
    → Quoteless tag
    → (v : List ℕ) × Quoteless v × (html_tag other theme tag ≡ theme_open ++ (v ++ tag_close))
unfolding html_tag expand
html_tag-Quoteless other theme tag h =
    let (v, clean, eq) =
      expand-quoted other (html_match tag) 0 (escape_quotes theme) (b'>' ∷ [])
        (html_match-Quoteless tag h) (escape_quotes-Quoteless theme) (omega arith) in
    (v, clean, ap (λ x. theme_open ++ x) eq)

-- No reference, so no "$".
abbrev pub IsPlain : List ℕ → Type 0
IsPlain = All (λ c. eqb c b'$' ≡ false)

expand-plain : (other : ℕ → Bool) (m : Match) (s : List ℕ) → IsPlain s → expand other m 0 s ≡ s
unfolding expand
expand-plain other m [] h = refl
expand-plain other m (c ∷ s) h =
    let literal : directive other m c s ≡ none = rw h.0 refl in
    expand-none other m c s literal ∙ ap (λ x. c ∷ x) (expand-plain other m s h.1)

IsPlain-++ : (s t : List ℕ) → IsPlain s → IsPlain t → IsPlain (s ++ t)
IsPlain-++ [] t hs ht = ht
IsPlain-++ (c ∷ s) t hs ht = (hs.0, IsPlain-++ s t hs.1 ht)

escape_quotes-IsPlain : (s : List ℕ) → IsPlain s → IsPlain (escape_quotes s)
escape_quotes-IsPlain s h =
    escape_quotes-All (λ c. eqb c b'$' ≡ false) s (refl, (refl, (refl, (refl, (refl, (refl, tt))))))
      (weaken-All _ _ (λ c plain other. plain) s h)

-- A theme without "$" is injected as it is, its quotes escaped.
pub html_tag-IsPlain :
    (other : ℕ → Bool) (theme tag : List ℕ)
    → IsPlain theme
    → html_tag other theme tag ≡ theme_open ++ (escape_quotes theme ++ tag_close)
unfolding html_tag expand
html_tag-IsPlain other theme tag h =
    ap (λ x. theme_open ++ x)
      (expand-plain other (html_match tag) (escape_quotes theme ++ tag_close) (
        IsPlain-++ (escape_quotes theme) tag_close (escape_quotes-IsPlain theme h)
          (refl, (refl, tt))))
