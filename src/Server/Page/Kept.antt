-- ===== src/Server/Page/Kept.antt =====
-- The page whose own html tag is replaced by one with the theme (internal/server/prerender_handler.go).
use continuum_plugin_whmcs_l.Prelude.{
  ℕ, suc, Bool, true, false, not, ◌&&◌, List, [], ◌∷◌, ◌++◌, eqb, length, take, All, weaken-All,
  ◌≡◌, refl, ap, ◌∙◌, arith, Bool-cases, inl, inr,
}
use mathlib.Core.List.{append_assoc}
use continuum_plugin_whmcs_l.Text.{fold}
use continuum_plugin_whmcs_l.Server.Page.Tags.{after_name, tag_length, replace_tags}
use continuum_plugin_whmcs_l.Server.Page.{
  escape_quotes, trim_front, trim_back, theme_open, tag_close, html_name, head_name, html_tag,
  head_tag, prerender,
}
use continuum_plugin_whmcs_l.Server.Page.Quotes.{
  Quoteless, escape_quotes-Quoteless, escape_quotes-All,
}
use continuum_plugin_whmcs_l.Server.Page.Injected.{IsPlain, html_tag-IsPlain}

-- No "<".
abbrev pub IsTagless : List ℕ → Type 0
IsTagless = All (λ c. eqb c b'<' ≡ false)

-- No "<" before an "h", in either case, or at the end: no html or head tag begins here.
unfoldable pub opens_no_tag : List ℕ → Bool
opens_no_tag [] = true
opens_no_tag (c ∷ []) = not (eqb c b'<')
opens_no_tag (c ∷ d ∷ s) = not (eqb c b'<' && eqb b'h' (fold (λ x. x) d)) && opens_no_tag (d ∷ s)

IsTagless-opens_no_tag : (s : List ℕ) → IsTagless s → opens_no_tag s ≡ true
unfolding opens_no_tag
IsTagless-opens_no_tag [] h = refl
IsTagless-opens_no_tag (c ∷ []) h = rw h.0 refl
IsTagless-opens_no_tag (c ∷ d ∷ s) h = rw h.0 (IsTagless-opens_no_tag (d ∷ s) h.1)

fold-opening : (c : ℕ) → eqb c b'<' ≡ false → eqb b'<' (fold (λ x. x) c) ≡ false
fold-opening c h = ground arith

module _ (name : List ℕ) (put : List ℕ → List ℕ) where
  replace_tags-none :
      (c : ℕ) (s : List ℕ)
      → tag_length name (c ∷ s) ≡ 0
      → replace_tags name put 0 (c ∷ s) ≡ c ∷ replace_tags name put 0 s
  unfolding replace_tags
  replace_tags-none c s h = rw (replace_tags, h) refl

  replace_tags-skip :
      (t rest : List ℕ)
      → replace_tags name put (length t) (t ++ rest) ≡ replace_tags name put 0 rest
  unfolding replace_tags
  replace_tags-skip [] rest = refl
  replace_tags-skip (c ∷ t) rest = replace_tags-skip t rest

take-++ : (t rest : List ℕ) → take (length t) (t ++ rest) ≡ t
unfolding take
take-++ [] rest = refl
take-++ (c ∷ t) rest = ap (λ x. c ∷ x) (take-++ t rest)

replace_tags-tag :
    (name : List ℕ) (put : List ℕ → List ℕ) (c : ℕ) (t rest : List ℕ)
    → tag_length name (c ∷ (t ++ rest)) ≡ suc (length t)
    → replace_tags name put 0 (c ∷ (t ++ rest)) ≡ put (c ∷ t) ++ replace_tags name put 0 rest
unfolding replace_tags take
replace_tags-tag name put c t rest h =
    rw (replace_tags, h, take-++ t rest, replace_tags-skip name put t rest) refl

-- A tag whose name begins with an "h".
module _ (n : List ℕ) (put : List ℕ → List ℕ) where
  abbrev h_name : List ℕ
  h_name = b'<' ∷ b'h' ∷ n

  tag_length-other : (c : ℕ) (s : List ℕ) → eqb c b'<' ≡ false → tag_length h_name (c ∷ s) ≡ 0
  unfolding tag_length after_name
  tag_length-other c s other = rw (tag_length, after_name, fold-opening c other) refl

  tag_length-opening :
      (c d : ℕ) (s : List ℕ)
      → (eqb c b'<' && eqb b'h' (fold (λ x. x) d)) ≡ false
      → tag_length h_name (c ∷ d ∷ s) ≡ 0
  unfolding tag_length after_name
  tag_length-opening c d s h = elim (Bool-cases (eqb c b'<')) [
    | inl opening ↦
        let small : eqb b'h' (fold (λ x. x) d) ≡ false = rw opening at h in
        let same : c ≡ b'<' = ground arith in rw (tag_length, after_name, same, small) refl
    | inr other ↦ tag_length-other c (d ∷ s) other
  ]

  -- The text before the first tag is passed over.
  replace_tags-opens_no_tag :
      (s rest : List ℕ)
      → opens_no_tag s ≡ true
      → replace_tags h_name put 0 (s ++ rest) ≡ s ++ replace_tags h_name put 0 rest
  unfolding opens_no_tag
  replace_tags-opens_no_tag [] rest h = refl
  replace_tags-opens_no_tag (c ∷ []) rest h =
      replace_tags-none h_name put c rest (tag_length-other c rest (ground arith))
  replace_tags-opens_no_tag (c ∷ d ∷ s) rest h =
      let here : (eqb c b'<' && eqb b'h' (fold (λ x. x) d)) ≡ false = ground arith in
      let beyond : opens_no_tag (d ∷ s) ≡ true = ground arith in
      replace_tags-none h_name put c (d ∷ (s ++ rest)) (tag_length-opening c d (s ++ rest) here)
      ∙ ap (λ x. c ∷ x) (replace_tags-opens_no_tag (d ∷ s) rest beyond)

-- The tag with the theme in it, without quotes.
abbrev pub themed : List ℕ → List ℕ → List ℕ
themed theme rest = theme_open ++ (escape_quotes theme ++ (tag_close ++ rest))

-- `html data-theme="`
abbrev theme_rest : List ℕ
theme_rest =
    b'h' ∷ b't' ∷ b'm' ∷ b'l' ∷ b' ' ∷ b'd' ∷ b'a' ∷ b't' ∷ b'a' ∷ b'-' ∷ b't' ∷ b'h' ∷ b'e' ∷ b'm'
    ∷ b'e' ∷ b'=' ∷ b'"' ∷ []

theme_rest-IsTagless : IsTagless theme_rest
theme_rest-IsTagless = (
  refl,
  (
    refl,
    (
      refl,
      (
        refl,
        (
          refl,
          (
            refl,
            (
              refl,
              (refl, (refl, (refl, (refl, (refl, (refl, (refl, (refl, (refl, (refl, tt)))))))))),
            ),
          ),
        ),
      ),
    ),
  ),
)

tag_length-theme_open : (s : List ℕ) → tag_length head_name (b'<' ∷ (theme_rest ++ s)) ≡ 0
unfolding tag_length after_name
tag_length-theme_open s = refl

escape_quotes-IsTagless : (s : List ℕ) → IsTagless s → IsTagless (escape_quotes s)
escape_quotes-IsTagless s h =
    escape_quotes-All (λ c. eqb c b'<' ≡ false) s (refl, (refl, (refl, (refl, (refl, (refl, tt))))))
      (weaken-All _ _ (λ c tagless other. tagless) s h)

module _ (put : List ℕ → List ℕ) where
  replace_tags-tagless :
      (s rest : List ℕ)
      → IsTagless s
      → replace_tags head_name put 0 (s ++ rest) ≡ s ++ replace_tags head_name put 0 rest
  replace_tags-tagless s rest h =
      replace_tags-opens_no_tag (b'e' ∷ b'a' ∷ b'd' ∷ []) put s rest (IsTagless-opens_no_tag s h)

  -- The replacement of the head tags passes over the tag with the theme.
  replace_tags-themed :
      (theme rest : List ℕ)
      → IsTagless theme
      → replace_tags head_name put 0 (themed theme rest)
        ≡ themed theme (replace_tags head_name put 0 rest)
  replace_tags-themed theme rest h =
      replace_tags-none head_name put b'<' _ (tag_length-theme_open _)
      ∙ ap (λ x. b'<' ∷ x)
          (replace_tags-tagless theme_rest _ theme_rest-IsTagless
            ∙ ap (λ x. theme_rest ++ x)
                (replace_tags-tagless (escape_quotes theme) _ (escape_quotes-IsTagless theme h)
                  ∙ ap (λ x. escape_quotes theme ++ x)
                      (replace_tags-tagless tag_close rest (refl, (refl, tt)))))

module _ (other : ℕ → Bool) (theme path : List ℕ) where
  -- The page as `prerender` makes it, before the spaces at its ends are dropped.
  abbrev pub scanned : List ℕ → List ℕ
  scanned s =
      replace_tags head_name (head_tag other path) 0
        (replace_tags html_name (html_tag other theme) 0 s)

  -- Where the page begins with text that opens no tag, and then comes its html tag: a theme with neither
  -- "$" nor "<" is, in the page that is served, the value of the one attribute of that tag as it is, its
  -- quotes escaped, so that no quote is left in it; and what follows is treated as if it stood alone.
  pub prerender-themed :
      (before : List ℕ) (c : ℕ) (t rest : List ℕ)
      → opens_no_tag before ≡ true
      → tag_length html_name (c ∷ (t ++ rest)) ≡ suc (length t)
      → IsPlain theme
      → IsTagless theme
      → (prerender other theme path (before ++ (c ∷ (t ++ rest)))
          ≡ trim_back (trim_front (before ++ themed theme (scanned rest))))
        × Quoteless (escape_quotes theme)
  unfolding prerender
  prerender-themed before c t rest clear tag plain tagless =
      let tail = replace_tags html_name (html_tag other theme) 0 rest in
      let replaced : html_tag other theme (c ∷ t) ++ tail ≡ themed theme tail =
        ap (λ x. x ++ tail) (html_tag-IsPlain other theme (c ∷ t) plain)
        ∙ ap (λ x. theme_open ++ x) (append_assoc (escape_quotes theme) tag_close tail) in
      (
        ap (λ x. trim_back (trim_front x))
            (ap (replace_tags head_name (head_tag other path) 0) (
                replace_tags-opens_no_tag (b't' ∷ b'm' ∷ b'l' ∷ []) (html_tag other theme) before _
                  clear
                ∙ ap (λ x. before ++ x)
                    (replace_tags-tag html_name (html_tag other theme) c t rest tag ∙ replaced))
              ∙ replace_tags-opens_no_tag (b'e' ∷ b'a' ∷ b'd' ∷ []) (head_tag other path) before _
                  clear
              ∙ ap (λ x. before ++ x)
                  (replace_tags-themed (head_tag other path) theme tail tagless)),
        escape_quotes-Quoteless theme,
      )
