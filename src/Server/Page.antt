-- ===== src/Server/Page.antt =====
-- `handleSPA` (internal/server/prerender_handler.go), on code points. Children: the tags that are replaced
-- (`Tags`), the template of the replacement (`Expand`).
pub mod Tags
pub mod Expand
pub mod Quotes
pub mod Injected
pub mod Kept
use continuum_plugin_whmcs_l.Prelude.{
  ℕ, ◌-◌, String, Bool, ◌&&◌, List, [], ◌∷◌, ◌++◌, Option, none, some, ◌==◌, eqb, if◌then◌else◌,
  length, is_empty, take, drop,
}
use continuum_plugin_whmcs_l.Text.{codes, is_space}
use continuum_plugin_whmcs_l.Server.Href.{compute_base_href}
use continuum_plugin_whmcs_l.Server.Requests.{
  HttpRequest, header, File, WebFiles, PageReply, not_embedded, missing, unreadable, page,
}
use continuum_plugin_whmcs_l.Server.Page.Tags.{replace_tags}
use continuum_plugin_whmcs_l.Server.Page.Expand.{Match, expand}

-- `strings.ReplaceAll(theme, "\"", "&quot;")`
unfoldable pub escape_quotes : List ℕ → List ℕ
escape_quotes [] = []
escape_quotes (c ∷ s) =
    let rest = escape_quotes s in
    if eqb c b'"' then b'&' ∷ b'q' ∷ b'u' ∷ b'o' ∷ b't' ∷ b';' ∷ rest else c ∷ rest

-- `bytes.TrimSpace`
unfoldable pub trim_front : List ℕ → List ℕ
trim_front [] = []
trim_front (c ∷ s) = let rest = trim_front s in if is_space c then rest else c ∷ s

unfoldable pub trim_back : List ℕ → List ℕ
trim_back [] = []
trim_back (c ∷ s) = let rest = trim_back s in if is_empty rest && is_space c then [] else c ∷ rest

-- The theme of a request.
unfoldable pub theme_of : HttpRequest → String
theme_of r =
    let given = header "X-Silo-Theme" r in
    let theme = if given == "" then r.query_theme else given in
    if theme == "" then "default" else theme

abbrev pub html_name : List ℕ
html_name = b'<' ∷ b'h' ∷ b't' ∷ b'm' ∷ b'l' ∷ []

abbrev pub head_name : List ℕ
head_name = b'<' ∷ b'h' ∷ b'e' ∷ b'a' ∷ b'd' ∷ []

-- `<html data-theme="`
abbrev pub theme_open : List ℕ
theme_open =
    b'<' ∷ b'h' ∷ b't' ∷ b'm' ∷ b'l' ∷ b' ' ∷ b'd' ∷ b'a' ∷ b't' ∷ b'a' ∷ b'-' ∷ b't' ∷ b'h' ∷ b'e'
    ∷ b'm' ∷ b'e' ∷ b'=' ∷ b'"' ∷ []

-- `<base href="`
abbrev pub base_open : List ℕ
base_open = b'<' ∷ b'b' ∷ b'a' ∷ b's' ∷ b'e' ∷ b' ' ∷ b'h' ∷ b'r' ∷ b'e' ∷ b'f' ∷ b'=' ∷ b'"' ∷ []

abbrev pub tag_close : List ℕ
tag_close = b'"' ∷ b'>' ∷ []

-- The groups of a match of `htmlTagRE`.
unfoldable pub html_match : List ℕ → Match
unfolding take drop
html_match tag = record { whole = tag; inner = take (length tag - 6) (drop 5 tag) }

module _ (other : ℕ → Bool) where
  -- What takes the place of a match of `htmlTagRE`.
  unfoldable pub html_tag : List ℕ → List ℕ → List ℕ
  unfolding escape_quotes expand html_match
  html_tag theme tag =
      expand other (html_match tag) 0 (theme_open ++ (escape_quotes theme ++ tag_close))

  -- What takes the place of a match of `headTagRE`.
  unfoldable pub head_tag : List ℕ → List ℕ → List ℕ
  unfolding compute_base_href
  head_tag path tag = tag ++ (base_open ++ (compute_base_href path ++ tag_close))

  unfoldable pub prerender : List ℕ → List ℕ → List ℕ → List ℕ
  unfolding replace_tags html_tag head_tag trim_front trim_back
  prerender theme path raw = trim_back (
      trim_front
        (replace_tags head_name (head_tag path) 0 (replace_tags html_name (html_tag theme) 0 raw)))

  -- The second `Open`, where the first fails.
  abbrev pub open_index : (String → Option File) → Option File
  open_index opens = elim (opens "/index.html") [ some f ↦ some f | none ↦ opens "index.html" ]

  unfoldable pub handle_spa : WebFiles → HttpRequest → PageReply
  unfolding theme_of codes prerender
  handle_spa files r = elim files.spa_files [
    | none ↦ not_embedded
    | some opens ↦ elim (open_index opens) [
      | none ↦ missing
      | some none ↦ unreadable
      | some (some raw) ↦ page (prerender (codes (theme_of r)) (codes r.path) raw)
    ]
  ]
