-- ===== src/Examples/Http.antt =====
-- The theorems on the HTTP surface and on the verifier of a login, at concrete inputs.
use continuum_plugin_whmcs_l.Prelude.{
  ◌⊎◌, ℕ, zero, suc, ◌<◌, ok, subst, String, Bool, true, false, ◌&&◌, List, [], ◌∷◌, ◌++◌, Option,
  none, some, ◌==◌, length, All, Member, here, there, if◌then◌else◌, ◌≡◌, ◌≢◌, refl, arith, eq_iff,
  Bool-cases, inl, inr,
}
use continuum_plugin_whmcs_l.Server.Requests.{HttpRequest, WebFiles, Site, header_in}
use continuum_plugin_whmcs_l.Server.Handlers.{Backend}
use continuum_plugin_whmcs_l.Server.Routes.{Entry, serve}
use continuum_plugin_whmcs_l.Json.{obj, member, str, null, end}
use continuum_plugin_whmcs_l.Server.Routes.Changes.{Quiet, IsChange, serve_changes}
use continuum_plugin_whmcs_l.Server.Routes.Guarded.{serve_without_admin}
use continuum_plugin_whmcs_l.Server.Href.{compute_base_href}
use continuum_plugin_whmcs_l.Server.Href.Laws.{resolve, dirs_from, resolve-compute_base_href}
use continuum_plugin_whmcs_l.Server.Page.{
  html_tag, theme_open, tag_close, prerender, escape_quotes, trim_front, trim_back,
}
use continuum_plugin_whmcs_l.Server.Page.Tags.{tag_length, after_name, to_close}
use continuum_plugin_whmcs_l.Server.Page.Kept.{opens_no_tag, themed, scanned, prerender-themed}
use continuum_plugin_whmcs_l.Server.Page.Quotes.{Quoteless}
use continuum_plugin_whmcs_l.Server.Page.Injected.{html_tag-Quoteless}
use continuum_plugin_whmcs_l.Server.Bridge.{HttpLibrary, HostRequest}
use continuum_plugin_whmcs_l.Examples.{net, pools, world, wire, client}
use continuum_plugin_whmcs_l.Examples.Settings.{unset, renamed_then}

-- n copies of a byte.
abbrev bytes_of : ℕ → ℕ → List ℕ
bytes_of zero b = []
bytes_of (suc n) b = b ∷ bytes_of n b

bytes_of-All : (n : ℕ) → All (λ b. b < 256) (bytes_of n 251)
bytes_of-All zero = tt
bytes_of-All (suc n) = (omega arith, bytes_of-All n)

digest_sound :
    (message : List ℕ) → (length (bytes_of 32 251) ≡ 32) × All (λ b. b < 256) (bytes_of 32 251)
digest_sound message = (refl, bytes_of-All 32)

-- "a/b/", below a root of one directory.
abbrev deep : List ℕ
deep = b'a' ∷ b'/' ∷ b'b' ∷ b'/' ∷ []

resolve-compute_base_href_example :
    resolve (dirs_from ((b'p' ∷ []) ∷ []) [] deep) (compute_base_href (b'/' ∷ deep))
    ≡ (b'p' ∷ []) ∷ []
resolve-compute_base_href_example = resolve-compute_base_href ((b'p' ∷ []) ∷ []) deep

-- `$0"`, injected into `<html>`.
abbrev odd_theme : List ℕ
odd_theme = b'$' ∷ b'0' ∷ b'"' ∷ []

abbrev bare_tag : List ℕ
bare_tag = b'<' ∷ b'h' ∷ b't' ∷ b'm' ∷ b'l' ∷ b'>' ∷ []

abbrev pub no_letters : ℕ → Bool
no_letters c = false

html_tag-Quoteless_example :
    (v : List ℕ) × Quoteless v
    × (html_tag no_letters odd_theme bare_tag ≡ theme_open ++ (v ++ tag_close))
html_tag-Quoteless_example =
    html_tag-Quoteless no_letters odd_theme bare_tag
      (refl, (refl, (refl, (refl, (refl, (refl, tt))))))

-- `<!x>`, `<html lang="e">`, `<head>` and `a"b`.
abbrev doctype : List ℕ
doctype = b'<' ∷ b'!' ∷ b'x' ∷ b'>' ∷ []

abbrev own_tag_rest : List ℕ
own_tag_rest =
    b'h' ∷ b't' ∷ b'm' ∷ b'l' ∷ b' ' ∷ b'l' ∷ b'a' ∷ b'n' ∷ b'g' ∷ b'=' ∷ b'"' ∷ b'e' ∷ b'"' ∷ b'>'
    ∷ []

abbrev head_only : List ℕ
head_only = b'<' ∷ b'h' ∷ b'e' ∷ b'a' ∷ b'd' ∷ b'>' ∷ []

abbrev quoted_theme : List ℕ
quoted_theme = b'a' ∷ b'"' ∷ b'b' ∷ []

prerender-themed_example :
    (prerender no_letters quoted_theme deep (doctype ++ (b'<' ∷ (own_tag_rest ++ head_only)))
      ≡ trim_back (
          trim_front
            (doctype ++ themed quoted_theme (scanned no_letters quoted_theme deep head_only))))
    × Quoteless (escape_quotes quoted_theme)
unfolding opens_no_tag tag_length after_name to_close
prerender-themed_example =
    prerender-themed no_letters quoted_theme deep doctype b'<' own_tag_rest head_only refl refl
      (refl, (refl, (refl, tt))) (refl, (refl, (refl, tt)))

abbrev pub backend : Backend world
backend = record { get_products = λ cfg w. (ok [], w); new_api_client = λ url id secret. client }

abbrev pub no_files : WebFiles
no_files = record { spa_files = none; static_root = "assets"; static_files = λ name. none }

-- The first entry with this very method and pattern.
abbrev pub first_entry : List (Entry world) → String → String → Option (Entry world)
first_entry [] method path = none
first_entry (e ∷ es) method path =
    let later = first_entry es method path in
    if e.method == method && e.pattern == path then some e else later

pub first_entry-Member :
    (es : List (Entry world)) (method path : String) (e : Entry world)
    → first_entry es method path ≡ some e
    → Member e es
first_entry-Member [] method path e h = absurd (cc)
first_entry-Member (x ∷ es) method path e h =
    elim (Bool-cases (x.method == method && x.pattern == path)) [
      | inl found ↦ let same : x ≡ e = cc in subst (λ y. Member y (x ∷ es)) same here
      | inr other ↦ there (first_entry-Member es method path e (ground arith))
    ]

abbrev refresh_call : HttpRequest
refresh_call = record {
  method = "PATCH";
  path = "/api/v1/admin/config";
  headers = ("X-Silo-User-Role", "user") ∷ [];
  query_theme = "";
  body = none;
}

no_admin : header_in "X-Silo-User-Role" refresh_call.headers ≢ "admin"
unfolding header_in
no_admin e = absurd (ground (arith, e, eq_iff "user" "admin"))

abbrev pub quiet_site : Site world
quiet_site = record { system = unset; cache = none; world = wire; log = [] }

abbrev busy_site : Site world
busy_site = record { system = renamed_then; cache = none; world = wire; log = [] }

serve_without_admin_example :
    ((serve world net pools backend no_letters no_files first_entry refresh_call quiet_site).1
      ≡ quiet_site)
    × ((serve world net pools backend no_letters no_files first_entry refresh_call quiet_site).0
        ≡ (serve world net pools backend no_letters no_files first_entry refresh_call busy_site).0)
serve_without_admin_example =
    serve_without_admin world refresh_call net pools backend no_letters no_files first_entry
      quiet_site busy_site first_entry-Member no_admin

-- The same request by an admin, with a name to show and one field that is none.
abbrev pub rename_call : HttpRequest
rename_call = record refresh_call {
  headers = ("X-Silo-User-Role", "admin") ∷ ("X-Silo-User-Id", "1") ∷ [];
  body = some (obj (member "display_name" (str " Members ") (member "other" null end)));
}

serve_changes_example :
    Quiet world rename_call net pools busy_site
      (serve world net pools backend no_letters no_files first_entry rename_call busy_site).1
    ⊎ IsChange world rename_call net pools busy_site
        (serve world net pools backend no_letters no_files first_entry rename_call busy_site).1
serve_changes_example =
    serve_changes world rename_call net pools backend no_letters no_files first_entry busy_site
      first_entry-Member

abbrev library : HttpLibrary
library = record {
  value_text = λ v. "";
  encode = λ vals. "";
  url_text = λ path query. path;
  accepts = λ method target. true;
  canonical = λ name. if name == "x-role" then "X-Role" else name;
}

abbrev host_request : HostRequest
host_request = record {
  method = "";
  path = "/admin";
  query = none;
  headers = ("x-role", "user") ∷ ("X-Role", "admin") ∷ [];
  body = "";
}
