-- ===== src/Server/Requests.antt =====
-- Requests and answers of the plugin's HTTP surface, and what its handlers act on
-- (internal/server, internal/admin/server.go).
use continuum_plugin_whmcs_l.Prelude.{ℕ, String, Bool, List, [], ◌∷◌, Option, ◌==◌, if◌then◌else◌}
use continuum_plugin_whmcs_l.Json.{Value}
use continuum_plugin_whmcs_l.Whmcs.Http.{World, WhmcsError}
use continuum_plugin_whmcs_l.Whmcs.Types.{Product}
use continuum_plugin_whmcs_l.Whmcs.Cache.{Cache}
use continuum_plugin_whmcs_l.Admin.Simulate.{Simulation}
use continuum_plugin_whmcs_l.Admin.Summary.{Summary}
use continuum_plugin_whmcs_l.Main.{System, MainError}

-- `query_theme` is `r.URL.Query().Get("theme")`, and `body` is the body as JSON, if it is any.
pub record HttpRequest : Type 0 where
  pub method : String
  pub path : String
  pub headers : List (String × String)
  pub query_theme : String
  pub body : Option Value

-- `r.Header.Get`, with names in their canonical form.
unfoldable pub header_in : String → List (String × String) → String
header_in name [] = ""
header_in name ((k, v) ∷ headers) = if k == name then v else header_in name headers

abbrev pub header : String → HttpRequest → String
header name r = header_in name r.headers

-- The answer of the two product handlers; a nil list is an empty one here. The message that asks for
-- credentials is there exactly where `configured` is false.
pub record ProductsView : Type 0 where
  pub products : List Product
  pub cached_at : Option ℕ
  pub last_attempt_at : Option ℕ
  pub last_error : Option WhmcsError
  pub configured : Bool

-- An open file: what reading it gives, if it can be read. Texts of files are code points.
abbrev pub File : Type 0
File = Option (List ℕ)

-- What `Deps` holds of files: `SPAFiles`, `StaticRoot` and `StaticFS`, by what opening and reading give.
pub record WebFiles : Type 0 where
  pub spa_files : Option (String → Option File)
  pub static_root : String
  pub static_files : String → Option (List ℕ)

-- A file of the bundle is served by its name, and one of the static files with its content type.
pub data AssetReply : Type 0 where
  no_asset : AssetReply
  bundle_file : String → File → AssetReply
  static_file : Option String → List ℕ → AssetReply

pub data PageReply : Type 0 where
  not_embedded missing unreadable : PageReply
  page : List ℕ → PageReply

-- `no_route` stands for 404 and 405.
pub data Answer : Type 0 where
  healthy forbidden no_route : Answer
  identity : String → String → String → Answer
  products_view : ProductsView → Answer
  summary_view : Summary → Answer
  invalid_body updated : Answer
  update_rejected : MainError → Answer
  simulation : Simulation → Answer
  asset : AssetReply → Answer
  spa : PageReply → Answer

-- An audit line of the admin server: whether the change was made, by whom, and the fields.
pub record AdminLine : Type 0 where
  pub actor : String
  pub fields : List String
  pub rejected : Option MainError

-- The process with its database, the product cache, the world outside and the audit lines of the admin
-- server. The cache acts on the world as it is at the call.
pub record Site (w : World) : Type 0 where
  pub system : System
  pub cache : Option (Cache w.State)
  pub world : w.State
  pub log : List AdminLine
