-- ===== src/Server/Routes.antt =====
-- `Server.Handler` (internal/server/server.go) and `RequireAdmin` (internal/admin/server.go): the table of
-- routes and the guard of the admin group. The router itself is a library: `pick` is the entry that it
-- chooses for a method and a path.
pub mod Guarded
pub mod Changes
use continuum_plugin_whmcs_l.Prelude.{
  ℕ, String, Bool, List, [], ◌∷◌, ◌++◌, map, Option, none, some, ◌==◌, if◌then◌else◌,
}
use continuum_plugin_whmcs_l.Runtime.Url.{Platform}
use continuum_plugin_whmcs_l.Whmcs.Http.{World}
use continuum_plugin_whmcs_l.Main.{Pools}
use continuum_plugin_whmcs_l.Server.Requests.{
  HttpRequest, header, WebFiles, Answer, healthy, forbidden, no_route, asset, spa, Site,
}
use continuum_plugin_whmcs_l.Server.Handlers.{
  Backend, handle_whoami, handle_products, handle_products_refresh, handle_config_summary,
  handle_update_config, handle_simulation,
}
use continuum_plugin_whmcs_l.Server.Assets.{handle_assets}
use continuum_plugin_whmcs_l.Server.Page.{handle_spa}

abbrev pub Handler : World → Type 0
Handler w = HttpRequest → Site w → Answer × Site w

-- `r.Get(pattern, handler)` and its kin.
pub record Entry (w : World) : Type 0 where
  pub method : String
  pub pattern : String
  pub handler : Handler w

-- What the router chooses among its entries, for a method and a path.
abbrev pub Router : World → Type 0
Router w = List (Entry w) → String → String → Option (Entry w)

module _ (w : World) where
  -- `RequireAdmin`
  unfoldable pub require_admin : Handler w → Handler w
  require_admin next r s =
      if header "X-Silo-User-Role" r == "admin" then next r s else (forbidden, s)

  -- `r.Use` in a group.
  abbrev pub guarded : Entry w → Entry w
  unfolding require_admin
  guarded e = record e { handler = require_admin e.handler }

  abbrev pub silent : (HttpRequest → Answer) → Handler w
  silent answer r s = (answer r, s)

  -- `handleHealth`
  abbrev pub handle_health : Handler w
  handle_health r s = (healthy, s)

  module _ (net : Platform) (pools : Pools) (back : Backend w) (other : ℕ → Bool)
      (files : WebFiles) where
    unfoldable pub admin_group : List (Entry w)
    unfolding handle_products handle_products_refresh handle_config_summary handle_update_config
        handle_simulation
    admin_group =
        record {
          method = "GET";
          pattern = "/api/v1/admin/products";
          handler = λ r s. handle_products w net pools back s;
        }
        ∷ record {
          method = "POST";
          pattern = "/api/v1/admin/products/refresh";
          handler = λ r s. handle_products_refresh w net pools back s;
        }
        ∷ record {
          method = "GET";
          pattern = "/api/v1/admin/config-summary";
          handler = λ r s. handle_config_summary w net pools back s;
        }
        ∷ record {
          method = "PATCH";
          pattern = "/api/v1/admin/config";
          handler = handle_update_config w net pools back;
        }
        ∷ record {
          method = "POST";
          pattern = "/api/v1/admin/simulate-login";
          handler = handle_simulation w net pools back;
        }
        ∷ []

    -- The page's two routes, where the bundle is there.
    unfoldable pub page_routes : List (Entry w)
    unfolding handle_spa
    page_routes = elim files.spa_files [
      | none ↦ []
      | some opens ↦
          record {
            method = "GET";
            pattern = "/admin";
            handler = silent (λ r. spa (handle_spa other files r));
          }
          ∷ record {
            method = "GET";
            pattern = "/admin/*";
            handler = silent (λ r. spa (handle_spa other files r));
          }
          ∷ []
    ]

    -- The routes after the admin group.
    unfoldable pub public_routes : List (Entry w)
    unfolding handle_assets page_routes
    public_routes =
        record {
          method = "GET";
          pattern = "/assets/*";
          handler = silent (λ r. asset (handle_assets files r));
        }
        ∷ page_routes

    -- The table, with the admin server there: `main` always passes one.
    unfoldable pub routes : List (Entry w)
    unfolding handle_whoami admin_group public_routes
    routes =
        record { method = "GET"; pattern = "/api/v1/health"; handler = handle_health }
          ∷ record {
            method = "GET";
            pattern = "/api/v1/admin/whoami";
            handler = silent handle_whoami;
          }
          ∷ map guarded admin_group
        ++ public_routes

    unfoldable pub serve : Router w → HttpRequest → Site w → Answer × Site w
    unfolding routes
    serve pick r s = elim (pick routes r.method r.path) [
      | none ↦ (no_route, s)
      | some e ↦ e.handler r s
    ]
