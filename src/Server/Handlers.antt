-- ===== src/Server/Handlers.antt =====
-- The handlers of the admin server that the other modules do not hold (internal/admin/server.go).
use continuum_plugin_whmcs_l.Prelude.{
  ℕ, String, true, false, ◌||◌, List, [], ◌∷◌, ◌++◌, Option, none, some, ◌==◌, Result, ok, err,
  if◌then◌else◌,
}
use continuum_plugin_whmcs_l.Prelude.Steps.{Steps}
use continuum_plugin_whmcs_l.Runtime.Url.{Platform}
use continuum_plugin_whmcs_l.Runtime.Config.{Config}
use continuum_plugin_whmcs_l.Whmcs.Http.{World, WhmcsError}
use continuum_plugin_whmcs_l.Whmcs.Types.{Product, EntitlementApi}
use continuum_plugin_whmcs_l.Whmcs.Cache.{Cache, new_cache, get, refresh}
use continuum_plugin_whmcs_l.Admin.Update.{Patch, patched_fields}
use continuum_plugin_whmcs_l.Admin.Body.{decode_patch}
use continuum_plugin_whmcs_l.Admin.Simulate.{handle_simulate_login}
use continuum_plugin_whmcs_l.Admin.Summary.{config_summary}
use continuum_plugin_whmcs_l.Main.{Process, System, MainError, Pools, live_config, patch_live}
use continuum_plugin_whmcs_l.Server.Requests.{
  HttpRequest, header, ProductsView, Answer, identity, products_view, summary_view, invalid_body,
  updated, update_rejected, simulation, Site,
}

-- `HandleWhoami`
unfoldable pub handle_whoami : HttpRequest → Answer
handle_whoami r =
    identity (header "X-Silo-User-Id" r) (header "X-Silo-User-Role" r)
      (header "X-Silo-User-Theme" r)

-- `productsEmpty`
abbrev pub products_empty : ProductsView
products_empty = record {
  products = [];
  cached_at = none;
  last_attempt_at = none;
  last_error = none;
  configured = false;
}

abbrev pub products_of : Result WhmcsError (List Product) → List Product
products_of (ok ps) = ps
products_of (err e) = []

-- The error of the call, where the cache has noted none.
abbrev pub shown_error : Option WhmcsError → Result WhmcsError (List Product) → Option WhmcsError
shown_error (some e) out = some e
shown_error none (ok ps) = none
shown_error none (err e) = some e

-- The client of the admin API that `whmcs.NewAPIClient` makes, by its operations.
pub record Backend (w : World) : Type 1 where
  pub get_products : Config → Steps w.State WhmcsError (List Product)
  pub new_api_client : String → String → String → EntitlementApi w.State

-- `productCacheTTL`, in nanoseconds.
abbrev pub product_cache_ttl : ℕ
product_cache_ttl = 300_000_000_000

module _ (w : World) where
  -- `productsResponse`
  unfoldable pub products_response : Cache w.State → Result WhmcsError (List Product) → ProductsView
  products_response c out = record {
    products = products_of out;
    cached_at = c.at;
    last_attempt_at = c.last_attempt;
    last_error = shown_error c.last_err out;
    configured = true;
  }

  -- A call on the cache as a step of the site.
  abbrev pub shown_products :
      (Steps (Cache w.State) WhmcsError (List Product))
      → Option (Cache w.State)
      → Site w
      → Answer × Site w
  shown_products call none s = (products_view products_empty, s)
  shown_products call (some c) s =
      let (out, c') = call (record c { world = s.world }) in
      (products_view (products_response c' out), record s { cache = some c'; world = c'.world })

  module _ (net : Platform) (pools : Pools) (back : Backend w) where
    abbrev pub live : Site w → Config
    live s = live_config s.system.process

    -- `HandleProducts`
    unfoldable pub handle_products : Site w → Answer × Site w
    unfolding products_response get
    handle_products s =
        shown_products (get w product_cache_ttl (back.get_products (live s))) s.cache s

    -- `HandleProductsRefresh`
    unfoldable pub handle_products_refresh : Site w → Answer × Site w
    unfolding products_response refresh
    handle_products_refresh s =
        shown_products (refresh w product_cache_ttl (back.get_products (live s))) s.cache s

    unfoldable pub handle_config_summary : Site w → Answer × Site w
    unfolding config_summary
    handle_config_summary s = (summary_view (config_summary (live s)), s)

    -- The cache that `applyConfig` puts in the place of the old one.
    abbrev pub cache_for : Process → w.State → Option (Cache w.State)
    cache_for p s = if p.has_api then some (new_cache s) else none

    abbrev pub noted_update :
        HttpRequest → Patch → Result MainError (Unit {0}) → System → Site w → Answer × Site w
    noted_update r patch (err e) system s = (
      update_rejected e,
      record s {
        system = system;
        log =
            s.log
            ++ (record {
              actor = header "X-Silo-User-Id" r;
              fields = patched_fields patch;
              rejected = some e;
            }
                ∷ []);
      },
    )
    noted_update r patch (ok done) system s = (
      updated,
      record s {
        system = system;
        cache = cache_for system.process s.world;
        log =
            s.log
            ++ (record {
              actor = header "X-Silo-User-Id" r;
              fields = patched_fields patch;
              rejected = none;
            }
                ∷ []);
      },
    )

    -- `HandleUpdateConfig`. Its store function is always there: `main` passes one.
    unfoldable pub handle_update_config : HttpRequest → Site w → Answer × Site w
    unfolding patch_live patched_fields
    handle_update_config r s = elim (decode_patch r.body) [
      | none ↦ (invalid_body, s)
      | some patch ↦
          let (out, system) = patch_live net pools patch s.system in
          noted_update r patch out system s
    ]

    -- `APIFactory`
    unfoldable pub api_factory : Config → Option (EntitlementApi w.State)
    api_factory c =
        if c.whmcs_admin_api_id == "" || c.whmcs_admin_api_secret == ""
        then none
        else some
            (back.new_api_client c.whmcs_server_url c.whmcs_admin_api_id c.whmcs_admin_api_secret)

    -- `HandleSimulateLogin`, as a step of the site.
    unfoldable pub handle_simulation : HttpRequest → Site w → Answer × Site w
    unfolding handle_simulate_login api_factory
    handle_simulation r s =
        let (out, world) = handle_simulate_login (some api_factory) (live s) r.body s.world in
        (simulation out, record s { world = world })
