-- ===== src/Server/Life.antt =====
-- The life of the plugin: the host's configurations, and the requests that it passes on once there is a
-- handler, in any order (cmd/silo-plugin-whmcs-login/main.go).
pub mod Coherent
pub mod Sites
use continuum_plugin_whmcs_l.Prelude.{ℕ, Bool, true, List, Option, Result, ok, err, ◌≡◌}
use continuum_plugin_whmcs_l.Runtime.Url.{Platform}
use continuum_plugin_whmcs_l.Runtime.Load.{ConfigEntry}
use continuum_plugin_whmcs_l.Whmcs.Http.{World}
use continuum_plugin_whmcs_l.Main.{System, MainError, Pools, configure}
use continuum_plugin_whmcs_l.Server.Requests.{HttpRequest, WebFiles, Site}
use continuum_plugin_whmcs_l.Server.Handlers.{Backend, cache_for}
use continuum_plugin_whmcs_l.Server.Routes.{Router, serve}

module _ (w : World) (net : Platform) (pools : Pools) (back : Backend w) where
  -- The site after a configuration, which puts a new cache in the place of the old one if it succeeds.
  abbrev pub configured_site : Result MainError (Unit {0}) → System → Site w → Site w
  configured_site (ok done) system s = record s {
    system = system;
    cache = cache_for w net pools back system.process s.world;
  }
  configured_site (err e) system s = record s { system = system }

  unfoldable pub configure_site : List ConfigEntry → Site w → Site w
  unfolding configure
  configure_site entries s =
      let (out, system) = configure net pools entries s.system in configured_site out system s

  module _ (letters : ℕ → Bool) (files : WebFiles) (pick : Router w) where
    pub data Life (s : Site w) : Site w → Type 0 where
      begun : Life s s
      configured :
          {t : Site w} → (entries : List ConfigEntry) → Life s t → Life s (configure_site entries t)
      served :
          {t : Site w}
          → (r : HttpRequest) → t.system.process.has_handler ≡ true
          → Life s t
          → Life s (serve w net pools back letters files pick r t).1
