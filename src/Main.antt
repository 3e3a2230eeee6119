-- ===== src/Main.antt =====
-- cmd/silo-plugin-whmcs-login/main.go: how the parts are wired. `Process` is what the atomic pointers
-- and the runtime server hold; the steps are the host's `Configure` and the admin's change of the
-- configuration. Each step is taken as one (`Main.Overlap` is about changes that overlap), and there is
-- one database: the URL only decides whether a pool can be opened. A validation that fails may have
-- rewritten product ids in a slice that the request shares with the live configuration; the model
-- leaves the live one alone.
pub mod Pool
pub mod Secrets
pub mod Live
pub mod Open
pub mod Resolver
pub mod Ready
pub mod Overlap
pub mod Manifest
use continuum_plugin_whmcs_l.Prelude.{
  ℕ, String, Bool, true, false, ◌&&◌, not, List, Option, none, some, ◌==◌, Result, ok, err, map_err,
  if◌then◌else◌,
}
use continuum_plugin_whmcs_l.Prelude.Steps.{
  Steps, pure, fail, from_result, modify, get, ◌>>=◌, ◌>>◌,
}
use continuum_plugin_whmcs_l.Admin.Update.{Patch, apply_patch}
use continuum_plugin_whmcs_l.Runtime.Url.{Platform}
use continuum_plugin_whmcs_l.Runtime.Config.{Config, zero_config, ConfigError}
use continuum_plugin_whmcs_l.Runtime.Load.{ConfigEntry, load_config}
use continuum_plugin_whmcs_l.Main.Pool.{Handles, open_pool, close_pool, swap_pool, store_on}
use continuum_plugin_whmcs_l.Store.{Db, StoreError, migrate, import_legacy_config, update_config}

-- `cfgPtr`, whether there are a product cache and a resolver (`cachePtr`, `resolverPtr`), whether there
-- is a store (`storePtr`) and a handler, and the configuration that the runtime server keeps.
pub record Process : Type 0 where
  pub live : Option Config
  pub has_api : Bool
  pub has_store : Bool
  pub has_handler : Bool
  pub snapshot : Config

abbrev pub start : Process
start = record {
  live = none;
  has_api = false;
  has_store = false;
  has_handler = false;
  snapshot = zero_config;
}

abbrev pub config_or : Option Config → Config
config_or none = zero_config
config_or (some cfg) = cfg

-- `cfgFn`
abbrev pub live_config : Process → Config
live_config p = config_or p.live

unfoldable pub apply_config : Config → Process → Process
apply_config cfg p = record p {
  live = some cfg;
  has_api = not (cfg.whmcs_admin_api_id == "") && not (cfg.whmcs_admin_api_secret == "");
}

-- `storePtr.Store` and `httpSrv.SetHandler`
abbrev pub installed : Process → Process
installed p = record p { has_store = true; has_handler = true }

abbrev pub with_snapshot : Config → Process → Process
with_snapshot cfg p = record p { snapshot = cfg }

pub data MainError : Type 0 where
  no_database_url bad_database_url no_connection no_store : MainError
  load_failed : ConfigError → MainError
  migrate_failed import_failed update_failed : StoreError → MainError

-- The plugin, its database and its pools of connections.
pub record System : Type 0 where
  pub process : Process
  pub db : Db
  pub handles : Handles

-- `pgxpool.ParseConfig` and `pgxpool.NewWithConfig`: whether a URL is accepted.
pub record Pools : Type 0 where
  pub parses : String → Bool
  pub connects : String → Bool

-- A database step within the system.
unfoldable pub in_db :
    {A : Type 0} → (StoreError → MainError) → Steps Db StoreError A → Steps System MainError A
in_db wrap m s = let (r, db) = m s.db in (map_err wrap r, record s { db = db })

abbrev check : Bool → MainError → Steps System MainError (Unit {0})
check true e = pure tt
check false e = fail e

abbrev on_process : (Process → Process) → Steps System MainError (Unit {0})
on_process f = modify (λ s. record s { process = f s.process })

abbrev pub on_handles : (Handles → Handles) → System → System
on_handles f s = record s { handles = f s.handles }

-- `pgxpool.NewWithConfig`, which gives the pool by its number.
abbrev pub connect : Pools → String → Steps System MainError ℕ
connect pools url s =
    if pools.connects url
    then (ok s.handles.opened, on_handles open_pool s)
    else (err no_connection, s)

-- `if err != nil { pool.Close(); return … }`
abbrev closing : {A : Type 0} → ℕ → Result MainError A → System → Result MainError A × System
closing pool (ok a) s = (ok a, s)
closing pool (err e) s = (err e, on_handles (close_pool pool) s)

abbrev pub or_close : {A : Type 0} → ℕ → Steps System MainError A → Steps System MainError A
or_close pool m s = closing pool (m s).0 (m s).1

module _ (net : Platform) (pools : Pools) where
  -- The callback of `Configure`, from the migration on.
  unfoldable pub prepare : Config → ℕ → Steps System MainError (Unit {0})
  unfolding in_db apply_config close_pool swap_pool
  prepare cfg pool = do
    or_close pool (in_db migrate_failed migrate)
    effective ← or_close pool (in_db import_failed (import_legacy_config net cfg))
    on_process (apply_config effective)
    on_process installed
    modify (on_handles (λ h. swap_pool pool (store_on pool h)))

  -- The callback of `Configure`.
  unfoldable pub on_config : Config → Steps System MainError (Unit {0})
  unfolding prepare
  on_config cfg = do
    check (not (cfg.database_url == "")) no_database_url
    check (pools.parses cfg.database_url) bad_database_url
    pool ← connect pools cfg.database_url
    prepare cfg pool

  -- `Configure` of the runtime server.
  unfoldable pub configure : List ConfigEntry → Steps System MainError (Unit {0})
  unfolding on_config
  configure entries = do
    cfg ← from_result (map_err load_failed (load_config net entries))
    on_config cfg
    on_process (with_snapshot cfg)

  -- `UpdateConfigFn`, which the admin server calls.
  unfoldable pub update_live : Config → Steps System MainError (Unit {0})
  unfolding in_db apply_config
  update_live next = do
    s ← get
    check s.process.has_store no_store
    saved ← in_db update_failed (update_config net next)
    on_process (apply_config saved)

  -- The admin's change: the live configuration with the request's fields.
  unfoldable pub patch_live : Patch → Steps System MainError (Unit {0})
  unfolding update_live apply_patch
  patch_live req = do s ← get; update_live (apply_patch req (live_config s.process))

  -- What the host and the admins can do, in any order.
  pub data Step (s : System) : System → Type 0 where
    configured : (entries : List ConfigEntry) → Step s (configure entries s).1
    patched : (req : Patch) → Step s (patch_live req s).1

  pub data Reach (s : System) : System → Type 0 where
    here : Reach s s
    more : {t u : System} → Reach s t → Step t u → Reach s u
