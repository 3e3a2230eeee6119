-- ===== src/Main/Secrets.antt =====
-- What becomes of the secrets that the host injects.
use continuum_plugin_whmcs_l.Prelude.{
  ℕ, String, Bool, true, false, err, map_err, ◌==◌, ◌≡◌, refl, ap, ◌∙◌, subst, arith, not, List,
  Result-cases, Bool-cases, inl, inr,
}
use continuum_plugin_whmcs_l.Prelude.Steps.{
  Steps, from_result, get, modify, Ensures, pure-Ensures, fail-Ensures, bind-Ensures,
}
use continuum_plugin_whmcs_l.Runtime.Url.{Platform}
use continuum_plugin_whmcs_l.Runtime.Config.{Config}
use continuum_plugin_whmcs_l.Runtime.Load.{ConfigEntry, load_config}
use continuum_plugin_whmcs_l.Store.{Db, StoreError, migrate, import_legacy_config, update_config}
use continuum_plugin_whmcs_l.Store.Clean.{
  IsStripped, IsClean, migrate-Ensures, import_legacy_config-Ensures, update_config-Ensures,
}
use continuum_plugin_whmcs_l.Store.Laws.{update_config-same}
use continuum_plugin_whmcs_l.Admin.Update.{Patch, apply_patch}
use continuum_plugin_whmcs_l.Main.Pool.{
  Handles, no_pools, open_pool, close_pool, swap_pool, store_on,
}
use continuum_plugin_whmcs_l.Whmcs.Http.{World}
use continuum_plugin_whmcs_l.Auth.Types.{not_configured, ExchangeRequest, RefreshRequest}
use continuum_plugin_whmcs_l.Auth.Respond.{Session}
use continuum_plugin_whmcs_l.Auth.Server.{ApiSource, is_configured, exchange_code, refresh_session}
use continuum_plugin_whmcs_l.Auth.Server.Closed.{not_configured_closed}
use continuum_plugin_whmcs_l.Main.{
  Process, start, live_config, apply_config, System, MainError, no_database_url, bad_database_url,
  no_store, load_failed, migrate_failed, import_failed, update_failed, in_db, check, on_process,
  Pools, on_config, configure, update_live, patch_live, Step, configured, patched, Reach, here,
  more, installed, with_snapshot, on_handles, connect, or_close, prepare,
}

-- No secret is saved and none is live, so there is no client of the admin API.
pub record HasNoSecret (s : System) : Type 0 where
  pub clean : IsClean s.db
  pub client_secret : (live_config s.process).client_secret ≡ ""
  pub api_secret : (live_config s.process).whmcs_admin_api_secret ≡ ""
  pub no_api : s.process.has_api ≡ false

abbrev Always {ℓ} : {A : Type ℓ} → A → Type 0
Always _ = Unit

pub apply_config-HasNoSecret :
    (cfg : Config) (s : System)
    → HasNoSecret s
    → cfg.client_secret ≡ ""
    → cfg.whmcs_admin_api_secret ≡ ""
    → HasNoSecret (record s { process = apply_config cfg s.process })
unfolding apply_config
apply_config-HasNoSecret cfg s v c a = record {
  clean = v.clean;
  client_secret = c;
  api_secret = a;
  no_api =
      rw a (elim (Bool-cases (cfg.whmcs_admin_api_id == "")) [
        | inl e ↦ rw e refl
        | inr e ↦ rw e refl
      ]);
}

in_db-Ensures :
    {A : Type 0} (Q : A → Type 0) (wrap : StoreError → MainError) (m : Steps Db StoreError A)
    → Ensures IsClean Q m
    → Ensures HasNoSecret Q (in_db wrap m)
unfolding in_db
in_db-Ensures Q wrap m e = record {
  kept = λ s v. record {
    clean = e.kept s.db v.clean;
    client_secret = v.client_secret;
    api_secret = v.api_secret;
    no_api = v.no_api;
  };
  result = λ s v a h. elim (Result-cases (m s.db).0) [
    | inl (b, found) ↦
        let same : b ≡ a = ground arith in subst Q same (e.result s.db v.clean b found)
    | inr (x, failed) ↦ absurd (ground arith)
  ];
}

check-Ensures : (b : Bool) (e : MainError) → Ensures HasNoSecret Always (check b e)
check-Ensures true e = pure-Ensures HasNoSecret Always tt tt
check-Ensures false e = fail-Ensures HasNoSecret Always e

flags-Ensures :
    (f : Process → Process)
    → ((p : Process) → ((f p).live ≡ p.live) × ((f p).has_api ≡ p.has_api))
    → Ensures HasNoSecret Always (on_process f)
flags-Ensures f same = record {
  kept = λ s v. record {
    clean = v.clean;
    client_secret = rw (same s.process).0 v.client_secret;
    api_secret = rw (same s.process).0 v.api_secret;
    no_api = rw (same s.process).1 v.no_api;
  };
  result = λ s v a h. tt;
}

-- What is done to the pools.
handles-HasNoSecret :
    (f : Handles → Handles) (s : System) → HasNoSecret s → HasNoSecret (on_handles f s)
handles-HasNoSecret f s v = record {
  clean = v.clean;
  client_secret = v.client_secret;
  api_secret = v.api_secret;
  no_api = v.no_api;
}

handles-Ensures :
    (f : Handles → Handles) → Ensures {E = MainError} HasNoSecret Always (modify (on_handles f))
handles-Ensures f = record { kept = λ s v. handles-HasNoSecret f s v; result = λ s v a h. tt }

connect-Ensures : (pools : Pools) (url : String) → Ensures HasNoSecret Always (connect pools url)
connect-Ensures pools url = record {
  kept = λ s v. elim (Bool-cases (pools.connects url)) [
    | inl up ↦ rw up (handles-HasNoSecret open_pool s v)
    | inr down ↦ rw down v
  ];
  result = λ s v a h. tt;
}

or_close-Ensures :
    {A : Type 0} (Q : A → Type 0) (pool : ℕ) (m : Steps System MainError A)
    → Ensures HasNoSecret Q m
    → Ensures HasNoSecret Q (or_close pool m)
or_close-Ensures Q pool m e = record {
  kept = λ s v. elim (Result-cases (m s).0) [
    | inl (a, good) ↦ rw (or_close, good) (e.kept s v)
    | inr (x, bad) ↦ rw (or_close, bad) (handles-HasNoSecret (close_pool pool) (m s).1 (e.kept s v))
  ];
  result = λ s v a h. elim (Result-cases (m s).0) [
    | inl (b, good) ↦ let same : b ≡ a = ground arith in subst Q same (e.result s v b good)
    | inr (x, bad) ↦ absurd (ground arith)
  ];
}

apply_config-Ensures :
    (cfg : Config)
    → cfg.client_secret ≡ ""
    → cfg.whmcs_admin_api_secret ≡ ""
    → Ensures HasNoSecret Always (on_process (apply_config cfg))
apply_config-Ensures cfg c a = record {
  kept = λ s v. apply_config-HasNoSecret cfg s v c a;
  result = λ s v b h. tt;
}

-- The two secrets that the flows and the admin API need are not set.
pub record LacksSecrets (cfg : Config) : Type 0 where
  pub client : cfg.client_secret ≡ ""
  pub api : cfg.whmcs_admin_api_secret ≡ ""

IsStripped-LacksSecrets : {cfg : Config} → IsStripped cfg → LacksSecrets cfg
IsStripped-LacksSecrets v = record { client = v.client_secret; api = v.api_secret }

pub saved-Ensures :
    (net : Platform) (next : Config)
    → LacksSecrets next
    → Ensures IsClean LacksSecrets (update_config net next)
saved-Ensures net next v = record {
  kept = λ db p. (update_config-Ensures net next).kept db p;
  result = λ db p saved h.
      let same =
        update_config-same net next saved db (update_config net next db).1
          (λ i. (h i, (update_config net next db).1)) in
      record {
        client = ap (λ c. c.client_secret) same ∙ v.client;
        api = ap (λ c. c.whmcs_admin_api_secret) same ∙ v.api;
      };
}

module _ (net : Platform) (pools : Pools) where
  -- The rest of the callback, once the pool is there.
  prepared-Ensures :
      (cfg : Config) (pool : ℕ) → Ensures HasNoSecret Always (prepare net pools cfg pool)
  unfolding prepare
  prepared-Ensures cfg pool =
      bind-Ensures HasNoSecret Always Always (or_close pool (in_db migrate_failed migrate)) _
        (or_close-Ensures Always pool (in_db migrate_failed migrate)
          (in_db-Ensures Always migrate_failed migrate migrate-Ensures))
        λ _ _.
          bind-Ensures HasNoSecret IsStripped Always
            (or_close pool (in_db import_failed (import_legacy_config net cfg))) _
            (or_close-Ensures IsStripped pool (in_db import_failed (import_legacy_config net cfg)) (
              in_db-Ensures IsStripped import_failed (import_legacy_config net cfg)
                (import_legacy_config-Ensures net cfg)))
            λ effective v.
              bind-Ensures HasNoSecret Always Always (on_process (apply_config effective)) _
                (apply_config-Ensures effective v.client_secret v.api_secret)
                λ _ _.
                  bind-Ensures HasNoSecret Always Always (on_process installed) _
                    (flags-Ensures installed (λ p. (refl, refl)))
                    λ _ _. handles-Ensures (λ h. swap_pool pool (store_on pool h))

  on_config-Ensures : (cfg : Config) → Ensures HasNoSecret Always (on_config net pools cfg)
  unfolding on_config
  on_config-Ensures cfg =
      bind-Ensures HasNoSecret Always Always (check (not (cfg.database_url == "")) no_database_url)
        _ (check-Ensures _ no_database_url)
        λ _ _.
          bind-Ensures HasNoSecret Always Always
            (check (pools.parses cfg.database_url) bad_database_url) _
            (check-Ensures _ bad_database_url)
            λ _ _.
              bind-Ensures HasNoSecret Always Always (connect pools cfg.database_url) _
                (connect-Ensures pools cfg.database_url) λ pool _. prepared-Ensures cfg pool

  pub configure-Ensures :
      (entries : List ConfigEntry) → Ensures HasNoSecret Always (configure net pools entries)
  unfolding configure
  configure-Ensures entries =
      bind-Ensures HasNoSecret Always Always
        (from_result (map_err load_failed (load_config net entries))) _
        (record { kept = λ s v. v; result = λ s v a h. tt })
        λ cfg _.
          bind-Ensures HasNoSecret Always Always (on_config net pools cfg) _ (on_config-Ensures cfg)
            λ _ _. flags-Ensures (with_snapshot cfg) (λ p. (refl, refl))

  update_live-Ensures :
      (next : Config) → LacksSecrets next → Ensures HasNoSecret Always (update_live net pools next)
  unfolding update_live
  update_live-Ensures next v =
      bind-Ensures HasNoSecret Always Always get _
        (record { kept = λ s p. p; result = λ s p a h. tt })
        λ s _.
          bind-Ensures HasNoSecret Always Always (check s.process.has_store no_store) _
            (check-Ensures _ no_store)
            λ _ _.
              bind-Ensures HasNoSecret LacksSecrets Always
                (in_db update_failed (update_config net next)) _
                (in_db-Ensures LacksSecrets update_failed (update_config net next)
                  (saved-Ensures net next v))
                λ saved lacks. apply_config-Ensures saved lacks.client lacks.api

  patch_live-HasNoSecret :
      (req : Patch) (s : System) → HasNoSecret s → HasNoSecret (patch_live net pools req s).1
  unfolding patch_live
  patch_live-HasNoSecret req s v =
      (update_live-Ensures (apply_patch req (live_config s.process))
          (record { client = v.client_secret; api = v.api_secret })).kept
        s v

  Step-HasNoSecret : {s t : System} → Step net pools s t → HasNoSecret s → HasNoSecret t
  Step-HasNoSecret {s} (configured entries) v = (configure-Ensures entries).kept s v
  Step-HasNoSecret {s} (patched req) v = patch_live-HasNoSecret req s v

  -- However the host configures the plugin and the admins change it, no secret is saved and none is
  -- live.
  pub Reach-HasNoSecret : {s t : System} → HasNoSecret s → Reach net pools s t → HasNoSecret t
  Reach-HasNoSecret v here = v
  Reach-HasNoSecret v (more r st) = Step-HasNoSecret st (Reach-HasNoSecret v r)

  pub start-HasNoSecret :
      (db : Db) → IsClean db → HasNoSecret (record { process = start; db = db; handles = no_pools })
  start-HasNoSecret db clean = record {
    clean = clean;
    client_secret = refl;
    api_secret = refl;
    no_api = refl;
  }

  is_configured_without_secret : (cfg : Config) → cfg.client_secret ≡ "" → is_configured cfg ≡ false
  is_configured_without_secret cfg e = rw e (ground arith)

  pub HasNoSecret-not_configured :
      (w : World) (apis : ApiSource w.State) (t : System) (req : ExchangeRequest)
      (old : RefreshRequest) (s : Session w.State)
      → HasNoSecret t
      → let cfg = live_config t.process in
        (exchange_code w apis cfg req s ≡ (err not_configured, s))
        × (refresh_session w apis cfg old s ≡ (err not_configured, s))
        × (t.process.has_api ≡ false)
  HasNoSecret-not_configured w apis t req old s v =
      let bare = is_configured_without_secret (live_config t.process) v.client_secret in
      let (no_login, no_refresh) =
        not_configured_closed w apis (live_config t.process) req old s bare in
      (no_login, no_refresh, v.no_api)

  -- From a database with no secret in its row, whatever the host configures and the admins change, in
  -- any order: every code exchange and every refresh fails as not configured and sends nothing, and
  -- there is no client of the admin API.
  pub Reach-not_configured :
      (w : World) (apis : ApiSource w.State) (db : Db) (t : System) (req : ExchangeRequest)
      (old : RefreshRequest) (s : Session w.State)
      → IsClean db
      → Reach net pools (record { process = start; db = db; handles = no_pools }) t
      → let cfg = live_config t.process in
        (exchange_code w apis cfg req s ≡ (err not_configured, s))
        × (refresh_session w apis cfg old s ≡ (err not_configured, s))
        × (t.process.has_api ≡ false)
  Reach-not_configured w apis db t req old s clean r =
      HasNoSecret-not_configured w apis t req old s
        (Reach-HasNoSecret (start-HasNoSecret db clean) r)
