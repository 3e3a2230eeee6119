-- ===== src/Server/Life/Coherent.antt =====
-- That the pointers of the process agree.
use continuum_plugin_whmcs_l.Prelude.{
  ℕ, Bool, true, false, not, ◌&&◌, List, Option, none, some, Result, ok, ◌==◌, ◌≡◌, ◌⊎◌, inl, inr,
  refl, sym, ap, ◌∙◌, Bool-cases, Option-cases, Result-cases,
}
use continuum_plugin_whmcs_l.Runtime.Url.{Platform}
use continuum_plugin_whmcs_l.Runtime.Config.{Config}
use continuum_plugin_whmcs_l.Runtime.Load.{ConfigEntry, load_config}
use continuum_plugin_whmcs_l.Store.{migrate, import_legacy_config, update_config}
use continuum_plugin_whmcs_l.Admin.Update.{Patch, apply_patch}
use continuum_plugin_whmcs_l.Main.Pool.{Handles, open_pool, store_on, swap_pool, close_pool}
use continuum_plugin_whmcs_l.Main.{
  live_config, apply_config, System, MainError, Pools, in_db, on_handles, prepare, on_config,
  configure, update_live, patch_live,
}

abbrev pub is_some {ℓ} : {A : Type ℓ} → Option A → Bool
is_some none = false
is_some (some a) = true

abbrev pub has_credentials : Config → Bool
has_credentials cfg = not (cfg.whmcs_admin_api_id == "") && not (cfg.whmcs_admin_api_secret == "")

-- A client of the admin API exactly where the live configuration has its credentials; a store, a handler
-- and a pool exactly where there is a live configuration.
pub record IsCoherent (s : System) : Type 0 where
  pub api : s.process.has_api ≡ has_credentials (live_config s.process)
  pub store : s.process.has_store ≡ is_some s.process.live
  pub handler : s.process.has_handler ≡ is_some s.process.live
  pub pool : is_some s.handles.current ≡ is_some s.process.live

swap_pool_current : (n : ℕ) (h : Handles) → (swap_pool n h).current ≡ some n
unfolding swap_pool close_pool
swap_pool_current n h = elim (Option-cases h.current) [
  | inl none_yet ↦ rw (swap_pool, none_yet) refl
  | inr (old, there) ↦ rw (swap_pool, there) refl
]

module _ (net : Platform) (pools : Pools) where
  -- How a configuration or a change ends: with all pointers in agreement, and if it fails, with a client
  -- of the admin API where there was one before.
  abbrev pub Ends : System → Result MainError (Unit {0}) × System → Type 0
  Ends s (out, t) = IsCoherent t × ((out ≡ ok tt) ⊎ (t.process.has_api ≡ s.process.has_api))

  prepare-Ends :
      (cfg : Config) (n : ℕ) (s : System) → IsCoherent s → Ends s (prepare net pools cfg n s)
  unfolding prepare in_db apply_config close_pool
  prepare-Ends cfg n s v = elim (Result-cases (migrate s.db).0) [
    | inr (e, failed) ↦
        rw failed
          (record { api = v.api; store = v.store; handler = v.handler; pool = v.pool }, inr refl)
    | inl (done, migrated) ↦ elim (Result-cases (import_legacy_config net cfg (migrate s.db).1).0) [
      | inr (e, failed) ↦
          rw (migrated, failed)
            (record { api = v.api; store = v.store; handler = v.handler; pool = v.pool }, inr refl)
      | inl (saved, imported) ↦
          rw (migrated, imported)
            (
              record {
                api = refl;
                store = refl;
                handler = refl;
                pool = ap is_some (swap_pool_current n (store_on n s.handles));
              },
              inl refl,
            )
    ]
  ]

  on_config-Ends : (cfg : Config) (s : System) → IsCoherent s → Ends s (on_config net pools cfg s)
  unfolding on_config
  on_config-Ends cfg s v = elim (Bool-cases (not (cfg.database_url == ""))) [
    | inr unset ↦ rw unset (v, inr refl)
    | inl given ↦ elim (Bool-cases (pools.parses cfg.database_url)) [
      | inr bad ↦ rw (given, bad) (v, inr refl)
      | inl good ↦ elim (Bool-cases (pools.connects cfg.database_url)) [
        | inr down ↦ rw (given, good, down) (v, inr refl)
        | inl up ↦
            rw (given, good, up)
              (prepare-Ends cfg s.handles.opened (on_handles open_pool s)
                (record { api = v.api; store = v.store; handler = v.handler; pool = v.pool }))
      ]
    ]
  ]

  pub configure-Ends :
      (entries : List ConfigEntry) (s : System)
      → IsCoherent s
      → Ends s (configure net pools entries s)
  unfolding configure
  configure-Ends entries s v = elim (Result-cases (load_config net entries)) [
    | inr (e, bad) ↦ rw bad (v, inr refl)
    | inl (cfg, loaded) ↦
        let (u, kept) = on_config-Ends cfg s v in
        elim (Result-cases (on_config net pools cfg s).0) [
          | inr (e, failed) ↦
              let same : (on_config net pools cfg s).1.process.has_api ≡ s.process.has_api =
                elim kept [ inl fine ↦ absurd (cc) | inr same ↦ same ] in
              rw (loaded, failed) (u, inr same)
          | inl (done, ran) ↦
              rw (loaded, ran)
                (
                  record { api = u.api; store = u.store; handler = u.handler; pool = u.pool },
                  inl refl,
                )
        ]
  ]

  pub patch_live-Ends :
      (req : Patch) (s : System) → IsCoherent s → Ends s (patch_live net pools req s)
  unfolding patch_live update_live in_db apply_config
  patch_live-Ends req s v = elim (Bool-cases s.process.has_store) [
    | inr none_yet ↦ rw none_yet (
      record { api = v.api; store = sym none_yet ∙ v.store; handler = v.handler; pool = v.pool },
      inr refl,
    )
    | inl there_is ↦
        elim (Result-cases (update_config net (apply_patch req (live_config s.process)) s.db).0) [
          | inr (e, failed) ↦
              rw (there_is, failed)
                (
                  record {
                    api = v.api;
                    store = sym there_is ∙ v.store;
                    handler = v.handler;
                    pool = v.pool;
                  },
                  inr refl,
                )
          | inl (saved, done) ↦
              let live_before : true ≡ is_some s.process.live = sym there_is ∙ v.store in
              rw (there_is, done)
                (
                  record {
                    api = refl;
                    store = refl;
                    handler = v.handler ∙ sym live_before;
                    pool = v.pool ∙ sym live_before;
                  },
                  inl refl,
                )
        ]
  ]
