-- ===== src/Server/Life/Sites.antt =====
-- That the site's cache agrees with the process, over the life of the plugin.
use continuum_plugin_whmcs_l.Prelude.{
  ℕ, String, Bool, true, false, List, [], ◌∷◌, map, none, some, Result, ok, err, ◌==◌, All, All-++,
  All-Member, Member, ◌≡◌, inl, inr, refl, sym, ap, ◌∙◌, Bool-cases, Option-cases, Result-cases,
}
use continuum_plugin_whmcs_l.Runtime.Url.{Platform}
use continuum_plugin_whmcs_l.Runtime.Load.{ConfigEntry}
use continuum_plugin_whmcs_l.Store.{Db}
use continuum_plugin_whmcs_l.Whmcs.Http.{World}
use continuum_plugin_whmcs_l.Admin.Update.{Patch}
use continuum_plugin_whmcs_l.Admin.Body.{decode_patch}
use continuum_plugin_whmcs_l.Main.Pool.{no_pools}
use continuum_plugin_whmcs_l.Main.{start, System, MainError, Pools, configure}
use continuum_plugin_whmcs_l.Server.Requests.{HttpRequest, header, WebFiles, Site}
use continuum_plugin_whmcs_l.Server.Handlers.{
  Backend, handle_products, handle_products_refresh, handle_config_summary, handle_update_config,
  handle_simulation, noted_update, cache_for,
}
use continuum_plugin_whmcs_l.Server.Routes.{
  Entry, Router, require_admin, guarded, admin_group, page_routes, public_routes, routes, serve,
}
use continuum_plugin_whmcs_l.Server.Life.{configure_site, Life, begun, configured, served}
use continuum_plugin_whmcs_l.Server.Life.Coherent.{
  is_some, IsCoherent, Ends, configure-Ends, patch_live-Ends,
}

module _ (w : World) where
  -- The process agrees with itself, and there is a product cache exactly where there is a client of the
  -- admin API.
  pub record IsSound (s : Site w) : Type 0 where
    pub system : IsCoherent s.system
    pub cache : is_some s.cache ≡ s.system.process.has_api

  -- A handler that keeps the site sound.
  abbrev Keeping : HttpRequest → Entry w → Type 0
  Keeping r e = (s : Site w) → IsSound s → IsSound (e.handler r s).1

  guarded-Keeping : (r : HttpRequest) (e : Entry w) → Keeping r e → Keeping r (guarded w e)
  unfolding require_admin
  guarded-Keeping r e h s v = elim (Bool-cases (header "X-Silo-User-Role" r == "admin")) [
    | inr other ↦ rw (require_admin, other) v
    | inl admin ↦ rw (require_admin, admin) (h s v)
  ]

  group-Keeping :
      (r : HttpRequest) (es : List (Entry w))
      → All (Keeping r) es
      → All (Keeping r) (map (guarded w) es)
  group-Keeping r [] h = tt
  group-Keeping r (e ∷ es) h = (guarded-Keeping r e h.0, group-Keeping r es h.1)

  module _ (net : Platform) (pools : Pools) (back : Backend w) where
    cache_for-is_some :
        (b : Bool) (s : Site w) (system : System)
        → system.process.has_api ≡ b
        → is_some (cache_for w net pools back system.process s.world) ≡ b
    cache_for-is_some true s system h = rw h refl
    cache_for-is_some false s system h = rw h refl

    products-IsSound : (s : Site w) → IsSound s → IsSound (handle_products w net pools back s).1
    unfolding handle_products
    products-IsSound s v = elim (Option-cases s.cache) [
      | inl absent ↦
          rw absent (record { system = v.system; cache = ap is_some (sym absent) ∙ v.cache })
      | inr (c, there) ↦
          rw there (record { system = v.system; cache = ap is_some (sym there) ∙ v.cache })
    ]

    refresh-IsSound :
        (s : Site w) → IsSound s → IsSound (handle_products_refresh w net pools back s).1
    unfolding handle_products_refresh
    refresh-IsSound s v = elim (Option-cases s.cache) [
      | inl absent ↦
          rw absent (record { system = v.system; cache = ap is_some (sym absent) ∙ v.cache })
      | inr (c, there) ↦
          rw there (record { system = v.system; cache = ap is_some (sym there) ∙ v.cache })
    ]

    noted_update-IsSound :
        (r : HttpRequest) (patch : Patch) (out : Result MainError (Unit {0})) (system : System)
        (s : Site w)
        → IsSound s
        → Ends net pools s.system (out, system)
        → IsSound (noted_update w net pools back r patch out system s).1
    noted_update-IsSound r patch (ok done) system s v e = record {
      system = e.0;
      cache = cache_for-is_some system.process.has_api s system refl;
    }
    noted_update-IsSound r patch (err x) system s v e = record {
      system = e.0;
      cache = v.cache ∙ elim e.1 [ inl fine ↦ absurd (cc) | inr same ↦ sym same ];
    }

    update-IsSound :
        (r : HttpRequest) (s : Site w)
        → IsSound s
        → IsSound (handle_update_config w net pools back r s).1
    unfolding handle_update_config
    update-IsSound r s v = elim (Option-cases (decode_patch r.body)) [
      | inl bad ↦ rw (handle_update_config, bad) v
      | inr (patch, decoded) ↦
          rw (handle_update_config, decoded)
            (noted_update-IsSound r patch _ _ s v
              (patch_live-Ends net pools patch s.system v.system))
    ]

    module _ (letters : ℕ → Bool) (files : WebFiles) where
      page_routes-Keeping :
          (r : HttpRequest) → All (Keeping r) (page_routes w net pools back letters files)
      unfolding page_routes
      page_routes-Keeping r = elim (Option-cases files.spa_files) [
        | inl absent ↦ rw absent tt
        | inr (f, present) ↦ rw present (λ s v. v, (λ s v. v, tt))
      ]

      admin_group-Keeping :
          (r : HttpRequest) → All (Keeping r) (admin_group w net pools back letters files)
      unfolding admin_group handle_config_summary handle_simulation
      admin_group-Keeping r = (
        products-IsSound,
        (
          refresh-IsSound,
          (
            λ s v. v,
            (update-IsSound r, (λ s v. record { system = v.system; cache = v.cache }, tt)),
          ),
        ),
      )

      routes-Keeping : (r : HttpRequest) → All (Keeping r) (routes w net pools back letters files)
      unfolding routes public_routes
      routes-Keeping r =
          let group = admin_group w net pools back letters files in
          (
            λ s v. v,
            (
              λ s v. v,
              All-++ (Keeping r) (map (guarded w) group)
                  (public_routes w net pools back letters files)
                  (group-Keeping r group (admin_group-Keeping r)) (λ s v. v, page_routes-Keeping r),
            ),
          )

      configure_site-IsSound :
          (entries : List ConfigEntry) (s : Site w)
          → IsSound s
          → IsSound (configure_site w net pools back entries s)
      unfolding configure_site
      configure_site-IsSound entries s v =
          let (sound, ends) = configure-Ends net pools entries s.system v.system in
          let after = (configure net pools entries s.system).1 in
          elim (Result-cases (configure net pools entries s.system).0) [
            | inl (done, fine) ↦
                rw (configure_site, fine)
                  (record {
                    system = sound;
                    cache = cache_for-is_some after.process.has_api s after refl;
                  })
            | inr (e, failed) ↦
                let same : after.process.has_api ≡ s.system.process.has_api = elim ends [
                  | inl fine ↦ absurd (cc)
                  | inr same ↦ same
                ] in
                rw (configure_site, failed) (record { system = sound; cache = v.cache ∙ sym same })
          ]

      module _ (pick : Router w)
          (picks : (es : List (Entry w)) (method path : String) (e : Entry w)
            → pick es method path ≡ some e
            → Member e es) where
        serve-IsSound :
            (r : HttpRequest) (s : Site w)
            → IsSound s
            → IsSound (serve w net pools back letters files pick r s).1
        unfolding serve
        serve-IsSound r s v =
            let table = routes w net pools back letters files in
            elim (Option-cases (pick table r.method r.path)) [
              | inl unrouted ↦ rw (serve, unrouted) v
              | inr (e, chosen) ↦
                  rw (serve, chosen)
                    (All-Member (Keeping r) table (routes-Keeping r)
                      (picks table r.method r.path e chosen) s v)
            ]

        Life-keeps :
            {s t : Site w} → IsSound s → Life w net pools back letters files pick s t → IsSound t
        Life-keeps v begun = v
        Life-keeps v (configured {t = u} entries l) =
            configure_site-IsSound entries u (Life-keeps v l)
        Life-keeps v (served {t = u} r ready l) = serve-IsSound r u (Life-keeps v l)

        -- However the host configures the plugin and whatever requests are served, in any order, and
        -- whichever fail: there is a client of the admin API, and a product cache, exactly where the live
        -- configuration has the credentials for it; and a store, a pool and an HTTP handler exactly where
        -- a configuration has become live.
        pub Life-IsSound :
            (db : Db) (world : w.State) (t : Site w)
            → Life w net pools back letters files pick
                (record {
                  system = record { process = start; db = db; handles = no_pools };
                  cache = none;
                  world = world;
                  log = [];
                })
                t
            → IsSound t
        Life-IsSound db world t l =
            Life-keeps
              (record {
                system = record { api = refl; store = refl; handler = refl; pool = refl };
                cache = refl;
              })
              l
