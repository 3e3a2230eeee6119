-- ===== src/Server/Routes/Changes.antt =====
-- What the HTTP surface changes.
use continuum_plugin_whmcs_l.Prelude.{
  ℕ, String, Bool, List, [], ◌∷◌, ◌++◌, map, Option, none, some, Result, ok, err, ◌==◌, All, All-++,
  All-Member, Member, ◌≡◌, ◌⊎◌, inl, inr, refl, eq_iff, Bool-cases, Option-cases, Result-cases,
}
use continuum_plugin_whmcs_l.Runtime.Url.{Platform}
use continuum_plugin_whmcs_l.Whmcs.Http.{World}
use continuum_plugin_whmcs_l.Admin.Update.{Patch, patched_fields}
use continuum_plugin_whmcs_l.Admin.Body.{decode_patch}
use continuum_plugin_whmcs_l.Main.{MainError, Pools, patch_live}
use continuum_plugin_whmcs_l.Server.Requests.{HttpRequest, header, WebFiles, AdminLine, Site}
use continuum_plugin_whmcs_l.Server.Handlers.{
  Backend, handle_products, handle_products_refresh, handle_config_summary, handle_update_config,
  handle_simulation,
}
use continuum_plugin_whmcs_l.Server.Routes.{
  Entry, Router, require_admin, guarded, admin_group, page_routes, public_routes, routes, serve,
}

abbrev pub error_of : Result MainError (Unit {0}) → Option MainError
error_of (ok done) = none
error_of (err e) = some e

-- The line that a change leaves in the audit log.
abbrev pub audit_line : HttpRequest → Patch → Result MainError (Unit {0}) → AdminLine
audit_line r patch out = record {
  actor = header "X-Silo-User-Id" r;
  fields = patched_fields patch;
  rejected = error_of out;
}

module _ (w : World) (r : HttpRequest) (net : Platform) (pools : Pools) where
  -- An admin's change: one step of the process, and one line of the audit log that tells of it.
  pub record IsChange (s t : Site w) : Type 0 where
    pub patch : Patch
    pub decoded : decode_patch r.body ≡ some patch
    pub admin : header "X-Silo-User-Role" r ≡ "admin"
    pub stepped : t.system ≡ (patch_live net pools patch s.system).1
    pub audited : t.log ≡ s.log ++ (audit_line r patch (patch_live net pools patch s.system).0 ∷ [])

  abbrev pub Quiet : Site w → Site w → Type 0
  Quiet s t = (t.system ≡ s.system) × (t.log ≡ s.log)

  abbrev Changing : Entry w → Type 0
  Changing e = (s : Site w) → Quiet s (e.handler r s).1 ⊎ IsChange s (e.handler r s).1

  -- The same behind the guard.
  abbrev ChangingBehind : Entry w → Type 0
  ChangingBehind e =
      header "X-Silo-User-Role" r ≡ "admin"
      → (s : Site w) → Quiet s (e.handler r s).1 ⊎ IsChange s (e.handler r s).1

  guarded-Changing : (e : Entry w) → ChangingBehind e → Changing (guarded w e)
  unfolding require_admin
  guarded-Changing e h s = elim (Bool-cases (header "X-Silo-User-Role" r == "admin")) [
    | inr other ↦ rw (require_admin, other) (inl (refl, refl))
    | inl admin ↦
        rw (require_admin, admin) (h ((eq_iff (header "X-Silo-User-Role" r) "admin").0 admin) s)
  ]

  group-Changing : (es : List (Entry w)) → All ChangingBehind es → All Changing (map (guarded w) es)
  group-Changing [] h = tt
  group-Changing (e ∷ es) h = (guarded-Changing e h.0, group-Changing es h.1)

  module _ (back : Backend w) (letters : ℕ → Bool) (files : WebFiles) where
    products-Quiet : (s : Site w) → Quiet s (handle_products w net pools back s).1
    unfolding handle_products
    products-Quiet s = elim (Option-cases s.cache) [
      | inl absent ↦ rw absent (refl, refl)
      | inr (c, there) ↦ rw there (refl, refl)
    ]

    refresh-Quiet : (s : Site w) → Quiet s (handle_products_refresh w net pools back s).1
    unfolding handle_products_refresh
    refresh-Quiet s = elim (Option-cases s.cache) [
      | inl absent ↦ rw absent (refl, refl)
      | inr (c, there) ↦ rw there (refl, refl)
    ]

    update-Changing :
        (s : Site w)
        → header "X-Silo-User-Role" r ≡ "admin"
        → Quiet s (handle_update_config w net pools back r s).1
          ⊎ IsChange s (handle_update_config w net pools back r s).1
    unfolding handle_update_config
    update-Changing s admin = elim (Option-cases (decode_patch r.body)) [
      | inl bad ↦ rw (handle_update_config, bad) (inl (refl, refl))
      | inr (patch, decoded) ↦ elim (Result-cases (patch_live net pools patch s.system).0) [
        | inl (done, fine) ↦
            rw (handle_update_config, decoded, fine)
              (inr (record {
                patch = patch;
                decoded = decoded;
                admin = admin;
                stepped = refl;
                audited = rw fine refl;
              }))
        | inr (e, failed) ↦
            rw (handle_update_config, decoded, failed)
              (inr (record {
                patch = patch;
                decoded = decoded;
                admin = admin;
                stepped = refl;
                audited = rw failed refl;
              }))
      ]
    ]

    admin_group-Changing : All ChangingBehind (admin_group w net pools back letters files)
    unfolding admin_group handle_config_summary handle_simulation
    admin_group-Changing = (
      λ admin s. inl (products-Quiet s),
      (
        λ admin s. inl (refresh-Quiet s),
        (
          λ admin s. inl (refl, refl),
          (λ admin s. update-Changing s admin, (λ admin s. inl (refl, refl), tt)),
        ),
      ),
    )

    page_routes-Changing : All Changing (page_routes w net pools back letters files)
    unfolding page_routes
    page_routes-Changing = elim (Option-cases files.spa_files) [
      | inl absent ↦ rw absent tt
      | inr (f, present) ↦ rw present (λ s. inl (refl, refl), (λ s. inl (refl, refl), tt))
    ]

    routes-Changing : All Changing (routes w net pools back letters files)
    unfolding routes public_routes
    routes-Changing =
        let group = admin_group w net pools back letters files in
        (
          λ s. inl (refl, refl),
          (
            λ s. inl (refl, refl),
            All-++ Changing (map (guarded w) group) (public_routes w net pools back letters files)
                (group-Changing group admin_group-Changing)
                (λ s. inl (refl, refl), page_routes-Changing),
          ),
        )

    -- Whatever entry of the table the router picks: a request leaves the process, the database, the pools
    -- and the audit log as they were, or it is an admin's, its body is a change, the system has taken the
    -- step of that change, and one line of the log tells who made it, of what fields, and the error, if
    -- there is one.
    pub serve_changes :
        (pick : Router w) (s : Site w)
        → ((es : List (Entry w)) (method path : String) (e : Entry w)
            → pick es method path ≡ some e
            → Member e es)
        → Quiet s (serve w net pools back letters files pick r s).1
          ⊎ IsChange s (serve w net pools back letters files pick r s).1
    unfolding serve
    serve_changes pick s picks =
        let table = routes w net pools back letters files in
        elim (Option-cases (pick table r.method r.path)) [
          | inl unrouted ↦ rw (serve, unrouted) (inl (refl, refl))
          | inr (e, chosen) ↦
              rw (serve, chosen)
                (All-Member Changing table routes-Changing (picks table r.method r.path e chosen) s)
        ]
