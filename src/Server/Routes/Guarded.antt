-- ===== src/Server/Routes/Guarded.antt =====
-- What a request without the role of an admin comes to.
use continuum_plugin_whmcs_l.Prelude.{
  All-++, All-Member, ℕ, String, Bool, false, List, [], ◌∷◌, map, some, ◌==◌, All, Member, ◌≡◌, ◌≢◌,
  refl, arith, Option-cases, eq_iff, inl, inr,
}
use continuum_plugin_whmcs_l.Runtime.Url.{Platform}
use continuum_plugin_whmcs_l.Whmcs.Http.{World}
use continuum_plugin_whmcs_l.Main.{Pools}
use continuum_plugin_whmcs_l.Server.Requests.{HttpRequest, header, WebFiles, Site}
use continuum_plugin_whmcs_l.Server.Handlers.{Backend}
use continuum_plugin_whmcs_l.Server.Routes.{
  Entry, Router, require_admin, guarded, admin_group, page_routes, public_routes, routes, serve,
}

-- That the entry's handler changes nothing for this request, and answers it alike in all states.
abbrev pub Sealed : (w : World) → HttpRequest → Entry w → Type 0
Sealed w r e = (s t : Site w) → ((e.handler r s).1 ≡ s) × ((e.handler r s).0 ≡ (e.handler r t).0)

module _ (w : World) (r : HttpRequest) where
  guarded-Sealed : (e : Entry w) → header "X-Silo-User-Role" r ≢ "admin" → Sealed w r (guarded w e)
  unfolding require_admin
  guarded-Sealed e other s t =
      let denied : (header "X-Silo-User-Role" r == "admin") ≡ false =
        ground (arith, eq_iff (header "X-Silo-User-Role" r) "admin") in
      rw denied (refl, refl)

  group-Sealed :
      (es : List (Entry w))
      → header "X-Silo-User-Role" r ≢ "admin"
      → All (Sealed w r) (map (guarded w) es)
  group-Sealed [] other = tt
  group-Sealed (e ∷ es) other = (guarded-Sealed e other, group-Sealed es other)

  module _ (net : Platform) (pools : Pools) (back : Backend w) (letters : ℕ → Bool)
      (files : WebFiles) where
    page_routes-Sealed : All (Sealed w r) (page_routes w net pools back letters files)
    unfolding page_routes
    page_routes-Sealed = elim (Option-cases files.spa_files) [
      | inl absent ↦ rw absent tt
      | inr (f, present) ↦ rw present ((λ s t. (refl, refl)), ((λ s t. (refl, refl)), tt))
    ]

    routes-Sealed :
        header "X-Silo-User-Role" r ≢ "admin"
        → All (Sealed w r) (routes w net pools back letters files)
    unfolding routes
    routes-Sealed other =
        let group = admin_group w net pools back letters files in
        (
          λ s t. (refl, refl),
          (
            λ s t. (refl, refl),
            All-++ (Sealed w r) (map (guarded w) group)
                (public_routes w net pools back letters files) (group-Sealed group other)
                (λ s t. (refl, refl), page_routes-Sealed),
          ),
        )

    -- Whatever entry of the table the router picks: a request whose role is not "admin" changes nothing,
    -- and its answer depends on no configuration, database, cache or audit line.
    pub serve_without_admin :
        (pick : Router w) (s t : Site w)
        → ((es : List (Entry w)) (method path : String) (e : Entry w)
            → pick es method path ≡ some e
            → Member e es)
        → header "X-Silo-User-Role" r ≢ "admin"
        → ((serve w net pools back letters files pick r s).1 ≡ s)
          × ((serve w net pools back letters files pick r s).0
              ≡ (serve w net pools back letters files pick r t).0)
    unfolding serve
    serve_without_admin pick s t picks other =
        let table = routes w net pools back letters files in
        elim (Option-cases (pick table r.method r.path)) [
          | inl unrouted ↦ rw (serve, unrouted) (refl, refl)
          | inr (e, chosen) ↦
              rw (serve, chosen)
                (All-Member (Sealed w r) table (routes-Sealed other)
                  (picks table r.method r.path e chosen) s t)
        ]
