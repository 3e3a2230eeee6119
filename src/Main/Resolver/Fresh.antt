-- ===== src/Main/Resolver/Fresh.antt =====
-- What a login behind the resolver rests on.
use continuum_plugin_whmcs_l.Prelude.{
  String, true, false, ◌||◌, List, [], ◌∷◌, Option, some, elems, is_empty, ok, ◌==◌, ◌≡◌, refl, ap,
  subst, arith, inl, inr, Bool-cases,
}
use continuum_plugin_whmcs_l.Runtime.Config.{Config}
use continuum_plugin_whmcs_l.Whmcs.Http.{World}
use continuum_plugin_whmcs_l.Whmcs.Oauth.{UserInfo, fetch_user_info}
use continuum_plugin_whmcs_l.Whmcs.Types.{ClientProduct, EntitlementApi}
use continuum_plugin_whmcs_l.Whmcs.Entitlements.{Held}
use continuum_plugin_whmcs_l.Whmcs.Entitlements
use continuum_plugin_whmcs_l.Whmcs.Entitlements.Laws.{look_up-fresh}
use continuum_plugin_whmcs_l.Auth.Products.{active_product_ids, any_match}
use continuum_plugin_whmcs_l.Auth.Types.{AuthenticateResponse, ExchangeRequest}
use continuum_plugin_whmcs_l.Auth.Respond.{Session, gates}
use continuum_plugin_whmcs_l.Auth.Respond.Gate.{IsEntitled}
use continuum_plugin_whmcs_l.Auth.Server.{entitlement_api, exchange_code}
use continuum_plugin_whmcs_l.Auth.Server.Granted.{exchange_code-IsLogin}
use continuum_plugin_whmcs_l.Main.{Process, live_config}
use continuum_plugin_whmcs_l.Main.Resolver.{
  negative_lookup_ttl, Shared, shared_world, direct_client, resolver_client, client_for, api_source,
}

-- No gate lets a client without products through.
any_match-none : (allowed : List String) → any_match allowed (active_product_ids []) ≡ false
unfolding any_match active_product_ids
any_match-none [] = refl
any_match-none (a ∷ allowed) = any_match-none allowed

some_products :
    (allowed : List String) (prods : List ClientProduct)
    → any_match allowed (active_product_ids prods) ≡ true
    → is_empty prods ≡ false
some_products allowed [] h = absurd (let none_there = any_match-none allowed in cc)
some_products allowed (p ∷ prods) h = refl

module _ (w : World) (api : EntitlementApi w.State) where
  -- A list with products that the resolver gives is the API's.
  resolver_client-fresh :
      (client_id : String) (prods : List ClientProduct) (before after : Shared w.State)
      → (resolver_client w api).get_clients_products client_id before ≡ (ok prods, after)
      → is_empty prods ≡ false
      → (x y : w.State) × (api.get_clients_products client_id x ≡ (ok prods, y))
  unfolding Entitlements.get_clients_products
  resolver_client-fresh client_id prods before after h full =
      look_up-fresh w negative_lookup_ttl is_empty [] (api.get_clients_products client_id) client_id
        (record { negatives = before.by_client; world = before.world }) prods (ap (λ x. x.0) h) refl
        full

  -- A client of the login flow whose lists with products are the API's.
  abbrev Fresh : EntitlementApi (Shared w.State) → Type 0
  Fresh client =
      (client_id : String) (prods : List ClientProduct) (before after : Shared w.State)
      → client.get_clients_products client_id before ≡ (ok prods, after)
      → is_empty prods ≡ false
      → (x y : w.State) × (api.get_clients_products client_id x ≡ (ok prods, y))

  direct_client-Fresh : Fresh (direct_client api)
  direct_client-Fresh client_id prods before after h full = (
    before.world,
    (api.get_clients_products client_id before.world).1,
    λ i. (ap (λ x. x.0) h i, (api.get_clients_products client_id before.world).1),
  )

  entitled-fresh :
      (cfg : Config) (client : EntitlementApi (Shared w.State)) (ui : UserInfo)
      (products : Option (List String))
      → Fresh client
      → gates cfg ≡ true
      → IsEntitled cfg client ui products
      → IsEntitled cfg api ui products
  entitled-fresh cfg client ui products fresh gated v =
      let passed : any_match (elems cfg.allowed_product_ids) (active_product_ids v.prods) ≡ true =
        elim v.passed [ inl open_to_all ↦ absurd (cc) | inr matched ↦ matched ] in
      let (x, y, call) =
        fresh v.client_id v.prods v.answer.before v.answer.after v.answer.call
          (some_products (elems cfg.allowed_product_ids) v.prods passed) in
      record {
        client_id = v.client_id;
        prods = v.prods;
        answer = record { before = x; after = y; call = call };
        listed = v.listed;
        passed = v.passed;
      }

module _ (w : World) (new_client : String → String → String → EntitlementApi w.State)
    (p : Process) where
  -- Whichever client the login gets, its lists with products are the API's.
  api_source-Fresh :
      (client : EntitlementApi (Shared w.State))
      → entitlement_api (api_source w new_client p) (live_config p) ≡ some client
      → Fresh w (client_for w new_client (live_config p)) client
  unfolding entitlement_api
  api_source-Fresh client h =
      let cfg = live_config p in
      let api = client_for w new_client cfg in
      elim (Bool-cases p.has_api) [
        | inl there ↦
            let got : some (resolver_client w api) ≡ some client = rw there at h in
            let same : resolver_client w api ≡ client = cc in
            subst (Fresh w api) same (resolver_client-fresh w api)
        | inr absent ↦
            elim (Bool-cases (cfg.whmcs_admin_api_id == "" || cfg.whmcs_admin_api_secret == "")) [
              | inl bare ↦ absurd (let got = rw (absent, bare) at h in cc)
              | inr set ↦
                  let got : some (direct_client api) ≡ some client = rw (absent, set) at h in
                  let same : direct_client api ≡ client = cc in
                  subst (Fresh w api) same (direct_client-Fresh w api)
            ]
      ]

  -- WHMCS told of the user, whom the answer is about, and the products are the API's answer for one client.
  pub record IsFreshLogin (r : AuthenticateResponse) : Type 0 where
    pub ui : UserInfo
    pub access_token : String
    pub before : Shared w.State
    pub after : Shared w.State
    pub told :
        fetch_user_info (shared_world w) (live_config p).whmcs_server_url access_token before
        ≡ (ok ui, after)
    pub subject : r.external_subject ≡ ui.sub
    pub entitled :
        IsEntitled (live_config p) (client_for w new_client (live_config p)) ui r.claims.products

  -- With a product gate, a code exchange that succeeds behind the resolver, whatever negative answers it
  -- remembers, is about a user whom WHMCS told of, and its products are what the admin API answered for
  -- one client: the client's active products, which the claims list, pass the gate.
  pub exchange_code-IsFreshLogin :
      (req : ExchangeRequest) (r : AuthenticateResponse) (s t : Session (Shared w.State))
      → exchange_code (shared_world w) (api_source w new_client p) (live_config p) req s ≡ (ok r, t)
      → gates (live_config p) ≡ true
      → IsFreshLogin r
  exchange_code-IsFreshLogin req r s t h gated =
      let cfg = live_config p in
      let api = client_for w new_client cfg in
      let login =
        (exchange_code-IsLogin (shared_world w) (api_source w new_client p) cfg req r s t h).1 in
      elim login.granted [
        | inl unasked ↦ absurd (ground arith)
        | inr granted ↦ record {
          ui = login.ui;
          access_token = login.access_token;
          before = login.before;
          after = login.after;
          told = login.told;
          subject = login.subject;
          entitled =
              entitled-fresh w api cfg granted.client login.ui r.claims.products
                (api_source-Fresh granted.client granted.present) gated granted.entitled;
        }
      ]
