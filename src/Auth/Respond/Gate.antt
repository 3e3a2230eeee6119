-- ===== src/Auth/Respond/Gate.antt =====
-- Who gets through `buildResponse`.
use continuum_plugin_whmcs_l.Prelude.{
  String, true, false, List, Option, none, some, elems, ok, ◌≡◌, ◌⊎◌, inl, inr, refl, sym, ap,
  subst, ◌∙◌, arith, Bool-cases, Result-cases, ◌||◌,
}
use continuum_plugin_whmcs_l.Prelude.Steps.{Steps, bind-eq-ok, pure-eq-ok}
use continuum_plugin_whmcs_l.Runtime.Config.{Config}
use continuum_plugin_whmcs_l.Whmcs.Http.{WhmcsError}
use continuum_plugin_whmcs_l.Whmcs.Oauth.{UserInfo}
use continuum_plugin_whmcs_l.Whmcs.Types.{ClientProduct, EntitlementApi}
use continuum_plugin_whmcs_l.Auth.Products.{active_product_ids, any_match}
use continuum_plugin_whmcs_l.Auth.Types.{
  AuthError, Claims, AuthenticateResponse, products_failed, text,
}
use continuum_plugin_whmcs_l.Auth.Respond.{
  Session, gates, maps_roles, outside, audit, resolve_client, check_gate, owned_products,
  discord_id, entitled, first_claims, with_api, evaluated, build_response, role_of,
}

module _ {S : Type 0} where
  pub outside-eq-ok :
      {A : Type 0} (wrap : WhmcsError → AuthError) (m : Steps S WhmcsError A) (s t : Session S)
      (a : A)
      → outside wrap m s ≡ (ok a, t)
      → (world : S) × (m s.world ≡ (ok a, world))
  unfolding outside
  outside-eq-ok {A} wrap m s t a h = elim (Result-cases (m s.world).0) [
    | inl (b, e) ↦
        let same : b ≡ a = ground arith in ((m s.world).1, λ i. ((e ∙ ap ok same) i, (m s.world).1))
    | inr (f, e) ↦ ground arith
  ]

module _ {S : Type 0} (cfg : Config) (api : EntitlementApi S) (ui : UserInfo) where
  -- WHMCS gave these products for the client, in some state of the outside world.
  pub record IsAnswer (client_id : String) (prods : List ClientProduct) : Type 0 where
    pub before : S
    pub after : S
    pub call : api.get_clients_products client_id before ≡ (ok prods, after)

  -- What the claims say of products and role is what WHMCS answered for one client, and that client
  -- passes the gate, if there is one.
  pub record IsEntitled (products : Option (List String)) : Type 0 where
    pub client_id : String
    pub prods : List ClientProduct
    pub answer : IsAnswer client_id prods
    pub listed : products ≡ some (active_product_ids prods)
    pub passed :
        (gates cfg ≡ false)
        ⊎ (any_match (elems cfg.allowed_product_ids) (active_product_ids prods) ≡ true)

  check_gate_sound :
      (client_id : String) (owned out : List String) (s t : Session S)
      → check_gate cfg api ui client_id owned s ≡ (ok out, t)
      → (out ≡ owned)
        × ((gates cfg ≡ false) ⊎ (any_match (elems cfg.allowed_product_ids) owned ≡ true))
  unfolding check_gate
  check_gate_sound client_id owned out s t h = elim (Bool-cases (gates cfg)) [
    | inr open_to_all ↦ (ground arith, inl open_to_all)
    | inl gated ↦ elim (Bool-cases (any_match (elems cfg.allowed_product_ids) owned)) [
      | inl found ↦ (ground arith, inr found)
      | inr missing ↦ ground arith
    ]
  ]

  owned_products_sound :
      (client_id : String) (out : Option (List String)) (s t : Session S)
      → owned_products cfg api ui client_id s ≡ (ok out, t)
      → (gates cfg || maps_roles cfg) ≡ true
      → IsEntitled out
  unfolding owned_products
  owned_products_sound client_id out s t h wanted =
      let h₀ = rw wanted at h in
      let (prods, s₁, asked, h₁) =
        bind-eq-ok (outside products_failed (api.get_clients_products client_id)) _ s out t h₀ in
      let (owned, s₂, checked, h₂) =
        bind-eq-ok (check_gate cfg api ui client_id (active_product_ids prods)) _ s₁ out t h₁ in
      let (after, call) =
        outside-eq-ok products_failed (api.get_clients_products client_id) s s₁ prods asked in
      let (same, pass) =
        check_gate_sound client_id (active_product_ids prods) owned s₁ s₂ checked in
      record {
        client_id = client_id;
        prods = prods;
        answer = record { before = s.world; after = after; call = call };
        listed = cc;
        passed = pass;
      }

  entitled_sound :
      (claims out : Claims) (s t : Session S)
      → entitled cfg api ui claims s ≡ (ok out, t)
      → (gates cfg || maps_roles cfg) ≡ true
      → IsEntitled out.products × (out.silo_role ≡ role_of cfg api ui out.products)
  unfolding entitled
  entitled_sound claims out s t h wanted =
      let (client_id, s₁, resolved, h₁) = bind-eq-ok (resolve_client cfg api ui) _ s out t h in
      let (products, s₂, owned, h₂) =
        bind-eq-ok (owned_products cfg api ui client_id) _ s₁ out t h₁ in
      let (discord, s₃, fetched, h₃) = bind-eq-ok (discord_id cfg api ui client_id) _ s₂ out t h₂ in
      let (same, _) =
        pure-eq-ok
          (record claims {
            products = products;
            discord_id = discord;
            silo_role = role_of cfg api ui products;
          })
          s₃ out t h₃ in
      let listed : products ≡ out.products = ap (λ c. c.products) same in
      let role : role_of cfg api ui products ≡ out.silo_role = ap (λ c. c.silo_role) same in
      (
        subst IsEntitled listed (owned_products_sound client_id products s₁ s₂ owned wanted),
        sym role ∙ ap (role_of cfg api ui) listed,
      )

module _ {S : Type 0} (cfg : Config) (api : Option (EntitlementApi S)) (ui : UserInfo) where
  -- Where products or roles are configured, an answer that lets the user in rests on an answer of WHMCS
  -- for one client: the client's active products, which the claims list, pass the gate, and give the
  -- role.
  pub record IsGranted (r : AuthenticateResponse) : Type 0 where
    pub client : EntitlementApi S
    pub present : api ≡ some client
    pub entitled : IsEntitled cfg client ui r.claims.products
    pub role : r.claims.silo_role ≡ role_of cfg client ui r.claims.products

  with_api_sound :
      (a : Option (EntitlementApi S)) (claims out : Claims) (s t : Session S)
      → with_api cfg api ui a claims s ≡ (ok out, t)
      → (client : EntitlementApi S) × (a ≡ some client)
        × (entitled cfg client ui claims s ≡ (ok out, t))
  with_api_sound none claims out s t h = cc
  with_api_sound (some client) claims out s t h = (client, refl, h)

  evaluated_sound :
      (claims out : Claims) (s t : Session S)
      → evaluated cfg api ui claims s ≡ (ok out, t)
      → (gates cfg || maps_roles cfg) ≡ true
      → (client : EntitlementApi S) × (api ≡ some client)
        × (entitled cfg client ui claims s ≡ (ok out, t))
  unfolding evaluated
  evaluated_sound claims out s t h wanted =
      let needed : (gates cfg || maps_roles cfg || cfg.fetch_discord_id) ≡ true = ground arith in
      with_api_sound api claims out s t (rw needed at h)

  -- The answer that is made of the claims.
  abbrev answer : Claims → AuthenticateResponse
  answer claims = record {
    external_subject = ui.sub;
    display_name = ui.name;
    email = ui.email;
    claims = claims;
  }

  build_response_parts :
      (token : String) (r : AuthenticateResponse) (s t : Session S)
      → build_response cfg api ui token s ≡ (ok r, t)
      → (claims : Claims) × (u : Session S) × (evaluated cfg api ui
            (first_claims cfg api ui token)
            s
          ≡ (ok claims, u))
        × (answer claims ≡ r)
  unfolding build_response
  build_response_parts token r s t h =
      let (claims, u, e, h₁) =
        bind-eq-ok (evaluated cfg api ui (first_claims cfg api ui token)) _ s r t h in
      let (done, _) =
        pure-eq-ok (answer claims) (audit "allow" ui.email ui.sub "success" (text "") u).1 r t h₁ in
      (claims, u, e, done)

  pub build_response_sound :
      (token : String) (r : AuthenticateResponse) (s t : Session S)
      → build_response cfg api ui token s ≡ (ok r, t)
      → (gates cfg || maps_roles cfg) ≡ true
      → IsGranted r
  build_response_sound token r s t h wanted =
      let (claims, u, e, done) = build_response_parts token r s t h in
      let (client, present, granted) =
        evaluated_sound (first_claims cfg api ui token) claims s u e wanted in
      let (products, role) =
        entitled_sound cfg client ui (first_claims cfg api ui token) claims s u granted wanted in
      subst IsGranted done
        (record { client = client; present = present; entitled = products; role = role })

  pub build_response-subject :
      (token : String) (r : AuthenticateResponse) (s t : Session S)
      → build_response cfg api ui token s ≡ (ok r, t)
      → r.external_subject ≡ ui.sub
  build_response-subject token r s t h =
      let (claims, u, e, done) = build_response_parts token r s t h in
      sym (ap (λ x. x.external_subject) done)
