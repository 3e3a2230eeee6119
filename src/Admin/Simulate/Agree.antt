-- ===== src/Admin/Simulate/Agree.antt =====
-- The simulated login against the evaluation of a login.
use continuum_plugin_whmcs_l.Prelude.{
  String, true, false, ◌&&◌, ◌||◌, not, List, [], ◌∷◌, Option, none, some, elems, ◌==◌, Result, ok,
  err, ◌≡◌, ◌≢◌, refl, sym, ap, ◌∙◌, subst, arith, eq_iff, inl, inr, Bool-cases, Result-cases,
  if◌then◌else◌,
}
use continuum_plugin_whmcs_l.Text.{trim_space}
use continuum_plugin_whmcs_l.Runtime.Config.{Config}
use continuum_plugin_whmcs_l.Whmcs.Http.{WhmcsError}
use continuum_plugin_whmcs_l.Whmcs.Oauth.{UserInfo}
use continuum_plugin_whmcs_l.Whmcs.Types.{ClientDetails, EntitlementApi}
use continuum_plugin_whmcs_l.Auth.Products.{active_product_ids, any_match}
use continuum_plugin_whmcs_l.Auth.Types.{
  AuthError, product_gate, products_failed, AuthenticateResponse,
}
use continuum_plugin_whmcs_l.Auth.Respond.{
  Session, gates, maps_roles, outside, audit, deny, resolve_client, check_gate, owned_products,
  discord_id, discord_of, non_empty, role_of, entitled, evaluated, build_response, field_value,
}
use continuum_plugin_whmcs_l.Admin.Body.{SimulateRequest, no_request}
use continuum_plugin_whmcs_l.Admin.Simulate.{
  Simulation, Verdict, refused, verdict, products_lookup_failed, preview, gate_passed, shown_role,
  verdict_of, discord_text, or_empty, judge, by_name, simulate,
}

-- The claim of a role: none without an active product.
abbrev pub claimed_role : List String → String → Option String
claimed_role [] role = none
claimed_role (p ∷ ps) role = some role

-- The claim of a Discord id: an empty one is no claim.
abbrev pub claimed_discord : Option String → Option String
claimed_discord none = none
claimed_discord (some id) = if id == "" then none else some id

-- The two say the same: both fail with the error of the products, or the gate keeps the client out in
-- both, or it lets the client in with the same products, role and Discord id.
pub data Agrees : Simulation → Result AuthError AuthenticateResponse → Type 0 where
  failed : (e : WhmcsError) → Agrees (refused (products_lookup_failed e)) (err (products_failed e))
  kept_out : (v : Verdict) → v.passed ≡ false → Agrees (verdict v) (err product_gate)
  let_in :
      (v : Verdict) (r : AuthenticateResponse)
      → v.passed ≡ true
      → r.claims.products ≡ some v.owned_active
      → r.claims.silo_role ≡ claimed_role v.owned_active v.role
      → r.claims.discord_id ≡ claimed_discord v.discord_id
      → Agrees (verdict v) (ok r)

gate_passed-gates :
    (cfg : Config) (owned : List String)
    → gate_passed (elems cfg.allowed_product_ids) owned
      ≡ not (gates cfg && not (any_match (elems cfg.allowed_product_ids) owned))
unfolding gate_passed
gate_passed-gates cfg owned = ground arith

-- The simulation asks for the client of the login.
abbrev pub request_for : String → SimulateRequest
request_for client_id = record no_request { client_id = client_id }

trim_empty : trim_space "" ≡ ""
unfolding trim_space
trim_empty = refl

module _ {S T : Type 0} (cfg : Config) (api : EntitlementApi S) (fresh : EntitlementApi T)
    (ui : UserInfo) where
  simulate-judge :
      (w : T)
      → ui.id ≢ ""
      → trim_space ui.id ≡ ui.id
      → cfg.whmcs_admin_api_id ≢ ""
      → cfg.whmcs_admin_api_secret ≢ ""
      → simulate (some (λ c. some fresh)) cfg (request_for ui.id) w
        ≡ judge fresh (preview cfg (request_for ui.id)) none ui.id w
  unfolding simulate by_name
  simulate-judge w known trimmed has_id has_secret =
      let given : (ui.id == "") ≡ false = ground (arith, eq_iff ui.id "") in
      let set_id : (cfg.whmcs_admin_api_id == "") ≡ false =
        ground (arith, eq_iff cfg.whmcs_admin_api_id "") in
      let set_secret : (cfg.whmcs_admin_api_secret == "") ≡ false =
        ground (arith, eq_iff cfg.whmcs_admin_api_secret "") in
      rw (trim_empty, trimmed, given, set_id, set_secret) refl

  role-claimed :
      (owned : List String)
      → role_of cfg api ui (some owned)
        ≡ claimed_role owned (shown_role owned (elems cfg.claim_role_mapping))
  unfolding shown_role
  role-claimed [] = refl
  role-claimed (p ∷ ps) = refl

  non_empty-claimed :
      (o : Option String) → non_empty cfg api ui o ≡ claimed_discord (some (or_empty o))
  non_empty-claimed none = refl
  non_empty-claimed (some id) = refl

  discord-claimed :
      (d : Result WhmcsError ClientDetails)
      → discord_of cfg api ui d
        ≡ claimed_discord (some (discord_text true cfg.discord_id_custom_field d))
  discord-claimed (err e) = refl
  discord-claimed (ok d) =
      non_empty-claimed (field_value cfg.discord_id_custom_field d.custom_fields)

  -- The admin API answers the two alike: the same products, and then the same details.
  pub record AnswersAlike (s : S) (v : T) : Type 0 where
    pub products : (api.get_clients_products ui.id s).0 ≡ (fresh.get_clients_products ui.id v).0
    pub details :
        (api.get_clients_details ui.id (api.get_clients_products ui.id s).1).0
        ≡ (fresh.get_clients_details ui.id (fresh.get_clients_products ui.id v).1).0

  judge-Agrees :
      (token : String) (s : Session S) (v : T)
      → AnswersAlike s.world v
      → ui.id ≢ ""
      → (gates cfg || maps_roles cfg) ≡ true
      → cfg.discord_id_custom_field ≢ ""
      → Agrees
          (judge fresh (preview cfg (request_for ui.id)) none ui.id v).0
          (build_response cfg (some api) ui token s).0
  unfolding build_response evaluated entitled resolve_client owned_products check_gate discord_id
      judge verdict_of preview shown_role outside audit deny
  judge-Agrees token s v alike known wanted named =
      let id : (ui.id == "") ≡ false = ground (arith, eq_iff ui.id "") in
      let field : (cfg.discord_id_custom_field == "") ≡ false =
        ground (arith, eq_iff cfg.discord_id_custom_field "") in
      let needed : (gates cfg || maps_roles cfg || cfg.fetch_discord_id) ≡ true = ground arith in
      elim (Result-cases (api.get_clients_products ui.id s.world).0) [
        | inr (e, bad) ↦
            let fresh_bad = sym alike.products ∙ bad in
            rw (needed, id, wanted, bad, fresh_bad) (failed e)
        | inl (prods, given) ↦
            let owned = active_product_ids prods in
            let fresh_given = sym alike.products ∙ given in
            elim (Bool-cases (gates cfg && not (any_match (elems cfg.allowed_product_ids) owned))) [
              | inl closed ↦
                  rw (needed, id, wanted, given, fresh_given, closed)
                    (kept_out _ (gate_passed-gates cfg owned ∙ ap not closed))
              | inr opened ↦
                  let passes = gate_passed-gates cfg owned ∙ ap not opened in
                  elim (Bool-cases cfg.fetch_discord_id) [
                    | inr off ↦
                        rw (needed, id, wanted, given, fresh_given, opened, off)
                          (let_in _ _ passes refl (role-claimed owned) refl)
                    | inl on ↦
                        rw
                          (needed, id, wanted, given, fresh_given, opened, on, field, alike.details)
                          (let_in _ _ passes refl (role-claimed owned) (discord-claimed _))
                  ]
            ]
      ]

  -- With credentials for the admin API, a setting for products or roles and a Discord field that has a
  -- name: where the admin API answers the client that the simulation makes as it answers the client of the
  -- login, through whatever caches that goes, the simulation for the client id of a user, with the live
  -- settings, says what the login of that user comes to: the same failure, the same verdict of the gate, the
  -- same products, role and Discord id.
  pub simulate-Agrees :
      (token : String) (s : Session S) (v : T)
      → AnswersAlike s.world v
      → ui.id ≢ ""
      → trim_space ui.id ≡ ui.id
      → cfg.whmcs_admin_api_id ≢ ""
      → cfg.whmcs_admin_api_secret ≢ ""
      → (gates cfg || maps_roles cfg) ≡ true
      → cfg.discord_id_custom_field ≢ ""
      → Agrees
          (simulate (some (λ c. some fresh)) cfg (request_for ui.id) v).0
          (build_response cfg (some api) ui token s).0
  simulate-Agrees token s v alike known trimmed has_id has_secret wanted named =
      subst (λ x. Agrees x.0 (build_response cfg (some api) ui token s).0)
        (sym (simulate-judge v known trimmed has_id has_secret))
        (judge-Agrees token s v alike known wanted named)
