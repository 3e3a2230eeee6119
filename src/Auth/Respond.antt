-- ===== src/Auth/Respond.antt =====
-- `buildResponse` and `audit` (internal/auth/server.go): the entitlement evaluation that the code
-- exchange and the session refresh share.
pub mod Gate
pub mod Trace
pub mod Subject
pub mod Discord
use continuum_plugin_whmcs_l.Prelude.{
  String, ◌<>◌, Bool, true, false, ◌&&◌, ◌||◌, not, List, [], ◌∷◌, ◌++◌, Option, none, some, elems,
  is_empty, ◌==◌, Result, ok, err, map_err, if◌then◌else◌,
}
use continuum_plugin_whmcs_l.Prelude.Steps.{Steps, pure, fail, modify, ◌>>=◌, ◌>>◌}
use continuum_plugin_whmcs_l.Text.{trim_space}
use continuum_plugin_whmcs_l.Runtime.Config.{Config}
use continuum_plugin_whmcs_l.Whmcs.Http.{WhmcsError}
use continuum_plugin_whmcs_l.Whmcs.Oauth.{UserInfo}
use continuum_plugin_whmcs_l.Whmcs.Types.{Client, ClientProduct, ClientDetails, EntitlementApi}
use continuum_plugin_whmcs_l.Auth.Products.{active_product_ids, any_match, role_from_products}
use continuum_plugin_whmcs_l.Auth.Types.{
  AuthError, admin_api_required, no_client_info, no_client_found, product_gate, client_failed,
  products_failed, Claims, AuthenticateResponse, AuditLine, Detail, text,
}

-- The state of the outside world and the audit lines so far.
pub record Session (S : Type 0) : Type 0 where
  pub world : S
  pub log : List AuditLine

abbrev pub AuthSteps : Type 0 → Type 0 → Type 0
AuthSteps S A = Steps (Session S) AuthError A

-- The fields that decide on the call of the admin API.
abbrev pub gates : Config → Bool
gates cfg = not (is_empty (elems cfg.allowed_product_ids))

abbrev pub maps_roles : Config → Bool
maps_roles cfg = not (is_empty (elems cfg.claim_role_mapping))

-- `cd.CustomFields[name]`, in a map that has each name once.
unfoldable pub field_value : String → List (String × String) → Option String
field_value name [] = none
field_value name ((k, v) ∷ fields) = if k == name then some v else field_value name fields

module _ {S : Type 0} where
  -- A step of the outside world, with its error wrapped.
  unfoldable pub outside :
      {A : Type 0} → (WhmcsError → AuthError) → Steps S WhmcsError A → AuthSteps S A
  outside wrap m s = let (r, world) = m s.world in (map_err wrap r, record s { world = world })

  unfoldable pub audit : String → String → String → String → Detail → AuthSteps S (Unit {0})
  audit decision email subject reason detail = modify λ s. record s {
    log =
        s.log
        ++ (record {
          decision = decision;
          email = email;
          subject = subject;
          reason = reason;
          detail = detail;
        }
            ∷ []);
  }

  -- A line of the log and the error that goes with it.
  unfoldable pub deny : {A : Type 0} → UserInfo → String → Detail → AuthError → AuthSteps S A
  unfolding audit
  deny ui reason detail e = audit "deny" ui.email ui.sub reason detail >> fail e

module _ {S : Type 0} (cfg : Config) (api : EntitlementApi S) (ui : UserInfo) where
  -- `client == nil || client.ID == ""`
  unfoldable pub found_client : Option Client → AuthSteps S String
  unfolding deny
  found_client none = deny ui "no-client" (text "no WHMCS client found for email") no_client_found
  found_client (some client) =
      if client.id == ""
      then deny ui "no-client" (text "no WHMCS client found for email") no_client_found
      else pure client.id

  -- The client id of userinfo, or else the one found by email.
  unfoldable pub resolve_client : AuthSteps S String
  unfolding deny outside found_client
  resolve_client =
      if not (ui.id == "")
      then pure ui.id
      else if ui.email == ""
      then deny ui "no-client" (text "userinfo carried neither client id nor email") no_client_info
      else (outside client_failed (api.get_client_by_email ui.email) >>= found_client)

  -- The gate, on the products that the client owns and are active.
  unfoldable pub check_gate : String → List String → AuthSteps S (List String)
  unfolding deny
  check_gate client_id owned =
      if gates cfg && not (any_match (elems cfg.allowed_product_ids) owned)
      then deny ui "product-gate-failed"
          (text ("no allowed active product (client " <> client_id <> ")")) product_gate
      else pure owned

  -- The products, `none` where no setting asks for them.
  unfoldable pub owned_products : String → AuthSteps S (Option (List String))
  unfolding outside check_gate
  owned_products client_id =
      if gates cfg || maps_roles cfg
      then (do
        prods ← outside products_failed (api.get_clients_products client_id)
        owned ← check_gate client_id (active_product_ids prods)
        pure (some owned))
      else pure none

  -- `id, ok := cd.CustomFields[…]; ok && id != ""`
  abbrev pub non_empty : Option String → Option String
  non_empty none = none
  non_empty (some id) = if id == "" then none else some id

  abbrev pub discord_of : Result WhmcsError ClientDetails → Option String
  discord_of (ok details) =
      non_empty (field_value cfg.discord_id_custom_field details.custom_fields)
  discord_of (err e) = none

  -- A failure is logged for debugging, and is no failure of the login.
  unfoldable pub discord_id : String → AuthSteps S (Option String)
  unfolding field_value
  discord_id client_id s =
      if cfg.fetch_discord_id
      then (let (r, world) = api.get_clients_details client_id s.world in
          (ok (discord_of r), record s { world = world }))
      else (ok none, s)

  abbrev pub role_of : Option (List String) → Option String
  role_of none = none
  role_of (some []) = none
  role_of (some (p ∷ ps)) = some (role_from_products (p ∷ ps) (elems cfg.claim_role_mapping))

  unfoldable pub entitled : Claims → AuthSteps S Claims
  unfolding resolve_client owned_products discord_id
  entitled claims = do
    client_id ← resolve_client
    products ← owned_products client_id
    discord ← discord_id client_id
    pure (record claims { products = products; discord_id = discord; silo_role = role_of products })

module _ {S : Type 0} (cfg : Config) (api : Option (EntitlementApi S)) (ui : UserInfo) where
  abbrev pub first_claims : String → Claims
  first_claims refresh_token = record {
    raw_userinfo = ui;
    refresh_token =
        if trim_space refresh_token == "" then none else some (trim_space refresh_token);
    link_by_email = cfg.link_by_email;
    products = none;
    discord_id = none;
    silo_role = none;
  }

  abbrev pub with_api : Option (EntitlementApi S) → Claims → AuthSteps S Claims
  with_api none claims = fail admin_api_required
  with_api (some a) claims = entitled cfg a ui claims

  -- The evaluation is made only where some setting asks for it.
  unfoldable pub evaluated : Claims → AuthSteps S Claims
  unfolding entitled
  evaluated claims =
      if gates cfg || maps_roles cfg || cfg.fetch_discord_id
      then with_api api claims
      else pure claims

  unfoldable pub build_response : String → AuthSteps S AuthenticateResponse
  unfolding evaluated audit
  build_response refresh_token = do
    claims ← evaluated (first_claims refresh_token)
    audit "allow" ui.email ui.sub "success" (text "")
    pure (record {
      external_subject = ui.sub;
      display_name = ui.name;
      email = ui.email;
      claims = claims;
    })
