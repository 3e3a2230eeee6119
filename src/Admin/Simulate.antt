-- ===== src/Admin/Simulate.antt =====
-- `HandleSimulateLogin` (internal/admin/server.go): the entitlement evaluation of a login, replayed for
-- a client that the admin names.
pub mod Agree
use continuum_plugin_whmcs_l.Prelude.{
  ℕ, String, Bool, true, false, ◌&&◌, ◌||◌, not, List, [], ◌∷◌, map, Option, none, some, Slice,
  elems, is_empty, length, any, ◌==◌, Result, ok, err, if◌then◌else◌,
}
use continuum_plugin_whmcs_l.Prelude.Int.{ℤ}
use continuum_plugin_whmcs_l.Text.{trim_space, equal_fold}
use continuum_plugin_whmcs_l.Decimal.{itoa}
use continuum_plugin_whmcs_l.Json.{Value}
use continuum_plugin_whmcs_l.Runtime.Config.{Config, ClaimRoleMap}
use continuum_plugin_whmcs_l.Whmcs.Http.{WhmcsError}
use continuum_plugin_whmcs_l.Whmcs.Types.{Client, ClientProduct, ClientDetails, EntitlementApi}
use continuum_plugin_whmcs_l.Auth.Products.{
  is_active, active_product_ids, any_match, role_from_products,
}
use continuum_plugin_whmcs_l.Auth.Respond.{field_value}
use continuum_plugin_whmcs_l.Admin.Body.{SimulateRequest, decode_simulate_request}

-- `productRow`
pub record ProductRow : Type 0 where
  pub pid : ℤ
  pub name : String
  pub status : String
  pub active : Bool
  pub allowed : Bool
  pub role_hit : String

-- The members of the answer `resp`; `none` is a key that is not set. "allowed" and "passed" are one
-- value. Of the details, only the four names that the answer has are shown.
pub record Verdict : Type 0 where
  pub passed : Bool
  pub role : String
  pub client_id : String
  pub products : List ProductRow
  pub owned_active : List String
  pub required : Bool
  pub allow_set : Slice String
  pub role_mapping_count : ℕ
  pub resolved : Option Client
  pub client_details : Option ClientDetails
  pub client_details_error : Option WhmcsError
  pub discord_id : Option String

-- The answers that are no verdict: two with status 400, and those with status 200 and a reason.
pub data Refusal : Type 0 where
  invalid_body no_client_named : Refusal
  credentials_missing client_unavailable client_not_found : Refusal
  client_lookup_failed products_lookup_failed : WhmcsError → Refusal

pub data Simulation : Type 0 where
  refused : Refusal → Simulation
  verdict : Verdict → Simulation

-- `statusLabel`
unfoldable pub status_label : Option String → String
status_label none = "(unspecified)"
status_label (some status) =
    if equal_fold (trim_space status) "Active"
    then trim_space status
    else if trim_space status == ""
    then "(empty)"
    else trim_space status

-- The loop for `roleHit`: the role of the first mapping of the product to a known role.
unfoldable pub role_hit : String → List ClaimRoleMap → String
role_hit pid [] = ""
role_hit pid (m ∷ ms) =
    let rest = role_hit pid ms in
    if m.product_id == pid && (m.role == "admin" || m.role == "user") then m.role else rest

-- The loop for `inAllowed`.
abbrev pub in_allowed : String → List String → Bool
in_allowed pid allowed = any (λ a. a == pid) allowed

unfoldable pub product_row : List String → List ClaimRoleMap → ClientProduct → ProductRow
unfolding status_label role_hit is_active
product_row allowed mapping p = record {
  pid = p.pid;
  name = p.name;
  status = status_label p.status;
  active = is_active p.status;
  allowed = if is_active p.status then in_allowed (itoa p.pid) allowed else false;
  role_hit = if is_active p.status then role_hit (itoa p.pid) mapping else "";
}

-- The settings of the page: the live ones, and what the request has in their place.
pub record Preview : Type 0 where
  pub allowed : Slice String
  pub mapping : Slice ClaimRoleMap
  pub fetch_discord : Bool
  pub field : String

abbrev pub instead {ℓ κ} : {A : Type ℓ} {B : Type κ} → (A → B) → B → Option A → B
instead f live none = live
instead f live (some a) = f a

unfoldable pub preview : Config → SimulateRequest → Preview
preview cfg req = record {
  allowed = instead (λ ids. some (map itoa ids)) cfg.allowed_product_ids req.allowed_product_ids;
  mapping = instead (λ ms. some ms) cfg.claim_role_mapping req.claim_role_mapping;
  fetch_discord = instead (λ b. b) cfg.fetch_discord_id req.fetch_discord_id;
  field = if cfg.discord_id_custom_field == "" then "Discord ID" else cfg.discord_id_custom_field;
}

-- `gatePassed`
unfoldable pub gate_passed : List String → List String → Bool
gate_passed allowed owned = if is_empty allowed then true else any_match allowed owned

-- `role`
unfoldable pub shown_role : List String → List ClaimRoleMap → String
shown_role [] mapping = "user"
shown_role (p ∷ ps) mapping = role_from_products (p ∷ ps) mapping

abbrev pub or_empty : Option String → String
or_empty none = ""
or_empty (some s) = s

-- `discordID`
abbrev pub discord_text : Bool → String → Result WhmcsError ClientDetails → String
discord_text fetch field (err e) = ""
discord_text fetch field (ok cd) =
    if fetch then or_empty (field_value field cd.custom_fields) else ""

abbrev pub details_shown : Result WhmcsError ClientDetails → Option ClientDetails
details_shown (ok cd) = some cd
details_shown (err e) = none

abbrev pub details_error : Result WhmcsError ClientDetails → Option WhmcsError
details_error (ok cd) = none
details_error (err e) = some e

-- The answer, with the products and what the call for the details gave.
unfoldable pub verdict_of :
    Preview
    → Option Client
    → String
    → List ClientProduct
    → Result WhmcsError ClientDetails
    → Verdict
unfolding gate_passed shown_role active_product_ids product_row
verdict_of p resolved client_id prods details =
    let owned = active_product_ids prods in
    record {
      passed = gate_passed (elems p.allowed) owned;
      role = shown_role owned (elems p.mapping);
      client_id = client_id;
      products = map (product_row (elems p.allowed) (elems p.mapping)) prods;
      owned_active = owned;
      required = not (is_empty (elems p.allowed));
      allow_set = p.allowed;
      role_mapping_count = length (elems p.mapping);
      resolved = resolved;
      client_details = details_shown details;
      client_details_error = details_error details;
      discord_id =
          if p.fetch_discord then some (discord_text p.fetch_discord p.field details) else none;
    }

-- A step that always gives an answer.
module _ {S : Type 0} (api : EntitlementApi S) (p : Preview) where
  abbrev pub judged :
      Option Client → String → Result WhmcsError (List ClientProduct) → S → Simulation × S
  judged resolved client_id (err e) s = (refused (products_lookup_failed e), s)
  judged resolved client_id (ok prods) s =
      let (details, s') = api.get_clients_details client_id s in
      (verdict (verdict_of p resolved client_id prods details), s')

  -- The part behind the resolution of the client.
  unfoldable pub judge : Option Client → String → S → Simulation × S
  unfolding verdict_of
  judge resolved client_id s =
      let (prods, s') = api.get_clients_products client_id s in judged resolved client_id prods s'

  abbrev pub found : Result WhmcsError (Option Client) → S → Simulation × S
  found (err e) s = (refused (client_lookup_failed e), s)
  found (ok none) s = (refused client_not_found, s)
  found (ok (some c)) s =
      if c.id == "" then (refused client_not_found, s) else judge (some c) c.id s

  -- An email counts more than a client id here.
  unfoldable pub by_name : String → String → S → Simulation × S
  unfolding judge
  by_name email client_id s =
      let (c, s') = api.get_client_by_email email s in
      if not (email == "") then found c s' else judge none client_id s

module _ {S : Type 0} (factory : Option (Config → Option (EntitlementApi S))) (cfg : Config) where
  abbrev pub factory_client :
      Option (Config → Option (EntitlementApi S)) → Option (EntitlementApi S)
  factory_client none = none
  factory_client (some make) = make cfg

  abbrev pub no_factory : Option (Config → Option (EntitlementApi S)) → Bool
  no_factory none = true
  no_factory (some make) = false

  abbrev pub with_client : SimulateRequest → Option (EntitlementApi S) → S → Simulation × S
  with_client req none s = (refused client_unavailable, s)
  with_client req (some api) s =
      by_name api (preview cfg req) (trim_space req.email) (trim_space req.client_id) s

  unfoldable pub simulate : SimulateRequest → S → Simulation × S
  unfolding by_name preview
  simulate req s =
      if trim_space req.email == "" && trim_space req.client_id == ""
      then (refused no_client_named, s)
      else if no_factory factory || cfg.whmcs_admin_api_id == "" || cfg.whmcs_admin_api_secret == ""
      then (refused credentials_missing, s)
      else with_client req (factory_client factory) s

  -- The handler, with its body as JSON.
  unfoldable pub handle_simulate_login : Option Value → S → Simulation × S
  unfolding simulate
  handle_simulate_login body s = elim (decode_simulate_request body) [
    | none ↦ (refused invalid_body, s)
    | some req ↦ simulate req s
  ]
