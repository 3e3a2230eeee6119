-- ===== src/Whmcs/Types.antt =====
-- The data of the admin API (internal/whmcs/api.go) and the interface that the login flow uses
-- (`EntitlementAPI`, internal/auth/server.go).
use continuum_plugin_whmcs_l.Prelude.{String, List, Option}
use continuum_plugin_whmcs_l.Prelude.Int.{ℤ}
use continuum_plugin_whmcs_l.Prelude.Steps.{Steps}
use continuum_plugin_whmcs_l.Whmcs.Http.{WhmcsError}

pub record Product : Type 0 where
  pub pid : ℤ
  pub gid : ℤ
  pub name : String
  pub type_name : String
  pub pay_type : String
  pub group_name : String

-- The status is `none` where WHMCS left the field out.
pub record ClientProduct : Type 0 where
  pub pid : ℤ
  pub name : String
  pub status : Option String

pub record ClientDetails : Type 0 where
  pub id : String
  pub email : String
  pub first_name : String
  pub last_name : String
  pub custom_fields : List (String × String)

pub record Client : Type 0 where
  pub id : String
  pub email : String

-- A nil `*Client` is `none`; a nil slice of products is an empty one, which the callers do not tell
-- apart.
pub record EntitlementApi (S : Type 0) : Type 0 where
  pub get_client_by_email : String → Steps S WhmcsError (Option Client)
  pub get_clients_products : String → Steps S WhmcsError (List ClientProduct)
  pub get_clients_details : String → Steps S WhmcsError ClientDetails
