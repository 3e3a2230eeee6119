-- ===== src/Admin/Summary.antt =====
-- `HandleConfigSummary` (internal/admin/server.go): the live configuration as the admins see it.
pub mod Laws
use continuum_plugin_whmcs_l.Prelude.{
  String, Bool, not, List, [], ◌∷◌, Option, none, some, Slice, elems, ◌==◌,
}
use continuum_plugin_whmcs_l.Prelude.Int.{ℤ}
use continuum_plugin_whmcs_l.Decimal.{atoi}
use continuum_plugin_whmcs_l.Runtime.Config.{Config, ClaimRoleMap}

pub record Summary : Type 0 where
  pub whmcs_server_url : String
  pub client_id : String
  pub has_client_secret : Bool
  pub icon_url_path : String
  pub display_name : String
  pub whmcs_admin_api_id : String
  pub has_whmcs_admin_api_secret : Bool
  pub allowed_product_ids : List ℤ
  pub claim_role_mapping : Slice ClaimRoleMap
  pub fetch_discord_id : Bool
  pub discord_id_custom_field : String
  pub link_by_email : Bool

-- The loop that makes `intIDs`: what is no number is left out.
unfoldable pub int_ids : List String → List ℤ
int_ids [] = []
int_ids (p ∷ ps) = elim (atoi p) [ none ↦ int_ids ps | some n ↦ n ∷ int_ids ps ]

unfoldable pub config_summary : Config → Summary
config_summary cfg = record {
  whmcs_server_url = cfg.whmcs_server_url;
  client_id = cfg.client_id;
  has_client_secret = not (cfg.client_secret == "");
  icon_url_path = cfg.icon_url_path;
  display_name = cfg.display_name;
  whmcs_admin_api_id = cfg.whmcs_admin_api_id;
  has_whmcs_admin_api_secret = not (cfg.whmcs_admin_api_secret == "");
  allowed_product_ids = int_ids (elems cfg.allowed_product_ids);
  claim_role_mapping = cfg.claim_role_mapping;
  fetch_discord_id = cfg.fetch_discord_id;
  discord_id_custom_field = cfg.discord_id_custom_field;
  link_by_email = cfg.link_by_email;
}
