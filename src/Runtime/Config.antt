-- ===== src/Runtime/Config.antt =====
-- `Config`, `ClaimRoleMap`, `ValidateConfig` and `parsePositiveID` (internal/runtime/runtime.go).
use continuum_plugin_whmcs_l.Prelude.{
  ℕ, ◌+◌, String, Bool, false, ◌&&◌, not, List, [], ◌∷◌, none, some, Slice, ◌==◌, Result, ok, err,
  ◌>>=◌, ◌>>◌, map_err, if◌then◌else◌,
}
use continuum_plugin_whmcs_l.Prelude.Int.{ℤ, is_positive}
use continuum_plugin_whmcs_l.Text.{trim_space}
use continuum_plugin_whmcs_l.Decimal.{atoi, itoa}
use continuum_plugin_whmcs_l.Runtime.Url.{Platform, UrlError, validate_server_url}

pub record ClaimRoleMap : Type 0 where
  pub product_id : String
  pub role : String

pub record Config : Type 0 where
  pub database_url : String
  pub whmcs_server_url : String
  pub client_id : String
  pub client_secret : String
  pub display_name : String
  pub icon_url_path : String
  pub allowed_product_ids : Slice String
  pub whmcs_admin_api_id : String
  pub whmcs_admin_api_secret : String
  pub fetch_discord_id : Bool
  pub discord_id_custom_field : String
  pub claim_role_mapping : Slice ClaimRoleMap
  pub link_by_email : Bool

-- `Config{}`
abbrev pub zero_config : Config
zero_config = record {
  database_url = "";
  whmcs_server_url = "";
  client_id = "";
  client_secret = "";
  display_name = "";
  icon_url_path = "";
  allowed_product_ids = none;
  whmcs_admin_api_id = "";
  whmcs_admin_api_secret = "";
  fetch_discord_id = false;
  discord_id_custom_field = "";
  claim_role_mapping = none;
  link_by_email = false;
}

pub data IdError : Type 0 where
  required not_positive : IdError

-- The numbers are the positions that the messages show.
pub data ConfigError : Type 0 where
  server_url : UrlError → ConfigError
  mapping_product_id : ℕ → IdError → ConfigError
  mapping_role : ℕ → String → ConfigError
  allowed_product : IdError → ConfigError
  mapping_not_object : ℕ → ConfigError
  mapping_json : ConfigError

unfoldable pub parse_positive_id : String → Result IdError ℤ
parse_positive_id raw =
    let s = trim_space raw in
    if s == "" then err required else elim (atoi s) [
      | none ↦ err not_positive
      | some n ↦ if is_positive n then ok n else err not_positive
    ]

-- One round of the loop over the mappings: the entry with its product id rewritten.
unfoldable pub validate_mapping : ℕ → ClaimRoleMap → Result ConfigError ClaimRoleMap
validate_mapping i m = do
  n ← map_err (mapping_product_id i) (parse_positive_id m.product_id)
  if not (m.role == "user") && not (m.role == "admin")
      then err (mapping_role i m.role)
      else ok (record { product_id = itoa n; role = m.role })

unfoldable pub validate_mappings : ℕ → List ClaimRoleMap → Result ConfigError (List ClaimRoleMap)
validate_mappings i [] = ok []
validate_mappings i (m ∷ ms) =
    let rest : Result ConfigError (List ClaimRoleMap) = validate_mappings (i + 1) ms in
    validate_mapping i m >>= λ m'. rest >>= λ ms'. ok (m' ∷ ms')

unfoldable pub validate_slice : Slice ClaimRoleMap → Result ConfigError (Slice ClaimRoleMap)
validate_slice none = ok none
validate_slice (some ms) = validate_mappings 0 ms >>= λ ms'. ok (some ms')

-- An empty server URL is not checked.
unfoldable pub check_server : Platform → String → Result ConfigError (Unit {0})
check_server net url = if url == "" then ok tt else map_err server_url (validate_server_url net url)

-- The source writes the product ids through the pointer; here the changed configuration is the result.
unfoldable pub validate_config : Platform → Config → Result ConfigError Config
validate_config net cfg = do
  check_server net cfg.whmcs_server_url
  mapping ← validate_slice cfg.claim_role_mapping
  ok (record cfg { claim_role_mapping = mapping })
