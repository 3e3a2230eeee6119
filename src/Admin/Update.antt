-- ===== src/Admin/Update.antt =====
-- `HandleUpdateConfig` (internal/admin/server.go), behind the decoding of its body.
use continuum_plugin_whmcs_l.Prelude.{String, Bool, List, [], ◌∷◌, ◌++◌, map, Option, none, some}
use continuum_plugin_whmcs_l.Prelude.Int.{ℤ}
use continuum_plugin_whmcs_l.Text.{trim_space, trim_right_slash}
use continuum_plugin_whmcs_l.Decimal.{itoa}
use continuum_plugin_whmcs_l.Runtime.Config.{ClaimRoleMap, Config}

-- The body: the fields that are there and not `null`.
pub record Patch : Type 0 where
  pub whmcs_server_url : Option String
  pub client_id : Option String
  pub display_name : Option String
  pub icon_url_path : Option String
  pub allowed_product_ids : Option (List ℤ)
  pub whmcs_admin_api_id : Option String
  pub fetch_discord_id : Option Bool
  pub discord_id_custom_field : Option String
  pub claim_role_mapping : Option (List ClaimRoleMap)
  pub link_by_email : Option Bool

-- `if req.F != nil { cur.F = f(*req.F) }`
abbrev pub changed {ℓ κ} : {A : Type ℓ} {B : Type κ} → (A → B) → B → Option A → B
changed f old none = old
changed f old (some a) = f a

unfoldable pub apply_patch : Patch → Config → Config
apply_patch req cur = record cur {
  whmcs_server_url =
      changed (λ s. trim_right_slash (trim_space s)) cur.whmcs_server_url req.whmcs_server_url;
  client_id = changed trim_space cur.client_id req.client_id;
  display_name = changed trim_space cur.display_name req.display_name;
  icon_url_path = changed trim_space cur.icon_url_path req.icon_url_path;
  allowed_product_ids =
      changed (λ ids. some (map itoa ids)) cur.allowed_product_ids req.allowed_product_ids;
  whmcs_admin_api_id = changed trim_space cur.whmcs_admin_api_id req.whmcs_admin_api_id;
  fetch_discord_id = changed (λ b. b) cur.fetch_discord_id req.fetch_discord_id;
  discord_id_custom_field =
      changed trim_space cur.discord_id_custom_field req.discord_id_custom_field;
  claim_role_mapping = changed (λ ms. some ms) cur.claim_role_mapping req.claim_role_mapping;
  link_by_email = changed (λ b. b) cur.link_by_email req.link_by_email;
  database_url = "";
}

-- The names that the audit line lists.
abbrev pub named {ℓ} : {A : Type ℓ} → String → Option A → List String
named name none = []
named name (some a) = name ∷ []

unfoldable pub patched_fields : Patch → List String
patched_fields req =
    named "whmcs_server_url" req.whmcs_server_url
    ++ (named "client_id" req.client_id
        ++ (named "display_name" req.display_name
            ++ (named "icon_url_path" req.icon_url_path
                ++ (named "allowed_product_ids" req.allowed_product_ids
                    ++ (named "whmcs_admin_api_id" req.whmcs_admin_api_id
                        ++ (named "fetch_discord_id" req.fetch_discord_id
                            ++ (named "discord_id_custom_field" req.discord_id_custom_field
                                ++ (named "claim_role_mapping" req.claim_role_mapping
                                    ++ named "link_by_email" req.link_by_email))))))))
