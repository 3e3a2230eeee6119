-- ===== src/Admin/Body.antt =====
-- The bodies of the admin's requests (internal/admin/server.go), as encoding/json decodes them.
use continuum_plugin_whmcs_l.Prelude.{String, Bool, false, List, [], ◌∷◌, Option, none, some}
use continuum_plugin_whmcs_l.Prelude.Int.{ℤ, pos}
use continuum_plugin_whmcs_l.Json.{
  Value, null, arr, obj, Values, nil, cons, Members, Store, store_string, store_bool, store_int,
  string_field, field_with, pointer_to, ◌>>=◌ as ◌>>=?◌,
}
use continuum_plugin_whmcs_l.Runtime.Config.{ClaimRoleMap}
use continuum_plugin_whmcs_l.Runtime.Load.{decode_entries}
use continuum_plugin_whmcs_l.Admin.Update.{Patch}

-- The elements of a `[]int`; `null` leaves the zero value.
unfoldable pub decode_ints : Values → Option (List ℤ)
unfolding store_int
decode_ints nil = some []
decode_ints (cons v vs) =
    let rest : Option (List ℤ) = decode_ints vs in
    store_int v (pos 0) >>=? λ n. rest >>=? λ ns. some (n ∷ ns)

-- `json.Unmarshal` into a slice that is not nil afterwards. Where a member is repeated, encoding/json
-- decodes into the elements that the first one left, which keep the fields that the second does not name;
-- here they start from zero values.
abbrev pub store_ints : Store (List ℤ)
store_ints (arr vs) acc = decode_ints vs
store_ints v acc = none

abbrev pub store_maps : Store (List ClaimRoleMap)
store_maps (arr vs) acc = decode_entries vs
store_maps v acc = none

abbrev pub text_field : String → Members → Option (Option String)
text_field name = field_with (pointer_to store_string "") name none

abbrev pub flag_field : String → Members → Option (Option Bool)
flag_field name = field_with (pointer_to store_bool false) name none

abbrev pub ints_field : String → Members → Option (Option (List ℤ))
ints_field name = field_with (pointer_to store_ints []) name none

abbrev pub maps_field : String → Members → Option (Option (List ClaimRoleMap))
maps_field name = field_with (pointer_to store_maps []) name none

abbrev pub no_patch : Patch
no_patch = record {
  whmcs_server_url = none;
  client_id = none;
  display_name = none;
  icon_url_path = none;
  allowed_product_ids = none;
  whmcs_admin_api_id = none;
  fetch_discord_id = none;
  discord_id_custom_field = none;
  claim_role_mapping = none;
  link_by_email = none;
}

unfoldable pub patch_members : Members → Option Patch
unfolding field_with decode_ints
patch_members m = text_field "whmcs_server_url" m >>=? λ whmcs_server_url.
    text_field "client_id" m >>=? λ client_id. text_field "display_name" m >>=? λ display_name.
    text_field "icon_url_path" m >>=? λ icon_url_path.
    ints_field "allowed_product_ids" m >>=? λ allowed_product_ids.
    text_field "whmcs_admin_api_id" m >>=? λ whmcs_admin_api_id.
    flag_field "fetch_discord_id" m >>=? λ fetch_discord_id.
    text_field "discord_id_custom_field" m >>=? λ discord_id_custom_field.
    maps_field "claim_role_mapping" m >>=? λ claim_role_mapping.
    flag_field "link_by_email" m >>=? λ link_by_email. some (record {
      whmcs_server_url = whmcs_server_url;
      client_id = client_id;
      display_name = display_name;
      icon_url_path = icon_url_path;
      allowed_product_ids = allowed_product_ids;
      whmcs_admin_api_id = whmcs_admin_api_id;
      fetch_discord_id = fetch_discord_id;
      discord_id_custom_field = discord_id_custom_field;
      claim_role_mapping = claim_role_mapping;
      link_by_email = link_by_email;
    })

-- The decoding of a body; the first argument is what is made of an object, the second the zero value.
abbrev pub decode_body {ℓ} : {A : Type ℓ} → (Members → Option A) → A → Option Value → Option A
decode_body members zero_value (some (obj m)) = members m
decode_body members zero_value (some null) = some zero_value
decode_body members zero_value _ = none

abbrev pub decode_patch : Option Value → Option Patch
decode_patch = decode_body patch_members no_patch

-- `simulateLoginReq`
pub record SimulateRequest : Type 0 where
  pub email : String
  pub client_id : String
  pub allowed_product_ids : Option (List ℤ)
  pub claim_role_mapping : Option (List ClaimRoleMap)
  pub fetch_discord_id : Option Bool

abbrev pub no_request : SimulateRequest
no_request = record {
  email = "";
  client_id = "";
  allowed_product_ids = none;
  claim_role_mapping = none;
  fetch_discord_id = none;
}

unfoldable pub request_members : Members → Option SimulateRequest
unfolding field_with decode_ints
request_members m = string_field "email" "" m >>=? λ email.
    string_field "client_id" "" m >>=? λ client_id.
    ints_field "allowed_product_ids" m >>=? λ allowed_product_ids.
    maps_field "claim_role_mapping" m >>=? λ claim_role_mapping.
    flag_field "fetch_discord_id" m >>=? λ fetch_discord_id. some (record {
      email = email;
      client_id = client_id;
      allowed_product_ids = allowed_product_ids;
      claim_role_mapping = claim_role_mapping;
      fetch_discord_id = fetch_discord_id;
    })

abbrev pub decode_simulate_request : Option Value → Option SimulateRequest
decode_simulate_request = decode_body request_members no_request
