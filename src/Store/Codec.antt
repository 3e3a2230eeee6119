-- ===== src/Store/Codec.antt =====
-- `Config` as JSON, as encoding/json writes and reads it, and `reflect.DeepEqual` on it.
use continuum_plugin_whmcs_l.Prelude.{
  Bool, true, false, ◌&&◌, List, [], ◌∷◌, Option, none, some, Slice, ◌==◌, ◌≡◌, refl, not,
}
use continuum_plugin_whmcs_l.Json.{
  ◌>>=◌, Value, null, bool, str, obj, Values, nil, cons, Members, end, member, string_field,
  bool_field, field_with, store_strings, encode_strings, encode_slice, store_strings-encode_slice,
}
use continuum_plugin_whmcs_l.Text.{equal_fold}
use continuum_plugin_whmcs_l.Runtime.Config.{ClaimRoleMap, Config}
use continuum_plugin_whmcs_l.Runtime.Load.{decode_mapping, decode_entries, store_mappings}

abbrev encode_mapping : ClaimRoleMap → Value
encode_mapping m = obj (member "product_id" (str m.product_id) (member "role" (str m.role) end))

unfoldable pub encode_entries : List ClaimRoleMap → Values
encode_entries [] = nil
encode_entries (m ∷ ms) = cons (encode_mapping m) (encode_entries ms)

-- `json.Marshal(cfg)`: the fields have no tags, so they go by their Go names.
unfoldable pub encode_config : Config → Value
unfolding encode_entries encode_strings
encode_config c = obj (
    member "DatabaseURL" (str c.database_url) (
      member "WHMCSServerURL" (str c.whmcs_server_url) (
        member "ClientID" (str c.client_id) (
          member "ClientSecret" (str c.client_secret) (
            member "DisplayName" (str c.display_name) (
              member "IconURLPath" (str c.icon_url_path) (
                member "AllowedProductIDs" (encode_slice encode_strings c.allowed_product_ids) (
                  member "WHMCSAdminAPIID" (str c.whmcs_admin_api_id) (
                    member "WHMCSAdminAPISecret" (str c.whmcs_admin_api_secret) (
                      member "FetchDiscordID" (bool c.fetch_discord_id) (
                        member "DiscordIDCustomField" (str c.discord_id_custom_field) (
                          member "ClaimRoleMapping"
                            (encode_slice encode_entries c.claim_role_mapping)
                            (member "LinkByEmail" (bool c.link_by_email) end)))))))))))))

unfoldable pub decode_members : Members → Config → Option Config
decode_members m c = do
  database_url ← string_field "DatabaseURL" c.database_url m
  whmcs_server_url ← string_field "WHMCSServerURL" c.whmcs_server_url m
  client_id ← string_field "ClientID" c.client_id m
  client_secret ← string_field "ClientSecret" c.client_secret m
  display_name ← string_field "DisplayName" c.display_name m
  icon_url_path ← string_field "IconURLPath" c.icon_url_path m
  allowed_product_ids ← field_with store_strings "AllowedProductIDs" c.allowed_product_ids m
  whmcs_admin_api_id ← string_field "WHMCSAdminAPIID" c.whmcs_admin_api_id m
  whmcs_admin_api_secret ← string_field "WHMCSAdminAPISecret" c.whmcs_admin_api_secret m
  fetch_discord_id ← bool_field "FetchDiscordID" c.fetch_discord_id m
  discord_id_custom_field ← string_field "DiscordIDCustomField" c.discord_id_custom_field m
  claim_role_mapping ← field_with store_mappings "ClaimRoleMapping" c.claim_role_mapping m
  link_by_email ← bool_field "LinkByEmail" c.link_by_email m
  some (record {
    database_url = database_url;
    whmcs_server_url = whmcs_server_url;
    client_id = client_id;
    client_secret = client_secret;
    display_name = display_name;
    icon_url_path = icon_url_path;
    allowed_product_ids = allowed_product_ids;
    whmcs_admin_api_id = whmcs_admin_api_id;
    whmcs_admin_api_secret = whmcs_admin_api_secret;
    fetch_discord_id = fetch_discord_id;
    discord_id_custom_field = discord_id_custom_field;
    claim_role_mapping = claim_role_mapping;
    link_by_email = link_by_email;
  })

-- `json.Unmarshal(raw, &cfg)`: members that are missing leave the fields, and so does `null`.
unfoldable pub decode_config : Value → Config → Option Config
decode_config (obj m) c = decode_members m c
decode_config null c = some c
decode_config v c = none

decode_entries-encode_entries :
    (ms : List ClaimRoleMap) → decode_entries (encode_entries ms) ≡ some ms
unfolding decode_entries encode_entries decode_mapping string_field equal_fold
decode_entries-encode_entries [] = refl
decode_entries-encode_entries (m ∷ ms) = rw (decode_entries-encode_entries ms)

store_mappings-encode_slice :
    (ms old : Slice ClaimRoleMap) → store_mappings (encode_slice encode_entries ms) old ≡ some ms
unfolding store_mappings
store_mappings-encode_slice none old = refl
store_mappings-encode_slice (some ms) old = rw (decode_entries-encode_entries ms, store_mappings)

-- A configuration that is written as JSON is read back as it was, whatever the fields held before.
pub decode_config-encode_config : (c d : Config) → decode_config (encode_config c) d ≡ some c
unfolding decode_config encode_config decode_members string_field bool_field field_with equal_fold
decode_config-encode_config c d =
    rw (store_strings-encode_slice c.allowed_product_ids)
      (rw (store_mappings-encode_slice c.claim_role_mapping) refl)

abbrev list_eq {ℓ} : {A : Type ℓ} → (A → A → Bool) → List A → List A → Bool
list_eq eq [] [] = true
list_eq eq [] (y ∷ ys) = false
list_eq eq (x ∷ xs) [] = false
list_eq eq (x ∷ xs) (y ∷ ys) = eq x y && list_eq eq xs ys

-- A nil slice and an empty one differ.
abbrev slice_eq {ℓ} : {A : Type ℓ} → (A → A → Bool) → Slice A → Slice A → Bool
slice_eq eq none none = true
slice_eq eq none (some ys) = false
slice_eq eq (some xs) none = false
slice_eq eq (some xs) (some ys) = list_eq eq xs ys

abbrev bool_eq : Bool → Bool → Bool
bool_eq true b = b
bool_eq false b = not b

abbrev mapping_eq : ClaimRoleMap → ClaimRoleMap → Bool
mapping_eq m n = m.product_id == n.product_id && m.role == n.role

-- `reflect.DeepEqual`
unfoldable pub config_eq : Config → Config → Bool
config_eq c d =
    c.database_url == d.database_url
    && c.whmcs_server_url == d.whmcs_server_url
    && c.client_id == d.client_id
    && c.client_secret == d.client_secret
    && c.display_name == d.display_name
    && c.icon_url_path == d.icon_url_path
    && slice_eq ◌==◌ c.allowed_product_ids d.allowed_product_ids
    && c.whmcs_admin_api_id == d.whmcs_admin_api_id
    && c.whmcs_admin_api_secret == d.whmcs_admin_api_secret
    && bool_eq c.fetch_discord_id d.fetch_discord_id
    && c.discord_id_custom_field == d.discord_id_custom_field
    && slice_eq mapping_eq c.claim_role_mapping d.claim_role_mapping
    && bool_eq c.link_by_email d.link_by_email
