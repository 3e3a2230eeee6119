-- ===== src/Runtime/Load.antt =====
-- `loadConfig` and the helpers that read the host's payload (internal/runtime/runtime.go).
pub mod Laws
use continuum_plugin_whmcs_l.Prelude.{
  ℕ, ◌+◌, String, Bool, false, List, [], ◌∷◌, ◌++◌, Option, none, some, Slice, elems, ◌==◌, Result,
  ok, err, ◌>>=◌, map_err, if◌then◌else◌,
}
use continuum_plugin_whmcs_l.Text.{trim_space, trim_right_slash, split_comma}
use continuum_plugin_whmcs_l.Decimal.{itoa}
use continuum_plugin_whmcs_l.Json.{
  Value, null, bool, str, arr, obj, Values, nil, cons, Members, index, as_string, string_field,
  Store,
}
use continuum_plugin_whmcs_l.Runtime.Url.{Platform}
use continuum_plugin_whmcs_l.Runtime.Config.{
  ClaimRoleMap, Config, zero_config, ConfigError, allowed_product, mapping_not_object, mapping_json,
  parse_positive_id, validate_config,
}

-- A `ConfigEntry`: its key and its value as a map, if it has one.
pub record ConfigEntry : Type 0 where
  pub key : String
  pub value : Option Members

abbrev pub string_from_map : Members → String
string_from_map m = as_string (index "value" m)

abbrev pub bool_of : Option Value → Bool
bool_of (some (bool b)) = b
bool_of _ = false

abbrev pub bool_from_map : Members → Bool
bool_from_map m = bool_of (index "value" m)

-- The loop over the parts of the comma-separated list.
unfoldable pub parse_allowed : Slice String → List String → Result ConfigError (Slice String)
parse_allowed acc [] = ok acc
parse_allowed acc (raw ∷ parts) =
    let p = trim_space raw in
    let skipped : Result ConfigError (Slice String) = parse_allowed acc parts in
    let kept : Result ConfigError (Slice String) =
      map_err allowed_product (parse_positive_id p) >>= λ n.
      parse_allowed (some (elems acc ++ (itoa n ∷ []))) parts in
    if p == "" then skipped else kept

-- Entries that structpb decoded: `[]any` of `map[string]any`.
unfoldable pub mapping_entries : ℕ → Values → Result ConfigError (List ClaimRoleMap)
mapping_entries i nil = ok []
mapping_entries i (cons (obj m) items) =
    let rest : Result ConfigError (List ClaimRoleMap) = mapping_entries (i + 1) items in
    rest >>= λ ms. ok (
      record { product_id = as_string (index "product_id" m); role = as_string (index "role" m) }
      ∷ ms)
mapping_entries i (cons item items) = err (mapping_not_object i)

-- One element that encoding/json stores in a `ClaimRoleMap`; `null` leaves the zero value.
unfoldable pub decode_mapping : Value → Option ClaimRoleMap
decode_mapping (obj m) = elim (string_field "product_id" "" m) [
  | none ↦ none
  | some id ↦ elim (string_field "role" "" m) [
    | none ↦ none
    | some r ↦ some (record { product_id = id; role = r })
  ]
]
decode_mapping null = some (record { product_id = ""; role = "" })
decode_mapping v = none

unfoldable pub decode_entries : Values → Option (List ClaimRoleMap)
decode_entries nil = some []
decode_entries (cons v vs) =
    let rest : Option (List ClaimRoleMap) = decode_entries vs in
    elim (decode_mapping v) [
      | none ↦ none
      | some m ↦ elim rest [ none ↦ none | some ms ↦ some (m ∷ ms) ]
    ]

-- `json.Unmarshal` into a `[]ClaimRoleMap`.
unfoldable pub store_mappings : Store (Slice ClaimRoleMap)
store_mappings (arr items) acc = elim (decode_entries items) [
  | none ↦ none
  | some ms ↦ some (some ms)
]
store_mappings null acc = some none
store_mappings v acc = none

-- A JSON text; `none` where it does not parse or does not fit.
unfoldable pub mapping_text : Platform → String → Result ConfigError (Slice ClaimRoleMap)
mapping_text net s = elim (net.parse_json s) [
  | none ↦ err mapping_json
  | some v ↦ elim (store_mappings v none) [ none ↦ err mapping_json | some out ↦ ok out ]
]

unfoldable pub parse_claim_role_mapping :
    Platform → Option Value → Result ConfigError (Slice ClaimRoleMap)
parse_claim_role_mapping net (some (arr items)) = mapping_entries 0 items >>= λ ms. ok (some ms)
parse_claim_role_mapping net (some (str s)) =
    if trim_space s == "" then ok none else mapping_text net s
parse_claim_role_mapping net raw = ok none

-- The cases of the `switch` on an entry's key.
pub data Key : Type 0 where
  database_url whmcs_server_url client_id client_secret display_name icon_url_path : Key
  allowed_product_ids whmcs_admin_api_id whmcs_admin_api_secret fetch_discord_id : Key
  link_by_email discord_id_custom_field claim_role_mapping unknown : Key

unfoldable pub key_of : String → Key
key_of key =
    if key == "database_url"
    then Key.database_url
    else if key == "whmcs_server_url"
    then Key.whmcs_server_url
    else if key == "client_id"
    then Key.client_id
    else if key == "client_secret"
    then Key.client_secret
    else if key == "display_name"
    then Key.display_name
    else if key == "icon_url_path"
    then Key.icon_url_path
    else if key == "allowed_product_ids"
    then Key.allowed_product_ids
    else if key == "whmcs_admin_api_id"
    then Key.whmcs_admin_api_id
    else if key == "whmcs_admin_api_secret"
    then Key.whmcs_admin_api_secret
    else if key == "fetch_discord_id"
    then Key.fetch_discord_id
    else if key == "link_by_email"
    then Key.link_by_email
    else if key == "discord_id_custom_field"
    then Key.discord_id_custom_field
    else if key == "claim_role_mapping"
    then Key.claim_role_mapping
    else Key.unknown

-- The bodies of the cases.
unfoldable pub load_value : Platform → Key → Members → Config → Result ConfigError Config
load_value net Key.database_url m cfg = ok (record cfg { database_url = string_from_map m })
load_value net Key.whmcs_server_url m cfg =
    ok (record cfg { whmcs_server_url = trim_right_slash (string_from_map m) })
load_value net Key.client_id m cfg = ok (record cfg { client_id = string_from_map m })
load_value net Key.client_secret m cfg = ok (record cfg { client_secret = string_from_map m })
load_value net Key.display_name m cfg = ok (record cfg { display_name = string_from_map m })
load_value net Key.icon_url_path m cfg =
    ok (record cfg { icon_url_path = trim_space (string_from_map m) })
load_value net Key.allowed_product_ids m cfg =
    if string_from_map m == ""
    then ok cfg
    else parse_allowed cfg.allowed_product_ids (split_comma (string_from_map m)) >>= λ ids.
        ok (record cfg { allowed_product_ids = ids })
load_value net Key.whmcs_admin_api_id m cfg =
    ok (record cfg { whmcs_admin_api_id = string_from_map m })
load_value net Key.whmcs_admin_api_secret m cfg =
    ok (record cfg { whmcs_admin_api_secret = string_from_map m })
load_value net Key.fetch_discord_id m cfg = ok (record cfg { fetch_discord_id = bool_from_map m })
load_value net Key.link_by_email m cfg = ok (record cfg { link_by_email = bool_from_map m })
load_value net Key.discord_id_custom_field m cfg =
    if string_from_map m == ""
    then ok cfg
    else ok (record cfg { discord_id_custom_field = string_from_map m })
load_value net Key.claim_role_mapping m cfg =
    parse_claim_role_mapping net (index "value" m) >>= λ ms.
    ok (record cfg { claim_role_mapping = ms })
load_value net Key.unknown m cfg = ok cfg

-- One round of the loop; an entry with no value is passed over.
unfoldable pub load_entry : Platform → ConfigEntry → Config → Result ConfigError Config
load_entry net e cfg = elim e.value [ none ↦ ok cfg | some m ↦ load_value net (key_of e.key) m cfg ]

unfoldable pub load_entries : Platform → List ConfigEntry → Config → Result ConfigError Config
load_entries net [] cfg = ok cfg
load_entries net (e ∷ es) cfg = load_entry net e cfg >>= λ cfg'. load_entries net es cfg'

abbrev pub initial_config : Config
initial_config = record zero_config { discord_id_custom_field = "Discord ID" }

unfoldable pub load_config : Platform → List ConfigEntry → Result ConfigError Config
load_config net entries = load_entries net entries initial_config >>= λ cfg. validate_config net cfg
