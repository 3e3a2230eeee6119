-- ===== src/Examples/Settings.antt =====
-- The theorems on the configuration, its row and the process, at concrete inputs.
use continuum_plugin_whmcs_l.Prelude.{
  String, true, false, List, [], ◌∷◌, none, some, ok, err, ◌≡◌, ◌≢◌, refl,
}
use continuum_plugin_whmcs_l.Text.{
  trim_space, trim_left, trim_right_by, trim_right_slash, equal_fold, equal_fold_by, split_comma,
}
use continuum_plugin_whmcs_l.Json.{str, end, member, index}
use continuum_plugin_whmcs_l.Decimal.{atoi, atoi_codes, unsigned, digits_value, itoa, render, digit}
use continuum_plugin_whmcs_l.Runtime.Address.{
  is_internal_ip, is_loopback, is_unspecified, is_link_local_unicast, is_link_local_multicast,
  is_private,
}
use continuum_plugin_whmcs_l.Runtime.Url.{
  Url, is_localhost, check_address, check_url, validate_server_url,
}
use continuum_plugin_whmcs_l.Runtime.Url.Safe.{IsSafeUrl, validate_server_url_safe}
use continuum_plugin_whmcs_l.Runtime.Config.{
  Config, parse_positive_id, validate_mapping, validate_mappings, validate_slice, check_server,
  validate_config,
}
use continuum_plugin_whmcs_l.Runtime.Spelling.{RespelledSlice}
use continuum_plugin_whmcs_l.Runtime.Valid.{IsValid, validate_config-IsValid}
use continuum_plugin_whmcs_l.Runtime.Load.{
  ConfigEntry, key_of, load_value, load_entry, load_entries, parse_allowed, initial_config,
  load_config,
}
use continuum_plugin_whmcs_l.Runtime.Load.Laws.{IsLoaded, load_config_sound}
use continuum_plugin_whmcs_l.Store.{
  Db, gave_up, default_config, with_field, without_secrets, query, read_row, get_config, get_fuel,
  update_config,
}
use continuum_plugin_whmcs_l.Store.Codec.{
  encode_config, decode_config, config_eq, decode_config-encode_config,
}
use continuum_plugin_whmcs_l.Store.Laws.{
  read_row-encode_config, update_config-get_config, get_config-ne-gave_up,
}
use continuum_plugin_whmcs_l.Admin.Update.{Patch, apply_patch}
use continuum_plugin_whmcs_l.Main.Pool.{no_pools}
use continuum_plugin_whmcs_l.Main.{
  System, start, installed, live_config, in_db, apply_config, configure, patch_live, update_live,
}
use continuum_plugin_whmcs_l.Main.Live.{patch_live-saved}
use continuum_plugin_whmcs_l.Examples.{net, pools, settings}

safe_run : validate_server_url net "https://whmcs.example" ≡ ok tt
unfolding validate_server_url check_url check_address is_localhost is_internal_ip is_loopback
    is_unspecified is_link_local_unicast is_link_local_multicast is_private equal_fold equal_fold_by
safe_run = refl

validate_server_url_safe_example :
    (u : Url) × (net.parse_url "https://whmcs.example" ≡ some u) × IsSafeUrl net u
validate_server_url_safe_example = validate_server_url_safe net "https://whmcs.example" safe_run

-- The mapped product is spelled with a sign and a space.
abbrev drafted : Config
drafted = record settings {
  claim_role_mapping = some (record { product_id = " +12"; role = "admin" } ∷ []);
}

drafted_run : validate_config net drafted ≡ ok settings
unfolding validate_config check_server validate_slice validate_mappings validate_mapping
    parse_positive_id trim_space trim_left trim_right_by atoi atoi_codes unsigned digits_value itoa
    render digit validate_server_url check_url check_address is_localhost is_internal_ip is_loopback
    is_unspecified is_link_local_unicast is_link_local_multicast is_private equal_fold equal_fold_by
drafted_run = refl

validate_config-IsValid_example :
    IsValid net settings
    × (RespelledSlice drafted.claim_role_mapping settings.claim_role_mapping
        × (record settings { claim_role_mapping = drafted.claim_role_mapping } ≡ drafted))
    × (validate_config net settings ≡ ok settings)
validate_config-IsValid_example = validate_config-IsValid net drafted settings drafted_run

abbrev entry : String → String → ConfigEntry
entry key value = record { key = key; value = some (member "value" (str value) end) }

abbrev pub entries : List ConfigEntry
entries =
    entry "whmcs_server_url" "https://whmcs.example/"
    ∷ entry "client_secret" "hush"
    ∷ entry "allowed_product_ids" "12, +7"
    ∷ []

abbrev pub loaded : Config
loaded = record initial_config {
  whmcs_server_url = "https://whmcs.example";
  client_secret = "hush";
  allowed_product_ids = some ("12" ∷ "7" ∷ []);
}

load_run : load_config net entries ≡ ok loaded
unfolding load_config load_entries load_entry load_value key_of index parse_allowed split_comma
    trim_right_slash validate_config check_server validate_slice validate_mappings validate_mapping
    parse_positive_id trim_space trim_left trim_right_by atoi atoi_codes unsigned digits_value itoa
    render digit validate_server_url check_url check_address is_localhost is_internal_ip is_loopback
    is_unspecified is_link_local_unicast is_link_local_multicast is_private equal_fold equal_fold_by
load_run = refl

load_config_sound_example : IsValid net loaded × IsLoaded loaded
load_config_sound_example = load_config_sound net entries loaded load_run

decode_config-encode_config_example :
    decode_config (encode_config settings) default_config ≡ some settings
decode_config-encode_config_example = decode_config-encode_config settings default_config

abbrev pub empty : Db
empty = record { row = none; outages = [] }

abbrev public : Config
public = without_secrets settings

abbrev saved : Db
saved = record { row = some (encode_config public); outages = [] }

update_run : update_config net drafted empty ≡ (ok settings, saved)
unfolding update_config query with_field validate_config check_server validate_slice
    validate_mappings validate_mapping parse_positive_id trim_space trim_left trim_right_by atoi
    atoi_codes unsigned digits_value itoa render digit validate_server_url check_url check_address
    is_localhost is_internal_ip is_loopback is_unspecified is_link_local_unicast
    is_link_local_multicast is_private equal_fold equal_fold_by
update_run = refl

update_config-get_config_example :
    (get_config get_fuel (record saved { outages = [] })).0
    ≡ ok (with_field (without_secrets settings))
update_config-get_config_example =
    update_config-get_config net drafted settings empty saved update_run

get_config-ne-gave_up_example : (get_config get_fuel empty).0 ≢ err gave_up
get_config-ne-gave_up_example = get_config-ne-gave_up empty

public_row : read_row (encode_config public) ≡ ok public
unfolding with_field
public_row = read_row-encode_config public

public_differs : config_eq public default_config ≡ false
unfolding config_eq
public_differs = refl

abbrev pub no_change : Patch
no_change = record {
  whmcs_server_url = none;
  client_id = none;
  display_name = none;
  icon_url_path = none;
  allowed_product_ids = none;
  whmcs_admin_api_id = none;
  fetch_discord_id = none;
  discord_id_custom_field = none;
  claim_role_mapping = none;
  link_by_email = none;
}

abbrev pub renamed : Patch
renamed = record no_change { display_name = some " Members " }

abbrev pub running : System
running = record {
  process = installed (record start { live = some settings });
  db = empty;
  handles = no_pools;
}

abbrev changed_settings : Config
changed_settings = record settings { display_name = "Members"; database_url = "" }

abbrev after_change : System
after_change = record {
  process = installed (record start { live = some changed_settings; has_api = true });
  db = record { row = some (encode_config (without_secrets changed_settings)); outages = [] };
  handles = no_pools;
}

change_run : patch_live net pools renamed running ≡ (ok tt, after_change)
unfolding patch_live update_live in_db apply_config apply_patch update_config query with_field
    validate_config check_server validate_slice validate_mappings validate_mapping parse_positive_id
    trim_space trim_left trim_right_by atoi atoi_codes unsigned digits_value itoa render digit
    validate_server_url check_url check_address is_localhost is_internal_ip is_loopback
    is_unspecified is_link_local_unicast is_link_local_multicast is_private equal_fold equal_fold_by
change_run = refl

patch_live-saved_example :
    (record (live_config after_change.process) {
      claim_role_mapping = (apply_patch renamed (live_config running.process)).claim_role_mapping;
    }
      ≡ apply_patch renamed (live_config running.process))
    × RespelledSlice
        (apply_patch renamed (live_config running.process)).claim_role_mapping
        (live_config after_change.process).claim_role_mapping
    × ((get_config get_fuel (record after_change.db { outages = [] })).0
        ≡ ok (with_field (without_secrets (live_config after_change.process))))
patch_live-saved_example = patch_live-saved net pools renamed running after_change change_run

abbrev pub unset : System
unset = record { process = start; db = empty; handles = no_pools }

abbrev pub boot : List ConfigEntry
boot = entry "database_url" "postgres://db" ∷ entry "client_id" "plugin" ∷ entries

-- The host configures the plugin, with a database and a client secret, and an admin renames it.
abbrev pub configured_once : System
configured_once = (configure net pools boot unset).1

abbrev pub renamed_then : System
renamed_then = (patch_live net pools renamed configured_once).1
