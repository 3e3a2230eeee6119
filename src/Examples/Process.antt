-- ===== src/Examples/Process.antt =====
-- The theorems on the process, its pools and its readiness, at a configuration and a change.
use continuum_plugin_whmcs_l.Prelude.{true, ok, ◌≡◌, ◌≢◌, refl, arith, eq_iff}
use continuum_plugin_whmcs_l.Text.{
  trim_space, trim_left, trim_right_by, trim_right_slash, equal_fold, equal_fold_by, split_comma,
}
use continuum_plugin_whmcs_l.Json.{obj, end, index, string_field, bool_field}
use continuum_plugin_whmcs_l.Decimal.{atoi, atoi_codes, unsigned, digits_value, itoa, render, digit}
use continuum_plugin_whmcs_l.Runtime.Address.{
  is_internal_ip, is_loopback, is_unspecified, is_link_local_unicast, is_link_local_multicast,
  is_private,
}
use continuum_plugin_whmcs_l.Runtime.Url.{
  again, is_localhost, check_address, check_url, validate_server_url,
}
use continuum_plugin_whmcs_l.Runtime.Config.{
  Config, parse_positive_id, validate_mapping, validate_mappings, validate_slice, check_server,
  validate_config,
}
use continuum_plugin_whmcs_l.Runtime.Load.{
  key_of, load_value, load_entry, load_entries, parse_allowed, load_config,
}
use continuum_plugin_whmcs_l.Store.{default_config, with_field, read_row}
use continuum_plugin_whmcs_l.Store.Codec.{decode_config, decode_members}
use continuum_plugin_whmcs_l.Main.{configure, here, more, configured, patched}
use continuum_plugin_whmcs_l.Main.Open.{held, Reach-pools}
use continuum_plugin_whmcs_l.Main.Ready.{configure_ready}
use continuum_plugin_whmcs_l.Examples.{net, pools}
use continuum_plugin_whmcs_l.Examples.Settings.{loaded, empty, boot, renamed, unset, renamed_then}

Reach-pools_example :
    (renamed_then.handles.stored ≡ renamed_then.handles.current)
    × (renamed_then.handles.still_open ≡ held renamed_then.handles.current)
Reach-pools_example =
    Reach-pools net pools empty renamed_then (more (more here (configured boot)) (patched renamed))

abbrev pub booted : Config
booted = record loaded { database_url = "postgres://db"; client_id = "plugin" }

pub boot_run : load_config net boot ≡ ok booted
unfolding load_config load_entries load_entry load_value key_of index parse_allowed split_comma
    trim_right_slash validate_config check_server validate_slice validate_mappings validate_mapping
    parse_positive_id trim_space trim_left trim_right_by atoi atoi_codes unsigned digits_value itoa
    render digit validate_server_url check_url check_address is_localhost is_internal_ip is_loopback
    is_unspecified is_link_local_unicast is_link_local_multicast is_private equal_fold equal_fold_by
boot_run = refl

pub passes_again : check_server (again net) booted.whmcs_server_url ≡ ok tt
unfolding check_server validate_server_url check_url check_address is_localhost is_internal_ip
    is_loopback is_unspecified is_link_local_unicast is_link_local_multicast is_private equal_fold
    equal_fold_by
passes_again = refl

pub database_given : booted.database_url ≢ ""
database_given e = absurd (ground (arith, e, eq_iff "postgres://db" ""))

pub empty_row : read_row (obj end) ≡ ok default_config
unfolding read_row decode_config with_field decode_members string_field bool_field
empty_row = refl

configure_ready_example :
    ((configure net pools boot unset).0 ≡ ok tt) × (renamed_then.process.has_handler ≡ true)
configure_ready_example =
    configure_ready net pools boot booted default_config unset renamed_then boot_run passes_again
      database_given refl refl refl empty_row (more here (patched renamed))
