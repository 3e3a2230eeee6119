-- ===== src/Examples/Overlap.antt =====
-- Two admins change the configuration at the same time.
use native.Mathlib.Decide.{ℕ_discrete}
use continuum_plugin_whmcs_l.Prelude.{false, [], some, err, update, ◌≡◌, refl}
use continuum_plugin_whmcs_l.Text.{trim_space, trim_left, trim_right_by, equal_fold, equal_fold_by}
use continuum_plugin_whmcs_l.Decimal.{atoi, atoi_codes, unsigned, digits_value, itoa, render, digit}
use continuum_plugin_whmcs_l.Runtime.Address.{
  is_internal_ip, is_loopback, is_unspecified, is_link_local_unicast, is_link_local_multicast,
  is_private,
}
use continuum_plugin_whmcs_l.Runtime.Url.{
  is_localhost, check_address, check_url, validate_server_url,
}
use continuum_plugin_whmcs_l.Runtime.Config.{
  Config, parse_positive_id, validate_mapping, validate_mappings, validate_slice, check_server,
  validate_config,
}
use continuum_plugin_whmcs_l.Store.{with_field, without_secrets, query, update_config}
use continuum_plugin_whmcs_l.Store.Codec.{encode_config}
use continuum_plugin_whmcs_l.Admin.Update.{Patch, apply_patch}
use continuum_plugin_whmcs_l.Auth.Types.{not_configured}
use continuum_plugin_whmcs_l.Auth.Server.{exchange_code, refresh_session}
use continuum_plugin_whmcs_l.Main.{live_config, apply_config}
use continuum_plugin_whmcs_l.Main.Overlap.{
  resting, merged, saved, Changes, quiet, merges, saves, applies, acts, configured, Reach, here,
  more,
}
use continuum_plugin_whmcs_l.Main.Overlap.Secrets.{Reach-unconfigured}
use continuum_plugin_whmcs_l.Examples.{net, pools, settings, world, wire, apis, callback, renewal}
use continuum_plugin_whmcs_l.Examples.Settings.{
  no_change, renamed, running, empty, boot, configured_once,
}

abbrev renamed_too : Patch
renamed_too = record no_change { display_name = some "Friends" }

abbrev members : Config
members = record settings { display_name = "Members" }

abbrev friends : Config
friends = record settings { display_name = "Friends" }

-- Both save, and the first to save is the last to make its configuration live.
abbrev torn : Changes
torn = record {
  system = record running {
    process = apply_config members (apply_config friends running.process);
    db = (update_config net friends (update_config net members running.db).1).1;
  };
  edit =
      update
        (update
          (update
            (update (update (update (λ i. resting) 0 (merged members)) 1 (merged friends)) 0
              (saved members))
            1 (saved friends))
          1 resting)
        0 resting;
}

torn_reached : Reach net pools (quiet running) torn
unfolding ℕ_discrete apply_config apply_patch update_config query with_field validate_config
    check_server validate_slice validate_mappings validate_mapping parse_positive_id trim_space
    trim_left trim_right_by atoi atoi_codes unsigned digits_value itoa render digit
    validate_server_url check_url check_address is_localhost is_internal_ip is_loopback
    is_unspecified is_link_local_unicast is_link_local_multicast is_private equal_fold equal_fold_by
torn_reached =
    more
      (more
        (more
          (more (more (more here (acts 0 (merges renamed))) (acts 1 (merges renamed_too)))
            (acts 0 (saves refl refl)))
          (acts 1 (saves refl refl)))
        (acts 1 applies))
      (acts 0 applies)

-- The live configuration is the one admin's, and the row the other's.
torn_differs :
    (live_config torn.system.process ≡ members)
    × (torn.system.db.row ≡ some (encode_config (without_secrets friends)))
unfolding apply_config update_config query with_field validate_config check_server validate_slice
    validate_mappings validate_mapping parse_positive_id trim_space trim_left trim_right_by atoi
    atoi_codes unsigned digits_value itoa render digit validate_server_url check_url check_address
    is_localhost is_internal_ip is_loopback is_unspecified is_link_local_unicast
    is_link_local_multicast is_private equal_fold equal_fold_by
torn_differs = (refl, refl)

abbrev changing : Changes
changing = record {
  system = configured_once;
  edit =
      update (λ i. resting) 0 (merged (apply_patch renamed (live_config configured_once.process)));
}

Reach-unconfigured_example :
    let cfg = live_config changing.system.process in
    (exchange_code world apis cfg (callback "st") (record { world = wire; log = [] })
      ≡ (err not_configured, record { world = wire; log = [] }))
    × (refresh_session world apis cfg renewal (record { world = wire; log = [] })
        ≡ (err not_configured, record { world = wire; log = [] }))
    × (changing.system.process.has_api ≡ false)
Reach-unconfigured_example =
    Reach-unconfigured net pools world apis empty changing (callback "st") renewal
      (record { world = wire; log = [] }) tt
      (more (more here (configured boot)) (acts 0 (merges renamed)))
