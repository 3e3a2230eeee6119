-- ===== src/Examples/Life.antt =====
-- The theorem on the life of the plugin, at a configuration and a change by an admin.
use continuum_plugin_whmcs_l.Prelude.{true, ok, ◌≡◌, refl}
use continuum_plugin_whmcs_l.Store.{default_config}
use continuum_plugin_whmcs_l.Main.{configure, here}
use continuum_plugin_whmcs_l.Main.Ready.{configure_ready}
use continuum_plugin_whmcs_l.Server.Routes.{serve}
use continuum_plugin_whmcs_l.Server.Life.{configure_site, begun, configured, served}
use continuum_plugin_whmcs_l.Server.Life.Sites.{IsSound, Life-IsSound}
use continuum_plugin_whmcs_l.Examples.{net, pools, world, wire}
use continuum_plugin_whmcs_l.Examples.Settings.{unset, boot, empty}
use continuum_plugin_whmcs_l.Examples.Process.{
  booted, boot_run, passes_again, database_given, empty_row,
}
use continuum_plugin_whmcs_l.Examples.Http.{
  backend, no_letters, no_files, first_entry, first_entry-Member, rename_call, quiet_site,
}

ready :
    ((configure net pools boot unset).0 ≡ ok tt)
    × ((configure net pools boot unset).1.process.has_handler ≡ true)
ready =
    configure_ready net pools boot booted default_config unset (configure net pools boot unset).1
      boot_run passes_again database_given refl refl refl empty_row here

site_ready :
    (configure_site world net pools backend boot quiet_site).system.process.has_handler ≡ true
unfolding configure_site
site_ready = rw ready.0 ready.1

Life-IsSound_example :
    IsSound world
      (serve world net pools backend no_letters no_files first_entry rename_call
        (configure_site world net pools backend boot quiet_site)).1
Life-IsSound_example =
    Life-IsSound world net pools backend no_letters no_files first_entry first_entry-Member empty
      wire
      (serve world net pools backend no_letters no_files first_entry rename_call
        (configure_site world net pools backend boot quiet_site)).1
      (served rename_call site_ready (configured boot begun))
