-- ===== src/Examples/Admin.antt =====
-- The theorems on the admin server and on what a login comes to without the details, at concrete inputs.
use continuum_plugin_whmcs_l.Prelude.{String, [], ◌∷◌, some, err, ◌≡◌, ◌≢◌, refl, arith, eq_iff}
use continuum_plugin_whmcs_l.Prelude.Steps.{Steps}
use continuum_plugin_whmcs_l.Text.{trim_space, trim_left, trim_right_by}
use continuum_plugin_whmcs_l.Whmcs.Http.{WhmcsError, bad_shape}
use continuum_plugin_whmcs_l.Whmcs.Types.{ClientDetails}
use continuum_plugin_whmcs_l.Auth.Respond.{Session, build_response}
use continuum_plugin_whmcs_l.Auth.Respond.Discord.{
  but_discord, with_details, build_response_details,
}
use continuum_plugin_whmcs_l.Admin.Simulate.{simulate}
use continuum_plugin_whmcs_l.Admin.Simulate.Agree.{
  Agrees, AnswersAlike, request_for, simulate-Agrees,
}
use continuum_plugin_whmcs_l.Whmcs.Entitlements.{
  get_clients_products, look_up, flight, negative_cached, answered, expiry,
}
use continuum_plugin_whmcs_l.Main.Resolver.{Shared, resolver_client}
use continuum_plugin_whmcs_l.Examples.{settings, Wire, world, client}
use continuum_plugin_whmcs_l.Examples.Login.{ann, begun}

id_given : ann.id ≢ ""
id_given e = absurd (ground (arith, e, eq_iff "7" ""))

id_trimmed : trim_space ann.id ≡ ann.id
unfolding trim_space trim_left trim_right_by
id_trimmed = refl

api_id_given : settings.whmcs_admin_api_id ≢ ""
api_id_given e = absurd (ground (arith, e, eq_iff "admin" ""))

api_secret_given : settings.whmcs_admin_api_secret ≢ ""
api_secret_given e = absurd (ground (arith, e, eq_iff "secret" ""))

field_given : settings.discord_id_custom_field ≢ ""
field_given e = absurd (ground (arith, e, eq_iff "Discord ID" ""))

-- The login goes through the resolver, which remembers another client, and the simulation does not.
abbrev shared_login : Session (Shared Wire)
shared_login = record {
  world = record { by_email = []; by_client = ("8", 5) ∷ []; world = begun.world };
  log = [];
}

alike :
    AnswersAlike settings (resolver_client world client) client ann shared_login.world begun.world
unfolding get_clients_products look_up flight negative_cached answered expiry
alike = record { products = refl; details = refl }

simulate-Agrees_example :
    Agrees
      (simulate (some (λ c. some client)) settings (request_for "7") begun.world).0
      (build_response settings (some (resolver_client world client)) ann "def" shared_login).0
simulate-Agrees_example =
    simulate-Agrees settings (resolver_client world client) client ann "def" shared_login
      begun.world alike id_given id_trimmed api_id_given api_secret_given refl field_given

-- No details, whatever the id.
abbrev details_down : String → Steps Wire WhmcsError ClientDetails
details_down id w = (err bad_shape, w)

build_response_details_example :
    (but_discord
        (build_response settings
          (some (with_details settings client ann details_down))
          ann
          "def"
          begun).0
      ≡ but_discord (build_response settings (some client) ann "def" begun).0)
    × ((build_response settings
          (some (with_details settings client ann details_down))
          ann
          "def"
          begun).1.log
        ≡ (build_response settings (some client) ann "def" begun).1.log)
build_response_details_example = build_response_details settings client ann details_down "def" begun
