-- ===== src/Examples/Resolver.antt =====
-- The theorem on a login behind the resolver, at the login of a user who owns product 12.
use continuum_plugin_whmcs_l.Prelude.{String, [], ◌∷◌, true, some, ok, ◌≡◌, refl}
use continuum_plugin_whmcs_l.Text.{
  trim_space, trim_left, trim_right_by, trim_right_slash, equal_fold, equal_fold_by,
}
use continuum_plugin_whmcs_l.Json.{
  index, field_with, string_field, int_field, store_string, store_int,
}
use continuum_plugin_whmcs_l.Decimal.{itoa, render, digit}
use continuum_plugin_whmcs_l.Whmcs.Http.{do_form}
use continuum_plugin_whmcs_l.Whmcs.Oauth
use continuum_plugin_whmcs_l.Whmcs.Oauth.{UserInfo, fetch_user_info, read_token, read_user}
use continuum_plugin_whmcs_l.Whmcs.Types.{EntitlementApi}
use continuum_plugin_whmcs_l.Whmcs.Entitlements
use continuum_plugin_whmcs_l.Whmcs.Entitlements.{expiry, negative_cached, answered, flight, look_up}
use continuum_plugin_whmcs_l.Auth.Products.{
  is_active, active_product_ids, any_match, role_from_products,
}
use continuum_plugin_whmcs_l.Auth.Types.{text}
use continuum_plugin_whmcs_l.Auth.Respond.{
  Session, outside, audit, deny, resolve_client, check_gate, owned_products, discord_id, entitled,
  evaluated, build_response,
}
use continuum_plugin_whmcs_l.Auth.Server.{entitlement_api, exchange_code, exchange_verified, finish}
use continuum_plugin_whmcs_l.Main.{Process, start, installed, live_config}
use continuum_plugin_whmcs_l.Main.Resolver.{Shared, shared_world, api_source}
use continuum_plugin_whmcs_l.Main.Resolver.Fresh.{IsFreshLogin, exchange_code-IsFreshLogin}
use continuum_plugin_whmcs_l.Examples.{settings, Wire, world, client, wire, callback}
use continuum_plugin_whmcs_l.Examples.Login.{granted}

abbrev served : Process
served = installed (record start { live = some settings; has_api = true })

abbrev one_client : String → String → String → EntitlementApi Wire
one_client url id secret = client

-- Another user is remembered as unknown, and another client as one without products.
abbrev shared_begun : Session (Shared Wire)
shared_begun = record {
  world = record { by_email = ("x@y", 5) ∷ []; by_client = ("8", 5) ∷ []; world = wire };
  log = [];
}

abbrev shared_ended : Session (Shared Wire)
shared_ended = record {
  world = record {
    by_email = ("x@y", 5) ∷ [];
    by_client = ("8", 5) ∷ [];
    world = record { replies = []; sent = 2 };
  };
  log =
      record {
        decision = "allow";
        email = "";
        subject = "u1";
        reason = "success";
        detail = text "";
      }
      ∷ [];
}

shared_run :
    exchange_code
      (shared_world world)
      (api_source world one_client served)
      (live_config served)
      (callback "st")
      shared_begun
    ≡ (ok granted, shared_ended)
unfolding exchange_code exchange_verified finish outside audit entitlement_api Oauth.exchange_code
    fetch_user_info do_form read_token read_user trim_space trim_left trim_right_by trim_right_slash
    equal_fold equal_fold_by field_with string_field int_field store_string store_int index
    build_response evaluated entitled resolve_client owned_products check_gate deny discord_id
    active_product_ids is_active any_match role_from_products itoa render digit expiry
    negative_cached answered flight look_up Entitlements.get_clients_products
shared_run = refl

exchange_code-IsFreshLogin_example : IsFreshLogin world one_client served granted
exchange_code-IsFreshLogin_example =
    exchange_code-IsFreshLogin world one_client served (callback "st") granted shared_begun
      shared_ended shared_run refl
