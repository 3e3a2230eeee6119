-- ===== src/Examples/Login.antt =====
-- The theorems on the two flows, at a login and a refresh of a user who owns product 12.
use continuum_plugin_whmcs_l.Prelude.{
  true, false, [], ◌∷◌, ◌++◌, map, none, some, ok, err, ◌≡◌, ◌≢◌, refl, arith, eq_iff,
}
use continuum_plugin_whmcs_l.Text.{
  trim_space, trim_left, trim_right_by, trim_right_slash, equal_fold, equal_fold_by,
}
use continuum_plugin_whmcs_l.Json.{
  index, field_with, string_field, int_field, store_string, store_int,
}
use continuum_plugin_whmcs_l.Decimal.{itoa, render, digit}
use continuum_plugin_whmcs_l.Whmcs.Http.{do_form}
use continuum_plugin_whmcs_l.Whmcs.Oauth
use continuum_plugin_whmcs_l.Whmcs.Oauth.{
  UserInfo, refresh_access_token, fetch_user_info, read_token, read_user,
}
use continuum_plugin_whmcs_l.Auth.Products.{
  is_active, active_product_ids, any_match, role_from_products,
}
use continuum_plugin_whmcs_l.Auth.Types.{AuthError, AuthenticateResponse, text}
use continuum_plugin_whmcs_l.Auth.Respond.{
  Session, outside, audit, deny, resolve_client, check_gate, owned_products, discord_id, entitled,
  evaluated, build_response,
}
use continuum_plugin_whmcs_l.Auth.Respond.Trace.{tag, trace, build_response-audits}
use continuum_plugin_whmcs_l.Auth.Server.{
  is_configured, stored_token, entitlement_api, exchange_code, exchange_verified, refresh_session,
  refresh_with, finish,
}
use continuum_plugin_whmcs_l.Auth.Server.Closed.{IsBound, exchange_code_closed}
use continuum_plugin_whmcs_l.Auth.Server.Granted.{
  IsLogin, exchange_code-IsLogin, refresh_session-IsLogin,
}
use continuum_plugin_whmcs_l.Prelude.{Option, String}
use continuum_plugin_whmcs_l.Prelude.Steps.{Steps}
use continuum_plugin_whmcs_l.Whmcs.Http.{WhmcsError}
use continuum_plugin_whmcs_l.Whmcs.Types.{Client}
use continuum_plugin_whmcs_l.Auth.Respond.Subject.{with_lookup, build_response_by_id}
use continuum_plugin_whmcs_l.Examples.{settings, Wire, world, apis, client, wire, callback, renewal}

abbrev pub ann : UserInfo
ann = record {
  sub = "u1";
  id = "7";
  email = "";
  name = "Ann";
  picture = "";
  given_name = "";
  family_name = "";
}

abbrev pub begun : Session Wire
begun = record { world = wire; log = [] }

abbrev pub granted : AuthenticateResponse
granted = record {
  external_subject = "u1";
  display_name = "Ann";
  email = "";
  claims = record {
    raw_userinfo = ann;
    refresh_token = some "def";
    link_by_email = false;
    products = some ("12" ∷ []);
    discord_id = none;
    silo_role = some "admin";
  };
}

abbrev ended : Session Wire
ended = record {
  world = record { replies = []; sent = 2 };
  log =
      record {
        decision = "allow";
        email = "";
        subject = "u1";
        reason = "success";
        detail = text "";
      }
      ∷ [];
}

login_run : exchange_code world apis settings (callback "st") begun ≡ (ok granted, ended)
unfolding exchange_code exchange_verified finish outside audit entitlement_api Oauth.exchange_code
    fetch_user_info do_form read_token read_user trim_space trim_left trim_right_by trim_right_slash
    equal_fold equal_fold_by field_with string_field int_field store_string store_int index
    build_response evaluated entitled resolve_client owned_products check_gate deny discord_id
    active_product_ids is_active any_match role_from_products itoa render digit
login_run = refl

exchange_code-IsLogin_example :
    IsBound settings (callback "st") × IsLogin world apis settings granted
exchange_code-IsLogin_example =
    exchange_code-IsLogin world apis settings (callback "st") granted begun ended login_run

refresh_run : refresh_session world apis settings renewal begun ≡ (ok granted, ended)
unfolding refresh_session refresh_with finish outside audit entitlement_api refresh_access_token
    fetch_user_info do_form read_token read_user trim_space trim_left trim_right_by trim_right_slash
    equal_fold equal_fold_by field_with string_field int_field store_string store_int index
    build_response evaluated entitled resolve_client owned_products check_gate deny discord_id
    active_product_ids is_active any_match role_from_products itoa render digit
refresh_run = refl

refresh_session-IsLogin_example :
    (is_configured settings ≡ true)
    × (stored_token renewal.refresh_state ≢ "")
    × IsLogin world apis settings granted
refresh_session-IsLogin_example =
    refresh_session-IsLogin world apis settings renewal granted begun ended refresh_run

-- A callback with another state than the login's.
forged : ¬ IsBound settings (callback "other")
unfolding index
forged b = absurd (ground (arith, b.same, eq_iff "other" "st"))

exchange_code_closed_example :
    (e : AuthError) × (exchange_code world apis settings (callback "other") begun ≡ (err e, begun))
exchange_code_closed_example =
    exchange_code_closed world apis settings (callback "other") begun forged

build_response-audits_example :
    map tag (build_response settings (some client) ann "def" begun).1.log
    ≡ map tag begun.log
      ++ trace
          (record { decision = "allow"; reason = "success"; subject = "u1" } ∷ [])
          "u1"
          (build_response settings (some client) ann "def" begun).0
build_response-audits_example = build_response-audits ann settings (some client) "def" begun

-- Another client, whatever the email.
abbrev impostor : String → Steps Wire WhmcsError (Option Client)
impostor email s = (ok (some (record { id = "8"; email = email })), s)

build_response_by_id_example :
    build_response settings (some (with_lookup settings client ann impostor)) ann "def" begun
    ≡ build_response settings (some client) ann "def" begun
build_response_by_id_example =
    build_response_by_id settings client ann impostor "def" begun
      (λ h. absurd (ground (arith, h, eq_iff "7" "")))
