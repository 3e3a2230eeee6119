-- ===== src/Auth/Respond/Subject.antt =====
-- Which client a login is decided on.
use continuum_plugin_whmcs_l.Prelude.{
  String, false, Option, some, ◌≡◌, ◌≢◌, refl, arith, eq_iff, ◌==◌,
}
use continuum_plugin_whmcs_l.Prelude.Steps.{Steps}
use continuum_plugin_whmcs_l.Runtime.Config.{Config}
use continuum_plugin_whmcs_l.Whmcs.Http.{WhmcsError}
use continuum_plugin_whmcs_l.Whmcs.Oauth.{UserInfo}
use continuum_plugin_whmcs_l.Whmcs.Types.{Client, EntitlementApi}
use continuum_plugin_whmcs_l.Auth.Respond.{
  Session, resolve_client, owned_products, discord_id, entitled, evaluated, build_response,
  check_gate,
}

module _ {S : Type 0} (cfg : Config) (api : EntitlementApi S) (ui : UserInfo) where
  -- The same client of the admin API but for its lookup by email.
  abbrev pub with_lookup : (String → Steps S WhmcsError (Option Client)) → EntitlementApi S
  with_lookup f = record api { get_client_by_email = f }

  -- Where the userinfo carries a client id, the email decides nothing: whatever the lookup by email
  -- would give or do, the answer, the audit log and the requests are the same.
  pub build_response_by_id :
      (f : String → Steps S WhmcsError (Option Client)) (token : String) (s : Session S)
      → ui.id ≢ ""
      → build_response cfg (some (with_lookup f)) ui token s
        ≡ build_response cfg (some api) ui token s
  unfolding build_response evaluated entitled resolve_client owned_products check_gate discord_id
  build_response_by_id f token s given =
      let known : (ui.id == "") ≡ false = ground (arith, eq_iff ui.id "") in rw known refl
