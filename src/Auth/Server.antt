-- ===== src/Auth/Server.antt =====
-- `Server` (internal/auth/server.go): the calls of the host.
pub mod Closed
pub mod Granted
use continuum_plugin_whmcs_l.Prelude.{
  String, Bool, true, false, ◌&&◌, ◌||◌, not, Option, none, some, ◌==◌, Result, ok, err,
  if◌then◌else◌,
}
use continuum_plugin_whmcs_l.Prelude.Steps.{Steps, pure, fail, follow, ◌>>=◌, ◌>>◌}
use continuum_plugin_whmcs_l.Text.{trim_space}
use continuum_plugin_whmcs_l.Json.{Members, index, as_string}
use continuum_plugin_whmcs_l.Runtime.Config.{Config}
use continuum_plugin_whmcs_l.Whmcs.Http.{World, WhmcsError}
use continuum_plugin_whmcs_l.Whmcs.Oauth
use continuum_plugin_whmcs_l.Whmcs.Oauth.{
  ExchangeParams, RefreshParams, TokenResponse, AuthorizeUrl, build_authorize_url, fetch_user_info,
}
use continuum_plugin_whmcs_l.Whmcs.Types.{EntitlementApi}
use continuum_plugin_whmcs_l.Auth.Types.{
  AuthError, password_login, not_configured, no_refresh_token, entropy, missing_verifier,
  missing_state, state_mismatch, refresh_failed, exchange_failed, userinfo_failed,
  AuthenticateResponse, ExchangeRequest, RefreshRequest, InitRequest, error_text,
}
use continuum_plugin_whmcs_l.Auth.Respond.{Session, AuthSteps, outside, audit, build_response}

-- What the server is built with: `apiFn`, which is nil or gives the shared client or nothing, and
-- `whmcs.NewAPIClient`.
pub record ApiSource (S : Type 0) : Type 0 where
  pub shared : Option (Config → Option (EntitlementApi S))
  pub new_client : String → String → String → EntitlementApi S

module _ {S : Type 0} (apis : ApiSource S) (cfg : Config) where
  abbrev pub fallback : Option (EntitlementApi S)
  fallback =
      if cfg.whmcs_admin_api_id == "" || cfg.whmcs_admin_api_secret == ""
      then none
      else some
          (apis.new_client cfg.whmcs_server_url cfg.whmcs_admin_api_id cfg.whmcs_admin_api_secret)

  abbrev pub or_fallback : Option (EntitlementApi S) → Option (EntitlementApi S)
  or_fallback none = fallback
  or_fallback (some api) = some api

  abbrev pub ask : Option (Config → Option (EntitlementApi S)) → Option (EntitlementApi S)
  ask none = fallback
  ask (some fn) = or_fallback (fn cfg)

  unfoldable pub entitlement_api : Option (EntitlementApi S)
  entitlement_api = ask apis.shared

-- The password login is not supported.
unfoldable pub authenticate : {S : Type 0} → AuthSteps S AuthenticateResponse
authenticate = fail password_login

abbrev pub is_configured : Config → Bool
is_configured cfg =
    not (cfg.whmcs_server_url == "" || cfg.client_id == "" || cfg.client_secret == "")

-- The key of the claim, and of the refresh state that the host makes of it.
abbrev pub refresh_token_claim : String
refresh_token_claim = "whmcs_refresh_token"

abbrev pub stored_token : Option Members → String
stored_token none = ""
stored_token (some m) = trim_space (as_string (index refresh_token_claim m))

-- The new refresh token, or else the old one.
abbrev pub carried : TokenResponse → String → String
carried tok old = if tok.refresh_token == "" then old else tok.refresh_token

-- The provider state that goes to the host and comes back.
pub record ProviderState : Type 0 where
  pub pkce_verifier : String
  pub state : String

pub record InitResponse : Type 0 where
  pub authorize_url : AuthorizeUrl
  pub provider_state : ProviderState

-- `InitAuthorize`, with what `GeneratePKCE` gave: a verifier and its challenge, or a failure of the
-- entropy source.
unfoldable pub init_authorize :
    Config → Option (String × String) → InitRequest → Result AuthError InitResponse
init_authorize cfg pkce req =
    if cfg.whmcs_server_url == "" || cfg.client_id == "" then err not_configured else elim pkce [
      | none ↦ err entropy
      | some (verifier, challenge) ↦ ok (record {
        authorize_url = build_authorize_url (record {
          server_url = cfg.whmcs_server_url;
          client_id = cfg.client_id;
          redirect_uri = req.redirect_uri;
          state = req.state;
          code_challenge = challenge;
          code_challenge_method = "S256";
          scope = "";
        });
        provider_state = record { pkce_verifier = verifier; state = req.state };
      })
    ]

abbrev pub verifier_of : ExchangeRequest → String
verifier_of req = as_string (index "pkce_verifier" req.provider_state)

abbrev pub expected_state : ExchangeRequest → String
expected_state req = as_string (index "state" req.provider_state)

abbrev pub exchange_params : Config → ExchangeRequest → String → ExchangeParams
exchange_params cfg req verifier = record {
  server_url = cfg.whmcs_server_url;
  client_id = cfg.client_id;
  client_secret = cfg.client_secret;
  code = req.code;
  redirect_uri = req.redirect_uri;
  code_verifier = verifier;
}

abbrev pub refresh_params : Config → String → RefreshParams
refresh_params cfg old = record {
  server_url = cfg.whmcs_server_url;
  client_id = cfg.client_id;
  client_secret = cfg.client_secret;
  refresh_token = old;
}

module _ (w : World) (apis : ApiSource w.State) (cfg : Config) where
  -- The userinfo and the entitlement evaluation that end both flows.
  unfoldable pub finish : TokenResponse → String → AuthSteps w.State AuthenticateResponse
  unfolding outside
  finish tok refresh_token = do
    ui ← outside userinfo_failed (fetch_user_info w cfg.whmcs_server_url tok.access_token)
    build_response cfg (entitlement_api apis cfg) ui refresh_token

  -- The part of `ExchangeCode` behind the checks of the request.
  unfoldable pub exchange_verified :
      ExchangeRequest → String → AuthSteps w.State AuthenticateResponse
  unfolding outside finish
  exchange_verified req verifier = do
    tok ← outside exchange_failed (Oauth.exchange_code w (exchange_params cfg req verifier))
    finish tok tok.refresh_token

  unfoldable pub exchange_code : ExchangeRequest → AuthSteps w.State AuthenticateResponse
  exchange_code req =
      if not (is_configured cfg)
      then fail not_configured
      else if verifier_of req == ""
      then fail missing_verifier
      else if expected_state req == ""
      then fail missing_state
      else if not (req.state == expected_state req)
      then fail state_mismatch
      else exchange_verified req (verifier_of req)

  -- The error of the token endpoint is audited before it is returned; its text is the line's detail.
  abbrev refreshed :
      RefreshRequest
      → String
      → Result WhmcsError TokenResponse
      → AuthSteps w.State AuthenticateResponse
  refreshed req old (ok tok) = finish tok (carried tok old)
  refreshed req old (err e) =
      audit "deny" "" req.external_subject "refresh-failed" (error_text e)
      >> fail (refresh_failed e)

  -- The part of `RefreshSession` behind the check of the refresh token.
  unfoldable pub refresh_with : RefreshRequest → String → AuthSteps w.State AuthenticateResponse
  unfolding audit finish
  refresh_with req old s =
      let (r, world) = Oauth.refresh_access_token w (refresh_params cfg old) s.world in
      refreshed req old r (record s { world = world })

  unfoldable pub refresh_session : RefreshRequest → AuthSteps w.State AuthenticateResponse
  refresh_session req =
      if not (is_configured cfg)
      then fail not_configured
      else if stored_token req.refresh_state == ""
      then fail no_refresh_token
      else refresh_with req (stored_token req.refresh_state)
