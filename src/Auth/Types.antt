-- ===== src/Auth/Types.antt =====
-- The requests and answers of the auth provider, its errors, and the audit lines
-- (internal/auth/server.go). The protobuf types are the SDK's; only what the code reads is here.
use continuum_plugin_whmcs_l.Prelude.{String, Bool, List, Option}
use continuum_plugin_whmcs_l.Whmcs.Http.{WhmcsError}
use continuum_plugin_whmcs_l.Whmcs.Oauth.{UserInfo}
use continuum_plugin_whmcs_l.Json.{Members}

pub data Code : Type 0 where
  unimplemented failed_precondition invalid_argument unauthenticated internal permission_denied :
      Code

-- One constructor for each `status.Error` of the file.
pub data AuthError : Type 0 where
  password_login not_configured no_refresh_token entropy missing_verifier missing_state : AuthError
  state_mismatch admin_api_required no_client_info no_client_found product_gate : AuthError
  refresh_failed exchange_failed userinfo_failed : WhmcsError → AuthError
  client_failed products_failed : WhmcsError → AuthError

unfoldable pub code_of : AuthError → Code
code_of password_login = unimplemented
code_of not_configured = failed_precondition
code_of no_refresh_token = unimplemented
code_of entropy = internal
code_of missing_verifier = invalid_argument
code_of missing_state = unauthenticated
code_of state_mismatch = unauthenticated
code_of admin_api_required = failed_precondition
code_of no_client_info = permission_denied
code_of no_client_found = permission_denied
code_of product_gate = permission_denied
code_of (refresh_failed e) = unauthenticated
code_of (exchange_failed e) = internal
code_of (userinfo_failed e) = internal
code_of (client_failed e) = internal
code_of (products_failed e) = internal

-- The claims' keys with their values; `none` is a key that is not set.
pub record Claims : Type 0 where
  pub raw_userinfo : UserInfo
  pub refresh_token : Option String
  pub link_by_email : Bool
  pub products : Option (List String)
  pub discord_id : Option String
  pub silo_role : Option String

pub record AuthenticateResponse : Type 0 where
  pub external_subject : String
  pub display_name : String
  pub email : String
  pub claims : Claims

-- The detail of an audit line: a text, or the text of an error.
pub data Detail : Type 0 where
  text : String → Detail
  error_text : WhmcsError → Detail

pub record AuditLine : Type 0 where
  pub decision : String
  pub email : String
  pub subject : String
  pub reason : String
  pub detail : Detail

-- `ExchangeCodeRequest`; a nil `provider_state` is an empty map.
pub record ExchangeRequest : Type 0 where
  pub code : String
  pub state : String
  pub redirect_uri : String
  pub provider_state : Members

-- `RefreshSessionRequest`
pub record RefreshRequest : Type 0 where
  pub external_subject : String
  pub refresh_state : Option Members

-- `InitAuthorizeRequest`
pub record InitRequest : Type 0 where
  pub redirect_uri : String
  pub state : String
