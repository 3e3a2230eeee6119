-- ===== src/Whmcs/Oauth.antt =====
-- internal/whmcs/oauth.go: the authorize URL, the token exchange, the refresh and the userinfo.
pub mod Laws
use continuum_plugin_whmcs_l.Prelude.{
  ℕ, String, ◌<>◌, Bool, true, false, ◌&&◌, not, List, [], ◌∷◌, Option, none, some, ◌==◌, Result,
  ok, err, leb, if◌then◌else◌,
}
use continuum_plugin_whmcs_l.Prelude.Int.{ℤ, pos}
use continuum_plugin_whmcs_l.Prelude.Steps.{Steps, from_result, ◌>>=◌}
use continuum_plugin_whmcs_l.Text.{trim_space, trim_right_slash, equal_fold}
use continuum_plugin_whmcs_l.Json.{
  Value, null, obj, Members, string_field, int_field, unmarshal, ◌>>=◌ as ◌>>=?◌,
}
use continuum_plugin_whmcs_l.Whmcs.Http.{
  World, Request, Operation, token_endpoint, refresh_token_endpoint, userinfo_endpoint, WhmcsError,
  decode, missing_access_token, missing_subject, status, unsupported_token_type, do_form,
}

pub record AuthorizeParams : Type 0 where
  pub server_url : String
  pub client_id : String
  pub redirect_uri : String
  pub state : String
  pub code_challenge : String
  pub code_challenge_method : String
  pub scope : String

-- A URL with its query as `url.Values.Encode` orders it, by key; the escaping is left out.
pub record AuthorizeUrl : Type 0 where
  pub base : String
  pub query : List (String × String)

abbrev or_default : String → String → String
or_default s d = if s == "" then d else s

unfoldable pub build_authorize_url : AuthorizeParams → AuthorizeUrl
build_authorize_url p =
    let rest =
      ("redirect_uri", p.redirect_uri)
      ∷ ("response_type", "code")
      ∷ ("scope", or_default p.scope "openid profile email")
      ∷ ("state", p.state)
      ∷ [] in
    let challenge =
      ("code_challenge", p.code_challenge)
      ∷ ("code_challenge_method", or_default p.code_challenge_method "S256")
      ∷ rest in
    record {
      base = trim_right_slash p.server_url <> "/oauth/authorize.php";
      query = ("client_id", p.client_id) ∷ (if p.code_challenge == "" then rest else challenge);
    }

pub record TokenResponse : Type 0 where
  pub access_token : String
  pub id_token : String
  pub refresh_token : String
  pub token_type : String
  pub expires_in : ℤ

pub record ExchangeParams : Type 0 where
  pub server_url : String
  pub client_id : String
  pub client_secret : String
  pub code : String
  pub redirect_uri : String
  pub code_verifier : String

pub record RefreshParams : Type 0 where
  pub server_url : String
  pub client_id : String
  pub client_secret : String
  pub refresh_token : String

pub record UserInfo : Type 0 where
  pub sub : String
  pub id : String
  pub email : String
  pub name : String
  pub picture : String
  pub given_name : String
  pub family_name : String

abbrev pub no_token : TokenResponse
no_token = record {
  access_token = "";
  id_token = "";
  refresh_token = "";
  token_type = "";
  expires_in = pos 0;
}

abbrev token_members : Members → Option TokenResponse
token_members m = string_field "access_token" "" m >>=? λ access.
    string_field "id_token" "" m >>=? λ id. string_field "refresh_token" "" m >>=? λ refresh.
    string_field "token_type" "" m >>=? λ type. int_field "expires_in" (pos 0) m >>=? λ expires.
    some (record {
      access_token = access;
      id_token = id;
      refresh_token = refresh;
      token_type = type;
      expires_in = expires;
    })

abbrev trimmed_token : TokenResponse → TokenResponse
trimmed_token t = record t {
  access_token = trim_space t.access_token;
  refresh_token = trim_space t.refresh_token;
  token_type = trim_space t.token_type;
}

abbrev check_token : Operation → TokenResponse → Result WhmcsError TokenResponse
check_token op t =
    if t.access_token == ""
    then err (missing_access_token op)
    else if not (t.token_type == "") && not (equal_fold t.token_type "Bearer")
    then err (unsupported_token_type op t.token_type)
    else ok t

-- The common end of `ExchangeCode` and `RefreshAccessToken`.
unfoldable pub read_token : Operation → ℕ × Option Value → Result WhmcsError TokenResponse
read_token op (code, body) =
    if leb 400 code then err (status op code) else elim (unmarshal token_members no_token body) [
      | none ↦ err (decode op)
      | some t ↦ check_token op (trimmed_token t)
    ]

abbrev no_user : UserInfo
no_user = record {
  sub = "";
  id = "";
  email = "";
  name = "";
  picture = "";
  given_name = "";
  family_name = "";
}

abbrev user_members : Members → Option UserInfo
user_members m = string_field "sub" "" m >>=? λ sub. string_field "id" "" m >>=? λ id.
    string_field "email" "" m >>=? λ email. string_field "name" "" m >>=? λ name.
    string_field "picture" "" m >>=? λ picture. string_field "given_name" "" m >>=? λ given_name.
    string_field "family_name" "" m >>=? λ family_name. some (record {
      sub = sub;
      id = id;
      email = email;
      name = name;
      picture = picture;
      given_name = given_name;
      family_name = family_name;
    })

abbrev trimmed_user : UserInfo → UserInfo
trimmed_user u = record u {
  sub = trim_space u.sub;
  id = trim_space u.id;
  email = trim_space u.email;
}

abbrev check_user : UserInfo → Result WhmcsError UserInfo
check_user u =
    if u.sub == ""
    then (if u.id == ""
        then err (missing_subject userinfo_endpoint)
        else ok (record u { sub = u.id }))
    else ok u

unfoldable pub read_user : ℕ × Option Value → Result WhmcsError UserInfo
read_user (code, body) =
    if leb 400 code
    then err (status userinfo_endpoint code)
    else elim (unmarshal user_members no_user body) [
      | none ↦ err (decode userinfo_endpoint)
      | some u ↦ check_user (trimmed_user u)
    ]

module _ (w : World) where
  unfoldable pub exchange_code : ExchangeParams → Steps w.State WhmcsError TokenResponse
  unfolding do_form read_token
  exchange_code p = do
    reply ← do_form w token_endpoint (record {
      method = "POST";
      endpoint = trim_right_slash p.server_url <> "/oauth/token.php";
      form = some (
          ("grant_type", "authorization_code")
          ∷ ("code", p.code)
          ∷ ("redirect_uri", p.redirect_uri)
          ∷ ("code_verifier", p.code_verifier)
          ∷ ("client_id", p.client_id)
          ∷ ("client_secret", p.client_secret)
          ∷ []);
      bearer = none;
    })
    from_result (read_token token_endpoint reply)

  unfoldable pub refresh_access_token : RefreshParams → Steps w.State WhmcsError TokenResponse
  unfolding do_form read_token
  refresh_access_token p = do
    reply ← do_form w refresh_token_endpoint (record {
      method = "POST";
      endpoint = trim_right_slash p.server_url <> "/oauth/token.php";
      form = some (
          ("grant_type", "refresh_token")
          ∷ ("refresh_token", p.refresh_token)
          ∷ ("client_id", p.client_id)
          ∷ ("client_secret", p.client_secret)
          ∷ []);
      bearer = none;
    })
    from_result (read_token refresh_token_endpoint reply)

  unfoldable pub fetch_user_info : String → String → Steps w.State WhmcsError UserInfo
  unfolding do_form read_user
  fetch_user_info server_url access_token = do
    reply ← do_form w userinfo_endpoint (record {
      method = "GET";
      endpoint = trim_right_slash server_url <> "/oauth/userinfo.php";
      form = none;
      bearer = some access_token;
    })
    from_result (read_user reply)
