-- ===== src/Auth/Server/Granted.antt =====
-- What a login or a refresh that succeeds rests on.
use continuum_plugin_whmcs_l.Prelude.{
  String, true, false, ◌==◌, ◌||◌, Result, ok, err, ◌≡◌, ◌≢◌, ◌⊎◌, inl, inr, ap, arith, eq_iff,
  Bool-cases,
}
use continuum_plugin_whmcs_l.Prelude.Steps.{bind-eq-ok}
use continuum_plugin_whmcs_l.Runtime.Config.{Config}
use continuum_plugin_whmcs_l.Whmcs.Http.{World, WhmcsError}
use continuum_plugin_whmcs_l.Whmcs.Oauth
use continuum_plugin_whmcs_l.Whmcs.Oauth.{
  TokenResponse, UserInfo, fetch_user_info, RefreshParams, ExchangeParams,
}
use continuum_plugin_whmcs_l.Auth.Types.{
  AuthenticateResponse, ExchangeRequest, RefreshRequest, userinfo_failed, exchange_failed,
}
use continuum_plugin_whmcs_l.Auth.Respond.{Session, outside, audit, gates, maps_roles}
use continuum_plugin_whmcs_l.Auth.Respond.Gate.{
  outside-eq-ok, IsGranted, build_response_sound, build_response-subject,
}
use continuum_plugin_whmcs_l.Auth.Server.{
  ApiSource, entitlement_api, is_configured, exchange_params, stored_token, carried, refreshed,
  finish, exchange_verified, exchange_code, refresh_with, refresh_session, verifier_of,
  expected_state,
}
use continuum_plugin_whmcs_l.Auth.Server.Closed.{IsBound, exchange_code-IsBound}

module _ (w : World) (apis : ApiSource w.State) (cfg : Config) where
  -- The answer is about the user of whom WHMCS told for some access token, and where products or roles
  -- are configured it is granted for that user.
  pub record IsLogin (r : AuthenticateResponse) : Type 0 where
    pub ui : UserInfo
    pub access_token : String
    pub before : w.State
    pub after : w.State
    pub told : fetch_user_info w cfg.whmcs_server_url access_token before ≡ (ok ui, after)
    pub subject : r.external_subject ≡ ui.sub
    pub granted :
        ((gates cfg || maps_roles cfg) ≡ false) ⊎ IsGranted cfg (entitlement_api apis cfg) ui r

  finish-IsLogin :
      (tok : TokenResponse) (token : String) (r : AuthenticateResponse) (s t : Session w.State)
      → finish w apis cfg tok token s ≡ (ok r, t)
      → IsLogin r
  unfolding finish
  finish-IsLogin tok token r s t h =
      let (ui, s₁, told, h₁) =
        bind-eq-ok
          (outside userinfo_failed (fetch_user_info w cfg.whmcs_server_url tok.access_token)) _ s r
          t h in
      let (after, call) =
        outside-eq-ok userinfo_failed (fetch_user_info w cfg.whmcs_server_url tok.access_token) s s₁
          ui told in
      record {
        ui = ui;
        access_token = tok.access_token;
        before = s.world;
        after = after;
        told = call;
        subject = build_response-subject cfg (entitlement_api apis cfg) ui token r s₁ t h₁;
        granted = elim (Bool-cases (gates cfg || maps_roles cfg)) [
          | inl wanted ↦
              inr (build_response_sound cfg (entitlement_api apis cfg) ui token r s₁ t h₁ wanted)
          | inr unasked ↦ inl unasked
        ];
      }

  exchange_verified-IsLogin :
      (req : ExchangeRequest) (verifier : String) (r : AuthenticateResponse) (s t : Session w.State)
      → exchange_verified w apis cfg req verifier s ≡ (ok r, t)
      → IsLogin r
  unfolding exchange_verified
  exchange_verified-IsLogin req verifier r s t h =
      let (tok, s₁, sent, h₁) =
        bind-eq-ok
          (outside exchange_failed (Oauth.exchange_code w (exchange_params cfg req verifier))) _ s r
          t h in
      finish-IsLogin tok tok.refresh_token r s₁ t h₁

  -- A code exchange that succeeds belongs to the login that was begun, is about the user of whom WHMCS
  -- told, and where products or roles are configured it rests on an answer of WHMCS on a client's
  -- products, which the claims list, which give the role, and which pass the gate.
  pub exchange_code-IsLogin :
      (req : ExchangeRequest) (r : AuthenticateResponse) (s t : Session w.State)
      → exchange_code w apis cfg req s ≡ (ok r, t)
      → IsBound cfg req × IsLogin r
  unfolding exchange_code
  exchange_code-IsLogin req r s t h =
      let bound = exchange_code-IsBound w apis cfg req s r (ap (λ x. x.0) h) in
      let same : (req.state == expected_state req) ≡ true =
        (eq_iff req.state (expected_state req)).1 bound.same in
      let no_verifier : (verifier_of req == "") ≡ false =
        ground (arith, eq_iff (verifier_of req) "", bound.verifier) in
      let no_state : (expected_state req == "") ≡ false =
        ground (arith, eq_iff (expected_state req) "", bound.stored) in
      (
        bound,
        exchange_verified-IsLogin req (verifier_of req) r s t
            (rw (bound.configured, no_verifier, no_state, same) at h),
      )

  refreshed-IsLogin :
      (req : RefreshRequest) (old : String) (res : Result WhmcsError TokenResponse)
      (r : AuthenticateResponse) (s t : Session w.State)
      → refreshed w apis cfg req old res s ≡ (ok r, t)
      → IsLogin r
  unfolding audit
  refreshed-IsLogin req old (ok tok) r s t h = finish-IsLogin tok (carried tok old) r s t h
  refreshed-IsLogin req old (err e) r s t h = absurd (let f = ap (λ x. x.0) h in cc)

  -- A refresh that succeeds had a configured server and a stored refresh token, is about the user of whom
  -- WHMCS told, and passes the same evaluation of products and roles as a login.
  pub refresh_session-IsLogin :
      (req : RefreshRequest) (r : AuthenticateResponse) (s t : Session w.State)
      → refresh_session w apis cfg req s ≡ (ok r, t)
      → (is_configured cfg ≡ true) × (stored_token req.refresh_state ≢ "") × IsLogin r
  unfolding refresh_session refresh_with
  refresh_session-IsLogin req r s t h = elim (Bool-cases (is_configured cfg)) [
    | inr bare ↦ absurd (let f = rw bare at h in cc)
    | inl set ↦ elim (Bool-cases (stored_token req.refresh_state == "")) [
      | inl lost ↦ absurd (let f = rw (set, lost) at h in cc)
      | inr kept ↦ (
        set,
        ground (arith, eq_iff (stored_token req.refresh_state) ""),
        refreshed-IsLogin req (stored_token req.refresh_state) _ r _ t (rw (set, kept) at h),
      )
    ]
  ]
