-- ===== src/Auth/Server/Closed.antt =====
-- Requests that are refused before anything is sent.
use continuum_plugin_whmcs_l.Prelude.{
  true, false, ◌==◌, ok, err, ◌≡◌, ◌≢◌, ◌⊎◌, refl, sym, ap, ◌∙◌, arith, eq_iff, inl, inr,
  Bool-cases,
}
use continuum_plugin_whmcs_l.Runtime.Config.{Config}
use continuum_plugin_whmcs_l.Whmcs.Http.{World}
use continuum_plugin_whmcs_l.Auth.Types.{
  AuthError, not_configured, missing_verifier, missing_state, state_mismatch, AuthenticateResponse,
  ExchangeRequest, RefreshRequest,
}
use continuum_plugin_whmcs_l.Auth.Respond.{Session}
use continuum_plugin_whmcs_l.Auth.Server.{
  ApiSource, is_configured, exchange_code, refresh_session, verifier_of, expected_state,
}

-- The server is configured, and the callback belongs to the login that was begun.
pub record IsBound (cfg : Config) (req : ExchangeRequest) : Type 0 where
  pub configured : is_configured cfg ≡ true
  pub verifier : verifier_of req ≢ ""
  pub stored : expected_state req ≢ ""
  pub same : req.state ≡ expected_state req

module _ (w : World) (apis : ApiSource w.State) (cfg : Config) where
  exchange_code_cases :
      (req : ExchangeRequest) (s : Session w.State)
      → IsBound cfg req ⊎ ((e : AuthError) × (exchange_code w apis cfg req s ≡ (err e, s)))
  unfolding exchange_code
  exchange_code_cases req s = elim (Bool-cases (is_configured cfg)) [
    | inr bare ↦ inr (not_configured, rw bare refl)
    | inl set ↦ elim (Bool-cases (verifier_of req == "")) [
      | inl lost ↦ inr (missing_verifier, rw (set, lost) refl)
      | inr kept ↦ elim (Bool-cases (expected_state req == "")) [
        | inl lost ↦ inr (missing_state, rw (set, kept, lost) refl)
        | inr stored ↦ elim (Bool-cases (req.state == expected_state req)) [
          | inr other ↦ inr (state_mismatch, rw (set, kept, stored, other) refl)
          | inl same ↦ inl (record {
            configured = set;
            verifier = ground (arith, eq_iff (verifier_of req) "");
            stored = ground (arith, eq_iff (expected_state req) "");
            same = (eq_iff req.state (expected_state req)).0 same;
          })
        ]
      ]
    ]
  ]

  -- The code exchange is bound to the login that was begun: unless the server is configured and the
  -- request carries a verifier and a stored state that is not empty and equals the callback's state, it
  -- fails, and nothing has been sent, logged or changed.
  pub exchange_code_closed :
      (req : ExchangeRequest) (s : Session w.State)
      → ¬ IsBound cfg req
      → (e : AuthError) × (exchange_code w apis cfg req s ≡ (err e, s))
  exchange_code_closed req s h = elim (exchange_code_cases req s) [
    | inl bound ↦ absurd (h bound)
    | inr closed ↦ closed
  ]

  pub exchange_code-IsBound :
      (req : ExchangeRequest) (s : Session w.State) (r : AuthenticateResponse)
      → (exchange_code w apis cfg req s).0 ≡ ok r
      → IsBound cfg req
  exchange_code-IsBound req s r h = elim (exchange_code_cases req s) [
    | inl bound ↦ bound
    | inr (e, closed) ↦ absurd (let f : ok r ≡ err e = sym h ∙ ap (λ x. x.0) closed in cc)
  ]

  -- Without a server, a client id or a client secret both flows fail as not configured, and nothing has
  -- been sent, logged or changed.
  pub not_configured_closed :
      (req : ExchangeRequest) (old : RefreshRequest) (s : Session w.State)
      → is_configured cfg ≡ false
      → (exchange_code w apis cfg req s ≡ (err not_configured, s))
        × (refresh_session w apis cfg old s ≡ (err not_configured, s))
  unfolding exchange_code refresh_session
  not_configured_closed req old s h = (rw h refl, rw h refl)
