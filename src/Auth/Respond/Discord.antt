-- ===== src/Auth/Respond/Discord.antt =====
-- What the call for a client's details decides of a login.
use continuum_plugin_whmcs_l.Prelude.{
  String, ◌||◌, none, some, Result, ok, err, ◌≡◌, refl, Bool-cases, Result-cases, inl, inr,
}
use continuum_plugin_whmcs_l.Prelude.Steps.{Steps}
use continuum_plugin_whmcs_l.Runtime.Config.{Config}
use continuum_plugin_whmcs_l.Whmcs.Http.{WhmcsError}
use continuum_plugin_whmcs_l.Whmcs.Oauth.{UserInfo}
use continuum_plugin_whmcs_l.Whmcs.Types.{ClientDetails, EntitlementApi}
use continuum_plugin_whmcs_l.Auth.Types.{AuthError, AuthenticateResponse}
use continuum_plugin_whmcs_l.Auth.Respond.{
  Session, gates, maps_roles, audit, resolve_client, owned_products, discord_id, entitled,
  evaluated, build_response,
}

-- The answer without its Discord id, and the audit log.
abbrev pub but_discord :
    Result AuthError AuthenticateResponse → Result AuthError AuthenticateResponse
but_discord (ok r) = ok (record r { claims = record r.claims { discord_id = none } })
but_discord (err e) = err e

module _ {S : Type 0} (cfg : Config) (api : EntitlementApi S) (ui : UserInfo) where
  -- The same client of the admin API but for its call for the details.
  abbrev pub with_details : (String → Steps S WhmcsError ClientDetails) → EntitlementApi S
  with_details f = record api { get_clients_details = f }

  resolve_client-with_details :
      (f : String → Steps S WhmcsError ClientDetails)
      → resolve_client cfg (with_details f) ui ≡ resolve_client cfg api ui
  unfolding resolve_client
  resolve_client-with_details f = refl

  owned_products-with_details :
      (f : String → Steps S WhmcsError ClientDetails) (client_id : String) (s : Session S)
      → owned_products cfg (with_details f) ui client_id s ≡ owned_products cfg api ui client_id s
  unfolding owned_products
  owned_products-with_details f client_id s = refl

  -- Whatever the call for a client's details gives or fails with, the login comes to the same: the same
  -- error, or the same answer but for the Discord id, and the same audit log.
  pub build_response_details :
      (f : String → Steps S WhmcsError ClientDetails) (token : String) (s : Session S)
      → (but_discord (build_response cfg (some (with_details f)) ui token s).0
          ≡ but_discord (build_response cfg (some api) ui token s).0)
        × ((build_response cfg (some (with_details f)) ui token s).1.log
            ≡ (build_response cfg (some api) ui token s).1.log)
  unfolding build_response evaluated entitled discord_id audit
  build_response_details f token s =
      elim (Bool-cases (gates cfg || maps_roles cfg || cfg.fetch_discord_id)) [
        | inr simple ↦ rw simple (refl, refl)
        | inl needed ↦ elim (Result-cases (resolve_client cfg api ui s).0) [
          | inr (e, unresolved) ↦
              rw (needed, resolve_client-with_details f, unresolved) (refl, refl)
          | inl (client_id, resolved) ↦
              let s₁ = (resolve_client cfg api ui s).1 in
              elim (Result-cases (owned_products cfg api ui client_id s₁).0) [
                | inr (e, refused) ↦
                    rw
                      (
                        needed,
                        resolve_client-with_details f,
                        resolved,
                        owned_products-with_details f client_id s₁,
                        refused,
                      )
                      (refl, refl)
                | inl (products, owned) ↦ elim (Bool-cases cfg.fetch_discord_id) [
                  | inl on ↦
                      rw
                        (
                          needed,
                          resolve_client-with_details f,
                          resolved,
                          owned_products-with_details f client_id s₁,
                          owned,
                          on,
                        )
                        (refl, refl)
                  | inr off ↦
                      rw
                        (
                          needed,
                          resolve_client-with_details f,
                          resolved,
                          owned_products-with_details f client_id s₁,
                          owned,
                          off,
                        )
                        (refl, refl)
                ]
              ]
        ]
      ]
