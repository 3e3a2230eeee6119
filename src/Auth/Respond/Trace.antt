-- ===== src/Auth/Respond/Trace.antt =====
-- The audit lines of `buildResponse`.
use continuum_plugin_whmcs_l.Prelude.{
  String, List, [], ◌∷◌, ◌++◌, map, Option, none, some, ◌==◌, Result, ok, err, ◌≡◌, inl, inr, refl,
  sym, ap, ◌∙◌, Bool-cases, elems, not, ◌&&◌, ◌||◌, Result-cases,
}
use mathlib.Core.List.{append-nil, map-append}
use continuum_plugin_whmcs_l.Prelude.Steps.{Steps, pure, follow, ◌>>=◌}
use continuum_plugin_whmcs_l.Runtime.Config.{Config}
use continuum_plugin_whmcs_l.Whmcs.Http.{WhmcsError}
use continuum_plugin_whmcs_l.Whmcs.Oauth.{UserInfo}
use continuum_plugin_whmcs_l.Whmcs.Types.{Client, EntitlementApi}
use continuum_plugin_whmcs_l.Auth.Products.{active_product_ids, any_match}
use continuum_plugin_whmcs_l.Auth.Types.{
  AuthError, no_client_info, no_client_found, product_gate, client_failed, products_failed, Claims,
  AuditLine, Detail, text,
}
use continuum_plugin_whmcs_l.Auth.Respond.{
  Session, AuthSteps, gates, maps_roles, outside, audit, deny, found_client, resolve_client,
  check_gate, owned_products, discord_id, entitled, first_claims, with_api, evaluated,
  build_response,
}

-- A line without its email and its detail.
pub record Tag : Type 0 where
  pub decision : String
  pub reason : String
  pub subject : String

abbrev pub tag : AuditLine → Tag
tag l = record { decision = l.decision; reason = l.reason; subject = l.subject }

abbrev pub denial : String → AuthError → List Tag
denial sub no_client_info = record { decision = "deny"; reason = "no-client"; subject = sub } ∷ []
denial sub no_client_found = record { decision = "deny"; reason = "no-client"; subject = sub } ∷ []
denial sub product_gate =
    record { decision = "deny"; reason = "product-gate-failed"; subject = sub } ∷ []
denial sub _ = []

-- What a result adds to the log: lines for a value, and the denial that an error stands for.
abbrev pub trace : {A : Type 0} → List Tag → String → Result AuthError A → List Tag
trace lines sub (ok a) = lines
trace lines sub (err e) = denial sub e

module _ {S : Type 0} where
  record Traces {A : Type 0} (lines : List Tag) (sub : String) (m : AuthSteps S A) : Type 0 where
    law : (s : Session S) → map tag (m s).1.log ≡ map tag s.log ++ trace lines sub (m s).0

  pure-Traces : {A : Type 0} (sub : String) (a : A) → Traces [] sub (pure a)
  pure-Traces sub a = record { law = λ s. sym (append-nil (map tag s.log)) }

  follow-Traces :
      {A B : Type 0} (lines : List Tag) (sub : String) (r : Result AuthError A)
      (f : A → AuthSteps S B) (s t : Session S)
      → map tag t.log ≡ map tag s.log ++ trace [] sub r
      → ((a : A) → Traces lines sub (f a))
      → map tag (follow r f t).1.log ≡ map tag s.log ++ trace lines sub (follow r f t).0
  follow-Traces lines sub (ok a) f s t e next =
      (next a).law t ∙ ap (λ l. l ++ trace lines sub (f a t).0) (e ∙ append-nil (map tag s.log))
  follow-Traces lines sub (err x) f s t e next = e

  bind-Traces :
      {A B : Type 0} (lines : List Tag) (sub : String) (m : AuthSteps S A) (f : A → AuthSteps S B)
      → Traces [] sub m
      → ((a : A) → Traces lines sub (f a))
      → Traces lines sub (m >>= f)
  bind-Traces lines sub m f first next = record {
    law = λ s. follow-Traces lines sub (m s).0 f s (m s).1 (first.law s) next;
  }

  audit-law :
      (decision email sub reason : String) (detail : Detail) (s : Session S)
      → map tag (audit decision email sub reason detail s).1.log
        ≡ map tag s.log ++ (record { decision = decision; reason = reason; subject = sub } ∷ [])
  unfolding audit
  audit-law decision email sub reason detail s = map-append tag s.log _

-- A wrapped error is no denial.
abbrev IsSilent : String → (WhmcsError → AuthError) → Type 0
IsSilent sub wrap = (e : WhmcsError) → denial sub (wrap e) ≡ []

module _ {S : Type 0} (ui : UserInfo) where
  outside-Traces :
      {A : Type 0} (wrap : WhmcsError → AuthError) (m : Steps S WhmcsError A)
      → IsSilent ui.sub wrap
      → Traces [] ui.sub (outside wrap m)
  unfolding outside
  outside-Traces wrap m silent = record {
    law = λ s. elim (Result-cases (m s.world).0) [
      | inl (a, e) ↦ rw e (sym (append-nil (map tag s.log)))
      | inr (x, e) ↦ rw (e, silent x) (sym (append-nil (map tag s.log)))
    ];
  }

  module _ (cfg : Config) (api : EntitlementApi S) where
    found_client-Traces : (c : Option Client) → Traces [] ui.sub (found_client cfg api ui c)
    unfolding found_client deny
    found_client-Traces none = record { law = audit-law "deny" ui.email ui.sub "no-client" _ }
    found_client-Traces (some client) = elim (Bool-cases (client.id == "")) [
      | inl blank ↦ rw blank (record { law = audit-law "deny" ui.email ui.sub "no-client" _ })
      | inr given ↦ rw given (pure-Traces ui.sub client.id)
    ]

    resolve_client-Traces : Traces [] ui.sub (resolve_client cfg api ui)
    unfolding resolve_client deny
    resolve_client-Traces = elim (Bool-cases (ui.id == "")) [
      | inr given ↦ rw given (pure-Traces ui.sub ui.id)
      | inl missing ↦ elim (Bool-cases (ui.email == "")) [
        | inl blank ↦
            rw (missing, blank) (record { law = audit-law "deny" ui.email ui.sub "no-client" _ })
        | inr known ↦
            rw (missing, known)
              (bind-Traces [] ui.sub (outside client_failed (api.get_client_by_email ui.email)) _
                (outside-Traces client_failed (api.get_client_by_email ui.email) (λ e. refl))
                found_client-Traces)
      ]
    ]

    check_gate-Traces :
        (client_id : String) (owned : List String)
        → Traces [] ui.sub (check_gate cfg api ui client_id owned)
    unfolding check_gate deny
    check_gate-Traces client_id owned =
        elim (Bool-cases (gates cfg && not (any_match (elems cfg.allowed_product_ids) owned))) [
          | inl refused ↦
              rw refused (record { law = audit-law "deny" ui.email ui.sub "product-gate-failed" _ })
          | inr passed ↦ rw passed (pure-Traces ui.sub owned)
        ]

    owned_products-Traces :
        (client_id : String) → Traces [] ui.sub (owned_products cfg api ui client_id)
    unfolding owned_products
    owned_products-Traces client_id = elim (Bool-cases (gates cfg || maps_roles cfg)) [
      | inr unasked ↦ rw unasked (pure-Traces ui.sub none)
      | inl asked ↦ rw asked (
          bind-Traces [] ui.sub (outside products_failed (api.get_clients_products client_id)) _
            (outside-Traces products_failed (api.get_clients_products client_id) (λ e. refl))
            λ prods.
              bind-Traces [] ui.sub (check_gate cfg api ui client_id (active_product_ids prods)) _
                (check_gate-Traces client_id (active_product_ids prods))
                λ owned. pure-Traces ui.sub (some owned))
    ]

    discord_id-Traces : (client_id : String) → Traces [] ui.sub (discord_id cfg api ui client_id)
    unfolding discord_id
    discord_id-Traces client_id = elim (Bool-cases cfg.fetch_discord_id) [
      | inl asked ↦ record { law = λ s. rw asked (sym (append-nil (map tag s.log))) }
      | inr unasked ↦ record { law = λ s. rw unasked (sym (append-nil (map tag s.log))) }
    ]

    entitled-Traces : (claims : Claims) → Traces [] ui.sub (entitled cfg api ui claims)
    unfolding entitled
    entitled-Traces claims =
        bind-Traces [] ui.sub (resolve_client cfg api ui) _ resolve_client-Traces λ client_id.
          bind-Traces [] ui.sub (owned_products cfg api ui client_id) _
            (owned_products-Traces client_id)
            λ products.
              bind-Traces [] ui.sub (discord_id cfg api ui client_id) _
                (discord_id-Traces client_id) λ discord. pure-Traces ui.sub _

  module _ (cfg : Config) (api : Option (EntitlementApi S)) where
    with_api-Traces :
        (a : Option (EntitlementApi S)) (claims : Claims)
        → Traces [] ui.sub (with_api cfg api ui a claims)
    with_api-Traces none claims = record { law = λ s. sym (append-nil (map tag s.log)) }
    with_api-Traces (some client) claims = entitled-Traces cfg client claims

    evaluated-Traces : (claims : Claims) → Traces [] ui.sub (evaluated cfg api ui claims)
    unfolding evaluated
    evaluated-Traces claims =
        elim (Bool-cases (gates cfg || maps_roles cfg || cfg.fetch_discord_id)) [
          | inl needed ↦ rw needed (with_api-Traces api claims)
          | inr simple ↦ rw simple (pure-Traces ui.sub claims)
        ]

    -- The audit log grows by one line "allow, success" for the subject when the user is let in, by one
    -- line "deny" for the subject when the user is denied (no client, or the product gate), and by none
    -- when a call fails or the admin API is not set up.
    pub build_response-audits :
        (token : String) (s : Session S)
        → map tag (build_response cfg api ui token s).1.log
          ≡ map tag s.log
            ++ trace
                (record { decision = "allow"; reason = "success"; subject = ui.sub } ∷ [])
                ui.sub
                (build_response cfg api ui token s).0
    unfolding build_response
    build_response-audits token s =
        (bind-Traces _ ui.sub _ _ (evaluated-Traces (first_claims cfg api ui token))
            λ claims. record { law = audit-law "allow" ui.email ui.sub "success" (text "") }).law
          s
