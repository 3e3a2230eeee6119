-- ===== src/Main/Resolver.antt =====
-- The client that `main` gives the login flow: the resolver of the process with its two maps of negative
-- answers, over the client of the admin API (cmd/silo-plugin-whmcs-login/main.go).
pub mod Fresh
use continuum_plugin_whmcs_l.Prelude.{ℕ, String, Bool, Option, none, some, if◌then◌else◌}
use continuum_plugin_whmcs_l.Prelude.Steps.{Steps}
use continuum_plugin_whmcs_l.Runtime.Config.{Config}
use continuum_plugin_whmcs_l.Whmcs.Http.{World, WhmcsError}
use continuum_plugin_whmcs_l.Whmcs.Types.{EntitlementApi}
use continuum_plugin_whmcs_l.Whmcs.Entitlements.{Expiries, Held}
use continuum_plugin_whmcs_l.Whmcs.Entitlements
use continuum_plugin_whmcs_l.Auth.Server.{ApiSource}
use continuum_plugin_whmcs_l.Main.{Process, live_config}

-- `negativeLookupTTL`, in nanoseconds.
abbrev pub negative_lookup_ttl : ℕ
negative_lookup_ttl = 30_000_000_000

-- The outside world with `negEmail` and `negProd`.
pub record Shared (S : Type 0) : Type 0 where
  pub by_email : Expiries
  pub by_client : Expiries
  pub world : S

-- The same world for the calls that do not go through the resolver.
abbrev pub lifted {ℓ} : {S : Type 0} {A : Type ℓ} → (S → A × S) → Shared S → A × Shared S
lifted m s = let (a, world) = m s.world in (a, record s { world = world })

abbrev pub shared_world : World → World
shared_world w = record {
  State = Shared w.State;
  send = λ request. lifted (w.send request);
  now = lifted w.now;
  sleep = λ d. lifted (w.sleep d);
  cancelled = λ s. w.cancelled s.world;
  draw = λ n. lifted (w.draw n);
}

abbrev pub direct_client : {S : Type 0} → EntitlementApi S → EntitlementApi (Shared S)
direct_client api = record {
  get_client_by_email = λ email. lifted (api.get_client_by_email email);
  get_clients_products = λ id. lifted (api.get_clients_products id);
  get_clients_details = λ id. lifted (api.get_clients_details id);
}

module _ (w : World) where
  abbrev pub on_emails :
      {A : Type 0} → Steps (Held w.State) WhmcsError A → Steps (Shared w.State) WhmcsError A
  on_emails m s =
      let (out, held) = m (record { negatives = s.by_email; world = s.world }) in
      (out, record s { by_email = held.negatives; world = held.world })

  abbrev pub on_clients :
      {A : Type 0} → Steps (Held w.State) WhmcsError A → Steps (Shared w.State) WhmcsError A
  on_clients m s =
      let (out, held) = m (record { negatives = s.by_client; world = s.world }) in
      (out, record s { by_client = held.negatives; world = held.world })

  -- `entitlementClient`
  abbrev pub resolver_client : EntitlementApi w.State → EntitlementApi (Shared w.State)
  resolver_client api = record {
    get_client_by_email =
        λ email. on_emails (Entitlements.get_client_by_email w negative_lookup_ttl api email);
    get_clients_products =
        λ id. on_clients (Entitlements.get_clients_products w negative_lookup_ttl api id);
    get_clients_details = λ id. lifted (api.get_clients_details id);
  }

  -- `whmcs.NewAPIClient` is a parameter here: the client by its operations.
  module _ (new_client : String → String → String → EntitlementApi w.State) where
    abbrev pub client_for : Config → EntitlementApi w.State
    client_for c = new_client c.whmcs_server_url c.whmcs_admin_api_id c.whmcs_admin_api_secret

    -- What `resolverPtr` holds.
    abbrev pub resolver : Process → Option (EntitlementApi (Shared w.State))
    resolver p = if p.has_api then some (resolver_client (client_for (live_config p))) else none

    -- What the login server has of clients: the function of `SetAPIFn`, and a client for each login.
    abbrev pub api_source : Process → ApiSource (Shared w.State)
    api_source p = record {
      shared = some (λ c. resolver p);
      new_client = λ url id secret. direct_client (new_client url id secret);
    }
