-- ===== src/Examples.antt =====
-- Concrete inputs, and the theorems at them. One WHMCS server with one user, who owns product 12.
mod Pure
mod Settings
mod Login
mod Calls
mod Api
mod Admin
mod Http
mod Process
mod Flights
mod Storm
mod Herd
mod Overlap
mod Resolver
mod Life
use continuum_plugin_whmcs_l.Prelude.{
  ℕ, ◌+◌, String, Bool, true, false, List, [], ◌∷◌, Option, none, some, ◌==◌, ok, err,
  if◌then◌else◌,
}
use continuum_plugin_whmcs_l.Prelude.Int.{pos}
use continuum_plugin_whmcs_l.Json.{Value, Members, str, obj, end, member}
use continuum_plugin_whmcs_l.Runtime.Address.{v4}
use continuum_plugin_whmcs_l.Runtime.Url.{Url, Platform}
use continuum_plugin_whmcs_l.Runtime.Config.{Config, zero_config}
use continuum_plugin_whmcs_l.Whmcs.Http.{Reply, unreachable, answered, World}
use continuum_plugin_whmcs_l.Whmcs.Types.{EntitlementApi, ClientProduct}
use continuum_plugin_whmcs_l.Auth.Server.{ApiSource}
use continuum_plugin_whmcs_l.Auth.Types.{ExchangeRequest, RefreshRequest}
use continuum_plugin_whmcs_l.Main.{Pools}

abbrev pub site : Url
site = record {
  scheme = "https";
  host = "whmcs.example";
  hostname = "whmcs.example";
  path = "";
  has_user = false;
  raw_query = "";
  fragment = "";
}

abbrev pub net : Platform
net = record {
  parse_url = λ s. if s == "https://whmcs.example" then some site else none;
  parse_ip = λ s. if s == "10.0.0.1" then some (v4 10 0 0 1) else none;
  lookup_ip = λ s. if s == "whmcs.example" then some (v4 93 184 216 34 ∷ []) else none;
  lookup_again = λ s. if s == "whmcs.example" then some (v4 93 184 216 35 ∷ []) else none;
  parse_json = λ s. none;
}

abbrev pub pools : Pools
pools = record { parses = λ s. true; connects = λ s. true }

abbrev pub settings : Config
settings = record zero_config {
  whmcs_server_url = "https://whmcs.example";
  client_id = "plugin";
  client_secret = "hush";
  discord_id_custom_field = "Discord ID";
  allowed_product_ids = some ("12" ∷ []);
  claim_role_mapping = some (record { product_id = "12"; role = "admin" } ∷ []);
  whmcs_admin_api_id = "admin";
  whmcs_admin_api_secret = "secret";
}

-- The replies that are still to come, and how many requests have been sent.
pub record Wire : Type 0 where
  pub replies : List Reply
  pub sent : ℕ

abbrev pub first_reply : List Reply → Reply
first_reply [] = unreachable
first_reply (r ∷ rs) = r

abbrev pub other_replies : List Reply → List Reply
other_replies [] = []
other_replies (r ∷ rs) = rs

abbrev pub world : World
world = record {
  State = Wire;
  send = λ request wire. (
    first_reply wire.replies,
    record { replies = other_replies wire.replies; sent = wire.sent + 1 },
  );
  now = λ wire. (0, wire);
  sleep = λ d wire. (false, wire);
  cancelled = λ wire. false;
  draw = λ n wire. (0, wire);
}

abbrev pub owned : List ClientProduct
owned = record { pid = pos 12; name = "Gold"; status = some "active " } ∷ []

abbrev pub client : EntitlementApi Wire
client = record {
  get_client_by_email = λ email wire. (ok none, wire);
  get_clients_products = λ id wire. (ok owned, wire);
  get_clients_details = λ id wire. (
    ok (record { id = id; email = ""; first_name = ""; last_name = ""; custom_fields = [] }),
    wire,
  );
}

abbrev pub apis : ApiSource Wire
apis = record { shared = none; new_client = λ url id secret. client }

abbrev pub token_body : Value
token_body = obj (
    member "access_token" (str " abc ")
      (member "refresh_token" (str "def") (member "token_type" (str "bearer") end)))

abbrev pub user_body : Value
user_body = obj (member "sub" (str "u1") (member "id" (str "7") (member "name" (str "Ann") end)))

abbrev pub wire : Wire
wire = record {
  replies = answered 200 (some token_body) ∷ answered 200 (some user_body) ∷ [];
  sent = 0;
}

abbrev pub callback : String → ExchangeRequest
callback state = record {
  code = "code";
  state = state;
  redirect_uri = "https://host.example/callback";
  provider_state = member "pkce_verifier" (str "v") (member "state" (str "st") end);
}

abbrev pub renewal : RefreshRequest
renewal = record {
  external_subject = "u1";
  refresh_state = some (member "whmcs_refresh_token" (str "old") end);
}
