-- ===== src/Server/Bridge.antt =====
-- internal/httproutes/server.go: the host's requests as requests of an HTTP handler. Bodies are texts, and
-- the maps of a message are lists.
pub mod Laws
use continuum_plugin_whmcs_l.Prelude.{
  ℕ, String, Bool, List, [], ◌∷◌, Option, none, some, ◌==◌, if◌then◌else◌,
}
use continuum_plugin_whmcs_l.Json.{Value, Members, str, end, member}

-- `HandleHTTPRequest`
pub record HostRequest : Type 0 where
  pub method : String
  pub path : String
  pub query : Option Members
  pub headers : List (String × String)
  pub body : String

-- `HandleHTTPResponse`
pub record HostResponse : Type 0 where
  pub status_code : ℕ
  pub headers : List (String × String)
  pub body : String

-- What `httptest.NewRequest` makes, with the headers that are set on it.
pub record InnerRequest : Type 0 where
  pub method : String
  pub target : String
  pub headers : List (String × String)
  pub body : String

-- What `httptest.ResponseRecorder` has recorded.
pub record Recorded : Type 0 where
  pub code : ℕ
  pub header : List (String × List String)
  pub body : String

-- What is used of the libraries: the text of a query value, `url.Values.Encode`, `url.URL.String`, which
-- method and target `httptest.NewRequest` takes without a panic, and the canonical form of a header's name.
pub record HttpLibrary : Type 0 where
  pub value_text : Value → String
  pub encode : List (String × String) → String
  pub url_text : String → String → String
  pub accepts : String → String → Bool
  pub canonical : String → String

-- Sets a key of a map.
unfoldable pub set_value : String → String → List (String × String) → List (String × String)
set_value k v [] = (k, v) ∷ []
set_value k v ((k', v') ∷ entries) =
    let rest = set_value k v entries in if k' == k then (k, v) ∷ entries else (k', v') ∷ rest

abbrev pub string_or_text : HttpLibrary → Value → String
string_or_text lib (str s) = if s == "" then lib.value_text (str s) else s
string_or_text lib v = lib.value_text v

-- The loop over the fields of the query.
unfoldable pub query_values :
    HttpLibrary → Members → List (String × String) → List (String × String)
unfolding set_value
query_values lib end vals = vals
query_values lib (member k v rest) vals =
    query_values lib rest (set_value k (string_or_text lib v) vals)

unfoldable pub query_text : HttpLibrary → Option Members → String
unfolding query_values
query_text lib none = ""
query_text lib (some fields) = lib.encode (query_values lib fields [])

-- The loop over the headers of the request.
unfoldable pub set_headers :
    HttpLibrary → List (String × String) → List (String × String) → List (String × String)
unfolding set_value
set_headers lib [] acc = acc
set_headers lib ((k, v) ∷ headers) acc = set_headers lib headers (set_value (lib.canonical k) v acc)

abbrev pub method_of : HostRequest → String
method_of req = if req.method == "" then "GET" else req.method

unfoldable pub inner_request : HttpLibrary → HostRequest → InnerRequest
unfolding query_text set_headers
inner_request lib req = record {
  method = method_of req;
  target = lib.url_text req.path (query_text lib req.query);
  headers = set_headers lib req.headers [];
  body = req.body;
}

-- The loop over the headers that were recorded.
unfoldable pub first_values : List (String × List String) → List (String × String)
first_values [] = []
first_values ((k, []) ∷ header) = first_values header
first_values ((k, v ∷ vs) ∷ header) = (k, v) ∷ first_values header

abbrev pub not_ready : HostResponse
not_ready = record {
  status_code = 503;
  headers = ("Content-Type", "application/json") ∷ [];
  body = "{\"error\":{\"code\":\"not_ready\",\"message\":\"plugin not configured\"}}";
}

abbrev pub host_response : Recorded → HostResponse
unfolding first_values
host_response rec = record {
  status_code = rec.code;
  headers = first_values rec.header;
  body = rec.body;
}

-- `Server`, by its handler.
pub record Bridge : Type 0 where
  pub handler : Option (InnerRequest → Recorded)

-- `NewServer`
abbrev pub new_server : Bridge
new_server = record { handler = none }

-- `SetHandler`; `none` is a nil handler.
abbrev pub set_handler : Option (InnerRequest → Recorded) → Bridge → Bridge
set_handler h b = record b { handler = h }

-- `Handle`; none where the library panics.
unfoldable pub handle : HttpLibrary → Bridge → HostRequest → Option HostResponse
unfolding inner_request first_values
handle lib b req = elim b.handler [
  | none ↦ some not_ready
  | some serve ↦
      let inner = inner_request lib req in
      if lib.accepts inner.method inner.target then some (host_response (serve inner)) else none
]
