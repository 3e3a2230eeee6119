-- ===== src/Whmcs/Api.antt =====
-- `APIClient` (internal/whmcs/api.go).
pub mod Laws
use continuum_plugin_whmcs_l.Prelude.{
  ℕ, String, ◌<>◌, Bool, true, false, List, [], ◌∷◌, ◌++◌, Option, none, some, ◌==◌, Result, ok,
  err, leb, if◌then◌else◌,
}
use continuum_plugin_whmcs_l.Prelude.Int.{is_int}
use continuum_plugin_whmcs_l.Prelude.Steps.{Steps, from_result, ◌>>=◌}
use continuum_plugin_whmcs_l.Text.{trim_space, trim_right_slash, equal_fold_by}
use continuum_plugin_whmcs_l.Decimal.{itoa}
use continuum_plugin_whmcs_l.Json.{
  Value, null, num, str, arr, obj, Values, nil, cons, Members, end, member, as_string, Store,
  string_field, field_with, raw_field, unmarshal, ◌>>=◌ as ◌>>=?◌,
}
use continuum_plugin_whmcs_l.Whmcs.Http.{
  World, WhmcsError, decode, status, retryable, api_message, whmcs_api, do_form,
}
use continuum_plugin_whmcs_l.Whmcs.Retry.{retry}
use continuum_plugin_whmcs_l.Whmcs.Rows.{
  extract_product_array, each_row, to_product, to_client_product,
}
use continuum_plugin_whmcs_l.Whmcs.Types.{Product, ClientProduct, ClientDetails, Client}

pub record ApiClient : Type 0 where
  pub server_url : String
  pub api_id : String
  pub api_secret : String

-- `NewAPIClient`
abbrev pub new_api_client : String → String → String → ApiClient
new_api_client server_url api_id api_secret = record {
  server_url = trim_right_slash server_url;
  api_id = api_id;
  api_secret = api_secret;
}

-- The texts that the program does not make: the folding of letters beyond ASCII, and the text that a
-- value was decoded from.
pub record Texts : Type 0 where
  pub fold : ℕ → ℕ
  pub source : Value → String

abbrev pub message_of : String → String
message_of message = if message == "" then "(no message)" else message

-- The envelope: its result and its message.
abbrev pub read_envelope : Option (String × String) → Value → Result WhmcsError Value
read_envelope none body = err (decode whmcs_api)
read_envelope (some (result, message)) body =
    if result == "success" then ok body else err (api_message (message_of message))

abbrev pub envelope_members : Members → Option (String × String)
envelope_members m = string_field "result" "" m >>=? λ result.
    string_field "message" "" m >>=? λ message. some (result, message)

abbrev pub read_body : Option Value → Result WhmcsError Value
read_body none = err (decode whmcs_api)
read_body (some v) = read_envelope (unmarshal envelope_members ("", "") (some v)) v

-- The end of `post`. An answer of 500 and above is marked for a retry.
unfoldable pub read_answer : ℕ × Option Value → Result WhmcsError Value
read_answer (code, body) =
    if leb 500 code
    then err (retryable (status whmcs_api code))
    else if leb 400 code
    then err (status whmcs_api code)
    else read_body body

-- The row of a client.
pub record ClientRow : Type 0 where
  pub id : Option Value
  pub email : String

unfoldable pub decode_row : Value → Option ClientRow
decode_row (obj m) = string_field "email" "" m >>=? λ email.
    some (record { id = raw_field "id" none m; email = email })
decode_row null = some (record { id = none; email = "" })
decode_row v = none

unfoldable pub decode_rows : Values → Option (List ClientRow)
decode_rows nil = some []
decode_rows (cons v vs) =
    let rest : Option (List ClientRow) = decode_rows vs in
    decode_row v >>=? λ r. rest >>=? λ rs. some (r ∷ rs)

-- An array of rows, or one row; a text that is `null` is an empty array.
unfoldable pub client_rows : Option Value → Option (List ClientRow)
client_rows none = some []
client_rows (some null) = some []
client_rows (some (arr vs)) = decode_rows vs
client_rows (some v) = decode_row v >>=? λ r. some (r ∷ [])

-- The struct in the field "clients".
abbrev pub store_clients : Store (Option Value)
store_clients (obj m) acc = some (raw_field "client" acc m)
store_clients null acc = some acc
store_clients v acc = none

abbrev pub clients_members : Members → Option (Option Value)
clients_members m = field_with store_clients "clients" none m

abbrev pub rows_of : Option (List ClientRow) → Result WhmcsError (List ClientRow)
rows_of none = err (decode whmcs_api)
rows_of (some rs) = ok rs

unfoldable pub read_rows : Value → Result WhmcsError (List ClientRow)
read_rows body = rows_of (unmarshal clients_members none (some body) >>=? client_rows)

module _ (texts : Texts) where
  -- `rawToString`
  unfoldable pub raw_to_string : Option Value → String
  raw_to_string none = ""
  raw_to_string (some (str s)) = s
  raw_to_string (some null) = ""
  raw_to_string (some (num z)) = if is_int z then itoa z else texts.source (num z)
  raw_to_string (some v) = texts.source v

  abbrev pub same_email : String → String → Bool
  same_email a b = equal_fold_by texts.fold (trim_space a) (trim_space b)

  -- The first row of that email.
  unfoldable pub find_client : String → List ClientRow → Option Client
  unfolding raw_to_string
  find_client email [] = none
  find_client email (r ∷ rs) =
      let rest = find_client email rs in
      if same_email r.email email
      then some (record { id = raw_to_string r.id; email = r.email })
      else rest

module _ (w : World) (c : ApiClient) where
  unfoldable pub post : String → List (String × String) → Steps w.State WhmcsError Value
  unfolding do_form read_answer
  post action extra = do
    reply ← do_form w whmcs_api (record {
      method = "POST";
      endpoint = c.server_url <> "/includes/api.php";
      form = some (
          ("identifier", c.api_id)
          ∷ ("secret", c.api_secret)
          ∷ ("action", action)
          ∷ ("responsetype", "json")
          ∷ extra);
      bearer = none;
    })
    from_result (read_answer reply)

  unfoldable pub get_products : Steps w.State WhmcsError (List Product)
  unfolding post
  get_products = do
    body ← post "GetProducts" []
    raws ← from_result (extract_product_array body)
    from_result (each_row to_product 0 raws)

  -- `getClientsProducts`
  unfoldable pub fetch_products : String → Steps w.State WhmcsError (List ClientProduct)
  unfolding post
  fetch_products client_id = do
    body ← post "GetClientsProducts" (("clientid", client_id) ∷ [])
    raws ← from_result (extract_product_array body)
    from_result (each_row to_client_product 0 raws)

  unfoldable pub get_clients_products : String → Steps w.State WhmcsError (List ClientProduct)
  unfolding fetch_products retry
  get_clients_products client_id = retry w (fetch_products client_id)

  module _ (texts : Texts) where
    -- `getClientByEmail`
    unfoldable pub fetch_client : String → Steps w.State WhmcsError (Option Client)
    unfolding post find_client
    fetch_client email = do
      body ← post "GetClients" (("search", email) ∷ ("stats", "false") ∷ [])
      rows ← from_result (read_rows body)
      λ s. (ok (find_client texts email rows), s)

    unfoldable pub get_client_by_email : String → Steps w.State WhmcsError (Option Client)
    unfolding fetch_client retry
    get_client_by_email email = retry w (fetch_client email)
