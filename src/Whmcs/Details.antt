-- ===== src/Whmcs/Details.antt =====
-- `GetClientsDetails` and the custom fields of a client (internal/whmcs/api.go).
pub mod Laws
use continuum_plugin_whmcs_l.Prelude.{
  String, Bool, true, false, List, [], ◌∷◌, Option, none, some, ◌==◌, Result, ok, err,
  if◌then◌else◌,
}
use continuum_plugin_whmcs_l.Prelude.Steps.{Steps, from_result, ◌>>=◌}
use continuum_plugin_whmcs_l.Json.{
  Value, null, arr, obj, Values, nil, cons, Members, end, member, as_string, Store, string_field,
  field_with, raw_field, unmarshal, ◌>>=◌ as ◌>>=?◌,
}
use continuum_plugin_whmcs_l.Whmcs.Http.{World, WhmcsError, decode, whmcs_api}
use continuum_plugin_whmcs_l.Whmcs.Retry.{retry}
use continuum_plugin_whmcs_l.Whmcs.Types.{ClientDetails, EntitlementApi}
use continuum_plugin_whmcs_l.Whmcs.Api.{
  ApiClient, Texts, raw_to_string, post, get_clients_products, get_client_by_email,
}

-- A key of an object that is decoded into a map: the last member counts.
unfoldable pub last_index : String → Members → Option Value
last_index key end = none
last_index key (member k v rest) = elim (last_index key rest) [
  | some other ↦ some other
  | none ↦ if k == key then some v else none
]

-- A `[]map[string]any`; `null` is a nil map.
unfoldable pub decode_maps : Values → Option (List Members)
decode_maps nil = some []
decode_maps (cons (obj m) vs) = decode_maps vs >>=? λ ms. some (m ∷ ms)
decode_maps (cons null vs) = decode_maps vs >>=? λ ms. some (end ∷ ms)
decode_maps (cons v vs) = none

abbrev pub store_maps : Store (List Members)
store_maps (arr vs) acc = decode_maps vs
store_maps null acc = some []
store_maps v acc = none

pub record DetailsRow : Type 0 where
  pub id : Option Value
  pub email : String
  pub first_name : String
  pub last_name : String
  pub custom_fields : List Members

abbrev pub no_details : DetailsRow
no_details = record { id = none; email = ""; first_name = ""; last_name = ""; custom_fields = [] }

-- The struct in the field "client".
abbrev pub store_details : Store DetailsRow
store_details (obj m) acc = string_field "email" acc.email m >>=? λ email.
    string_field "firstname" acc.first_name m >>=? λ first_name.
    string_field "lastname" acc.last_name m >>=? λ last_name.
    field_with store_maps "customfields" acc.custom_fields m >>=? λ custom_fields. some (record {
      id = raw_field "id" acc.id m;
      email = email;
      first_name = first_name;
      last_name = last_name;
      custom_fields = custom_fields;
    })
store_details null acc = some acc
store_details v acc = none

abbrev pub details_members : Members → Option DetailsRow
details_members m = field_with store_details "client" no_details m

unfoldable pub without_field : String → List (String × String) → List (String × String)
without_field name [] = []
without_field name ((k, v) ∷ fields) =
    let rest = without_field name fields in if k == name then rest else (k, v) ∷ rest

-- `cd.CustomFields[name] = val`
abbrev pub set_field : String → String → List (String × String) → List (String × String)
set_field name value fields = (name, value) ∷ without_field name fields

abbrev pub field_name : Members → String
field_name m = as_string (last_index "fieldname" m)

abbrev pub field_text : Members → String
field_text m = as_string (last_index "value" m)

-- The loop over the custom fields.
unfoldable pub collect_fields : List Members → List (String × String) → List (String × String)
unfolding without_field
collect_fields [] fields = fields
collect_fields (m ∷ ms) fields =
    collect_fields ms
      (if field_name m == "" then fields else set_field (field_name m) (field_text m) fields)

module _ (texts : Texts) where
  abbrev pub to_details : DetailsRow → ClientDetails
  to_details r = record {
    id = raw_to_string texts r.id;
    email = r.email;
    first_name = r.first_name;
    last_name = r.last_name;
    custom_fields = collect_fields r.custom_fields [];
  }

  abbrev pub details_of : Option DetailsRow → Result WhmcsError ClientDetails
  details_of none = err (decode whmcs_api)
  details_of (some r) = ok (to_details r)

  module _ (w : World) (c : ApiClient) where
    -- `getClientsDetails`
    unfoldable pub fetch_details : String → Steps w.State WhmcsError ClientDetails
    unfolding post
    fetch_details client_id = do
      body ← post w c "GetClientsDetails" (("clientid", client_id) ∷ [])
      from_result (details_of (unmarshal details_members no_details (some body)))

    unfoldable pub get_clients_details : String → Steps w.State WhmcsError ClientDetails
    unfolding fetch_details retry
    get_clients_details client_id = retry w (fetch_details client_id)

    -- An `*APIClient` as the interface of the login flow.
    abbrev pub entitlement_client : EntitlementApi w.State
    entitlement_client = record {
      get_client_by_email = get_client_by_email w c texts;
      get_clients_products = get_clients_products w c;
      get_clients_details = get_clients_details;
    }
