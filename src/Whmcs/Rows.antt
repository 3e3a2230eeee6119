-- ===== src/Whmcs/Rows.antt =====
-- The rows of the admin API and how loosely typed JSON is read as one (internal/whmcs/api.go).
pub mod Laws
use continuum_plugin_whmcs_l.Prelude.{
  ℕ, suc, ◌+◌, String, Bool, true, false, not, List, [], ◌∷◌, Option, none, some, ◌==◌, Result, ok,
  err, ◌>>=◌, if◌then◌else◌,
}
use continuum_plugin_whmcs_l.Prelude.Int.{ℤ, pos, is_int, is_positive}
use continuum_plugin_whmcs_l.Text.{trim_space, equal_fold_by}
use continuum_plugin_whmcs_l.Decimal.{atoi, itoa}
use continuum_plugin_whmcs_l.Json.{
  Value, null, num, str, arr, obj, Values, nil, cons, Members, end, member, as_string, Store,
  field_with, string_field, raw_field, ◌>>=◌ as ◌>>=?◌,
}
use continuum_plugin_whmcs_l.Whmcs.Http.{WhmcsError, decode, bad_product, bad_shape, whmcs_api}
use continuum_plugin_whmcs_l.Whmcs.Types.{Product, ClientProduct, ClientDetails, Client}

-- A `json.RawMessage` is the value that its text stands for, `none` where the member is missing.
pub record RawProduct : Type 0 where
  pub pid : Option Value
  pub gid : Option Value
  pub name : String
  pub type_name : String
  pub pay_type : String
  pub group_name : String
  pub status : Option String

abbrev pub no_product : RawProduct
no_product = record {
  pid = none;
  gid = none;
  name = "";
  type_name = "";
  pay_type = "";
  group_name = "";
  status = none;
}

-- A `*string` field; `null` makes it nil.
abbrev pub store_pointer : Store (Option String)
store_pointer (str s) acc = some (some s)
store_pointer null acc = some none
store_pointer v acc = none

abbrev pub product_members : Members → Option RawProduct
product_members m = string_field "name" "" m >>=? λ name. string_field "type" "" m >>=? λ type_name.
    string_field "paytype" "" m >>=? λ pay_type. string_field "groupname" "" m >>=? λ group_name.
    field_with store_pointer "status" none m >>=? λ status. some (record {
      pid = raw_field "pid" none m;
      gid = raw_field "gid" none m;
      name = name;
      type_name = type_name;
      pay_type = pay_type;
      group_name = group_name;
      status = status;
    })

unfoldable pub decode_product : Value → Option RawProduct
decode_product (obj m) = product_members m
decode_product null = some no_product
decode_product v = none

unfoldable pub decode_products : Values → Option (List RawProduct)
decode_products nil = some []
decode_products (cons v vs) =
    let rest : Option (List RawProduct) = decode_products vs in
    decode_product v >>=? λ p. rest >>=? λ ps. some (p ∷ ps)

-- `parseOptionalInt`; an error is `none`.
unfoldable pub parse_optional_int : Option Value → Option ℤ
parse_optional_int none = some (pos 0)
parse_optional_int (some (num z)) = if is_int z then some z else none
parse_optional_int (some null) = some (pos 0)
parse_optional_int (some (str s)) = if trim_space s == "" then some (pos 0) else atoi (trim_space s)
parse_optional_int (some v) = none

unfoldable pub parse_required_positive_int : Option Value → Option ℤ
parse_required_positive_int raw =
    parse_optional_int raw >>=? λ n. if is_positive n then some n else none

unfoldable pub to_product : RawProduct → Option Product
to_product r = parse_required_positive_int r.pid >>=? λ pid. parse_optional_int r.gid >>=? λ gid.
    some (record {
      pid = pid;
      gid = gid;
      name = r.name;
      type_name = r.type_name;
      pay_type = r.pay_type;
      group_name = r.group_name;
    })

unfoldable pub to_client_product : RawProduct → Option ClientProduct
to_client_product r = parse_required_positive_int r.pid >>=? λ pid.
    some (record { pid = pid; name = r.name; status = r.status })

-- The loops of `GetProducts` and `getClientsProducts`, from the row of that number.
unfoldable pub each_row {ℓ} :
    {A : Type ℓ} → (RawProduct → Option A) → ℕ → List RawProduct → Result WhmcsError (List A)
each_row convert i [] = ok []
each_row {A} convert i (r ∷ rs) =
    let rest : Result WhmcsError (List A) = each_row convert (i + 1) rs in
    elim (convert r) [ none ↦ err (bad_product i) | some a ↦ rest >>= λ others. ok (a ∷ others) ]

-- One object where the list is expected.
abbrev pub single_entry : Option RawProduct → Result WhmcsError (List RawProduct)
single_entry none = err (decode whmcs_api)
single_entry (some p) = ok (p ∷ [])

abbrev pub all_entries : Option (List RawProduct) → Result WhmcsError (List RawProduct)
all_entries none = err (decode whmcs_api)
all_entries (some ps) = ok ps

-- `wrapper.Product`: nothing, an array, or one object.
unfoldable pub product_entries : Option Value → Result WhmcsError (List RawProduct)
product_entries none = ok []
product_entries (some null) = ok []
product_entries (some (arr vs)) = all_entries (decode_products vs)
product_entries (some v) = single_entry (decode_product v)

-- `env.Products`: nothing, a text, an empty array, or an object with the entries.
unfoldable pub products_member : Option Value → Result WhmcsError (List RawProduct)
products_member none = ok []
products_member (some null) = ok []
products_member (some (str s)) = ok []
products_member (some (arr nil)) = ok []
products_member (some (arr (cons v vs))) = err bad_shape
products_member (some (obj m)) = product_entries (raw_field "product" none m)
products_member (some v) = err (decode whmcs_api)

-- `extractProductArray`; a nil slice is the empty list.
unfoldable pub extract_product_array : Value → Result WhmcsError (List RawProduct)
extract_product_array (obj m) = products_member (raw_field "products" none m)
extract_product_array null = ok []
extract_product_array v = err (decode whmcs_api)
