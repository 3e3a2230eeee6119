-- ===== src/Examples/Api.antt =====
-- The theorems on the lookups of the admin API, at a server that is overloaded at first.
use continuum_plugin_whmcs_l.Prelude.{true, List, [], ◌∷◌, none, some, All, ok, ◌≡◌, refl}
use continuum_plugin_whmcs_l.Prelude.Int.{pos}
use continuum_plugin_whmcs_l.Text.{
  trim_space, trim_left, trim_right_by, trim_right_slash, equal_fold, equal_fold_by,
}
use continuum_plugin_whmcs_l.Json.{
  Value, num, str, obj, arr, nil, cons, end, member, field_with, string_field, store_string,
  raw_field,
}
use continuum_plugin_whmcs_l.Decimal.{atoi, atoi_codes, unsigned, digits_value, itoa, render, digit}
use continuum_plugin_whmcs_l.Whmcs.Http.{answered, do_form}
use continuum_plugin_whmcs_l.Whmcs.Types.{Client, ClientProduct}
use continuum_plugin_whmcs_l.Whmcs.Retry.{retry, rounds, pause, backoff_delay}
use continuum_plugin_whmcs_l.Whmcs.Rows.{
  decode_product, decode_products, parse_optional_int, parse_required_positive_int,
  to_client_product, each_row, product_entries, products_member, extract_product_array,
}
use continuum_plugin_whmcs_l.Whmcs.Rows.Laws.{HasId}
use continuum_plugin_whmcs_l.Whmcs.Api.{
  ApiClient, new_api_client, Texts, same_email, read_answer, post, fetch_products,
  get_clients_products, fetch_client, get_client_by_email, find_client, raw_to_string, read_rows,
  client_rows, decode_rows, decode_row,
}
use continuum_plugin_whmcs_l.Whmcs.Api.Laws.{
  get_clients_products-HasId, get_client_by_email-same_email,
}
use continuum_plugin_whmcs_l.Json.{Members}
use continuum_plugin_whmcs_l.Examples.{Wire, world}

abbrev api : ApiClient
api = new_api_client "https://whmcs.example/" "admin" "secret"

abbrev texts : Texts
texts = record { fold = λ c. c; source = λ v. "" }

-- One product, as an object where an array is expected, its id a text.
abbrev products_body : Value
products_body = obj (
    member "result" (str "success") (
      member "products"
        (obj
          (member "product" (obj (member "pid" (str " 12") (member "name" (str "Gold") end))) end))
        end))

abbrev overloaded : Value → Wire
overloaded body = record { replies = answered 503 none ∷ answered 200 (some body) ∷ []; sent = 0 }

abbrev calm : Wire
calm = record { replies = []; sent = 2 }

abbrev gold : List ClientProduct
gold = record { pid = pos 12; name = "Gold"; status = none } ∷ []

products_run : get_clients_products world api "7" (overloaded products_body) ≡ (ok gold, calm)
unfolding get_clients_products retry rounds pause backoff_delay fetch_products post do_form
    read_answer extract_product_array products_member product_entries decode_product decode_products
    each_row to_client_product parse_required_positive_int parse_optional_int field_with
    string_field store_string raw_field trim_space trim_left trim_right_by trim_right_slash
    equal_fold equal_fold_by atoi atoi_codes unsigned digits_value
products_run = refl

get_clients_products-HasId_example : All (λ p. HasId p.pid) gold
get_clients_products-HasId_example =
    get_clients_products-HasId world api "7" (overloaded products_body) calm gold products_run

abbrev clients_body : Value
clients_body = obj (
    member "result" (str "success") (
      member "clients"
        (obj (
          member "client"
            (arr (cons (obj (member "id" (num (pos 7)) (member "email" (str "A@b.c ") end))) nil))
            end))
        end))

abbrev listed : Client
listed = record { id = "7"; email = "A@b.c " }

client_run :
    get_client_by_email world api texts "a@B.c" (overloaded clients_body) ≡ (ok (some listed), calm)
unfolding get_client_by_email retry rounds pause backoff_delay fetch_client post do_form read_answer
    find_client raw_to_string read_rows client_rows decode_rows decode_row field_with string_field
    store_string raw_field trim_space trim_left trim_right_by trim_right_slash equal_fold
    equal_fold_by itoa render digit
client_run = refl

get_client_by_email-same_email_example : same_email texts listed.email "a@B.c" ≡ true
get_client_by_email-same_email_example =
    get_client_by_email-same_email world api texts "a@B.c" (overloaded clients_body) calm listed
      client_run

-- Two fields, one of them twice.
abbrev fields : List Members
fields =
    member "fieldname" (str "Discord ID") (member "value" (str "1") end)
    ∷ member "fieldname" (str "Colour") (member "value" (str "red") end)
    ∷ member "fieldname" (str "Discord ID") (member "value" (str "2") end)
    ∷ []
