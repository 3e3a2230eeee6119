-- ===== src/Examples/Pure.antt =====
-- The theorems on the functions that no request and no state is behind, at concrete inputs.
use continuum_plugin_whmcs_l.Prelude.{
  ◌<◌, String, true, List, [], ◌∷◌, some, ok, ◌≡◌, ◌⊎◌, ◌↔◌, refl, arith,
}
use continuum_plugin_whmcs_l.Prelude.Int.{negsuc}
use continuum_plugin_whmcs_l.Text.{trim_space, trim_left, trim_right_by, equal_fold, equal_fold_by}
use continuum_plugin_whmcs_l.Json.{field_with, string_field, int_field, store_string, store_int}
use continuum_plugin_whmcs_l.Decimal.{atoi, itoa}
use continuum_plugin_whmcs_l.Decimal.RoundTrip.{atoi-itoa}
use continuum_plugin_whmcs_l.Runtime.Address.{v4, is_internal_ip}
use continuum_plugin_whmcs_l.Runtime.Address.Ranges.{number, IsInternalNumber, is_internal_ip_iff}
use continuum_plugin_whmcs_l.Runtime.Config.{ClaimRoleMap}
use continuum_plugin_whmcs_l.Auth.Products.{role_from_products}
use continuum_plugin_whmcs_l.Auth.Products.Laws.{Elevation, role_from_products_iff}
use continuum_plugin_whmcs_l.Whmcs.Http.{token_endpoint}
use continuum_plugin_whmcs_l.Whmcs.Oauth.{TokenResponse, UserInfo, read_token, read_user}
use continuum_plugin_whmcs_l.Whmcs.Oauth.Laws.{IsUsableToken, read_token_sound}
use continuum_plugin_whmcs_l.Prelude.Int.{pos}
use continuum_plugin_whmcs_l.Examples.{token_body, user_body}

atoi-itoa_example : atoi (itoa (negsuc 41)) ≡ some (negsuc 41)
atoi-itoa_example = atoi-itoa (negsuc 41) (omega arith)

is_internal_ip_iff_example :
    (is_internal_ip (v4 172 20 0 1) ≡ true) ↔ IsInternalNumber (number 172 20 0 1)
is_internal_ip_iff_example =
    is_internal_ip_iff 172 20 0 1 (omega arith) (omega arith) (omega arith) (omega arith)

abbrev wanted : List String
wanted = "7" ∷ "12" ∷ []

abbrev mappings : List ClaimRoleMap
mappings = record { product_id = "12"; role = "admin" } ∷ []

role_from_products_iff_example :
    ((role_from_products wanted mappings ≡ "admin") ↔ Elevation wanted mappings)
    × ((role_from_products wanted mappings ≡ "admin")
        ⊎ (role_from_products wanted mappings ≡ "user"))
role_from_products_iff_example = role_from_products_iff wanted mappings

abbrev pub token : TokenResponse
token = record {
  access_token = "abc";
  id_token = "";
  refresh_token = "def";
  token_type = "bearer";
  expires_in = pos 0;
}

read_token_runs : read_token token_endpoint (200, some token_body) ≡ ok token
unfolding read_token trim_space trim_left trim_right_by equal_fold equal_fold_by field_with
    string_field int_field store_string store_int
read_token_runs = refl

read_token_sound_example : (200 < 400) × IsUsableToken token
read_token_sound_example =
    read_token_sound token_endpoint 200 (some token_body) token read_token_runs

abbrev pub ann : UserInfo
ann = record {
  sub = "u1";
  id = "7";
  email = "";
  name = "Ann";
  picture = "";
  given_name = "";
  family_name = "";
}

read_user_runs : read_user (200, some user_body) ≡ ok ann
unfolding read_user trim_space trim_left trim_right_by equal_fold equal_fold_by field_with
    string_field store_string
read_user_runs = refl
