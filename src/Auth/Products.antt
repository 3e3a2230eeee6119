-- ===== src/Auth/Products.antt =====
-- `ActiveProductIDs`, `AnyMatch` and `RoleFromProducts` (internal/auth/server.go).
pub mod Laws
use continuum_plugin_whmcs_l.Prelude.{
  String, Bool, true, false, not, List, [], ◌∷◌, Option, none, some, any, ◌==◌, if◌then◌else◌,
}
use continuum_plugin_whmcs_l.Text.{trim_space, equal_fold}
use continuum_plugin_whmcs_l.Decimal.{itoa}
use continuum_plugin_whmcs_l.Runtime.Config.{ClaimRoleMap}
use continuum_plugin_whmcs_l.Whmcs.Types.{ClientProduct}

unfoldable pub is_active : Option String → Bool
is_active none = true
is_active (some status) = equal_fold (trim_space status) "Active"

unfoldable pub active_product_ids : List ClientProduct → List String
active_product_ids [] = []
active_product_ids (p ∷ ps) =
    let rest = active_product_ids ps in if is_active p.status then itoa p.pid ∷ rest else rest

unfoldable pub any_match : List String → List String → Bool
any_match [] have = false
any_match (w ∷ ws) have = if any (λ h. w == h) have then true else any_match ws have

unfoldable pub role_from_products : List String → List ClaimRoleMap → String
role_from_products products [] = "user"
role_from_products products (m ∷ ms) =
    let rest = role_from_products products ms in
    if not (m.role == "admin")
    then rest
    else if any (λ p. p == m.product_id) products
    then "admin"
    else rest
