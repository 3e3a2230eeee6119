-- ===== src/Runtime/Spelling.antt =====
-- The product ids of the mappings, which the validation spells anew.
use continuum_plugin_whmcs_l.Prelude.{
  ℕ, ◌+◌, List, [], ◌∷◌, none, some, Slice, ok, map_err, >>=-eq-ok, ◌≡◌, arith,
}
use continuum_plugin_whmcs_l.Prelude.Int.{ℤ}
use continuum_plugin_whmcs_l.Decimal.{itoa}
use continuum_plugin_whmcs_l.Runtime.Config.{
  ClaimRoleMap, parse_positive_id, mapping_product_id, validate_mapping, validate_mappings,
  validate_slice,
}

-- The second mapping is the first with its number written in decimal.
pub record IsSpelling (m m' : ClaimRoleMap) : Type 0 where
  pub number : ℤ
  pub read : parse_positive_id m.product_id ≡ ok number
  pub spelt : m'.product_id ≡ itoa number
  pub same_role : m'.role ≡ m.role

-- One by one, and none is lost or new.
abbrev pub Respelled : List ClaimRoleMap → List ClaimRoleMap → Type 0
Respelled [] [] = Unit
Respelled (m ∷ ms) (m' ∷ ms') = IsSpelling m m' × Respelled ms ms'
Respelled ms ms' = ⊥

abbrev pub RespelledSlice : Slice ClaimRoleMap → Slice ClaimRoleMap → Type 0
RespelledSlice none none = Unit
RespelledSlice (some ms) (some ms') = Respelled ms ms'
RespelledSlice s s' = ⊥

validate_mapping-IsSpelling :
    (i : ℕ) (m m' : ClaimRoleMap) → validate_mapping i m ≡ ok m' → IsSpelling m m'
unfolding validate_mapping
validate_mapping-IsSpelling i m m' h =
    let (n, read, e) =
      >>=-eq-ok (map_err (mapping_product_id i) (parse_positive_id m.product_id)) _ h in
    record { number = n; read = ground arith; spelt = ground arith; same_role = ground arith }

validate_mappings-Respelled :
    (i : ℕ) (ms ms' : List ClaimRoleMap) → validate_mappings i ms ≡ ok ms' → Respelled ms ms'
unfolding validate_mappings
validate_mappings-Respelled i [] [] h = tt
validate_mappings-Respelled i [] (m' ∷ ms') h = absurd (cc)
validate_mappings-Respelled i (m ∷ ms) ms'' h =
    let (m', first, h') = >>=-eq-ok (validate_mapping i m) _ h in
    let (ms', more, e) = >>=-eq-ok (validate_mappings (i + 1) ms) _ h' in
    let same : m' ∷ ms' ≡ ms'' = cc in
    rw (← same)
      (validate_mapping-IsSpelling i m m' first, validate_mappings-Respelled (i + 1) ms ms' more)

pub validate_slice-RespelledSlice :
    (s s' : Slice ClaimRoleMap) → validate_slice s ≡ ok s' → RespelledSlice s s'
unfolding validate_slice
validate_slice-RespelledSlice none s' h = let same : none ≡ s' = cc in rw (← same) tt
validate_slice-RespelledSlice (some ms) s' h =
    let (ms', more, e) = >>=-eq-ok (validate_mappings 0 ms) _ h in
    let same : some ms' ≡ s' = cc in rw (← same) (validate_mappings-Respelled 0 ms ms' more)
