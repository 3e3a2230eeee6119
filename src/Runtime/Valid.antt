-- ===== src/Runtime/Valid.antt =====
-- What validation establishes, and what it changes.
use continuum_plugin_whmcs_l.Prelude.{
  ℕ, ◌+◌, String, true, false, List, [], ◌∷◌, none, some, Slice, elems, All, ok, map_err, >>=-eq-ok,
  ◌≡◌, ◌⊎◌, inl, inr, refl, arith, eq_iff, Bool-cases, ◌==◌,
}
use continuum_plugin_whmcs_l.Prelude.Int.{ℤ, IsInt, is_positive}
use continuum_plugin_whmcs_l.Text.{trim_space}
use continuum_plugin_whmcs_l.Text.Plain.{trim_space_of_NoSpace}
use continuum_plugin_whmcs_l.Decimal.{itoa, atoi}
use continuum_plugin_whmcs_l.Decimal.RoundTrip.{atoi-itoa}
use continuum_plugin_whmcs_l.Decimal.Canonical.{itoa-NoSpace, atoi-IsInt}
use continuum_plugin_whmcs_l.Runtime.Url.{Url, Platform}
use continuum_plugin_whmcs_l.Runtime.Url.Safe.{IsSafeUrl, validate_server_url_safe}
use continuum_plugin_whmcs_l.Runtime.Spelling.{RespelledSlice, validate_slice-RespelledSlice}
use continuum_plugin_whmcs_l.Runtime.Config.{
  ClaimRoleMap, Config, parse_positive_id, validate_mapping, validate_mappings, validate_slice,
  check_server, validate_config, mapping_product_id,
}

pub parse_positive_id_sound :
    (raw : String) (n : ℤ) → parse_positive_id raw ≡ ok n → (is_positive n ≡ true) × IsInt n
unfolding parse_positive_id
parse_positive_id_sound raw n h =
    let read : atoi (trim_space raw) ≡ some n = ground arith in
    (ground arith, atoi-IsInt (trim_space raw) n read)

not_blank-itoa : (n : ℤ) → IsInt n → (itoa n == "") ≡ false
unfolding atoi
not_blank-itoa n h = elim (Bool-cases (itoa n == "")) [
  | inl blank ↦
      let e : itoa n ≡ "" = (eq_iff (itoa n) "").0 blank in
      let none_read : none ≡ some n = rw e at (atoi-itoa n h) in cc
  | inr full ↦ full
]

pub parse_positive_id-itoa :
    (n : ℤ) → is_positive n ≡ true → IsInt n → parse_positive_id (itoa n) ≡ ok n
unfolding parse_positive_id
parse_positive_id-itoa n p h =
    rw (trim_space_of_NoSpace (itoa n) (itoa-NoSpace n), not_blank-itoa n h, atoi-itoa n h, p)

-- The id is the decimal form of a positive `int`, as `strconv.Itoa` writes it, and the role is known.
pub record IsValidMapping (m : ClaimRoleMap) : Type 0 where
  pub number : ℤ
  pub positive : is_positive number ≡ true
  pub fits : IsInt number
  pub canonical : m.product_id ≡ itoa number
  pub role : (m.role ≡ "user") ⊎ (m.role ≡ "admin")

validate_mapping-IsValidMapping :
    (i : ℕ) (m m' : ClaimRoleMap) → validate_mapping i m ≡ ok m' → IsValidMapping m'
unfolding validate_mapping
validate_mapping-IsValidMapping i m m' h =
    let (n, read, e) =
      >>=-eq-ok (map_err (mapping_product_id i) (parse_positive_id m.product_id)) _ h in
    let (p, f) = parse_positive_id_sound m.product_id n (ground arith) in
    record {
      number = n;
      positive = p;
      fits = f;
      canonical = ground arith;
      role = ground (arith, eq_iff m.role "user", eq_iff m.role "admin");
    }

validate_mappings-All :
    (i : ℕ) (ms ms' : List ClaimRoleMap) → validate_mappings i ms ≡ ok ms' → All IsValidMapping ms'
unfolding validate_mappings
validate_mappings-All i [] [] h = tt
validate_mappings-All i [] (m' ∷ ms') h = cc
validate_mappings-All i (m ∷ ms) ms'' h =
    let (m', first, h') = >>=-eq-ok (validate_mapping i m) _ h in
    let (ms', more, e) = >>=-eq-ok (validate_mappings (i + 1) ms) _ h' in
    let same : m' ∷ ms' ≡ ms'' = cc in
    rw (← same)
      (validate_mapping-IsValidMapping i m m' first, validate_mappings-All (i + 1) ms ms' more)

validate_mapping_of_IsValidMapping :
    (i : ℕ) (m : ClaimRoleMap) → IsValidMapping m → validate_mapping i m ≡ ok m
unfolding validate_mapping
validate_mapping_of_IsValidMapping i m v =
    let read : parse_positive_id m.product_id ≡ ok v.number =
      rw v.canonical (parse_positive_id-itoa v.number v.positive v.fits) in
    ground (arith, eq_iff m.role "user", eq_iff m.role "admin", v.role, v.canonical)

validate_mappings_of_All :
    (i : ℕ) (ms : List ClaimRoleMap) → All IsValidMapping ms → validate_mappings i ms ≡ ok ms
unfolding validate_mappings
validate_mappings_of_All i [] h = refl
validate_mappings_of_All i (m ∷ ms) (v, h) =
    rw (validate_mapping_of_IsValidMapping i m v, validate_mappings_of_All (i + 1) ms h)

validate_slice-All :
    (s s' : Slice ClaimRoleMap) → validate_slice s ≡ ok s' → All IsValidMapping (elems s')
unfolding validate_slice
validate_slice-All none s' h = let same : none ≡ s' = cc in rw (← same) tt
validate_slice-All (some ms) s' h =
    let (ms', more, e) = >>=-eq-ok (validate_mappings 0 ms) _ h in
    let same : some ms' ≡ s' = cc in rw (← same) (validate_mappings-All 0 ms ms' more)

validate_slice_of_All :
    (s : Slice ClaimRoleMap) → All IsValidMapping (elems s) → validate_slice s ≡ ok s
unfolding validate_slice
validate_slice_of_All none h = refl
validate_slice_of_All (some ms) h = rw (validate_mappings_of_All 0 ms h)

module _ (net : Platform) where
  -- The server is unset or safe, and every mapping is valid.
  pub record IsValid (cfg : Config) : Type 0 where
    pub server :
        (cfg.whmcs_server_url ≡ "")
        ⊎ ((u : Url) × (net.parse_url cfg.whmcs_server_url ≡ some u) × IsSafeUrl net u)
    pub mapping : All IsValidMapping (elems cfg.claim_role_mapping)

  check_server_cases :
      (url : String)
      → check_server net url ≡ ok tt
      → (url ≡ "") ⊎ ((u : Url) × (net.parse_url url ≡ some u) × IsSafeUrl net u)
  unfolding check_server
  check_server_cases url h = elim (Bool-cases (url == "")) [
    | inl unset ↦ inl ((eq_iff url "").0 unset)
    | inr given ↦ inr (validate_server_url_safe net url (ground arith))
  ]

  pub validate_config_parts :
      (cfg cfg' : Config)
      → validate_config net cfg ≡ ok cfg'
      → (check_server net cfg.whmcs_server_url ≡ ok tt)
        × ((mapping : Slice ClaimRoleMap) × (validate_slice cfg.claim_role_mapping ≡ ok mapping)
            × (cfg' ≡ record cfg { claim_role_mapping = mapping }))
  unfolding validate_config
  validate_config_parts cfg cfg' h =
      let (u, checked, h') = >>=-eq-ok (check_server net cfg.whmcs_server_url) _ h in
      let (mapping, valid, e) = >>=-eq-ok (validate_slice cfg.claim_role_mapping) _ h' in
      (checked, (mapping, valid, cc))

  -- A configuration that passes has a safe server or none, and every mapping has the decimal form of a
  -- positive `int` for its product and "user" or "admin" for its role; its mappings are those before, one by
  -- one, each with its number written in decimal and its role kept, and nothing else has changed; and where
  -- the resolver answers the same, it passes again as it is.
  pub validate_config-IsValid :
      (cfg cfg' : Config)
      → validate_config net cfg ≡ ok cfg'
      → IsValid cfg'
        × (RespelledSlice cfg.claim_role_mapping cfg'.claim_role_mapping
            × (record cfg' { claim_role_mapping = cfg.claim_role_mapping } ≡ cfg))
        × (validate_config net cfg' ≡ ok cfg')
  unfolding validate_config
  validate_config-IsValid cfg cfg' h =
      let (checked, (mapping, valid, e)) = validate_config_parts cfg cfg' h in
      let entries = validate_slice-All cfg.claim_role_mapping mapping valid in
      rw e (
        record { server = check_server_cases cfg.whmcs_server_url checked; mapping = entries },
        (validate_slice-RespelledSlice cfg.claim_role_mapping mapping valid, refl),
        rw (checked, validate_slice_of_All mapping entries),
      )
