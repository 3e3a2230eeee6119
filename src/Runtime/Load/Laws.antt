-- ===== src/Runtime/Load/Laws.antt =====
-- What a loaded configuration is like, whatever the host sends.
use continuum_plugin_whmcs_l.Prelude.{
  String, true, List, [], ◌∷◌, ◌++◌, some, Slice, elems, All, ok, map_err, >>=-eq-ok, ◌≡◌, ◌≢◌, inl,
  inr, refl, sym, ap, subst, arith, eq_iff, Bool-cases, Option-cases, ◌==◌,
}
use continuum_plugin_whmcs_l.Prelude.Int.{ℤ, IsInt, is_positive}
use continuum_plugin_whmcs_l.Text.{trim_space, trim_right_slash, split_comma}
use continuum_plugin_whmcs_l.Text.Laws.{trim_right_slash_idem}
use continuum_plugin_whmcs_l.Decimal.{itoa}
use continuum_plugin_whmcs_l.Json.{Members, index}
use continuum_plugin_whmcs_l.Runtime.Url.{Platform}
use continuum_plugin_whmcs_l.Runtime.Config.{
  validate_config, Config, allowed_product, parse_positive_id,
}
use continuum_plugin_whmcs_l.Runtime.Valid.{
  parse_positive_id_sound, IsValid, validate_config-IsValid,
}
use continuum_plugin_whmcs_l.Runtime.Load.{
  Key, ConfigEntry, string_from_map, parse_allowed, load_value, load_entry, load_entries,
  load_config, key_of, initial_config, parse_claim_role_mapping,
}

-- The decimal form of a positive `int`.
pub record IsProductId (id : String) : Type 0 where
  pub number : ℤ
  pub positive : is_positive number ≡ true
  pub fits : IsInt number
  pub canonical : id ≡ itoa number

pub record IsLoaded (cfg : Config) : Type 0 where
  pub no_slash : trim_right_slash cfg.whmcs_server_url ≡ cfg.whmcs_server_url
  pub products : All IsProductId (elems cfg.allowed_product_ids)
  pub field : cfg.discord_id_custom_field ≢ ""

pub IsLoaded-of_eq :
    (c c' : Config)
    → c.whmcs_server_url ≡ c'.whmcs_server_url
    → c.allowed_product_ids ≡ c'.allowed_product_ids
    → c.discord_id_custom_field ≡ c'.discord_id_custom_field
    → IsLoaded c
    → IsLoaded c'
IsLoaded-of_eq c c' e f g v = record {
  no_slash = rw (← e) v.no_slash;
  products = rw (← f) v.products;
  field = rw (← g) v.field;
}

All-concat :
    (ids : List String) (id : String)
    → All IsProductId ids
    → IsProductId id
    → All IsProductId (ids ++ (id ∷ []))
All-concat [] id h p = (p, tt)
All-concat (x ∷ ids) id (q, h) p = (q, All-concat ids id h p)

parse_allowed-All :
    (acc : Slice String) (parts : List String) (ids : Slice String)
    → parse_allowed acc parts ≡ ok ids
    → All IsProductId (elems acc)
    → All IsProductId (elems ids)
unfolding parse_allowed
parse_allowed-All acc [] ids h k = let same : acc ≡ ids = cc in rw (← same) k
parse_allowed-All acc (raw ∷ parts) ids h k = elim (Bool-cases (trim_space raw == "")) [
  | inl blank ↦ parse_allowed-All acc parts ids (rw blank at h) k
  | inr full ↦
      let h' = rw full at h in
      let (n, read, e) =
        >>=-eq-ok (map_err allowed_product (parse_positive_id (trim_space raw))) _ h' in
      let (p, f) = parse_positive_id_sound (trim_space raw) n (ground arith) in
      parse_allowed-All (some (elems acc ++ (itoa n ∷ []))) parts ids e (
        All-concat (elems acc) (itoa n) k
          (record { number = n; positive = p; fits = f; canonical = refl }))
]

module _ (net : Platform) where
  load_value-IsLoaded :
      (key : Key) (m : Members) (cfg cfg' : Config)
      → load_value net key m cfg ≡ ok cfg'
      → IsLoaded cfg
      → IsLoaded cfg'
  unfolding load_value
  load_value-IsLoaded Key.whmcs_server_url m cfg cfg' h v =
      let same : record cfg { whmcs_server_url = trim_right_slash (string_from_map m) } ≡ cfg' =
        cc in
      rw (← same) (record {
        no_slash = trim_right_slash_idem (string_from_map m);
        products = v.products;
        field = v.field;
      })
  load_value-IsLoaded Key.allowed_product_ids m cfg cfg' h v =
      elim (Bool-cases (string_from_map m == "")) [
        | inl blank ↦ let same : cfg ≡ cfg' = ground arith in subst IsLoaded same v
        | inr full ↦
            let (ids, read, e) =
              >>=-eq-ok (parse_allowed cfg.allowed_product_ids (split_comma (string_from_map m))) _
                (rw full at h) in
            let products = parse_allowed-All cfg.allowed_product_ids _ ids read v.products in
            let same : record cfg { allowed_product_ids = ids } ≡ cfg' = cc in
            subst IsLoaded same
              (record { no_slash = v.no_slash; products = products; field = v.field })
      ]
  load_value-IsLoaded Key.discord_id_custom_field m cfg cfg' h v =
      elim (Bool-cases (string_from_map m == "")) [
        | inl blank ↦ let same : cfg ≡ cfg' = ground arith in subst IsLoaded same v
        | inr full ↦
            let same : record cfg { discord_id_custom_field = string_from_map m } ≡ cfg' =
              ground arith in
            subst IsLoaded same (record {
              no_slash = v.no_slash;
              products = v.products;
              field = ground (arith, eq_iff (string_from_map m) "");
            })
      ]
  load_value-IsLoaded Key.claim_role_mapping m cfg cfg' h v =
      let (ms, read, e) = >>=-eq-ok (parse_claim_role_mapping net (index "value" m)) _ h in
      let same : record cfg { claim_role_mapping = ms } ≡ cfg' = cc in
      subst IsLoaded same (record { no_slash = v.no_slash; products = v.products; field = v.field })
  load_value-IsLoaded key m cfg cfg' h v =
      IsLoaded-of_eq cfg cfg' (ground arith) (ground arith) (ground arith) v

  load_entry-IsLoaded :
      (e : ConfigEntry) (cfg cfg' : Config)
      → load_entry net e cfg ≡ ok cfg'
      → IsLoaded cfg
      → IsLoaded cfg'
  unfolding load_entry
  load_entry-IsLoaded e cfg cfg' h v = elim (Option-cases e.value) [
    | inl empty ↦ subst IsLoaded (let same : cfg ≡ cfg' = ground arith in same) v
    | inr (m, given) ↦ load_value-IsLoaded (key_of e.key) m cfg cfg' (ground arith) v
  ]

  load_entries-IsLoaded :
      (es : List ConfigEntry) (cfg cfg' : Config)
      → load_entries net es cfg ≡ ok cfg'
      → IsLoaded cfg
      → IsLoaded cfg'
  unfolding load_entries
  load_entries-IsLoaded [] cfg cfg' h v = subst IsLoaded (let same : cfg ≡ cfg' = cc in same) v
  load_entries-IsLoaded (e ∷ es) cfg cfg'' h v =
      let (cfg', first, more) = >>=-eq-ok (load_entry net e cfg) _ h in
      load_entries-IsLoaded es cfg' cfg'' more (load_entry-IsLoaded e cfg cfg' first v)

  initial_config-IsLoaded : IsLoaded initial_config
  unfolding trim_right_slash
  initial_config-IsLoaded = record {
    no_slash = refl;
    products = tt;
    field = ground (arith, eq_iff "Discord ID" "");
  }

  -- Whatever entries the host sends, a configuration that loads is valid, its server URL has no slash at
  -- the end, its allowed products are decimal forms of positive `int`s, and its Discord field has a name.
  pub load_config_sound :
      (es : List ConfigEntry) (cfg : Config)
      → load_config net es ≡ ok cfg
      → IsValid net cfg × IsLoaded cfg
  unfolding load_config
  load_config_sound es cfg' h =
      let (cfg, loaded, checked) = >>=-eq-ok (load_entries net es initial_config) _ h in
      let (valid, (spelt, kept), stable) = validate_config-IsValid net cfg cfg' checked in
      let v = load_entries-IsLoaded es initial_config cfg loaded initial_config-IsLoaded in
      (
        valid,
        IsLoaded-of_eq cfg cfg' (ap (λ c. c.whmcs_server_url) (sym kept))
            (ap (λ c. c.allowed_product_ids) (sym kept))
            (ap (λ c. c.discord_id_custom_field) (sym kept)) v,
      )

  -- What loads passes the validation as it is.
  pub load_config_valid :
      (es : List ConfigEntry) (cfg : Config)
      → load_config net es ≡ ok cfg
      → validate_config net cfg ≡ ok cfg
  unfolding load_config
  load_config_valid es cfg' h =
      let (cfg, loaded, checked) = >>=-eq-ok (load_entries net es initial_config) _ h in
      let (valid, (spelt, kept), stable) = validate_config-IsValid net cfg cfg' checked in stable
