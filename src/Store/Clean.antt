-- ===== src/Store/Clean.antt =====
-- Secrets in the row, and in what is read from it.
use continuum_plugin_whmcs_l.Prelude.{
  ℕ, zero, suc, Option, none, some, ok, map_err, ◌≡◌, inl, inr, refl, sym, ap, subst, ◌∙◌, arith,
  Bool-cases, Option-cases, ◌==◌,
}
use continuum_plugin_whmcs_l.Prelude.Steps.{
  Steps, from_result, get, ◌>>=◌, Ensures, pure-Ensures, fail-Ensures, bind-Ensures,
}
use continuum_plugin_whmcs_l.Json.{Value, obj, end, field_with, string_field, bool_field}
use continuum_plugin_whmcs_l.Runtime.Url.{Platform, again}
use continuum_plugin_whmcs_l.Runtime.Config.{Config, validate_config}
use continuum_plugin_whmcs_l.Runtime.Valid.{validate_config-IsValid}
use continuum_plugin_whmcs_l.Store.Codec.{
  encode_config, decode_config, decode_members, config_eq, decode_config-encode_config,
}
use continuum_plugin_whmcs_l.Store.{
  Db, StoreError, gave_up, rejected, default_config, with_field, without_secrets, query, ensured,
  insert_default, migrate, read_row, got, get_config, get_fuel, update_config, import_fresh,
  import_legacy_config,
}

-- The secrets that the host manages are not set.
pub record IsStripped (cfg : Config) : Type 0 where
  pub database_url : cfg.database_url ≡ ""
  pub client_secret : cfg.client_secret ≡ ""
  pub api_secret : cfg.whmcs_admin_api_secret ≡ ""

-- Nothing that the row decodes to has a secret.
abbrev pub IsCleanRow : Option Value → Type 0
IsCleanRow none = Unit
IsCleanRow (some v) = (cfg : Config) → decode_config v default_config ≡ some cfg → IsStripped cfg

abbrev pub IsClean : Db → Type 0
IsClean db = IsCleanRow db.row

abbrev Always {ℓ} : {A : Type ℓ} → A → Type 0
Always _ = Unit

with_field-IsStripped : (cfg : Config) → IsStripped cfg → IsStripped (with_field cfg)
unfolding with_field
with_field-IsStripped cfg v = elim (Bool-cases (cfg.discord_id_custom_field == "")) [
  | inl unset ↦ rw unset (record {
    database_url = v.database_url;
    client_secret = v.client_secret;
    api_secret = v.api_secret;
  })
  | inr given ↦ rw given v
]

empty_object : decode_config (obj end) default_config ≡ some default_config
unfolding decode_config decode_members field_with string_field bool_field
empty_object = refl

ensured-IsCleanRow : (row : Option Value) → IsCleanRow row → IsCleanRow (ensured row)
ensured-IsCleanRow none v = λ cfg h.
    let same : some default_config ≡ some cfg = sym empty_object ∙ h in
    subst IsStripped (let e : default_config ≡ cfg = ground arith in e)
      (record { database_url = refl; client_secret = refl; api_secret = refl })
ensured-IsCleanRow (some r) v = v

encode_config-IsCleanRow : (cfg : Config) → IsStripped cfg → IsCleanRow (some (encode_config cfg))
encode_config-IsCleanRow cfg v c h =
    let same : some cfg ≡ some c = sym (decode_config-encode_config cfg default_config) ∙ h in
    subst IsStripped (let e : cfg ≡ c = cc in e) v

read_row-IsStripped :
    (v : Value) (cfg : Config) → IsCleanRow (some v) → read_row v ≡ ok cfg → IsStripped cfg
unfolding read_row
read_row-IsStripped v cfg clean h = elim (Option-cases (decode_config v default_config)) [
  | inl bad ↦ ground arith
  | inr (c, e) ↦
      subst IsStripped (let same : with_field c ≡ cfg = ground arith in same)
        (with_field-IsStripped c (clean c e))
]

query-Ensures : Ensures IsClean Always query
unfolding query
query-Ensures = record { kept = λ db p. p; result = λ db p a h. tt }

insert_default-Ensures : Ensures IsClean Always insert_default
unfolding insert_default
insert_default-Ensures =
    bind-Ensures IsClean Always Always query _ query-Ensures
      λ a q. record { kept = λ db p. ensured-IsCleanRow db.row p; result = λ db p b h. tt }

got-IsClean :
    (again : Steps Db StoreError Config) (row : Option Value) (db : Db)
    → Ensures IsClean IsStripped again
    → IsClean db
    → IsCleanRow row
    → IsClean (got again row db).1
      × ((cfg : Config) → (got again row db).0 ≡ ok cfg → IsStripped cfg)
got-IsClean again (some v) db next p r = (p, λ cfg h. read_row-IsStripped v cfg r h)
got-IsClean again none db next p r =
    let both =
      bind-Ensures IsClean Always IsStripped insert_default (λ _. again) insert_default-Ensures
        (λ a q. next) in
    (both.kept db p, both.result db p)

got-Ensures :
    (again : Steps Db StoreError Config)
    → Ensures IsClean IsStripped again
    → Ensures IsClean IsStripped (get >>= λ db. got again db.row)
got-Ensures again next = record {
  kept = λ db p. (got-IsClean again db.row db next p p).0;
  result = λ db p. (got-IsClean again db.row db next p p).1;
}

pub get_config-Ensures : (fuel : ℕ) → Ensures IsClean IsStripped (get_config fuel)
unfolding get_config
get_config-Ensures zero = fail-Ensures IsClean IsStripped gave_up
get_config-Ensures (suc fuel) =
    bind-Ensures IsClean Always IsStripped query _ query-Ensures
      λ a q. got-Ensures (get_config fuel) (get_config-Ensures fuel)

without_secrets-IsStripped : (cfg : Config) → IsStripped (without_secrets cfg)
without_secrets-IsStripped cfg = record {
  database_url = refl;
  client_secret = refl;
  api_secret = refl;
}

IsStripped-of_eq :
    (c d : Config)
    → IsStripped c
    → c.database_url ≡ d.database_url
    → c.client_secret ≡ d.client_secret
    → c.whmcs_admin_api_secret ≡ d.whmcs_admin_api_secret
    → IsStripped d
IsStripped-of_eq c d v e f g = record {
  database_url = rw (← e) v.database_url;
  client_secret = rw (← f) v.client_secret;
  api_secret = rw (← g) v.api_secret;
}

validated-IsStripped :
    (net : Platform) (c d : Config) → IsStripped c → validate_config net c ≡ ok d → IsStripped d
validated-IsStripped net c d v h =
    let (valid, (spelt, kept), stable) = validate_config-IsValid net c d h in
    IsStripped-of_eq c d v (ap (λ x. x.database_url) (sym kept))
      (ap (λ x. x.client_secret) (sym kept)) (ap (λ x. x.whmcs_admin_api_secret) (sym kept))

validate-Ensures :
    (net : Platform) (cfg : Config)
    → IsStripped cfg
    → Ensures IsClean IsStripped (from_result (map_err rejected (validate_config net cfg)))
validate-Ensures net cfg v = record {
  kept = λ db p. p;
  result = λ db p d h. validated-IsStripped net cfg d v (ground arith);
}

pub update_config-Ensures :
    (net : Platform) (cfg : Config) → Ensures IsClean Always (update_config net cfg)
unfolding update_config
update_config-Ensures net cfg =
    bind-Ensures IsClean IsStripped Always _ _
      (validate-Ensures net (with_field (without_secrets cfg))
        (with_field-IsStripped (without_secrets cfg) (without_secrets-IsStripped cfg)))
      λ clean v.
        bind-Ensures IsClean Always Always query _ query-Ensures
          λ _ _. record { kept = λ db p. encode_config-IsCleanRow clean v; result = λ db p b h. tt }

import_fresh-Ensures :
    (net : Platform) (current clean : Config)
    → IsStripped current
    → Ensures IsClean IsStripped (import_fresh net current clean)
unfolding import_fresh
import_fresh-Ensures net current clean v = elim (Bool-cases (config_eq clean current)) [
  | inl same ↦ rw same (pure-Ensures IsClean IsStripped current v)
  | inr differ ↦ rw differ (
      bind-Ensures IsClean Always IsStripped (update_config (again net) clean) _
        (update_config-Ensures (again net) clean) λ _ _. get_config-Ensures get_fuel)
]

pub import_legacy_config-Ensures :
    (net : Platform) (legacy : Config)
    → Ensures IsClean IsStripped (import_legacy_config net legacy)
unfolding import_legacy_config
import_legacy_config-Ensures net legacy =
    bind-Ensures IsClean IsStripped IsStripped (get_config get_fuel) _ (get_config-Ensures get_fuel)
      λ current v. elim (Bool-cases (config_eq current default_config)) [
        | inl fresh ↦ rw fresh (import_fresh-Ensures net current _ v)
        | inr set ↦ rw set (pure-Ensures IsClean IsStripped current v)
      ]

pub migrate-Ensures : Ensures IsClean Always migrate
unfolding migrate
migrate-Ensures = insert_default-Ensures
