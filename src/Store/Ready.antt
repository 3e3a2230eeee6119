-- ===== src/Store/Ready.antt =====
-- What a working database gives.
use continuum_plugin_whmcs_l.Prelude.{
  [], Option, none, some, ok, ◌==◌, ◌≡◌, refl, sym, ap, ◌∙◌, false, Bool-cases, inl, inr,
}
use continuum_plugin_whmcs_l.Prelude.Steps.{◌>>=◌}
use continuum_plugin_whmcs_l.Json.{Value, obj, end}
use continuum_plugin_whmcs_l.Runtime.Url.{Platform, again}
use continuum_plugin_whmcs_l.Runtime.Config.{Config, check_server, validate_config}
use continuum_plugin_whmcs_l.Runtime.Valid.{validate_config_parts}
use continuum_plugin_whmcs_l.Store.{
  Db, default_config, with_field, without_secrets, migrate, insert_default, query, read_row,
  update_config, get_config, import_fresh, import_legacy_config,
}
use continuum_plugin_whmcs_l.Store.Codec.{encode_config, config_eq}
use continuum_plugin_whmcs_l.Store.Laws.{read_row-encode_config}

-- The row after the migration.
abbrev pub row_or_empty : Option Value → Value
row_or_empty none = obj end
row_or_empty (some v) = v

abbrev pub working : Value → Db
working v = record { row = some v; outages = [] }

pub migrate-working :
    (row : Option Value)
    → migrate (record { row = row; outages = [] }) ≡ (ok tt, working (row_or_empty row))
unfolding migrate insert_default query
migrate-working none = refl
migrate-working (some v) = refl

-- The validation reads no more than the server and the mappings.
validate_config_same :
    (net : Platform) (cfg c : Config)
    → validate_config net cfg ≡ ok cfg
    → c.whmcs_server_url ≡ cfg.whmcs_server_url
    → c.claim_role_mapping ≡ cfg.claim_role_mapping
    → (clean : Config) × (validate_config net c ≡ ok clean)
unfolding validate_config
validate_config_same net cfg c h url mapped =
    let (checked, (mapping, valid, e)) = validate_config_parts net cfg cfg h in
    (
      record c { claim_role_mapping = mapping },
      rw (validate_config, url, checked, mapped, valid) refl,
    )

with_field_rest :
    (c : Config)
    → ((with_field c).whmcs_server_url ≡ c.whmcs_server_url)
      × ((with_field c).claim_role_mapping ≡ c.claim_role_mapping)
unfolding with_field
with_field_rest c = elim (Bool-cases (c.discord_id_custom_field == "")) [
  | inl unset ↦ rw (with_field, unset) (refl, refl)
  | inr given ↦ rw (with_field, given) (refl, refl)
]

update_config-working :
    (net : Platform) (cfg clean : Config) (v : Value)
    → validate_config net (with_field (without_secrets cfg)) ≡ ok clean
    → update_config net cfg (working v) ≡ (
      ok (record cfg { claim_role_mapping = clean.claim_role_mapping }),
      working (encode_config clean),
    )
unfolding update_config query
update_config-working net cfg clean v valid = rw (update_config, valid) refl

import_saved :
    (net : Platform) (legacy current : Config) (v : Value)
    → read_row v ≡ ok current
    → config_eq current default_config ≡ false
    → import_legacy_config net legacy (working v) ≡ (ok current, working v)
unfolding import_legacy_config
import_saved net legacy current v h differs = rw (h, ◌>>=◌) (rw differs refl)

-- The second validation depends on the resolver's second answer only.
pub validate_config-again :
    (net : Platform) (cfg : Config)
    → validate_config net cfg ≡ ok cfg
    → check_server (again net) cfg.whmcs_server_url ≡ ok tt
    → validate_config (again net) cfg ≡ ok cfg
unfolding validate_config
validate_config-again net cfg h passes =
    let (checked, (mapping, valid, e)) = validate_config_parts net cfg cfg h in
    let same : mapping ≡ cfg.claim_role_mapping = sym (ap (λ c. c.claim_role_mapping) e) in
    rw (passes, valid, same) refl

-- With a configuration from the host that is valid again and a row that can be read, a working database imports.
pub import_legacy_config-working :
    (net : Platform) (legacy current : Config) (v : Value)
    → validate_config (again net) legacy ≡ ok legacy
    → read_row v ≡ ok current
    → (effective : Config) × (after : Value) × (import_legacy_config net legacy (working v)
        ≡ (ok effective, working after))
unfolding import_legacy_config import_fresh get_config query
import_legacy_config-working net legacy current v valid readable =
    elim (Bool-cases (config_eq current default_config)) [
      | inr differs ↦ (current, v, import_saved net legacy current v readable differs)
      | inl fresh ↦
          let next = with_field (without_secrets legacy) in
          elim (Bool-cases (config_eq next current)) [
            | inl same ↦ (current, v, rw (readable, ◌>>=◌) (rw (fresh, same) refl))
            | inr other ↦
                let (url₁, map₁) = with_field_rest (without_secrets legacy) in
                let (url₂, map₂) = with_field_rest (without_secrets next) in
                let (clean, checked) =
                  validate_config_same (again net) legacy (with_field (without_secrets next)) valid
                    (url₂ ∙ url₁) (map₂ ∙ map₁) in
                (
                  with_field clean,
                  encode_config clean,
                  rw (readable, ◌>>=◌)
                      (rw (fresh, other, update_config-working (again net) next clean v checked)
                        (rw (read_row-encode_config clean) refl)),
                )
          ]
    ]
