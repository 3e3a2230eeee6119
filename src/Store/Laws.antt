-- ===== src/Store/Laws.antt =====
-- Saving, reading and importing the configuration.
use continuum_plugin_whmcs_l.Prelude.{
  ℕ, suc, [], some, ok, err, Result-cases, ◌≡◌, ◌≢◌, inl, inr, refl, ap, ◌∙◌, arith, Bool-cases,
  ◌==◌,
}
use continuum_plugin_whmcs_l.Json.{Value}
use continuum_plugin_whmcs_l.Runtime.Url.{Platform}
use continuum_plugin_whmcs_l.Runtime.Config.{Config, validate_config, validate_slice}
use continuum_plugin_whmcs_l.Runtime.Spelling.{RespelledSlice, validate_slice-RespelledSlice}
use continuum_plugin_whmcs_l.Runtime.Valid.{validate_config_parts}
use continuum_plugin_whmcs_l.Store.Codec.{encode_config, decode_config-encode_config}
use continuum_plugin_whmcs_l.Store.{
  Db, StoreError, gave_up, default_config, with_field, without_secrets, read_row, get_config,
  get_fuel, update_config,
}

with_field-mapping :
    (net : Platform) (cfg clean : Config)
    → validate_config net (with_field (without_secrets cfg)) ≡ ok clean
    → with_field clean
      ≡ with_field (without_secrets (record cfg { claim_role_mapping = clean.claim_role_mapping }))
unfolding with_field
with_field-mapping net cfg clean h =
    let (checked, (mapping, valid, e)) =
      validate_config_parts net (with_field (without_secrets cfg)) clean h in
    rw e (elim (Bool-cases (cfg.discord_id_custom_field == "")) [
      | inl unset ↦ ground arith
      | inr given ↦ ground arith
    ])

pub read_row-encode_config :
    (clean : Config) → read_row (encode_config clean) ≡ ok (with_field clean)
unfolding read_row
read_row-encode_config clean = rw (decode_config-encode_config clean default_config, read_row)

get_config_of_row :
    (fuel : ℕ) (v : Value)
    → get_config (suc fuel) (record { row = some v; outages = [] })
      ≡ (read_row v, record { row = some v; outages = [] })
unfolding get_config
get_config_of_row fuel v = refl

with_field_mapping :
    (cfg : Config) → (with_field (without_secrets cfg)).claim_role_mapping ≡ cfg.claim_role_mapping
unfolding with_field
with_field_mapping cfg = elim (Bool-cases (cfg.discord_id_custom_field == "")) [
  | inl unset ↦ rw (with_field, unset) refl
  | inr given ↦ rw (with_field, given) refl
]

update_config_parts :
    (net : Platform) (cfg next : Config) (db db' : Db)
    → update_config net cfg db ≡ (ok next, db')
    → (clean : Config) × (validate_config net (with_field (without_secrets cfg)) ≡ ok clean)
      × (next ≡ record cfg { claim_role_mapping = clean.claim_role_mapping })
      × (db'.row ≡ some (encode_config clean))
unfolding update_config
update_config_parts net cfg next db db' h =
    elim (Result-cases (validate_config net (with_field (without_secrets cfg)))) [
      | inl (clean, valid) ↦ (clean, valid, ground arith, ground arith)
      | inr (e, bad) ↦ ground arith
    ]

-- An update returns the mappings that it was given, one by one, with their numbers written in decimal.
pub update_config-RespelledSlice :
    (net : Platform) (cfg next : Config) (db db' : Db)
    → update_config net cfg db ≡ (ok next, db')
    → RespelledSlice cfg.claim_role_mapping next.claim_role_mapping
update_config-RespelledSlice net cfg next db db' h =
    let (clean, valid, same, stored) = update_config_parts net cfg next db db' h in
    let (checked, (mapping, spelt, e)) =
      validate_config_parts net (with_field (without_secrets cfg)) clean valid in
    let kept : (with_field (without_secrets cfg)).claim_role_mapping ≡ cfg.claim_role_mapping =
      with_field_mapping cfg in
    let read : validate_slice cfg.claim_role_mapping ≡ ok mapping = rw kept at spelt in
    rw (same, e) (validate_slice-RespelledSlice cfg.claim_role_mapping mapping read)

-- Nothing but the mappings differs in what an update returns.
pub update_config-same :
    (net : Platform) (cfg next : Config) (db db' : Db)
    → update_config net cfg db ≡ (ok next, db')
    → record next { claim_role_mapping = cfg.claim_role_mapping } ≡ cfg
update_config-same net cfg next db db' h =
    let (clean, valid, same, stored) = update_config_parts net cfg next db db' h in rw same refl

-- After an update that succeeds, a read by a working database gives the saved configuration: its
-- product ids as the validation wrote them, the Discord field's default where it was empty, and no
-- secret.
pub update_config-get_config :
    (net : Platform) (cfg next : Config) (db db' : Db)
    → update_config net cfg db ≡ (ok next, db')
    → (get_config get_fuel (record db' { outages = [] })).0 ≡ ok (with_field (without_secrets next))
update_config-get_config net cfg next db db' h =
    let (clean, valid, same, stored) = update_config_parts net cfg next db db' h in
    rw (stored, same)
      (ap (λ x. x.0) (get_config_of_row 1 (encode_config clean))
        ∙ read_row-encode_config clean
        ∙ ap ok (with_field-mapping net cfg clean valid))

-- A read never runs out of its two rounds, whatever the row and the failures of the queries.
pub get_config-ne-gave_up : (db : Db) → (get_config get_fuel db).0 ≢ err gave_up
unfolding get_config read_row
get_config-ne-gave_up db = ground arith

-- An update that fails leaves the row as it was.
pub update_config_failed :
    (net : Platform) (cfg : Config) (db : Db) (e : StoreError)
    → (update_config net cfg db).0 ≡ err e
    → (update_config net cfg db).1.row ≡ db.row
unfolding update_config
update_config_failed net cfg db e h = ground arith
