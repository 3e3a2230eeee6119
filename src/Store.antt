-- ===== src/Store.antt =====
-- internal/store/store.go: the configuration's row in Postgres.
pub mod Codec
pub mod Clean
pub mod Laws
pub mod Ready
use continuum_plugin_whmcs_l.Prelude.{
  ℕ, zero, suc, Bool, true, false, List, [], ◌∷◌, Option, none, some, ◌==◌, Result, ok, err,
  map_err, if◌then◌else◌,
}
use continuum_plugin_whmcs_l.Prelude.Steps.{
  Steps, pure, fail, from_result, modify, get, ◌>>=◌, ◌>>◌,
}
use continuum_plugin_whmcs_l.Json.{Value, obj, end}
use continuum_plugin_whmcs_l.Runtime.Url.{Platform, again}
use continuum_plugin_whmcs_l.Runtime.Config.{Config, zero_config, ConfigError, validate_config}
use continuum_plugin_whmcs_l.Store.Codec.{encode_config, decode_config, config_eq}

-- The row of `app_config`, if it is there, and which of the next queries fail, whatever they carry; none
-- does when the list has run out. A database also refuses a jsonb text with the code point 0; here that is
-- one of the failures.
pub record Db : Type 0 where
  pub row : Option Value
  pub outages : List Bool

pub data StoreError : Type 0 where
  query_failed decode_failed gave_up : StoreError
  rejected : ConfigError → StoreError

abbrev pub default_config : Config
default_config = record zero_config { discord_id_custom_field = "Discord ID" }

-- An empty `DiscordIDCustomField` is replaced by the default.
unfoldable pub with_field : Config → Config
with_field cfg =
    if cfg.discord_id_custom_field == ""
    then record cfg { discord_id_custom_field = "Discord ID" }
    else cfg

abbrev pub without_secrets : Config → Config
without_secrets cfg = record cfg {
  database_url = "";
  client_secret = "";
  whmcs_admin_api_secret = "";
}

abbrev answer : List Bool → Result StoreError (Unit {0})
answer (true ∷ later) = err query_failed
answer _ = ok tt

abbrev pub later : List Bool → List Bool
later [] = []
later (b ∷ bs) = bs

-- A round trip to the database.
unfoldable pub query : Steps Db StoreError (Unit {0})
query db = (answer db.outages, record db { outages = later db.outages })

-- `INSERT … ON CONFLICT DO NOTHING` of an empty object.
abbrev pub ensured : Option Value → Option Value
ensured none = some (obj end)
ensured (some v) = some v

unfoldable pub insert_default : Steps Db StoreError (Unit {0})
unfolding query
insert_default = do query; modify (λ db. record db { row = ensured db.row })

unfoldable pub migrate : Steps Db StoreError (Unit {0})
unfolding insert_default
migrate = insert_default

-- What `GetConfig` makes of the row's data.
unfoldable pub read_row : Value → Result StoreError Config
read_row v = elim (decode_config v default_config) [
  | none ↦ err decode_failed
  | some cfg ↦ ok (with_field cfg)
]

-- `GetConfig` with the row that its query found: where there is none it is created, and the call
-- `again` is made.
abbrev got : Steps Db StoreError Config → Option Value → Steps Db StoreError Config
got again none = insert_default >> again
got again (some v) = from_result (read_row v)

-- The fuel bounds the calls that `GetConfig` makes of itself.
unfoldable pub get_config : ℕ → Steps Db StoreError Config
unfolding query insert_default
get_config zero = fail gave_up
get_config (suc fuel) = do query; db ← get; got (get_config fuel) db.row

-- The row is there when `GetConfig` calls itself.
abbrev pub get_fuel : ℕ
get_fuel = 2

-- `UpdateConfig`. The validation rewrites the product ids in the caller's slice too, so the
-- configuration with these ids is the result.
unfoldable pub update_config : Platform → Config → Steps Db StoreError Config
unfolding query
update_config net cfg = do
  clean ← from_result (map_err rejected (validate_config net (with_field (without_secrets cfg))))
  query
  modify (λ db. record db { row = some (encode_config clean) })
  pure (record cfg { claim_role_mapping = clean.claim_role_mapping })

-- The end of `ImportLegacyConfig`, where the row still holds the defaults. The host's configuration has been
-- validated before, and is validated again.
unfoldable pub import_fresh : Platform → Config → Config → Steps Db StoreError Config
unfolding update_config get_config
import_fresh net current clean =
    if config_eq clean current
    then pure current
    else (update_config (again net) clean >> get_config get_fuel)

unfoldable pub import_legacy_config : Platform → Config → Steps Db StoreError Config
unfolding import_fresh get_config
import_legacy_config net legacy = do
  current ← get_config get_fuel
  if config_eq current default_config
      then import_fresh net current (with_field (without_secrets legacy))
      else pure current
