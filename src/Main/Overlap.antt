-- ===== src/Main/Overlap.antt =====
-- The admins' changes of the configuration when they overlap (cmd/silo-plugin-whmcs-login/main.go,
-- `UpdateConfigFn`, and internal/admin/server.go, `HandleUpdateConfig`): each reads the live configuration,
-- saves the changed one and makes it live, and nothing keeps another from doing the same in between. A
-- configuration by the host is taken as one step.
pub mod Secrets
use continuum_plugin_whmcs_l.Prelude.{ℕ, true, false, List, ok, err, update, ◌≡◌}
use continuum_plugin_whmcs_l.Runtime.Url.{Platform}
use continuum_plugin_whmcs_l.Runtime.Config.{Config}
use continuum_plugin_whmcs_l.Runtime.Load.{ConfigEntry}
use continuum_plugin_whmcs_l.Admin.Update.{Patch, apply_patch}
use continuum_plugin_whmcs_l.Store.{StoreError, update_config}
use continuum_plugin_whmcs_l.Main.{System, Pools, live_config, apply_config, configure}

-- Where a change stands: what is to be saved, and what is saved and not live yet.
pub data Edit : Type 0 where
  resting : Edit
  merged saved : Config → Edit

pub record Changes : Type 0 where
  pub system : System
  pub edit : ℕ → Edit

abbrev pub quiet : System → Changes
quiet s = record { system = s; edit = λ i. resting }

module _ (net : Platform) (pools : Pools) where
  -- One step of a change.
  pub data Act (s : System) : Edit → System → Edit → Type 0 where
    merges : (req : Patch) → Act s resting s (merged (apply_patch req (live_config s.process)))
    refused : {next : Config} → s.process.has_store ≡ false → Act s (merged next) s resting
    fails :
        {next : Config} {e : StoreError}
        → s.process.has_store ≡ true
        → (update_config net next s.db).0 ≡ err e
        → Act s (merged next) (record s { db = (update_config net next s.db).1 }) resting
    saves :
        {next cfg : Config}
        → s.process.has_store ≡ true
        → (update_config net next s.db).0 ≡ ok cfg
        → Act s (merged next) (record s { db = (update_config net next s.db).1 }) (saved cfg)
    applies :
        {cfg : Config}
        → Act s (saved cfg) (record s { process = apply_config cfg s.process }) resting

  -- The admins are numbered, and their steps come in any order.
  pub data Step (f : Changes) : Changes → Type 0 where
    acts :
        (i : ℕ) {s : System} {e : Edit}
        → Act f.system (f.edit i) s e
        → Step f (record { system = s; edit = update f.edit i e })
    configured :
        (entries : List ConfigEntry)
        → Step f (record { system = (configure net pools entries f.system).1; edit = f.edit })

  pub data Reach (f : Changes) : Changes → Type 0 where
    here : Reach f f
    more : {g h : Changes} → Reach f g → Step g h → Reach f h
