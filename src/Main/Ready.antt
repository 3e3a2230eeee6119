-- ===== src/Main/Ready.antt =====
-- When the plugin gets ready.
use continuum_plugin_whmcs_l.Prelude.{
  ℕ, true, false, List, [], ok, ◌==◌, ◌≡◌, ◌≢◌, refl, ap, ◌∙◌, arith, eq_iff, Bool-cases,
  Result-cases, inl, inr,
}
use continuum_plugin_whmcs_l.Runtime.Url.{Platform, again}
use continuum_plugin_whmcs_l.Runtime.Config.{Config, check_server}
use continuum_plugin_whmcs_l.Runtime.Load.{ConfigEntry, load_config}
use continuum_plugin_whmcs_l.Runtime.Load.Laws.{load_config_valid}
use continuum_plugin_whmcs_l.Store.{read_row, migrate, import_legacy_config, update_config}
use continuum_plugin_whmcs_l.Store.Ready.{
  row_or_empty, working, migrate-working, import_legacy_config-working, validate_config-again,
}
use continuum_plugin_whmcs_l.Admin.Update.{Patch, apply_patch}
use continuum_plugin_whmcs_l.Main.Pool.{open_pool}
use continuum_plugin_whmcs_l.Main.{
  live_config, apply_config, System, Pools, in_db, prepare, on_config, configure, update_live,
  patch_live, configured, patched, Reach, here, more, on_handles,
}

module _ (net : Platform) (pools : Pools) where
  configure_done :
      (entries : List ConfigEntry) (cfg current : Config) (s : System)
      → load_config net entries ≡ ok cfg
      → check_server (again net) cfg.whmcs_server_url ≡ ok tt
      → cfg.database_url ≢ ""
      → pools.parses cfg.database_url ≡ true
      → pools.connects cfg.database_url ≡ true
      → s.db.outages ≡ []
      → read_row (row_or_empty s.db.row) ≡ ok current
      → ((configure net pools entries s).0 ≡ ok tt)
        × ((configure net pools entries s).1.process.has_handler ≡ true)
  unfolding configure on_config prepare in_db apply_config
  configure_done entries cfg current s loaded passes given parses connects up readable =
      let set : (cfg.database_url == "") ≡ false = ground (arith, eq_iff cfg.database_url "") in
      let migrated : migrate s.db ≡ (ok tt, working (row_or_empty s.db.row)) =
        ap (λ o. migrate (record s.db { outages = o })) up ∙ migrate-working s.db.row in
      let (effective, after, imported) =
        import_legacy_config-working net cfg current (row_or_empty s.db.row)
          (validate_config-again net cfg (load_config_valid net entries cfg loaded) passes)
          readable in
      rw (loaded, set, parses, connects, migrated, imported) (refl, refl)

  prepare-has_handler :
      (cfg : Config) (pool : ℕ) (s : System)
      → s.process.has_handler ≡ true
      → (prepare net pools cfg pool s).1.process.has_handler ≡ true
  unfolding prepare in_db apply_config
  prepare-has_handler cfg pool s h = elim (Result-cases (migrate s.db).0) [
    | inr (e, failed) ↦ rw failed h
    | inl (done, migrated) ↦ elim (Result-cases (import_legacy_config net cfg (migrate s.db).1).0) [
      | inr (e, failed) ↦ rw (migrated, failed) h
      | inl (saved, imported) ↦ rw (migrated, imported) refl
    ]
  ]

  configure-has_handler :
      (entries : List ConfigEntry) (s : System)
      → s.process.has_handler ≡ true
      → (configure net pools entries s).1.process.has_handler ≡ true
  unfolding configure on_config
  configure-has_handler entries s h = elim (Result-cases (load_config net entries)) [
    | inr (e, bad) ↦ rw bad h
    | inl (cfg, loaded) ↦ elim (Bool-cases (cfg.database_url == "")) [
      | inl unset ↦ rw (loaded, unset) h
      | inr given ↦ elim (Bool-cases (pools.parses cfg.database_url)) [
        | inr bad ↦ rw (loaded, given, bad) h
        | inl good ↦ elim (Bool-cases (pools.connects cfg.database_url)) [
          | inr down ↦ rw (loaded, given, good, down) h
          | inl up ↦
              let opened = on_handles open_pool s in
              let after = prepare-has_handler cfg s.handles.opened opened h in
              elim (Result-cases (prepare net pools cfg s.handles.opened opened).0) [
                | inr (e, failed) ↦ rw (loaded, given, good, up, failed) after
                | inl (done, ran) ↦ rw (loaded, given, good, up, ran) after
              ]
        ]
      ]
    ]
  ]

  patch_live-has_handler :
      (req : Patch) (s : System)
      → (patch_live net pools req s).1.process.has_handler ≡ s.process.has_handler
  unfolding patch_live update_live in_db apply_config
  patch_live-has_handler req s = elim (Bool-cases s.process.has_store) [
    | inr none_yet ↦ rw none_yet refl
    | inl there_is ↦
        elim (Result-cases (update_config net (apply_patch req (live_config s.process)) s.db).0) [
          | inr (e, failed) ↦ rw (there_is, failed) refl
          | inl (saved, done) ↦ rw (there_is, done) refl
        ]
  ]

  Reach-has_handler :
      {s t : System}
      → Reach net pools s t
      → s.process.has_handler ≡ true
      → t.process.has_handler ≡ true
  Reach-has_handler here h = h
  Reach-has_handler (more {t = u} r (configured entries)) h =
      configure-has_handler entries u (Reach-has_handler r h)
  Reach-has_handler (more {t = u} r (patched req)) h =
      patch_live-has_handler req u ∙ Reach-has_handler r h

  -- Entries that load, whose server passes again with what the resolver answers to the second validation,
  -- and that name a working database, whose row, if there is one, can be read: `Configure` succeeds, and
  -- there is an HTTP handler from then on, whatever the host configures and the admins change afterwards.
  pub configure_ready :
      (entries : List ConfigEntry) (cfg current : Config) (s t : System)
      → load_config net entries ≡ ok cfg
      → check_server (again net) cfg.whmcs_server_url ≡ ok tt
      → cfg.database_url ≢ ""
      → pools.parses cfg.database_url ≡ true
      → pools.connects cfg.database_url ≡ true
      → s.db.outages ≡ []
      → read_row (row_or_empty s.db.row) ≡ ok current
      → Reach net pools (configure net pools entries s).1 t
      → ((configure net pools entries s).0 ≡ ok tt) × (t.process.has_handler ≡ true)
  configure_ready entries cfg current s t loaded passes given parses connects up readable later =
      let (fine, handled) =
        configure_done entries cfg current s loaded passes given parses connects up readable in
      (fine, Reach-has_handler later handled)
