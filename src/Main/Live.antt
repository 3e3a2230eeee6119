-- ===== src/Main/Live.antt =====
-- What an admin's change leaves behind.
use continuum_plugin_whmcs_l.Prelude.{ok, Bool-cases, Result-cases, ◌≡◌, [], ap, inl, inr}
use continuum_plugin_whmcs_l.Runtime.Url.{Platform}
use continuum_plugin_whmcs_l.Store.{
  update_config, get_config, get_fuel, with_field, without_secrets,
}
use continuum_plugin_whmcs_l.Store.Laws.{
  update_config-get_config, update_config-same, update_config-RespelledSlice,
}
use continuum_plugin_whmcs_l.Runtime.Spelling.{RespelledSlice}
use continuum_plugin_whmcs_l.Admin.Update.{Patch, apply_patch}
use continuum_plugin_whmcs_l.Main.{
  System, Pools, live_config, apply_config, patch_live, update_live, in_db,
}

module _ (net : Platform) (pools : Pools) where
  -- A change that succeeds is live and saved: the live configuration is the one before with the
  -- request's fields, where each of the mappings has its number written in decimal and its role kept; and a
  -- read by a working database gives it without its secrets and with the Discord field's default where it
  -- is empty.
  pub patch_live-saved :
      (req : Patch) (s t : System)
      → patch_live net pools req s ≡ (ok tt, t)
      → (record (live_config t.process) {
        claim_role_mapping = (apply_patch req (live_config s.process)).claim_role_mapping;
      }
          ≡ apply_patch req (live_config s.process))
        × RespelledSlice
            (apply_patch req (live_config s.process)).claim_role_mapping
            (live_config t.process).claim_role_mapping
        × ((get_config get_fuel (record t.db { outages = [] })).0
            ≡ ok (with_field (without_secrets (live_config t.process))))
  unfolding patch_live update_live in_db apply_config
  patch_live-saved req s t h = elim (Bool-cases s.process.has_store) [
    | inr none_yet ↦ absurd (let f = ap (λ x. x.0) (rw none_yet at h) in cc)
    | inl store ↦
        let next = apply_patch req (live_config s.process) in
        elim (Result-cases (update_config net next s.db).0) [
          | inr (e, failed) ↦ absurd (let f = ap (λ x. x.0) (rw (store, failed) at h) in cc)
          | inl (saved, done) ↦
              let db = (update_config net next s.db).1 in
              let run : update_config net next s.db ≡ (ok saved, db) = λ i. (done i, db) in
              let after = ap (λ x. x.1) (rw (store, done) at h) in
              rw (← after) (
                update_config-same net next saved s.db db run,
                update_config-RespelledSlice net next saved s.db db run,
                update_config-get_config net next saved s.db db run,
              )
        ]
  ]
