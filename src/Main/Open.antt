-- ===== src/Main/Open.antt =====
-- Which pools stay open.
use continuum_plugin_whmcs_l.Prelude.{
  ℕ, ◌<◌, true, false, not, List, [], ◌∷◌, Option, none, some, ok, eqb, ◌==◌, ◌≡◌, refl, arith, ◌∙◌,
  inl, inr, Bool-cases, Option-cases, Result-cases,
}
use continuum_plugin_whmcs_l.Runtime.Url.{Platform}
use continuum_plugin_whmcs_l.Runtime.Config.{Config}
use continuum_plugin_whmcs_l.Runtime.Load.{ConfigEntry, load_config}
use continuum_plugin_whmcs_l.Store.{Db, migrate, import_legacy_config, update_config}
use continuum_plugin_whmcs_l.Admin.Update.{apply_patch, Patch}
use continuum_plugin_whmcs_l.Main.Pool.{
  Handles, no_pools, open_pool, without, close_pool, swap_pool, store_on,
}
use continuum_plugin_whmcs_l.Main.{
  start, live_config, apply_config, System, Pools, in_db, prepare, on_config, configure,
  update_live, patch_live, Step, configured, patched, Reach, here, more,
}

abbrev pub held : Option ℕ → List ℕ
held none = []
held (some n) = n ∷ []

-- The pool of `poolPtr` is the store's and the only one that is open.
pub record IsTidy (h : Handles) : Type 0 where
  pub only_current : h.still_open ≡ held h.current
  pub store_current : h.stored ≡ h.current
  pub opened_before : (n : ℕ) → h.current ≡ some n → n < h.opened

without_self : (n : ℕ) (ms : List ℕ) → without n (n ∷ ms) ≡ without n ms
unfolding without
without_self n ms = let same : eqb n n ≡ true = ground arith in rw (without, same) refl

without-old : (n m : ℕ) → n < m → without m (n ∷ []) ≡ n ∷ []
unfolding without
without-old n m old = let other : eqb n m ≡ false = ground arith in rw (without, other) refl

without-new : (n m : ℕ) → n < m → without n (m ∷ n ∷ []) ≡ m ∷ []
unfolding without
without-new n m old =
    let other : eqb m n ≡ false = ground arith in
    let same : eqb n n ≡ true = ground arith in rw (without, other, same) refl

close_pool-IsTidy : (h : Handles) → IsTidy h → IsTidy (close_pool h.opened (open_pool h))
unfolding close_pool
close_pool-IsTidy h v = elim (Option-cases h.current) [
  | inl none_yet ↦ record {
    only_current = without_self h.opened h.still_open ∙ rw (v.only_current, none_yet) refl;
    store_current = v.store_current;
    opened_before = λ n e. omega (arith, v.opened_before n e);
  }
  | inr (c, held_one) ↦ record {
    only_current =
        without_self h.opened h.still_open
        ∙ rw (v.only_current, held_one) (without-old c h.opened (v.opened_before c held_one));
    store_current = v.store_current;
    opened_before = λ n e. omega (arith, v.opened_before n e);
  }
]

swap_pool-IsTidy :
    (h : Handles) → IsTidy h → IsTidy (swap_pool h.opened (store_on h.opened (open_pool h)))
unfolding swap_pool close_pool
swap_pool-IsTidy h v = elim (Option-cases h.current) [
  | inl none_yet ↦ rw none_yet (record {
    only_current = rw (v.only_current, none_yet) refl;
    store_current = refl;
    opened_before = λ n e. ground arith;
  })
  | inr (c, held_one) ↦ rw held_one (record {
    only_current =
        rw (v.only_current, held_one) (without-new c h.opened (v.opened_before c held_one));
    store_current = refl;
    opened_before = λ n e. ground arith;
  })
]

module _ (net : Platform) (pools : Pools) where
  prepare_done :
      (cfg : Config) (s : System) (pool : ℕ) (saved : Config)
      → (migrate s.db).0 ≡ ok tt
      → (import_legacy_config net cfg (migrate s.db).1).0 ≡ ok saved
      → (prepare net pools cfg pool s).1.handles ≡ swap_pool pool (store_on pool s.handles)
  unfolding prepare in_db apply_config
  prepare_done cfg s pool saved migrated imported = rw (prepare, migrated, imported) refl

  -- From the migration on, with the new pool opened.
  prepare-IsTidy :
      (cfg : Config) (s : System) (h : Handles)
      → IsTidy h
      → s.handles ≡ open_pool h
      → IsTidy (prepare net pools cfg h.opened s).1.handles
  unfolding prepare in_db apply_config
  prepare-IsTidy cfg s h v opened =
      let closed = close_pool-IsTidy h v in
      elim (Result-cases (migrate s.db).0) [
        | inr (e, failed) ↦ rw (prepare, failed, opened) closed
        | inl (done, migrated) ↦
            elim (Result-cases (import_legacy_config net cfg (migrate s.db).1).0) [
              | inr (e, failed) ↦ rw (migrated, failed, opened) closed
              | inl (saved, imported) ↦
                  rw (prepare_done cfg s h.opened saved migrated imported, opened)
                    (swap_pool-IsTidy h v)
            ]
      ]

  on_config-IsTidy :
      (cfg : Config) (s : System) → IsTidy s.handles → IsTidy (on_config net pools cfg s).1.handles
  unfolding on_config
  on_config-IsTidy cfg s v = elim (Bool-cases (not (cfg.database_url == ""))) [
    | inr unset ↦ rw unset v
    | inl given ↦ elim (Bool-cases (pools.parses cfg.database_url)) [
      | inr bad ↦ rw (given, bad) v
      | inl good ↦ elim (Bool-cases (pools.connects cfg.database_url)) [
        | inr down ↦ rw (given, good, down) v
        | inl up ↦ rw (given, good, up) (prepare-IsTidy cfg _ s.handles v refl)
      ]
    ]
  ]

  configure-IsTidy :
      (entries : List ConfigEntry) (s : System)
      → IsTidy s.handles
      → IsTidy (configure net pools entries s).1.handles
  unfolding configure
  configure-IsTidy entries s v = elim (Result-cases (load_config net entries)) [
    | inr (e, bad) ↦ rw bad v
    | inl (cfg, loaded) ↦
        let after = on_config-IsTidy cfg s v in
        elim (Result-cases (on_config net pools cfg s).0) [
          | inr (e, failed) ↦ rw (loaded, failed) after
          | inl (done, ran) ↦ rw (loaded, ran) after
        ]
  ]

  -- A change by an admin leaves the pools alone.
  patch_live-handles :
      (req : Patch) (s : System) → (patch_live net pools req s).1.handles ≡ s.handles
  unfolding patch_live update_live in_db
  patch_live-handles req s = elim (Bool-cases s.process.has_store) [
    | inr none_yet ↦ rw none_yet refl
    | inl there_is ↦
        elim (Result-cases (update_config net (apply_patch req (live_config s.process)) s.db).0) [
          | inr (e, failed) ↦ rw (there_is, failed) refl
          | inl (saved, done) ↦ rw (there_is, done) refl
        ]
  ]

  Step-IsTidy : {s t : System} → Step net pools s t → IsTidy s.handles → IsTidy t.handles
  Step-IsTidy {s} (configured entries) v = configure-IsTidy entries s v
  Step-IsTidy {s} (patched req) v = rw (patch_live-handles req s) v

  Reach-IsTidy : {s t : System} → IsTidy s.handles → Reach net pools s t → IsTidy t.handles
  Reach-IsTidy v here = v
  Reach-IsTidy v (more r st) = Step-IsTidy st (Reach-IsTidy v r)

  no_pools-IsTidy : IsTidy no_pools
  no_pools-IsTidy = record {
    only_current = refl;
    store_current = refl;
    opened_before = λ n e. absurd (cc);
  }

  -- However the host configures the plugin and the admins change it, and wherever a configuration fails:
  -- the store's pool is the current one, and no other pool that was opened is still open.
  pub Reach-pools :
      (db : Db) (t : System)
      → Reach net pools (record { process = start; db = db; handles = no_pools }) t
      → (t.handles.stored ≡ t.handles.current) × (t.handles.still_open ≡ held t.handles.current)
  Reach-pools db t r = let v = Reach-IsTidy no_pools-IsTidy r in (v.store_current, v.only_current)
