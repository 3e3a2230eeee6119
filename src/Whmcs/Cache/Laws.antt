-- ===== src/Whmcs/Cache/Laws.antt =====
-- What the cache keeps, and when it asks.
use continuum_plugin_whmcs_l.Prelude.{
  ℕ, ◌+◌, ◌≤◌, List, [], none, some, Result, ok, err, ltb, ◌≡◌, ◌⊎◌, inl, inr, refl, ap, ◌∙◌, sym,
  arith, Bool-cases,
}
use continuum_plugin_whmcs_l.Prelude.Steps.{Steps}
use continuum_plugin_whmcs_l.Whmcs.Http.{World, WhmcsError}
use continuum_plugin_whmcs_l.Whmcs.Types.{Product}
use continuum_plugin_whmcs_l.Whmcs.Cache.{
  Cache, new_cache, noted, is_fresh, refresh, refreshed, get,
}

-- What the admins are shown is right: the list is the one of the last success, and empty before it; where
-- the last attempt did not fail, it is that success.
pub record IsConsistent {S : Type 0} (c : Cache S) : Type 0 where
  pub empty : (c.products ≡ []) ⊎ ((t : ℕ) × (c.at ≡ some t))
  pub shown : (c.at ≡ c.last_attempt) ⊎ ((e : WhmcsError) × (c.last_err ≡ some e))
  pub tried : (c.at ≡ none) ⊎ ((t : ℕ) × (c.last_attempt ≡ some t))

pub new_cache-IsConsistent : {S : Type 0} (s : S) → IsConsistent (new_cache s)
new_cache-IsConsistent s = record { empty = inl refl; shown = inl refl; tried = inl refl }

module _ (w : World) where
  pub noted-IsConsistent :
      (out : Result WhmcsError (List Product)) (now : ℕ) (c : Cache w.State)
      → IsConsistent c
      → IsConsistent (noted w out now c).1
  noted-IsConsistent (ok ps) now c v = record {
    empty = inr (now, refl);
    shown = inl refl;
    tried = inr (now, refl);
  }
  noted-IsConsistent (err e) now c v = record {
    empty = v.empty;
    shown = inr (e, refl);
    tried = inr (now, refl);
  }

  is_fresh-IsConsistent :
      (ttl : ℕ) (c : Cache w.State) → IsConsistent c → IsConsistent (is_fresh w ttl c).1
  unfolding is_fresh
  is_fresh-IsConsistent ttl c v = record { empty = v.empty; shown = v.shown; tried = v.tried }

  module _ (ttl : ℕ) (get_products : Steps w.State WhmcsError (List Product)) where
    refresh-IsConsistent :
        (c : Cache w.State) → IsConsistent c → IsConsistent (refresh w ttl get_products c).1
    unfolding refresh
    refresh-IsConsistent c v =
        let (out, s) = get_products c.world in
        let (now, s') = w.now s in
        noted-IsConsistent out now (record c { world = s' })
          (record { empty = v.empty; shown = v.shown; tried = v.tried })

    refreshed-IsConsistent :
        (c : Cache w.State) → IsConsistent c → IsConsistent (refreshed w ttl get_products c).1
    unfolding refreshed
    refreshed-IsConsistent c v =
        let v₁ = is_fresh-IsConsistent ttl c v in
        elim (Bool-cases (is_fresh w ttl c).0) [
          | inl fresh ↦ rw fresh v₁
          | inr stale ↦ rw stale (refresh-IsConsistent (is_fresh w ttl c).1 v₁)
        ]

    get-IsConsistent :
        (c : Cache w.State) → IsConsistent c → IsConsistent (get w ttl get_products c).1
    unfolding get
    get-IsConsistent c v =
        let v₁ = is_fresh-IsConsistent ttl c v in
        elim (Bool-cases (is_fresh w ttl c).0) [
          | inl fresh ↦ rw fresh v₁
          | inr stale ↦ rw stale (refreshed-IsConsistent (is_fresh w ttl c).1 v₁)
        ]

    -- A run of calls of `Get` and `Refresh` on a new cache, in any order, whatever they end with.
    pub data Used (s : w.State) : Cache w.State → Type 0 where
      unused : Used s (new_cache s)
      read : {c : Cache w.State} → Used s c → Used s (get w ttl get_products c).1
      fetched : {c : Cache w.State} → Used s c → Used s (refresh w ttl get_products c).1

    -- However the cache has been read and refreshed: before the first success its list is empty; where
    -- no error is shown, the last attempt is the success that filled it; and a success is an attempt.
    pub Used-IsConsistent : {s : w.State} {c : Cache w.State} → Used s c → IsConsistent c
    Used-IsConsistent {s} unused = new_cache-IsConsistent s
    Used-IsConsistent (read {c} u) = get-IsConsistent c (Used-IsConsistent u)
    Used-IsConsistent (fetched {c} u) = refresh-IsConsistent c (Used-IsConsistent u)

    noted-eq-ok :
        (out : Result WhmcsError (List Product)) (now : ℕ) (c d : Cache w.State) (ps : List Product)
        → noted w out now c ≡ (ok ps, d)
        → (d.at ≡ some now) × (d.products ≡ ps)
    noted-eq-ok (ok qs) now c d ps h =
        let same : qs ≡ ps = (let f : ok qs ≡ ok ps = ap (λ r. r.0) h in ground arith) in
        (sym (ap (λ r. r.1.at) h), sym (ap (λ r. r.1.products) h) ∙ same)
    noted-eq-ok (err e) now c d ps h = absurd (let f = ap (λ r. r.0) h in cc)

    -- After a refresh that succeeds, a read gives the same list and does no more than look at the
    -- clock, unless the time to live has passed since then.
    pub get-refresh :
        (c d : Cache w.State) (ps : List Product)
        → refresh w ttl get_products c ≡ (ok ps, d)
        → (at : ℕ) × (d.at ≡ some at)
          × ((at + ttl ≤ (w.now d.world).0)
              ⊎ (get w ttl get_products d ≡ (ok ps, record d { world = (w.now d.world).1 })))
    unfolding refresh get is_fresh
    get-refresh c d ps h =
        let now = (w.now (get_products c.world).1).0 in
        let (at, list) = noted-eq-ok _ now _ d ps h in
        (
          now,
          at,
          elim (Bool-cases (ltb (w.now d.world).0 (now + ttl))) [
            | inr passed ↦ inl (ground arith)
            | inl fresh ↦ inr (rw (at, fresh, list) refl)
          ],
        )
