-- ===== src/Whmcs/Cache.antt =====
-- `ProductCache` (internal/whmcs/cache.go). Each call is taken as one step here, and then
-- `singleflight.Group.Do` is a call of its function; `Whmcs.Herd` is about calls that overlap.
pub mod Laws
use continuum_plugin_whmcs_l.Prelude.{
  ℕ, ◌+◌, Bool, true, false, List, [], Option, none, some, Result, ok, err, ltb, if◌then◌else◌,
}
use continuum_plugin_whmcs_l.Prelude.Steps.{Steps}
use continuum_plugin_whmcs_l.Whmcs.Http.{World, WhmcsError}
use continuum_plugin_whmcs_l.Whmcs.Types.{Product}

-- The zero time is `none`, and so is the empty `lastErr`, which stands for the text of the error.
pub record Cache (S : Type 0) : Type 0 where
  pub products : List Product
  pub at : Option ℕ
  pub last_attempt : Option ℕ
  pub last_err : Option WhmcsError
  pub world : S

-- `NewProductCache`
abbrev pub new_cache : {S : Type 0} → S → Cache S
new_cache world = record {
  products = [];
  at = none;
  last_attempt = none;
  last_err = none;
  world = world;
}

module _ (w : World) where
  -- The end of `Refresh`, with what the fetcher gave and the time after it.
  abbrev pub noted :
      Result WhmcsError (List Product)
      → ℕ
      → Cache w.State
      → Result WhmcsError (List Product) × Cache w.State
  noted (err e) now c = (err e, record c { last_attempt = some now; last_err = some e })
  noted (ok ps) now c =
      (ok ps, record c { products = ps; at = some now; last_attempt = some now; last_err = none })

  -- `!c.at.IsZero() && time.Since(c.at) < c.ttl`: whether, and the state behind the look at the clock.
  abbrev pub is_fresh_at : ℕ → Option ℕ → w.State → Bool × w.State
  is_fresh_at ttl none s = (false, s)
  is_fresh_at ttl (some at) s = let (now, s') = w.now s in (ltb now (at + ttl), s')

  unfoldable pub is_fresh : ℕ → Cache w.State → Bool × Cache w.State
  is_fresh ttl c = let (b, s) = is_fresh_at ttl c.at c.world in (b, record c { world = s })

  module _ (ttl : ℕ) (get_products : Steps w.State WhmcsError (List Product)) where
    unfoldable pub refresh : Steps (Cache w.State) WhmcsError (List Product)
    refresh c =
        let (out, s) = get_products c.world in
        let (now, s') = w.now s in noted out now (record c { world = s' })

    -- The function that the flight runs: the cache is looked at again first.
    unfoldable pub refreshed : Steps (Cache w.State) WhmcsError (List Product)
    unfolding is_fresh refresh
    refreshed c =
        let (b, c₁) = is_fresh ttl c in
        let fetched = refresh c₁ in if b then (ok c₁.products, c₁) else fetched

    unfoldable pub get : Steps (Cache w.State) WhmcsError (List Product)
    unfolding is_fresh refreshed
    get c =
        let (b, c₁) = is_fresh ttl c in
        let fetched = refreshed c₁ in if b then (ok c₁.products, c₁) else fetched
