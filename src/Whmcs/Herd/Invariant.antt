-- ===== src/Whmcs/Herd/Invariant.antt =====
-- What holds of `ProductCache` (internal/whmcs/cache.go), its flights and its callers at every moment of a
-- herd.
use continuum_plugin_whmcs_l.Prelude.{
  ℕ, ◌≤◌, List, [], ◌∷◌, Member, All, Option, none, some, ok, err, ◌≡◌, refl, ap, ◌∙◌,
}
use continuum_plugin_whmcs_l.Whmcs.Http.{World}
use continuum_plugin_whmcs_l.Whmcs.Cache.{Cache, new_cache, noted}
use continuum_plugin_whmcs_l.Whmcs.Cache.Laws.{
  IsConsistent, new_cache-IsConsistent, noted-IsConsistent,
}
use continuum_plugin_whmcs_l.Whmcs.Storm.{unborn, under_way, landed}
use continuum_plugin_whmcs_l.Whmcs.Herd.{
  Listing, for_flight, Place, flying, fetching, timing, noting, landing, returned, dated, attempted,
  shown, SharedCache,
}

-- The flight that a caller is responsible for.
abbrev pub carried : Place → Option ℕ
carried (flying n) = some n
carried (fetching (for_flight n)) = some n
carried (timing (for_flight n) out) = some n
carried (noting (for_flight n) out now) = some n
carried (landing n r) = some n
carried p = none

-- What a caller has got is what the fetcher has answered.
abbrev pub Good : List Listing → Place → Type 0
Good answers (timing p out) = Member out answers
Good answers (noting p out now) = Member out answers
Good answers (landing n r) = Member r answers
Good answers (returned r) = Member r answers
Good answers (dated r at) = Member r answers
Good answers (attempted r at tried) = Member r answers
Good answers (shown r at tried e) = Member r answers
Good answers p = Unit

module _ (w : World) where
  -- A new cache in which these results have been noted one after the other.
  unfoldable pub replay : List (Listing × ℕ) → w.State → Cache w.State
  replay [] x = new_cache x
  replay ((out, now) ∷ notes) x = let c = replay notes x in (noted w out now c).1

  pub replay-IsConsistent :
      (notes : List (Listing × ℕ)) (x : w.State) → IsConsistent (replay notes x)
  unfolding replay
  replay-IsConsistent [] x = new_cache-IsConsistent x
  replay-IsConsistent ((out, now) ∷ notes) x =
      noted-IsConsistent w out now (replay notes x) (replay-IsConsistent notes x)

  noted-world :
      (out : Listing) (now : ℕ) (c : Cache w.State) (y : w.State)
      → record (noted w out now c).1 { world = y } ≡ (noted w out now (record c { world = y })).1
  noted-world (ok ps) now c y = refl
  noted-world (err e) now c y = refl

  -- The world outside has no part in it.
  pub replay-world :
      (notes : List (Listing × ℕ)) (x y : w.State)
      → record (replay notes x) { world = y } ≡ replay notes y
  unfolding replay
  replay-world [] x y = refl
  replay-world ((out, now) ∷ notes) x y =
      noted-world out now (replay notes x) y
      ∙ ap (λ c. (noted w out now c).1) (replay-world notes x y)

  -- The flights and the cache.
  pub record IsSafe (m : SharedCache w.State) : Type 0 where
    pub single :
        (n k i j : ℕ) → m.flights n ≡ under_way "get" i → m.flights k ≡ under_way "get" j → n ≡ k
    pub fresh : (n : ℕ) → m.started ≤ n → m.flights n ≡ unborn
    pub backed : (n t : ℕ) (r : Listing) → m.flights n ≡ landed "get" r t → Member r m.answers
    pub listed : (t : ℕ) → m.cache.at ≡ some t → Member (ok m.cache.products) m.answers
    pub replayed : m.cache ≡ replay m.notes m.cache.world
    pub answered : All (λ n. Member n.0 m.answers) m.notes

  pub record Inv (m : SharedCache w.State) (place : ℕ → Place) : Type 0 where
    pub safe : IsSafe m
    pub owner : (i n : ℕ) → carried (place i) ≡ some n → m.flights n ≡ under_way "get" i
    pub good : (i : ℕ) → Good m.answers (place i)
