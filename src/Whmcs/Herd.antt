-- ===== src/Whmcs/Herd.antt =====
-- `ProductCache` (internal/whmcs/cache.go) under many calls of `Get` and `Refresh` at the same time. The
-- callers are numbered, and each step of one takes the lock once, asks the fetcher once, looks at the clock
-- once, or enters or leaves a flight. A handler that shows the cache (`productsResponse`,
-- internal/admin/server.go) then reads the time of the list, the time of the last attempt and the last
-- error, each under a lock of its own. Which flight a call of `singleflight.Group.Do` joins is a parameter.
pub mod Invariant
pub mod Turns
pub mod Safety
use continuum_plugin_whmcs_l.Prelude.{
  ℕ, ◌+◌, String, true, false, List, [], ◌∷◌, Option, none, some, Result, ok, update, ◌≡◌,
}
use continuum_plugin_whmcs_l.Prelude.Steps.{Steps}
use continuum_plugin_whmcs_l.Whmcs.Http.{World, WhmcsError}
use continuum_plugin_whmcs_l.Whmcs.Types.{Product}
use continuum_plugin_whmcs_l.Whmcs.Cache.{Cache, new_cache, noted, is_fresh}
use continuum_plugin_whmcs_l.Whmcs.Storm.{Flight, unborn, under_way, landed, Joins}

abbrev pub Listing : Type 0
Listing = Result WhmcsError (List Product)

-- Who has called `Refresh`: an admin, or the function of a flight.
pub data Purpose : Type 0 where
  by_hand : Purpose
  for_flight : ℕ → Purpose

-- Where a caller stands in `Get` or `Refresh`, with the number of its flight, and what it has got.
pub data Place : Type 0 where
  outside reading entering : Place
  waiting flying : ℕ → Place
  fetching : Purpose → Place
  timing : Purpose → Listing → Place
  noting : Purpose → Listing → ℕ → Place
  landing : ℕ → Listing → Place
  returned : Listing → Place
  dated : Listing → Option ℕ → Place
  attempted : Listing → Option ℕ → Option ℕ → Place
  shown : Listing → Option ℕ → Option ℕ → Option WhmcsError → Place

-- Where a call of `Refresh` leads.
abbrev pub refreshed_to : Purpose → Listing → Place
refreshed_to by_hand r = returned r
refreshed_to (for_flight n) r = landing n r

-- `answers` is what the fetcher has answered so far, and `notes` is what was noted in the cache, the latest
-- first.
pub record SharedCache (S : Type 0) : Type 0 where
  pub cache : Cache S
  pub started : ℕ
  pub landings : ℕ
  pub flights : ℕ → Flight (List Product)
  pub answers : List Listing
  pub notes : List (Listing × ℕ)

pub record Herd (S : Type 0) : Type 0 where
  pub shared : SharedCache S
  pub place : ℕ → Place

-- A cache that `NewProductCache` has made.
abbrev pub opened : {S : Type 0} → S → Herd S
opened x = record {
  shared = record {
    cache = new_cache x;
    started = 0;
    landings = 0;
    flights = λ n. unborn;
    answers = [];
    notes = [];
  };
  place = λ i. outside;
}

module _ (w : World) (ttl : ℕ) (get_products : Steps w.State WhmcsError (List Product))
    (joins : Joins (List Product)) where
  -- One step of caller `i`.
  pub data Turn (i : ℕ) (m : SharedCache w.State)
      : Place → SharedCache w.State → Place → Type 0 where
    call_get : Turn i m outside m reading
    call_refresh : Turn i m outside m (fetching by_hand)
    fresh :
        (is_fresh w ttl m.cache).0 ≡ true
        → Turn i m reading
            (record m { cache = (is_fresh w ttl m.cache).1 })
            (returned (ok m.cache.products))
    stale :
        (is_fresh w ttl m.cache).0 ≡ false
        → Turn i m reading (record m { cache = (is_fresh w ttl m.cache).1 }) entering
    lead :
        joins "get" m.started m.flights ≡ none
        → Turn i m entering
            (record m {
              started = m.started + 1;
              flights = update m.flights m.started (under_way "get" i);
            })
            (flying m.started)
    follow : {n : ℕ} → joins "get" m.started m.flights ≡ some n → Turn i m entering m (waiting n)
    flight_fresh :
        {n : ℕ}
        → (is_fresh w ttl m.cache).0 ≡ true
        → Turn i m
            (flying n)
            (record m { cache = (is_fresh w ttl m.cache).1 })
            (landing n (ok m.cache.products))
    flight_stale :
        {n : ℕ}
        → (is_fresh w ttl m.cache).0 ≡ false
        → Turn i m
            (flying n)
            (record m { cache = (is_fresh w ttl m.cache).1 })
            (fetching (for_flight n))
    ask :
        {p : Purpose}
        → Turn i m
            (fetching p)
            (record m {
              cache = record m.cache { world = (get_products m.cache.world).1 };
              answers = (get_products m.cache.world).0 ∷ m.answers;
            })
            (timing p (get_products m.cache.world).0)
    look_at_clock :
        {p : Purpose} {out : Listing}
        → Turn i m
            (timing p out)
            (record m { cache = record m.cache { world = (w.now m.cache.world).1 } })
            (noting p out (w.now m.cache.world).0)
    note :
        {p : Purpose} {out : Listing} {now : ℕ}
        → Turn i m
            (noting p out now)
            (record m { cache = (noted w out now m.cache).1; notes = (out, now) ∷ m.notes })
            (refreshed_to p (noted w out now m.cache).0)
    land :
        {n : ℕ} {r : Listing}
        → Turn i m
            (landing n r)
            (record m {
              landings = m.landings + 1;
              flights = update m.flights n (landed "get" r m.landings);
            })
            (returned r)
    share :
        {n t : ℕ} {r : Listing}
        → m.flights n ≡ landed "get" r t
        → Turn i m (waiting n) m (returned r)
    read_cached_at : {r : Listing} → Turn i m (returned r) m (dated r m.cache.at)
    read_last_attempt :
        {r : Listing} {at : Option ℕ}
        → Turn i m (dated r at) m (attempted r at m.cache.last_attempt)
    read_last_error :
        {r : Listing} {at tried : Option ℕ}
        → Turn i m (attempted r at tried) m (shown r at tried m.cache.last_err)
    leave :
        {r : Listing} {at tried : Option ℕ} {e : Option WhmcsError}
        → Turn i m (shown r at tried e) m outside

  -- The callers move in any order, and between their steps the world outside changes as it likes.
  pub data Step (s : Herd w.State) : Herd w.State → Type 0 where
    pick :
        (i : ℕ) {m : SharedCache w.State} {p : Place}
        → Turn i s.shared (s.place i) m p
        → Step s (record { shared = m; place = update s.place i p })
    change :
        (x : w.State)
        → Step s (record {
          shared = record s.shared { cache = record s.shared.cache { world = x } };
          place = s.place;
        })

  pub data Reach (x : w.State) : Herd w.State → Type 0 where
    begun : Reach x (opened x)
    later : {s t : Herd w.State} → Reach x s → Step s t → Reach x t
