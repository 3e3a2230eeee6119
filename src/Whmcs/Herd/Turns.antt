-- ===== src/Whmcs/Herd/Turns.antt =====
-- A step of one caller of `ProductCache` (internal/whmcs/cache.go): what it does to the cache and the
-- flights.
use native.Mathlib.Decide.{dec_lt}
use continuum_plugin_whmcs_l.Prelude.{
  ℕ, true, List, ◌∷◌, Member, weaken-All, here, there, none, some, ok, err, update-cases, ◌≡◌, ◌≢◌,
  refl, ap, ◌∙◌, inl, inr, arith, Option-cases,
}
use continuum_plugin_whmcs_l.Prelude.Steps.{Steps}
use continuum_plugin_whmcs_l.Whmcs.Http.{World, WhmcsError}
use continuum_plugin_whmcs_l.Whmcs.Types.{Product}
use continuum_plugin_whmcs_l.Whmcs.Cache.{Cache, noted, is_fresh}
use continuum_plugin_whmcs_l.Whmcs.Storm.{under_way, landed, Joins, IsSingleflight}
use continuum_plugin_whmcs_l.Whmcs.Herd.{
  Listing, Purpose, refreshed_to, by_hand, for_flight, Place, SharedCache, Turn, fresh, stale, lead,
  flight_fresh, flight_stale, ask, look_at_clock, note, land, share, read_cached_at,
  read_last_attempt, read_last_error,
}
use continuum_plugin_whmcs_l.Whmcs.Herd.Invariant.{carried, Good, replay, replay-world, IsSafe}

module _ (w : World) {m : SharedCache w.State} (safe : IsSafe w m) where
  pub world-IsSafe : (y : w.State) → IsSafe w (record m { cache = record m.cache { world = y } })
  world-IsSafe y = record {
    single = safe.single;
    fresh = safe.fresh;
    backed = safe.backed;
    listed = safe.listed;
    replayed =
        ap {A = Cache w.State} (λ c. record c { world = y }) safe.replayed
        ∙ replay-world w m.notes m.cache.world y;
    answered = safe.answered;
  }

  answers-IsSafe : (out : Listing) → IsSafe w (record m { answers = out ∷ m.answers })
  answers-IsSafe out = record {
    single = safe.single;
    fresh = safe.fresh;
    backed = λ n t r h. there (safe.backed n t r h);
    listed = λ t h. there (safe.listed t h);
    replayed = safe.replayed;
    answered = weaken-All _ _ (λ n h. there h) m.notes safe.answered;
  }

  noted-IsSafe :
      (out : Listing) (now : ℕ)
      → Member out m.answers
      → IsSafe w (record m { cache = (noted w out now m.cache).1; notes = (out, now) ∷ m.notes })
  unfolding replay
  noted-IsSafe (ok ps) now said = record {
    single = safe.single;
    fresh = safe.fresh;
    backed = safe.backed;
    listed = λ t h. said;
    replayed = ap (λ c. (noted w (ok ps) now c).1) safe.replayed;
    answered = (said, safe.answered);
  }
  noted-IsSafe (err e) now said = record {
    single = safe.single;
    fresh = safe.fresh;
    backed = safe.backed;
    listed = safe.listed;
    replayed = ap (λ c. (noted w (err e) now c).1) safe.replayed;
    answered = (said, safe.answered);
  }

  -- A list that is fresh has been answered.
  fresh-Member :
      (ttl : ℕ) → (is_fresh w ttl m.cache).0 ≡ true → Member (ok m.cache.products) m.answers
  unfolding is_fresh
  fresh-Member ttl h = elim (Option-cases m.cache.at) [
    | inl never ↦ absurd (let f = rw never at h in cc)
    | inr (t, at) ↦ safe.listed t at
  ]

module _ (w : World) (ttl : ℕ) (get_products : Steps w.State WhmcsError (List Product))
    (joins : Joins (List Product)) where
  refreshed-Good :
      (p : Purpose) (out : Listing) (now : ℕ) (m : SharedCache w.State)
      → Member out m.answers
      → Good m.answers (refreshed_to p (noted w out now m.cache).0)
  refreshed-Good by_hand (ok ps) now m said = said
  refreshed-Good by_hand (err e) now m said = said
  refreshed-Good (for_flight n) (ok ps) now m said = said
  refreshed-Good (for_flight n) (err e) now m said = said

  -- What is known of the caller that moves.
  pub record Mover (i : ℕ) (m : SharedCache w.State) (p : Place) : Type 0 where
    pub documented : IsSingleflight (List Product) joins
    pub safe : IsSafe w m
    pub good : Good m.answers p
    pub owner : (n : ℕ) → carried p ≡ some n → m.flights n ≡ under_way "get" i

  module _ {i : ℕ} {m : SharedCache w.State} where
    Mover-lone :
        {p : Place}
        → Mover i m p
        → joins "get" m.started m.flights ≡ none
        → (n o : ℕ) → m.flights n ≢ under_way "get" o
    Mover-lone f free n o flies = elim (dec_lt n m.started) [
      | yes less ↦ f.documented.alone "get" m.started n o m.flights free less flies
      | no beyond ↦ absurd (let clean = f.safe.fresh n (omega arith) in cc)
    ]

    -- The answers of the fetcher stay.
    pub Turn-more :
        {p q : Place} {k : SharedCache w.State}
        → Turn w ttl get_products joins i m p k q
        → (x : Listing) → Member x m.answers
        → Member x k.answers
    Turn-more ask x h = there h
    Turn-more mv x h = h

    pub Turn-Good :
        {p q : Place} {k : SharedCache w.State}
        → Turn w ttl get_products joins i m p k q
        → Mover i m p
        → Good k.answers q
    Turn-Good (fresh still) f = fresh-Member w f.safe ttl still
    Turn-Good (flight_fresh still) f = fresh-Member w f.safe ttl still
    Turn-Good ask f = here
    Turn-Good look_at_clock f = f.good
    Turn-Good (note {p = p} {out = out} {now = now}) f = refreshed-Good p out now m f.good
    Turn-Good land f = f.good
    Turn-Good (share over) f = f.safe.backed _ _ _ over
    Turn-Good read_cached_at f = f.good
    Turn-Good read_last_attempt f = f.good
    Turn-Good read_last_error f = f.good
    Turn-Good mv f = tt

    pub Turn-owner :
        {p q : Place} {k : SharedCache w.State}
        → Turn w ttl get_products joins i m p k q
        → Mover i m p
        → (n : ℕ) → carried q ≡ some n
        → k.flights n ≡ under_way "get" i
    Turn-owner (lead free) f n h = ground arith
    Turn-owner land f n h = cc
    Turn-owner (note {p = by_hand}) f n h = cc
    Turn-owner (note {p = for_flight o}) f n h = ground (arith, f.owner n)
    Turn-owner mv f n h = ground (arith, f.owner n)

    -- The flights of the others stay under way.
    pub Turn-others :
        {p q : Place} {k : SharedCache w.State}
        → Turn w ttl get_products joins i m p k q
        → Mover i m p
        → (n j : ℕ) → i ≢ j
        → m.flights n ≡ under_way "get" j
        → k.flights n ≡ under_way "get" j
    Turn-others (lead free) f n j apart h = ground (arith, f.safe.fresh n)
    Turn-others (land {n = o}) f n j apart h = ground (arith, f.owner o refl)
    Turn-others mv f n j apart h = h

    pub Turn-IsSafe :
        {p q : Place} {k : SharedCache w.State}
        → Turn w ttl get_products joins i m p k q
        → Mover i m p
        → IsSafe w k
    unfolding is_fresh
    Turn-IsSafe (fresh still) f = world-IsSafe w f.safe _
    Turn-IsSafe (stale gone) f = world-IsSafe w f.safe _
    Turn-IsSafe (flight_fresh still) f = world-IsSafe w f.safe _
    Turn-IsSafe (flight_stale gone) f = world-IsSafe w f.safe _
    Turn-IsSafe look_at_clock f = world-IsSafe w f.safe _
    Turn-IsSafe ask f = answers-IsSafe w (world-IsSafe w f.safe _) _
    Turn-IsSafe (note {out = out} {now = now}) f = noted-IsSafe w f.safe out now f.good
    Turn-IsSafe (lead free) f = record {
      single = λ n k a b g h.
          ground (arith, f.safe.single n k a b, Mover-lone f free n a, Mover-lone f free k b);
      fresh = λ n h. ground (arith, f.safe.fresh n);
      backed = λ n t r h. f.safe.backed n t r (ground arith);
      listed = f.safe.listed;
      replayed = f.safe.replayed;
      answered = f.safe.answered;
    }
    Turn-IsSafe (land {n = o} {r = s}) f = record {
      single = λ n k a b g h. ground (arith, f.safe.single n k a b);
      fresh = λ n h. ground (arith, f.safe.fresh n, f.safe.fresh o, f.owner o refl);
      backed = λ n t r h. elim (update-cases m.flights o (landed "get" s m.landings) n) [
        | inl (same, new) ↦ let e : s ≡ r = ground arith in let good = f.good in rw e at good
        | inr (apart, old) ↦ f.safe.backed n t r (ground arith)
      ];
      listed = f.safe.listed;
      replayed = f.safe.replayed;
      answered = f.safe.answered;
    }
    Turn-IsSafe mv f = f.safe
