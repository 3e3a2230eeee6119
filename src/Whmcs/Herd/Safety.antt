-- ===== src/Whmcs/Herd/Safety.antt =====
-- What `ProductCache` (internal/whmcs/cache.go) promises when `Get` and `Refresh` are called at the same
-- time.
use continuum_plugin_whmcs_l.Prelude.{
  ℕ, List, Member, All, some, update, update-cases, ◌≡◌, refl, sym, ap, subst, ◌∙◌, inl, inr, arith,
}
use continuum_plugin_whmcs_l.Prelude.Steps.{Steps}
use continuum_plugin_whmcs_l.Whmcs.Http.{World, WhmcsError}
use continuum_plugin_whmcs_l.Whmcs.Types.{Product}
use continuum_plugin_whmcs_l.Whmcs.Cache.Laws.{IsConsistent}
use continuum_plugin_whmcs_l.Whmcs.Storm.{under_way, Joins, IsSingleflight}
use continuum_plugin_whmcs_l.Whmcs.Herd.{
  Listing, Place, timing, noting, landing, returned, dated, attempted, shown, SharedCache, Turn,
  Herd, opened, Step, pick, change, Reach, begun, later,
}
use continuum_plugin_whmcs_l.Whmcs.Herd.Invariant.{carried, Good, replay, replay-IsConsistent, Inv}
use continuum_plugin_whmcs_l.Whmcs.Herd.Turns.{
  world-IsSafe, Mover, Turn-more, Turn-Good, Turn-owner, Turn-others, Turn-IsSafe,
}

-- More answers make nothing less good.
more-Good :
    {old new : List Listing} (more : (x : Listing) → Member x old → Member x new) (p : Place)
    → Good old p
    → Good new p
more-Good more (timing p out) h = more out h
more-Good more (noting p out now) h = more out h
more-Good more (landing n r) h = more r h
more-Good more (returned r) h = more r h
more-Good more (dated r at) h = more r h
more-Good more (attempted r at tried) h = more r h
more-Good more (shown r at tried e) h = more r h
more-Good more p h = tt

module _ (w : World) (ttl : ℕ) (get_products : Steps w.State WhmcsError (List Product))
    (joins : Joins (List Product)) (doc : IsSingleflight (List Product) joins) where
  module _ {m : SharedCache w.State} {place : ℕ → Place} (inv : Inv w m place) where
    Inv-apart : (i j n o : ℕ) → carried (place i) ≡ some n → carried (place j) ≡ some o → i ≡ j
    Inv-apart i j n o a b = ground (
      arith,
      inv.owner i n a,
      inv.owner j o b,
      inv.safe.single n o i j (inv.owner i n a) (inv.owner j o b),
    )

    Turn-Inv :
        (i : ℕ) {k : SharedCache w.State} {p : Place}
        → Turn w ttl get_products joins i m (place i) k p
        → Inv w k (update place i p)
    Turn-Inv i {k} {p} mv =
        let mover : Mover w ttl get_products joins i m (place i) = record {
          documented = doc;
          safe = inv.safe;
          good = inv.good i;
          owner = inv.owner i;
        } in
        record {
          safe = Turn-IsSafe w ttl get_products joins mv mover;
          owner = λ j n h. elim (update-cases place i p j) [
            | inl (same, new) ↦
                subst (λ o. k.flights n ≡ under_way "get" o) same
                  (Turn-owner w ttl get_products joins mv mover n (ap carried (sym new) ∙ h))
            | inr (apart, old) ↦
                Turn-others w ttl get_products joins mv mover n j apart
                  (inv.owner j n (ap carried (sym old) ∙ h))
          ];
          good = λ j. elim (update-cases place i p j) [
            | inl (same, new) ↦ rw new (Turn-Good w ttl get_products joins mv mover)
            | inr (apart, old) ↦
                rw old (more-Good (Turn-more w ttl get_products joins mv) (place j) (inv.good j))
          ];
        }

  Step-Inv :
      {s t : Herd w.State}
      → Step w ttl get_products joins s t
      → Inv w s.shared s.place
      → Inv w t.shared t.place
  Step-Inv (pick i mv) inv = Turn-Inv inv i mv
  Step-Inv (change x) inv = record {
    safe = world-IsSafe w inv.safe x;
    owner = inv.owner;
    good = inv.good;
  }

  opened-Inv : (x : w.State) → Inv w (opened x).shared (opened x).place
  unfolding replay
  opened-Inv x = record {
    safe = record {
      single = λ n k i j a b. absurd (cc);
      fresh = λ n h. refl;
      backed = λ n t r h. absurd (cc);
      listed = λ t h. absurd (cc);
      replayed = refl;
      answered = tt;
    };
    owner = λ i n h. absurd (cc);
    good = λ i. tt;
  }

  Reach-Inv :
      {x : w.State} {s : Herd w.State} → Reach w ttl get_products joins x s → Inv w s.shared s.place
  Reach-Inv {x} begun = opened-Inv x
  Reach-Inv (later r st) = Step-Inv st (Reach-Inv r)

  -- However the steps of the callers are mixed, the cache is what the noted results, one after the other,
  -- make of a new cache, and each of them is an answer of the fetcher; and between two steps the cache is
  -- consistent: before the first success its list is empty, where it has no error its last attempt is the
  -- success that filled it, and a success is an attempt.
  pub Reach-replay :
      {x : w.State} {s : Herd w.State} (r : Reach w ttl get_products joins x s)
      → (s.shared.cache ≡ replay w s.shared.notes s.shared.cache.world)
        × IsConsistent s.shared.cache
        × All (λ n. Member n.0 s.shared.answers) s.shared.notes
  Reach-replay {s = s} r =
      let safe = (Reach-Inv r).safe in
      (
        safe.replayed,
        subst IsConsistent (sym safe.replayed)
            (replay-IsConsistent w s.shared.notes s.shared.cache.world),
        safe.answered,
      )

  -- However the steps of the callers are mixed, what a call of Get or Refresh returns is an answer of the
  -- fetcher.
  pub Reach-returned :
      {x : w.State} {s : Herd w.State} (reach : Reach w ttl get_products joins x s) (i : ℕ)
      (r : Listing)
      → s.place i ≡ returned r
      → Member r s.shared.answers
  Reach-returned {s = s} reach i r at = subst (Good s.shared.answers) at ((Reach-Inv reach).good i)

  -- However the steps of the callers are mixed, no two of them have a flight of Get under way.
  pub Reach-carried :
      {x : w.State} {s : Herd w.State} (reach : Reach w ttl get_products joins x s) (i j n o : ℕ)
      → carried (s.place i) ≡ some n
      → carried (s.place j) ≡ some o
      → i ≡ j
  Reach-carried reach i j n o a b = Inv-apart (Reach-Inv reach) i j n o a b
