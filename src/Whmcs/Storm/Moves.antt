-- ===== src/Whmcs/Storm/Moves.antt =====
-- A step of one caller of `EntitlementResolver` (internal/whmcs/entitlements.go): what it does to the
-- flights.
use continuum_plugin_whmcs_l.Prelude.{none, ℕ, ◌≤◌, String, Bool, some, ◌≡◌, ◌≢◌, refl, arith}
use native.Mathlib.Decide.{dec_lt}
use continuum_plugin_whmcs_l.Prelude.Steps.{Steps}
use continuum_plugin_whmcs_l.Whmcs.Http.{World, WhmcsError}
use continuum_plugin_whmcs_l.Whmcs.Storm.{
  Joins, IsSingleflight, unborn, under_way, Pc, Memory, Move, lead, land,
}
use continuum_plugin_whmcs_l.Whmcs.Storm.Invariant.{carried, IsSafe, Good}

module _ (w : World) (ttl : ℕ) {A : Type 0} (is_negative : A → Bool) (nothing : A)
    (fetch : String → Steps w.State WhmcsError A) (joins : Joins A) where
  -- What is known of the caller that moves.
  pub record Mover (i : ℕ) (m : Memory A w.State) (p : Pc A) : Type 0 where
    pub documented : IsSingleflight A joins
    pub safe : IsSafe is_negative nothing w ttl m
    pub good : Good is_negative nothing w ttl m p
    pub owner : (key : String) (n : ℕ) → carried p ≡ some (key, n) → m.flights n ≡ under_way key i
    pub owned : (key : String) (n : ℕ) → m.flights n ≡ under_way key i → carried p ≡ some (key, n)

  module _ {i : ℕ} {m : Memory A w.State} where
    -- A call that joins no flight is the only one for its key.
    Mover-lone :
        {p : Pc A} {key : String}
        → Mover i m p
        → joins key m.started m.flights ≡ none
        → (n o : ℕ) → m.flights n ≢ under_way key o
    Mover-lone {key = key} f free n o flies = elim (dec_lt n m.started) [
      | yes less ↦ f.documented.alone key m.started n o m.flights free less flies
      | no beyond ↦ absurd (let clean = f.safe.fresh n (omega arith) in cc)
    ]

    pub Move-owner :
        {p q : Pc A} {k : Memory A w.State}
        → Move w ttl is_negative nothing fetch joins i m p k q
        → Mover i m p
        → (key : String) (n : ℕ) → carried q ≡ some (key, n)
        → k.flights n ≡ under_way key i
    Move-owner (lead {key = k} free) f key n h = ground arith
    Move-owner land f key n h = cc
    Move-owner mv f key n h = ground (arith, f.owner key n)

    pub Move-owned :
        {p q : Pc A} {k : Memory A w.State}
        → Move w ttl is_negative nothing fetch joins i m p k q
        → Mover i m p
        → (key : String) (n : ℕ) → k.flights n ≡ under_way key i
        → carried q ≡ some (key, n)
    Move-owned (lead {key = k} free) f key n h =
        ground (arith, f.owned key n, Mover-lone f free n i)
    Move-owned land f key n h = ground (arith, f.owned key n)
    Move-owned mv f key n h = ground (arith, f.owned key n)

    -- The flights of the others stay.
    pub Move-others :
        {p q : Pc A} {k : Memory A w.State}
        → Move w ttl is_negative nothing fetch joins i m p k q
        → Mover i m p
        → (key : String) (n j : ℕ) → i ≢ j
        → k.flights n ≡ under_way key j
        → m.flights n ≡ under_way key j
    Move-others (lead {key = k} free) f key n j apart h = ground arith
    Move-others land f key n j apart h = ground arith
    Move-others mv f key n j apart h = ground arith

    pub Move-single :
        {p q : Pc A} {k : Memory A w.State}
        → Move w ttl is_negative nothing fetch joins i m p k q
        → Mover i m p
        → (key : String) (n o a b : ℕ) → k.flights n ≡ under_way key a
        → k.flights o ≡ under_way key b
        → n ≡ o
    Move-single (lead {key = k} free) f key n o a b g h =
        ground (arith, f.safe.single key n o a b, Mover-lone f free n a, Mover-lone f free o b)
    Move-single mv f key n o a b g h = ground (arith, f.safe.single key n o a b)

    pub Move-fresh :
        {p q : Pc A} {k : Memory A w.State}
        → Move w ttl is_negative nothing fetch joins i m p k q
        → Mover i m p
        → (n : ℕ) → k.started ≤ n
        → k.flights n ≡ unborn
    Move-fresh (land {key} {n = o}) f n h =
        ground (arith, f.safe.fresh n, f.safe.fresh o, f.owner key o refl)
    Move-fresh mv f n h = ground (arith, f.safe.fresh n)
