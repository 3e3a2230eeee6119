-- ===== src/Whmcs/Storm/Answers.antt =====
-- A step of one caller of `EntitlementResolver` (internal/whmcs/entitlements.go): what it knows of
-- the results, and where they come from.
use continuum_plugin_whmcs_l.Prelude.{
  ℕ, ◌≤◌, String, Bool, true, Member, here, there, some, Result, ok, err, ◌≡◌, inl, inr, arith,
  update-cases, Bool-cases,
}
use continuum_plugin_whmcs_l.Prelude.Steps.{Steps}
use continuum_plugin_whmcs_l.Whmcs.Http.{World, WhmcsError}
use continuum_plugin_whmcs_l.Whmcs.Entitlements.{expiry, negative_cached, answered}
use continuum_plugin_whmcs_l.Whmcs.Entitlements.Laws.{
  negative_cached-IsMissed, negative_cached-expiry,
}
use continuum_plugin_whmcs_l.Whmcs.Entitlements.Keeps.{negative_cached-known, answered-known}
use continuum_plugin_whmcs_l.Whmcs.Storm.{
  Joins, landed, Pc, Memory, Move, call, hit, miss, lead, follow, flight_hit, flight_miss, ask,
  settle, land, share, leave,
}
use continuum_plugin_whmcs_l.Whmcs.Storm.Invariant.{
  answer_of, IsDenied, Backed, told, denied, Sourced, remembered, flown, IsSafe, Good,
}
use continuum_plugin_whmcs_l.Whmcs.Storm.Frame.{more-IsDenied, more-Backed}
use continuum_plugin_whmcs_l.Whmcs.Storm.Moves.{Mover}

module _ (w : World) (ttl : ℕ) {A : Type 0} (is_negative : A → Bool) (nothing : A)
    (fetch : String → Steps w.State WhmcsError A) (joins : Joins A) where
  answered-Backed :
      (key : String) (n : ℕ) (out : Result WhmcsError A) (m : Memory A w.State)
      → Member (answer_of n key out) m.answers
      → Backed is_negative nothing m.answers n key
          (answered w ttl is_negative nothing key out m.held).0
  unfolding answered
  answered-Backed key n (err e) m said = told said
  answered-Backed key n (ok a) m said = elim (Bool-cases (is_negative a)) [
    | inl none_there ↦
        rw none_there (denied (record { flight = n; content = a; said = said; empty = none_there }))
    | inr some_there ↦ rw some_there (told said)
  ]

  module _ {m : Memory A w.State} where
    -- A look that finds a negative answer finds what the API has once said.
    hit-IsDenied :
        (key : String)
        → IsSafe is_negative nothing w ttl m
        → (negative_cached w ttl key m.held).0 ≡ true
        → IsDenied is_negative nothing m.answers key
    hit-IsDenied key safe cached =
        let (x, after) = negative_cached-expiry w ttl key m.held cached in
        let (y, before) = negative_cached-known w ttl key key m.held x after in
        safe.known key y before

    Backed-Sourced :
        (key : String) (since n t : ℕ) (r : Result WhmcsError A)
        → m.flights n ≡ landed key r t
        → since ≤ t
        → Backed is_negative nothing m.answers n key r
        → Sourced is_negative nothing m key since r
    Backed-Sourced key since n t r over late (told said) = flown over late said
    Backed-Sourced key since n t _ over late (denied d) = remembered d

  module _ {i : ℕ} {m : Memory A w.State} where
    pub Move-Backed :
        {p q : Pc A} {k : Memory A w.State}
        → Move w ttl is_negative nothing fetch joins i m p k q
        → Mover w ttl is_negative nothing fetch joins i m p
        → (key : String) (n t : ℕ) (r : Result WhmcsError A) → k.flights n ≡ landed key r t
        → Backed is_negative nothing k.answers n key r
    Move-Backed (lead none_there) f key n t r h = f.safe.backed key n t r (ground (arith))
    Move-Backed ask f key n t r h =
        more-Backed is_negative nothing (λ x. there) (f.safe.backed key n t r h)
    Move-Backed (land {key = other} {n = o} {r = s}) f key n t r h =
        elim (update-cases m.flights o (landed other s m.landings) n) [
          | inl (same, new) ↦
              let is_key : other ≡ key = ground arith in
              let is_result : s ≡ r = ground arith in
              let good = f.good.1 in rw (same, is_key, is_result) at good
          | inr (apart, old) ↦ f.safe.backed key n t r (ground arith)
        ]
    Move-Backed mv f key n t r h = f.safe.backed key n t r h

    pub Move-known :
        {p q : Pc A} {k : Memory A w.State}
        → Move w ttl is_negative nothing fetch joins i m p k q
        → Mover w ttl is_negative nothing fetch joins i m p
        → (key : String) (x : ℕ) → expiry key k.held.negatives ≡ some x
        → IsDenied is_negative nothing k.answers key
    Move-known (hit {key = other} cached) f key x h =
        let (y, before) = negative_cached-known w ttl other key m.held x h in
        f.safe.known key y before
    Move-known (miss {key = other} cached) f key x h =
        let (y, before) = negative_cached-known w ttl other key m.held x h in
        f.safe.known key y before
    Move-known (flight_hit {key = other} cached) f key x h =
        let (y, before) = negative_cached-known w ttl other key m.held x h in
        f.safe.known key y before
    Move-known (flight_miss {key = other} cached) f key x h =
        let (y, before) = negative_cached-known w ttl other key m.held x h in
        f.safe.known key y before
    Move-known ask f key x h = more-IsDenied is_negative nothing (λ x. there) (f.safe.known key x h)
    Move-known (settle {key = other} {n} {out}) f key x h =
        elim (answered-known w ttl is_negative nothing other key out m.held x h) [
          | inl (y, before) ↦ f.safe.known key y before
          | inr (same, a, given, empty) ↦ record {
            flight = n;
            content = a;
            said = (let said = f.good.2 in rw (given, same) at said);
            empty = empty;
          }
        ]
    Move-known mv f key x h = f.safe.known key x h

    pub Move-Good :
        {p q : Pc A} {k : Memory A w.State}
        → Move w ttl is_negative nothing fetch joins i m p k q
        → Mover w ttl is_negative nothing fetch joins i m p
        → Good is_negative nothing w ttl k q
    Move-Good (call key) f = omega arith
    Move-Good (hit {key} cached) f = remembered (hit-IsDenied key f.safe cached)
    Move-Good (miss cached) f = f.good
    Move-Good (lead none_there) f = f.good
    Move-Good (follow {key} {n} joined) f =
        (f.good, inl (f.documented.joined key m.started n m.flights joined))
    Move-Good (flight_hit {key} cached) f = (f.good, denied (hit-IsDenied key f.safe cached))
    Move-Good (flight_miss {key} cached) f =
        (f.good, negative_cached-IsMissed w ttl key m.held cached)
    Move-Good ask f = (f.good.0, record { absent = f.good.1.absent }, here)
    Move-Good (settle {key} {n} {out}) f = (f.good.0, answered-Backed key n out m f.good.2)
    Move-Good (land {key} {since} {n} {r}) f =
        Backed-Sourced key since n m.landings r (ground arith) f.good.0 f.good.1
    Move-Good (share {key} {since} {n} {t} {r} over) f = elim f.good.1 [
      | inl (o, flies) ↦ absurd (ground arith)
      | inr (s, u, over_too, late) ↦
          Backed-Sourced key since n t r over (ground arith) (f.safe.backed key n t r over)
    ]
    Move-Good leave f = tt
