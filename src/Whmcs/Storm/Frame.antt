-- ===== src/Whmcs/Storm/Frame.antt =====
-- What a caller of `EntitlementResolver` (internal/whmcs/entitlements.go) knows survives the steps of the
-- others.
use continuum_plugin_whmcs_l.Prelude.{
  ℕ, ◌≤◌, String, Bool, List, Member, some, Result, ◌≡◌, ◌⊎◌, refl, inl, inr, arith,
}
use continuum_plugin_whmcs_l.Whmcs.Http.{World, WhmcsError}
use continuum_plugin_whmcs_l.Whmcs.Entitlements.Laws.{IsMissed}
use continuum_plugin_whmcs_l.Whmcs.Storm.{
  under_way, landed, Pc, idle, asked, entering, waiting, flying, fetching, fetched, landing,
  returned, Answer, Memory,
}
use continuum_plugin_whmcs_l.Whmcs.Storm.Invariant.{
  carried, IsDenied, Backed, told, denied, remembered, flown, Good,
}

module _ {A : Type 0} (is_negative : A → Bool) (nothing : A) where
  module _ {old new : List (Answer A)} (more : (x : Answer A) → Member x old → Member x new) where
    pub more-IsDenied :
        {key : String} → IsDenied is_negative nothing old key → IsDenied is_negative nothing new key
    more-IsDenied d = record {
      flight = d.flight;
      content = d.content;
      said = more _ d.said;
      empty = d.empty;
    }

    pub more-Backed :
        {n : ℕ} {key : String} {r : Result WhmcsError A}
        → Backed is_negative nothing old n key r
        → Backed is_negative nothing new n key r
    more-Backed (told said) = told (more _ said)
    more-Backed (denied d) = denied (more-IsDenied d)

  module _ (w : World) (ttl : ℕ) where
    -- The memory as a caller at `p` leaves it.
    pub record Grows (p : Pc A) (m k : Memory A w.State) : Type 0 where
      pub later : m.landings ≤ k.landings
      pub more : (x : Answer A) → Member x m.answers → Member x k.answers
      pub kept_landed :
          (n t : ℕ) (key : String) (r : Result WhmcsError A)
          → m.flights n ≡ landed key r t
          → k.flights n ≡ landed key r t
      pub kept_under_way :
          (n o : ℕ) (key : String)
          → m.flights n ≡ under_way key o
          → (k.flights n ≡ under_way key o)
            ⊎ ((carried p ≡ some (key, n))
                × (r : Result WhmcsError A) × (k.flights n ≡ landed key r m.landings))
      pub kept_missed :
          (key : String)
          → IsMissed w ttl key m.held
          → IsMissed w ttl key k.held ⊎ ((n : ℕ) × (carried p ≡ some (key, n)))

    Grows-IsMissed :
        {p : Pc A} {m k : Memory A w.State}
        → Grows p m k
        → (key : String) → ((n : ℕ) → carried p ≡ some (key, n) → ⊥)
        → IsMissed w ttl key m.held
        → IsMissed w ttl key k.held
    Grows-IsMissed g key apart missed = elim (g.kept_missed key missed) [
      | inl still ↦ still
      | inr (n, same) ↦ absurd (apart n same)
    ]

    Grows-waiting :
        {p : Pc A} {m k : Memory A w.State}
        → Grows p m k
        → (key : String) (since n : ℕ) → Good is_negative nothing w ttl m (waiting key since n)
        → Good is_negative nothing w ttl k (waiting key since n)
    Grows-waiting g key since n h = (
      omega (arith, h.0, g.later),
      elim h.1 [
        | inr (r, t, there, later) ↦ inr (r, t, g.kept_landed n t key r there, later)
        | inl (o, flies) ↦ elim (g.kept_under_way n o key flies) [
          | inl still ↦ inl (o, still)
          | inr (carries, r, there) ↦ inr (r, _, there, h.0)
        ]
      ],
    )

    pub Grows-Good :
        {p : Pc A} {m k : Memory A w.State}
        → Grows p m k
        → (q : Pc A)
        → ((key : String) (n o : ℕ) → carried q ≡ some (key, o) → carried p ≡ some (key, n) → ⊥)
        → Good is_negative nothing w ttl m q
        → Good is_negative nothing w ttl k q
    Grows-Good g idle apart h = tt
    Grows-Good g (asked key since) apart h = omega (arith, h, g.later)
    Grows-Good g (entering key since) apart h = omega (arith, h, g.later)
    Grows-Good g (waiting key since n) apart h = Grows-waiting g key since n h
    Grows-Good g (flying key since n) apart h = omega (arith, h, g.later)
    Grows-Good g (fetching key since n) apart h =
        (omega (arith, h.0, g.later), Grows-IsMissed g key (λ o. apart key o n refl) h.1)
    Grows-Good g (fetched key since n out) apart h = (
      omega (arith, h.0, g.later),
      Grows-IsMissed g key (λ o. apart key o n refl) h.1,
      g.more _ h.2,
    )
    Grows-Good g (landing key since n r) apart h =
        (omega (arith, h.0, g.later), more-Backed g.more h.1)
    Grows-Good g (returned key since r) apart (remembered d) = remembered (more-IsDenied g.more d)
    Grows-Good g (returned key since r) apart (flown {n} {t} there later said) =
        flown (g.kept_landed n t key r there) later (g.more _ said)
