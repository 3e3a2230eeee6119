-- ===== src/Examples/Flights.antt =====
-- One way to do what `Group.Do` of singleflight is documented to do: the map of its calls is searched.
use native.Mathlib.Decide.{ℕ_discrete}
use continuum_plugin_whmcs_l.Prelude.{
  ℕ, zero, suc, ◌<◌, String, Bool, true, false, none, some, ◌==◌, eq_iff, eq_refl, if◌then◌else◌,
  ◌≡◌, ◌≢◌, Bool-cases, inl, inr, arith,
}
use continuum_plugin_whmcs_l.Whmcs.Storm.{Flight, unborn, under_way, landed, Joins, IsSingleflight}

module _ {A : Type 0} where
  unfoldable pub flies : String → Flight A → Bool
  flies key (under_way k o) = k == key
  flies key f = false

  -- One way to do what `Group.Do` is documented to do: the map of its calls, searched.
  unfoldable pub search : Joins A
  unfolding flies
  search key zero flights = none
  search key (suc n) flights =
      let rest = search key n flights in if flies key (flights n) then some n else rest

  flies-under_way :
      (key : String) (f : Flight A) → flies key f ≡ true → (o : ℕ) × (f ≡ under_way key o)
  unfolding flies
  flies-under_way key unborn h = absurd (cc)
  flies-under_way key (landed k r t) h = absurd (cc)
  flies-under_way key (under_way k o) h = (o, let e : k ≡ key = (eq_iff k key).0 h in cc)

  flies_not : (key : String) (f : Flight A) (o : ℕ) → flies key f ≡ false → f ≢ under_way key o
  unfolding flies
  flies_not key f o h e = let g = rw e at h in let t = eq_refl key in cc

  search_joined :
      (key : String) (started n : ℕ) (flights : ℕ → Flight A)
      → search key started flights ≡ some n
      → (o : ℕ) × (flights n ≡ under_way key o)
  unfolding search
  search_joined key zero n flights h = absurd (cc)
  search_joined key (suc k) n flights h = elim (Bool-cases (flies key (flights k))) [
    | inl this ↦
        let (o, e) = flies-under_way key (flights k) this in
        let same = rw this at h in (o, let i : k ≡ n = ground arith in rw i at e)
    | inr other ↦ search_joined key k n flights (rw other at h)
  ]

  search_alone :
      (key : String) (started n o : ℕ) (flights : ℕ → Flight A)
      → search key started flights ≡ none
      → n < started
      → flights n ≢ under_way key o
  unfolding search
  search_alone key zero n o flights h less = absurd (omega arith)
  search_alone key (suc k) n o flights h less = elim (Bool-cases (flies key (flights k))) [
    | inl this ↦ absurd (let none_here = rw this at h in cc)
    | inr other ↦ elim (ℕ_discrete n k) [
      | yes same ↦ rw same (flies_not key (flights k) o other)
      | no apart ↦ search_alone key k n o flights (rw other at h) (omega arith)
    ]
  ]

  pub search-IsSingleflight : IsSingleflight A search
  search-IsSingleflight = record { joined = search_joined; alone = search_alone }
