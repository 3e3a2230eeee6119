-- ===== src/Whmcs/Entitlements/Laws.antt =====
-- What the negative cache may answer, and what it remembers.
use continuum_plugin_whmcs_l.Prelude.{
  ℕ, ◌+◌, ◌<◌, String, Bool, true, false, [], ◌∷◌, none, some, Result, ok, err, ltb, eqb, ◌≡◌, ◌⊎◌,
  inl, inr, refl, ap, ◌∙◌, sym, arith, eq_refl, Bool-cases, Option-cases, Result-cases,
}
use continuum_plugin_whmcs_l.Prelude.Steps.{Steps}
use continuum_plugin_whmcs_l.Whmcs.Http.{World, WhmcsError}
use continuum_plugin_whmcs_l.Whmcs.Entitlements.{
  Expiries, expiry, delete, Held, negative_cached, remember_negative, answered, flight, look_up,
}

-- A key that is deleted is gone.
pub expiry-delete : (key : String) (m : Expiries) → expiry key (delete key m) ≡ none
unfolding expiry delete
expiry-delete key [] = refl
expiry-delete key ((k, t) ∷ m) = ground (arith, expiry-delete key m)

module _ (w : World) (ttl : ℕ) where
  -- The cache is off, or there is no negative answer for the key.
  pub record IsMissed (key : String) (s : Held w.State) : Type 0 where
    pub absent : (ttl ≡ 0) ⊎ (expiry key s.negatives ≡ none)

  pub negative_cached-IsMissed :
      (key : String) (s : Held w.State)
      → (negative_cached w ttl key s).0 ≡ false
      → IsMissed key (negative_cached w ttl key s).1
  unfolding negative_cached
  negative_cached-IsMissed key s h = elim (Bool-cases (eqb ttl 0)) [
    | inl off ↦ record { absent = inl (ground arith) }
    | inr on ↦ elim (Option-cases (expiry key s.negatives)) [
      | inl unknown ↦ record { absent = inr (rw (on, unknown) unknown) }
      | inr (t, known) ↦ elim (Bool-cases (ltb t (w.now s.world).0)) [
        | inl expired ↦ record {
          absent = inr (rw (on, known, expired) (expiry-delete key s.negatives));
        }
        | inr alive ↦ absurd (let f = rw (on, known, alive) at h in cc)
      ]
    ]
  ]

  pub negative_cached-expiry :
      (key : String) (s : Held w.State)
      → (negative_cached w ttl key s).0 ≡ true
      → (x : ℕ) × (expiry key (negative_cached w ttl key s).1.negatives ≡ some x)
  unfolding negative_cached
  negative_cached-expiry key s h = elim (Bool-cases (eqb ttl 0)) [
    | inl off ↦ absurd (let f = rw off at h in cc)
    | inr on ↦ elim (Option-cases (expiry key s.negatives)) [
      | inl unknown ↦ absurd (let f = rw (on, unknown) at h in cc)
      | inr (t, known) ↦ elim (Bool-cases (ltb t (w.now s.world).0)) [
        | inl expired ↦ absurd (let f = rw (on, known, expired) at h in cc)
        | inr alive ↦ (t, rw (on, known, alive) known)
      ]
    ]
  ]

  -- A look that finds a negative answer leaves the map.
  negative_cached-negatives :
      (key : String) (s : Held w.State)
      → (negative_cached w ttl key s).0 ≡ true
      → (negative_cached w ttl key s).1.negatives ≡ s.negatives
  unfolding negative_cached
  negative_cached-negatives key s h = elim (Bool-cases (eqb ttl 0)) [
    | inl off ↦ rw off refl
    | inr on ↦ elim (Option-cases (expiry key s.negatives)) [
      | inl unknown ↦ rw (on, unknown) refl
      | inr (t, known) ↦ elim (Bool-cases (ltb t (w.now s.world).0)) [
        | inl expired ↦ absurd (let f = rw (on, known, expired) at h in cc)
        | inr alive ↦ rw (on, known, alive) refl
      ]
    ]
  ]

  IsMissed-negative_cached :
      (key : String) (s : Held w.State) → IsMissed key s → (negative_cached w ttl key s).0 ≡ false
  unfolding negative_cached
  IsMissed-negative_cached key s missed = elim missed.absent [
    | inl off ↦ let none_kept : eqb ttl 0 ≡ true = ground arith in rw none_kept refl
    | inr unknown ↦ elim (Bool-cases (eqb ttl 0)) [
      | inl off ↦ rw off refl
      | inr on ↦ rw (on, unknown) refl
    ]
  ]

  module _ {A : Type 0} (is_negative : A → Bool) (nothing : A) where
    -- How a lookup that begins with these negative answers ends: with a negative answer of the cache, or with what the API answers behind a
    -- cache that has none for the key.
    data Ending (fetch : Steps w.State WhmcsError A) (key : String) (old : Expiries)
        : Result WhmcsError A × Held w.State → Type 0 where
      from_cache :
          (x : ℕ) (t : Held w.State)
          → expiry key old ≡ some x
          → expiry key t.negatives ≡ some x
          → Ending fetch key old (ok nothing, t)
      from_api :
          (s : Held w.State)
          → IsMissed key s
          → Ending fetch key old (
              answered w ttl is_negative nothing key
                (fetch s.world).0
                (record s { world = (fetch s.world).1 }))

    flight-Ending :
        (fetch : Steps w.State WhmcsError A) (key : String) (old : Expiries) (s : Held w.State)
        → IsMissed key s
        → Ending fetch key old (flight w ttl is_negative nothing fetch key s)
    unfolding flight
    flight-Ending fetch key old s missed =
        let miss = IsMissed-negative_cached key s missed in
        rw miss (from_api (negative_cached w ttl key s).1 (negative_cached-IsMissed key s miss))

    look_up-Ending :
        (fetch : Steps w.State WhmcsError A) (key : String) (s : Held w.State)
        → Ending fetch key s.negatives (look_up w ttl is_negative nothing fetch key s)
    unfolding look_up
    look_up-Ending fetch key s = elim (Bool-cases (negative_cached w ttl key s).0) [
      | inl hit ↦
          let (x, known) = negative_cached-expiry key s hit in
          let same = negative_cached-negatives key s hit in
          rw hit (
            from_cache x (negative_cached w ttl key s).1 (sym (ap (λ m. expiry key m) same) ∙ known)
              known)
      | inr miss ↦ rw miss (
          flight-Ending fetch key s.negatives (negative_cached w ttl key s).1
            (negative_cached-IsMissed key s miss))
    ]

    -- An expiry is an old one, or the time to live after the clock's reading behind an answer of the API.
    abbrev pub IsLasting : Steps w.State WhmcsError A → String → Expiries → ℕ → Type 0
    IsLasting fetch key old x =
        (expiry key old ≡ some x) ⊎ ((at : w.State) × (x ≡ (w.now (fetch at).1).0 + ttl))

    Ending-positive :
        (fetch : Steps w.State WhmcsError A) (key : String) (old : Expiries)
        (r : Result WhmcsError A × Held w.State)
        → Ending fetch key old r
        → (a : A) → r.0 ≡ ok a
        → is_negative nothing ≡ true
        → is_negative a ≡ false
        → (before after : w.State) × (fetch before ≡ (ok a, after))
    unfolding answered
    Ending-positive fetch key old _ (from_cache x t before known) a h empty full =
        absurd (let same : nothing ≡ a = ground arith in cc)
    Ending-positive fetch key old _ (from_api s missed) a h empty full =
        elim (Result-cases (fetch s.world).0) [
          | inr (e, failed) ↦ absurd (let f = rw failed at h in cc)
          | inl (b, given) ↦ elim (Bool-cases (is_negative b)) [
            | inl none_there ↦ absurd (
                let same : ok nothing ≡ ok a = rw (given, none_there) at h in
                let alike : nothing ≡ a = ground arith in cc)
            | inr there ↦ (
              s.world,
              (fetch s.world).1,
              (let same = rw (given, there) at h in λ i. ((given ∙ same) i, (fetch s.world).1)),
            )
          ]
        ]

    Ending-error :
        (fetch : Steps w.State WhmcsError A) (key : String) (old : Expiries)
        (r : Result WhmcsError A × Held w.State)
        → Ending fetch key old r
        → (e : WhmcsError) → r.0 ≡ err e
        → ((before after : w.State) × (fetch before ≡ (err e, after)))
          × ((ttl ≡ 0) ⊎ (expiry key r.1.negatives ≡ none))
    unfolding answered
    Ending-error fetch key old _ (from_cache x t before known) e h = absurd (cc)
    Ending-error fetch key old _ (from_api s missed) e h = elim (Result-cases (fetch s.world).0) [
      | inr (x, failed) ↦
          (let same = rw failed at h in
            (
              (s.world, (fetch s.world).1, λ i. ((failed ∙ same) i, (fetch s.world).1)),
              rw failed missed.absent,
            ))
      | inl (b, given) ↦ elim (Bool-cases (is_negative b)) [
        | inl none_there ↦ absurd (let f = rw (given, none_there) at h in cc)
        | inr there ↦ absurd (let f = rw (given, there) at h in cc)
      ]
    ]

    Ending-known :
        (fetch : Steps w.State WhmcsError A) (key : String) (old : Expiries)
        (r : Result WhmcsError A × Held w.State)
        → Ending fetch key old r
        → (a : A) → r.0 ≡ ok a
        → is_negative a ≡ true
        → 0 < ttl
        → (x : ℕ) × (expiry key r.1.negatives ≡ some x) × IsLasting fetch key old x
    unfolding answered remember_negative expiry
    Ending-known fetch key old _ (from_cache x t before known) a h empty on = (x, known, inl before)
    Ending-known fetch key old _ (from_api s missed) a h empty on =
        elim (Result-cases (fetch s.world).0) [
          | inr (e, failed) ↦ absurd (let f = rw failed at h in cc)
          | inl (b, given) ↦ elim (Bool-cases (is_negative b)) [
            | inl none_there ↦ (
              (w.now (fetch s.world).1).0 + ttl,
              (let live : eqb ttl 0 ≡ false = ground arith in
                  rw (given, none_there, live, eq_refl key) refl),
              inr (s.world, refl),
            )
            | inr there ↦ absurd (
                let same : ok b ≡ ok a = rw (given, there) at h in
                let alike : b ≡ a = ground arith in cc)
          ]
        ]

    -- A positive answer is never remembered: it is what the API answers to this call. Where the answer
    -- without content counts as negative, every other one comes from the API.
    pub look_up-fresh :
        (fetch : Steps w.State WhmcsError A) (key : String) (s : Held w.State) (a : A)
        → (look_up w ttl is_negative nothing fetch key s).0 ≡ ok a
        → is_negative nothing ≡ true
        → is_negative a ≡ false
        → (before after : w.State) × (fetch before ≡ (ok a, after))
    look_up-fresh fetch key s a h empty full =
        Ending-positive fetch key s.negatives _ (look_up-Ending fetch key s) a h empty full

    -- An error comes from the API, and unless the cache is off it leaves no negative answer for the key.
    pub look_up_failed :
        (fetch : Steps w.State WhmcsError A) (key : String) (s : Held w.State) (e : WhmcsError)
        → (look_up w ttl is_negative nothing fetch key s).0 ≡ err e
        → ((before after : w.State) × (fetch before ≡ (err e, after)))
          × ((ttl ≡ 0)
              ⊎ (expiry key (look_up w ttl is_negative nothing fetch key s).1.negatives ≡ none))
    look_up_failed fetch key s e h =
        Ending-error fetch key s.negatives _ (look_up-Ending fetch key s) e h

    -- With the cache on, a negative answer has an expiry: the one that the key had before, or the time to
    -- live after the clock's reading behind the answer of the API. Unless the clock has passed it, the next
    -- lookup of the key, whatever the API would answer, gives the negative answer and does no more than
    -- read the clock.
    pub look_up_again :
        (fetch other : Steps w.State WhmcsError A) (key : String) (s t : Held w.State) (a : A)
        → look_up w ttl is_negative nothing fetch key s ≡ (ok a, t)
        → is_negative a ≡ true
        → 0 < ttl
        → (x : ℕ) × (expiry key t.negatives ≡ some x)
          × IsLasting fetch key s.negatives x
          × ((x < (w.now t.world).0)
              ⊎ (look_up w ttl is_negative nothing other key t
                  ≡ (ok nothing, record t { world = (w.now t.world).1 })))
    unfolding look_up negative_cached
    look_up_again fetch other key s t a h empty on =
        let (x, known, lasting) =
          Ending-known fetch key s.negatives _ (look_up-Ending fetch key s) a (ap (λ r. r.0) h)
            empty on in
        let kept : expiry key t.negatives ≡ some x =
          sym (ap (λ r. expiry key r.1.negatives) h) ∙ known in
        let live : eqb ttl 0 ≡ false = ground arith in
        (
          x,
          kept,
          lasting,
          elim (Bool-cases (ltb x (w.now t.world).0)) [
            | inl passed ↦ inl (ground arith)
            | inr alive ↦ inr (rw (live, kept, alive) refl)
          ],
        )
