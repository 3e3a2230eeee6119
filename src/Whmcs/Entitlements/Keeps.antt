-- ===== src/Whmcs/Entitlements/Keeps.antt =====
-- What a step of one lookup leaves of the negative answers for the other keys.
use continuum_plugin_whmcs_l.Prelude.{
  ℕ, String, Bool, true, false, [], ◌∷◌, none, some, ◌==◌, Result, ok, err, ltb, eqb, ◌≡◌, ◌⊎◌, inl,
  inr, refl, arith, eq_iff, Bool-cases, Option-cases,
}
use continuum_plugin_whmcs_l.Whmcs.Http.{World, WhmcsError}
use continuum_plugin_whmcs_l.Whmcs.Entitlements.{
  Expiries, expiry, delete, Held, negative_cached, remember_negative, answered,
}
use continuum_plugin_whmcs_l.Whmcs.Entitlements.Laws.{IsMissed}

-- A key that is not in the map does not come by a deletion.
expiry-delete_other :
    (other key : String) (m : Expiries) → expiry key m ≡ none → expiry key (delete other m) ≡ none
unfolding expiry delete
expiry-delete_other other key [] h = h
expiry-delete_other other key ((k, t) ∷ m) h = ground (arith, expiry-delete_other other key m)

module _ (w : World) (ttl : ℕ) where
  negative_cached-none :
      (other key : String) (s : Held w.State)
      → expiry key s.negatives ≡ none
      → expiry key (negative_cached w ttl other s).1.negatives ≡ none
  unfolding negative_cached
  negative_cached-none other key s unknown = elim (Bool-cases (eqb ttl 0)) [
    | inl off ↦ rw off unknown
    | inr on ↦ elim (Option-cases (expiry other s.negatives)) [
      | inl none_there ↦ rw (on, none_there) unknown
      | inr (t, known) ↦ elim (Bool-cases (ltb t (w.now s.world).0)) [
        | inl expired ↦ rw (on, known, expired) (expiry-delete_other other key s.negatives unknown)
        | inr alive ↦ rw (on, known, alive) unknown
      ]
    ]
  ]

  -- A look into the cache, for whatever key, makes no negative answer.
  pub negative_cached_keeps :
      (other key : String) (s : Held w.State)
      → IsMissed w ttl key s
      → IsMissed w ttl key (negative_cached w ttl other s).1
  negative_cached_keeps other key s missed = elim missed.absent [
    | inl off ↦ record { absent = inl off }
    | inr unknown ↦ record { absent = inr (negative_cached-none other key s unknown) }
  ]

  -- What a look into the cache leaves was there before.
  pub negative_cached-known :
      (other key : String) (s : Held w.State) (x : ℕ)
      → expiry key (negative_cached w ttl other s).1.negatives ≡ some x
      → (y : ℕ) × (expiry key s.negatives ≡ some y)
  negative_cached-known other key s x h = elim (Option-cases (expiry key s.negatives)) [
    | inl unknown ↦ absurd (let gone = negative_cached-none other key s unknown in cc)
    | inr before ↦ before
  ]

  module _ {A : Type 0} (is_negative : A → Bool) (nothing : A) where
    answered-none :
        (other key : String) (out : Result WhmcsError A) (s : Held w.State)
        → (other == key) ≡ false
        → expiry key s.negatives ≡ none
        → expiry key (answered w ttl is_negative nothing other out s).1.negatives ≡ none
    unfolding answered remember_negative expiry
    answered-none other key (err e) s apart unknown = unknown
    answered-none other key (ok a) s apart unknown = elim (Bool-cases (is_negative a)) [
      | inr there ↦ rw there unknown
      | inl none_there ↦ elim (Bool-cases (eqb ttl 0)) [
        | inl off ↦ rw (none_there, off) unknown
        | inr on ↦ rw (none_there, on, apart) (expiry-delete_other other key s.negatives unknown)
      ]
    ]

    -- What is made of an answer concerns the negative answer of its own key only.
    pub answered_keeps :
        (other key : String) (out : Result WhmcsError A) (s : Held w.State)
        → (other == key) ≡ false
        → IsMissed w ttl key s
        → IsMissed w ttl key (answered w ttl is_negative nothing other out s).1
    answered_keeps other key out s apart missed = elim missed.absent [
      | inl off ↦ record { absent = inl off }
      | inr unknown ↦ record { absent = inr (answered-none other key out s apart unknown) }
    ]

    -- A negative answer that is new is the API's for this key.
    pub answered-known :
        (other key : String) (out : Result WhmcsError A) (s : Held w.State) (x : ℕ)
        → expiry key (answered w ttl is_negative nothing other out s).1.negatives ≡ some x
        → ((y : ℕ) × (expiry key s.negatives ≡ some y))
          ⊎ ((other ≡ key) × (a : A) × (out ≡ ok a) × (is_negative a ≡ true))
    unfolding answered
    answered-known other key (err e) s x h = inl (x, h)
    answered-known other key (ok a) s x h = elim (Bool-cases (is_negative a)) [
      | inr there ↦ inl (x, rw there at h)
      | inl none_there ↦ elim (Bool-cases (other == key)) [
        | inl same ↦ inr ((eq_iff other key).0 same, a, refl, none_there)
        | inr apart ↦ elim (Option-cases (expiry key s.negatives)) [
          | inr before ↦ inl before
          | inl unknown ↦ absurd (let gone = answered-none other key (ok a) s apart unknown in cc)
        ]
      ]
    ]
