-- ===== src/Whmcs/Retry/Laws.antt =====
-- Bounds and results of the retries.
use continuum_plugin_whmcs_l.Prelude.{
  ℕ, zero, suc, ◌+◌, ◌≤◌, ◌<◌, Bool, true, false, Result, ok, err, ◌≡◌, ◌↔◌, ap, ◌∙◌, refl, arith,
  inl, inr, Bool-cases, Result-cases,
}
use continuum_plugin_whmcs_l.Prelude.Steps.{Steps}
use continuum_plugin_whmcs_l.Whmcs.Http.{World, WhmcsError, retryable, context_cancelled}
use continuum_plugin_whmcs_l.Whmcs.Retry.{
  retry_max_attempts, retry_max_delay, is_retryable, backoff_ceiling, pause, settle, rounds, retry,
}

-- The upper end of the jitter before a retry, whatever its number from one on, is positive and no longer
-- than a second and a half: neither the doubling nor the wrap-around of the shift passes it.
pub backoff_ceiling_bounds :
    (attempt : ℕ)
    → 1 ≤ attempt
    → (0 < backoff_ceiling attempt) × (backoff_ceiling attempt ≤ retry_max_delay)
unfolding backoff_ceiling
backoff_ceiling_bounds attempt h = ground arith

module _ (w : World) {A : Type 0} (fn : Steps w.State WhmcsError A) where
  -- A count of calls: `fn` adds one at most, and waiting none.
  pub record IsCount (calls : w.State → ℕ) : Type 0 where
    pub fn_adds : (s : w.State) → calls (fn s).1 ≤ calls s + 1
    pub pause_adds : (attempt : ℕ) (s : w.State) → calls (pause w attempt s).1 ≡ calls s

  settle_bound :
      (calls : w.State → ℕ) (n : ℕ) (cancelled : Bool)
      (again : WhmcsError → Result WhmcsError A × w.State) (out : Result WhmcsError A) (s : w.State)
      → ((e : WhmcsError) → calls (again e).1 ≤ n)
      → calls s ≤ n
      → calls (settle cancelled again out s).1 ≤ n
  settle_bound calls n cancelled again (ok a) s h k = k
  settle_bound calls n cancelled again (err e) s h k = elim (Bool-cases (is_retryable e)) [
    | inr plain ↦ rw plain k
    | inl marked ↦
        rw marked
          (elim (Bool-cases cancelled) [ inl stop ↦ rw stop k | inr go_on ↦ rw go_on (h e) ])
  ]

  rounds_bound :
      (calls : w.State → ℕ)
      → IsCount calls
      → (left attempt : ℕ) (last : WhmcsError) (s : w.State)
      → calls (rounds w fn left attempt last s).1 ≤ calls s + left
  unfolding rounds
  rounds_bound calls c zero attempt last s = omega arith
  rounds_bound calls c (suc left) attempt last s = elim (Bool-cases (pause w attempt s).0) [
    | inl stop ↦ rw stop (omega (arith, c.pause_adds attempt s))
    | inr go_on ↦
        let s₁ = (pause w attempt s).1 in
        let s₂ = (fn s₁).1 in
        let called : calls s₂ ≤ calls s + 1 = omega (arith, c.pause_adds attempt s, c.fn_adds s₁) in
        rw go_on (
          settle_bound calls (calls s + suc left) (w.cancelled s₂) _ (fn s₁).0 s₂
            (λ e. omega (arith, rounds_bound calls c left (attempt + 1) e s₂)) (omega arith))
  ]

  -- The calls of the function add three at most to any count that one call raises by one at most and a
  -- wait leaves as it is.
  pub retry_bound :
      (calls : w.State → ℕ) (s : w.State)
      → IsCount calls
      → calls (retry w fn s).1 ≤ calls s + retry_max_attempts
  unfolding retry
  retry_bound calls s c = rounds_bound calls c retry_max_attempts 0 context_cancelled s

  -- A run that ends with a value: after waits that were not cut short and calls that failed with a marked
  -- error in a context that was alive, a call gave the value.
  pub data Succeeds : ℕ → ℕ → w.State → A → w.State → Type 0 where
    first_time :
        (left attempt : ℕ) (s : w.State) (a : A) (t : w.State)
        → (pause w attempt s).0 ≡ false
        → fn (pause w attempt s).1 ≡ (ok a, t)
        → Succeeds (suc left) attempt s a t
    later :
        (left attempt : ℕ) (s : w.State) (a : A) (t s₂ : w.State) (e : WhmcsError)
        → (pause w attempt s).0 ≡ false
        → fn (pause w attempt s).1 ≡ (err (retryable e), s₂)
        → w.cancelled s₂ ≡ false
        → Succeeds left (attempt + 1) s₂ a t
        → Succeeds (suc left) attempt s a t

  rounds_of_Succeeds :
      (left attempt : ℕ) (last : WhmcsError) (s : w.State) (a : A) (t : w.State)
      → Succeeds left attempt s a t
      → rounds w fn left attempt last s ≡ (ok a, t)
  unfolding rounds
  rounds_of_Succeeds (suc left) attempt last s a t (first_time _ _ _ _ _ p f) = rw (p, f) refl
  rounds_of_Succeeds (suc left) attempt last s a t (later _ _ _ _ _ s₂ e p f c rest) =
      rw (p, f) (rw c (rounds_of_Succeeds left (attempt + 1) (retryable e) s₂ a t rest))
  rounds_of_Succeeds zero attempt last s a t r = elim r [ ]

  settle-eq-ok :
      (cancelled : Bool) (again : WhmcsError → Result WhmcsError A × w.State) (e : WhmcsError)
      (s : w.State) (a : A) (t : w.State)
      → settle cancelled again (err e) s ≡ (ok a, t)
      → (cause : WhmcsError) × (e ≡ retryable cause) × (cancelled ≡ false) × (again e ≡ (ok a, t))
  settle-eq-ok true again (retryable e) s a t h = absurd (let f = ap (λ x. x.0) h in cc)
  settle-eq-ok false again (retryable e) s a t h = (e, refl, refl, h)
  settle-eq-ok cancelled again e s a t h = absurd (let f = ap (λ x. x.0) h in cc)

  Succeeds_of_rounds :
      (left attempt : ℕ) (last : WhmcsError) (s : w.State) (a : A) (t : w.State)
      → rounds w fn left attempt last s ≡ (ok a, t)
      → Succeeds left attempt s a t
  unfolding rounds
  Succeeds_of_rounds zero attempt last s a t h = absurd (let f = ap (λ x. x.0) h in cc)
  Succeeds_of_rounds (suc left) attempt last s a t h = elim (Bool-cases (pause w attempt s).0) [
    | inl stop ↦ absurd (let f = ap (λ x. x.0) (rw stop at h) in cc)
    | inr go_on ↦
        let s₁ = (pause w attempt s).1 in
        let s₂ = (fn s₁).1 in
        elim (Result-cases (fn s₁).0) [
          | inl (b, given) ↦
              let same = rw (go_on, given) at h in
              first_time left attempt s a t go_on
                (λ i. ((given ∙ ap (λ x. x.0) same) i, ap (λ x. x.1) same i))
          | inr (e, failed) ↦
              let (cause, marked, alive, rest) =
                settle-eq-ok (w.cancelled s₂) (λ x. rounds w fn left (attempt + 1) x s₂) e s₂ a t
                  (rw (go_on, failed) at h) in
              later left attempt s a t s₂ cause go_on (λ i. ((failed ∙ ap err marked) i, s₂)) alive
                (Succeeds_of_rounds left (attempt + 1) e s₂ a t rest)
        ]
  ]

  -- The caller gets a value exactly when, within three calls, one gave it, the calls before failed with
  -- an error marked for a retry in a context that was alive, and no wait between them was cut short; and
  -- the value and the state are those that this call gave.
  pub retry_iff :
      (s : w.State) (a : A) (t : w.State)
      → (retry w fn s ≡ (ok a, t)) ↔ Succeeds retry_max_attempts 0 s a t
  unfolding retry
  retry_iff s a t = (
    Succeeds_of_rounds retry_max_attempts 0 context_cancelled s a t,
    rounds_of_Succeeds retry_max_attempts 0 context_cancelled s a t,
  )

  Succeeds-call :
      (left attempt : ℕ) (s : w.State) (a : A) (t : w.State)
      → Succeeds left attempt s a t
      → (before : w.State) × (fn before ≡ (ok a, t))
  Succeeds-call (suc left) attempt s a t (first_time _ _ _ _ _ p f) = ((pause w attempt s).1, f)
  Succeeds-call (suc left) attempt s a t (later _ _ _ _ _ s₂ e p f c rest) =
      Succeeds-call left (attempt + 1) s₂ a t rest
  Succeeds-call zero attempt s a t r = elim r [ ]

  -- What holds of every value that a call gives holds of the value of the retried call.
  pub retry-call :
      (s : w.State) (a : A) (t : w.State)
      → retry w fn s ≡ (ok a, t)
      → (before : w.State) × (fn before ≡ (ok a, t))
  retry-call s a t h = Succeeds-call retry_max_attempts 0 s a t ((retry_iff s a t).0 h)
