-- ===== src/Whmcs/Retry.antt =====
-- internal/whmcs/retry.go: bounded retries with backoff. Durations are in nanoseconds.
pub mod Laws
use continuum_plugin_whmcs_l.Prelude.{
  ℕ, zero, suc, ◌+◌, ◌-◌, ◌*◌, ◌%◌, ◌^◌, Bool, true, false, ◌||◌, Result, ok, err, ltb, eqb,
  if◌then◌else◌,
}
use continuum_plugin_whmcs_l.Prelude.Steps.{Steps}
use continuum_plugin_whmcs_l.Whmcs.Http.{World, WhmcsError, retryable, context_cancelled}

abbrev pub retry_max_attempts : ℕ
retry_max_attempts = 3

abbrev pub retry_base_delay : ℕ
retry_base_delay = 150_000_000

abbrev pub retry_max_delay : ℕ
retry_max_delay = 1_500_000_000

-- No other error wraps the marker, so `errors.As` looks at the error itself.
abbrev pub is_retryable : WhmcsError → Bool
is_retryable (retryable e) = true
is_retryable e = false

abbrev pub unwrap_retryable : WhmcsError → WhmcsError
unwrap_retryable (retryable e) = e
unwrap_retryable e = e

-- The upper end of the jitter, for an attempt from one on. The shift is that of a 64-bit word; as a signed number it is negative
-- from 2^63 on, and then it is above the maximum here.
unfoldable pub backoff_ceiling : ℕ → ℕ
backoff_ceiling attempt =
    let d = (retry_base_delay * 2 ^ (attempt - 1)) % 2 ^ 64 in
    if ltb retry_max_delay d || eqb d 0 then retry_max_delay else d

module _ (w : World) where
  unfoldable pub backoff_delay : ℕ → w.State → ℕ × w.State
  unfolding backoff_ceiling
  backoff_delay attempt s = w.draw (backoff_ceiling attempt + 1) s

  -- The wait before an attempt, none before the first; whether the context was cancelled meanwhile.
  unfoldable pub pause : ℕ → w.State → Bool × w.State
  unfolding backoff_delay
  pause zero s = (false, s)
  pause (suc n) s = let (d, s') = backoff_delay (suc n) s in w.sleep d s'

-- What follows a call: a value and an error that is not marked are returned; on a marked one the loop
-- goes on, unless the context has been cancelled.
abbrev pub settle :
    {S A : Type 0}
    → Bool
    → (WhmcsError → Result WhmcsError A × S)
    → Result WhmcsError A
    → S
    → Result WhmcsError A × S
settle cancelled again (ok a) s = (ok a, s)
settle cancelled again (err e) s =
    if is_retryable e
    then (if cancelled then (err context_cancelled, s) else again e)
    else (err (unwrap_retryable e), s)

module _ (w : World) {A : Type 0} (fn : Steps w.State WhmcsError A) where
  -- The rounds that are left, from the attempt of that number; `last` is the error of the round before.
  unfoldable pub rounds : ℕ → ℕ → WhmcsError → Steps w.State WhmcsError A
  rounds zero attempt last s = (err (unwrap_retryable last), s)
  rounds (suc left) attempt last s =
      let (cancelled, s₁) = pause w attempt s in
      let (out, s₂) = fn s₁ in
      let rest : Result WhmcsError A × w.State =
        settle (w.cancelled s₂) (λ e. rounds left (attempt + 1) e s₂) out s₂ in
      if cancelled then (err context_cancelled, s₁) else rest

  unfoldable pub retry : Steps w.State WhmcsError A
  unfolding rounds pause
  retry s = rounds retry_max_attempts 0 context_cancelled s
