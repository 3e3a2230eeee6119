-- ===== src/Examples/Calls.antt =====
-- The theorems on the retries, at a call that fails once for a reason that may pass, and on the caches.
use continuum_plugin_whmcs_l.Prelude.{
  ℕ, zero, suc, ◌+◌, ◌≤◌, [], ok, err, ◌≡◌, ◌↔◌, refl, arith, if◌then◌else◌, eqb,
}
use continuum_plugin_whmcs_l.Prelude.Steps.{Steps}
use continuum_plugin_whmcs_l.Whmcs.Http.{WhmcsError, retryable, transport, whmcs_api}
use continuum_plugin_whmcs_l.Whmcs.Retry.{retry, retry_max_attempts, pause, backoff_delay}
use continuum_plugin_whmcs_l.Whmcs.Retry.Laws.{IsCount, retry_bound, Succeeds, retry_iff}
use continuum_plugin_whmcs_l.Whmcs.Types.{Client}
use continuum_plugin_whmcs_l.Whmcs.Entitlements.{
  Held, expiry, delete, negative_cached, remember_negative, answered, flight, look_up, no_client,
}
use continuum_plugin_whmcs_l.Whmcs.Entitlements.Laws.{IsLasting, look_up_again}
use continuum_plugin_whmcs_l.Prelude.{Bool, ◌∷◌, ◌<◌, Option, none, some, ◌⊎◌}
use continuum_plugin_whmcs_l.Examples.{Wire, world}

-- The first request fails, the next one is answered with its number.
abbrev flaky : Steps Wire WhmcsError ℕ
flaky s = (
  if eqb s.sent 0 then err (retryable (transport whmcs_api)) else ok s.sent,
  record s { sent = s.sent + 1 },
)

abbrev quiet : Wire
quiet = record { replies = []; sent = 0 }

abbrev requests : Wire → ℕ
requests s = s.sent

requests-pause : (attempt : ℕ) (s : Wire) → requests (pause world attempt s).1 ≡ requests s
unfolding pause backoff_delay
requests-pause zero s = refl
requests-pause (suc n) s = refl

requests-IsCount : IsCount world flaky requests
requests-IsCount = record { fn_adds = λ s. omega arith; pause_adds = requests-pause }

retry_bound_example : requests (retry world flaky quiet).1 ≤ requests quiet + retry_max_attempts
retry_bound_example = retry_bound world flaky requests quiet requests-IsCount

retry_iff_example :
    (retry world flaky quiet ≡ (ok 1, record { replies = []; sent = 2 }))
    ↔ Succeeds world flaky retry_max_attempts 0 quiet 1 (record { replies = []; sent = 2 })
retry_iff_example = retry_iff world flaky quiet 1 (record { replies = []; sent = 2 })

abbrev keep : ℕ
keep = 30

-- The API as the resolver sees it: no client of that email.
abbrev unknown_email : Steps Wire WhmcsError (Option Client)
unknown_email s = (ok none, record s { sent = s.sent + 1 })

abbrev known_email : Steps Wire WhmcsError (Option Client)
known_email s = (ok (some (record { id = "7"; email = "a@b" })), record s { sent = s.sent + 1 })

abbrev failing : Steps Wire WhmcsError (Option Client)
failing s = (err (transport whmcs_api), record s { sent = s.sent + 1 })

abbrev no_entries : Held Wire
no_entries = record { negatives = []; world = quiet }

-- The clock of this world stands still at zero, and an answer is kept for thirty.
abbrev missed : Held Wire
missed = record { negatives = ("a@b", 30) ∷ []; world = record { replies = []; sent = 1 } }

abbrev absent : Option Client → Bool
absent = no_client world 30

missing_run : look_up world 30 absent none unknown_email "a@b" no_entries ≡ (ok none, missed)
unfolding look_up flight answered negative_cached remember_negative expiry delete
missing_run = refl

found_run :
    (look_up world 30 absent none known_email "a@b" no_entries).0
    ≡ ok (some (record { id = "7"; email = "a@b" }))
unfolding look_up flight answered negative_cached remember_negative expiry delete
found_run = refl

failing_run : (look_up world 30 absent none failing "a@b" no_entries).0 ≡ err (transport whmcs_api)
unfolding look_up flight answered negative_cached remember_negative expiry delete
failing_run = refl

look_up_again_example :
    (x : ℕ) × (expiry "a@b" missed.negatives ≡ some x)
    × IsLasting world 30 absent none unknown_email "a@b" no_entries.negatives x
    × ((x < 0) ⊎ (look_up world 30 absent none known_email "a@b" missed ≡ (ok none, missed)))
look_up_again_example =
    look_up_again world 30 absent none unknown_email known_email "a@b" no_entries missed none
      missing_run refl (omega arith)
