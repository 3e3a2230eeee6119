-- ===== src/Whmcs/Storm/Invariant.antt =====
-- What holds of the flights, the cache and the callers of `EntitlementResolver`
-- (internal/whmcs/entitlements.go) at every moment of a storm.
use continuum_plugin_whmcs_l.Prelude.{
  ℕ, ◌≤◌, String, Bool, true, List, Member, Option, none, some, Result, ok, ◌≡◌, ◌⊎◌,
}
use continuum_plugin_whmcs_l.Whmcs.Http.{World, WhmcsError}
use continuum_plugin_whmcs_l.Whmcs.Entitlements.{expiry}
use continuum_plugin_whmcs_l.Whmcs.Entitlements.Laws.{IsMissed}
use continuum_plugin_whmcs_l.Whmcs.Storm.{
  unborn, under_way, landed, Pc, idle, asked, entering, waiting, flying, fetching, fetched, landing,
  returned, Answer, Memory,
}

-- The key and the flight that a caller is responsible for.
abbrev pub carried : {A : Type 0} → Pc A → Option (String × ℕ)
carried (flying key since n) = some (key, n)
carried (fetching key since n) = some (key, n)
carried (fetched key since n out) = some (key, n)
carried (landing key since n r) = some (key, n)
carried p = none

abbrev pub answer_of : {A : Type 0} → ℕ → String → Result WhmcsError A → Answer A
answer_of n key out = record { flight = n; key = key; out = out }

module _ {A : Type 0} (is_negative : A → Bool) (nothing : A) where
  -- The API has said of the key that there is nothing.
  pub record IsDenied (answers : List (Answer A)) (key : String) : Type 0 where
    pub flight : ℕ
    pub content : A
    pub said : Member (answer_of flight key (ok content)) answers
    pub empty : is_negative content ≡ true

  -- What a flight comes to: what the API has answered to it, or a negative answer that the API has once
  -- given for the key.
  pub data Backed (answers : List (Answer A)) (n : ℕ) (key : String)
      : Result WhmcsError A → Type 0 where
    told : {r : Result WhmcsError A} → Member (answer_of n key r) answers → Backed answers n key r
    denied : IsDenied answers key → Backed answers n key (ok nothing)

  -- What a caller returns: a negative answer that the API has once given for the key, or what the API has
  -- answered to a flight that had not landed when the caller called.
  pub data Sourced {S : Type 0} (m : Memory A S) (key : String) (since : ℕ)
      : Result WhmcsError A → Type 0 where
    remembered : IsDenied m.answers key → Sourced m key since (ok nothing)
    flown :
        {r : Result WhmcsError A} {n t : ℕ}
        → m.flights n ≡ landed key r t
        → since ≤ t
        → Member (answer_of n key r) m.answers
        → Sourced m key since r

  module _ (w : World) (ttl : ℕ) where
    abbrev pub Good : Memory A w.State → Pc A → Type 0
    Good m idle = Unit
    Good m (asked key since) = since ≤ m.landings
    Good m (entering key since) = since ≤ m.landings
    Good m (waiting key since n) =
        (since ≤ m.landings)
        × (((o : ℕ) × (m.flights n ≡ under_way key o))
            ⊎ ((r : Result WhmcsError A) × (t : ℕ) × (m.flights n ≡ landed key r t) × (since ≤ t)))
    Good m (flying key since n) = since ≤ m.landings
    Good m (fetching key since n) = (since ≤ m.landings) × IsMissed w ttl key m.held
    Good m (fetched key since n out) =
        (since ≤ m.landings) × IsMissed w ttl key m.held × Member (answer_of n key out) m.answers
    Good m (landing key since n r) = (since ≤ m.landings) × Backed m.answers n key r
    Good m (returned key since r) = Sourced m key since r

    -- The flights and the cache.
    pub record IsSafe (m : Memory A w.State) : Type 0 where
      pub single :
          (key : String) (n k i j : ℕ)
          → m.flights n ≡ under_way key i
          → m.flights k ≡ under_way key j
          → n ≡ k
      pub fresh : (n : ℕ) → m.started ≤ n → m.flights n ≡ unborn
      pub backed :
          (key : String) (n t : ℕ) (r : Result WhmcsError A)
          → m.flights n ≡ landed key r t
          → Backed m.answers n key r
      pub known :
          (key : String) (x : ℕ) → expiry key m.held.negatives ≡ some x → IsDenied m.answers key

    pub record Inv (m : Memory A w.State) (pc : ℕ → Pc A) : Type 0 where
      pub safe : IsSafe m
      pub owner :
          (i : ℕ) (key : String) (n : ℕ)
          → carried (pc i) ≡ some (key, n)
          → m.flights n ≡ under_way key i
      pub owned :
          (i : ℕ) (key : String) (n : ℕ)
          → m.flights n ≡ under_way key i
          → carried (pc i) ≡ some (key, n)
      pub good : (i : ℕ) → Good m (pc i)
