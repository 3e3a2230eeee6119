-- ===== src/Whmcs/Storm/Once.antt =====
-- How often the flights of `EntitlementResolver` (internal/whmcs/entitlements.go) ask the API.
use continuum_plugin_whmcs_l.Prelude.{
  ℕ, ◌+◌, ◌≤◌, String, Bool, List, [], ◌∷◌, Option, none, some, true, false, eqb, ◌==◌, Bool-cases,
  eq_iff, if◌then◌else◌, update-cases, ◌≡◌, ◌≢◌, refl, sym, ap, ◌∙◌, inl, inr, arith,
}
use continuum_plugin_whmcs_l.Prelude.Steps.{Steps}
use continuum_plugin_whmcs_l.Whmcs.Http.{World, WhmcsError}
use continuum_plugin_whmcs_l.Whmcs.Storm.{
  Joins, IsSingleflight, Flight, unborn, under_way, landed, Pc, flying, fetching, Answer, Memory,
  Move, lead, flight_miss, ask, Storm, Step, pick, outside, Reach, begun, later,
}
use continuum_plugin_whmcs_l.Whmcs.Storm.Invariant.{carried, Inv}
use continuum_plugin_whmcs_l.Whmcs.Storm.Moves.{Mover}
use continuum_plugin_whmcs_l.Whmcs.Storm.Safety.{Inv-Mover, Reach-Inv}

-- How many of the answers were given to a flight.
pub asks : {A : Type 0} → ℕ → List (Answer A) → ℕ
asks n [] = 0
asks n (a ∷ rest) = let more = asks n rest in if eqb a.flight n then more + 1 else more

-- Whether the flight is under way for the key.
pub is_open : {A : Type 0} → String → Flight A → Bool
is_open key (under_way k i) = k == key
is_open key f = false

-- How many of the answers were given to flights for the key that have not landed yet.
pub open_asks : {A : Type 0} → (ℕ → Flight A) → String → List (Answer A) → ℕ
open_asks flights key [] = 0
open_asks flights key (a ∷ rest) =
    let more = open_asks flights key rest in
    if is_open key (flights a.flight) then more + 1 else more

-- The flight that a caller runs and has not asked for yet.
abbrev yet_to_ask : {A : Type 0} → Pc A → Option ℕ
yet_to_ask (flying key since n) = some n
yet_to_ask (fetching key since n) = some n
yet_to_ask p = none

record IsSparing {A S : Type 0} (m : Memory A S) (pc : ℕ → Pc A) : Type 0 where
  one : (n : ℕ) → asks n m.answers ≤ 1
  clear : (n : ℕ) → m.started ≤ n → asks n m.answers ≡ 0
  pending : (i n : ℕ) → yet_to_ask (pc i) ≡ some n → asks n m.answers ≡ 0

-- A flight that is open for the key is under way for it.
is_open-under_way :
    {A : Type 0} (key : String) (f : Flight A)
    → is_open key f ≡ true
    → (i : ℕ) × (f ≡ under_way key i)
unfolding is_open
is_open-under_way key unborn h = absurd (cc)
is_open-under_way key (under_way k i) h =
    let same : k ≡ key = (eq_iff k key).0 h in (i, rw same refl)
is_open-under_way key (landed k r t) h = absurd (cc)

module _ {A : Type 0} (flights : ℕ → Flight A) (key : String)
    (single : (n k i j : ℕ)
      → flights n ≡ under_way key i
      → flights k ≡ under_way key j
      → n ≡ k) where
  -- Where one flight is open for the key, it has been given all the answers that count.
  open_asks-asks :
      (n i : ℕ)
      → flights n ≡ under_way key i
      → (answers : List (Answer A)) → open_asks flights key answers ≤ asks n answers
  unfolding open_asks asks
  open_asks-asks n i flies [] = omega arith
  open_asks-asks n i flies (a ∷ rest) = elim (Bool-cases (is_open key (flights a.flight))) [
    | inl counts ↦
        let (j, other) = is_open-under_way key (flights a.flight) counts in
        let same = single a.flight n j i other flies in
        ground (arith, open_asks-asks n i flies rest)
    | inr closed ↦ ground (arith, open_asks-asks n i flies rest)
  ]

  open_asks-bound :
      (answers : List (Answer A))
      → ((n : ℕ) → asks n answers ≤ 1)
      → open_asks flights key answers ≤ 1
  unfolding open_asks asks
  open_asks-bound [] one = omega arith
  open_asks-bound (a ∷ rest) one = elim (Bool-cases (is_open key (flights a.flight))) [
    | inl counts ↦
        let (j, flies) = is_open-under_way key (flights a.flight) counts in
        ground (arith, open_asks-asks a.flight j flies (a ∷ rest), one a.flight)
    | inr closed ↦ ground (arith, open_asks-bound rest (λ n. ground (arith, one n)))
  ]

-- Who has yet to ask runs a flight.
yet_to_ask-carried :
    {A : Type 0} (p : Pc A) (n : ℕ)
    → yet_to_ask p ≡ some n
    → (key : String) × (carried p ≡ some (key, n))
yet_to_ask-carried (flying key since o) n h = (key, ground arith)
yet_to_ask-carried (fetching key since o) n h = (key, ground arith)
yet_to_ask-carried p n h = absurd (cc)

module _ (w : World) (ttl : ℕ) {A : Type 0} (is_negative : A → Bool) (nothing : A)
    (fetch : String → Steps w.State WhmcsError A) (joins : Joins A)
    (doc : IsSingleflight A joins) where
  module _ {i : ℕ} {m : Memory A w.State} {pc : ℕ → Pc A} (v : IsSparing m pc) where
    Move-one :
        {p q : Pc A} {k : Memory A w.State}
        → Move w ttl is_negative nothing fetch joins i m p k q
        → ((n : ℕ) → yet_to_ask p ≡ some n → asks n m.answers ≡ 0)
        → (n : ℕ) → asks n k.answers ≤ 1
    unfolding asks
    Move-one (ask {n = o}) pend n = ground (arith, v.one n, pend o refl)
    Move-one mv pend n = v.one n

    Move-clear :
        {p q : Pc A} {k : Memory A w.State}
        → Move w ttl is_negative nothing fetch joins i m p k q
        → Mover w ttl is_negative nothing fetch joins i m p
        → (n : ℕ) → k.started ≤ n
        → asks n k.answers ≡ 0
    unfolding asks
    Move-clear (ask {key = key} {n = o}) f n h =
        ground (arith, v.clear n, f.safe.fresh o, f.owner key o refl)
    Move-clear (lead free) f n h = v.clear n (omega arith)
    Move-clear mv f n h = v.clear n h

    Move-pending :
        {p q : Pc A} {k : Memory A w.State}
        → Move w ttl is_negative nothing fetch joins i m p k q
        → ((n : ℕ) → yet_to_ask p ≡ some n → asks n m.answers ≡ 0)
        → (n : ℕ) → yet_to_ask q ≡ some n
        → asks n k.answers ≡ 0
    Move-pending (lead free) pend n h = ground (arith, v.clear n)
    Move-pending (flight_miss not_there) pend n h = pend n h
    Move-pending mv pend n h = absurd (cc)

    -- The others' flights are not asked for by this step.
    Move-pending_others :
        {p q : Pc A} {k : Memory A w.State}
        → Move w ttl is_negative nothing fetch joins i m p k q
        → Mover w ttl is_negative nothing fetch joins i m p
        → (j n : ℕ) (key : String) → i ≢ j
        → m.flights n ≡ under_way key j
        → asks n m.answers ≡ 0
        → asks n k.answers ≡ 0
    unfolding asks
    Move-pending_others (ask {key = other} {n = o}) f j n key apart flies h =
        ground (arith, f.owner other o refl)
    Move-pending_others mv f j n key apart flies h = h

  Step-IsSparing :
      {s t : Storm A w.State}
      → Step w ttl is_negative nothing fetch joins s t
      → Inv is_negative nothing w ttl s.memory s.pc
      → IsSparing s.memory s.pc
      → IsSparing t.memory t.pc
  Step-IsSparing (outside x) inv v = record { one = v.one; clear = v.clear; pending = v.pending }
  Step-IsSparing {s} (pick i {p = p} mv) inv v =
      let f = Inv-Mover w ttl is_negative nothing fetch joins doc inv i in
      record {
        one = Move-one v mv (v.pending i);
        clear = Move-clear v mv f;
        pending = λ j n h. elim (update-cases s.pc i p j) [
          | inl (same, new) ↦ Move-pending v mv (v.pending i) n (ap yet_to_ask (sym new) ∙ h)
          | inr (apart, old) ↦
              let mine = ap yet_to_ask (sym old) ∙ h in
              let (key, runs) = yet_to_ask-carried (s.pc j) n mine in
              Move-pending_others v mv f j n key apart (inv.owner j key n runs) (v.pending j n mine)
        ];
      }

  Reach-IsSparing :
      {x : w.State} {s : Storm A w.State}
      → Reach w ttl is_negative nothing fetch joins x s
      → IsSparing s.memory s.pc
  unfolding asks
  Reach-IsSparing begun = record {
    one = λ n. omega arith;
    clear = λ n h. refl;
    pending = λ i n h. refl;
  }
  Reach-IsSparing (later r st) =
      Step-IsSparing st (Reach-Inv w ttl is_negative nothing fetch joins doc r) (Reach-IsSparing r)

  -- However many callers look up however many keys at the same time, of the answers of the API at most
  -- one was given to a flight for a key that has not landed yet, and no flight has been given two: for each
  -- key there is one call of the API, until its flight lands.
  pub Reach-asks :
      {x : w.State} {s : Storm A w.State} (r : Reach w ttl is_negative nothing fetch joins x s)
      (key : String) (n : ℕ)
      → (open_asks s.memory.flights key s.memory.answers ≤ 1) × (asks n s.memory.answers ≤ 1)
  Reach-asks {s = s} r key n =
      let sparing = Reach-IsSparing r in
      let safe = (Reach-Inv w ttl is_negative nothing fetch joins doc r).safe in
      (
        open_asks-bound s.memory.flights key (safe.single key) s.memory.answers sparing.one,
        sparing.one n,
      )
