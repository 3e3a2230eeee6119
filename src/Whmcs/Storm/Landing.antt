-- ===== src/Whmcs/Storm/Landing.antt =====
-- A flight of `EntitlementResolver` (internal/whmcs/entitlements.go) lands by the steps of the caller that
-- runs it.
use continuum_plugin_whmcs_l.Prelude.{
  ℕ, ◌+◌, String, Bool, some, Result, update, ◌≡◌, ◌≢◌, refl, sym, subst, ◌∙◌, inl, inr, arith,
  Bool-cases,
}
use continuum_plugin_whmcs_l.Prelude.Steps.{Steps}
use continuum_plugin_whmcs_l.Whmcs.Http.{World, WhmcsError}
use continuum_plugin_whmcs_l.Whmcs.Entitlements.{negative_cached}
use continuum_plugin_whmcs_l.Whmcs.Storm.{
  Joins, landed, Pc, flying, fetching, fetched, landing, returned, Memory, Move, flight_hit,
  flight_miss, ask, settle, land, Storm, Step, pick,
}
use continuum_plugin_whmcs_l.Whmcs.Storm.Invariant.{carried}

module _ (w : World) (ttl : ℕ) {A : Type 0} (is_negative : A → Bool) (nothing : A)
    (fetch : String → Steps w.State WhmcsError A) (joins : Joins A) where
  -- From one moment to a later one.
  pub data Leads : Storm A w.State → Storm A w.State → Type 0 where
    at_once : {s : Storm A w.State} → Leads s s
    then :
        {s t u : Storm A w.State}
        → Step w ttl is_negative nothing fetch joins s t
        → Leads t u
        → Leads s u

  -- Steps lead to where the caller has a result for the key to return.
  pub record CanReturn (s : Storm A w.State) (i : ℕ) (key : String) : Type 0 where
    pub last : Storm A w.State
    pub way : Leads s last
    pub since : ℕ
    pub result : Result WhmcsError A
    pub there : last.pc i ≡ returned key since result

  -- Steps lead to where the flight of the caller has landed, and the others stand where they stood.
  pub record CanLand (s : Storm A w.State) (i : ℕ) (key : String) (n : ℕ) : Type 0 where
    pub returns : CanReturn s i key
    pub stamp : ℕ
    pub over : returns.last.memory.flights n ≡ landed key returns.result stamp
    pub others : (j : ℕ) → i ≢ j → returns.last.pc j ≡ s.pc j

  abbrev pub moved : Storm A w.State → ℕ → Memory A w.State → Pc A → Storm A w.State
  moved s i m p = record { memory = m; pc = update s.pc i p }

  pub moved_there : (pc : ℕ → Pc A) (i : ℕ) (p : Pc A) → update pc i p i ≡ p
  moved_there pc i p = ground arith

  pub move :
      (s : Storm A w.State) (i : ℕ) {p q : Pc A} {m : Memory A w.State}
      → s.pc i ≡ p
      → Move w ttl is_negative nothing fetch joins i s.memory p m q
      → Step w ttl is_negative nothing fetch joins s (moved s i m q)
  move s i {p} {q} {m} at mv =
      pick i (subst (λ o. Move w ttl is_negative nothing fetch joins i s.memory o m q) (sym at) mv)

  pub Step-CanReturn :
      {s t : Storm A w.State} {i : ℕ} {key : String}
      → Step w ttl is_negative nothing fetch joins s t
      → CanReturn t i key
      → CanReturn s i key
  Step-CanReturn st c = record {
    last = c.last;
    way = then st c.way;
    since = c.since;
    result = c.result;
    there = c.there;
  }

  move-CanLand :
      (s : Storm A w.State) (i : ℕ) {key : String} {n : ℕ} {p q : Pc A} {m : Memory A w.State}
      → s.pc i ≡ p
      → Move w ttl is_negative nothing fetch joins i s.memory p m q
      → CanLand (moved s i m q) i key n
      → CanLand s i key n
  move-CanLand s i {q = q} at mv c = record {
    returns = record {
      last = c.returns.last;
      way = then (move s i at mv) c.returns.way;
      since = c.returns.since;
      result = c.returns.result;
      there = c.returns.there;
    };
    stamp = c.stamp;
    over = c.over;
    others = λ j apart. c.others j apart ∙ ground arith;
  }

  pub landing-CanLand :
      (s : Storm A w.State) (i : ℕ) (key : String) (since n : ℕ) (r : Result WhmcsError A)
      → s.pc i ≡ landing key since n r
      → CanLand s i key n
  landing-CanLand s i key since n r at = record {
    returns = record {
      last =
          moved s i
            (record s.memory {
              landings = s.memory.landings + 1;
              flights = update s.memory.flights n (landed key r s.memory.landings);
            })
            (returned key since r);
      way = then (move s i at land) at_once;
      since = since;
      result = r;
      there = moved_there s.pc i _;
    };
    stamp = s.memory.landings;
    over = ground arith;
    others = λ j apart. ground arith;
  }

  pub fetched-CanLand :
      (s : Storm A w.State) (i : ℕ) (key : String) (since n : ℕ) (out : Result WhmcsError A)
      → s.pc i ≡ fetched key since n out
      → CanLand s i key n
  fetched-CanLand s i key since n out at =
      move-CanLand s i at settle (landing-CanLand _ i key since n _ (moved_there s.pc i _))

  pub fetching-CanLand :
      (s : Storm A w.State) (i : ℕ) (key : String) (since n : ℕ)
      → s.pc i ≡ fetching key since n
      → CanLand s i key n
  fetching-CanLand s i key since n at =
      move-CanLand s i at ask (fetched-CanLand _ i key since n _ (moved_there s.pc i _))

  pub flying-CanLand :
      (s : Storm A w.State) (i : ℕ) (key : String) (since n : ℕ)
      → s.pc i ≡ flying key since n
      → CanLand s i key n
  flying-CanLand s i key since n at =
      elim (Bool-cases (negative_cached w ttl key s.memory.held).0) [
        | inl cached ↦
            move-CanLand s i at (flight_hit cached)
              (landing-CanLand _ i key since n _ (moved_there s.pc i _))
        | inr not_there ↦
            move-CanLand s i at (flight_miss not_there)
              (fetching-CanLand _ i key since n (moved_there s.pc i _))
      ]

  -- Whoever runs a flight can land it.
  pub carried-CanLand :
      (s : Storm A w.State) (i : ℕ) (key : String) (n : ℕ) (p : Pc A)
      → s.pc i ≡ p
      → carried p ≡ some (key, n)
      → CanLand s i key n
  carried-CanLand s i key n (flying k since o) at h =
      let f : k ≡ key = ground arith in
      let g : o ≡ n = ground arith in flying-CanLand s i key since n (at ∙ rw (f, g) refl)
  carried-CanLand s i key n (fetching k since o) at h =
      let f : k ≡ key = ground arith in
      let g : o ≡ n = ground arith in fetching-CanLand s i key since n (at ∙ rw (f, g) refl)
  carried-CanLand s i key n (fetched k since o out) at h =
      let f : k ≡ key = ground arith in
      let g : o ≡ n = ground arith in fetched-CanLand s i key since n out (at ∙ rw (f, g) refl)
  carried-CanLand s i key n (landing k since o r) at h =
      let f : k ≡ key = ground arith in
      let g : o ≡ n = ground arith in landing-CanLand s i key since n r (at ∙ rw (f, g) refl)
  carried-CanLand s i key n p at h = absurd (cc)
