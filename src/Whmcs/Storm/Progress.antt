-- ===== src/Whmcs/Storm/Progress.antt =====
-- How a lookup of `EntitlementResolver` (internal/whmcs/entitlements.go) comes to an end.
use continuum_plugin_whmcs_l.Prelude.{
  ℕ, String, Bool, Option, none, some, ok, ◌≡◌, ◌≢◌, refl, ap, subst, ◌∙◌, inl, inr, arith,
  Bool-cases, Option-cases,
}
use continuum_plugin_whmcs_l.Prelude.Steps.{Steps}
use continuum_plugin_whmcs_l.Whmcs.Http.{World, WhmcsError}
use continuum_plugin_whmcs_l.Whmcs.Entitlements.{negative_cached}
use continuum_plugin_whmcs_l.Whmcs.Storm.{
  Joins, IsSingleflight, Pc, idle, asked, entering, waiting, flying, fetching, fetched, landing,
  returned, hit, miss, lead, follow, share, Storm, Reach, later,
}
use continuum_plugin_whmcs_l.Whmcs.Storm.Invariant.{carried, Good, Inv}
use continuum_plugin_whmcs_l.Whmcs.Storm.Landing.{
  Leads, at_once, then, CanReturn, moved, moved_there, move, Step-CanReturn, landing-CanLand,
  fetched-CanLand, fetching-CanLand, flying-CanLand, carried-CanLand,
}
use continuum_plugin_whmcs_l.Whmcs.Storm.Safety.{Reach-Inv}

module _ (w : World) (ttl : ℕ) {A : Type 0} (is_negative : A → Bool) (nothing : A)
    (fetch : String → Steps w.State WhmcsError A) (joins : Joins A)
    (doc : IsSingleflight A joins) where
  Leads-trans :
      {s t u : Storm A w.State}
      → Leads w ttl is_negative nothing fetch joins s t
      → Leads w ttl is_negative nothing fetch joins t u
      → Leads w ttl is_negative nothing fetch joins s u
  Leads-trans at_once rest = rest
  Leads-trans (then st way) rest = then st (Leads-trans way rest)

  waiting-CanReturn :
      (s : Storm A w.State) (i : ℕ) (key : String) (since n : ℕ)
      → Inv is_negative nothing w ttl s.memory s.pc
      → s.pc i ≡ waiting key since n
      → CanReturn w ttl is_negative nothing fetch joins s i key
  waiting-CanReturn s i key since n inv at =
      elim (subst (Good is_negative nothing w ttl s.memory) at (inv.good i)).1 [
        | inr (r, t, over, late) ↦ record {
          last = moved w ttl is_negative nothing fetch joins s i s.memory (returned key since r);
          way = then (move w ttl is_negative nothing fetch joins s i at (share over)) at_once;
          since = since;
          result = r;
          there = moved_there w ttl is_negative nothing fetch joins s.pc i _;
        }
        | inl (o, flies) ↦
            let carries = inv.owned o key n flies in
            let c =
              carried-CanLand w ttl is_negative nothing fetch joins s o key n (s.pc o) refl
                carries in
            let apart : o ≢ i = λ same.
              let mine = subst (λ j. carried (s.pc j) ≡ some (key, n)) same carries in
              let none_mine = ap carried at in cc in
            let waits = c.others i apart ∙ at in
            record {
              last =
                  moved w ttl is_negative nothing fetch joins c.returns.last i c.returns.last.memory
                    (returned key since c.returns.result);
              way = Leads-trans c.returns.way (
                  then (move w ttl is_negative nothing fetch joins _ i waits (share c.over))
                    at_once);
              since = since;
              result = c.returns.result;
              there = moved_there w ttl is_negative nothing fetch joins c.returns.last.pc i _;
            }
      ]

  entering-CanReturn :
      {x : w.State} (s : Storm A w.State) (i : ℕ) (key : String) (since : ℕ)
      → Reach w ttl is_negative nothing fetch joins x s
      → s.pc i ≡ entering key since
      → CanReturn w ttl is_negative nothing fetch joins s i key
  entering-CanReturn s i key since reach at =
      elim (Option-cases (joins key s.memory.started s.memory.flights)) [
        | inr (n, joined) ↦
            let st = move w ttl is_negative nothing fetch joins s i at (follow joined) in
            Step-CanReturn w ttl is_negative nothing fetch joins st (
              waiting-CanReturn _ i key since n
                (Reach-Inv w ttl is_negative nothing fetch joins doc (later reach st))
                (moved_there w ttl is_negative nothing fetch joins s.pc i _))
        | inl free ↦
            Step-CanReturn w ttl is_negative nothing fetch joins
              (move w ttl is_negative nothing fetch joins s i at (lead free))
              (flying-CanLand w ttl is_negative nothing fetch joins _ i key since s.memory.started
                (moved_there w ttl is_negative nothing fetch joins s.pc i _)).returns
      ]

  asked-CanReturn :
      {x : w.State} (s : Storm A w.State) (i : ℕ) (key : String) (since : ℕ)
      → Reach w ttl is_negative nothing fetch joins x s
      → s.pc i ≡ asked key since
      → CanReturn w ttl is_negative nothing fetch joins s i key
  asked-CanReturn s i key since reach at =
      elim (Bool-cases (negative_cached w ttl key s.memory.held).0) [
        | inl cached ↦ record {
          last =
              moved w ttl is_negative nothing fetch joins s i
                (record s.memory { held = (negative_cached w ttl key s.memory.held).1 })
                (returned key since (ok nothing));
          way = then (move w ttl is_negative nothing fetch joins s i at (hit cached)) at_once;
          since = since;
          result = ok nothing;
          there = moved_there w ttl is_negative nothing fetch joins s.pc i _;
        }
        | inr not_there ↦
            let st = move w ttl is_negative nothing fetch joins s i at (miss not_there) in
            Step-CanReturn w ttl is_negative nothing fetch joins st (
              entering-CanReturn _ i key since (later reach st)
                (moved_there w ttl is_negative nothing fetch joins s.pc i _))
      ]

  -- The key that a caller looks up.
  abbrev pub looked_up : Pc A → Option String
  looked_up idle = none
  looked_up (asked key since) = some key
  looked_up (entering key since) = some key
  looked_up (waiting key since n) = some key
  looked_up (flying key since n) = some key
  looked_up (fetching key since n) = some key
  looked_up (fetched key since n out) = some key
  looked_up (landing key since n r) = some key
  looked_up (returned key since r) = some key

  looking-CanReturn :
      {x : w.State} (s : Storm A w.State) (i : ℕ) (p : Pc A) (key : String)
      → Reach w ttl is_negative nothing fetch joins x s
      → s.pc i ≡ p
      → looked_up p ≡ some key
      → CanReturn w ttl is_negative nothing fetch joins s i key
  looking-CanReturn s i idle key reach at h = absurd (cc)
  looking-CanReturn s i (asked k since) key reach at h =
      let e : k ≡ key = ground arith in asked-CanReturn s i key since reach (at ∙ rw e refl)
  looking-CanReturn s i (entering k since) key reach at h =
      let e : k ≡ key = ground arith in entering-CanReturn s i key since reach (at ∙ rw e refl)
  looking-CanReturn s i (waiting k since n) key reach at h =
      let e : k ≡ key = ground arith in
      waiting-CanReturn s i key since n (Reach-Inv w ttl is_negative nothing fetch joins doc reach)
        (at ∙ rw e refl)
  looking-CanReturn s i (flying k since n) key reach at h =
      let e : k ≡ key = ground arith in
      (flying-CanLand w ttl is_negative nothing fetch joins s i key since n
        (at ∙ rw e refl)).returns
  looking-CanReturn s i (fetching k since n) key reach at h =
      let e : k ≡ key = ground arith in
      (fetching-CanLand w ttl is_negative nothing fetch joins s i key since n
        (at ∙ rw e refl)).returns
  looking-CanReturn s i (fetched k since n out) key reach at h =
      let e : k ≡ key = ground arith in
      (fetched-CanLand w ttl is_negative nothing fetch joins s i key since n out
        (at ∙ rw e refl)).returns
  looking-CanReturn s i (landing k since n r) key reach at h =
      let e : k ≡ key = ground arith in
      (landing-CanLand w ttl is_negative nothing fetch joins s i key since n r
        (at ∙ rw e refl)).returns
  looking-CanReturn s i (returned k since r) key reach at h = record {
    last = s;
    way = at_once;
    since = since;
    result = r;
    there = at ∙ (let e : k ≡ key = ground arith in rw e refl);
  }

  -- At every moment of a storm of lookups, and for every caller that is looking a key up, there are steps
  -- at whose end it has a result for that key to return.
  pub Reach-CanReturn :
      {x : w.State} {s : Storm A w.State} (reach : Reach w ttl is_negative nothing fetch joins x s)
      (i : ℕ) (key : String)
      → looked_up (s.pc i) ≡ some key
      → CanReturn w ttl is_negative nothing fetch joins s i key
  Reach-CanReturn {s} reach i key h = looking-CanReturn s i (s.pc i) key reach refl h
