-- ===== src/Whmcs/Storm/Safety.antt =====
-- What `EntitlementResolver` (internal/whmcs/entitlements.go) promises for a storm of logins.
use continuum_plugin_whmcs_l.Prelude.{
  ℕ, String, Bool, some, Result, update, update-cases, ◌≡◌, ◌≢◌, refl, sym, ap, subst, ◌∙◌, inl,
  inr, arith,
}
use continuum_plugin_whmcs_l.Prelude.Steps.{Steps}
use continuum_plugin_whmcs_l.Whmcs.Http.{World, WhmcsError}
use continuum_plugin_whmcs_l.Whmcs.Entitlements.{expiry}
use continuum_plugin_whmcs_l.Whmcs.Entitlements.Laws.{IsMissed}
use continuum_plugin_whmcs_l.Whmcs.Storm.{
  Joins, IsSingleflight, under_way, Pc, idle, fetching, returned, Memory, Move, Storm, calm, Step,
  pick, outside, Reach, begun, later,
}
use continuum_plugin_whmcs_l.Whmcs.Storm.Invariant.{carried, IsSafe, Good, Sourced, Inv}
use continuum_plugin_whmcs_l.Whmcs.Storm.Frame.{Grows-Good}
use continuum_plugin_whmcs_l.Whmcs.Storm.Moves.{
  Mover, Move-owner, Move-owned, Move-others, Move-single, Move-fresh,
}
use continuum_plugin_whmcs_l.Whmcs.Storm.Growth.{Grows-held, Move-Grows}
use continuum_plugin_whmcs_l.Whmcs.Storm.Answers.{Move-Backed, Move-known, Move-Good}

module _ (w : World) (ttl : ℕ) {A : Type 0} (is_negative : A → Bool) (nothing : A)
    (fetch : String → Steps w.State WhmcsError A) (joins : Joins A)
    (doc : IsSingleflight A joins) where
  module _ {m : Memory A w.State} {pc : ℕ → Pc A} (inv : Inv is_negative nothing w ttl m pc) where
    pub Inv-Mover : (i : ℕ) → Mover w ttl is_negative nothing fetch joins i m (pc i)
    Inv-Mover i = record {
      documented = doc;
      safe = inv.safe;
      good = inv.good i;
      owner = inv.owner i;
      owned = inv.owned i;
    }

    -- No two callers have the same key.
    Inv-apart :
        (i j : ℕ) (key : String) (n o : ℕ)
        → carried (pc i) ≡ some (key, n)
        → carried (pc j) ≡ some (key, o)
        → i ≡ j
    Inv-apart i j key n o a b = ground (
      arith,
      inv.owner i key n a,
      inv.owner j key o b,
      inv.safe.single key n o i j (inv.owner i key n a) (inv.owner j key o b),
    )

    module _ (i : ℕ) {k : Memory A w.State} {p : Pc A}
        (mv : Move w ttl is_negative nothing fetch joins i m (pc i) k p) where
      mover : Mover w ttl is_negative nothing fetch joins i m (pc i)
      mover = Inv-Mover i

      Move-IsSafe : IsSafe is_negative nothing w ttl k
      Move-IsSafe = record {
        single = Move-single w ttl is_negative nothing fetch joins mv mover;
        fresh = Move-fresh w ttl is_negative nothing fetch joins mv mover;
        backed = Move-Backed w ttl is_negative nothing fetch joins mv mover;
        known = Move-known w ttl is_negative nothing fetch joins mv mover;
      }

      Move-Good_others : (j : ℕ) → i ≢ j → Good is_negative nothing w ttl k (pc j)
      Move-Good_others j apart =
          Grows-Good is_negative nothing w ttl
            (Move-Grows w ttl is_negative nothing fetch joins mv mover) (pc j)
            (λ key n o a b. apart (Inv-apart i j key n o b a)) (inv.good j)

      Move-owner_others :
          (j : ℕ) (key : String) (n : ℕ)
          → i ≢ j
          → carried (pc j) ≡ some (key, n)
          → k.flights n ≡ under_way key j
      Move-owner_others j key n apart a =
          elim ((Move-Grows w ttl is_negative nothing fetch joins mv mover).kept_under_way n j key
            (inv.owner j key n a)) [
              | inl still ↦ still
              | inr (mine, r, over) ↦ absurd (apart (Inv-apart i j key n n mine a))
            ]

      Move-Inv : Inv is_negative nothing w ttl k (update pc i p)
      Move-Inv = record {
        safe = Move-IsSafe;
        owner = λ j key n h. elim (update-cases pc i p j) [
          | inl (same, new) ↦
              subst (λ o. k.flights n ≡ under_way key o) same
                (Move-owner w ttl is_negative nothing fetch joins mv mover key n
                  (ap carried (sym new) ∙ h))
          | inr (apart, old) ↦ Move-owner_others j key n apart (ap carried (sym old) ∙ h)
        ];
        owned = λ j key n h. elim (update-cases pc i p j) [
          | inl (same, new) ↦
              ap carried new
              ∙ Move-owned w ttl is_negative nothing fetch joins mv mover key n
                  (subst (λ o. k.flights n ≡ under_way key o) (sym same) h)
          | inr (apart, old) ↦
              ap carried old
              ∙ inv.owned j key n
                  (Move-others w ttl is_negative nothing fetch joins mv mover key n j apart h)
        ];
        good = λ j. elim (update-cases pc i p j) [
          | inl (same, new) ↦ rw new (Move-Good w ttl is_negative nothing fetch joins mv mover)
          | inr (apart, old) ↦ rw old (Move-Good_others j apart)
        ];
      }

  -- The world outside changes nothing that the resolver holds.
  outside-Inv :
      (s : Storm A w.State) (x : w.State)
      → Inv is_negative nothing w ttl s.memory s.pc
      → Inv is_negative nothing w ttl
          (record s.memory { held = record s.memory.held { world = x } })
          s.pc
  outside-Inv s x inv = record {
    safe = record {
      single = inv.safe.single;
      fresh = inv.safe.fresh;
      backed = inv.safe.backed;
      known = inv.safe.known;
    };
    owner = inv.owner;
    owned = inv.owned;
    good = λ i.
        Grows-Good is_negative nothing w ttl
          (Grows-held w ttl is_negative nothing fetch joins {p = idle} _
            (λ key h. inl (record { absent = h.absent })))
          (s.pc i) (λ key n o a b. absurd (cc)) (inv.good i);
  }

  Step-Inv :
      {s t : Storm A w.State}
      → Step w ttl is_negative nothing fetch joins s t
      → Inv is_negative nothing w ttl s.memory s.pc
      → Inv is_negative nothing w ttl t.memory t.pc
  Step-Inv (pick i mv) inv = Move-Inv inv i mv
  Step-Inv {s} (outside x) inv = outside-Inv s x inv

  calm-Inv : (x : w.State) → Inv is_negative nothing w ttl (calm A x).memory (calm A x).pc
  unfolding expiry
  calm-Inv x = record {
    safe = record {
      single = λ key n k i j a b. absurd (cc);
      fresh = λ n h. refl;
      backed = λ key n t r h. absurd (cc);
      known = λ key y h. absurd (cc);
    };
    owner = λ i key n h. absurd (cc);
    owned = λ i key n h. absurd (cc);
    good = λ i. tt;
  }

  pub Reach-Inv :
      {x : w.State} {s : Storm A w.State}
      → Reach w ttl is_negative nothing fetch joins x s
      → Inv is_negative nothing w ttl s.memory s.pc
  Reach-Inv {x} begun = calm-Inv x
  Reach-Inv (later r st) = Step-Inv st (Reach-Inv r)

  -- At every moment of a storm of lookups: while a caller asks the API about a key, unless the cache is off
  -- there is no negative answer for the key in it, and whoever runs a flight for the key is that caller.
  pub Reach-fetching_alone :
      {x : w.State} {s : Storm A w.State} (r : Reach w ttl is_negative nothing fetch joins x s)
      (i j n o since : ℕ) (key : String)
      → s.pc i ≡ fetching key since n
      → carried (s.pc j) ≡ some (key, o)
      → IsMissed w ttl key s.memory.held × (i ≡ j)
  Reach-fetching_alone {s = s} r i j n o since key at flies =
      let inv = Reach-Inv r in
      let good = subst (Good is_negative nothing w ttl s.memory) at (inv.good i) in
      (good.1, Inv-apart inv i j key n o (ap carried at) flies)

  -- A caller that returns at any moment of a storm returns what the API has answered, for this key, to a
  -- flight that had not landed when the caller called; or it returns the negative answer, and the API has
  -- once given that for this key.
  pub Reach-returned-Sourced :
      {x : w.State} {s : Storm A w.State} (reach : Reach w ttl is_negative nothing fetch joins x s)
      (i : ℕ) (key : String) (since : ℕ) (r : Result WhmcsError A)
      → s.pc i ≡ returned key since r
      → Sourced is_negative nothing s.memory key since r
  Reach-returned-Sourced {s} reach i key since r at =
      subst (Good is_negative nothing w ttl s.memory) at ((Reach-Inv reach).good i)
