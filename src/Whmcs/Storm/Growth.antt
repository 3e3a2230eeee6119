-- ===== src/Whmcs/Storm/Growth.antt =====
-- A step of one caller of `EntitlementResolver` (internal/whmcs/entitlements.go): what it does to the
-- cache, and what the others may still rely on.
use continuum_plugin_whmcs_l.Prelude.{
  ℕ, String, Bool, there, some, ◌==◌, ◌≡◌, ◌⊎◌, refl, inl, inr, arith, eq_iff, update-cases,
  Bool-cases,
}
use continuum_plugin_whmcs_l.Prelude.Steps.{Steps}
use continuum_plugin_whmcs_l.Whmcs.Http.{World, WhmcsError}
use continuum_plugin_whmcs_l.Whmcs.Entitlements.{Held}
use continuum_plugin_whmcs_l.Whmcs.Entitlements.Laws.{IsMissed}
use continuum_plugin_whmcs_l.Whmcs.Entitlements.Keeps.{negative_cached_keeps, answered_keeps}
use continuum_plugin_whmcs_l.Whmcs.Storm.{
  Joins, landed, Pc, Memory, Move, hit, miss, lead, flight_hit, flight_miss, ask, settle, land,
}
use continuum_plugin_whmcs_l.Whmcs.Storm.Invariant.{carried}
use continuum_plugin_whmcs_l.Whmcs.Storm.Frame.{Grows}
use continuum_plugin_whmcs_l.Whmcs.Storm.Moves.{Mover}

module _ (w : World) (ttl : ℕ) {A : Type 0} (is_negative : A → Bool) (nothing : A)
    (fetch : String → Steps w.State WhmcsError A) (joins : Joins A) where
  module _ {m : Memory A w.State} where
    -- A step that leaves the flights and the answers.
    pub Grows-held :
        {p : Pc A} (held : Held w.State)
        → ((key : String)
            → IsMissed w ttl key m.held
            → IsMissed w ttl key held ⊎ ((n : ℕ) × (carried p ≡ some (key, n))))
        → Grows is_negative nothing w ttl p m (record m { held = held })
    Grows-held held missed = record {
      later = omega arith;
      more = λ x h. h;
      kept_landed = λ n t key r h. h;
      kept_under_way = λ n o key h. inl h;
      kept_missed = missed;
    }

  module _ {i : ℕ} {m : Memory A w.State} where
    pub Move-Grows :
        {p q : Pc A} {k : Memory A w.State}
        → Move w ttl is_negative nothing fetch joins i m p k q
        → Mover w ttl is_negative nothing fetch joins i m p
        → Grows is_negative nothing w ttl p m k
    Move-Grows (hit {key = other} cached) f =
        Grows-held _ (λ key h. inl (negative_cached_keeps w ttl other key m.held h))
    Move-Grows (miss {key = other} cached) f =
        Grows-held _ (λ key h. inl (negative_cached_keeps w ttl other key m.held h))
    Move-Grows (flight_hit {key = other} cached) f =
        Grows-held _ (λ key h. inl (negative_cached_keeps w ttl other key m.held h))
    Move-Grows (flight_miss {key = other} cached) f =
        Grows-held _ (λ key h. inl (negative_cached_keeps w ttl other key m.held h))
    Move-Grows (settle {key = other} {n} {out}) f = Grows-held _ (λ key h.
        elim (Bool-cases (other == key)) [
          | inl same ↦ inr (n, let e : other ≡ key = (eq_iff other key).0 same in cc)
          | inr apart ↦ inl (answered_keeps w ttl is_negative nothing other key out m.held apart h)
        ])
    Move-Grows (lead none_there) f = record {
      later = omega arith;
      more = λ x h. h;
      kept_landed = λ n t key r h. ground (arith, f.safe.fresh n);
      kept_under_way = λ n o key h. inl (ground (arith, f.safe.fresh n));
      kept_missed = λ key h. inl h;
    }
    Move-Grows ask f = record {
      later = omega arith;
      more = λ x h. there h;
      kept_landed = λ n t key r h. h;
      kept_under_way = λ n o key h. inl h;
      kept_missed = λ key h. inl (record { absent = h.absent });
    }
    Move-Grows (land {key} {n = o} {r = s}) f = record {
      later = omega arith;
      more = λ x h. h;
      kept_landed = λ n t other r h. ground (arith, f.owner key o refl);
      kept_under_way = λ n a other h. elim (update-cases m.flights o (landed key s m.landings) n) [
        | inl (same, new) ↦
            inr (ground (arith, f.owner key o refl), s, ground (arith, f.owner key o refl))
        | inr (apart, old) ↦ inl (ground arith)
      ];
      kept_missed = λ other h. inl h;
    }
    Move-Grows mv f = Grows-held m.held (λ key h. inl h)
