-- ===== src/Examples/Herd.antt =====
-- The theorems on a herd at the product cache: an admin refreshes it while another reads it.
use native.Mathlib.Decide.{ℕ_discrete}
use continuum_plugin_whmcs_l.Prelude.{
  ℕ, none, List, [], ◌∷◌, Member, All, some, ok, update, ◌≡◌, refl,
}
use continuum_plugin_whmcs_l.Prelude.Int.{pos}
use continuum_plugin_whmcs_l.Prelude.Steps.{Steps}
use continuum_plugin_whmcs_l.Whmcs.Http.{World, WhmcsError}
use continuum_plugin_whmcs_l.Whmcs.Types.{Product}
use continuum_plugin_whmcs_l.Whmcs.Cache.{is_fresh}
use continuum_plugin_whmcs_l.Whmcs.Cache.Laws.{IsConsistent}
use continuum_plugin_whmcs_l.Whmcs.Storm.{unborn, under_way}
use continuum_plugin_whmcs_l.Whmcs.Herd.{
  by_hand, for_flight, Place, outside, reading, entering, flying, fetching, timing, noting, landing,
  returned, dated, attempted, shown, call_get, call_refresh, stale, lead, flight_stale, ask,
  look_at_clock, note, read_cached_at, read_last_attempt, read_last_error, Herd, opened, pick,
  change, Reach, begun, later,
}
use continuum_plugin_whmcs_l.Whmcs.Herd.Invariant.{replay}
use continuum_plugin_whmcs_l.Whmcs.Herd.Safety.{Reach-replay, Reach-returned}
use continuum_plugin_whmcs_l.Examples.Flights.{flies, search, search-IsSingleflight}
use continuum_plugin_whmcs_l.Examples.{Wire, world, wire}

abbrev gold : List Product
gold =
    record {
      pid = pos 12;
      gid = pos 1;
      name = "Gold";
      type_name = "";
      pay_type = "";
      group_name = "";
    }
    ∷ []

abbrev shop : Steps Wire WhmcsError (List Product)
shop s = (ok gold, s)

abbrev places : List (ℕ × Place) → ℕ → Place
places [] = λ i. outside
places ((i, p) ∷ ps) = update (places ps) i p

-- The reader's flight is about to ask, and the admin's call has been answered.
abbrev asking : Herd Wire
asking = record {
  shared = record (opened wire).shared {
    started = 1;
    flights = update (λ n. unborn) 0 (under_way "get" 1);
    answers = ok gold ∷ [];
  };
  place = places (
      (0, timing by_hand (ok gold))
      ∷ (1, fetching (for_flight 0))
      ∷ (1, flying 0)
      ∷ (1, entering)
      ∷ (0, fetching by_hand)
      ∷ (1, reading)
      ∷ []);
}

asking_reached : Reach world 300 shop search wire asking
unfolding is_fresh ℕ_discrete search flies
asking_reached =
    later
      (later
        (later
          (later (later (later begun (pick 1 call_get)) (pick 0 call_refresh))
            (pick 1 (stale refl)))
          (pick 1 (lead refl)))
        (pick 1 (flight_stale refl)))
      (pick 0 ask)

abbrev noted_both : Herd Wire
noted_both = record {
  shared = record asking.shared {
    cache = record asking.shared.cache { products = gold; at = some 0; last_attempt = some 0 };
    answers = ok gold ∷ ok gold ∷ [];
    notes = (ok gold, 0) ∷ (ok gold, 0) ∷ [];
  };
  place =
      update
        (update
          (update
            (update (update asking.place 1 (timing (for_flight 0) (ok gold))) 1
              (noting (for_flight 0) (ok gold) 0))
            1 (landing 0 (ok gold)))
          0 (noting by_hand (ok gold) 0))
        0 (returned (ok gold));
}

noted_both_reached : Reach world 300 shop search wire noted_both
unfolding ℕ_discrete
noted_both_reached =
    later
      (later
        (later (later (later asking_reached (pick 1 ask)) (pick 1 look_at_clock)) (pick 1 note))
        (pick 0 look_at_clock))
      (pick 0 note)

Reach-replay_example :
    (noted_both.shared.cache ≡ replay world noted_both.shared.notes wire)
    × IsConsistent noted_both.shared.cache
    × All (λ n. Member n.0 noted_both.shared.answers) noted_both.shared.notes
Reach-replay_example = Reach-replay world 300 shop search search-IsSingleflight noted_both_reached

Reach-returned_example : Member (ok gold) noted_both.shared.answers
unfolding ℕ_discrete
Reach-returned_example =
    Reach-returned world 300 shop search search-IsSingleflight noted_both_reached 0 (ok gold) refl

-- A world whose clock goes by what has been sent.
abbrev late : World
late = record world { now = λ s. (s.sent, s) }

abbrev shown_once : Herd Wire
shown_once = record {
  shared = record (opened wire).shared {
    cache = record {
      products = gold;
      at = some 5;
      last_attempt = some 5;
      last_err = none;
      world = record wire { sent = 5 };
    };
    answers = ok gold ∷ ok gold ∷ [];
    notes = (ok gold, 5) ∷ (ok gold, 0) ∷ [];
  };
  place = places (
      (0, shown (ok gold) (some 0) (some 5) none)
      ∷ (0, attempted (ok gold) (some 0) (some 5))
      ∷ (1, returned (ok gold))
      ∷ (1, noting by_hand (ok gold) 5)
      ∷ (1, timing by_hand (ok gold))
      ∷ (1, fetching by_hand)
      ∷ (0, dated (ok gold) (some 0))
      ∷ (0, returned (ok gold))
      ∷ (0, noting by_hand (ok gold) 0)
      ∷ (0, timing by_hand (ok gold))
      ∷ (0, fetching by_hand)
      ∷ []);
}

-- A refresh between two reads of the cache: the answer has no error, and its last attempt is later than
-- its last success.
torn : Reach late 300 shop search wire shown_once
unfolding ℕ_discrete
torn =
    let noted_once =
      later (later (later (later begun (pick 0 call_refresh)) (pick 0 ask)) (pick 0 look_at_clock))
        (pick 0 note) in
    let noted_twice =
      later
        (later
          (later
            (later
              (later (later noted_once (pick 0 read_cached_at)) (change (record wire { sent = 5 })))
              (pick 1 call_refresh))
            (pick 1 ask))
          (pick 1 look_at_clock))
        (pick 1 note) in
    later (later noted_twice (pick 0 read_last_attempt)) (pick 0 read_last_error)
