-- ===== src/Examples/Storm.antt =====
-- The theorems on a storm of logins, at two callers that look up the same key.
use continuum_plugin_whmcs_l.Prelude.{
  ◌≤◌, ℕ, String, List, [], ◌∷◌, Option, none, some, ok, ◌≡◌, refl, update,
}
use native.Mathlib.Decide.{ℕ_discrete}
use continuum_plugin_whmcs_l.Prelude.Steps.{Steps}
use continuum_plugin_whmcs_l.Whmcs.Http.{WhmcsError}
use continuum_plugin_whmcs_l.Whmcs.Types.{Client}
use continuum_plugin_whmcs_l.Whmcs.Entitlements.{expiry, negative_cached, no_client, answered}
use continuum_plugin_whmcs_l.Whmcs.Entitlements.Laws.{IsMissed}
use continuum_plugin_whmcs_l.Whmcs.Storm.{
  under_way, landed, unborn, Storm, Pc, idle, asked, entering, waiting, flying, fetching, fetched,
  landing, returned, call, miss, lead, follow, flight_miss, ask, settle, land, share, calm, pick,
  Reach, begun, later,
}
use continuum_plugin_whmcs_l.Whmcs.Storm.Invariant.{Sourced}
use continuum_plugin_whmcs_l.Whmcs.Storm.Safety.{Reach-fetching_alone, Reach-returned-Sourced}
use continuum_plugin_whmcs_l.Whmcs.Storm.Landing.{CanReturn}
use continuum_plugin_whmcs_l.Whmcs.Storm.Once.{open_asks, asks, Reach-asks}
use continuum_plugin_whmcs_l.Whmcs.Storm.Progress.{Reach-CanReturn}
use continuum_plugin_whmcs_l.Examples.Flights.{flies, search, search-IsSingleflight}
use continuum_plugin_whmcs_l.Examples.{Wire, world, wire}

abbrev someone : Option Client
someone = some (record { id = "7"; email = "a@b" })

abbrev find : String → Steps Wire WhmcsError (Option Client)
find key s = (ok someone, s)

abbrev places : List (ℕ × Pc (Option Client)) → ℕ → Pc (Option Client)
places [] = λ i. idle
places ((i, p) ∷ ps) = update (places ps) i p

-- Caller 0 asks the API, and caller 1 waits for it.
abbrev both_in : Storm (Option Client) Wire
both_in = record {
  memory = record (calm (Option Client) wire).memory {
    started = 1;
    flights = update (λ n. unborn) 0 (under_way "a@b" 0);
  };
  pc = places (
      (0, fetching "a@b" 0 0)
      ∷ (1, waiting "a@b" 0 0)
      ∷ (1, entering "a@b" 0)
      ∷ (0, flying "a@b" 0 0)
      ∷ (0, entering "a@b" 0)
      ∷ (1, asked "a@b" 0)
      ∷ (0, asked "a@b" 0)
      ∷ []);
}

both_in_reached : Reach world 5 (no_client world 5) none find search wire both_in
unfolding negative_cached expiry ℕ_discrete search flies
both_in_reached =
    later
      (later
        (later
          (later
            (later (later (later begun (pick 0 (call "a@b"))) (pick 1 (call "a@b")))
              (pick 0 (miss refl)))
            (pick 0 (lead refl)))
          (pick 1 (miss refl)))
        (pick 1 (follow {n = 0} refl)))
      (pick 0 (flight_miss refl))

-- The flight has landed, and both have its result.
abbrev both_out : Storm (Option Client) Wire
both_out = record {
  memory = record both_in.memory {
    landings = 1;
    flights = update (update (λ n. unborn) 0 (under_way "a@b" 0)) 0 (landed "a@b" (ok someone) 0);
    answers = record { flight = 0; key = "a@b"; out = ok someone } ∷ [];
  };
  pc =
      update
        (update
          (update (update both_in.pc 0 (fetched "a@b" 0 0 (ok someone))) 0
            (landing "a@b" 0 0 (ok someone)))
          0 (returned "a@b" 0 (ok someone)))
        1 (returned "a@b" 0 (ok someone));
}

both_out_reached : Reach world 5 (no_client world 5) none find search wire both_out
unfolding answered ℕ_discrete
both_out_reached =
    later (later (later (later both_in_reached (pick 0 ask)) (pick 0 settle)) (pick 0 land))
      (pick 1 (share {n = 0} {t = 0} refl))

Reach-fetching_alone_example : IsMissed world 5 "a@b" both_in.memory.held × ◌≡◌ {A = ℕ} 0 0
unfolding ℕ_discrete
Reach-fetching_alone_example =
    Reach-fetching_alone world 5 (no_client world 5) none find search search-IsSingleflight
      both_in_reached 0 0 0 0 0 "a@b" refl refl

Reach-returned-Sourced_example :
    Sourced (no_client world 5) none both_out.memory "a@b" 0 (ok someone)
unfolding ℕ_discrete
Reach-returned-Sourced_example =
    Reach-returned-Sourced world 5 (no_client world 5) none find search search-IsSingleflight
      both_out_reached 1 "a@b" 0 (ok someone) refl

Reach-CanReturn_example : CanReturn world 5 (no_client world 5) none find search both_in 1 "a@b"
unfolding ℕ_discrete
Reach-CanReturn_example =
    Reach-CanReturn world 5 (no_client world 5) none find search search-IsSingleflight
      both_in_reached 1 "a@b" refl

-- Caller 0 has its answer, and its flight has not landed.
abbrev just_asked : Storm (Option Client) Wire
just_asked = record {
  memory = record both_in.memory {
    answers = record { flight = 0; key = "a@b"; out = ok someone } ∷ [];
  };
  pc = update both_in.pc 0 (fetched "a@b" 0 0 (ok someone));
}

just_asked_reached : Reach world 5 (no_client world 5) none find search wire just_asked
unfolding ℕ_discrete
just_asked_reached = later both_in_reached (pick 0 ask)

Reach-asks_example :
    (open_asks just_asked.memory.flights "a@b" just_asked.memory.answers ≤ 1)
    × (asks 0 just_asked.memory.answers ≤ 1)
Reach-asks_example =
    Reach-asks world 5 (no_client world 5) none find search search-IsSingleflight just_asked_reached
      "a@b" 0
