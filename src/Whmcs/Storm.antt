-- ===== src/Whmcs/Storm.antt =====
-- `EntitlementResolver` (internal/whmcs/entitlements.go) under many lookups at the same time: one of its
-- two lookups, with its map of negative answers and its flights. The callers are numbered, and each step
-- of one takes the lock once, asks the API once, or enters or leaves a flight. Which flight a call of
-- `singleflight.Group.Do` joins is a parameter; a call that joins none runs its function, and one that
-- joins a flight returns the result of that.
pub mod Invariant
pub mod Frame
pub mod Moves
pub mod Growth
pub mod Answers
pub mod Safety
pub mod Landing
pub mod Progress
pub mod Once
use continuum_plugin_whmcs_l.Prelude.{
  ℕ, ◌+◌, ◌<◌, String, Bool, true, false, List, [], ◌∷◌, Option, none, some, Result, ok, update,
  ◌≡◌, ◌≢◌,
}
use continuum_plugin_whmcs_l.Prelude.Steps.{Steps}
use continuum_plugin_whmcs_l.Whmcs.Http.{World, WhmcsError}
use continuum_plugin_whmcs_l.Whmcs.Entitlements.{Held, negative_cached, answered}

module _ (A : Type 0) where
  -- A flight under way has the caller that runs its function; one that has landed has the result and its
  -- place in the order of the landings.
  pub data Flight : Type 0 where
    unborn : Flight
    under_way : String → ℕ → Flight
    landed : String → Result WhmcsError A → ℕ → Flight

  -- What `Group.Do` does with a call for a key, when so many flights have been started and this is what
  -- has become of them: the call joins a flight, or starts one.
  abbrev pub Joins : Type 0
  Joins = String → ℕ → (ℕ → Flight) → Option ℕ

  -- "Only one execution is in-flight for a given key at a time. If a duplicate comes in, the duplicate
  -- caller waits for the original."
  pub record IsSingleflight (joins : Joins) : Type 0 where
    pub joined :
        (key : String) (started n : ℕ) (flights : ℕ → Flight)
        → joins key started flights ≡ some n
        → (o : ℕ) × (flights n ≡ under_way key o)
    pub alone :
        (key : String) (started n o : ℕ) (flights : ℕ → Flight)
        → joins key started flights ≡ none
        → n < started
        → flights n ≢ under_way key o

  -- Where a caller stands in its lookup of a key: the key, how many flights had landed when it called, the
  -- flight it has started or joined, and what it has got.
  pub data Pc : Type 0 where
    idle : Pc
    asked entering : String → ℕ → Pc
    waiting flying fetching : String → ℕ → ℕ → Pc
    fetched landing : String → ℕ → ℕ → Result WhmcsError A → Pc
    returned : String → ℕ → Result WhmcsError A → Pc

  -- An answer of the API, with the flight that asked.
  pub record Answer : Type 0 where
    pub flight : ℕ
    pub key : String
    pub out : Result WhmcsError A

  -- `answers` is what the API has answered so far.
  pub record Memory (S : Type 0) : Type 0 where
    pub held : Held S
    pub started : ℕ
    pub landings : ℕ
    pub flights : ℕ → Flight
    pub answers : List Answer

  pub record Storm (S : Type 0) : Type 0 where
    pub memory : Memory S
    pub pc : ℕ → Pc

  -- A resolver that `NewEntitlementResolver` has made.
  abbrev pub calm : {S : Type 0} → S → Storm S
  calm x = record {
    memory = record {
      held = record { negatives = []; world = x };
      started = 0;
      landings = 0;
      flights = λ n. unborn;
      answers = [];
    };
    pc = λ i. idle;
  }

module _ (w : World) (ttl : ℕ) {A : Type 0} (is_negative : A → Bool) (nothing : A)
    (fetch : String → Steps w.State WhmcsError A) (joins : Joins A) where
  -- One step of caller `i` in `GetClientByEmail` or `GetClientsProducts`.
  pub data Move (i : ℕ) (m : Memory A w.State) : Pc A → Memory A w.State → Pc A → Type 0 where
    call : (key : String) → Move i m idle m (asked key m.landings)
    hit :
        {key : String} {since : ℕ}
        → (negative_cached w ttl key m.held).0 ≡ true
        → Move i m
            (asked key since)
            (record m { held = (negative_cached w ttl key m.held).1 })
            (returned key since (ok nothing))
    miss :
        {key : String} {since : ℕ}
        → (negative_cached w ttl key m.held).0 ≡ false
        → Move i m
            (asked key since)
            (record m { held = (negative_cached w ttl key m.held).1 })
            (entering key since)
    lead :
        {key : String} {since : ℕ}
        → joins key m.started m.flights ≡ none
        → Move i m
            (entering key since)
            (record m {
              started = m.started + 1;
              flights = update m.flights m.started (under_way key i);
            })
            (flying key since m.started)
    follow :
        {key : String} {since n : ℕ}
        → joins key m.started m.flights ≡ some n
        → Move i m (entering key since) m (waiting key since n)
    flight_hit :
        {key : String} {since n : ℕ}
        → (negative_cached w ttl key m.held).0 ≡ true
        → Move i m
            (flying key since n)
            (record m { held = (negative_cached w ttl key m.held).1 })
            (landing key since n (ok nothing))
    flight_miss :
        {key : String} {since n : ℕ}
        → (negative_cached w ttl key m.held).0 ≡ false
        → Move i m
            (flying key since n)
            (record m { held = (negative_cached w ttl key m.held).1 })
            (fetching key since n)
    ask :
        {key : String} {since n : ℕ}
        → Move i m
            (fetching key since n)
            (record m {
              held = record m.held { world = (fetch key m.held.world).1 };
              answers =
                  record { flight = n; key = key; out = (fetch key m.held.world).0 } ∷ m.answers;
            })
            (fetched key since n (fetch key m.held.world).0)
    settle :
        {key : String} {since n : ℕ} {out : Result WhmcsError A}
        → Move i m
            (fetched key since n out)
            (record m { held = (answered w ttl is_negative nothing key out m.held).1 })
            (landing key since n (answered w ttl is_negative nothing key out m.held).0)
    land :
        {key : String} {since n : ℕ} {r : Result WhmcsError A}
        → Move i m
            (landing key since n r)
            (record m {
              landings = m.landings + 1;
              flights = update m.flights n (landed key r m.landings);
            })
            (returned key since r)
    share :
        {key : String} {since n t : ℕ} {r : Result WhmcsError A}
        → m.flights n ≡ landed key r t
        → Move i m (waiting key since n) m (returned key since r)
    leave :
        {key : String} {since : ℕ} {r : Result WhmcsError A}
        → Move i m (returned key since r) m idle

  -- The callers move in any order, and between their steps the world outside changes as it likes.
  pub data Step (s : Storm A w.State) : Storm A w.State → Type 0 where
    pick :
        (i : ℕ) {m : Memory A w.State} {p : Pc A}
        → Move i s.memory (s.pc i) m p
        → Step s (record { memory = m; pc = update s.pc i p })
    outside :
        (x : w.State)
        → Step s (record {
          memory = record s.memory { held = record s.memory.held { world = x } };
          pc = s.pc;
        })

  pub data Reach (x : w.State) : Storm A w.State → Type 0 where
    begun : Reach x (calm A x)
    later : {s t : Storm A w.State} → Reach x s → Step s t → Reach x t
