-- ===== src/Whmcs/Entitlements.antt =====
-- `EntitlementResolver` (internal/whmcs/entitlements.go): the lookups of a login, with a cache of the
-- negative answers. Each lookup is taken as one step here, and then `singleflight.Group.Do` is a call of
-- its function; `Whmcs.Storm` is about lookups that overlap.
pub mod Laws
pub mod Keeps
use continuum_plugin_whmcs_l.Prelude.{
  ℕ, ◌+◌, String, Bool, true, false, List, [], ◌∷◌, Option, none, some, ◌==◌, is_empty, Result, ok,
  err, ltb, eqb, if◌then◌else◌,
}
use continuum_plugin_whmcs_l.Prelude.Steps.{Steps}
use continuum_plugin_whmcs_l.Whmcs.Http.{World, WhmcsError}
use continuum_plugin_whmcs_l.Whmcs.Types.{Client, ClientProduct, EntitlementApi}

-- A `map[string]time.Time`: the keys with the times when their negative answers expire.
abbrev pub Expiries : Type 0
Expiries = List (String × ℕ)

unfoldable pub expiry : String → Expiries → Option ℕ
expiry key [] = none
expiry key ((k, t) ∷ m) = if k == key then some t else expiry key m

-- `delete(m, key)`
unfoldable pub delete : String → Expiries → Expiries
delete key [] = []
delete key ((k, t) ∷ m) = let rest = delete key m in if k == key then rest else (k, t) ∷ rest

-- `m[key] = t`
abbrev pub put : String → ℕ → Expiries → Expiries
put key t m = (key, t) ∷ delete key m

-- One of the two maps, and the outside world.
pub record Held (S : Type 0) : Type 0 where
  pub negatives : Expiries
  pub world : S

-- A time to live of zero stands for every one that is not positive.
module _ (w : World) (ttl : ℕ) where
  -- `negativeCached`, with the expiry that the map has for the key.
  abbrev pub cached_at : String → Option ℕ → Held w.State → Bool × Held w.State
  cached_at key none s = (false, s)
  cached_at key (some t) s =
      let (now, world) = w.now s.world in
      if ltb t now
      then (false, record { negatives = delete key s.negatives; world = world })
      else (true, record { negatives = s.negatives; world = world })

  unfoldable pub negative_cached : String → Held w.State → Bool × Held w.State
  negative_cached key s = if eqb ttl 0 then (false, s) else cached_at key (expiry key s.negatives) s

  unfoldable pub remember_negative : String → Held w.State → Held w.State
  remember_negative key s =
      if eqb ttl 0
      then s
      else (let (now, world) = w.now s.world in
          record { negatives = put key (now + ttl) s.negatives; world = world })

  module _ {A : Type 0} (is_negative : A → Bool) (nothing : A) where
    -- What is made of the answer of the API.
    unfoldable pub answered :
        String → Result WhmcsError A → Held w.State → Result WhmcsError A × Held w.State
    unfolding remember_negative
    answered key (err e) s = (err e, s)
    answered key (ok a) s =
        if is_negative a then (ok nothing, remember_negative key s) else (ok a, s)

    module _ (fetch : Steps w.State WhmcsError A) where
      -- The function that the flight runs: the cache is asked again first.
      unfoldable pub flight : String → Steps (Held w.State) WhmcsError A
      unfolding negative_cached answered
      flight key s =
          let (hit, s₁) = negative_cached key s in
          let (out, world) = fetch s₁.world in
          if hit then (ok nothing, s₁) else answered key out (record s₁ { world = world })

      unfoldable pub look_up : String → Steps (Held w.State) WhmcsError A
      unfolding negative_cached flight
      look_up key s =
          let (hit, s₁) = negative_cached key s in if hit then (ok nothing, s₁) else flight key s₁

  -- `c == nil || c.ID == ""`
  abbrev pub no_client : Option Client → Bool
  no_client none = true
  no_client (some c) = c.id == ""

  module _ (api : EntitlementApi w.State) where
    unfoldable pub get_client_by_email : String → Steps (Held w.State) WhmcsError (Option Client)
    unfolding look_up
    get_client_by_email email = look_up no_client none (api.get_client_by_email email) email

    unfoldable pub get_clients_products :
        String → Steps (Held w.State) WhmcsError (List ClientProduct)
    unfolding look_up
    get_clients_products client_id =
        look_up is_empty [] (api.get_clients_products client_id) client_id
