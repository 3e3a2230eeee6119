-- ===== src/Main/Pool.antt =====
-- The pools of connections that the plugin opens and closes, and `poolPtr`
-- (cmd/silo-plugin-whmcs-login/main.go).
use continuum_plugin_whmcs_l.Prelude.{ℕ, ◌+◌, List, [], ◌∷◌, Option, none, some, eqb, if◌then◌else◌}

-- Pools by the order in which they were opened: how many have been opened, which are open, what
-- `poolPtr` holds, and the pool of the store in `storePtr`.
pub record Handles : Type 0 where
  pub opened : ℕ
  pub still_open : List ℕ
  pub current : Option ℕ
  pub stored : Option ℕ

abbrev pub no_pools : Handles
no_pools = record { opened = 0; still_open = []; current = none; stored = none }

abbrev pub open_pool : Handles → Handles
open_pool h = record h { opened = h.opened + 1; still_open = h.opened ∷ h.still_open }

unfoldable pub without : ℕ → List ℕ → List ℕ
without n [] = []
without n (m ∷ ms) = let rest = without n ms in if eqb m n then rest else m ∷ rest

-- `pool.Close()`
unfoldable pub close_pool : ℕ → Handles → Handles
unfolding without
close_pool n h = record h { still_open = without n h.still_open }

-- `storePtr.Store(st)`
abbrev pub store_on : ℕ → Handles → Handles
store_on n h = record h { stored = some n }

-- `if old := poolPtr.Swap(pool); old != nil { old.Close() }`
unfoldable pub swap_pool : ℕ → Handles → Handles
unfolding close_pool
swap_pool n h = elim h.current [
  | none ↦ record h { current = some n }
  | some old ↦ close_pool old (record h { current = some n })
]
