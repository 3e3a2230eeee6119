-- ===== src/Prelude/Int.antt =====
-- Signed integers, and the range of Go's 64-bit `int`.
use Prim.Native.Nat.{ℕ, zero, suc, ◌^◌, ◌<◌}
use mathlib.Core.Bool.{Bool, true, false}
use continuum_plugin_whmcs_l.Prelude.Tests.{ltb}

-- `negsuc n` is -(n + 1).
pub data ℤ : Type 0 where
  pos : ℕ → ℤ
  negsuc : ℕ → ℤ

-- n > 0
abbrev pub is_positive : ℤ → Bool
is_positive (pos (suc n)) = true
is_positive (pos zero) = false
is_positive (negsuc n) = false

abbrev pub int_limit : ℕ
int_limit = 2 ^ 63

abbrev pub IsInt : ℤ → Type 0
IsInt (pos n) = n < int_limit
IsInt (negsuc n) = n < int_limit

abbrev pub is_int : ℤ → Bool
is_int (pos n) = ltb n int_limit
is_int (negsuc n) = ltb n int_limit
