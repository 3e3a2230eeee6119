-- ===== src/Runtime/Address/Ranges.antt =====
-- The addresses that `isInternalIP` names, as ranges of 32-bit numbers.
use continuum_plugin_whmcs_l.Prelude.{ℕ, ◌+◌, ◌*◌, ◌≤◌, ◌<◌, ◌≡◌, ◌⊎◌, ◌↔◌, true, arith}
use continuum_plugin_whmcs_l.Runtime.Address.{v4, is_internal_ip}

-- The number of an IPv4 address.
abbrev pub number : ℕ → ℕ → ℕ → ℕ → ℕ
number a b c d = a * 16_777_216 + b * 65_536 + c * 256 + d

abbrev pub InRange : ℕ → ℕ → ℕ → Type 0
InRange low high n = (low ≤ n) × (n ≤ high)

-- 127.0.0.0/8, 0.0.0.0, 169.254.0.0/16, 224.0.0.0/24, 10.0.0.0/8, 172.16.0.0/12, 192.168.0.0/16
abbrev pub IsInternalNumber : ℕ → Type 0
IsInternalNumber n =
    InRange 2_130_706_432 2_147_483_647 n
    ⊎ (n ≡ 0)
    ⊎ InRange 2_851_995_648 2_852_061_183 n
    ⊎ InRange 3_758_096_384 3_758_096_639 n
    ⊎ InRange 167_772_160 184_549_375 n
    ⊎ InRange 2_886_729_728 2_887_778_303 n
    ⊎ InRange 3_232_235_520 3_232_301_055 n

module _ (a b c d : ℕ) (ha : a < 256) (hb : b < 256) (hc : c < 256) (hd : d < 256) where
  -- An IPv4 address is taken for internal exactly when its number lies in one of seven blocks: loopback,
  -- the zero address, link-local unicast and multicast, and the three private ones.
  pub is_internal_ip_iff : (is_internal_ip (v4 a b c d) ≡ true) ↔ IsInternalNumber (number a b c d)
  unfolding is_internal_ip
  is_internal_ip_iff = (λ h. ground arith, λ h. ground arith)
