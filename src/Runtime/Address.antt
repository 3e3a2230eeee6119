-- ===== src/Runtime/Address.antt =====
-- IP addresses of `net` and `isInternalIP` (internal/runtime/runtime.go).
pub mod Ranges
use continuum_plugin_whmcs_l.Prelude.{
  ℕ, ◌/◌, ◌%◌, Bool, true, false, ◌&&◌, ◌||◌, List, [], ◌∷◌, eqb, if◌then◌else◌,
}

-- A `net.IP` after `To4`: four bytes, or the sixteen bytes of an address that has no such form.
pub data Ip : Type 0 where
  v4 : ℕ → ℕ → ℕ → ℕ → Ip
  v6 : List ℕ → Ip

-- The bytes are `n` zeros and then `last`.
abbrev ends_zeros : ℕ → List ℕ → Bool
ends_zeros last [] = false
ends_zeros last (b ∷ []) = eqb b last
ends_zeros last (b ∷ c ∷ bs) = eqb b 0 && ends_zeros last (c ∷ bs)

-- The first two bytes meet the tests.
abbrev heads : (ℕ → Bool) → (ℕ → Bool) → List ℕ → Bool
heads p q (a ∷ b ∷ bs) = p a && q b
heads p q _ = false

abbrev anything : ℕ → Bool
anything _ = true

-- `IP.IsLoopback`
unfoldable pub is_loopback : Ip → Bool
is_loopback (v4 a b c d) = eqb a 127
is_loopback (v6 bs) = ends_zeros 1 bs

-- `IP.IsUnspecified`
unfoldable pub is_unspecified : Ip → Bool
is_unspecified (v4 a b c d) = eqb a 0 && eqb b 0 && eqb c 0 && eqb d 0
is_unspecified (v6 bs) = ends_zeros 0 bs

-- `IP.IsLinkLocalUnicast`; `b & 0xc0 == 0x80`
unfoldable pub is_link_local_unicast : Ip → Bool
is_link_local_unicast (v4 a b c d) = eqb a 169 && eqb b 254
is_link_local_unicast (v6 bs) = heads (λ a. eqb a 0xfe) (λ b. eqb (b / 64) 2) bs

-- `IP.IsLinkLocalMulticast`; `b & 0x0f == 0x02`
unfoldable pub is_link_local_multicast : Ip → Bool
is_link_local_multicast (v4 a b c d) = eqb a 224 && eqb b 0 && eqb c 0
is_link_local_multicast (v6 bs) = heads (λ a. eqb a 0xff) (λ b. eqb (b % 16) 2) bs

-- `IP.IsPrivate`; `b & 0xf0 == 16` and `a & 0xfe == 0xfc`
unfoldable pub is_private : Ip → Bool
is_private (v4 a b c d) = eqb a 10 || eqb a 172 && eqb (b / 16) 1 || eqb a 192 && eqb b 168
is_private (v6 bs) = heads (λ a. eqb (a / 2) 126) anything bs

unfoldable pub is_internal_ip : Ip → Bool
unfolding is_loopback is_unspecified is_link_local_unicast is_link_local_multicast is_private
is_internal_ip ip =
    if is_loopback ip
      || is_unspecified ip
      || is_link_local_unicast ip
      || is_link_local_multicast ip
      || is_private ip
    then true
    else false
