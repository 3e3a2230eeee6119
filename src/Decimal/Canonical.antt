-- ===== src/Decimal/Canonical.antt =====
-- The characters of decimal forms, and the range of what is read.
use Prim.Native.Char.{code}
use Prim.Native.String.{◌∷◌}
use continuum_plugin_whmcs_l.Prelude.{
  ℕ, zero, suc, ◌/◌, ◌%◌, ◌<◌, String, ◌≡◌, refl, false, List, [], ◌∷◌, Option, none, some, arith,
  ltb, eqb, Bool-cases, inl, inr,
}
use continuum_plugin_whmcs_l.Prelude.Int.{ℤ, pos, negsuc, IsInt}
use continuum_plugin_whmcs_l.Text.Plain.{NoSpace}
use continuum_plugin_whmcs_l.Text.{is_space}
use continuum_plugin_whmcs_l.Decimal.{
  codes, digit, render, itoa, unsigned, in_range, negated, atoi_codes, atoi,
}
use continuum_plugin_whmcs_l.Decimal.RoundTrip.{code-digit}

is_space-digit : (d : ℕ) → d < 10 → is_space (code (digit d)) ≡ false
is_space-digit d h = rw (code-digit d h) (ground arith)

render-NoSpace : (fuel n : ℕ) (acc : String) → n < fuel → NoSpace acc → NoSpace (render fuel n acc)
unfolding render
render-NoSpace zero n acc h k = k
render-NoSpace (suc fuel) n acc h k = elim (Bool-cases (ltb n 10)) [
  | inl small ↦ rw small (is_space-digit n (ground arith), k)
  | inr large ↦ rw large (
      render-NoSpace fuel (n / 10) (digit (n % 10) ∷ acc) (ground arith)
        (is_space-digit (n % 10) (omega arith), k))
]

pub itoa-NoSpace : (z : ℤ) → NoSpace (itoa z)
unfolding itoa
itoa-NoSpace (pos n) = render-NoSpace (suc n) n "" (omega arith) tt
itoa-NoSpace (negsuc n) = (refl, render-NoSpace (suc (suc n)) (suc n) "" (omega arith) tt)

in_range-IsInt : (o : Option ℕ) (z : ℤ) → in_range o ≡ some z → IsInt z
in_range-IsInt none z h = cc
in_range-IsInt (some n) (pos m) h = ground arith
in_range-IsInt (some n) (negsuc m) h = ground arith

negated-IsInt : (o : Option ℕ) (z : ℤ) → negated o ≡ some z → IsInt z
negated-IsInt none z h = cc
negated-IsInt (some zero) (pos m) h = ground arith
negated-IsInt (some zero) (negsuc m) h = ground arith
negated-IsInt (some (suc n)) (pos m) h = ground arith
negated-IsInt (some (suc n)) (negsuc m) h = ground arith

atoi_codes-IsInt : (cs : List ℕ) (z : ℤ) → atoi_codes cs ≡ some z → IsInt z
unfolding atoi_codes
atoi_codes-IsInt [] z h = cc
atoi_codes-IsInt (c ∷ cs) z h = elim (Bool-cases (eqb c b'-')) [
  | inl minus ↦ negated-IsInt (unsigned cs) z (ground arith)
  | inr rest ↦ elim (Bool-cases (eqb c b'+')) [
    | inl plus ↦ in_range-IsInt (unsigned cs) z (ground arith)
    | inr plain ↦ in_range-IsInt (unsigned (c ∷ cs)) z (ground arith)
  ]
]

-- What `strconv.Atoi` accepts fits an `int`.
pub atoi-IsInt : (s : String) (z : ℤ) → atoi s ≡ some z → IsInt z
unfolding atoi
atoi-IsInt s z h = atoi_codes-IsInt (codes s) z h
