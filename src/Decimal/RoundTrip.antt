-- ===== src/Decimal/RoundTrip.antt =====
-- Printing an `int` and reading it back.
use Prim.Native.Char.{code}
use Prim.Native.String.{◌∷◌}
use continuum_plugin_whmcs_l.Prelude.{
  ℕ, zero, suc, ◌+◌, ◌*◌, ◌/◌, ◌%◌, ◌<◌, String, ◌≡◌, refl, ap, ◌∙◌, true, List, ◌∷◌, some, arith,
  ltb, Bool-cases, inl, inr,
}
use continuum_plugin_whmcs_l.Prelude.Int.{ℤ, pos, negsuc, IsInt, int_limit}
use continuum_plugin_whmcs_l.Decimal.{
  codes, digit, render, itoa, is_digit, digits_value, unsigned, in_range, atoi_codes, atoi,
}

pub code-digit : (d : ℕ) → d < 10 → code (digit d) ≡ 48 + d
unfolding digit
code-digit zero h = refl
code-digit (suc zero) h = refl
code-digit (suc (suc zero)) h = refl
code-digit (suc (suc (suc zero))) h = refl
code-digit (suc (suc (suc (suc zero)))) h = refl
code-digit (suc (suc (suc (suc (suc zero))))) h = refl
code-digit (suc (suc (suc (suc (suc (suc zero)))))) h = refl
code-digit (suc (suc (suc (suc (suc (suc (suc zero))))))) h = refl
code-digit (suc (suc (suc (suc (suc (suc (suc (suc zero)))))))) h = refl
code-digit (suc (suc (suc (suc (suc (suc (suc (suc (suc n))))))))) h =
    let e : n ≡ 0 = omega arith in rw e refl

digits_value-digit :
    (a d : ℕ) (cs : List ℕ)
    → d < 10
    → digits_value a (code (digit d) ∷ cs) ≡ digits_value (a * 10 + d) cs
unfolding digits_value
digits_value-digit a d cs h = rw (code-digit d h) (ground arith)

digits_value_cong : (a b : ℕ) (cs : List ℕ) → a ≡ b → digits_value a cs ≡ digits_value b cs
digits_value_cong a b cs e = ap (λ x. digits_value x cs) e

digits_value-render :
    (fuel n : ℕ) (acc : String)
    → n < fuel
    → digits_value 0 (codes (render fuel n acc)) ≡ digits_value n (codes acc)
unfolding render
digits_value-render zero n acc h = absurd (omega arith)
digits_value-render (suc fuel) n acc h = elim (Bool-cases (ltb n 10)) [
  | inl small ↦ rw small (
      digits_value-digit 0 n (codes acc) (ground arith)
      ∙ digits_value_cong (0 * 10 + n) n (codes acc) (omega arith))
  | inr large ↦ rw large (
      digits_value-render fuel (n / 10) (digit (n % 10) ∷ acc) (ground arith)
      ∙ digits_value-digit (n / 10) (n % 10) (codes acc) (omega arith)
      ∙ digits_value_cong (n / 10 * 10 + n % 10) n (codes acc) (omega arith))
]

-- What is printed begins with a digit.
render-first :
    (fuel n : ℕ) (acc : String)
    → n < fuel
    → (c : ℕ) × (cs : List ℕ) × (codes (render fuel n acc) ≡ c ∷ cs) × (is_digit c ≡ true)
unfolding render
render-first zero n acc h = absurd (omega arith)
render-first (suc fuel) n acc h = elim (Bool-cases (ltb n 10)) [
  | inl small ↦
      rw small (code (digit n), codes acc, refl, rw (code-digit n (ground arith)) (ground arith))
  | inr large ↦ rw large (render-first fuel (n / 10) (digit (n % 10) ∷ acc) (ground arith))
]

unsigned-render : (n : ℕ) → unsigned (codes (render (suc n) n "")) ≡ some n
unfolding unsigned
unsigned-render n =
    let (c, cs, e, d) = render-first (suc n) n "" (omega arith) in
    let value : digits_value 0 (c ∷ cs) ≡ some n =
      rw e at (digits_value-render (suc n) n "" (omega arith)) in
    rw e value

atoi_codes_of_digit :
    (c : ℕ) (cs : List ℕ) → is_digit c ≡ true → atoi_codes (c ∷ cs) ≡ in_range (unsigned (c ∷ cs))
unfolding atoi_codes
atoi_codes_of_digit c cs d = ground arith

atoi-itoa_pos : (n : ℕ) → n < int_limit → atoi (itoa (pos n)) ≡ some (pos n)
unfolding atoi itoa
atoi-itoa_pos n h =
    let (c, cs, e, d) = render-first (suc n) n "" (omega arith) in
    let value : unsigned (c ∷ cs) ≡ some n = rw e at (unsigned-render n) in
    rw e (atoi_codes_of_digit c cs d ∙ rw value (ground arith))

atoi-itoa_neg : (n : ℕ) → n < int_limit → atoi (itoa (negsuc n)) ≡ some (negsuc n)
unfolding atoi itoa
atoi-itoa_neg n h = rw (unsigned-render (suc n)) (ground arith)

-- Every `int` is read back from its decimal form as it was.
pub atoi-itoa : (z : ℤ) → IsInt z → atoi (itoa z) ≡ some z
atoi-itoa (pos n) h = atoi-itoa_pos n h
atoi-itoa (negsuc n) h = atoi-itoa_neg n h

-- Two `int`s with the same decimal form are the same.
pub itoa_inj : (y z : ℤ) → IsInt y → IsInt z → itoa y ≡ itoa z → y ≡ z
itoa_inj y z hy hz e = cc (atoi-itoa y hy, atoi-itoa z hz)
