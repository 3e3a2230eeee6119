-- ===== src/Decimal.antt =====
-- `strconv.Itoa` and `strconv.Atoi`, for Go's 64-bit `int`.
pub mod RoundTrip
pub mod Canonical
use Prim.Native.Char.{Char, code}
use Prim.Native.String.{[], ◌∷◌}
use continuum_plugin_whmcs_l.Prelude.{
  ℕ, zero, suc, ◌+◌, ◌-◌, ◌*◌, ◌/◌, ◌%◌, String, Bool, ◌&&◌, List, [], ◌∷◌, Option, none, some, ltb,
  leb, eqb, if◌then◌else◌,
}
use continuum_plugin_whmcs_l.Prelude.Int.{ℤ, pos, negsuc, int_limit}

abbrev pub codes : String → List ℕ
codes [] = []
codes (c ∷ s) = code c ∷ codes s

unfoldable pub digit : ℕ → Char
digit zero = "0"
digit (suc zero) = "1"
digit (suc (suc zero)) = "2"
digit (suc (suc (suc zero))) = "3"
digit (suc (suc (suc (suc zero)))) = "4"
digit (suc (suc (suc (suc (suc zero))))) = "5"
digit (suc (suc (suc (suc (suc (suc zero)))))) = "6"
digit (suc (suc (suc (suc (suc (suc (suc zero))))))) = "7"
digit (suc (suc (suc (suc (suc (suc (suc (suc zero)))))))) = "8"
digit (suc (suc (suc (suc (suc (suc (suc (suc (suc n))))))))) = "9"

-- The digits of a number, put in front of a text. The fuel is above the number.
unfoldable pub render : ℕ → ℕ → String → String
unfolding digit
render zero n acc = acc
render (suc fuel) n acc =
    let rest = render fuel (n / 10) (digit (n % 10) ∷ acc) in
    if ltb n 10 then digit n ∷ acc else rest

-- `strconv.Itoa`
unfoldable pub itoa : ℤ → String
unfolding render
itoa (pos n) = render (suc n) n ""
itoa (negsuc n) = "-" ∷ render (suc (suc n)) (suc n) ""

abbrev pub is_digit : ℕ → Bool
is_digit c = leb b'0' c && leb c b'9'

unfoldable pub digits_value : ℕ → List ℕ → Option ℕ
digits_value acc [] = some acc
digits_value acc (c ∷ cs) = if is_digit c then digits_value (acc * 10 + (c - b'0')) cs else none

-- At least one digit.
unfoldable pub unsigned : List ℕ → Option ℕ
unfolding digits_value
unsigned [] = none
unsigned (c ∷ cs) = digits_value 0 (c ∷ cs)

abbrev in_range : Option ℕ → Option ℤ
in_range none = none
in_range (some n) = if ltb n int_limit then some (pos n) else none

abbrev negated : Option ℕ → Option ℤ
negated none = none
negated (some zero) = some (pos 0)
negated (some (suc n)) = if ltb n int_limit then some (negsuc n) else none

unfoldable pub atoi_codes : List ℕ → Option ℤ
unfolding unsigned
atoi_codes [] = none
atoi_codes (c ∷ cs) =
    if eqb c b'-'
    then negated (unsigned cs)
    else if eqb c b'+'
    then in_range (unsigned cs)
    else in_range (unsigned (c ∷ cs))

-- `strconv.Atoi`; `none` is an error, of syntax or of range.
unfoldable pub atoi : String → Option ℤ
unfolding atoi_codes
atoi s = atoi_codes (codes s)
