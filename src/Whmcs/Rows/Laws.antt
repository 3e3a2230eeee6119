-- ===== src/Whmcs/Rows/Laws.antt =====
-- What a row that is accepted is like.
use continuum_plugin_whmcs_l.Prelude.{
  ℕ, ◌+◌, true, List, [], ◌∷◌, Option, none, some, All, ◌==◌, ok, ◌≡◌, inl, inr, subst, arith,
  Bool-cases, Option-cases, Result-cases,
}
use continuum_plugin_whmcs_l.Prelude.Int.{ℤ, pos, negsuc, IsInt, is_int, is_positive}
use continuum_plugin_whmcs_l.Decimal.Canonical.{atoi-IsInt}
use continuum_plugin_whmcs_l.Json.{Value, null, num, str, bool, fraction, arr, obj}
use continuum_plugin_whmcs_l.Text.{trim_space}
use continuum_plugin_whmcs_l.Whmcs.Types.{ClientProduct}
use continuum_plugin_whmcs_l.Whmcs.Rows.{
  RawProduct, parse_optional_int, parse_required_positive_int, to_client_product, each_row,
}

-- The product id is a positive `int`.
pub record HasId (pid : ℤ) : Type 0 where
  pub positive : is_positive pid ≡ true
  pub fits : IsInt pid

is_int-IsInt : (z : ℤ) → is_int z ≡ true → IsInt z
is_int-IsInt (pos n) h = ground arith
is_int-IsInt (negsuc n) h = ground arith

not_zero : (n : ℤ) → some (pos 0) ≡ some n → is_positive n ≡ true → ⊥
not_zero n h p = let alike : pos 0 ≡ n = ground arith in let f = rw (← alike) at p in cc

parse_optional_int-IsInt :
    (raw : Option Value) (n : ℤ) → parse_optional_int raw ≡ some n → is_positive n ≡ true → IsInt n
unfolding parse_optional_int
parse_optional_int-IsInt none n h p = absurd (not_zero n h p)
parse_optional_int-IsInt (some (num z)) n h p = elim (Bool-cases (is_int z)) [
  | inl fits ↦
      (let same : some z ≡ some n = rw fits at h in
        let alike : z ≡ n = ground arith in subst IsInt alike (is_int-IsInt z fits))
  | inr out ↦ absurd (let f = rw out at h in cc)
]
parse_optional_int-IsInt (some null) n h p = absurd (not_zero n h p)
parse_optional_int-IsInt (some (str s)) n h p = elim (Bool-cases (trim_space s == "")) [
  | inl blank ↦ absurd (not_zero n (rw blank at h) p)
  | inr full ↦ atoi-IsInt (trim_space s) n (rw full at h)
]
parse_optional_int-IsInt (some (bool b)) n h p = absurd (cc)
parse_optional_int-IsInt (some (fraction s)) n h p = absurd (cc)
parse_optional_int-IsInt (some (arr vs)) n h p = absurd (cc)
parse_optional_int-IsInt (some (obj m)) n h p = absurd (cc)

parse_required_positive_int-HasId :
    (raw : Option Value) (n : ℤ) → parse_required_positive_int raw ≡ some n → HasId n
unfolding parse_required_positive_int
parse_required_positive_int-HasId raw n h = elim (Option-cases (parse_optional_int raw)) [
  | inl bad ↦ absurd (let f = rw bad at h in cc)
  | inr (z, read) ↦ elim (Bool-cases (is_positive z)) [
    | inr small ↦ absurd (let f = rw (read, small) at h in cc)
    | inl large ↦
        let same : some z ≡ some n = rw (read, large) at h in
        let alike : z ≡ n = ground arith in
        subst HasId alike
          (record { positive = large; fits = parse_optional_int-IsInt raw z read large })
  ]
]

to_client_product-HasId :
    (r : RawProduct) (p : ClientProduct) → to_client_product r ≡ some p → HasId p.pid
unfolding to_client_product
to_client_product-HasId r p h = elim (Option-cases (parse_required_positive_int r.pid)) [
  | inl bad ↦ absurd (let f = rw bad at h in cc)
  | inr (n, read) ↦
      let same : some (record { pid = n; name = r.name; status = r.status }) ≡ some p =
        rw read at h in
      let alike : record { pid = n; name = r.name; status = r.status } ≡ p = ground arith in
      subst (λ q. HasId q.pid) alike (parse_required_positive_int-HasId r.pid n read)
]

-- Every row of the result meets what the conversion of a row ensures.
pub each_row-All :
    {A : Type 0} (P : A → Type 0) (convert : RawProduct → Option A) (i : ℕ) (rs : List RawProduct)
    (out : List A)
    → ((r : RawProduct) (a : A) → convert r ≡ some a → P a)
    → each_row convert i rs ≡ ok out
    → All P out
unfolding each_row
each_row-All P convert i [] out good h = let same : [] ≡ out = ground arith in subst (All P) same tt
each_row-All P convert i (r ∷ rs) out good h = elim (Option-cases (convert r)) [
  | inl bad ↦ absurd (let f = rw (each_row, bad) at h in cc)
  | inr (a, done) ↦ elim (Result-cases (each_row convert (i + 1) rs)) [
    | inr (e, failed) ↦ absurd (let f = rw (each_row, done, failed) at h in cc)
    | inl (others, rest) ↦
        let same : ok (a ∷ others) ≡ ok out = rw (each_row, done, rest) at h in
        let alike : a ∷ others ≡ out = ground arith in
        subst (All P) alike (good r a done, each_row-All P convert (i + 1) rs others good rest)
  ]
]

pub each_row-HasId :
    (rs : List RawProduct) (ps : List ClientProduct)
    → each_row to_client_product 0 rs ≡ ok ps
    → All (λ p. HasId p.pid) ps
each_row-HasId rs ps h =
    each_row-All (λ p. HasId p.pid) to_client_product 0 rs ps to_client_product-HasId h
