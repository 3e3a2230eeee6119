-- ===== src/Prelude/Steps.antt =====
-- Fallible steps on a state: Go code that changes something and may return an error. A step that
-- fails keeps what it has changed so far.
use mathlib.Core.Path.{◌≡◌, refl, subst}
use continuum_plugin_whmcs_l.Prelude.Results.{Result, ok, err}

abbrev pub Steps : Type 0 → Type 0 → Type 0 → Type 0
Steps S E A = S → Result E A × S

module _ {S : Type 0} {E : Type 0} where
  abbrev pub pure : {A : Type 0} → A → Steps S E A
  pure a s = (ok a, s)

  abbrev pub fail : {A : Type 0} → E → Steps S E A
  fail e s = (err e, s)

  abbrev pub from_result : {A : Type 0} → Result E A → Steps S E A
  from_result r s = (r, s)

  abbrev pub modify : (S → S) → Steps S E (Unit {0})
  modify f s = (ok tt, f s)

  abbrev pub get : Steps S E S
  get s = (ok s, s)

  abbrev pub follow : {A B : Type 0} → Result E A → (A → Steps S E B) → Steps S E B
  follow (ok a) f s = f a s
  follow (err e) f s = (err e, s)

  infixl 5 ◌>>=◌ ◌>>◌
  abbrev pub ◌>>=◌ : {A B : Type 0} → Steps S E A → (A → Steps S E B) → Steps S E B
  ◌>>=◌ m f s = follow (m s).0 f (m s).1

  abbrev pub ◌>>◌ : {A B : Type 0} → Steps S E A → Steps S E B → Steps S E B
  m >> k = m >>= λ _. k

  -- Inversion of a chain that succeeds: what the first step returned, and the state it left.
  follow-eq-ok :
      {A B : Type 0} (r : Result E A) (t : S) (f : A → Steps S E B) (b : B) (u : S)
      → follow r f t ≡ (ok b, u)
      → (a : A) × (r ≡ ok a) × (f a t ≡ (ok b, u))
  follow-eq-ok (ok a) t f b u h = (a, refl, h)
  follow-eq-ok (err e) t f b u h = cc

  pub bind-eq-ok :
      {A B : Type 0} (m : Steps S E A) (f : A → Steps S E B) (s : S) (b : B) (u : S)
      → (m >>= f) s ≡ (ok b, u)
      → (a : A) × (t : S) × (m s ≡ (ok a, t)) × (f a t ≡ (ok b, u))
  bind-eq-ok m f s b u h =
      let (a, e, rest) = follow-eq-ok (m s).0 (m s).1 f b u h in
      (a, (m s).1, λ i. (e i, (m s).1), rest)

  pub pure-eq-ok :
      {A : Type 0} (a : A) (s : S) (b : A) (t : S) → pure a s ≡ (ok b, t) → (a ≡ b) × (s ≡ t)
  pure-eq-ok a s b t h = (cc, cc)

  -- A step keeps `P`, and what it returns satisfies `Q`.
  pub record Ensures (P : S → Type 0) {A : Type 0} (Q : A → Type 0) (m : Steps S E A) : Type 0 where
    pub kept : (s : S) → P s → P (m s).1
    pub result : (s : S) → P s → (a : A) → (m s).0 ≡ ok a → Q a

  module _ (P : S → Type 0) where
    pub pure-Ensures : {A : Type 0} (Q : A → Type 0) (a : A) → Q a → Ensures P Q (pure a)
    pure-Ensures Q a q = record { kept = λ s p. p; result = λ s p b e. subst Q (cc) q }

    pub fail-Ensures : {A : Type 0} (Q : A → Type 0) (e : E) → Ensures P Q (fail e)
    fail-Ensures Q e = record { kept = λ s p. p; result = λ s p b h. absurd (cc) }

    follow-kept :
        {A B : Type 0} (Q : A → Type 0) (R : B → Type 0) (r : Result E A) (f : A → Steps S E B)
        (t : S)
        → P t
        → ((a : A) → r ≡ ok a → Q a)
        → ((a : A) → Q a → Ensures P R (f a))
        → P (follow r f t).1 × ((b : B) → (follow r f t).0 ≡ ok b → R b)
    follow-kept Q R (ok a) f t p q next =
        ((next a (q a refl)).kept t p, (next a (q a refl)).result t p)
    follow-kept Q R (err e) f t p q next = (p, λ b h. absurd (cc))

    pub bind-Ensures :
        {A B : Type 0} (Q : A → Type 0) (R : B → Type 0) (m : Steps S E A) (f : A → Steps S E B)
        → Ensures P Q m
        → ((a : A) → Q a → Ensures P R (f a))
        → Ensures P R (m >>= f)
    bind-Ensures Q R m f first next = record {
      kept = λ s p. (follow-kept Q R (m s).0 f (m s).1 (first.kept s p) (first.result s p) next).0;
      result =
          λ s p. (follow-kept Q R (m s).0 f (m s).1 (first.kept s p) (first.result s p) next).1;
    }
