-- ===== src/Server/Href/Laws.antt =====
-- Where the base of a page points.
use continuum_plugin_whmcs_l.Prelude.{
  ℕ, zero, suc, ◌-◌, ◌&&◌, List, [], ◌∷◌, Option, none, some, eqb, if◌then◌else◌, ◌≡◌, refl, sym,
  ap, ◌∙◌, arith, Bool-cases, Option-cases, drop, inl, inr,
}
use continuum_plugin_whmcs_l.Server.Href.{
  count_slashes, directory, ups, href_of_depth, compute_base_href,
}

-- The directories of a path, the innermost first, on top of those given: the segments that a slash ends.
-- The second argument is the segment being read, from its end.
unfoldable pub dirs_from : List (List ℕ) → List ℕ → List ℕ → List (List ℕ)
dirs_from outer segment [] = outer
dirs_from outer segment (c ∷ s) =
    let closed = dirs_from (segment ∷ outer) [] s in
    let longer = dirs_from outer (c ∷ segment) s in if eqb c b'/' then closed else longer

-- How many "../" a relative reference begins with.
unfoldable pub ups_in : List ℕ → ℕ
ups_in (a ∷ b ∷ c ∷ s) =
    let rest = ups_in s in if eqb a b'.' && eqb b b'.' && eqb c b'/' then suc rest else 0
ups_in s = 0

-- A reference made of "./" and "../", resolved in a directory.
abbrev pub resolve : List (List ℕ) → List ℕ → List (List ℕ)
resolve dirs href = drop (ups_in href) dirs

drop-suc {ℓ} :
    {A : Type ℓ} (n : ℕ) (xs : List A) (y : A) (ys : List A)
    → drop n xs ≡ y ∷ ys
    → drop (suc n) xs ≡ ys
unfolding drop
drop-suc zero xs y ys h = rw h refl
drop-suc (suc n) [] y ys h = absurd (cc)
drop-suc (suc n) (x ∷ xs) y ys h = drop-suc n xs y ys h

drop-dirs_from :
    (s : List ℕ) (outer : List (List ℕ)) (segment : List ℕ)
    → drop (count_slashes s) (dirs_from outer segment s) ≡ outer
unfolding count_slashes dirs_from drop
drop-dirs_from [] outer segment = refl
drop-dirs_from (c ∷ s) outer segment = elim (Bool-cases (eqb c b'/')) [
  | inl slash ↦
      rw slash (drop-suc (count_slashes s) _ segment outer (drop-dirs_from s (segment ∷ outer) []))
  | inr other ↦ rw other (drop-dirs_from s outer (c ∷ segment))
]

ups_in-ups : (n : ℕ) → ups_in (ups n) ≡ n
unfolding ups_in ups
ups_in-ups zero = refl
ups_in-ups (suc n) = ap suc (ups_in-ups n)

ups_in-href_of_depth : (n : ℕ) → ups_in (href_of_depth n) ≡ n
unfolding ups_in
ups_in-href_of_depth zero = refl
ups_in-href_of_depth (suc n) = ups_in-ups (suc n)

abbrev or_nothing : Option (List ℕ) → List ℕ
or_nothing none = []
or_nothing (some d) = d

count_slashes-directory : (s : List ℕ) → count_slashes (or_nothing (directory s)) ≡ count_slashes s
unfolding count_slashes directory
count_slashes-directory [] = refl
count_slashes-directory (c ∷ s) = elim (Option-cases (directory s)) [
  | inl flat ↦
      let none_there : 0 ≡ count_slashes s =
        ap (λ d. count_slashes (or_nothing d)) (sym flat) ∙ count_slashes-directory s in
      elim (Bool-cases (eqb c b'/')) [
        | inl slash ↦ rw (flat, slash) (rw (slash, ← none_there) refl)
        | inr other ↦ rw (flat, other, ← none_there) refl
      ]
  | inr (d, deep) ↦
      let same : count_slashes d ≡ count_slashes s =
        ap (λ d. count_slashes (or_nothing d)) (sym deep) ∙ count_slashes-directory s in
      rw (deep, same) refl
]

depth_of :
    (path : List ℕ) → count_slashes (b'/' ∷ or_nothing (directory path)) - 1 ≡ count_slashes path
unfolding count_slashes
depth_of path = omega (arith, count_slashes-directory path)

directory-slash :
    (path : List ℕ) → directory (b'/' ∷ path) ≡ some (b'/' ∷ or_nothing (directory path))
unfolding directory
directory-slash path = elim (Option-cases (directory path)) [
  | inl flat ↦ rw flat refl
  | inr (d, deep) ↦ rw deep refl
]

-- For every path below a root directory, however deep that root is: the base of the page, resolved in
-- the directory of the path, is the root.
pub resolve-compute_base_href :
    (root : List (List ℕ)) (path : List ℕ)
    → resolve (dirs_from root [] path) (compute_base_href (b'/' ∷ path)) ≡ root
unfolding compute_base_href
resolve-compute_base_href root path =
    rw (compute_base_href, directory-slash path, depth_of path)
      (rw (ups_in-href_of_depth (count_slashes path)) (drop-dirs_from path root []))
