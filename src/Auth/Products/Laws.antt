-- ===== src/Auth/Products/Laws.antt =====
-- The entitlement tests against descriptions of what they decide.
use continuum_plugin_whmcs_l.Prelude.{
  String, true, List, [], ◌∷◌, Option, none, some, any, Member, here, there, ◌==◌, eq_iff, eq_refl,
  ◌≡◌, ◌⊎◌, ◌↔◌, inl, inr, refl, sym, subst, ◌∙◌, arith, Bool-cases, if◌then◌else◌,
}
use continuum_plugin_whmcs_l.Text.{trim_space, equal_fold}
use continuum_plugin_whmcs_l.Decimal.{itoa}
use continuum_plugin_whmcs_l.Runtime.Config.{ClaimRoleMap}
use continuum_plugin_whmcs_l.Whmcs.Types.{ClientProduct}
use continuum_plugin_whmcs_l.Auth.Products.{
  is_active, active_product_ids, any_match, role_from_products,
}

pub Member-cons {ℓ} :
    {A : Type ℓ} {a x : A} {xs : List A} → Member a (x ∷ xs) → (a ≡ x) ⊎ Member a xs
Member-cons here = inl refl
Member-cons (there m) = inr m

any-Member_left : (w : String) (xs : List String) → any (λ h. w == h) xs ≡ true → Member w xs
any-Member_left w [] h = cc
any-Member_left w (x ∷ xs) h = elim (Bool-cases (w == x)) [
  | inl same ↦ subst (λ y. Member w (y ∷ xs)) ((eq_iff w x).0 same) here
  | inr differ ↦ there (any-Member_left w xs (ground arith))
]

any_of_Member_left : (w : String) (xs : List String) → Member w xs → any (λ h. w == h) xs ≡ true
any_of_Member_left w [] m = elim m [ ]
any_of_Member_left w (x ∷ xs) here = rw (eq_refl w) refl
any_of_Member_left w (x ∷ xs) (there m) = ground (arith, any_of_Member_left w xs m)

-- Some value stands in both lists.
pub record Common (want have : List String) : Type 0 where
  pub value : String
  pub wanted : Member value want
  pub owned : Member value have

any_match_sound : (want have : List String) → any_match want have ≡ true → Common want have
unfolding any_match
any_match_sound [] have h = cc
any_match_sound (w ∷ ws) have h = elim (Bool-cases (any (λ x. w == x) have)) [
  | inl found ↦ record { value = w; wanted = here; owned = any-Member_left w have found }
  | inr missing ↦
      let c = any_match_sound ws have (ground arith) in
      record { value = c.value; wanted = there c.wanted; owned = c.owned }
]

any_match_complete :
    (want have : List String) (v : String)
    → Member v want
    → Member v have
    → any_match want have ≡ true
unfolding any_match
any_match_complete [] have v m n = elim m [ ]
any_match_complete (w ∷ ws) have v here n = rw (any_of_Member_left w have n) refl
any_match_complete (w ∷ ws) have v (there m) n = ground (arith, any_match_complete ws have v m n)

-- `AnyMatch` answers yes exactly when the lists have a value in common.
pub any_match_iff : (want have : List String) → (any_match want have ≡ true) ↔ Common want have
any_match_iff want have =
    (any_match_sound want have, λ c. any_match_complete want have c.value c.wanted c.owned)

-- A product of the list with that decimal form whose status is missing, or "Active" in any case and
-- between spaces.
pub record ActiveProduct (id : String) (ps : List ClientProduct) : Type 0 where
  pub product : ClientProduct
  pub listed : Member product ps
  pub named : id ≡ itoa product.pid
  pub active :
      (product.status ≡ none)
      ⊎ ((s : String) × (product.status ≡ some s) × (equal_fold (trim_space s) "Active" ≡ true))

is_active_cases :
    (status : Option String)
    → is_active status ≡ true
    → (status ≡ none)
      ⊎ ((s : String) × (status ≡ some s) × (equal_fold (trim_space s) "Active" ≡ true))
unfolding is_active
is_active_cases none h = inl refl
is_active_cases (some s) h = inr (s, refl, h)

is_active_of_cases :
    (status : Option String)
    → (status ≡ none)
      ⊎ ((s : String) × (status ≡ some s) × (equal_fold (trim_space s) "Active" ≡ true))
    → is_active status ≡ true
unfolding is_active
is_active_of_cases none h = refl
is_active_of_cases (some t) (inl e) = cc
is_active_of_cases (some t) (inr (s, e, f)) = ground arith

ActiveProduct-there :
    (id : String) (p : ClientProduct) (ps : List ClientProduct)
    → ActiveProduct id ps
    → ActiveProduct id (p ∷ ps)
ActiveProduct-there id p ps a = record {
  product = a.product;
  listed = there a.listed;
  named = a.named;
  active = a.active;
}

active_product_ids_sound :
    (ps : List ClientProduct) (id : String)
    → Member id (active_product_ids ps)
    → ActiveProduct id ps
unfolding active_product_ids
active_product_ids_sound [] id m = elim m [ ]
active_product_ids_sound (p ∷ ps) id m = elim (Bool-cases (is_active p.status)) [
  | inr inactive ↦ ActiveProduct-there id p ps (
      active_product_ids_sound ps id (
        subst
          (λ b. Member id (if b then itoa p.pid ∷ active_product_ids ps else active_product_ids ps))
          inactive m))
  | inl active ↦
      elim (Member-cons (
        subst
          (λ b. Member id (if b then itoa p.pid ∷ active_product_ids ps else active_product_ids ps))
          active m)) [
            | inl same ↦ record {
              product = p;
              listed = here;
              named = same;
              active = is_active_cases p.status active;
            }
            | inr later ↦ ActiveProduct-there id p ps (active_product_ids_sound ps id later)
          ]
]

active_product_ids_complete :
    (ps : List ClientProduct) (p : ClientProduct)
    → Member p ps
    → is_active p.status ≡ true
    → Member (itoa p.pid) (active_product_ids ps)
unfolding active_product_ids
active_product_ids_complete [] p m h = elim m [ ]
active_product_ids_complete (q ∷ ps) p here h = rw h here
active_product_ids_complete (q ∷ ps) p (there m) h = elim (Bool-cases (is_active q.status)) [
  | inl active ↦ rw active (there (active_product_ids_complete ps p m h))
  | inr inactive ↦ rw inactive (active_product_ids_complete ps p m h)
]

-- The active ids are the decimal forms of the products whose status is missing or "Active", in any case
-- and between spaces, and of no others.
pub active_product_ids_iff :
    (ps : List ClientProduct) (id : String)
    → Member id (active_product_ids ps) ↔ ActiveProduct id ps
active_product_ids_iff ps id = (
  active_product_ids_sound ps id,
  λ a.
      subst (λ x. Member x (active_product_ids ps)) (sym a.named)
        (active_product_ids_complete ps a.product a.listed
          (is_active_of_cases a.product.status a.active)),
)

-- A mapping of one of the products to the role "admin".
pub record Elevation (products : List String) (mappings : List ClaimRoleMap) : Type 0 where
  pub mapping : ClaimRoleMap
  pub listed : Member mapping mappings
  pub admin : mapping.role ≡ "admin"
  pub owned : Member mapping.product_id products

any_right : (x : String) (xs : List String) → any (λ p. p == x) xs ≡ any (λ h. x == h) xs
any_right x [] = refl
any_right x (y ∷ ys) = ground (arith, eq_iff x y, eq_iff y x, any_right x ys)

role_sound :
    (products : List String) (ms : List ClaimRoleMap)
    → role_from_products products ms ≡ "admin"
    → Elevation products ms
unfolding role_from_products
role_sound products [] h = absurd (ground (arith, eq_iff "user" "admin"))
role_sound products (m ∷ ms) h = elim (Bool-cases (m.role == "admin")) [
  | inr other ↦ next (role_sound products ms (ground arith))
  | inl admin ↦ elim (Bool-cases (any (λ p. p == m.product_id) products)) [
    | inr unowned ↦ next (role_sound products ms (ground arith))
    | inl owned ↦ record {
      mapping = m;
      listed = here;
      admin = (eq_iff m.role "admin").0 admin;
      owned = any-Member_left m.product_id products (sym (any_right m.product_id products) ∙ owned);
    }
  ]
]
  where
    next : Elevation products ms → Elevation products (m ∷ ms)
    next e = record {
      mapping = e.mapping;
      listed = there e.listed;
      admin = e.admin;
      owned = e.owned;
    }

role_complete :
    (products : List String) (ms : List ClaimRoleMap) (m : ClaimRoleMap)
    → Member m ms
    → m.role ≡ "admin"
    → Member m.product_id products
    → role_from_products products ms ≡ "admin"
unfolding role_from_products
role_complete products [] m l a o = elim l [ ]
role_complete products (m ∷ ms) n here a o =
    let owned : any (λ p. p == m.product_id) products ≡ true =
      any_right m.product_id products ∙ any_of_Member_left m.product_id products o in
    ground (arith, eq_iff m.role "admin")
role_complete products (m ∷ ms) n (there l) a o = ground (arith, role_complete products ms n l a o)

role_cases :
    (products : List String) (ms : List ClaimRoleMap)
    → (role_from_products products ms ≡ "admin") ⊎ (role_from_products products ms ≡ "user")
unfolding role_from_products
role_cases products [] = inr refl
role_cases products (m ∷ ms) = ground (arith, role_cases products ms)

-- The role is "admin" exactly when some mapping gives "admin" for one of the products, and otherwise it
-- is "user".
pub role_from_products_iff :
    (products : List String) (ms : List ClaimRoleMap)
    → ((role_from_products products ms ≡ "admin") ↔ Elevation products ms)
      × ((role_from_products products ms ≡ "admin") ⊎ (role_from_products products ms ≡ "user"))
role_from_products_iff products ms = (
  (role_sound products ms, λ e. role_complete products ms e.mapping e.listed e.admin e.owned),
  role_cases products ms,
)
