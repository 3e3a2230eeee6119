-- ===== src/Whmcs/Api/Laws.antt =====
-- What the lookups of the admin API give, and which answers are marked for a retry.
use continuum_plugin_whmcs_l.Prelude.{
  ℕ, ◌≤◌, String, true, List, [], ◌∷◌, Option, none, some, All, ok, err, ◌≡◌, ◌↔◌, refl, subst, ap,
  arith, leb, ◌==◌, Bool-cases, inl, inr,
}
use continuum_plugin_whmcs_l.Prelude.Steps.{bind-eq-ok}
use continuum_plugin_whmcs_l.Json.{Value, unmarshal}
use continuum_plugin_whmcs_l.Whmcs.Http.{World, WhmcsError, retryable, status, whmcs_api}
use continuum_plugin_whmcs_l.Whmcs.Types.{Client, ClientProduct}
use continuum_plugin_whmcs_l.Whmcs.Retry.Laws.{retry-call}
use continuum_plugin_whmcs_l.Whmcs.Rows.{extract_product_array}
use continuum_plugin_whmcs_l.Whmcs.Rows.Laws.{HasId, each_row-HasId}
use continuum_plugin_whmcs_l.Whmcs.Api.{
  ApiClient, Texts, ClientRow, raw_to_string, same_email, find_client, read_rows, read_body,
  read_envelope, envelope_members, read_answer, post, fetch_products, get_clients_products,
  fetch_client, get_client_by_email,
}

email_of :
    (texts : Texts) (r : ClientRow) (c : Client)
    → some (record { id = raw_to_string texts r.id; email = r.email }) ≡ some c
    → r.email ≡ c.email
email_of texts r c h =
    let alike : record { id = raw_to_string texts r.id; email = r.email } ≡ c = ground arith in
    ap (λ x. x.email) alike

find_client-same_email :
    (texts : Texts) (email : String) (rows : List ClientRow) (c : Client)
    → find_client texts email rows ≡ some c
    → same_email texts c.email email ≡ true
unfolding find_client
find_client-same_email texts email [] c h = absurd (cc)
find_client-same_email texts email (r ∷ rs) c h =
    elim (Bool-cases (same_email texts r.email email)) [
      | inr other ↦ find_client-same_email texts email rs c (rw other at h)
      | inl same ↦
          subst (λ o. same_email texts o email ≡ true) (email_of texts r c (rw same at h)) same
    ]

module _ (w : World) (api : ApiClient) where
  -- A list of a client's products that is accepted, after whatever retries, has a positive `int` for the
  -- id of each of its products.
  pub get_clients_products-HasId :
      (client_id : String) (s t : w.State) (ps : List ClientProduct)
      → get_clients_products w api client_id s ≡ (ok ps, t)
      → All (λ p. HasId p.pid) ps
  unfolding get_clients_products fetch_products
  get_clients_products-HasId client_id s t ps h =
      let (before, call) = retry-call w (fetch_products w api client_id) s ps t h in
      let (body, s₁, posted, h₁) =
        bind-eq-ok (post w api "GetClientsProducts" (("clientid", client_id) ∷ [])) _ before ps t
          call in
      let (raws, s₂, read, h₂) = bind-eq-ok (λ u. (extract_product_array body, u)) _ s₁ ps t h₁ in
      each_row-HasId raws ps (ap (λ x. x.0) h₂)

  -- The client that is found by an email, after whatever retries, has that email, up to the case of the
  -- letters and spaces at the ends.
  pub get_client_by_email-same_email :
      (texts : Texts) (email : String) (s t : w.State) (c : Client)
      → get_client_by_email w api texts email s ≡ (ok (some c), t)
      → same_email texts c.email email ≡ true
  unfolding get_client_by_email fetch_client
  get_client_by_email-same_email texts email s t c h =
      let (before, call) = retry-call w (fetch_client w api texts email) s (some c) t h in
      let (body, s₁, posted, h₁) =
        bind-eq-ok (post w api "GetClients" (("search", email) ∷ ("stats", "false") ∷ [])) _ before
          (some c) t call in
      let (rows, s₂, read, h₂) = bind-eq-ok (λ u. (read_rows body, u)) _ s₁ (some c) t h₁ in
      let found : ok (find_client texts email rows) ≡ ok (some c) = ap (λ x. x.0) h₂ in
      find_client-same_email texts email rows c (ground arith)

read_envelope_plain :
    (env : Option (String × String)) (v : Value) (e : WhmcsError)
    → read_envelope env v ≡ err (retryable e)
    → ⊥
read_envelope_plain none v e h = cc
read_envelope_plain (some (result, message)) v e h = elim (Bool-cases (result == "success")) [
  | inl good ↦ (let f = rw good at h in cc)
  | inr bad ↦ (let f = rw bad at h in cc)
]

read_body_plain : (body : Option Value) (e : WhmcsError) → read_body body ≡ err (retryable e) → ⊥
read_body_plain none e h = cc
read_body_plain (some v) e h =
    read_envelope_plain (unmarshal envelope_members ("", "") (some v)) v e h

-- An answer of the admin API is marked for a retry exactly when its status is 500 or above.
pub read_answer_retryable_iff :
    (code : ℕ) (body : Option Value)
    → ((e : WhmcsError) × (read_answer (code, body) ≡ err (retryable e))) ↔ (500 ≤ code)
unfolding read_answer
read_answer_retryable_iff code body = (
  λ (e, h). elim (Bool-cases (leb 500 code)) [
    | inl failed ↦ ground arith
    | inr answered ↦ elim (Bool-cases (leb 400 code)) [
      | inl refused ↦ absurd (let f = rw (answered, refused) at h in cc)
      | inr fine ↦ absurd (read_body_plain body e (rw (answered, fine) at h))
    ]
  ],
  λ h. let failed : leb 500 code ≡ true = ground arith in (status whmcs_api code, rw failed refl),
)
