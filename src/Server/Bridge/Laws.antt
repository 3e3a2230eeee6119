-- ===== src/Server/Bridge/Laws.antt =====
-- The headers that reach the handler.
use continuum_plugin_whmcs_l.Prelude.{
  String, false, List, [], ◌∷◌, ◌==◌, if◌then◌else◌, ◌≡◌, refl, ◌∙◌, eq_iff, eq_refl, Bool-cases,
  inl, inr,
}
use continuum_plugin_whmcs_l.Server.Requests.{header_in}
use continuum_plugin_whmcs_l.Server.Bridge.{
  HttpLibrary, HostRequest, set_value, set_headers, inner_request,
}

-- The value of the last header whose name has the canonical form `name`, or else `before`.
unfoldable pub last_value : HttpLibrary → String → String → List (String × String) → String
last_value lib name before [] = before
last_value lib name before ((k, v) ∷ headers) =
    let later = last_value lib name v headers in
    let unchanged = last_value lib name before headers in
    if lib.canonical k == name then later else unchanged

header_in-set_value-same :
    (name v : String) (hs : List (String × String)) → header_in name (set_value name v hs) ≡ v
unfolding header_in set_value
header_in-set_value-same name v [] = rw (header_in, eq_refl name) refl
header_in-set_value-same name v ((k, u) ∷ hs) = elim (Bool-cases (k == name)) [
  | inl same ↦ rw (set_value, same) (rw (header_in, eq_refl name) refl)
  | inr other ↦ rw (set_value, other) (rw (header_in, other) (header_in-set_value-same name v hs))
]

header_in-set_value-other :
    (name k v : String) (hs : List (String × String))
    → (k == name) ≡ false
    → header_in name (set_value k v hs) ≡ header_in name hs
unfolding header_in set_value
header_in-set_value-other name k v [] h = rw (header_in, h) refl
header_in-set_value-other name k v ((j, u) ∷ hs) h = elim (Bool-cases (j == k)) [
  | inl same ↦
      let e : j ≡ k = (eq_iff j k).0 same in rw (set_value, same) (rw (header_in, e, h) refl)
  | inr other ↦ rw (set_value, other) (rw (header_in, header_in-set_value-other name k v hs h) refl)
]

header_in-set_headers :
    (lib : HttpLibrary) (name : String) (hs acc : List (String × String))
    → header_in name (set_headers lib hs acc) ≡ last_value lib name (header_in name acc) hs
unfolding set_headers last_value
header_in-set_headers lib name [] acc = refl
header_in-set_headers lib name ((k, v) ∷ hs) acc = elim (Bool-cases (lib.canonical k == name)) [
  | inl same ↦
      let e : lib.canonical k ≡ name = (eq_iff (lib.canonical k) name).0 same in
      header_in-set_headers lib name hs (set_value (lib.canonical k) v acc)
      ∙ rw (last_value, same, e, header_in-set_value-same name v acc) refl
  | inr other ↦
      header_in-set_headers lib name hs (set_value (lib.canonical k) v acc)
      ∙ rw (last_value, other, header_in-set_value-other name (lib.canonical k) v acc other) refl
]

-- A handler reads under a name the value of the last header of the host's request whose name has that
-- canonical form, and the empty text where there is none.
pub header_in-inner_request :
    (lib : HttpLibrary) (req : HostRequest) (name : String)
    → header_in name (inner_request lib req).headers ≡ last_value lib name "" req.headers
unfolding inner_request header_in
header_in-inner_request lib req name = header_in-set_headers lib name req.headers []
