-- ===== src/Json.antt =====
-- Decoded values: the `any` that encoding/json and structpb give, and how encoding/json stores an
-- object's members in a struct's fields.
use continuum_plugin_whmcs_l.Prelude.{
  String, Bool, List, [], ◌∷◌, Option, none, some, Slice, ◌==◌, ◌||◌, ◌≡◌, refl, if◌then◌else◌,
}
use continuum_plugin_whmcs_l.Prelude.Int.{ℤ, is_int}
use continuum_plugin_whmcs_l.Text.{equal_fold}

mutual
  -- `fraction` is a number that is no `int`, by its literal.
  pub data Value : Type 0 where
    null : Value
    bool : Bool → Value
    num : ℤ → Value
    fraction : String → Value
    str : String → Value
    arr : Values → Value
    obj : Members → Value

  pub data Values : Type 0 where
    nil : Values
    cons : Value → Values → Values

  pub data Members : Type 0 where
    end : Members
    member : String → Value → Members → Members

-- `m[key]` of a map; a structpb map has each key once.
unfoldable pub index : String → Members → Option Value
index key end = none
index key (member k v rest) = if k == key then some v else index key rest

-- `s, _ := v.(string)`
abbrev pub as_string : Option Value → String
as_string (some (str s)) = s
as_string _ = ""

-- Whether a member is stored in the struct field of that name. No two fields of the plugin's structs
-- fold to one name, so the exact match that is tried first changes nothing.
abbrev pub names : String → String → Bool
names field key = key == field || equal_fold key field

-- How encoding/json stores a value in a field: from the value and what the field holds, or an error of
-- the whole decoding (`none`).
abbrev pub Store {ℓ} : Type ℓ → Type ℓ
Store A = Value → A → Option A

-- A field: each member of its name is stored in turn, so the last one counts.
unfoldable pub field_with {ℓ} : {A : Type ℓ} → Store A → String → A → Members → Option A
field_with store field acc end = some acc
field_with {A} store field acc (member k v rest) =
    let others : Option A = field_with store field acc rest in
    let found : Option A = elim (store v acc) [
      | none ↦ none
      | some a ↦ field_with store field a rest
    ] in
    if names field k then found else others

-- `null` leaves a `string` and a `bool`.
unfoldable pub store_string : Store String
store_string (str s) acc = some s
store_string null acc = some acc
store_string v acc = none

unfoldable pub store_bool : Store Bool
store_bool (bool b) acc = some b
store_bool null acc = some acc
store_bool v acc = none

unfoldable pub string_field : String → String → Members → Option String
unfolding field_with store_string
string_field = field_with store_string

unfoldable pub bool_field : String → Bool → Members → Option Bool
unfolding field_with store_bool
bool_field = field_with store_bool

-- A `json.RawMessage` field: any value, `none` if the object has no such member.
unfoldable pub raw_field : String → Option Value → Members → Option Value
raw_field field acc end = acc
raw_field field acc (member k v rest) = raw_field field (if names field k then some v else acc) rest

unfoldable pub store_int : Store ℤ
store_int (num z) acc = if is_int z then some z else none
store_int null acc = some acc
store_int v acc = none

unfoldable pub int_field : String → ℤ → Members → Option ℤ
unfolding field_with store_int
int_field = field_with store_int

-- A field that is a pointer: `null` makes it nil, and any other value is stored in what it points to,
-- which is a zero value where it was nil.
abbrev pub pointer_to {ℓ} : {A : Type ℓ} → Store A → A → Store (Option A)
pointer_to store zero_value null acc = some none
pointer_to store zero_value v none = elim (store v zero_value) [
  | none ↦ none
  | some a ↦ some (some a)
]
pointer_to store zero_value v (some old) = elim (store v old) [
  | none ↦ none
  | some a ↦ some (some a)
]

-- `json.Unmarshal` into a struct that holds its zero value: of an object by its members, `null` leaves
-- it, and nothing else fits.
abbrev pub unmarshal {ℓ} : {A : Type ℓ} → (Members → Option A) → A → Option Value → Option A
unmarshal members zero_value (some (obj m)) = members m
unmarshal members zero_value (some null) = some zero_value
unmarshal members zero_value _ = none

infixl 5 ◌>>=◌
abbrev pub ◌>>=◌ {ℓ κ} : {A : Type ℓ} {B : Type κ} → Option A → (A → Option B) → Option B
none >>= k = none
some a >>= k = k a

-- The elements of a `[]string`; `null` leaves the zero value.
unfoldable pub decode_strings : Values → Option (List String)
decode_strings nil = some []
decode_strings (cons (str s) vs) = elim (decode_strings vs) [
  | none ↦ none
  | some ss ↦ some (s ∷ ss)
]
decode_strings (cons null vs) = elim (decode_strings vs) [ none ↦ none | some ss ↦ some ("" ∷ ss) ]
decode_strings (cons v vs) = none

-- `json.Unmarshal` into a `[]string`.
unfoldable pub store_strings : Store (Slice String)
store_strings (arr vs) acc = elim (decode_strings vs) [ none ↦ none | some ss ↦ some (some ss) ]
store_strings null acc = some none
store_strings v acc = none

unfoldable pub encode_strings : List String → Values
encode_strings [] = nil
encode_strings (s ∷ ss) = cons (str s) (encode_strings ss)

-- `json.Marshal` of a slice: `null` for a nil one.
abbrev pub encode_slice {ℓ} : {A : Type ℓ} → (List A → Values) → Slice A → Value
encode_slice encode none = null
encode_slice encode (some xs) = arr (encode xs)

decode_strings-encode_strings : (ss : List String) → decode_strings (encode_strings ss) ≡ some ss
unfolding decode_strings encode_strings
decode_strings-encode_strings [] = refl
decode_strings-encode_strings (s ∷ ss) = rw (decode_strings-encode_strings ss)

pub store_strings-encode_slice :
    (ss old : Slice String) → store_strings (encode_slice encode_strings ss) old ≡ some ss
unfolding store_strings
store_strings-encode_slice none old = refl
store_strings-encode_slice (some ss) old = rw (decode_strings-encode_strings ss, store_strings)
