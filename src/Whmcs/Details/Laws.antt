-- ===== src/Whmcs/Details/Laws.antt =====
-- What a client's custom field is read as.
use continuum_plugin_whmcs_l.Prelude.{
  String, false, List, [], ◌∷◌, Option, none, some, ◌==◌, if◌then◌else◌, ◌≡◌, ◌≢◌, refl, ap, ◌∙◌,
  arith, eq_iff, inl, inr, Bool-cases,
}
use continuum_plugin_whmcs_l.Json.{Members}
use continuum_plugin_whmcs_l.Auth.Respond.{field_value}
use continuum_plugin_whmcs_l.Whmcs.Details.{
  without_field, set_field, field_name, field_text, collect_fields,
}

-- The text of the last entry of that name.
unfoldable pub last_named : String → List Members → Option String
last_named name [] = none
last_named name (m ∷ ms) = elim (last_named name ms) [
  | some text ↦ some text
  | none ↦ if field_name m == name then some (field_text m) else none
]

abbrev or_else : Option String → Option String → Option String
or_else none other = other
or_else (some text) other = some text

field_value-without_field :
    (name other : String) (fields : List (String × String))
    → (other == name) ≡ false
    → field_value name (without_field other fields) ≡ field_value name fields
unfolding field_value without_field
field_value-without_field name other [] h = refl
field_value-without_field name other ((k, v) ∷ fields) h = ground (
  arith,
  eq_iff k other,
  eq_iff k name,
  eq_iff other name,
  field_value-without_field name other fields h,
)

field_value-next :
    (name k v : String) (fields : List (String × String))
    → name ≢ ""
    → field_value name (if k == "" then fields else set_field k v fields)
      ≡ or_else (if k == name then some v else none) (field_value name fields)
unfolding field_value
field_value-next name k v fields given = elim (Bool-cases (k == "")) [
  | inl blank ↦
      let other : (k == name) ≡ false = ground (arith, eq_iff k "", eq_iff k name, given) in
      rw (blank, other) refl
  | inr named ↦ elim (Bool-cases (k == name)) [
    | inl same ↦ rw (named, same) refl
    | inr other ↦ rw (named, other) (field_value-without_field name k fields other)
  ]
]

or_else_assoc :
    (first second third : Option String)
    → or_else first (or_else second third)
      ≡ or_else (elim first [ none ↦ second | some text ↦ some text ]) third
or_else_assoc none second third = refl
or_else_assoc (some text) second third = refl

or_else-none : (o : Option String) → or_else o none ≡ o
or_else-none none = refl
or_else-none (some text) = refl

collect_fields-last_named :
    (name : String) (ms : List Members) (fields : List (String × String))
    → name ≢ ""
    → field_value name (collect_fields ms fields)
      ≡ or_else (last_named name ms) (field_value name fields)
unfolding collect_fields last_named field_value
collect_fields-last_named name [] fields given = refl
collect_fields-last_named name (m ∷ ms) fields given =
    collect_fields-last_named name ms
      (if field_name m == "" then fields else set_field (field_name m) (field_text m) fields) given
    ∙ ap (or_else (last_named name ms))
        (field_value-next name (field_name m) (field_text m) fields given)
    ∙ or_else_assoc (last_named name ms)
        (if field_name m == name then some (field_text m) else none) (field_value name fields)

-- A custom field with a name is the text of the last entry of that name among the client's entries, and
-- is missing if there is none.
pub custom_field-last_named :
    (name : String) (ms : List Members)
    → name ≢ ""
    → field_value name (collect_fields ms []) ≡ last_named name ms
unfolding field_value
custom_field-last_named name ms given =
    collect_fields-last_named name ms [] given ∙ or_else-none (last_named name ms)
