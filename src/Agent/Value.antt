-- ===== src/Agent/Value.antt =====
-- JSON values as the tools of app/agent/loop.py receive them, and `_validate_input`.
use personal_portfolio_analy.Prelude.{
  ℕ, Bool, true, false, ◌&&◌, ◌||◌, Option, none, some, List, [], ◌∷◌, String, str_eq, ◌==◌,
  if◌then◌else◌,
}

-- A Python string as its code points.
abbrev pub Text : Type 0
Text = List ℕ

mutual
  pub data Value : Type 0 where
    null : Value
    boolean : Bool → Value
    integer : ℕ → Value
    float : ℕ → Value
    text : Text → Value
    array : Values → Value
    object : Fields → Value

  pub data Values : Type 0 where
    nil : Values
    cons : Value → Values → Values

  pub data Fields : Type 0 where
    end : Fields
    field : String → Value → Fields → Fields

-- The dict of a payload, in order.
abbrev pub Payload : Type 0
Payload = List (String × Value)

abbrev pub items : Fields → Payload
items end = []
items (field k v fs) = (k, v) ∷ items fs

-- `payload.get(key)`
abbrev pub get : String → Payload → Option Value
get k [] = none
get k ((j, v) ∷ p) = if str_eq j k then some v else get k p

-- The value is false in a Python test.
abbrev pub is_falsy : Value → Bool
is_falsy null = true
is_falsy (boolean b) = if b then false else true
is_falsy (integer n) = n == 0
is_falsy (float n) = n == 0
is_falsy (text []) = true
is_falsy (text (_ ∷ _)) = false
is_falsy (array nil) = true
is_falsy (array (cons _ _)) = false
is_falsy (object end) = true
is_falsy (object (field _ _ _)) = false

-- A property of a tool's input schema: its "type", if it has one.
pub record Schema : Type 0 where
  pub properties : List (String × Option String)
  pub required : List String

abbrev pub property_type : String → List (String × Option String) → Option String
property_type k [] = none
property_type k ((j, t) ∷ ps) = if str_eq j k then t else property_type k ps

pub data InputError : Type 0 where
  not_an_object : InputError
  missing_field : String → InputError
  wrong_type : String → String → InputError

abbrev pub is_boolean : Value → Bool
is_boolean (boolean _) = true
is_boolean _ = false

abbrev is_number : Value → Bool
is_number (integer _) = true
is_number (float _) = true
is_number (boolean _) = true
is_number _ = false

abbrev is_integer : Value → Bool
is_integer (integer _) = true
is_integer (boolean _) = true
is_integer _ = false

abbrev is_text : Value → Bool
is_text (text _) = true
is_text _ = false

abbrev is_array : Value → Bool
is_array (array _) = true
is_array _ = false

abbrev is_object : Value → Bool
is_object (object _) = true
is_object _ = false

-- `isinstance(val, _JSON_TYPES[type])`, true for a type that the table does not name. In Python a
-- bool is an int.
unfoldable pub is_instance : String → Value → Bool
is_instance t v =
    if str_eq t "string"
    then is_text v
    else if str_eq t "integer"
    then is_integer v
    else if str_eq t "number"
    then is_number v
    else if str_eq t "boolean"
    then is_boolean v
    else if str_eq t "array"
    then is_array v
    else if str_eq t "object"
    then is_object v
    else true

-- The body of the loop over the payload, for a property that has a type.
unfoldable pub field_problem : String → Value → Option String → Option InputError
unfolding is_instance
field_problem key val none = none
field_problem key val (some t) =
    if (str_eq t "integer" || str_eq t "number") && is_boolean val
    then some (wrong_type key t)
    else if is_instance t val
    then none
    else some (wrong_type key t)

abbrev first_missing : List String → Payload → Option InputError
first_missing [] p = none
first_missing (r ∷ rs) p = elim (get r p) [
  | none ↦ some (missing_field r)
  | some _ ↦ first_missing rs p
]

abbrev first_problem : List (String × Option String) → Payload → Option InputError
first_problem props [] = none
first_problem props ((k, v) ∷ p) = elim (field_problem k v (property_type k props)) [
  | none ↦ first_problem props p
  | some e ↦ some e
]

unfoldable pub validate_fields : Schema → Payload → Option InputError
validate_fields schema p = elim (first_missing schema.required p) [
  | none ↦ first_problem schema.properties p
  | some e ↦ some e
]

-- `_validate_input`
unfoldable pub validate_input : Schema → Value → Option InputError
unfolding validate_fields field_problem
validate_input schema (object fs) = validate_fields schema (items fs)
validate_input schema _ = some not_an_object
