-- ===== src/Json.antt =====
-- The values that `JSON.parse` gives, as the services read them: packages/workbench/src/contrib/
-- sessions/ahp-projection-service.ts (`stringValue`, `recordValue`, `displayText`).
use zaw.Base.{String, Bool, List, [], ◌∷◌, Option, none, some, ◌==◌, if◌then◌else◌}

mutual
  pub data Json : Type 0 where
    text : String → Json
    flag : Bool → Json
    -- a number, by its text
    numeral : String → Json
    null : Json
    array : Elements → Json
    object : Fields → Json

  pub data Elements : Type 0 where
    finish : Elements
    element : Json → Elements → Elements

  pub data Fields : Type 0 where
    end : Fields
    entry : String → Json → Fields → Fields

-- A property; `none` is `undefined`. Of a name that is given twice the last one counts.
unfoldable pub lookup : String → Fields → Option Json
lookup k end = none
lookup k (entry j v fs) = elim (lookup k fs) [
  | none ↦ if j == k then some v else none
  | some w ↦ some w
]

unfoldable pub elements : Elements → List Json
elements finish = []
elements (element v vs) = v ∷ elements vs

unfoldable pub string_value : Option Json → String
string_value (some (text s)) = s
string_value _ = ""

-- An object or an array; an array has none of the properties that are read.
unfoldable pub record_value : Option Json → Option Fields
record_value (some (object fs)) = some fs
record_value (some (array vs)) = some end
record_value _ = none

-- `record?.k`
unfoldable pub field_of : String → Option Fields → Option Json
unfolding lookup
field_of k none = none
field_of k (some fs) = lookup k fs

-- `Array.isArray(v) ? v : []`
unfoldable pub array_value : Option Json → List Json
unfolding elements
array_value (some (array vs)) = elements vs
array_value _ = []

-- A text is falsy when it is empty: `a || b`.
unfoldable pub or_text : String → String → String
or_text a b = if a == "" then b else a

unfoldable pub display_text : Option Json → String
unfolding string_value record_value field_of
display_text (some (text s)) = s
display_text v = string_value (field_of "markdown" (record_value v))
