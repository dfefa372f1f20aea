-- ===== src/Value.antt =====
-- The values of the language, as `unknown` and `any` in the source range over them: what
-- `JSON.parse` returns and what is thrown or sent. Numbers are the naturals: versions, statuses,
-- limits and counts; functions, symbols and other numbers do not occur in the modelled paths.
use april_profile_kilo.Base.{
  ℕ, Bool, Option, none, some, List, [], ◌∷◌, Text, text_eq, if◌then◌else◌,
}

mutual
  pub data Value : Type 0 where
    undefined null : Value
    boolean : Bool → Value
    number : ℕ → Value
    string : Text → Value
    array : Items → Value
    object : Fields → Value

  pub data Items : Type 0 where
    nil : Items
    cons : Value → Items → Items

  pub data Fields : Type 0 where
    end : Fields
    field : Text → Value → Fields → Fields

abbrev pub elements : Items → List Value
elements nil = []
elements (cons v vs) = v ∷ elements vs

-- `Object.entries`
abbrev pub entries : Fields → List (Text × Value)
entries end = []
entries (field k v fs) = (k, v) ∷ entries fs

-- A property of an object, `undefined` where it is missing.
unfoldable pub prop : Text → Fields → Value
prop k end = undefined
prop k (field j v fs) = if text_eq j k then v else prop k fs

-- `v?.k`: no data type but objects has the properties that the program reads.
unfoldable pub chain : Text → Value → Value
unfolding prop
chain k (object fs) = prop k fs
chain k v = undefined

-- Writing a property: in place if it is there, at the end otherwise, as in `{ ...fs, k: v }`.
unfoldable pub put : Text → Value → Fields → Fields
put k v end = field k v end
put k v (field j w fs) = if text_eq j k then field j v fs else field j w (put k v fs)

-- `v ?? w`
abbrev pub nullish : Value → Value → Value
nullish undefined w = w
nullish null w = w
nullish v w = v

-- `v ?? undefined`
abbrev pub defined_or : Value → Value
defined_or null = undefined
defined_or v = v

-- The text of a value of `typeof` "string".
abbrev pub as_string : Value → Option Text
as_string (string s) = some s
as_string v = none

-- The fields of a value with `typeof v === "object" && v !== null && !Array.isArray(v)`.
abbrev pub as_object : Value → Option Fields
as_object (object fs) = some fs
as_object v = none

abbrev pub of_option : Option Text → Value
of_option none = undefined
of_option (some s) = string s
