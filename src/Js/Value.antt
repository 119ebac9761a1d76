-- ===== src/Js/Value.antt =====
-- JavaScript values as they come out of a decoder, with the operators that the program applies to
-- them. A number is a natural: the program reads only request ids, ports and counts from a message.
use try_o_rama.Prelude.{
  ℕ, String, Bool, true, false, not, List, Option, none, some, str_eq, ◌==◌, if◌then◌else◌,
}

abbrev pub Bytes : Type 0
Bytes = List ℕ

mutual
  -- the properties of an object, in their order
  pub data Fields : Type 0 where
    end : Fields
    field : String → Value → Fields → Fields

  pub data Value : Type 0 where
    undefined : Value
    null : Value
    bool : Bool → Value
    str : String → Value
    num : ℕ → Value
    -- a `Uint8Array` or `Buffer`
    bin : Bytes → Value
    obj : Fields → Value
    arr : Items → Value

  -- the elements of an array
  pub data Items : Type 0 where
    nil : Items
    cons : Value → Items → Items

-- An object with two or three properties.
abbrev pub pair : String → Value → String → Value → Value
pair k v l w = obj (field k v (field l w end))

abbrev pub triple : String → Value → String → Value → String → Value → Value
triple k v l w m x = obj (field k v (field l w (field m x end)))

unfoldable pub find_field : String → Fields → Option Value
find_field k end = none
find_field k (field j v fs) = if str_eq j k then some v else find_field k fs

abbrev pub is_some {ℓ} : {A : Type ℓ} → Option A → Bool
is_some none = false
is_some (some a) = true

abbrev pub or_undefined : Option Value → Value
or_undefined none = undefined
or_undefined (some v) = v

-- `typeof v === "object"` and `v !== null`: arrays and byte arrays are objects too.
abbrev pub is_object : Value → Bool
is_object (bin b) = true
is_object (arr xs) = true
is_object (obj fs) = true
is_object v = false

-- `k in v` for an object `v`. Of what byte arrays and arrays have or inherit, the program asks
-- for `BYTES_PER_ELEMENT` alone.
unfoldable pub has_key : String → Value → Bool
unfolding find_field
has_key k (obj fs) = is_some (find_field k fs)
has_key k (bin b) = str_eq k "BYTES_PER_ELEMENT"
has_key k v = false

-- `v.k` for a `v` that is neither `null` nor `undefined`. Of the properties that other values
-- than plain objects have, the program reads none through this.
unfoldable pub get : String → Value → Value
unfolding find_field
get k (obj fs) = or_undefined (find_field k fs)
get k v = undefined

-- `v === "text"`
unfoldable pub is_str : String → Value → Bool
is_str s (str t) = str_eq t s
is_str s v = false

-- `typeof v === "string"`
abbrev pub is_string : Value → Bool
is_string (str t) = true
is_string v = false

abbrev pub is_null : Value → Bool
is_null null = true
is_null v = false

abbrev pub is_nullish : Value → Bool
is_nullish undefined = true
is_nullish null = true
is_nullish v = false

-- `Boolean(v)`
unfoldable pub truthy : Value → Bool
truthy undefined = false
truthy null = false
truthy (bool b) = b
truthy (num n) = not (n == 0)
truthy (str s) = not (str_eq s "")
truthy v = true

-- `a ?? b`
abbrev pub or_else : Value → Value → Value
or_else a b = if is_nullish a then b else a

-- An optional text of a TypeScript interface, as a property's value.
abbrev pub optional_str : Option String → Value
optional_str none = undefined
optional_str (some s) = str s

-- `{ ...fields, [k]: v }`: a property is overwritten in its place, or added at the end.
unfoldable pub set_field : String → Value → Fields → Fields
set_field k v end = field k v end
set_field k v (field j w fs) = if str_eq j k then field j v fs else field j w (set_field k v fs)
