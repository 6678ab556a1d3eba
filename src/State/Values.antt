-- ===== src/State/Values.antt =====
-- Python's conversions that the `_..._from_json` functions of src/llm_harness/state.py apply to the
-- values of a parsed document: `str`, `int`, `bool`, truth, iteration and `data[key]`.
use Prim.Native.String.{String}
use ho_h.Prelude.{Bool, true, false, not, Option, none, some, List, [], ◌∷◌, ◌==◌, string_eq}
use ho_h.Prelude.Int.{ℤ, pos, int_eq, show_int}
use ho_h.Prelude.Exec.{Result, ok, err}
use ho_h.Json.{Json, null, flag, int, float, str, arr, obj, Items, Fields, get}
use ho_h.State.Records.{Error, state_store_error, key_error, type_error, value_error}
use ho_h.Prelude.Results.{◌>>=◌}

-- What the interpreter makes of values that the model does not look into: the text of a list or a
-- dictionary, the integer in a text (`none` where `int` raises) or of a float, and whether a float
-- is zero.
pub record Python : Type 0 where
  pub repr : Json → String
  pub int_of_text : String → Option ℤ
  pub int_of_float : String → Option ℤ
  pub is_zero : String → Bool

abbrev pub Decoded {ℓ} : Type ℓ → Type ℓ
Decoded A = Result Error A

characters : String → List String
characters String.[] = []
characters (String.◌∷◌ c s) = String.◌∷◌ c String.[] ∷ characters s

keys : Fields → List String
keys Fields.end = []
keys (Fields.field k v rest) = k ∷ keys rest

-- `data[key]`
unfoldable pub at_key : String → Fields → Decoded Json
at_key key data' = elim (get key data') [ none ↦ err (key_error key) | some v ↦ ok v ]

-- `data.get(key, default)`
unfoldable pub get_or : String → Json → Fields → Json
get_or key default data' = elim (get key data') [ none ↦ default | some v ↦ v ]

-- `isinstance(data, dict)`, or an error with the message
unfoldable pub expect_object : String → Json → Decoded Fields
expect_object message (obj data') = ok data'
expect_object message _ = err (state_store_error message)

int_or_error : String → Option ℤ → Decoded ℤ
int_or_error text none = err (value_error text)
int_or_error text (some z) = ok z

module _ (py : Python) where
  unfoldable pub str_of : Json → String
  str_of null = "None"
  str_of (flag true) = "True"
  str_of (flag false) = "False"
  str_of (int z) = show_int z
  str_of (float text) = text
  str_of (str s) = s
  str_of (arr items) = py.repr (arr items)
  str_of (obj data') = py.repr (obj data')

  unfoldable pub int_of : Json → Decoded ℤ
  unfolding int_or_error
  int_of (int z) = ok z
  int_of (flag true) = ok (pos 1)
  int_of (flag false) = ok (pos 0)
  int_of (str s) = int_or_error s (py.int_of_text s)
  int_of (float text) = int_or_error text (py.int_of_float text)
  int_of _ = err type_error

  -- `bool(value)`
  unfoldable pub truthy : Json → Bool
  truthy null = false
  truthy (flag b) = b
  truthy (int z) = not (z == pos 0)
  truthy (float text) = not (py.is_zero text)
  truthy (str s) = not (s == "")
  truthy (arr Items.nil) = false
  truthy (arr _) = true
  truthy (obj Fields.end) = false
  truthy (obj _) = true

  -- `str(data[key])`
  unfoldable pub str_at : String → Fields → Decoded String
  unfolding at_key
  str_at key data' = at_key key data' >>= λ v. ok (str_of v)

  -- `str(data.get(key) or "")`
  unfoldable pub str_or_empty : Option Json → String
  str_or_empty none = ""
  str_or_empty (some v) = elim (truthy v) [ true ↦ str_of v | false ↦ "" ]

  -- `int(data.get(key) or 0)`
  unfoldable pub int_or_zero : Option Json → Decoded ℤ
  int_or_zero none = ok (pos 0)
  int_or_zero (some v) = elim (truthy v) [ true ↦ int_of v | false ↦ ok (pos 0) ]

  -- `_optional_string(data.get(key))`
  unfoldable pub optional_string : Option Json → Option String
  optional_string none = none
  optional_string (some null) = none
  optional_string (some v) = some (str_of v)

  -- `_optional_int(data.get(key))`
  unfoldable pub optional_int : Option Json → Decoded (Option ℤ)
  optional_int none = ok none
  optional_int (some null) = ok none
  optional_int (some v) = int_of v >>= λ z. ok (some z)

  unfoldable pub strings_of : Items → List String
  strings_of Items.nil = []
  strings_of (Items.cons v items) = str_of v ∷ strings_of items

  -- `tuple(str(item) for item in value)`
  unfoldable pub strings : Json → Decoded (List String)
  unfolding characters keys
  strings (arr items) = ok (strings_of items)
  strings (str s) = ok (characters s)
  strings (obj data') = ok (keys data')
  strings _ = err type_error

  -- `data.get(key, ())` as strings
  unfoldable pub strings_at : String → Fields → Decoded (List String)
  unfolding get_or
  strings_at key data' = strings (get_or key (arr Items.nil) data')

-- `tuple(decode(item) for item in value)`: the first item that fails raises. Every `decode` here
-- refuses an item that is not an object, such as a character or a key.
unfoldable pub decode_items {ℓ} : {A : Type ℓ} → (Json → Decoded A) → Items → Decoded (List A)
decode_items decode Items.nil = ok []
decode_items decode (Items.cons v items) =
    decode v >>= λ a. decode_items decode items >>= λ rest. ok (a ∷ rest)

str_values : List String → Items
str_values [] = Items.nil
str_values (s ∷ ss) = Items.cons (str s) (str_values ss)

unfoldable pub decode_each {ℓ} : {A : Type ℓ} → (Json → Decoded A) → Json → Decoded (List A)
unfolding str_values characters keys decode_items
decode_each decode (arr items) = decode_items decode items
decode_each decode (str s) = decode_items decode (str_values (characters s))
decode_each decode (obj data') = decode_items decode (str_values (keys data'))
decode_each decode _ = err type_error
