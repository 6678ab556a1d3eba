-- ===== src/Json.antt =====
-- JSON values as Python holds them: dictionaries keep the order of insertion.
use ho_h.Prelude.{String, Bool, Option, none, some, List, [], ◌∷◌, ◌==◌, string_eq, if◌then◌else◌}
use ho_h.Prelude.Int.{ℤ}

mutual
  pub data Json : Type 0 where
    null : Json
    flag : Bool → Json
    int : ℤ → Json
    float : String → Json
    str : String → Json
    arr : Items → Json
    obj : Fields → Json

  pub data Items : Type 0 where
    nil : Items
    cons : Json → Items → Items

  pub data Fields : Type 0 where
    end : Fields
    field : String → Json → Fields → Fields

-- `data.get(key)`, with `none` for a key that is not there
unfoldable pub get : String → Fields → Option Json
get key end = none
get key (field k v rest) = if k == key then some v else get key rest

abbrev pub items : List Json → Items
items [] = nil
items (x ∷ xs) = cons x (items xs)

abbrev pub fields : List (String × Json) → Fields
fields [] = end
fields ((k, v) ∷ rest) = field k v (fields rest)

-- a dictionary display `{key: value, ...}` with distinct keys
abbrev pub object : List (String × Json) → Json
object kvs = obj (fields kvs)

abbrev pub optional_str : Option String → Json
optional_str none = null
optional_str (some s) = str s

abbrev pub str_items : List String → Items
str_items [] = nil
str_items (s ∷ ss) = cons (str s) (str_items ss)

-- `list(strings)`
abbrev pub str_list : List String → Json
str_list ss = arr (str_items ss)
