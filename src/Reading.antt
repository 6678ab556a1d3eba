-- ===== src/Reading.antt =====
-- Checked fields of a decoded JSON object, as src/llm_harness/tasks.py and src/llm_harness/lifecycle.py
-- read them. Both have the same helpers; `label` is the beginning of their messages, `Task field '` or
-- `Project spec field '`.
use ho_h.Prelude.{String, Option, none, some, List, [], ◌∷◌, ◌==◌, string_eq, format, if◌then◌else◌}
use ho_h.Prelude.Chars.{strip}
use ho_h.Prelude.Exec.{Result, ok, err}
use ho_h.Prelude.Int.{ℤ, pos}
use ho_h.Prelude.Results.{◌>>=◌}
use ho_h.Json.{Json, null, int, str, arr, get, Items, nil, cons, Fields}

module _ (label : String) where
  abbrev pub field_error : {A : Type 0} → String → String → Result String A
  field_error key rest = err (format (label ∷ key ∷ "' " ∷ rest ∷ []))

  -- a text with something in it, without the spaces around it
  abbrev pub stripped_or : String → String → String → Result String String
  stripped_or key rest value = if strip value == "" then field_error key rest else ok (strip value)

  abbrev pub text_of : String → Option Json → Result String String
  text_of key (some (str value)) = stripped_or key "must be a non-empty string." value
  text_of key _ = field_error key "must be a non-empty string."

  unfoldable pub required_string : Fields → String → Result String String
  required_string payload key = text_of key (get key payload)

  abbrev pub optional_text_of : String → Option Json → Result String (Option String)
  optional_text_of key none = ok none
  optional_text_of key (some null) = ok none
  optional_text_of key (some (str value)) =
      stripped_or key "must be null or a non-empty string." value >>= λ s. ok (some s)
  optional_text_of key (some _) = field_error key "must be null or a non-empty string."

  unfoldable pub optional_mapping_string : Fields → String → Result String (Option String)
  optional_mapping_string payload key = optional_text_of key (get key payload)

  abbrev pub integer_of : String → Option Json → Result String ℤ
  integer_of key none = ok (pos 0)
  integer_of key (some (int value)) = ok value
  integer_of key (some _) = field_error key "must be an integer."

  unfoldable pub optional_integer : Fields → String → Result String ℤ
  optional_integer payload key = integer_of key (get key payload)

  abbrev pub item_of : String → Json → Result String String
  item_of key (str value) = stripped_or key "must be a list of non-empty strings." value
  item_of key _ = field_error key "must be a list of non-empty strings."

  -- the loop over the items
  unfoldable pub strings_from : String → Items → Result String (List String)
  strings_from key nil = ok []
  strings_from key (cons x xs) = item_of key x >>= λ s. strings_from key xs >>= λ ss. ok (s ∷ ss)

  abbrev pub list_of : String → Option Json → Result String (List String)
  list_of key none = ok []
  list_of key (some null) = ok []
  list_of key (some (arr xs)) = strings_from key xs
  list_of key (some _) = field_error key "must be a list of strings."

  unfoldable pub optional_string_tuple : Fields → String → Result String (List String)
  unfolding strings_from
  optional_string_tuple payload key = list_of key (get key payload)

  abbrev pub unless_none : String → List String → Result String (List String)
  unless_none key [] = field_error key "must contain at least one item."
  unless_none key (s ∷ ss) = ok (s ∷ ss)

  unfoldable pub required_string_tuple : Fields → String → Result String (List String)
  required_string_tuple payload key = optional_string_tuple payload key >>= unless_none key
