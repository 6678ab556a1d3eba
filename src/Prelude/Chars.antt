-- ===== src/Prelude/Chars.antt =====
-- Python's string methods that walk the characters. `casefold` is that of ASCII letters: other
-- characters are left as they are.
pub mod Strip
use Prim.Native.Char.{Char, code}
use Prim.Native.Nat.{ℕ}
use Prim.Native.String.{String}
use mathlib.Core.Bool.{Bool, true, false, not, ◌&&◌, ◌||◌}
use mathlib.Core.Option.{Option, none, some}
use mathlib.Core.List.{List, [], ◌∷◌}
use native.Mathlib.Decide.{ℕ_discrete}
use ho_h.Prelude.Lists.{keep}
use ho_h.Prelude.Tests.{Eq, ◌==◌, leb, if◌then◌else◌}

instance abbrev pub number_eq : Eq ℕ
number_eq = record { dec = ℕ_discrete }

-- The character that stands in the second text where `c` stands in the first one.
translate_char : String → String → Char → Char
translate_char (String.◌∷◌ a as') (String.◌∷◌ b bs) c =
    if code a == code c then b else translate_char as' bs c
translate_char _ _ c = c

-- `text.translate(...)`, `text.replace(x, y)` for single characters
unfoldable pub translate : String → String → String → String
unfolding translate_char
translate from to String.[] = String.[]
translate from to (String.◌∷◌ c s) = String.◌∷◌ (translate_char from to c) (translate from to s)

unfoldable pub casefold : String → String
unfolding translate
casefold = translate "ABCDEFGHIJKLMNOPQRSTUVWXYZ" "abcdefghijklmnopqrstuvwxyz"

-- `str.isspace` of one character
is_space : Char → Bool
is_space c =
    (leb 9 (code c) && leb (code c) 13)
    || (leb 28 (code c) && leb (code c) 32)
    || (leb 0x2000 (code c) && leb (code c) 0x200a)
    || code c == 0x85
    || code c == 0xa0
    || code c == 0x1680
    || code c == 0x2028
    || code c == 0x2029
    || code c == 0x202f
    || code c == 0x205f
    || code c == 0x3000

strip_left : (Char → Bool) → String → String
strip_left test String.[] = String.[]
strip_left test (String.◌∷◌ c s) =
    let rest = strip_left test s in if test c then rest else String.◌∷◌ c s

unless_blank : (Char → Bool) → Char → String → String
unless_blank test c String.[] = if test c then String.[] else String.◌∷◌ c String.[]
unless_blank test c s = String.◌∷◌ c s

strip_right : (Char → Bool) → String → String
strip_right test String.[] = String.[]
strip_right test (String.◌∷◌ c s) = unless_blank test c (strip_right test s)

-- `text.strip()`
unfoldable pub strip : String → String
unfolding strip_left strip_right unless_blank is_space ℕ_discrete
strip s = strip_right is_space (strip_left is_space s)

-- `text.rstrip()`
unfoldable pub rstrip : String → String
unfolding strip_right unless_blank is_space ℕ_discrete
rstrip s = strip_right is_space s

-- `text.strip("/")`
unfoldable pub strip_slashes : String → String
unfolding strip_left strip_right unless_blank ℕ_discrete
strip_slashes s = let slash = λ (c : Char). code c == b'/' in strip_right slash (strip_left slash s)

-- the truth value of a text
unfoldable pub is_empty : String → Bool
is_empty String.[] = true
is_empty (String.◌∷◌ _ _) = false

-- `text.replace(c, "")` for a single character
unfoldable pub remove : ℕ → String → String
remove n String.[] = String.[]
remove n (String.◌∷◌ c s) = let rest = remove n s in if code c == n then rest else String.◌∷◌ c rest

-- What stands behind the prefix, if the text starts with it.
unfoldable pub after_prefix : String → String → Option String
unfolding ℕ_discrete
after_prefix String.[] s = some s
after_prefix (String.◌∷◌ a as') String.[] = none
after_prefix (String.◌∷◌ a as') (String.◌∷◌ b s) = elim (code a == code b) [
  | true ↦ after_prefix as' s
  | false ↦ none
]

-- `text.startswith(prefix)`
unfoldable pub has_prefix : String → String → Bool
unfolding after_prefix
has_prefix prefix s = elim (after_prefix prefix s) [ none ↦ false | some _ ↦ true ]

-- `text.split(c, 1)[0]`
unfoldable pub before_char : ℕ → String → String
unfolding ℕ_discrete
before_char n String.[] = String.[]
before_char n (String.◌∷◌ c s) =
    let rest = before_char n s in if code c == n then String.[] else String.◌∷◌ c rest

-- what stands behind the first `c`, or nothing
unfoldable pub after_char : ℕ → String → String
unfolding ℕ_discrete
after_char n String.[] = String.[]
after_char n (String.◌∷◌ c s) = let rest = after_char n s in if code c == n then s else rest

-- the line boundaries of `str.splitlines`
is_break : Char → Bool
is_break c =
    (leb 10 (code c) && leb (code c) 13)
    || (leb 28 (code c) && leb (code c) 30)
    || code c == 0x85
    || code c == 0x2028
    || code c == 0x2029

onto_first : Char → List String → List String
onto_first c [] = String.◌∷◌ c String.[] ∷ []
onto_first c (l ∷ ls) = String.◌∷◌ c l ∷ ls

-- The flag says that a carriage return stands before the text, so that a line feed belongs to it.
lines_from : String → Bool → List String
lines_from String.[] returned = []
lines_from (String.◌∷◌ c s) returned = elim (returned && code c == b'\n') [
  | true ↦ lines_from s false
  | false ↦ elim (is_break c) [
    | true ↦ String.[] ∷ lines_from s (code c == b'\r')
    | false ↦ onto_first c (lines_from s false)
  ]
]

-- `text.splitlines()`
unfoldable pub split_lines : String → List String
unfolding lines_from onto_first is_break ℕ_discrete
split_lines s = lines_from s false

-- the texts between the characters that pass the test
split_by : (Char → Bool) → String → List String
split_by test String.[] = String.[] ∷ []
split_by test (String.◌∷◌ c s) =
    let rest = split_by test s in if test c then String.[] ∷ rest else onto_first c rest

-- `text.split(c)`
unfoldable pub split_char : ℕ → String → List String
unfolding split_by onto_first ℕ_discrete
split_char n = split_by λ (c : Char). code c == n

-- `text.split()`
unfoldable pub words : String → List String
unfolding split_by onto_first is_space is_empty keep ℕ_discrete
words s = keep (λ (t : String). not (is_empty t)) (split_by is_space s)
