-- ===== src/Verifier/Headers.antt =====
-- The header lines of a patch, as src/llm_harness/verifier.py reads them.
use Prim.Native.Char.{code}
use Prim.Native.String
use Prim.Native.String.{String}
use ho_h.Prelude.{
  not, ◌&&◌, ◌||◌, Option, none, some, List, [], ◌∷◌, ◌==◌, string_eq, if◌then◌else◌,
}
use ho_h.Prelude.Chars.{number_eq, strip, rstrip, after_prefix, has_prefix, before_char}
use ho_h.Prelude.Exec.{Result, ok}
use ho_h.Prelude.Members.{unique}
use ho_h.Prelude.Results.{◌>>=◌}
use ho_h.Verifier.Quoted.{Utf8, read_quoted_token}

-- `candidate or None`
abbrev pub unless_empty : String → Option String
unless_empty name = if name == "" then none else some name

abbrev or_else : Option String → Option String → Option String
or_else (some a) b = some a
or_else none b = b

abbrev or_itself : String → Option String → String
or_itself name none = name
or_itself name (some rest) = rest

-- `_strip_diff_prefix`
unfoldable pub strip_diff_prefix : String → Option String
unfolding strip after_prefix
strip_diff_prefix name =
    let candidate = strip name in
    if candidate == "" || candidate == "/dev/null"
    then none
    else unless_empty
        (or_itself candidate (or_else (after_prefix "a/" candidate) (after_prefix "b/" candidate)))

-- `tuple(name for name in names if name)`
abbrev pub present : List (Option String) → List String
present [] = []
present (none ∷ names) = present names
present (some name ∷ names) = if name == "" then present names else name ∷ present names

-- `names or None`
abbrev pub unless_nil : List String → Option (List String)
unless_nil [] = none
unless_nil (n ∷ ns) = some (n ∷ ns)

unfoldable pub distinct_names : List (Option String) → Option (List String)
unfolding unique
distinct_names names = unless_nil (unique (present names))

-- The pairs of texts around the spaces of `rest`, where the first starts with `a/` and the other with
-- `b/`, without these; `left` is what stands before.
abbrev pub with_candidate :
    Option String → Option String → List (String × String) → List (String × String)
with_candidate (some left) (some right) more = (left, right) ∷ more
with_candidate _ _ more = more

unfoldable pub candidates_from : String → String → List (String × String)
unfolding after_prefix
candidates_from left String.[] = []
candidates_from left (String.◌∷◌ c s) =
    let more = candidates_from (String.◌++◌ left (String.◌∷◌ c String.[])) s in
    if code c == 32
    then with_candidate (after_prefix "a/" left) (after_prefix "b/" s) more
    else more

-- the first pair of equal names that are not empty
unfoldable pub first_equal : List (String × String) → Option String
first_equal [] = none
first_equal ((left, right) ∷ more) =
    let rest = first_equal more in if left == right && not (left == "") then some left else rest

unfoldable pub chosen : List (String × String) → Option (List String)
chosen candidates = elim (first_equal candidates) [
  | some name ↦ some (name ∷ [])
  | none ↦ only candidates
]
  where
    only : List (String × String) → Option (List String)
    only ((left, right) ∷ []) = distinct_names (some left ∷ some right ∷ [])
    only _ = none

module _ (utf8 : Utf8) where
  -- the second name of a header whose first name is quoted
  unfoldable pub second_name : String → Result String (Option String)
  second_name remainder =
      if has_prefix "\"" remainder
      then read_quoted_token utf8 remainder >>= (λ (second, tail).
        ok (elim second [ none ↦ none | some name ↦ if strip tail == "" then some name else none ]))
      else ok (some remainder)

  unfoldable pub quoted_header : String → Result String (Option (List String))
  quoted_header rest = read_quoted_token utf8 rest >>= λ (first, after). elim first [
    | none ↦ ok none
    | some name ↦
        if strip after == ""
        then ok none
        else second_name (strip after) >>= (λ second. ok (elim second [
          | none ↦ none
          | some other ↦ distinct_names (strip_diff_prefix name ∷ strip_diff_prefix other ∷ [])
        ]))
  ]

  -- `_git_header_paths`
  unfoldable pub git_header_paths : String → Result String (Option (List String))
  git_header_paths text =
      let rest = rstrip text in
      if rest == ""
      then ok none
      else if has_prefix "\"" rest
      then quoted_header rest
      else ok (chosen (candidates_from "" rest))

  -- `_decode_path_token`
  unfoldable pub decode_path_token : String → Result String (Option String)
  decode_path_token token =
      let candidate = rstrip (before_char 9 token) in
      if has_prefix "\"" candidate
      then read_quoted_token utf8 candidate >>= (λ (decoded, tail). ok (elim decoded [
        | none ↦ none
        | some name ↦ if strip tail == "" then strip_diff_prefix name else none
      ]))
      else ok (strip_diff_prefix candidate)
