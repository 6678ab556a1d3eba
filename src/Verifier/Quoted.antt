-- ===== src/Verifier/Quoted.antt =====
-- `_read_quoted_token` of src/llm_harness/verifier.py: a path in C quotes.
use Prim.Native.Char.{Char, code}
use Prim.Native.Nat.{ℕ, ◌+◌, ◌*◌, ◌-◌}
use Prim.Native.String.{String}
use ho_h.Prelude.{
  true, false, ◌&&◌, Option, none, some, List, [], ◌∷◌, ◌++◌, ◌==◌, leb, if◌then◌else◌,
}
use ho_h.Prelude.Chars.{number_eq}
use ho_h.Prelude.Exec.{Result, ok, err}

-- UTF-8: the bytes of a character, and the text of bytes, `none` for a `UnicodeDecodeError`
pub record Utf8 : Type 0 where
  pub encode : Char → List ℕ
  pub decode : List ℕ → Option String

-- `_C_ESCAPES.get(char)`
unfoldable pub c_escape : Char → Option ℕ
c_escape c =
    if code c == 34
    then some 0x22
    else if code c == 92
    then some 0x5c
    else if code c == b'a'
    then some 0x07
    else if code c == b'b'
    then some 0x08
    else if code c == b'f'
    then some 0x0c
    else if code c == b'n'
    then some 0x0a
    else if code c == b'r'
    then some 0x0d
    else if code c == b't'
    then some 0x09
    else if code c == b'v'
    then some 0x0b
    else none

abbrev pub octal_digit : Char → Option ℕ
octal_digit c = if leb 48 (code c) && leb (code c) 55 then some (code c - 48) else none

-- Where the index stands: outside an escape, behind a backslash, or behind one or two octal digits.
pub data Mode : Type 0 where
  plain escape : Mode
  one_digit : ℕ → Mode
  two_digits : ℕ → ℕ → Mode

-- The name and the rest of the text, or `none` and an empty rest. The error is the `ValueError` of
-- `bytearray.append`, for an octal escape above 255.
abbrev pub Token : Type 0
Token = Result String (Option String × String)

abbrev unreadable : Token
unreadable = ok (none, "")

abbrev byte_error : String
byte_error = "byte must be in range(0, 256)"

abbrev decoded : Option String → String → Token
decoded none rest = ok (none, "")
decoded (some name) rest = ok (some name, rest)

module _ (utf8 : Utf8) where
  -- the loop, behind the opening quote
  unfoldable pub read_from : String → Mode → List ℕ → Token
  read_from String.[] mode raw = unreadable
  read_from (String.◌∷◌ c s) plain raw = elim (code c == 34) [
    | true ↦ decoded (utf8.decode raw) s
    | false ↦ elim (code c == 92) [
      | true ↦ read_from s escape raw
      | false ↦ read_from s plain (raw ++ utf8.encode c)
    ]
  ]
  read_from (String.◌∷◌ c s) escape raw = elim (c_escape c) [
    | some byte ↦ read_from s plain (raw ++ byte ∷ [])
    | none ↦ elim (octal_digit c) [ some a ↦ read_from s (one_digit a) raw | none ↦ unreadable ]
  ]
  read_from (String.◌∷◌ c s) (one_digit a) raw = elim (octal_digit c) [
    | some b ↦ read_from s (two_digits a b) raw
    | none ↦ unreadable
  ]
  read_from (String.◌∷◌ c s) (two_digits a b) raw = elim (octal_digit c) [
    | some d ↦ elim (leb (64 * a + 8 * b + d) 255) [
      | true ↦ read_from s plain (raw ++ (64 * a + 8 * b + d) ∷ [])
      | false ↦ err byte_error
    ]
    | none ↦ unreadable
  ]

  -- `_read_quoted_token` of a text that starts with a quote
  unfoldable pub read_quoted_token : String → Token
  unfolding read_from
  read_quoted_token String.[] = unreadable
  read_quoted_token (String.◌∷◌ _ s) = read_from s plain []
