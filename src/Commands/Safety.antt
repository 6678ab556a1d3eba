-- ===== src/Commands/Safety.antt =====
-- Commands that pass src/llm_harness/command_policy.py, and the environment that they get.
use Prim.Native.Char.{code}
use Prim.Native.String.{String}
use ho_h.Prelude.{
  true, false, not, ◌&&◌, ◌⊎◌, ℕ, Option, some, ◌||◌, none, List, [], ◌∷◌, ◌≡◌, inl, inr, sym, ap,
  map, arith, ◌==◌, string_eq, contains, if◌then◌else◌, Bool-cases, eq_of_==,
}
use ho_h.Prelude.Dict.{Dict, lookup}
use ho_h.Prelude.Exec.{Result, ok, err}
use ho_h.Prelude.Lists.{All, keep, nil_of_is_nil}
use ho_h.Prelude.Chars.{number_eq, casefold}
use ho_h.Commands.{
  Platform, is_control_char, all_control, operators_in, shell_operators, executable_name,
  is_running_interpreter, CommandPolicy, blocked_executables, check_program, check_parsed, resolve,
  child_environment,
}

-- The program of a command may run: it is no shell, and it is listed, or the policy asks for no list,
-- or it is the running interpreter.
pub record IsAllowed (platform : Platform) (policy : CommandPolicy) (program : String)
    : Type 0 where
  pub no_shell : contains (executable_name platform program) blocked_executables ≡ false
  pub listed :
      (policy.allow_unlisted_commands
        || is_running_interpreter platform program
        || contains (executable_name platform program) (map casefold policy.allowed_commands))
      ≡ true

-- the codes of the characters of `&|;<>()`
abbrev pub punctuation : List ℕ
punctuation = 38 ∷ 124 ∷ 59 ∷ 60 ∷ 62 ∷ 40 ∷ 41 ∷ []

-- a character of the text is no punctuation of control
pub HasOther : String → Type 0
HasOther String.[] = ⊥
HasOther (String.◌∷◌ c s) = (contains (code c) punctuation ≡ false) ⊎ HasOther s

-- The lexer raises, or no token of it is an operator.
abbrev pub HasNoOperator : Option (List String) → Type 0
HasNoOperator none = Unit
HasNoOperator (some tokens) = All (λ token. (token ≡ "") ⊎ HasOther token) tokens

all_control-HasOther : (s : String) → all_control s ≡ false → HasOther s
unfolding HasOther all_control is_control_char
all_control-HasOther String.[] h = absurd (ground (arith, h))
all_control-HasOther (String.◌∷◌ c s) h = elim (Bool-cases (contains (code c) punctuation)) [
  | inl control ↦ inr (all_control-HasOther s (ground (arith, h, control)))
  | inr other ↦ inl other
]

keep-HasNoOperator :
    (tokens : List String)
    → keep (λ token. not (token == "") && all_control token) tokens ≡ []
    → HasNoOperator (some tokens)
unfolding keep
keep-HasNoOperator [] h = tt
keep-HasNoOperator (t ∷ ts) h = elim (Bool-cases (not (t == "") && all_control t)) [
  | inl operator ↦ absurd (ground (arith, h, operator))
  | inr fine ↦ (
    elim (Bool-cases (t == "")) [
      | inl blank ↦ inl (eq_of_== t "" blank)
      | inr text ↦ inr (all_control-HasOther t (ground (arith, fine, text)))
    ],
    keep-HasNoOperator ts (ground (arith, h, fine)),
  )
]

operators_in-HasNoOperator :
    (lexed : Option (List String)) → operators_in lexed ≡ [] → HasNoOperator lexed
unfolding operators_in
operators_in-HasNoOperator none h = tt
operators_in-HasNoOperator (some tokens) h = keep-HasNoOperator tokens h

module _ (platform : Platform) where
  check_program-IsAllowed :
      (policy : CommandPolicy) (command program : String) (args argv : List String)
      → check_program platform policy command program args ≡ ok argv
      → HasNoOperator (platform.lex command)
        × (argv ≡ program ∷ args)
        × IsAllowed platform policy program
  unfolding check_program shell_operators
  check_program-IsAllowed policy command program args argv h = (
    operators_in-HasNoOperator (platform.lex command)
        (nil_of_is_nil (shell_operators platform command) (ground (arith, h))),
    ground (arith, h),
    record { no_shell = ground (arith, h); listed = ground (arith, h) },
  )

  check_parsed-IsAllowed :
      (policy : CommandPolicy) (command : String) (parsed : Result String (List String))
      (argv : List String)
      → check_parsed platform policy command parsed ≡ ok argv
      → (parsed ≡ ok argv)
        × HasNoOperator (platform.lex command)
        × ((program : String) × (args : List String) × (argv ≡ program ∷ args)
            × IsAllowed platform policy program)
  unfolding check_parsed
  check_parsed-IsAllowed policy command (err message) argv h = absurd (ground (arith, h))
  check_parsed-IsAllowed policy command (ok []) argv h = absurd (ground (arith, h))
  check_parsed-IsAllowed policy command (ok (program ∷ args)) argv h =
      let (none_found, same, allowed) =
        check_program-IsAllowed policy command program args argv h in
      (sym (ap ok same), none_found, (program, args, same, allowed))

  -- A command that is resolved is the command as `shlex.split` parses it, and it is not empty. Of the
  -- tokens of the lexer of `_shell_operators`, unless it raises, each is empty or has a character that
  -- is none of `&|;<>()`. The first word is the program: it is no blocked executable, and it is in the
  -- allowed list, or the policy asks for no list, or it is the running interpreter.
  pub resolve-IsAllowed :
      (policy : CommandPolicy) (command : String) (argv : List String)
      → resolve platform policy command ≡ ok argv
      → (platform.split command ≡ ok argv)
        × HasNoOperator (platform.lex command)
        × ((program : String) × (args : List String) × (argv ≡ program ∷ args)
            × IsAllowed platform policy program)
  unfolding resolve
  resolve-IsAllowed policy command argv h =
      check_parsed-IsAllowed policy command (platform.split command) argv (ground (arith, h))

  lookup-keep :
      (name : String) (environment : Dict String)
      → lookup name (keep (λ p. not (platform.is_secret p.0)) environment)
        ≡ (if not (platform.is_secret name) then lookup name environment else none)
  unfolding lookup keep
  lookup-keep name [] = ground arith
  lookup-keep name ((k, v) ∷ rest) = elim (Bool-cases (k == name)) [
    | inl same ↦ ground (arith, lookup-keep name rest, ap platform.is_secret (eq_of_== k name same))
    | inr differ ↦ ground (arith, lookup-keep name rest, differ)
  ]

  -- A child process sees a variable as the parent does, except that it does not see one with the
  -- name of a secret unless the policy passes secrets on.
  pub lookup-child_environment :
      (policy : CommandPolicy) (environment : Dict String) (name : String)
      → lookup name (child_environment platform policy environment) ≡ (
          if policy.inherit_secret_environment || not (platform.is_secret name)
          then lookup name environment
          else none)
  unfolding child_environment
  lookup-child_environment policy environment name = ground (arith, lookup-keep name environment)
