-- ===== src/Commands.antt =====
-- src/llm_harness/command_policy.py: what a task's verification commands may run, and the environment
-- that they see.
pub mod Safety
use Prim.Native.Char.{Char, code}
use Prim.Native.String.{String}
use ho_h.Prelude.{
  Bool, true, false, not, ◌&&◌, ◌||◌, Option, none, some, List, [], ◌∷◌, map, ◌==◌, string_eq,
  format, contains, if◌then◌else◌,
}
use ho_h.Prelude.Dict.{Dict}
use ho_h.Prelude.Exec.{Result, ok, err}
use ho_h.Prelude.Lists.{is_nil, keep}
use ho_h.Prelude.Chars.{number_eq, translate, casefold, strip, is_empty}

-- The modules that the policy calls: `shlex.split`, with the message of its `ValueError`; the tokens
-- of the lexer of `_shell_operators`, if it does not raise, which need not be the words of `shlex.split`:
-- that lexer takes `#` for the start of a comment; `PurePath(...).name`; whether a program resolves to
-- `sys.executable`, with `none` for an `OSError`; and `SECRET_ENV_RE.search`.
pub record Platform : Type 0 where
  pub split : String → Result String (List String)
  pub lex : String → Option (List String)
  pub file_name : String → String
  pub same_program : String → Option Bool
  pub is_secret : String → Bool

-- `_CONTROL_PUNCTUATION`
unfoldable pub is_control_char : Char → Bool
is_control_char c = contains (code c) (38 ∷ 124 ∷ 59 ∷ 60 ∷ 62 ∷ 40 ∷ 41 ∷ [])

unfoldable pub all_control : String → Bool
all_control String.[] = true
all_control (String.◌∷◌ c s) = is_control_char c && all_control s

-- the tokens that `_shell_operators` picks
unfoldable pub operators_in : Option (List String) → List String
unfolding all_control is_control_char
operators_in none = []
operators_in (some tokens) = keep (λ token. not (token == "") && all_control token) tokens

with_char : Char → Option String → Option String
with_char c none = none
with_char c (some s) = some (String.◌∷◌ c s)

-- the text without the suffix, if it ends with it
unfoldable pub without_suffix : String → String → Option String
unfolding with_char
without_suffix suffix String.[] = none
without_suffix suffix (String.◌∷◌ c s) =
    let shorter = with_char c (without_suffix suffix s) in
    if String.◌∷◌ c s == suffix then some "" else shorter

-- the loop of `_executable_name`
unfoldable pub strip_first_suffix : List String → String → String
strip_first_suffix [] name = name
strip_first_suffix (suffix ∷ suffixes) name = elim (without_suffix suffix name) [
  | some rest ↦ rest
  | none ↦ strip_first_suffix suffixes name
]

-- `_is_running_interpreter`, of the outcome of the comparison
abbrev true_or_error : Option Bool → Bool
true_or_error none = false
true_or_error (some b) = b

abbrev pub default_allowed_commands : List String
default_allowed_commands =
    "cargo" ∷ "composer" ∷ "ctest" ∷ "dotnet" ∷ "flake8" ∷ "go" ∷ "gradle" ∷ "gradlew" ∷ "java"
    ∷ "make" ∷ "mvn" ∷ "mypy" ∷ "node" ∷ "npm" ∷ "npx" ∷ "phpunit" ∷ "pnpm" ∷ "poetry" ∷ "py"
    ∷ "pytest" ∷ "python" ∷ "python3" ∷ "rake" ∷ "ruff" ∷ "ruby" ∷ "tox" ∷ "yarn" ∷ []

abbrev pub blocked_executables : List String
blocked_executables =
    "ash" ∷ "bash" ∷ "busybox" ∷ "cmd" ∷ "cmd.exe" ∷ "csh" ∷ "dash" ∷ "env" ∷ "fish" ∷ "ksh"
    ∷ "powershell" ∷ "powershell.exe" ∷ "pwsh" ∷ "sh" ∷ "start" ∷ "tcsh" ∷ "zsh" ∷ []

pub record CommandPolicy : Type 0 where
  pub allowed_commands : List String
  pub allow_unlisted_commands : Bool
  pub inherit_secret_environment : Bool

-- the defaults of `CommandPolicy` and of `OperatorCommandPolicy`
abbrev pub default_policy : CommandPolicy
default_policy = record {
  allowed_commands = default_allowed_commands;
  allow_unlisted_commands = false;
  inherit_secret_environment = false;
}

abbrev pub operator_policy : CommandPolicy
operator_policy = record {
  allowed_commands = [];
  allow_unlisted_commands = true;
  inherit_secret_environment = true;
}

-- Why a `CommandPolicyError` is raised.
pub data Refusal : Type 0 where
  empty_command : Refusal
  unparsable : String → Refusal
  uses_operators : List String → Refusal
  starts_shell : String → Refusal
  not_listed : String → Refusal

module _ (platform : Platform) where
  unfoldable pub shell_operators : String → List String
  shell_operators command = operators_in (platform.lex command)

  unfoldable pub executable_name : String → String
  executable_name value =
      strip_first_suffix (".exe" ∷ ".cmd" ∷ ".bat" ∷ ".com" ∷ [])
        (casefold (platform.file_name (translate "\\" "/" value)))

  unfoldable pub is_running_interpreter : String → Bool
  is_running_interpreter program = true_or_error (platform.same_program program)

  -- the guards of `resolve` on the parsed command
  unfoldable pub check_program :
      CommandPolicy → String → String → List String → Result Refusal (List String)
  check_program policy command program args =
      let executable = executable_name program in
      let operators = shell_operators command in
      if not (is_nil operators)
      then err (uses_operators operators)
      else if contains executable blocked_executables
      then err (starts_shell executable)
      else if policy.allow_unlisted_commands || is_running_interpreter program
      then ok (program ∷ args)
      else if not (contains executable (map casefold policy.allowed_commands))
      then err (not_listed executable)
      else ok (program ∷ args)

  unfoldable pub check_parsed :
      CommandPolicy → String → Result String (List String) → Result Refusal (List String)
  check_parsed policy command (err message) = err (unparsable message)
  check_parsed policy command (ok []) = err empty_command
  check_parsed policy command (ok (program ∷ args)) = check_program policy command program args

  -- `resolve`, on a platform other than Windows
  unfoldable pub resolve : CommandPolicy → String → Result Refusal (List String)
  resolve policy command =
      if is_empty (strip command)
      then err empty_command
      else check_parsed policy command (platform.split command)

  unfoldable pub child_environment : CommandPolicy → Dict String → Dict String
  child_environment policy environment =
      if policy.inherit_secret_environment
      then environment
      else keep (λ p. not (platform.is_secret p.0)) environment
