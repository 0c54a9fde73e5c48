-- ===== src/Agent/CommandAnalysis.antt =====
-- services/workspace-agent/src/shell/command-analysis.ts: a command of one executable and its
-- arguments is taken apart and run without a shell. The error texts of the diagnostics are left out.
-- The loop over `value[index]` is a fold that is given the next character, and `skip` is its
-- `index += 1`; the characters it tests are single code units.
pub mod Lexical
pub mod Powershell
pub mod Expansion
pub mod Posix
mod Tests
use Prim.Native.Char.{Char}
use mcp_access_stack_legacy.Prelude.{
  ℕ, String, Bool, true, false, not, ◌||◌, List, [], ◌∷◌, ◌++◌, Option, none, some, concat, code,
  if◌then◌else◌, ◌==◌, str_eq, is_some,
}
use mcp_access_stack_legacy.Core.Text.{is_space, trim}

pub data ShellName : Type 0 where
  powershell pwsh cmd wsl git_bash : ShellName

pub data ShellSyntaxDiagnostic : Type 0 where
  syntax_error unsupported_construct shell_unavailable : ShellSyntaxDiagnostic

pub data ShellCommandExecution : Type 0 where
  argv : String → List String → ShellCommandExecution
  script : String → ShellCommandExecution

pub record ShellCommandAnalysis : Type 0 where
  pub shell : ShellName
  pub valid : Bool
  pub execution : Option ShellCommandExecution
  pub diagnostics : List ShellSyntaxDiagnostic
  pub uses_shell_features : Bool

pub data Quote : Type 0 where
  single double : Quote

pub data Grammar : Type 0 where
  cmd_grammar posix : Grammar

-- The variables of the loops.
pub record Lexer : Type 0 where
  pub tokens : List String
  pub token : String
  pub token_started : Bool
  pub quote : Option Quote
  pub escaped : Bool
  pub skip : Bool

abbrev pub initial : Lexer
initial = record {
  tokens = [];
  token = "";
  token_started = false;
  quote = none;
  escaped = false;
  skip = false;
}

-- The characters of a class of a regular expression.
unfoldable pub one_of : String → ℕ → Bool
one_of String.[] n = false
one_of (String.◌∷◌ c s) n = code c == n || one_of s n

abbrev pub line_break : ℕ → Bool
line_break n = n == 10 || n == 13

unfoldable pub powershell_unsupported_unquoted : ℕ → Bool
unfolding one_of
powershell_unsupported_unquoted n = one_of "|&;<>`$*?{}()[]#,@%" n || line_break n

unfoldable pub cmd_metacharacters : ℕ → Bool
unfolding one_of
cmd_metacharacters n = one_of "&|<>^()%!" n || line_break n

unfoldable pub posix_metacharacters : ℕ → Bool
unfolding one_of
posix_metacharacters n = one_of "|&;<>`$*?{}()[]" n || line_break n

unfoldable pub flush : Lexer → Lexer
flush l =
    if not l.token_started
    then l
    else record l { tokens = l.tokens ++ (l.token ∷ []); token = ""; token_started = false }

-- `token += character`.
abbrev pub add : String → Char → String
add token c = concat token (String.◌∷◌ c "")

abbrev pub is_token_boundary : Option Char → Bool
is_token_boundary none = true
is_token_boundary (some c) = is_space (code c)

abbrev pub is_char : ℕ → Option Char → Bool
is_char n none = false
is_char n (some c) = code c == n

abbrev pub head : String → Option Char
head String.[] = none
head (String.◌∷◌ c s) = some c

-- One turn of the loop of `analyzeSimplePowerShellCommand` in each of its three states.
unfoldable pub in_single : Lexer → Char → Option Char → Option Lexer
in_single l c next =
    if code c == b'\''
    then if is_char b'\'' next
      then some (record l { token = add l.token c; skip = true })
      else if not (is_token_boundary next)
      then none
      else some (record l { quote = none })
    else some (record l { token = add l.token c })

unfoldable pub in_double : Lexer → Char → Option Char → Option Lexer
in_double l c next =
    if code c == b'"'
    then if not (is_token_boundary next) then none else some (record l { quote = none })
    else if code c == b'$' || code c == b'`'
    then none
    else some (record l { token = add l.token c })

unfoldable pub in_plain : Lexer → Char → Option Lexer
unfolding flush powershell_unsupported_unquoted
in_plain l c =
    if is_space (code c)
    then some (flush l)
    else if code c == b'\'' || code c == b'"'
    then if l.token_started
      then none
      else some (record l {
        token_started = true;
        quote = some (if code c == b'\'' then single else double);
      })
    else if powershell_unsupported_unquoted (code c)
    then none
    else some (record l { token = add l.token c; token_started = true })

unfoldable pub scan_character : Lexer → Char → Option Char → Option Lexer
unfolding in_single in_double in_plain
scan_character l c next = if l.skip then some (record l { skip = false }) else elim l.quote [
  | some single ↦ in_single l c next
  | some double ↦ in_double l c next
  | none ↦ in_plain l c
]

unfoldable pub scan_powershell : Lexer → String → Option Lexer
unfolding scan_character
scan_powershell l String.[] = some l
scan_powershell l (String.◌∷◌ c s) = elim (scan_character l c (head s)) [
  | none ↦ none
  | some next ↦ scan_powershell next s
]

abbrev pub invalid_analysis : ShellName → ShellCommandAnalysis
invalid_analysis shell = record {
  shell = shell;
  valid = false;
  execution = none;
  diagnostics = syntax_error ∷ [];
  uses_shell_features = true;
}

abbrev pub argv_analysis : ShellName → String → List String → ShellCommandAnalysis
argv_analysis shell executable arguments = record {
  shell = shell;
  valid = true;
  execution = some (argv executable arguments);
  diagnostics = [];
  uses_shell_features = false;
}

-- From `const [executable, ...argv] = tokens` on.
unfoldable pub powershell_argv : ShellName → List String → Option ShellCommandAnalysis
powershell_argv shell [] = some (invalid_analysis shell)
powershell_argv shell (executable ∷ arguments) =
    if str_eq executable ""
    then some (invalid_analysis shell)
    else if str_eq executable "."
    then none
    else some (argv_analysis shell executable arguments)

abbrev pub after_scan : ShellName → Option Lexer → Option ShellCommandAnalysis
after_scan shell none = none
after_scan shell (some l) =
    if is_some l.quote
    then some (invalid_analysis shell)
    else powershell_argv shell (flush l).tokens

unfoldable pub analyze_simple_power_shell_command : ShellName → String → Option ShellCommandAnalysis
unfolding scan_powershell powershell_argv flush
analyze_simple_power_shell_command shell command =
    let value = trim command in
    if str_eq value ""
    then some (invalid_analysis shell)
    else after_scan shell (scan_powershell initial value)
