-- ===== src/Agent/CommandAnalysis/Lexical.antt =====
-- services/workspace-agent/src/shell/command-analysis.ts: the commands of cmd and of the POSIX shells,
-- whose words and metacharacters are found by two loops, and the choice by shell.
use Prim.Native.Char.{Char}
use mcp_access_stack_legacy.Prelude.{
  ℕ, String, Bool, true, false, not, ◌&&◌, ◌||◌, List, [], ◌∷◌, Option, none, some, code,
  if◌then◌else◌, ◌==◌, str_eq, is_some,
}
use mcp_access_stack_legacy.Core.Text.{is_space, trim}
use mcp_access_stack_legacy.Agent.CommandAnalysis.{
  ShellName, powershell, pwsh, cmd, wsl, git_bash, Grammar, cmd_grammar, posix, Quote, single,
  double, Lexer, initial, add, flush, ShellCommandAnalysis, script, invalid_analysis, argv_analysis,
  cmd_metacharacters, posix_metacharacters, analyze_simple_power_shell_command,
}

abbrev pub is_posix : Grammar → Bool
is_posix cmd_grammar = false
is_posix posix = true

abbrev pub is_single : Option Quote → Bool
is_single (some single) = true
is_single _ = false

abbrev pub is_double : Option Quote → Bool
is_double (some double) = true
is_double _ = false

abbrev pub toggle_single : Option Quote → Option Quote
toggle_single quote = if is_single quote then none else some single

abbrev pub toggle_double : Option Quote → Option Quote
toggle_double quote = if is_double quote then none else some double

-- The loop's body in `tokenize`.
unfoldable pub tokenize_character : Grammar → Lexer → Char → Lexer
unfolding flush
tokenize_character grammar l c =
    if l.escaped
    then record l { token = add l.token c; token_started = true; escaped = false }
    else if is_posix grammar && code c == b'\\' && not (is_single l.quote)
    then record l { escaped = true; token_started = true }
    else if is_posix grammar && code c == b'\'' && not (is_double l.quote)
    then record l { quote = toggle_single l.quote; token_started = true }
    else if code c == b'"' && not (is_single l.quote)
    then record l { quote = toggle_double l.quote; token_started = true }
    else if not (is_some l.quote) && is_space (code c)
    then flush l
    else record l { token = add l.token c; token_started = true }

unfoldable pub tokenize_from : Grammar → Lexer → String → Lexer
unfolding tokenize_character
tokenize_from grammar l String.[] = l
tokenize_from grammar l (String.◌∷◌ c s) = tokenize_from grammar (tokenize_character grammar l c) s

-- The tokens, or `none` where `valid` is false.
abbrev pub tokens_of : Lexer → Option (List String)
tokens_of l = if l.escaped || is_some l.quote then none else some (flush l).tokens

unfoldable pub tokenize : String → Grammar → Option (List String)
unfolding tokenize_from flush
tokenize value grammar = tokens_of (tokenize_from grammar initial value)

-- `containsUnquoted`, with its two variables as arguments.
unfoldable pub contains_unquoted :
    String → (ℕ → Bool) → Grammar → Option Quote → (escaped : Bool) → Bool
contains_unquoted String.[] pattern grammar quote escaped = false
contains_unquoted (String.◌∷◌ c s) pattern grammar quote escaped =
    let rest = contains_unquoted s pattern grammar in
    if escaped
    then rest quote false
    else if is_posix grammar && code c == b'\\' && not (is_single quote)
    then rest quote true
    else if code c == b'\'' && not (is_double quote) && is_posix grammar
    then rest (toggle_single quote) false
    else if code c == b'"' && not (is_single quote)
    then rest (toggle_double quote) false
    else if not (is_some quote) && pattern (code c)
    then true
    else rest quote false

-- From `const [executable, ...argv] = tokenized.tokens` on.
abbrev pub lexical_argv : ShellName → List String → ShellCommandAnalysis
lexical_argv shell [] = invalid_analysis shell
lexical_argv shell (executable ∷ arguments) =
    if str_eq executable ""
    then invalid_analysis shell
    else argv_analysis shell executable arguments

abbrev pub script_analysis : ShellName → String → ShellCommandAnalysis
script_analysis shell command = record {
  shell = shell;
  valid = true;
  execution = some (script command);
  diagnostics = [];
  uses_shell_features = true;
}

abbrev pub after_tokenize :
    ShellName → String → (unquoted : Bool) → Option (List String) → ShellCommandAnalysis
after_tokenize shell command unquoted none = invalid_analysis shell
after_tokenize shell command unquoted (some []) = invalid_analysis shell
after_tokenize shell command unquoted (some (executable ∷ arguments)) =
    if unquoted then script_analysis shell command else lexical_argv shell (executable ∷ arguments)

unfoldable pub analyze_lexical_command :
    ShellName → String → (ℕ → Bool) → Grammar → ShellCommandAnalysis
unfolding tokenize contains_unquoted
analyze_lexical_command shell command metacharacters grammar =
    let trimmed = trim command in
    if str_eq trimmed ""
    then invalid_analysis shell
    else after_tokenize shell command (contains_unquoted trimmed metacharacters grammar none false)
        (tokenize trimmed grammar)

unfoldable pub analyze_simple_shell_command : ShellName → String → Option ShellCommandAnalysis
unfolding analyze_simple_power_shell_command analyze_lexical_command cmd_metacharacters
    posix_metacharacters
analyze_simple_shell_command powershell command =
    analyze_simple_power_shell_command powershell command
analyze_simple_shell_command pwsh command = analyze_simple_power_shell_command pwsh command
analyze_simple_shell_command cmd command =
    some (analyze_lexical_command cmd command cmd_metacharacters cmd_grammar)
analyze_simple_shell_command wsl command =
    some (analyze_lexical_command wsl command posix_metacharacters posix)
analyze_simple_shell_command git_bash command =
    some (analyze_lexical_command git_bash command posix_metacharacters posix)
