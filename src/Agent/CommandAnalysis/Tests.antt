-- ===== src/Agent/CommandAnalysis/Tests.antt =====
-- Commands that the analysis takes apart, and some that it leaves to the shell.
use mcp_access_stack_legacy.Prelude.{
  String, List, [], ◌∷◌, some, none, ◌≡◌, refl, ◌≢◌, arith, eq_iff,
}
use mcp_access_stack_legacy.Core.Text.{trim, has}
use mcp_access_stack_legacy.Agent.CommandAnalysis.{
  powershell, pwsh, wsl, git_bash, cmd, argv_analysis, analyze_simple_power_shell_command,
}
use mcp_access_stack_legacy.Agent.CommandAnalysis.Lexical.{
  analyze_simple_shell_command, script_analysis,
}
use mcp_access_stack_legacy.Agent.CommandAnalysis.Powershell.{analyze_power_shell-command_line}
use mcp_access_stack_legacy.Agent.CommandAnalysis.Expansion.{analyze_power_shell-expands}
use mcp_access_stack_legacy.Agent.CommandAnalysis.Posix.{analyze_simple_shell-command_line}

abbrev commit : List String
commit = "commit" ∷ "-m" ∷ "it's" ∷ []

git_not_empty : ◌≢◌ {A = String} "git" ""
git_not_empty = λ e. ground (arith, e, eq_iff "git" "")

git_not_dot : ◌≢◌ {A = String} "git" "."
git_not_dot = λ e. ground (arith, e, eq_iff "git" ".")

analyze_power_shell-command_line_example :
    analyze_simple_power_shell_command powershell "'git' 'commit' '-m' 'it''s'"
    ≡ some (argv_analysis powershell "git" commit)
analyze_power_shell-command_line_example =
    analyze_power_shell-command_line powershell "git" commit git_not_empty git_not_dot

analyze_power_shell-expands_example :
    analyze_simple_power_shell_command pwsh "echo $(hostname) " ≡ none
unfolding has
analyze_power_shell-expands_example = analyze_power_shell-expands pwsh "echo $(hostname) " refl refl

analyze_simple_shell-command_line_example :
    (analyze_simple_shell_command wsl "'git' 'commit' '-m' 'it'\\''s'"
      ≡ some (argv_analysis wsl "git" commit))
    × (analyze_simple_shell_command git_bash "'git' 'commit' '-m' 'it'\\''s'"
        ≡ some (argv_analysis git_bash "git" commit))
analyze_simple_shell-command_line_example =
    analyze_simple_shell-command_line "git" commit git_not_empty

pipes : analyze_simple_shell_command cmd "dir | more" ≡ some (script_analysis cmd "dir | more")
unfolding analyze_simple_shell_command trim
pipes = refl
