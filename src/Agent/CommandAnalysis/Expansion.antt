-- ===== src/Agent/CommandAnalysis/Expansion.antt =====
-- A command that PowerShell would expand is never taken apart.
use Prim.Native.Char.{Char}
use mcp_access_stack_legacy.Prelude.{
  ℕ, String, Bool, true, false, ◌||◌, Option, none, some, code, ◌==◌, str_eq, ◌≡◌, refl, ◌⊎◌, inl,
  inr, arith, eq_iff, Bool-cases, Option-cases, ap, sym, ◌∙◌,
}
use mcp_access_stack_legacy.Core.Text.{is_space, trim, has, has-trim}
use mcp_access_stack_legacy.Agent.CommandAnalysis.{
  ShellName, double, Lexer, initial, flush, head, in_double, in_plain, scan_character,
  scan_powershell, after_scan, analyze_simple_power_shell_command, powershell_unsupported_unquoted,
  one_of,
}

abbrev pub is_apostrophe : ℕ → Bool
is_apostrophe n = n == b'\''

-- The dollar sign and the backtick.
abbrev pub expands : ℕ → Bool
expands n = n == b'$' || n == b'`'

-- Neither in apostrophes nor about to leave out a character.
abbrev IsOpen : Lexer → Type 0
IsOpen l = (l.skip ≡ false) × ((l.quote ≡ none) ⊎ (l.quote ≡ some double))

expands-unsupported : (n : ℕ) → expands n ≡ true → powershell_unsupported_unquoted n ≡ true
unfolding powershell_unsupported_unquoted one_of
expands-unsupported n e = ground arith

expands-is_space : (n : ℕ) → is_space n ≡ true → expands n ≡ false
unfolding is_space
expands-is_space n e = ground arith

apostrophe-is_space : (n : ℕ) → is_space n ≡ true → is_apostrophe n ≡ false
unfolding is_space
apostrophe-is_space n e = ground arith

scan_character-expands :
    (l : Lexer) (c : Char) (next : Option Char)
    → IsOpen l
    → expands (code c) ≡ true
    → scan_character l c next ≡ none
unfolding scan_character in_double in_plain
scan_character-expands l c next o e =
    ground (arith, expands-unsupported (code c) e, expands-is_space (code c))

scan_character-IsOpen :
    (l n : Lexer) (c : Char) (next : Option Char)
    → IsOpen l
    → is_apostrophe (code c) ≡ false
    → scan_character l c next ≡ some n
    → IsOpen n
unfolding scan_character in_double in_plain flush
scan_character-IsOpen l n c next (k, inl q) e h = ground arith
scan_character-IsOpen l n c next (k, inr q) e h = ground arith

scan-expands :
    (l : Lexer) (s : String)
    → IsOpen l
    → has is_apostrophe s ≡ false
    → has expands s ≡ true
    → scan_powershell l s ≡ none
unfolding scan_powershell has
scan-expands l String.[] o a e = absurd (ground arith)
scan-expands l (String.◌∷◌ c s) o a e = elim (Option-cases (scan_character l c (head s))) [
  | inl refused ↦ rw (scan_powershell, refused) refl
  | inr (n, stepped) ↦ elim (Bool-cases (expands (code c))) [
    | inl here ↦ rw (scan_powershell, scan_character-expands l c (head s) o here) refl
    | inr later ↦
        rw (scan_powershell, stepped)
          (scan-expands n s (scan_character-IsOpen l n c (head s) o (ground arith) stepped)
            (ground arith) (ground arith))
  ]
]

-- For a PowerShell, a command that has a dollar sign or a backtick and no apostrophe is left to the
-- parser of the shell: it is neither taken apart nor found invalid.
pub analyze_power_shell-expands :
    (shell : ShellName) (command : String)
    → has expands command ≡ true
    → has is_apostrophe command ≡ false
    → analyze_simple_power_shell_command shell command ≡ none
unfolding analyze_simple_power_shell_command has
analyze_power_shell-expands shell command e a =
    let expanding : has expands (trim command) ≡ true =
      has-trim expands expands-is_space command ∙ e in
    let free : has is_apostrophe (trim command) ≡ false =
      has-trim is_apostrophe apostrophe-is_space command ∙ a in
    let nonempty : str_eq (trim command) "" ≡ false = elim (Bool-cases (str_eq (trim command) "")) [
      | inl blank ↦
          absurd
            (ground (arith, sym expanding ∙ ap (has expands) ((eq_iff (trim command) "").0 blank)))
      | inr other ↦ other
    ] in
    rw nonempty
      (ap (after_scan shell) (scan-expands initial (trim command) (refl, inl refl) free expanding))
