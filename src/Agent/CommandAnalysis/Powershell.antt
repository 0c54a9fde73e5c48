-- ===== src/Agent/CommandAnalysis/Powershell.antt =====
-- A command line of quoted arguments is taken apart into these arguments, and nothing that PowerShell
-- would expand is ever run.
use Prim.Native.Char.{Char}
use Prim.Native.String.append
use mathlib.Core.List.{append_assoc}
use text.Mathlib.TextLemmas.{append-nil}
use mcp_access_stack_legacy.Prelude.{
  String, Bool, true, false, List, [], ◌∷◌, ◌++◌, Option, none, some, concat, code, if◌then◌else◌,
  ◌==◌, ◌≡◌, refl, ◌≢◌, inl, inr, arith, eq_iff, Bool-cases, ap, sym, ◌∙◌,
}
use mcp_access_stack_legacy.Core.Text.{
  is_space, trim, IsClosed, cons-IsClosed, last-IsClosed, trim-closed, concat-add,
}
use mcp_access_stack_legacy.Agent.CommandAnalysis.{
  ShellName, argv_analysis, Quote, single, Lexer, add, flush, is_token_boundary, is_char, head,
  in_single, in_plain, scan_character, scan_powershell, powershell_argv, after_scan,
  analyze_simple_power_shell_command,
}

-- The text with each of its apostrophes twice, before `rest`.
abbrev pub doubled_before : String → String → String
doubled_before String.[] rest = rest
doubled_before (String.◌∷◌ c s) rest =
    let more = doubled_before s rest in
    if code c == b'\'' then String.◌∷◌ c (String.◌∷◌ c more) else String.◌∷◌ c more

-- An argument between apostrophes, before `rest`.
abbrev pub quoted_before : String → String → String
quoted_before s rest = String.◌∷◌ "'" (doubled_before s (String.◌∷◌ "'" rest))

-- An executable and its arguments, each quoted, with a blank between them.
abbrev pub command_line : String → List String → String
command_line e [] = quoted_before e ""
command_line e (a ∷ rest) = quoted_before e (String.◌∷◌ " " (command_line a rest))

abbrev lexer : List String → String → Bool → Option Quote → Bool → Lexer
lexer tokens token token_started quote skip = record {
  tokens = tokens;
  token = token;
  token_started = token_started;
  quote = quote;
  escaped = false;
  skip = skip;
}

boundary-is_char : (o : Option Char) → is_token_boundary o ≡ true → is_char b'\'' o ≡ false
unfolding is_space
boundary-is_char none e = refl
boundary-is_char (some c) e = ground arith

closes :
    (ts : List String) (t : String) (next : Option Char)
    → is_token_boundary next ≡ true
    → scan_character (lexer ts t true (some single) false) "'" next
      ≡ some (lexer ts t true none false)
unfolding scan_character in_single
closes ts t next b = ground (arith, boundary-is_char next b)

scan-step :
    (l n : Lexer) (c : Char) (s : String)
    → scan_character l c (head s) ≡ some n
    → scan_powershell l (String.◌∷◌ c s) ≡ scan_powershell n s
unfolding scan_powershell
scan-step l n c s e = rw (scan_powershell, e) refl

doubles :
    (ts : List String) (t : String) (c : Char) (more : String)
    → (code c == b'\'') ≡ true
    → scan_powershell (lexer ts t true (some single) false) (String.◌∷◌ c (String.◌∷◌ c more))
      ≡ scan_powershell (lexer ts (add t c) true (some single) false) more
unfolding scan_character in_single
doubles ts t c more e =
    scan-step (lexer ts t true (some single) false) (lexer ts (add t c) true (some single) true) c
      (String.◌∷◌ c more) (rw e refl)
    ∙ scan-step (lexer ts (add t c) true (some single) true)
        (lexer ts (add t c) true (some single) false) c more refl

extends :
    (ts : List String) (t : String) (c : Char) (more : String)
    → (code c == b'\'') ≡ false
    → scan_powershell (lexer ts t true (some single) false) (String.◌∷◌ c more)
      ≡ scan_powershell (lexer ts (add t c) true (some single) false) more
unfolding scan_character in_single
extends ts t c more e =
    scan-step (lexer ts t true (some single) false) (lexer ts (add t c) true (some single) false) c
      more (rw e refl)

scan-doubled :
    (ts : List String) (t s rest : String)
    → is_token_boundary (head rest) ≡ true
    → scan_powershell (lexer ts t true (some single) false) (doubled_before s (String.◌∷◌ "'" rest))
      ≡ scan_powershell (lexer ts (concat t s) true none false) rest
unfolding scan_powershell scan_character in_single
scan-doubled ts t String.[] rest b =
    scan-step (lexer ts t true (some single) false) (lexer ts t true none false) "'" rest
      (closes ts t (head rest) b)
    ∙ ap (λ u. scan_powershell (lexer ts u true none false) rest) (sym (append-nil t))
scan-doubled ts t (String.◌∷◌ c s) rest b =
    let more : scan_powershell (lexer ts (add t c) true (some single) false)
          (doubled_before s (String.◌∷◌ "'" rest))
        ≡ scan_powershell (lexer ts (concat t (String.◌∷◌ c s)) true none false) rest =
      scan-doubled ts (add t c) s rest b
      ∙ ap (λ u. scan_powershell (lexer ts u true none false) rest) (concat-add t c s) in
    elim (Bool-cases (code c == b'\'')) [
      | inl apostrophe ↦
          rw apostrophe (doubles ts t c (doubled_before s (String.◌∷◌ "'" rest)) apostrophe ∙ more)
      | inr other ↦ rw other (extends ts t c (doubled_before s (String.◌∷◌ "'" rest)) other ∙ more)
    ]

scan-quoted :
    (ts : List String) (s rest : String)
    → is_token_boundary (head rest) ≡ true
    → scan_powershell (lexer ts "" false none false) (quoted_before s rest)
      ≡ scan_powershell (lexer ts s true none false) rest
unfolding scan_powershell scan_character in_plain is_space
scan-quoted ts s rest b =
    scan-doubled ts "" s rest b
    ∙ ap (λ u. scan_powershell (lexer ts u true none false) rest) (append.nil s)

-- The loop's variables at the end of a line of quoted arguments.
abbrev last : List String → String → List String → Lexer
last ts s [] = lexer ts s true none false
last ts s (a ∷ rest) = last (ts ++ (s ∷ [])) a rest

scan-command_line :
    (ts : List String) (s : String) (arguments : List String)
    → scan_powershell (lexer ts "" false none false) (command_line s arguments)
      ≡ some (last ts s arguments)
unfolding scan_powershell scan_character in_plain is_space flush
scan-command_line ts s [] = scan-quoted ts s "" refl
scan-command_line ts s (a ∷ rest) =
    scan-quoted ts s (String.◌∷◌ " " (command_line a rest)) refl
    ∙ scan-command_line (ts ++ (s ∷ [])) a rest

flush-last :
    (ts : List String) (s : String) (arguments : List String)
    → ((flush (last ts s arguments)).tokens ≡ ts ++ (s ∷ arguments))
      × ((last ts s arguments).quote ≡ none)
unfolding flush
flush-last ts s [] = (refl, refl)
flush-last ts s (a ∷ rest) =
    let p = flush-last (ts ++ (s ∷ [])) a rest in (p.0 ∙ append_assoc ts (s ∷ []) (a ∷ rest), p.1)

doubled_before-IsClosed : (s rest : String) → IsClosed rest → IsClosed (doubled_before s rest)
doubled_before-IsClosed String.[] rest p = p
doubled_before-IsClosed (String.◌∷◌ c s) rest p =
    let q = doubled_before-IsClosed s rest p in
    elim (Bool-cases (code c == b'\'')) [
      | inl apostrophe ↦ rw apostrophe (
          cons-IsClosed c (String.◌∷◌ c (doubled_before s rest))
            (cons-IsClosed c (doubled_before s rest) q))
      | inr other ↦ rw other (cons-IsClosed c (doubled_before s rest) q)
    ]

quoted_before-IsClosed :
    (s rest : String) → IsClosed (String.◌∷◌ "'" rest) → IsClosed (quoted_before s rest)
quoted_before-IsClosed s rest p =
    cons-IsClosed "'" (doubled_before s (String.◌∷◌ "'" rest))
      (doubled_before-IsClosed s (String.◌∷◌ "'" rest) p)

command_line-IsClosed : (s : String) (arguments : List String) → IsClosed (command_line s arguments)
unfolding is_space
command_line-IsClosed s [] = quoted_before-IsClosed s "" (last-IsClosed "'" refl)
command_line-IsClosed s (a ∷ rest) =
    quoted_before-IsClosed s (String.◌∷◌ " " (command_line a rest)) (
      cons-IsClosed "'" (String.◌∷◌ " " (command_line a rest))
        (cons-IsClosed " " (command_line a rest) (command_line-IsClosed a rest)))

trim-command_line :
    (s : String) (arguments : List String)
    → trim (command_line s arguments) ≡ command_line s arguments
unfolding is_space
trim-command_line s [] =
    trim-closed "'" (doubled_before s (String.◌∷◌ "'" "")) refl (command_line-IsClosed s [])
trim-command_line s (a ∷ rest) =
    trim-closed "'" (doubled_before s (String.◌∷◌ "'" (String.◌∷◌ " " (command_line a rest)))) refl
      (command_line-IsClosed s (a ∷ rest))

after_scan-argv :
    (shell : ShellName) (l : Lexer) (s : String) (arguments : List String)
    → s ≢ ""
    → s ≢ "."
    → (flush l).tokens ≡ s ∷ arguments
    → l.quote ≡ none
    → after_scan shell (some l) ≡ some (argv_analysis shell s arguments)
unfolding powershell_argv
after_scan-argv shell l s arguments ne nd e q =
    rw e (rw q (ground (arith, eq_iff s "", eq_iff s ".")))

-- For a PowerShell, a line of an executable and its arguments, each written between apostrophes with
-- its own apostrophes doubled and with one blank in between, is analysed as exactly this executable and
-- these arguments, to be run without a shell. The executable is neither empty nor a dot; the arguments
-- are any texts.
pub analyze_power_shell-command_line :
    (shell : ShellName) (s : String) (arguments : List String)
    → s ≢ ""
    → s ≢ "."
    → analyze_simple_power_shell_command shell (command_line s arguments)
      ≡ some (argv_analysis shell s arguments)
unfolding analyze_simple_power_shell_command powershell_argv
analyze_power_shell-command_line shell s arguments ne nd = rw (trim-command_line s arguments) (
    rw ((command_line-IsClosed s arguments).1) (
      ap (after_scan shell) (scan-command_line [] s arguments)
      ∙ after_scan-argv shell (last [] s arguments) s arguments ne nd
          ((flush-last [] s arguments).0) ((flush-last [] s arguments).1)))
