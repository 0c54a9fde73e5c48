-- ===== src/Agent/CommandAnalysis/Posix.antt =====
-- A command line of quoted arguments for a POSIX shell is taken apart into these arguments.
use Prim.Native.Char.{Char}
use Prim.Native.String.append
use mathlib.Core.List.{append_assoc}
use text.Mathlib.TextLemmas.{append-nil}
use mcp_access_stack_legacy.Prelude.{
  ℕ, String, Bool, true, false, List, [], ◌∷◌, ◌++◌, Option, none, some, concat, code,
  if◌then◌else◌, ◌==◌, ◌≡◌, refl, ◌≢◌, inl, inr, arith, eq_iff, Bool-cases, ap, sym, ◌∙◌,
}
use mcp_access_stack_legacy.Core.Text.{
  is_space, trim, IsClosed, cons-IsClosed, last-IsClosed, trim-closed, concat-add,
}
use mcp_access_stack_legacy.Agent.CommandAnalysis.{
  ShellName, wsl, git_bash, argv_analysis, Quote, single, posix, Lexer, add, flush, one_of,
  posix_metacharacters,
}
use mcp_access_stack_legacy.Agent.CommandAnalysis.Lexical.{
  tokenize_character, tokenize_from, tokens_of, tokenize, contains_unquoted, after_tokenize,
  analyze_lexical_command, analyze_simple_shell_command,
}

-- The text inside apostrophes, before `rest`: each of its own apostrophes is written after a
-- backslash, outside of them.
abbrev pub escaped_before : String → String → String
escaped_before String.[] rest = rest
escaped_before (String.◌∷◌ c s) rest =
    let more = escaped_before s rest in
    if code c == b'\''
    then String.◌∷◌ "'" (String.◌∷◌ "\\" (String.◌∷◌ c (String.◌∷◌ "'" more)))
    else String.◌∷◌ c more

abbrev pub quoted_before : String → String → String
quoted_before s rest = String.◌∷◌ "'" (escaped_before s (String.◌∷◌ "'" rest))

-- An executable and its arguments, each quoted, with a blank between them.
abbrev pub command_line : String → List String → String
command_line e [] = quoted_before e ""
command_line e (a ∷ rest) = quoted_before e (String.◌∷◌ " " (command_line a rest))

abbrev lexer : List String → String → Bool → Option Quote → Lexer
lexer tokens token token_started quote = record {
  tokens = tokens;
  token = token;
  token_started = token_started;
  quote = quote;
  escaped = false;
  skip = false;
}

extends :
    (ts : List String) (t : String) (c : Char)
    → (code c == b'\'') ≡ false
    → tokenize_character posix (lexer ts t true (some single)) c
      ≡ lexer ts (add t c) true (some single)
unfolding tokenize_character
extends ts t c e = ground arith

tokenize-escaped :
    (ts : List String) (t s rest : String)
    → tokenize_from posix (lexer ts t true (some single)) (escaped_before s (String.◌∷◌ "'" rest))
      ≡ tokenize_from posix (lexer ts (concat t s) true none) rest
unfolding tokenize_from tokenize_character
tokenize-escaped ts t String.[] rest =
    ap (λ u. tokenize_from posix (lexer ts u true none) rest) (sym (append-nil t))
tokenize-escaped ts t (String.◌∷◌ c s) rest =
    let more : tokenize_from posix (lexer ts (add t c) true (some single))
          (escaped_before s (String.◌∷◌ "'" rest))
        ≡ tokenize_from posix (lexer ts (concat t (String.◌∷◌ c s)) true none) rest =
      tokenize-escaped ts (add t c) s rest
      ∙ ap (λ u. tokenize_from posix (lexer ts u true none) rest) (concat-add t c s) in
    elim (Bool-cases (code c == b'\'')) [
      | inl apostrophe ↦ rw apostrophe more
      | inr other ↦ rw other (
          ap (λ l. tokenize_from posix l (escaped_before s (String.◌∷◌ "'" rest)))
            (extends ts t c other)
          ∙ more)
    ]

-- The loop's variables at the end of a line of quoted arguments.
abbrev last : List String → String → List String → Lexer
last ts s [] = lexer ts s true none
last ts s (a ∷ rest) = last (ts ++ (s ∷ [])) a rest

tokenize-quoted :
    (ts : List String) (s rest : String)
    → tokenize_from posix (lexer ts "" false none) (quoted_before s rest)
      ≡ tokenize_from posix (lexer ts s true none) rest
unfolding tokenize_from tokenize_character
tokenize-quoted ts s rest =
    tokenize-escaped ts "" s rest
    ∙ ap (λ u. tokenize_from posix (lexer ts u true none) rest) (append.nil s)

tokenize-command_line :
    (ts : List String) (s : String) (arguments : List String)
    → tokenize_from posix (lexer ts "" false none) (command_line s arguments) ≡ last ts s arguments
unfolding tokenize_from tokenize_character is_space flush
tokenize-command_line ts s [] = tokenize-quoted ts s ""
tokenize-command_line ts s (a ∷ rest) =
    tokenize-quoted ts s (String.◌∷◌ " " (command_line a rest))
    ∙ tokenize-command_line (ts ++ (s ∷ [])) a rest

tokens_of-last :
    (ts : List String) (s : String) (arguments : List String)
    → tokens_of (last ts s arguments) ≡ some (ts ++ (s ∷ arguments))
unfolding flush
tokens_of-last ts s [] = refl
tokens_of-last ts s (a ∷ rest) =
    tokens_of-last (ts ++ (s ∷ [])) a rest ∙ ap some (append_assoc ts (s ∷ []) (a ∷ rest))

module _ (pattern : ℕ → Bool) where
  unquoted-escaped :
      (s rest : String)
      → contains_unquoted (escaped_before s (String.◌∷◌ "'" rest)) pattern posix (some single) false
        ≡ contains_unquoted rest pattern posix none false
  unfolding contains_unquoted
  unquoted-escaped String.[] rest = refl
  unquoted-escaped (String.◌∷◌ c s) rest = elim (Bool-cases (code c == b'\'')) [
    | inl apostrophe ↦ rw apostrophe (unquoted-escaped s rest)
    | inr other ↦ ground (arith, unquoted-escaped s rest)
  ]

  unquoted-command_line :
      (s : String) (arguments : List String)
      → pattern 32 ≡ false
      → contains_unquoted (command_line s arguments) pattern posix none false ≡ false
  unfolding contains_unquoted
  unquoted-command_line s [] blank = unquoted-escaped s ""
  unquoted-command_line s (a ∷ rest) blank =
      unquoted-escaped s (String.◌∷◌ " " (command_line a rest))
      ∙ rw (contains_unquoted, blank) (unquoted-command_line a rest blank)

escaped_before-IsClosed : (s rest : String) → IsClosed rest → IsClosed (escaped_before s rest)
escaped_before-IsClosed String.[] rest p = p
escaped_before-IsClosed (String.◌∷◌ c s) rest p =
    let more = escaped_before s rest in
    let q = escaped_before-IsClosed s rest p in
    elim (Bool-cases (code c == b'\'')) [
      | inl apostrophe ↦ rw apostrophe (
          cons-IsClosed "'" (String.◌∷◌ "\\" (String.◌∷◌ c (String.◌∷◌ "'" more))) (
            cons-IsClosed "\\" (String.◌∷◌ c (String.◌∷◌ "'" more))
              (cons-IsClosed c (String.◌∷◌ "'" more) (cons-IsClosed "'" more q))))
      | inr other ↦ rw other (cons-IsClosed c more q)
    ]

command_line-IsClosed : (s : String) (arguments : List String) → IsClosed (command_line s arguments)
unfolding is_space
command_line-IsClosed s [] =
    cons-IsClosed "'" (escaped_before s (String.◌∷◌ "'" ""))
      (escaped_before-IsClosed s (String.◌∷◌ "'" "") (last-IsClosed "'" refl))
command_line-IsClosed s (a ∷ rest) =
    let after = String.◌∷◌ " " (command_line a rest) in
    cons-IsClosed "'" (escaped_before s (String.◌∷◌ "'" after)) (
      escaped_before-IsClosed s (String.◌∷◌ "'" after) (
        cons-IsClosed "'" after
          (cons-IsClosed " " (command_line a rest) (command_line-IsClosed a rest))))

trim-command_line :
    (s : String) (arguments : List String)
    → trim (command_line s arguments) ≡ command_line s arguments
unfolding is_space
trim-command_line s [] =
    trim-closed "'" (escaped_before s (String.◌∷◌ "'" "")) refl (command_line-IsClosed s [])
trim-command_line s (a ∷ rest) =
    trim-closed "'" (escaped_before s (String.◌∷◌ "'" (String.◌∷◌ " " (command_line a rest)))) refl
      (command_line-IsClosed s (a ∷ rest))

tokenize-posix :
    (s : String) (arguments : List String)
    → tokenize (command_line s arguments) posix ≡ some (s ∷ arguments)
unfolding tokenize
tokenize-posix s arguments =
    ap tokens_of (tokenize-command_line [] s arguments) ∙ tokens_of-last [] s arguments

analyze_lexical-command_line :
    (shell : ShellName) (s : String) (arguments : List String)
    → s ≢ ""
    → analyze_lexical_command shell (command_line s arguments) posix_metacharacters posix
      ≡ argv_analysis shell s arguments
unfolding analyze_lexical_command posix_metacharacters one_of
analyze_lexical-command_line shell s arguments ne = rw (trim-command_line s arguments) (
    rw ((command_line-IsClosed s arguments).1) (
      rw (unquoted-command_line posix_metacharacters s arguments refl) (
        ap (after_tokenize shell (command_line s arguments) false) (tokenize-posix s arguments)
        ∙ ground (arith, eq_iff s ""))))

-- For wsl and git-bash, a line of an executable and its arguments, each written between apostrophes
-- with its own apostrophes escaped outside of them and with one blank in between, is analysed as exactly
-- this executable and these arguments, to be run without a shell. The executable is not empty; the
-- arguments are any texts.
pub analyze_simple_shell-command_line :
    (s : String) (arguments : List String)
    → s ≢ ""
    → (analyze_simple_shell_command wsl (command_line s arguments)
        ≡ some (argv_analysis wsl s arguments))
      × (analyze_simple_shell_command git_bash (command_line s arguments)
          ≡ some (argv_analysis git_bash s arguments))
unfolding analyze_simple_shell_command
analyze_simple_shell-command_line s arguments ne = (
  ap some (analyze_lexical-command_line wsl s arguments ne),
  ap some (analyze_lexical-command_line git_bash s arguments ne),
)
