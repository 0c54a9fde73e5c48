-- ===== src/Agent/PathSecurity/Authorize.antt =====
-- services/workspace-agent/src/path-security.ts: the class PathSecurity and resolveAllowedRoot. A
-- failure of the platform that the code does not catch is `host_error`.
use mcp_access_stack_legacy.Prelude.{
  String, Bool, false, not, ◌||◌, ◌&&◌, List, [], ◌∷◌, map, Option, none, some, concat,
  if◌then◌else◌, str_eq, any, is_some, truthy, ◌or_else◌,
}
use mcp_access_stack_legacy.Core.Text.{codes, ends_with}
use mcp_access_stack_legacy.Core.Errors.{
  ErrorCode, blocked_path, path_outside_allowed_roots, write_not_allowed, Result, ok, throw,
}
use mcp_access_stack_legacy.Agent.PathSecurity.{
  FileKind, file, directory, Host, begins, split, split_at, comparison_value, logical_contains,
  normalize_relative_path, ResolvedWorkspace,
}

-- The details of BLOCKED_PATH, with the operation and the tool that is offered instead.
pub record BlockedPath : Type 0 where
  pub path : String
  pub policy_rule : String
  pub operation : Option String
  pub safe_alternative : Option String

pub data Answer {ℓ} (A : Type ℓ) : Type ℓ where
  returns : A → Answer A
  throws : ErrorCode → Answer A
  blocks : BlockedPath → Answer A
  host_error : Answer A

infixl 5 ◌>>=◌ ◌>>◌
abbrev pub ◌>>=◌ : {A B : Type 0} → Answer A → (A → Answer B) → Answer B
returns a >>= f = f a
throws e >>= f = throws e
blocks b >>= f = blocks b
host_error >>= f = host_error

abbrev pub ◌>>◌ : {B : Type 0} → Answer (Unit {0}) → Answer B → Answer B
m >> k = m >>= λ _. k

abbrev pub lift : {A : Type 0} → Result A → Answer A
lift (ok a) = returns a
lift (throw e) = throws e

-- `if (test) throw new AppError(...)`.
abbrev pub throw_if : Bool → ErrorCode → Answer (Unit {0})
throw_if test e = if test then throws e else returns tt

pub record AuthorizedPath : Type 0 where
  pub logical_path : String
  pub absolute_path : String
  pub canonical_path : String
  pub canonical_relative_path : String
  pub kind : FileKind

pub record AuthorizedWritePath : Type 0 where
  pub logical_path : String
  pub absolute_path : String
  pub created : Bool

-- `Array.find`.
abbrev pub find : {A : Type 0} → (A → Bool) → List A → Option A
find p [] = none
find p (x ∷ xs) = if p x then some x else find p xs

abbrev pub last_of : List String → String
last_of [] = ""
last_of (s ∷ []) = s
last_of (s ∷ t ∷ rest) = last_of (t ∷ rest)

-- `pattern.slice(0, -3)` of a pattern that ends in `/**`.
abbrev pub before_subtree : String → String
before_subtree String.[] = ""
before_subtree (String.◌∷◌ c s) =
    let rest = before_subtree s in if str_eq (String.◌∷◌ c s) "/**" then "" else String.◌∷◌ c rest

-- `segments.slice(0, index)` for each index from 1 to below the length.
abbrev pub proper_prefixes : List String → List (List String)
proper_prefixes [] = []
proper_prefixes (s ∷ []) = []
proper_prefixes (s ∷ t ∷ rest) = (s ∷ []) ∷ map (λ xs. s ∷ xs) (proper_prefixes (t ∷ rest))

module _ (host : Host) where
  unfoldable pub is_real_environment_file : String → Bool
  unfolding comparison_value split_at
  is_real_environment_file relative_path =
      let compared = comparison_value host (last_of (split relative_path)) in
      let is_template =
        any (λ t. str_eq (comparison_value host t) compared)
          (".env.example" ∷ ".env.sample" ∷ ".env.template" ∷ []) in
      str_eq compared (comparison_value host ".env")
      || (begins compared (comparison_value host ".env.") && not is_template)

  module _ (workspace : ResolvedWorkspace) where
    abbrev pub candidate_of : String → String
    candidate_of relative_path = if str_eq relative_path "." then "" else relative_path

    unfoldable pub matched_blocked_pattern : String → Option String
    matched_blocked_pattern relative_path =
        find (λ pattern. host.glob_matches pattern (candidate_of relative_path))
          workspace.blocked_globs

    unfoldable pub is_blocked : String → Bool
    unfolding matched_blocked_pattern
    is_blocked relative_path = is_some (matched_blocked_pattern relative_path)

    unfoldable pub is_subtree_blocked : String → Bool
    is_subtree_blocked relative_path =
        any
          (λ pattern.
            ends_with (codes pattern) (codes "/**")
            && host.glob_matches (before_subtree pattern) (candidate_of relative_path))
          workspace.blocked_globs

    unfoldable pub blocked_path_error : String → String → Option String → BlockedPath
    unfolding is_real_environment_file
    blocked_path_error logical_path policy_rule operation = record {
      path = logical_path;
      policy_rule = policy_rule;
      operation = operation;
      safe_alternative =
          if str_eq (operation or_else "") "read_file" && is_real_environment_file logical_path
          then some "run_workspace_validation(secret-scan)"
          else none;
    }

    -- `if (policyRule) throw this.blockedPathError(...)`.
    abbrev pub block_if : Option String → String → Option String → Answer (Unit {0})
    block_if none logical_path operation = returns tt
    block_if (some rule) logical_path operation =
        blocks (blocked_path_error logical_path rule operation)

    unfoldable pub is_within_logical_allowed_root : String → Bool
    unfolding comparison_value logical_contains
    is_within_logical_allowed_root logical_path =
        any
          (λ root. elim root.kind [
            | file ↦
                str_eq (comparison_value host root.logical_path)
                  (comparison_value host logical_path)
            | directory ↦ logical_contains host root.logical_path logical_path
          ])
          workspace.allowed_roots

    unfoldable pub is_allowed_write_path : String → Bool
    unfolding comparison_value
    is_allowed_write_path logical_path =
        any
          (λ write_root.
            let root = comparison_value host write_root in
            let candidate = comparison_value host logical_path in
            str_eq write_root "."
            || (str_eq candidate root
                || begins candidate (concat root "/")
                || begins root (concat candidate "/")))
          workspace.allow_writes

    unfoldable pub authorize_logical : String → Bool → Option String → Answer String
    unfolding normalize_relative_path matched_blocked_pattern is_within_logical_allowed_root
        blocked_path_error
    authorize_logical input allow_dot operation = do
      logical_path ← lift (normalize_relative_path host allow_dot input)
      block_if (truthy (matched_blocked_pattern logical_path)) logical_path operation
      throw_if (not (is_within_logical_allowed_root logical_path)) path_outside_allowed_roots
      returns logical_path

    unfoldable pub authorize_write_logical : String → Answer String
    unfolding normalize_relative_path is_blocked is_within_logical_allowed_root
        is_allowed_write_path
    authorize_write_logical input = do
      logical_path ← lift (normalize_relative_path host false input)
      throw_if (is_blocked logical_path) blocked_path
      throw_if (not (is_within_logical_allowed_root logical_path)) path_outside_allowed_roots
      throw_if (not (is_allowed_write_path logical_path)) write_not_allowed
      returns logical_path
