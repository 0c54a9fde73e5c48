-- ===== src/Agent/PathSecurity/Permission.antt =====
-- What an authorised path of path-security.ts is, in the terms of the workspace and of the file system.
use mcp_access_stack_legacy.Prelude.{
  String, Bool, true, false, List, Option, any, none, some, ◌≡◌, refl, ◌↔◌, arith,
}
use mcp_access_stack_legacy.Core.Errors.{ok}
use mcp_access_stack_legacy.Agent.PathSecurity.{
  FileKind, Host, is_contained, normalize_relative_path, ResolvedAllowedRoot, ResolvedWorkspace,
}
use mcp_access_stack_legacy.Agent.PathSecurity.Authorize.{AuthorizedPath}
use mcp_access_stack_legacy.Agent.PathSecurity.Meaning.{
  Some, any_iff, IsInside, is_contained_iff, IsCovered, within_allowed_root_iff,
}
use mcp_access_stack_legacy.Agent.PathSecurity.Rules.{
  HasNoRule, matched_rule_iff, IsRelative, portable_canonical_iff, IsNative, IsNative-iff,
}
use mcp_access_stack_legacy.Agent.PathSecurity.Existing.{IsExpected, blocking_rule, Passes}

module _ (host : Host) (workspace : ResolvedWorkspace) where
  -- Blocked globs count only where they are enforced.
  abbrev pub IsUnblocked : Bool → String → Type 0
  IsUnblocked enforce path = enforce ≡ true → HasNoRule host workspace path

  blocking_rule_iff :
      (enforce : Bool) (path : String)
      → (blocking_rule host workspace enforce path ≡ none) ↔ IsUnblocked enforce path
  blocking_rule_iff true path = (
    λ e on. (matched_rule_iff host workspace path).0 e,
    λ p. (matched_rule_iff host workspace path).1 (p refl),
  )
  blocking_rule_iff false path = (λ e on. absurd (ground arith), λ p. refl)

  inside_root_iff :
      (path : String) (roots : List ResolvedAllowedRoot)
      → (any (λ root. is_contained host root.canonical_path path) roots ≡ true)
        ↔ Some (λ root. IsInside host root.canonical_path path) roots
  inside_root_iff path roots =
      any_iff (λ root. is_contained host root.canonical_path path)
        (λ root. IsInside host root.canonical_path path)
        (λ root. is_contained_iff host root.canonical_path path) roots

  module _ (enforce allow_dot : Bool) (input : String) (expected : Option FileKind)
      (r : AuthorizedPath) where
    -- What is true of an authorised path that exists.
    pub record IsAuthorized : Type 0 where
      pub normal : normalize_relative_path host allow_dot input ≡ ok r.logical_path
      pub logical_unblocked : IsUnblocked enforce r.logical_path
      pub logical_allowed : Some (IsCovered host r.logical_path) workspace.allowed_roots
      pub absolute : IsNative host workspace r.logical_path r.absolute_path
      pub canonical : host.realpath r.absolute_path ≡ some r.canonical_path
      pub inside : IsInside host workspace.canonical_root_path r.canonical_path
      pub allowed :
          Some (λ root. IsInside host root.canonical_path r.canonical_path) workspace.allowed_roots
      pub relative : IsRelative host workspace r.canonical_path r.canonical_relative_path
      pub canonical_unblocked : IsUnblocked enforce r.canonical_relative_path
      pub kind : host.stat r.canonical_path ≡ some (some r.kind)
      pub expected_kind : IsExpected expected r.kind

    pub Passes-IsAuthorized :
        Passes host workspace enforce allow_dot input expected r → IsAuthorized
    Passes-IsAuthorized p = record {
      normal = p.normal;
      logical_unblocked = (blocking_rule_iff enforce r.logical_path).0 p.logical_unblocked;
      logical_allowed = (within_allowed_root_iff host workspace r.logical_path).0 p.logical_allowed;
      absolute = (IsNative-iff host workspace r.logical_path r.absolute_path).0 p.absolute;
      canonical = p.canonical;
      inside = (is_contained_iff host workspace.canonical_root_path r.canonical_path).0 p.inside;
      allowed = (inside_root_iff r.canonical_path workspace.allowed_roots).0 p.allowed;
      relative =
          (portable_canonical_iff host workspace r.canonical_path r.canonical_relative_path).0
            p.relative;
      canonical_unblocked =
          (blocking_rule_iff enforce r.canonical_relative_path).0 p.canonical_unblocked;
      kind = p.kind;
      expected_kind = p.expected_kind;
    }

    pub IsAuthorized-Passes :
        IsAuthorized → Passes host workspace enforce allow_dot input expected r
    IsAuthorized-Passes a = record {
      normal = a.normal;
      logical_unblocked = (blocking_rule_iff enforce r.logical_path).1 a.logical_unblocked;
      logical_allowed = (within_allowed_root_iff host workspace r.logical_path).1 a.logical_allowed;
      absolute = (IsNative-iff host workspace r.logical_path r.absolute_path).1 a.absolute;
      canonical = a.canonical;
      inside = (is_contained_iff host workspace.canonical_root_path r.canonical_path).1 a.inside;
      allowed = (inside_root_iff r.canonical_path workspace.allowed_roots).1 a.allowed;
      relative =
          (portable_canonical_iff host workspace r.canonical_path r.canonical_relative_path).1
            a.relative;
      canonical_unblocked =
          (blocking_rule_iff enforce r.canonical_relative_path).1 a.canonical_unblocked;
      kind = a.kind;
      expected_kind = a.expected_kind;
    }
