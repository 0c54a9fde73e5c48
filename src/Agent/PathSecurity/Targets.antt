-- ===== src/Agent/PathSecurity/Targets.antt =====
-- services/workspace-agent/src/path-security.ts: the methods of PathSecurity that look at the file
-- system, and resolveAllowedRoot.
use Prim.Native.Char.{Char}
use mcp_access_stack_legacy.Prelude.{
  String, Bool, true, false, not, List, [], ◌∷◌, Option, none, some, if◌then◌else◌, str_eq, truthy,
  is_some,
}
use mcp_access_stack_legacy.Core.Errors.{
  ErrorCode, invalid_path, blocked_path, path_outside_allowed_roots, path_outside_workspace,
  write_not_allowed, not_a_file, not_a_directory, file_not_found, policy_invalid,
}
use mcp_access_stack_legacy.Agent.PathSecurity.{
  FileKind, file, directory, Host, split, split_at, join, is_contained, normalize_relative_path,
  to_native_absolute, ResolvedAllowedRoot, ResolvedWorkspace,
}
use mcp_access_stack_legacy.Agent.PathSecurity.Authorize.{
  Answer, returns, throws, host_error, ◌>>=◌, ◌>>◌, lift, throw_if, find, proper_prefixes,
  AuthorizedPath, AuthorizedWritePath, matched_blocked_pattern, is_blocked, block_if,
  blocked_path_error, is_within_logical_allowed_root, is_allowed_write_path, authorize_logical,
  authorize_write_logical,
}

-- `await realpath(path)` in a try whose catch throws `e`.
abbrev pub found_or : {A : Type 0} → Option A → ErrorCode → Answer A
found_or none e = throws e
found_or (some a) e = returns a

-- A call of the file system outside of any try.
abbrev pub awaited : {A : Type 0} → Option A → Answer A
awaited none = host_error
awaited (some a) = returns a

abbrev pub is_kind : FileKind → FileKind → Bool
is_kind file file = true
is_kind directory directory = true
is_kind _ _ = false

abbrev pub kind_error : FileKind → ErrorCode
kind_error file = not_a_file
kind_error directory = not_a_directory

-- Whether the kind is one that was not asked for.
abbrev pub expect_kind : Option FileKind → FileKind → Answer (Unit {0})
expect_kind none kind = returns tt
expect_kind (some expected) kind = throw_if (not (is_kind expected kind)) (kind_error expected)

module _ (host : Host) where
  module _ (workspace : ResolvedWorkspace) where
    -- `canonicalRelativePath || "."`, with slashes.
    unfoldable pub portable_canonical : String → String
    unfolding split_at join
    portable_canonical canonical_path =
        let rel = join (
          split_at (Prim.Native.Char.code host.sep)
            (host.relative workspace.canonical_root_path canonical_path)) in
        if str_eq rel "" then "." else rel

    abbrev pub logical_of : Bool → String → Bool → Option String → Answer String
    logical_of enforce input allow_dot operation =
        if enforce
        then authorize_logical host workspace input allow_dot operation
        else lift (normalize_relative_path host allow_dot input)

    unfoldable pub authorize_existing_internal :
        String
        → Option FileKind
        → (allow_dot : Bool) → (enforce_blocked_policy : Bool) → Option String
        → Answer AuthorizedPath
    unfolding normalize_relative_path to_native_absolute is_contained matched_blocked_pattern
        blocked_path_error is_within_logical_allowed_root authorize_logical portable_canonical
    authorize_existing_internal input expected_kind allow_dot enforce_blocked_policy operation = do
      logical_path ← logical_of enforce_blocked_policy input allow_dot operation
      throw_if (not (is_within_logical_allowed_root host workspace logical_path))
          path_outside_allowed_roots
      let absolute_path = to_native_absolute host workspace.root_path logical_path
      canonical_path ← found_or (host.realpath absolute_path) file_not_found
      throw_if (not (is_contained host workspace.canonical_root_path canonical_path))
          path_outside_workspace
      throw_if
          (not (
            is_some (
              find (λ root. is_contained host root.canonical_path canonical_path)
                workspace.allowed_roots)))
          path_outside_allowed_roots
      let canonical_relative_path = portable_canonical canonical_path
      block_if host workspace
          (if enforce_blocked_policy
            then truthy (matched_blocked_pattern host workspace canonical_relative_path)
            else none)
          logical_path operation
      path_stat ← awaited (host.stat canonical_path)
      kind ← found_or path_stat invalid_path
      expect_kind expected_kind kind
      returns (record {
        logical_path = logical_path;
        absolute_path = absolute_path;
        canonical_path = canonical_path;
        canonical_relative_path = canonical_relative_path;
        kind = kind;
      })

    unfoldable pub authorize_existing :
        String → Option FileKind → Bool → Option String → Answer AuthorizedPath
    unfolding authorize_existing_internal
    authorize_existing input expected_kind allow_dot operation =
        authorize_existing_internal input expected_kind allow_dot true operation

    unfoldable pub authorize_existing_for_secret_scan :
        String → Option FileKind → Bool → Answer AuthorizedPath
    unfolding authorize_existing_internal
    authorize_existing_for_secret_scan input expected_kind allow_dot =
        authorize_existing_internal input expected_kind allow_dot false none

    -- The loop over the ancestors.
    unfoldable pub assert_creatable : List (List String) → Answer (Unit {0})
    unfolding is_blocked is_allowed_write_path join
    assert_creatable [] = returns tt
    assert_creatable (ancestor ∷ rest) = do
      throw_if (is_blocked host workspace (join ancestor)) blocked_path
      throw_if (not (is_allowed_write_path host workspace (join ancestor))) write_not_allowed
      assert_creatable rest

    unfoldable pub assert_creatable_ancestors : String → Answer (Unit {0})
    unfolding assert_creatable split_at
    assert_creatable_ancestors logical_path =
        assert_creatable (proper_prefixes (split logical_path))

    -- The first try of `authorizeWriteTarget`: whether the file will be created.
    abbrev pub is_created : Option (Option FileKind) → String → Answer Bool
    is_created none logical_path = assert_creatable_ancestors logical_path >> returns true
    is_created (some (some file)) logical_path = returns false
    is_created (some _) logical_path = throws not_a_file

    -- The check of a target that exists.
    abbrev pub check_target : AuthorizedWritePath → Answer AuthorizedWritePath
    check_target target =
        if target.created
        then returns target
        else awaited (host.realpath target.absolute_path) >>= λ canonical_path.
            throw_if (not (is_contained host workspace.canonical_root_path canonical_path))
              path_outside_workspace
            >> returns target

    -- What follows once the parent's canonical path is known, or not.
    abbrev pub check_parent : Option String → AuthorizedWritePath → Answer AuthorizedWritePath
    check_parent none target = if not target.created then throws invalid_path else returns target
    check_parent (some parent_canonical) target = do
      throw_if (not (is_contained host workspace.canonical_root_path parent_canonical))
          path_outside_workspace
      check_target target

    unfoldable pub authorize_write_target : String → Answer AuthorizedWritePath
    unfolding authorize_write_logical to_native_absolute assert_creatable_ancestors is_contained
    authorize_write_target input = do
      logical_path ← authorize_write_logical host workspace input
      let absolute_path = to_native_absolute host workspace.root_path logical_path
      created ← is_created (host.stat absolute_path) logical_path
      check_parent (host.realpath (host.dirname absolute_path))
          (record { logical_path = logical_path; absolute_path = absolute_path; created = created })

    unfoldable pub is_symbolic_link : String → Answer Bool
    unfolding normalize_relative_path to_native_absolute
    is_symbolic_link input = do
      logical_path ← lift (normalize_relative_path host true input)
      awaited (host.is_link (to_native_absolute host workspace.root_path logical_path))

  unfoldable pub resolve_allowed_root : String → String → String → Answer ResolvedAllowedRoot
  unfolding normalize_relative_path to_native_absolute is_contained
  resolve_allowed_root canonical_workspace_root workspace_root configured_path = do
    logical_path ← lift (normalize_relative_path host true configured_path)
    let absolute_path = to_native_absolute host workspace_root logical_path
    canonical_path ← found_or (host.realpath absolute_path) policy_invalid
    throw_if (not (is_contained host canonical_workspace_root canonical_path)) policy_invalid
    root_stat ← awaited (host.stat canonical_path)
    kind ← found_or root_stat policy_invalid
    returns (record {
      logical_path = logical_path;
      absolute_path = absolute_path;
      canonical_path = canonical_path;
      kind = kind;
    })
