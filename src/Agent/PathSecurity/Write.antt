-- ===== src/Agent/PathSecurity/Write.antt =====
-- What holds of a path that may be written.
use mcp_access_stack_legacy.Prelude.{String, true, false, List, [], ◌∷◌, none, some, ◌≡◌, ◌⊎◌}
use mcp_access_stack_legacy.Core.Errors.{ok}
use mcp_access_stack_legacy.Agent.PathSecurity.{
  file, Host, split, join, normalize_relative_path, ResolvedWorkspace,
}
use mcp_access_stack_legacy.Agent.PathSecurity.Authorize.{
  proper_prefixes, AuthorizedWritePath, is_blocked, is_allowed_write_path,
}
use mcp_access_stack_legacy.Agent.PathSecurity.Meaning.{
  Some, IsInside, IsCovered, IsNear, allowed_write_path_iff,
}
use mcp_access_stack_legacy.Agent.PathSecurity.Rules.{IsFree, is_blocked_iff, IsNative}

module _ (host : Host) (workspace : ResolvedWorkspace) where
  -- No glob matches, and a path that may be written is the path, or below it, or above it.
  abbrev pub IsWritable : String → Type 0
  IsWritable path = IsFree host workspace path × Some (IsNear host path) workspace.allow_writes

  abbrev pub AllWritable : List (List String) → Type 0
  AllWritable [] = Unit
  AllWritable (ancestor ∷ rest) = IsWritable (join ancestor) × AllWritable rest

  abbrev IsInRoot : String → Type 0
  IsInRoot path = IsInside host workspace.canonical_root_path path

  writable :
      (path : String)
      → is_blocked host workspace path ≡ false
      → is_allowed_write_path host workspace path ≡ true
      → IsWritable path
  writable path b w =
      ((is_blocked_iff host workspace path).0 b, (allowed_write_path_iff host workspace path).0 w)

  -- What the file system says of a target that exists, and of one that does not.
  abbrev pub IsPlaced : AuthorizedWritePath → Type 0
  IsPlaced target =
      ((target.created ≡ true)
        × (host.stat target.absolute_path ≡ none)
        × AllWritable (proper_prefixes (split target.logical_path)))
      ⊎ ((target.created ≡ false)
          × (host.stat target.absolute_path ≡ some (some file))
          × ((c : String) × (host.realpath target.absolute_path ≡ some c) × IsInRoot c))

  pub record MayWrite (input : String) (target : AuthorizedWritePath) : Type 0 where
    pub normal : normalize_relative_path host false input ≡ ok target.logical_path
    pub writable : IsWritable target.logical_path
    pub allowed : Some (IsCovered host target.logical_path) workspace.allowed_roots
    pub absolute : IsNative host workspace target.logical_path target.absolute_path
    pub parent :
        (c : String) → host.realpath (host.dirname target.absolute_path) ≡ some c → IsInRoot c
    pub placed : IsPlaced target
