-- ===== src/Agent/PathSecurity.antt =====
-- services/workspace-agent/src/path-security.ts: which paths of a workspace may be read and written.
-- `Host` holds what the code takes from the platform, `node:path`, `node:fs` and minimatch. A glob is
-- matched with the options of the constructor. The file system does not change during a check.
pub mod Segments
pub mod Normalize
pub mod Again
pub mod Authorize
pub mod Targets
pub mod Meaning
pub mod Rules
pub mod Existing
pub mod Permission
pub mod Authorized
pub mod Write
mod Tests
use Prim.Native.Char.{Char}
use mcp_access_stack_legacy.Prelude.{
  ℕ, String, Bool, true, false, not, ◌||◌, ◌&&◌, List, [], ◌∷◌, ◌++◌, Option, none, some, concat,
  code, if◌then◌else◌, ◌==◌, str_eq, any, leb,
}
use mcp_access_stack_legacy.Core.Text.{codes, starts_with, ends_with, contains, in_range, has}
use mcp_access_stack_legacy.Core.Errors.{ErrorCode, invalid_path, Result, ok, throw}

pub data FileKind : Type 0 where
  file directory : FileKind

-- The kind of an entry is `none` where it is neither a file nor a directory; `stat` is `none` where the
-- call throws.
pub record Host : Type 0 where
  pub is_windows : Bool
  pub sep : Char
  pub to_locale_lower_case : String → String
  pub is_absolute : String → Bool
  pub win32_is_absolute : String → Bool
  pub posix_is_absolute : String → Bool
  pub relative : String → String → String
  pub resolve : String → List String → String
  pub dirname : String → String
  pub glob_matches : String → String → Bool
  pub realpath : String → Option String
  pub stat : String → Option (Option FileKind)
  pub is_link : String → Option Bool

-- `value.startsWith(prefix)`.
abbrev pub begins : String → String → Bool
begins value start = starts_with (codes value) (codes start)

abbrev pub with_first : Char → List String → List String
with_first c [] = String.◌∷◌ c "" ∷ []
with_first c (s ∷ rest) = String.◌∷◌ c s ∷ rest

-- `split` at a character, and `join("/")`.
unfoldable pub split_at : ℕ → String → List String
split_at n String.[] = "" ∷ []
split_at n (String.◌∷◌ c s) =
    let rest = split_at n s in if code c == n then "" ∷ rest else with_first c rest

abbrev pub split : String → List String
split = split_at b'/'

unfoldable pub join : List String → String
join [] = ""
join (s ∷ []) = s
join (s ∷ t ∷ rest) = concat s (String.◌∷◌ "/" (join (t ∷ rest)))

-- `replaceAll("\\", "/")`.
unfoldable pub portable : String → String
portable String.[] = ""
portable (String.◌∷◌ c s) = String.◌∷◌ (if code c == b'\\' then "/" else c) (portable s)

abbrev pub is_letter : ℕ → Bool
is_letter n = in_range b'a' b'z' n || in_range b'A' b'Z' n

-- `/^[a-zA-Z]:/`.
abbrev pub has_drive : String → Bool
has_drive String.[] = false
has_drive (String.◌∷◌ c String.[]) = false
has_drive (String.◌∷◌ c (String.◌∷◌ d s)) = is_letter (code c) && code d == b':'

-- `/[. ]$/`.
abbrev pub ends_in_dot_or_blank : String → Bool
ends_in_dot_or_blank s = ends_with (codes s) (codes ".") || ends_with (codes s) (codes " ")

abbrev pub and_segment : String → Option (List String) → Option (List String)
and_segment segment none = none
and_segment segment (some segments) = some (segment ∷ segments)

abbrev pub joined : (allow_dot : Bool) → Option (List String) → Result String
joined allow_dot none = throw invalid_path
joined allow_dot (some []) = if allow_dot then ok "." else throw invalid_path
joined allow_dot (some (s ∷ rest)) = ok (join (s ∷ rest))

module _ (host : Host) where
  unfoldable pub comparison_value : String → String
  comparison_value value = if host.is_windows then host.to_locale_lower_case value else value

  unfoldable pub is_contained : String → String → Bool
  is_contained base_path target_path =
      let rel = host.relative base_path target_path in
      str_eq rel ""
      || (not (begins rel (concat ".." (String.◌∷◌ host.sep "")))
          && not (str_eq rel "..")
          && not (host.is_absolute rel))

  unfoldable pub logical_contains : String → String → Bool
  unfolding comparison_value
  logical_contains base_path target_path =
      if str_eq base_path "."
      then true
      else let base = comparison_value base_path in
        let target = comparison_value target_path in
        str_eq target base || begins target (concat base "/")

  -- The test of a segment that is rejected.
  abbrev pub is_invalid_segment : String → Bool
  is_invalid_segment segment =
      str_eq segment ".."
      || (host.is_windows && (has (λ n. n == b':') segment || ends_in_dot_or_blank segment))

  -- The loop over the segments; `none` where it throws.
  unfoldable pub output_segments : List String → Option (List String)
  output_segments [] = some []
  output_segments (segment ∷ rest) =
      let more = output_segments rest in
      if str_eq segment "" || str_eq segment "."
      then more
      else if is_invalid_segment segment
      then none
      else and_segment segment more

  abbrev pub is_rooted : String → Bool
  is_rooted input =
      host.is_absolute input
      || host.win32_is_absolute input
      || host.posix_is_absolute input
      || begins input "\\\\"
      || has_drive input

  unfoldable pub normalize_relative_path : (allow_dot : Bool) → String → Result String
  unfolding output_segments has split_at portable join
  normalize_relative_path allow_dot input =
      if str_eq input "" || has (λ n. n == 0) input
      then throw invalid_path
      else if is_rooted input
      then throw invalid_path
      else let value = portable input in
        if begins value "//"
        then throw invalid_path
        else joined allow_dot (output_segments (split value))

  unfoldable pub to_native_absolute : String → String → String
  unfolding split_at
  to_native_absolute root_path relative_path =
      if str_eq relative_path "." then root_path else host.resolve root_path (split relative_path)

pub record ResolvedAllowedRoot : Type 0 where
  pub logical_path : String
  pub absolute_path : String
  pub canonical_path : String
  pub kind : FileKind

-- Of a workspace the fields that the checks read.
pub record ResolvedWorkspace : Type 0 where
  pub root_path : String
  pub canonical_root_path : String
  pub allowed_roots : List ResolvedAllowedRoot
  pub blocked_globs : List String
  pub allow_writes : List String
