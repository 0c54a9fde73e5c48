-- ===== src/Agent/PathSecurity/Tests.antt =====
-- A workspace on a small file system, and the theorems at its paths.
use mcp_access_stack_legacy.Prelude.{
  String, Bool, true, false, [], ◌∷◌, none, some, concat, code, if◌then◌else◌, ◌==◌, str_eq, any,
  ◌≡◌, refl, ◌⊎◌, ◌↔◌,
}
use mcp_access_stack_legacy.Core.Errors.{ok}
use mcp_access_stack_legacy.Agent.PathSecurity.{
  file, directory, Host, split_at, join, normalize_relative_path, ResolvedWorkspace,
}
use mcp_access_stack_legacy.Agent.PathSecurity.Segments.{All}
use mcp_access_stack_legacy.Agent.PathSecurity.Normalize.{IsName, normalize_names}
use mcp_access_stack_legacy.Agent.PathSecurity.Again.{
  win32_absolute, posix_absolute, normalize_again,
}
use mcp_access_stack_legacy.Agent.PathSecurity.Authorize.{
  returns, AuthorizedPath, AuthorizedWritePath,
}
use mcp_access_stack_legacy.Agent.PathSecurity.Targets.{authorize_existing_internal}
use mcp_access_stack_legacy.Agent.PathSecurity.Permission.{IsAuthorized}
use mcp_access_stack_legacy.Agent.PathSecurity.Authorized.{authorize_existing_iff}

-- What is left of a path below a directory.
abbrev below : String → String → String
below String.[] (String.◌∷◌ c t) = if code c == b'/' then t else "../elsewhere"
below String.[] String.[] = ""
below (String.◌∷◌ b s) String.[] = ".."
below (String.◌∷◌ b s) (String.◌∷◌ c t) =
    let rest = below s t in if code b == code c then rest else "../elsewhere"

-- A host where every file but new.txt exists; `windows` chooses the platform.
abbrev host_of : Bool → Host
host_of windows = record {
  is_windows = windows;
  sep = "/";
  to_locale_lower_case = λ s. s;
  is_absolute = λ s. if windows then win32_absolute s else posix_absolute s;
  win32_is_absolute = win32_absolute;
  posix_is_absolute = posix_absolute;
  relative = below;
  resolve = λ root parts. concat root (concat "/" (join parts));
  dirname = λ s. if str_eq s "/w/src/new.txt" then "/w/src" else "/w";
  glob_matches = str_eq;
  realpath = λ s. if str_eq s "/w/src/new.txt" then none else some s;
  stat = λ s.
      if str_eq s "/w/src/new.txt"
      then none
      else if str_eq s "/w/src"
      then some (some directory)
      else some (some file);
  is_link = λ s. some false;
}

abbrev posix_host : Host
posix_host = host_of false

abbrev windows_host : Host
windows_host = host_of true

abbrev workspace : ResolvedWorkspace
workspace = record {
  root_path = "/w";
  canonical_root_path = "/w";
  allowed_roots =
      record { logical_path = "."; absolute_path = "/w"; canonical_path = "/w"; kind = directory }
      ∷ [];
  blocked_globs = ".env" ∷ [];
  allow_writes = "src" ∷ [];
}

abbrev main_file : AuthorizedPath
main_file = record {
  logical_path = "src/main.ts";
  absolute_path = "/w/src/main.ts";
  canonical_path = "/w/src/main.ts";
  canonical_relative_path = "src/main.ts";
  kind = file;
}

abbrev new_file : AuthorizedWritePath
new_file = record { logical_path = "src/new.txt"; absolute_path = "/w/src/new.txt"; created = true }

normalize_names_example :
    (◌≡◌ {A = String} "src/main.ts" "." × (false ≡ true)) ⊎ All IsName ("src" ∷ "main.ts" ∷ [])
unfolding split_at normalize_relative_path
normalize_names_example = normalize_names posix_host false ".\\src//main.ts" "src/main.ts" refl

normalize_again_example :
    normalize_relative_path windows_host false "src/main.ts" ≡ ok "src/main.ts"
unfolding normalize_relative_path
normalize_again_example =
    normalize_again windows_host refl (λ s. refl) (λ s. refl) (λ s. refl) false "./src\\main.ts"
      "src/main.ts" refl

authorize_existing_iff_example :
    (authorize_existing_internal posix_host workspace "./src/main.ts" (some file) false true none
      ≡ returns main_file)
    ↔ IsAuthorized posix_host workspace true false "./src/main.ts" (some file) main_file
authorize_existing_iff_example =
    authorize_existing_iff posix_host workspace true false "./src/main.ts" (some file) none
      main_file

existing :
    authorize_existing_internal posix_host workspace "./src/main.ts" (some file) false true none
    ≡ returns main_file
unfolding authorize_existing_internal any
existing = refl
