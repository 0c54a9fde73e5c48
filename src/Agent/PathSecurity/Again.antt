-- ===== src/Agent/PathSecurity/Again.antt =====
-- On Windows a path that normalising returns is left as it is by normalising again.
use Prim.Native.Char.{Char}
use Prim.Native.String.append
use Prim.Native.String.compare
use text.Mathlib.Text.{is_eq}
use mcp_access_stack_legacy.Prelude.{
  ℕ, String, Bool, true, false, ◌||◌, ◌&&◌, List, [], ◌∷◌, concat, code, ◌==◌, str_eq, ◌≡◌, refl,
  inl, inr, arith, ap, ◌∙◌,
}
use mcp_access_stack_legacy.Core.Text.{has}
use mcp_access_stack_legacy.Core.Errors.{ok}
use mcp_access_stack_legacy.Agent.PathSecurity.{
  Host, begins, split, split_at, join, has_drive, is_letter, output_segments, is_rooted, joined,
  normalize_relative_path,
}
use mcp_access_stack_legacy.Agent.PathSecurity.Segments.{
  All, Lacks, is_slash, is_backslash, join-Lacks, portable-same, split-join,
}
use mcp_access_stack_legacy.Agent.PathSecurity.Normalize.{
  is_nul, IsKept, IsNormal, normalize-IsNormal, All-slash, output-same,
}

abbrev is_colon : ℕ → Bool
is_colon n = n == b':'

abbrev pub is_separator : ℕ → Bool
is_separator n = is_slash n || is_backslash n

-- `win32.isAbsolute`: a separator first, or a letter, a colon and a separator.
abbrev pub win32_absolute : String → Bool
win32_absolute String.[] = false
win32_absolute (String.◌∷◌ c s) = is_separator (code c) || after_letter (code c) s
  where
    after_letter : ℕ → String → Bool
    after_letter n (String.◌∷◌ d (String.◌∷◌ e t)) =
        is_letter n && code d == b':' && is_separator (code e)
    after_letter n _ = false

-- `posix.isAbsolute`.
abbrev pub posix_absolute : String → Bool
posix_absolute s = begins s "/"

-- Nothing that would make a path absolute, be it at a drive or on a share.
record IsRelative (s : String) : Type 0 where
  nonempty : str_eq s "" ≡ false
  nul : Lacks is_nul s
  backslash : Lacks is_backslash s
  slash : begins s "/" ≡ false
  colon : Lacks is_colon s

win32-IsRelative : (s : String) → IsRelative s → win32_absolute s ≡ false
unfolding has
win32-IsRelative String.[] r = refl
win32-IsRelative (String.◌∷◌ c String.[]) r = ground (arith, r.backslash, r.slash)
win32-IsRelative (String.◌∷◌ c (String.◌∷◌ d String.[])) r = ground (arith, r.backslash, r.slash)
win32-IsRelative (String.◌∷◌ c (String.◌∷◌ d (String.◌∷◌ e s))) r =
    ground (arith, r.backslash, r.slash, r.colon)

drive-IsRelative : (s : String) → IsRelative s → has_drive s ≡ false
unfolding has
drive-IsRelative String.[] r = refl
drive-IsRelative (String.◌∷◌ c String.[]) r = refl
drive-IsRelative (String.◌∷◌ c (String.◌∷◌ d s)) r = ground (arith, r.colon)

unc-IsRelative : (s : String) → IsRelative s → begins s "\\\\" ≡ false
unfolding has
unc-IsRelative String.[] r = refl
unc-IsRelative (String.◌∷◌ c s) r = ground (arith, r.backslash)

slashes-IsRelative : (s : String) → IsRelative s → begins s "//" ≡ false
slashes-IsRelative String.[] r = refl
slashes-IsRelative (String.◌∷◌ c s) r = ground (arith, r.slash)

lead :
    (c : Char) (s : String) (rest : List String)
    → (t : String) × (join (String.◌∷◌ c s ∷ rest) ≡ String.◌∷◌ c t)
unfolding join
lead c s [] = (s, refl)
lead c s (t ∷ rest) = (
  concat s (String.◌∷◌ "/" (join (t ∷ rest))),
  append.cons c s (String.◌∷◌ "/" (join (t ∷ rest))),
)

module _ (host : Host) (windows : host.is_windows ≡ true) where
  lead-IsRelative :
      (s : String) (rest : List String)
      → IsKept host s
      → (str_eq (join (s ∷ rest)) "" ≡ false) × (begins (join (s ∷ rest)) "/" ≡ false)
  unfolding has
  lead-IsRelative String.[] rest (kept, valid, slash, backslash, nul) = absurd (ground arith)
  lead-IsRelative (String.◌∷◌ c s) rest (kept, valid, slash, backslash, nul) =
      let l = lead c s rest in rw (l.1) (ap is_eq (compare.cons-nil c l.0), ground (arith, slash))

  All-colon : (xs : List String) → All (IsKept host) xs → All (Lacks is_colon) xs
  All-colon [] p = tt
  All-colon (x ∷ xs) ((kept, valid, slash, backslash, nul), ps) =
      (ground (arith, valid, windows), All-colon xs ps)

  All-backslash : (xs : List String) → All (IsKept host) xs → All (Lacks is_backslash) xs
  All-backslash [] p = tt
  All-backslash (x ∷ xs) ((kept, valid, slash, backslash, nul), ps) =
      (backslash, All-backslash xs ps)

  All-nul : (xs : List String) → All (IsKept host) xs → All (Lacks is_nul) xs
  All-nul [] p = tt
  All-nul (x ∷ xs) ((kept, valid, slash, backslash, nul), ps) = (nul, All-nul xs ps)

  join-IsRelative :
      (s : String) (rest : List String)
      → All (IsKept host) (s ∷ rest)
      → IsRelative (join (s ∷ rest))
  join-IsRelative s rest p = record {
    nonempty = (lead-IsRelative s rest p.0).0;
    nul = join-Lacks is_nul (s ∷ rest) refl (All-nul (s ∷ rest) p);
    backslash = join-Lacks is_backslash (s ∷ rest) refl (All-backslash (s ∷ rest) p);
    slash = (lead-IsRelative s rest p.0).1;
    colon = join-Lacks is_colon (s ∷ rest) refl (All-colon (s ∷ rest) p);
  }

  module _ (absolute : (s : String) → host.is_absolute s ≡ win32_absolute s)
      (win32 : (s : String) → host.win32_is_absolute s ≡ win32_absolute s)
      (posix : (s : String) → host.posix_is_absolute s ≡ posix_absolute s) where
    rooted-IsRelative : (s : String) → IsRelative s → is_rooted host s ≡ false
    rooted-IsRelative s r = rw (absolute s) (
        rw (win32 s) (
          rw (posix s) (
            rw (win32-IsRelative s r)
              (rw (r.slash) (rw (unc-IsRelative s r) (drive-IsRelative s r))))))

    normalize-relative :
        (allow_dot : Bool) (s : String)
        → IsRelative s
        → normalize_relative_path host allow_dot s
          ≡ joined allow_dot (output_segments host (split s))
    unfolding normalize_relative_path
    normalize-relative allow_dot s r = rw (r.nonempty) (
        rw (r.nul) (
          rw (rooted-IsRelative s r)
            (rw (portable-same s r.backslash) (rw (slashes-IsRelative s r) refl))))

    dot-IsRelative : IsRelative "."
    unfolding has
    dot-IsRelative = record {
      nonempty = refl;
      nul = refl;
      backslash = refl;
      slash = refl;
      colon = refl;
    }

    -- On Windows, where `path.isAbsolute` and `path.win32.isAbsolute` accept a separator first or a
    -- drive letter with a colon and a separator, and `path.posix.isAbsolute` a slash first: a path that
    -- normalising returns is returned unchanged when it is normalised again.
    pub normalize_again :
        (allow_dot : Bool) (input p : String)
        → normalize_relative_path host allow_dot input ≡ ok p
        → normalize_relative_path host allow_dot p ≡ ok p
    unfolding IsNormal output_segments split_at
    normalize_again allow_dot input p e = elim (normalize-IsNormal host allow_dot input p e) [
      | inl (dot, allowed) ↦ rw dot (rw allowed (normalize-relative true "." dot-IsRelative))
      | inr (s, rest, kept, eq) ↦ rw eq (
          normalize-relative allow_dot (join (s ∷ rest)) (join-IsRelative s rest kept)
          ∙ ap (λ xs. joined allow_dot (output_segments host xs))
              (split-join s rest (All-slash host (s ∷ rest) kept))
          ∙ ap (joined allow_dot) (output-same host (s ∷ rest) kept))
    ]
