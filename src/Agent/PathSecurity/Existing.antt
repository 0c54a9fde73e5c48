-- ===== src/Agent/PathSecurity/Existing.antt =====
-- Which existing paths are authorised.
use mcp_access_stack_legacy.Prelude.{
  String, Bool, true, false, not, List, [], ◌∷◌, Option, none, some, if◌then◌else◌, any, is_some,
  truthy, ◌≡◌, refl, arith, ap, ◌∙◌, subst,
}
use mcp_access_stack_legacy.Core.Errors.{ErrorCode, path_outside_allowed_roots, Result, ok, throw}
use mcp_access_stack_legacy.Agent.PathSecurity.{
  FileKind, file, directory, Host, is_contained, normalize_relative_path, to_native_absolute,
  ResolvedWorkspace,
}
use mcp_access_stack_legacy.Agent.PathSecurity.Authorize.{
  Answer, returns, throws, blocks, host_error, ◌>>=◌, ◌>>◌, lift, throw_if, find, AuthorizedPath,
  matched_blocked_pattern, block_if, is_within_logical_allowed_root, authorize_logical,
}
use mcp_access_stack_legacy.Agent.PathSecurity.Targets.{
  found_or, awaited, expect_kind, portable_canonical, logical_of,
}

pub bind-returns :
    {A B : Type 0} (m : Answer A) (f : A → Answer B) (b : B)
    → (m >>= f) ≡ returns b
    → (a : A) × (m ≡ returns a) × (f a ≡ returns b)
bind-returns (returns a) f b e = (a, refl, e)
bind-returns (throws c) f b e = absurd (ground arith)
bind-returns (blocks d) f b e = absurd (ground arith)
bind-returns host_error f b e = absurd (ground arith)

pub throw_if-returns :
    (test : Bool) (c : ErrorCode) (u : Unit {0}) → throw_if test c ≡ returns u → test ≡ false
throw_if-returns true c u e = absurd (ground arith)
throw_if-returns false c u e = refl

pub unless-returns :
    (test : Bool) (c : ErrorCode) (u : Unit {0}) → throw_if (not test) c ≡ returns u → test ≡ true
unless-returns true c u e = refl
unless-returns false c u e = absurd (ground arith)

pub some-injective : {A : Type 0} (x y : A) → some x ≡ some y → x ≡ y
some-injective x y e = ground arith

pub lift-returns : {A : Type 0} (r : Result A) (a : A) → lift r ≡ returns a → r ≡ ok a
lift-returns (ok b) a e = ap ok (unwrap e)
  where
    unwrap : {A : Type 0} {x y : A} → returns x ≡ returns y → x ≡ y
    unwrap e = ground arith
lift-returns (throw c) a e = absurd (ground arith)

pub find-any : {A : Type 0} (p : A → Bool) (xs : List A) → is_some (find p xs) ≡ any p xs
unfolding any
find-any p [] = refl
find-any p (x ∷ xs) = ground (arith, find-any p xs)

pub returns-injective : {A : Type 0} (x y : A) → returns x ≡ returns y → x ≡ y
returns-injective x y e = ground arith

pub found_or-returns :
    {A : Type 0} (o : Option A) (c : ErrorCode) (a : A) → found_or o c ≡ returns a → o ≡ some a
found_or-returns none c a e = absurd (ground arith)
found_or-returns (some b) c a e = ap some (returns-injective b a e)

pub awaited-returns : {A : Type 0} (o : Option A) (a : A) → awaited o ≡ returns a → o ≡ some a
awaited-returns none a e = absurd (ground arith)
awaited-returns (some b) a e = ap some (returns-injective b a e)

-- The kind is the expected one, if one is expected.
abbrev pub IsExpected : Option FileKind → FileKind → Type 0
IsExpected expected kind = (k : FileKind) → expected ≡ some k → kind ≡ k

pub expect_kind-returns :
    (expected : Option FileKind) (kind : FileKind) (u : Unit {0})
    → expect_kind expected kind ≡ returns u
    → IsExpected expected kind
expect_kind-returns none kind u e k h = absurd (ground arith)
expect_kind-returns (some file) file u e k h = ground arith
expect_kind-returns (some directory) directory u e k h = ground arith
expect_kind-returns (some file) directory u e k h = absurd (ground arith)
expect_kind-returns (some directory) file u e k h = absurd (ground arith)

pub expect_kind-expected :
    (expected : Option FileKind) (kind : FileKind)
    → IsExpected expected kind
    → expect_kind expected kind ≡ returns tt
expect_kind-expected none kind e = refl
expect_kind-expected (some k) kind e = rw (e k refl) (same k)
  where
    same : (k : FileKind) → expect_kind (some k) k ≡ returns tt
    same file = refl
    same directory = refl

module _ (host : Host) (workspace : ResolvedWorkspace) where
  pub block_if-returns :
      (o : Option String) (p : String) (operation : Option String) (u : Unit {0})
      → block_if host workspace o p operation ≡ returns u
      → o ≡ none
  block_if-returns none p operation u e = refl
  block_if-returns (some rule) p operation u e = absurd (ground arith)

  -- The rule that blocks a path, where blocked paths are enforced.
  abbrev pub blocking_rule : Bool → String → Option String
  blocking_rule enforce path =
      if enforce then truthy (matched_blocked_pattern host workspace path) else none

  -- The tests that a path that exists passes.
  pub record Passes (enforce allow_dot : Bool) (input : String) (expected : Option FileKind)
      (r : AuthorizedPath) : Type 0 where
    pub normal : normalize_relative_path host allow_dot input ≡ ok r.logical_path
    pub logical_unblocked : blocking_rule enforce r.logical_path ≡ none
    pub logical_allowed : is_within_logical_allowed_root host workspace r.logical_path ≡ true
    pub absolute : r.absolute_path ≡ to_native_absolute host workspace.root_path r.logical_path
    pub canonical : host.realpath r.absolute_path ≡ some r.canonical_path
    pub inside : is_contained host workspace.canonical_root_path r.canonical_path ≡ true
    pub allowed :
        any (λ root. is_contained host root.canonical_path r.canonical_path) workspace.allowed_roots
        ≡ true
    pub relative : r.canonical_relative_path ≡ portable_canonical host workspace r.canonical_path
    pub canonical_unblocked : blocking_rule enforce r.canonical_relative_path ≡ none
    pub kind : host.stat r.canonical_path ≡ some (some r.kind)
    pub expected_kind : IsExpected expected r.kind

  pub logical_of-returns :
      (enforce allow_dot : Bool) (input l : String) (operation : Option String)
      → logical_of host workspace enforce input allow_dot operation ≡ returns l
      → (normalize_relative_path host allow_dot input ≡ ok l) × (blocking_rule enforce l ≡ none)
  unfolding authorize_logical
  logical_of-returns false allow_dot input l operation e =
      (lift-returns (normalize_relative_path host allow_dot input) l e, refl)
  logical_of-returns true allow_dot input l operation e =
      let n =
        bind-returns (lift (normalize_relative_path host allow_dot input))
          (λ p.
            block_if host workspace (truthy (matched_blocked_pattern host workspace p)) p operation
            >> (throw_if (not (is_within_logical_allowed_root host workspace p))
                  path_outside_allowed_roots
                >> returns p))
          l e in
      let b =
        bind-returns
          (block_if host workspace (truthy (matched_blocked_pattern host workspace n.0)) n.0
            operation)
          (λ _.
            throw_if (not (is_within_logical_allowed_root host workspace n.0))
              path_outside_allowed_roots
            >> returns n.0)
          l n.2 in
      let w =
        bind-returns
          (throw_if (not (is_within_logical_allowed_root host workspace n.0))
            path_outside_allowed_roots)
          (λ _. returns n.0) l b.2 in
      let same : n.0 ≡ l = returns-injective n.0 l w.2 in
      (
        lift-returns (normalize_relative_path host allow_dot input) l (n.1 ∙ ap returns same),
        subst (λ p. blocking_rule true p ≡ none) same
            (block_if-returns (truthy (matched_blocked_pattern host workspace n.0)) n.0 operation
              b.0 b.1),
      )

  pub logical_of-eq :
      (enforce allow_dot : Bool) (input l : String) (operation : Option String)
      → normalize_relative_path host allow_dot input ≡ ok l
      → blocking_rule enforce l ≡ none
      → is_within_logical_allowed_root host workspace l ≡ true
      → logical_of host workspace enforce input allow_dot operation ≡ returns l
  unfolding authorize_logical
  logical_of-eq false allow_dot input l operation n b w = ap lift n
  logical_of-eq true allow_dot input l operation n b w = rw n (rw b (rw w refl))
