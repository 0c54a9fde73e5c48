-- ===== src/Agent/PathSecurity/Authorized.antt =====
-- `authorizeExistingInternal` returns exactly the paths that are authorised.
use mcp_access_stack_legacy.Prelude.{
  String, Bool, false, not, Option, none, some, is_some, ◌≡◌, refl, ◌↔◌, arith, ap, sym, ◌∙◌, subst,
}
use mcp_access_stack_legacy.Core.Errors.{ok}
use mcp_access_stack_legacy.Agent.PathSecurity.{
  FileKind, Host, is_contained, normalize_relative_path, to_native_absolute, ResolvedWorkspace,
}
use mcp_access_stack_legacy.Agent.PathSecurity.Authorize.{
  returns, find, AuthorizedPath, is_within_logical_allowed_root,
}
use mcp_access_stack_legacy.Agent.PathSecurity.Targets.{
  portable_canonical, authorize_existing_internal,
}
use mcp_access_stack_legacy.Agent.PathSecurity.Permission.{
  IsAuthorized, Passes-IsAuthorized, IsAuthorized-Passes,
}
use mcp_access_stack_legacy.Agent.PathSecurity.Existing.{
  bind-returns, throw_if-returns, find-any, returns-injective, found_or-returns, awaited-returns,
  expect_kind-returns, expect_kind-expected, IsExpected, block_if-returns, blocking_rule, Passes,
  logical_of-returns, logical_of-eq,
}

module _ (host : Host) (workspace : ResolvedWorkspace) (enforce allow_dot : Bool) (input : String)
    (expected : Option FileKind) (operation : Option String) where
  abbrev inside_roots : String → Bool
  inside_roots c =
      is_some (find (λ root. is_contained host root.canonical_path c) workspace.allowed_roots)

  abbrev absolute_of : String → String
  absolute_of l = to_native_absolute host workspace.root_path l

  authorized :
      (l c : String) (k : FileKind)
      → normalize_relative_path host allow_dot input ≡ ok l
      → blocking_rule host workspace enforce l ≡ none
      → not (is_within_logical_allowed_root host workspace l) ≡ false
      → host.realpath (absolute_of l) ≡ some c
      → not (is_contained host workspace.canonical_root_path c) ≡ false
      → not (inside_roots c) ≡ false
      → blocking_rule host workspace enforce (portable_canonical host workspace c) ≡ none
      → host.stat c ≡ some (some k)
      → IsExpected expected k
      → Passes host workspace enforce allow_dot input expected (record {
        logical_path = l;
        absolute_path = absolute_of l;
        canonical_path = c;
        canonical_relative_path = portable_canonical host workspace c;
        kind = k;
      })
  authorized l c k n b w p i r u s x = record {
    normal = n;
    logical_unblocked = b;
    logical_allowed = ground (arith, w);
    absolute = refl;
    canonical = p;
    inside = ground (arith, i);
    allowed =
        sym (find-any (λ root. is_contained host root.canonical_path c) workspace.allowed_roots)
        ∙ ground (arith, r);
    relative = refl;
    canonical_unblocked = u;
    kind = s;
    expected_kind = x;
  }

  authorize_existing_sound :
      (r : AuthorizedPath)
      → authorize_existing_internal host workspace input expected allow_dot enforce operation
        ≡ returns r
      → Passes host workspace enforce allow_dot input expected r
  unfolding authorize_existing_internal
  authorize_existing_sound r e =
      let l = bind-returns _ _ r e in
      let w = bind-returns _ _ r l.2 in
      let c = bind-returns _ _ r w.2 in
      let i = bind-returns _ _ r c.2 in
      let a = bind-returns _ _ r i.2 in
      let b = bind-returns _ _ r a.2 in
      let s = bind-returns _ _ r b.2 in
      let k = bind-returns _ _ r s.2 in
      let x = bind-returns _ _ r k.2 in
      let n = logical_of-returns host workspace enforce allow_dot input l.0 operation l.1 in
      subst (Passes host workspace enforce allow_dot input expected) (returns-injective _ r x.2) (
        authorized l.0 c.0 k.0 n.0 n.1 (throw_if-returns _ _ _ w.1) (found_or-returns _ _ _ c.1)
          (throw_if-returns _ _ _ i.1) (throw_if-returns _ _ _ a.1)
          (block_if-returns host workspace _ _ _ _ b.1)
          (awaited-returns _ _ s.1 ∙ ap some (found_or-returns _ _ _ k.1))
          (expect_kind-returns _ _ _ x.1))

  authorize_existing_complete :
      (r : AuthorizedPath)
      → Passes host workspace enforce allow_dot input expected r
      → authorize_existing_internal host workspace input expected allow_dot enforce operation
        ≡ returns r
  unfolding authorize_existing_internal
  authorize_existing_complete r a =
      let unblocked : blocking_rule host workspace enforce
            (portable_canonical host workspace r.canonical_path)
          ≡ none =
        ap (blocking_rule host workspace enforce) (sym a.relative) ∙ a.canonical_unblocked in
      rw
        (logical_of-eq host workspace enforce allow_dot input r.logical_path operation a.normal
          a.logical_unblocked a.logical_allowed)
        (rw (a.logical_allowed) (
          rw (ap host.realpath (sym a.absolute) ∙ a.canonical) (
            rw (a.inside) (
              rw
                (find-any (λ root. is_contained host root.canonical_path r.canonical_path)
                    workspace.allowed_roots
                  ∙ a.allowed)
                (rw unblocked (
                  rw (a.kind) (
                    rw (expect_kind-expected expected r.kind a.expected_kind) (
                      ap
                        (λ (p : String × String).
                          returns (record r { absolute_path = p.0; canonical_relative_path = p.1 }))
                        (pair (sym a.absolute) (sym a.relative))))))))))
    where
      pair : {x y z w : String} → x ≡ y → z ≡ w → ◌≡◌ {A = String × String} (x, z) (y, w)
      pair p q = λ i. (p i, q i)

  -- An existing path is authorised exactly where all of this holds. Its normal form is in an allowed root:
  -- it is the root or, where that is a directory, lies below it, up to case on Windows. The file system
  -- resolves the native path of the normal form to a canonical path, which `node:path` says is in the
  -- canonical root of the workspace and in that of an allowed root. The canonical path is a file or a
  -- directory, the one that was asked for. Of the normal form and of the canonical path from the root, the
  -- first glob that matches is empty, or none matches, unless blocked paths are not enforced.
  pub authorize_existing_iff :
      (r : AuthorizedPath)
      → (authorize_existing_internal host workspace input expected allow_dot enforce operation
          ≡ returns r)
        ↔ IsAuthorized host workspace enforce allow_dot input expected r
  authorize_existing_iff r = (
    λ e.
        Passes-IsAuthorized host workspace enforce allow_dot input expected r
          (authorize_existing_sound r e),
    λ a.
        authorize_existing_complete r
          (IsAuthorized-Passes host workspace enforce allow_dot input expected r a),
  )
