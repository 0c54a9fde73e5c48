-- ===== src/Core/PolicyMerge/Limits.antt =====
-- The limits of discovered workspaces.
use mcp_access_stack_legacy.Prelude.{ℕ, ◌≤◌, ◌<◌, true, Option, none, some, ltb, ◌≡◌, refl, arith}
use mcp_access_stack_legacy.Core.Policy.{WorkspaceLimits}
use mcp_access_stack_legacy.Core.PolicyMerge.{
  PartialLimits, discovered_workspace_limit_ceilings, clamp, clamp_discovered_limits,
}

-- The limits of a discovered workspace.
pub record AreWithin (l : WorkspaceLimits) : Type 0 where
  pub file_bytes : (0 < l.max_file_bytes) × (l.max_file_bytes ≤ 64_000)
  pub search_results : (0 < l.max_search_results) × (l.max_search_results ≤ 100)
  pub snippet_bytes : (0 < l.max_search_snippet_bytes) × (l.max_search_snippet_bytes ≤ 20_000)
  pub diff_bytes : (0 < l.max_diff_bytes) × (l.max_diff_bytes ≤ 500_000)
  pub listed_files : (0 < l.max_listed_files) × (l.max_listed_files ≤ 500)

clamp-bounds : (o : Option ℕ) (c : ℕ) → 0 < c → (0 < clamp o c) × (clamp o c ≤ c)
clamp-bounds none c p = (p, ground arith)
clamp-bounds (some v) c p = ground arith

-- Whatever limits the settings ask for, those of discovered workspaces are accepted by the schema, are
-- positive and stay under the ceilings.
pub clamp_discovered_limits-AreWithin :
    (o : Option PartialLimits)
    → (l : WorkspaceLimits) × (clamp_discovered_limits o ≡ some l) × AreWithin l
unfolding clamp_discovered_limits
clamp_discovered_limits-AreWithin none = (
  discovered_workspace_limit_ceilings,
  refl,
  record {
    file_bytes = ground arith;
    search_results = ground arith;
    snippet_bytes = ground arith;
    diff_bytes = ground arith;
    listed_files = ground arith;
  },
)
clamp_discovered_limits-AreWithin (some o) =
    let a = clamp-bounds o.max_file_bytes 64_000 (ground arith) in
    let b = clamp-bounds o.max_search_results 100 (ground arith) in
    let c = clamp-bounds o.max_search_snippet_bytes 20_000 (ground arith) in
    let d = clamp-bounds o.max_diff_bytes 500_000 (ground arith) in
    let e = clamp-bounds o.max_listed_files 500 (ground arith) in
    let l : WorkspaceLimits = record discovered_workspace_limit_ceilings {
      max_file_bytes = clamp o.max_file_bytes 64_000;
      max_search_results = clamp o.max_search_results 100;
      max_search_snippet_bytes = clamp o.max_search_snippet_bytes 20_000;
      max_diff_bytes = clamp o.max_diff_bytes 500_000;
      max_listed_files = clamp o.max_listed_files 500;
    } in
    (
      l,
      rw (lt-ltb _ a.0)
          (rw (lt-ltb _ b.0) (rw (lt-ltb _ c.0) (rw (lt-ltb _ d.0) (rw (lt-ltb _ e.0) refl)))),
      record {
        file_bytes = a;
        search_results = b;
        snippet_bytes = c;
        diff_bytes = d;
        listed_files = e;
      },
    )
  where
    lt-ltb : (n : ℕ) → 0 < n → ltb 0 n ≡ true
    lt-ltb n p = ground arith
