-- ===== src/Agent/ShellConcurrency.antt =====
-- services/workspace-agent/src/connection/synchronous-shell-concurrency.ts: one synchronous shell for
-- each workspace, and a bounded number of them.
pub mod Exclusion
mod Tests
use mcp_access_stack_legacy.Prelude.{
  ℕ, List, [], ◌∷◌, String, Bool, true, false, ◌||◌, Option, none, some, if◌then◌else◌, str_eq, leb,
  ltb,
}
use mcp_access_stack_legacy.Prelude.Assoc.{Assoc, get, put, delete, has, size}
use mcp_access_stack_legacy.Core.Errors.{agent_busy, invalid_argument, Result, ok, throw, M}

abbrev pub default_max_concurrent_synchronous_shells : ℕ
default_max_concurrent_synchronous_shells = 4

abbrev pub max_concurrent_synchronous_shells : ℕ
max_concurrent_synchronous_shells = 16

pub record SynchronousShellConcurrency : Type 0 where
  pub active_by_workspace : Assoc String
  pub max_concurrent : ℕ

-- A lease, with what its `release` closes over.
pub record SynchronousShellLease : Type 0 where
  pub workspace_key : String
  pub request_id : String
  pub released : Bool

-- The constructor, on a natural number; it refuses every other number.
pub construct : ℕ → Result SynchronousShellConcurrency
construct max_concurrent =
    if ltb max_concurrent 1 || ltb max_concurrent_synchronous_shells max_concurrent
    then throw invalid_argument
    else ok (record { active_by_workspace = []; max_concurrent = max_concurrent })

pub active_count : SynchronousShellConcurrency → ℕ
active_count s = size s.active_by_workspace

pub acquire : String → String → M SynchronousShellConcurrency SynchronousShellLease
acquire workspace_key request_id s =
    if has workspace_key s.active_by_workspace
    then (s, throw agent_busy)
    else if leb s.max_concurrent (size s.active_by_workspace)
    then (s, throw agent_busy)
    else (
      record s { active_by_workspace = put workspace_key request_id s.active_by_workspace },
      ok (record { workspace_key = workspace_key; request_id = request_id; released = false }),
    )

abbrev pub holds : Option String → String → Bool
holds none request_id = false
holds (some current) request_id = str_eq current request_id

pub release :
    SynchronousShellLease
    → SynchronousShellConcurrency
    → SynchronousShellLease × SynchronousShellConcurrency
release lease s = if lease.released then (lease, s) else (
  record lease { released = true },
  if holds (get lease.workspace_key s.active_by_workspace) lease.request_id
      then record s { active_by_workspace = delete lease.workspace_key s.active_by_workspace }
      else s,
)

-- What callers do with a limiter, in the order in which they do it.
pub data Call : Type 0 where
  acquires : String → String → Call
  releases : SynchronousShellLease → Call

pub apply : Call → SynchronousShellConcurrency → SynchronousShellConcurrency
unfolding acquire release
apply (acquires workspace_key request_id) s = (acquire workspace_key request_id s).0
apply (releases lease) s = (release lease s).1

pub apply_all : List Call → SynchronousShellConcurrency → SynchronousShellConcurrency
unfolding apply
apply_all [] s = s
apply_all (call ∷ more) s = apply_all more (apply call s)
