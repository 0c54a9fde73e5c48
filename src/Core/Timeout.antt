-- ===== src/Core/Timeout.antt =====
-- packages/mcp-core/src/timeout-policy.ts: deadlines of operations. Times are milliseconds; requested
-- timeouts are natural numbers (the schemas admit positive integers). A deadline's `deadline_at` is
-- what `Date.parse` reads from its text, `none` if that is no finite number.
mod Tests
use mcp_access_stack_legacy.Prelude.{
  ℕ, ◌+◌, ◌-◌, ◌≤◌, min, max, Option, none, some, ◌or_else◌, ◌≡◌, arith,
}

abbrev pub quick_operation_timeout_ms : ℕ
quick_operation_timeout_ms = 60_000

abbrev pub max_synchronous_operation_timeout_ms : ℕ
max_synchronous_operation_timeout_ms = 300_000

abbrev pub max_background_operation_timeout_ms : ℕ
max_background_operation_timeout_ms = 86_400_000

abbrev pub command_termination_grace_ms : ℕ
command_termination_grace_ms = 30_000

abbrev pub background_wait_completion_grace_ms : ℕ
background_wait_completion_grace_ms = 1_000

pub data OperationTerminalReason : Type 0 where
  timeout cancelled client_disconnected upstream_timeout process_failed : OperationTerminalReason

pub record OperationDeadline : Type 0 where
  pub requested_timeout_ms : ℕ
  pub effective_timeout_ms : ℕ
  pub deadline_at : Option ℕ

-- The earlier of a requested deadline and that of the caller, where there is one.
abbrev pub bounded_by : Option OperationDeadline → ℕ → ℕ
bounded_by none requested_deadline = requested_deadline
bounded_by (some upstream) requested_deadline =
    min requested_deadline (upstream.deadline_at or_else requested_deadline)

abbrev requested_of : Option OperationDeadline → ℕ → ℕ
requested_of none requested = requested
requested_of (some upstream) requested = upstream.requested_timeout_ms

unfoldable pub create_operation_deadline : ℕ → Option OperationDeadline → ℕ → OperationDeadline
create_operation_deadline requested_timeout_ms upstream now =
    let requested = min (max 1 requested_timeout_ms) max_background_operation_timeout_ms in
    let deadline = bounded_by upstream (now + requested) in
    record {
      requested_timeout_ms = requested_of upstream requested;
      effective_timeout_ms = deadline - now;
      deadline_at = some deadline;
    }

unfoldable pub remaining_operation_time_ms : OperationDeadline → ℕ → ℕ
remaining_operation_time_ms deadline now = elim deadline.deadline_at [
  | none ↦ 0
  | some at ↦ at - now
]

-- A deadline made at `now` leaves at most a day, and at most what was asked for (one millisecond if
-- nothing was); at a later time it leaves the effective timeout less the time that has passed.
pub remaining_after :
    (requested now later : ℕ) (upstream : Option OperationDeadline)
    → now ≤ later
    → let d = create_operation_deadline requested upstream now in
      (remaining_operation_time_ms d later ≡ d.effective_timeout_ms - (later - now))
      × (d.effective_timeout_ms ≤ max 1 requested)
      × (d.effective_timeout_ms ≤ max_background_operation_timeout_ms)
unfolding create_operation_deadline remaining_operation_time_ms
remaining_after requested now later none h = ground arith
remaining_after requested now later (some upstream) h = ground arith

-- A deadline made from the caller's never leaves more time than the caller's, whatever is requested
-- and whenever it is made and asked, if the text of the caller's deadline can be parsed; and it keeps
-- the caller's requested timeout.
pub nested_deadline :
    (requested now at u : ℕ) (upstream : OperationDeadline)
    → upstream.deadline_at ≡ some u
    → let d = create_operation_deadline requested (some upstream) now in
      (remaining_operation_time_ms d at ≤ remaining_operation_time_ms upstream at)
      × (d.requested_timeout_ms ≡ upstream.requested_timeout_ms)
unfolding create_operation_deadline remaining_operation_time_ms
nested_deadline requested now at u upstream parsed = ground arith
