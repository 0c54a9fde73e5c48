-- ===== src/Core/Timeout/Tests.antt =====
-- The theorems on deadlines at concrete inputs.
use mcp_access_stack_legacy.Prelude.{◌-◌, ◌≤◌, max, some, ◌≡◌, refl, arith}
use mcp_access_stack_legacy.Core.Timeout.{
  OperationDeadline, max_background_operation_timeout_ms, create_operation_deadline,
  remaining_operation_time_ms, remaining_after, nested_deadline,
}

abbrev upstream : OperationDeadline
upstream = record {
  requested_timeout_ms = 5_000;
  effective_timeout_ms = 5_000;
  deadline_at = some 6_000;
}

remaining_after_example :
    let d = create_operation_deadline 10_000 (some upstream) 1_000 in
    (remaining_operation_time_ms d 2_000 ≡ d.effective_timeout_ms - (2_000 - 1_000))
    × (d.effective_timeout_ms ≤ max 1 10_000)
    × (d.effective_timeout_ms ≤ max_background_operation_timeout_ms)
remaining_after_example = remaining_after 10_000 1_000 2_000 (some upstream) (ground arith)

nested_deadline_example :
    let d = create_operation_deadline 10_000 (some upstream) 1_000 in
    (remaining_operation_time_ms d 2_000 ≤ remaining_operation_time_ms upstream 2_000)
    × (d.requested_timeout_ms ≡ upstream.requested_timeout_ms)
nested_deadline_example = nested_deadline 10_000 1_000 2_000 6_000 upstream refl
