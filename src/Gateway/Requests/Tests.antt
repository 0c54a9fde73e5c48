-- ===== src/Gateway/Requests/Tests.antt =====
-- Runs of the gateway's request manager, and its theorems at concrete inputs.
use mcp_access_stack_legacy.Prelude.{true, ◌+◌, [], none, some, ◌≡◌, refl, arith}
use mcp_access_stack_legacy.Prelude.Assoc.{get, put, has}
use mcp_access_stack_legacy.Core.Timeout.{create_operation_deadline, remaining_operation_time_ms}
use mcp_access_stack_legacy.Core.Relay.{read_file, agent_disconnected}
use mcp_access_stack_legacy.Gateway.Messages.{success}
use mcp_access_stack_legacy.Gateway.Requests.{
  AgentRelayRequestManager, quiet, call, complete, timed_out, reject_all,
}
use mcp_access_stack_legacy.Gateway.Requests.Settle.{
  balance, settle_count, pending_count, reject_all_lem,
}
use mcp_access_stack_legacy.Gateway.Requests.Reach.{
  Reach, here, next, calls, answers, times_out, IsOnce, Reach-IsOnce, Reach-balance,
}

abbrev idle : AgentRelayRequestManager
idle = record {
  pending = [];
  request_timeout_ms = 60_000;
  max_concurrency = 2;
  max_payload_bytes = 1_000;
  settled = [];
  sent = [];
}

abbrev waiting : AgentRelayRequestManager
waiting = (call "a" read_file 1 none quiet (some 10) 0 5 idle).0

abbrev answered : AgentRelayRequestManager
answered = complete "a" (success true) waiting

abbrev timed_out_late : AgentRelayRequestManager
timed_out_late = timed_out "a" answered

waiting_run : has "a" waiting.pending ≡ true
unfolding call get put create_operation_deadline remaining_operation_time_ms
waiting_run = refl

idle-IsOnce : IsOnce idle
unfolding balance get
idle-IsOnce = record {
  bounded = record { within = ground arith; unique = tt };
  once = λ id. ground arith;
}

to_late : Reach idle timed_out_late
unfolding balance get
to_late =
    next
      (next (next here (calls "a" read_file 1 none quiet (some 10) 0 5 idle refl))
        (answers "a" (success true) waiting))
      (times_out "a" answered)

Reach-IsOnce_example : IsOnce timed_out_late
Reach-IsOnce_example = Reach-IsOnce idle timed_out_late idle-IsOnce to_late

waiting-IsOnce : IsOnce waiting
unfolding balance get
waiting-IsOnce =
    Reach-IsOnce idle waiting idle-IsOnce
      (next here (calls "a" read_file 1 none quiet (some 10) 0 5 idle refl))

Reach-balance_example : balance "a" timed_out_late ≡ 1
unfolding balance call get put create_operation_deadline remaining_operation_time_ms
Reach-balance_example =
    Reach-balance waiting timed_out_late "a" waiting-IsOnce
      (next (next here (answers "a" (success true) waiting)) (times_out "a" answered)) refl

reject_all_lem_example :
    (get "a" (reject_all agent_disconnected waiting).pending ≡ none)
    × (settle_count "a" (reject_all agent_disconnected waiting).settled
        ≡ settle_count "a" waiting.settled + pending_count "a" waiting)
reject_all_lem_example = reject_all_lem "a" agent_disconnected waiting
