-- ===== src/Core/Relay.antt =====
-- packages/mcp-core/src/contracts.ts and relay-retry-policy.ts: the operations that the gateway relays
-- to the agent, and which of them may be tried again.
use mcp_access_stack_legacy.Prelude.{ℕ, Bool, true, false}

pub data RelayOperation : Type 0 where
  list_workspaces list_workspace_roots list_files read_file read_binary_file : RelayOperation
  write_file patch_file run_validation run_command search_files inspect_git : RelayOperation
  get_workspace_context start_background_task get_background_task : RelayOperation
  wait_background_task list_background_tasks cancel_background_task : RelayOperation
  read_background_task_logs write_background_task_stdin : RelayOperation
  read_background_task_output git_create_branch git_stage_paths : RelayOperation
  git_unstage_paths git_commit git_merge_branch git_push_branch : RelayOperation
  github_get_repository github_create_repository github_get_pull_request : RelayOperation
  github_create_pull_request github_merge_pull_request : RelayOperation

unfoldable pub is_retryable_relay_operation : RelayOperation → Bool
is_retryable_relay_operation list_workspaces = true
is_retryable_relay_operation list_workspace_roots = true
is_retryable_relay_operation list_files = true
is_retryable_relay_operation read_file = true
is_retryable_relay_operation read_binary_file = true
is_retryable_relay_operation run_validation = true
is_retryable_relay_operation search_files = true
is_retryable_relay_operation inspect_git = true
is_retryable_relay_operation get_workspace_context = true
is_retryable_relay_operation get_background_task = true
is_retryable_relay_operation wait_background_task = true
is_retryable_relay_operation list_background_tasks = true
is_retryable_relay_operation read_background_task_logs = true
is_retryable_relay_operation github_get_repository = true
is_retryable_relay_operation github_get_pull_request = true
is_retryable_relay_operation _ = false

pub data AgentAvailabilityReason : Type 0 where
  agent_not_connected relay_send_failed agent_disconnected : AgentAvailabilityReason
  gateway_shutdown reconnect_timeout : AgentAvailabilityReason

pub data AgentAvailabilityOutcome : Type 0 where
  not_started unknown : AgentAvailabilityOutcome

-- `errorDetailsSchema`, the fields that these details have.
pub record ErrorDetails : Type 0 where
  pub operation : RelayOperation
  pub reason : AgentAvailabilityReason
  pub retryable : Bool
  pub retry_attempted : Bool
  pub outcome : AgentAvailabilityOutcome
  pub connection_generation : ℕ

unfoldable pub create_agent_unavailable_details :
    RelayOperation → AgentAvailabilityReason → AgentAvailabilityOutcome → ℕ → Bool → ErrorDetails
create_agent_unavailable_details operation reason outcome connection_generation retry_attempted =
    record {
      operation = operation;
      reason = reason;
      retryable = is_retryable_relay_operation operation;
      retry_attempted = retry_attempted;
      outcome = outcome;
      connection_generation = connection_generation;
    }
