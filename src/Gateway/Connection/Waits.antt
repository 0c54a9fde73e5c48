-- ===== src/Gateway/Connection/Waits.antt =====
-- What a wait for the workspace agent ends with, and that it ends.
use mcp_access_stack_legacy.Prelude.{
  ℕ, ◌≤◌, Bool, true, false, any, List, [], ◌∷◌, Option, some, is_some, ◌≡◌, arith,
}
use mcp_access_stack_legacy.Core.Timeout.{OperationDeadline}
use mcp_access_stack_legacy.Gateway.Connection.{
  AgentRelay, ServiceEvent, elapses, on_event, resolves, await_ready, wait_for_ready_generation,
}

resolves_later :
    (minimum : ℕ) (event : ServiceEvent) (s : AgentRelay)
    → resolves minimum event s ≡ some true
    → minimum ≤ (on_event event s).connection_generation
unfolding resolves on_event
resolves_later minimum event s e = ground arith

await_ready_later :
    (minimum : ℕ) (events : List ServiceEvent) (s : AgentRelay)
    → (await_ready minimum events s).1 ≡ some true
    → minimum ≤ (await_ready minimum events s).0.connection_generation
unfolding await_ready
await_ready_later minimum [] s e = absurd (ground arith)
await_ready_later minimum (event ∷ events) s e =
    ground
      (arith, await_ready_later minimum events (on_event event s), resolves_later minimum event s)

pub wait_later :
    (minimum : ℕ) (deadline : Option OperationDeadline) (now : ℕ) (events : List ServiceEvent)
    (s : AgentRelay)
    → (wait_for_ready_generation minimum deadline now events s).1 ≡ some true
    → minimum ≤ (wait_for_ready_generation minimum deadline now events s).0.connection_generation
unfolding wait_for_ready_generation
wait_later minimum deadline now events s e = ground (arith, await_ready_later minimum events s)

abbrev pub is_elapses : ServiceEvent → Bool
is_elapses elapses = true
is_elapses _ = false

await_ready_ends :
    (minimum : ℕ) (events : List ServiceEvent) (s : AgentRelay)
    → any is_elapses events ≡ true
    → is_some (await_ready minimum events s).1 ≡ true
unfolding await_ready any resolves
await_ready_ends minimum [] s e = absurd (ground arith)
await_ready_ends minimum (event ∷ events) s e =
    ground (arith, await_ready_ends minimum events (on_event event s))

pub wait_ends :
    (minimum : ℕ) (deadline : Option OperationDeadline) (now : ℕ) (events : List ServiceEvent)
    (s : AgentRelay)
    → any is_elapses events ≡ true
    → is_some (wait_for_ready_generation minimum deadline now events s).1 ≡ true
unfolding wait_for_ready_generation
wait_ends minimum deadline now events s e = ground (arith, await_ready_ends minimum events s e)
