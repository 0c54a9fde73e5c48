-- ===== src/Gateway/Requests/Reach.antt =====
-- All that happens to a request manager over time, in any order.
use mcp_access_stack_legacy.Prelude.{ℕ, ◌≤◌, String, Option, none, ◌≡◌, arith, eq_iff}
use mcp_access_stack_legacy.Prelude.Assoc.{get}
use mcp_access_stack_legacy.Core.Timeout.{OperationDeadline}
use mcp_access_stack_legacy.Core.Relay.{RelayOperation, AgentAvailabilityReason}
use mcp_access_stack_legacy.Gateway.Messages.{AppError, RelayResponse}
use mcp_access_stack_legacy.Gateway.Requests.{
  AgentRelayRequestManager, Signal, timed_out, aborted, send_failed, call, complete, reject_all,
  reject_generation, keys, keys_of_generation,
}
use mcp_access_stack_legacy.Gateway.Requests.Settle.{
  balance, cancel_pending-balance, complete-balance, send_failed-balance, reject_each-balance,
}
use mcp_access_stack_legacy.Gateway.Requests.Once.{
  IsBounded, cancel_pending-IsBounded, complete-IsBounded, send_failed-IsBounded,
  reject_each-IsBounded, aborted-balance, aborted-IsBounded, call-balance, call-IsBounded,
}

-- One event: a call under an id that was never used, an answer of the agent, or an interruption.
pub data Step : AgentRelayRequestManager → AgentRelayRequestManager → Type 0 where
  calls :
      (id : String) (operation : RelayOperation) (generation : ℕ)
      (context : Option OperationDeadline) (signal : Signal) (payload : Option ℕ) (now started : ℕ)
      (m : AgentRelayRequestManager)
      → balance id m ≡ 0
      → Step m (call id operation generation context signal payload now started m).0
  answers :
      (id : String) (response : RelayResponse) (m : AgentRelayRequestManager)
      → Step m (complete id response m)
  times_out : (id : String) (m : AgentRelayRequestManager) → Step m (timed_out id m)
  aborts :
      (id : String) (reason : Option AppError) (m : AgentRelayRequestManager)
      → Step m (aborted id reason m)
  fails_to_send : (id : String) (m : AgentRelayRequestManager) → Step m (send_failed id m)
  rejects_all :
      (reason : AgentAvailabilityReason) (m : AgentRelayRequestManager)
      → Step m (reject_all reason m)
  rejects_generation :
      (generation : ℕ) (reason : AgentAvailabilityReason) (m : AgentRelayRequestManager)
      → Step m (reject_generation generation reason m)

pub data Reach (m : AgentRelayRequestManager) : AgentRelayRequestManager → Type 0 where
  here : Reach m m
  next : {s t : AgentRelayRequestManager} → Reach m s → Step s t → Reach m t

-- The manager is bounded, and every id is pending or was settled, at most once in all.
pub record IsOnce (m : AgentRelayRequestManager) : Type 0 where
  pub bounded : IsBounded m
  pub once : (id : String) → balance id m ≤ 1

fresh_of_balance :
    (id : String) (m : AgentRelayRequestManager) → balance id m ≡ 0 → get id m.pending ≡ none
unfolding balance
fresh_of_balance id m e = ground arith

Step-IsOnce : {m n : AgentRelayRequestManager} → Step m n → IsOnce m → IsOnce n
unfolding timed_out reject_all reject_generation
Step-IsOnce (calls id op g c s p now started m fresh) o = record {
  bounded = call-IsBounded id op g c s p now started m o.bounded;
  once = λ j. ground (
    arith,
    call-balance id op g c s p now started m j (fresh_of_balance id m fresh),
    o.once j,
    fresh,
    eq_iff id j,
  );
}
Step-IsOnce (answers id response m) o = record {
  bounded = complete-IsBounded m o.bounded id response;
  once = λ j. omega (arith, complete-balance j m id response, o.once j);
}
Step-IsOnce (times_out id m) o = record {
  bounded = cancel_pending-IsBounded m o.bounded id _ _;
  once = λ j. omega (arith, cancel_pending-balance j m id _ _, o.once j);
}
Step-IsOnce (aborts id reason m) o = record {
  bounded = aborted-IsBounded m o.bounded id reason;
  once = λ j. omega (arith, aborted-balance j id reason m, o.once j);
}
Step-IsOnce (fails_to_send id m) o = record {
  bounded = send_failed-IsBounded m o.bounded id;
  once = λ j. omega (arith, send_failed-balance j m id, o.once j);
}
Step-IsOnce (rejects_all reason m) o = record {
  bounded = reject_each-IsBounded reason (keys m.pending) m o.bounded;
  once = λ j. omega (arith, reject_each-balance j reason (keys m.pending) m, o.once j);
}
Step-IsOnce (rejects_generation generation reason m) o = record {
  bounded = reject_each-IsBounded reason (keys_of_generation generation m.pending) m o.bounded;
  once = λ j.
      omega
        (arith, reject_each-balance j reason (keys_of_generation generation m.pending) m, o.once j);
}

-- From a manager in which every id is pending or settled at most once, no sequence of calls with new
-- ids, answers, timeouts, aborts, failed sends and disconnections settles a promise twice, settles
-- one that is still pending, or tracks more requests than `maxConcurrency`.
pub Reach-IsOnce : (m n : AgentRelayRequestManager) → IsOnce m → Reach m n → IsOnce n
Reach-IsOnce m n o here = o
Reach-IsOnce m n o (next path step) = Step-IsOnce step (Reach-IsOnce m _ o path)

Step-balance-le :
    (id : String) {m n : AgentRelayRequestManager} → Step m n → balance id m ≤ balance id n
unfolding timed_out reject_all reject_generation
Step-balance-le j (calls id op g c s p now started m fresh) = ground (
  arith,
  call-balance id op g c s p now started m j (fresh_of_balance id m fresh),
  fresh,
  eq_iff id j,
)
Step-balance-le j (answers id response m) = omega (arith, complete-balance j m id response)
Step-balance-le j (times_out id m) = omega (arith, cancel_pending-balance j m id _ _)
Step-balance-le j (aborts id reason m) = omega (arith, aborted-balance j id reason m)
Step-balance-le j (fails_to_send id m) = omega (arith, send_failed-balance j m id)
Step-balance-le j (rejects_all reason m) =
    omega (arith, reject_each-balance j reason (keys m.pending) m)
Step-balance-le j (rejects_generation generation reason m) =
    omega (arith, reject_each-balance j reason (keys_of_generation generation m.pending) m)

Reach-balance-le :
    (id : String) {m n : AgentRelayRequestManager} → Reach m n → balance id m ≤ balance id n
Reach-balance-le id here = omega arith
Reach-balance-le id (next path step) =
    omega (arith, Reach-balance-le id path, Step-balance-le id step)

-- In every such sequence, an id that was pending or settled stays so: once settled, or still pending.
pub Reach-balance :
    (m n : AgentRelayRequestManager) (id : String)
    → IsOnce m
    → Reach m n
    → balance id m ≡ 1
    → balance id n ≡ 1
Reach-balance m n id o path e =
    omega (arith, Reach-balance-le id path, (Reach-IsOnce m n o path).once id)
