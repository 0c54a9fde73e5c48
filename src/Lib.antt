-- ===== src/Lib.antt =====
-- mcp-access-stack: a gateway that gives tools of a workspace and of a browser to remote clients.
--
-- The program. Clients call `mcp-gateway` (mcp-access-stack/services/mcp-gateway). It relays workspace
-- operations over a socket to `workspace-agent`, which runs them under a permission profile, and browser
-- operations to `browser-worker`, which drives a browser for tasks of many owners. Shared contracts are
-- in mcp-access-stack/packages/mcp-core. In front of the gateway mcp-access-stack/services/mcp-edge-gateway
-- chooses the connector that serves.
--
-- The files, with the code that they model (under mcp-access-stack/; tests stand in Tests.antt beside
-- the theorems that they run):
--   Core/Errors            packages/mcp-core/src/errors.ts: the error codes; results and the monad of methods
--   Core/Context           packages/mcp-core/src/contracts.ts: OperationContext
--   Core/Relay             packages/mcp-core/src/contracts.ts, relay-retry-policy.ts
--   Core/Timeout           packages/mcp-core/src/timeout-policy.ts
--   Browser/Tasks          services/browser-worker/domain/browser-task-registry.ts, with
--     Tabs, Lifecycle, Leases (its operations), Ownership, Consistency, Invariant, Resolve, Reach, Expiry
--   Browser/Confirmations  services/browser-worker/domain/confirmation-registry.ts
--   Browser/SiteGrants     services/browser-worker/domain/browser-site-grant-registry.ts
--   Browser/TabRegistry    services/browser-worker/domain/tab-registry.ts
--   Browser/Idempotency    services/browser-worker/services/browser-idempotency-registry.ts
--   Gateway/Messages       packages/mcp-core/src/contracts.ts, errors.ts and request-manager.ts: what is sent
--   Gateway/Requests       services/mcp-gateway/src/relay/request-manager.ts
--   Gateway/Connection     services/mcp-gateway/src/relay/service.ts: the connection and its waiters
--   Gateway/Service        services/mcp-gateway/src/relay/service.ts: the loop of `call`
--   Core/Text              what the code uses of JavaScript strings
--   Core/Receipts          packages/mcp-core/src/mutation-receipts.ts: receipts and their parts, with
--     Names (which names are secret), Public (what may be published), Clone (what is kept
--     of it), Parse
--   Core/ReceiptStore      packages/mcp-core/src/mutation-receipts.ts: the transitions and the store, with
--     Transitions, Refinement (the specification of one key), Replay
--   Core/SourceControl     packages/mcp-core/src/source-control-policy.ts
--   Core/Policy            packages/mcp-core/src/policy.ts, project-write-policy.ts
--   Core/PolicyMerge       packages/mcp-core/src/policy-merge.ts, with Merge, Outcome (the loops),
--     Exposure (when a workspace is exposed), Limits, Loops, Sound,
--     Access (what roots give), Offered (why a workspace is there, and with which access)
--   Agent/CommandAnalysis  services/workspace-agent/src/shell/command-analysis.ts, with Lexical (cmd and the
--     POSIX shells), Powershell, Posix, Expansion
--   Agent/PathSecurity     services/workspace-agent/src/path-security.ts, with Authorize, Targets (the class),
--     Segments, Normalize, Again, Meaning and Rules (what the tests say of the texts), Existing,
--     Permission, Authorized, Write
--   Core/TypedConfirmation packages/mcp-core/src/typed-confirmation.ts, with OneShot, Arguments, Again
--   Edge/Handover          services/mcp-edge-gateway/src/connector-handover.ts, with Order
--   Agent/ShellConcurrency services/workspace-agent/src/connection/synchronous-shell-concurrency.ts
--   Agent/Permissions      services/workspace-agent/src/permission-profile.ts
--   Prelude                lists, tests and association lists that the parts share
--
-- How code becomes definitions. A class is a record of its fields and a method a function from the
-- state to the state and a result. `M S A` is the method that may throw: what it changed before it
-- throws stays changed. A `Map` is an association list in the order of insertion. A function keeps its
-- name, in lower case with underscores: `acquireForTask` is `acquire_for_task`. An object that the code
-- changes in place is written back under its key; a clone is a value, so that a write to a clone is lost.
-- Every time is a number of milliseconds: a method takes each reading of `Date.now()` as an argument, in
-- the order in which it reads the clock. Texts from `randomUUID()` and `randomBytes` are arguments, and
-- so is the digest of an owner scope. `node:path`, `node:fs`, globs, lower case and `localeCompare` are
-- fields of a record (`Host`, `Platform`) that the definitions take. A promise is a number or the id of
-- its request; timers, aborts, answers and disconnections are steps that come in any order. Of an error
-- the code is kept, and where the code reads them its details. No definition needs fuel: every loop runs
-- over a list or a text, that of the relay service's `call` over the turns that it meets.
--
-- A text is a sequence of Unicode code points: no text holds a lone surrogate.
--
-- Not modelled: logging, message texts, sockets, processes, the file system and the browser; the schemas
-- of requests, whose verdict is an argument; the tool catalogues; the deployment scripts.
pub mod Prelude
pub mod Core
pub mod Browser
pub mod Agent
pub mod Gateway
pub mod Edge
