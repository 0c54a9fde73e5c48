-- ===== src/Core/Context.antt =====
-- packages/mcp-core: the context of a call.
use mcp_access_stack_legacy.Prelude.{String, Option}

pub record OperationContext : Type 0 where
  pub owner_scope : Option String
