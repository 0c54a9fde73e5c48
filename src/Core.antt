-- ===== src/Core.antt =====
-- packages/mcp-core: the contracts that the services share.
pub mod Text
pub mod Errors
pub mod Context
pub mod Timeout
pub mod Relay
pub mod Receipts
pub mod ReceiptStore
pub mod SourceControl
pub mod Policy
pub mod PolicyMerge
pub mod TypedConfirmation
