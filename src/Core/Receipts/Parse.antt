-- ===== src/Core/Receipts/Parse.antt =====
-- A receipt that was parsed is parsed again to itself.
use mcp_access_stack_legacy.Prelude.{
  String, Option, none, true, some, refl, ap, ◌≡◌, ◌↔◌, arith, eq_iff,
}
use mcp_access_stack_legacy.Core.Text.{trim, trim-trim}
use mcp_access_stack_legacy.Core.Receipts.{
  SourceControlOperationName, operation_eq, MutationReceiptIdentity, MutationReceipt, completed,
  reserved, executing, reconciliation_required, MutationReceiptState, clone_value, clone_result,
  clone_receipt, Json, returns, parse_identity, parse_public_result, parse_result, parse_receipt,
  same_identity,
}
use mcp_access_stack_legacy.Core.Receipts.Public.Clone.{parse_value_kept, clone_accepted}

-- A parsed identity has a trimmed key, and is parsed to itself.
pub parse_identity-again :
    (i j : MutationReceiptIdentity)
    → parse_identity i ≡ returns j
    → (j.idempotency_key ≡ trim i.idempotency_key) × (parse_identity j ≡ returns j)
unfolding parse_identity
parse_identity-again i j e = (
  ground arith,
  ground
      (arith, trim-trim i.workspace_id, trim-trim i.target_resource, trim-trim i.idempotency_key),
)

operation_eq_iff : (a b : SourceControlOperationName) → (operation_eq a b ≡ true) ↔ (a ≡ b)
operation_eq_iff a b = ground arith

pub same_identity_iff : (i j : MutationReceiptIdentity) → (same_identity i j ≡ true) ↔ (i ≡ j)
unfolding same_identity
same_identity_iff i j = ground (
  arith,
  eq_iff i.workspace_id j.workspace_id,
  operation_eq_iff i.operation j.operation,
  eq_iff i.target_resource j.target_resource,
  eq_iff i.canonical_arguments_digest j.canonical_arguments_digest,
  eq_iff i.idempotency_key j.idempotency_key,
)

-- A receipt that `parseMutationReceipt` accepts unchanged, under its own key.
pub record IsStored (key : String) (r : MutationReceipt) : Type 0 where
  pub own_key : r.identity.idempotency_key ≡ key
  pub identity_parsed : parse_identity r.identity ≡ returns r.identity
  pub result_parsed : parse_result r.state r.result ≡ returns r.result

pub parse_receipt-IsStored :
    (key : String) (r : MutationReceipt) → IsStored key r → parse_receipt r ≡ returns r
unfolding parse_receipt
parse_receipt-IsStored key r s = ground arith

pub parse_public_result-again :
    (v w : Json)
    → parse_public_result v ≡ returns w
    → parse_result completed (some (clone_value w)) ≡ returns (some (clone_value w))
unfolding parse_public_result parse_result
parse_public_result-again v w e = ground (arith, parse_value_kept v w)

clone_result_parsed :
    (state : MutationReceiptState) (o : Option Json)
    → parse_result state o ≡ returns o
    → clone_result o ≡ o
unfolding parse_result parse_public_result
clone_result_parsed state none e = refl
clone_result_parsed completed (some v) e = ap some (clone_accepted v (ground arith))
clone_result_parsed reserved (some v) e = absurd (ground arith)
clone_result_parsed executing (some v) e = absurd (ground arith)
clone_result_parsed reconciliation_required (some v) e = absurd (ground arith)

-- A stored receipt is its own clone.
pub clone_stored : (key : String) (r : MutationReceipt) → IsStored key r → clone_receipt r ≡ r
clone_stored key r s =
    ap (λ (result : Option Json). record r { result = result })
      (clone_result_parsed r.state r.result s.result_parsed)
