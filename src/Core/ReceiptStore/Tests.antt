-- ===== src/Core/ReceiptStore/Tests.antt =====
-- Runs of the receipt store, and its theorems at concrete inputs.
use mcp_access_stack_legacy.Prelude.{true, false, [], ◌∷◌, some, ◌≡◌, refl, ◌≢◌, ◌↔◌, arith}
use mcp_access_stack_legacy.Prelude.Assoc.{get, put}
use mcp_access_stack_legacy.Core.Text.{utf16_length, trim}
use mcp_access_stack_legacy.Core.Receipts.{
  git_push_branch, MutationReceiptIdentity, reserved, completed, Json, text, object, field, end,
  MutationReceipt, execute, replay_completed, returns, parse_identity, parse_value,
  is_sensitive_receipt_field, parse_public_result, parse_receipt, assert_same_identity, foreign,
  clone_value, sets_prototype,
}
use mcp_access_stack_legacy.Core.Receipts.Public.{IsPublic, HasNoPrototype, without_proto}
use mcp_access_stack_legacy.Core.Receipts.Public.Clone.{parse_value_iff}
use mcp_access_stack_legacy.Core.ReceiptStore.{
  in_state, ReceiptStore, reserve, mark_executing, mark_completed,
}
use mcp_access_stack_legacy.Core.ReceiptStore.Transitions.{IsSound}
use mcp_access_stack_legacy.Core.ReceiptStore.Refinement.{
  Refines, reserving, marking_executing, apply, apply-Refines,
}
use mcp_access_stack_legacy.Core.ReceiptStore.Replay.{
  apply_all, reserve_once, mark_completed-reserve,
}

abbrev push_main : MutationReceiptIdentity
push_main = record {
  workspace_id = "ws";
  operation = git_push_branch;
  target_resource = "origin/topic";
  canonical_arguments_digest = "0123456789abcdef0123456789abcdef0123456789abcdef0123456789abcdef";
  idempotency_key = "key-1";
}

-- The same identity, before its key is trimmed.
abbrev push_padded : MutationReceiptIdentity
push_padded = record push_main { idempotency_key = " key-1 " }

abbrev empty_store : ReceiptStore
empty_store = []

abbrev running : ReceiptStore
running = (mark_executing push_main (reserve push_padded empty_store).0).0

abbrev pushed : Json
pushed = object (field "headSha" (text "abc") end)

abbrev done : MutationReceipt
done = record { identity = push_main; state = completed; result = some pushed }

sensitive_keys : is_sensitive_receipt_field "X-Api_Key" ≡ true
unfolding is_sensitive_receipt_field
sensitive_keys = refl

plain_keys : is_sensitive_receipt_field "headSha" ≡ false
unfolding is_sensitive_receipt_field
plain_keys = refl

empty_store-IsSound : IsSound empty_store
unfolding get
empty_store-IsSound key r e = absurd (ground arith)

apply-Refines_example :
    Refines empty_store empty_store-IsSound (apply (reserving push_padded) empty_store)
apply-Refines_example = apply-Refines (reserving push_padded) empty_store empty_store-IsSound

running-IsSound : IsSound running
unfolding apply
running-IsSound =
    (apply-Refines (marking_executing push_main) (reserve push_padded empty_store).0
      apply-Refines_example.0).0

first_reserve :
    (reserve push_padded empty_store).1 ≡ returns (execute (in_state reserved push_main))
unfolding reserve parse_identity trim utf16_length get
first_reserve = refl

reserve_once_example :
    (reserve push_main
      (apply_all (marking_executing push_main ∷ []) (reserve push_padded empty_store).0)).1
    ≢ returns (execute (in_state reserved push_main))
unfolding trim
reserve_once_example =
    reserve_once push_padded push_main (marking_executing push_main ∷ []) empty_store
      (in_state reserved push_main) (in_state reserved push_main) empty_store-IsSound first_reserve
      refl

completing : (mark_completed push_main pushed running).1 ≡ returns done
unfolding mark_completed mark_executing reserve parse_identity trim utf16_length get put
    parse_public_result parse_receipt assert_same_identity clone_value
completing = refl

mark_completed-reserve_example :
    (reserve push_main (
      apply_all
        (marking_executing push_main ∷ reserving push_main ∷ [])
        (mark_completed push_main pushed running).0)).1
    ≡ returns (replay_completed done)
mark_completed-reserve_example =
    mark_completed-reserve push_main pushed (marking_executing push_main ∷ reserving push_main ∷ [])
      running done running-IsSound completing

-- A result with a prototype of its own.
abbrev inheriting : Json
inheriting = object (
    field "__proto__" (object (field "headSha" (text "def") end))
      (field "headSha" (text "abc") end))

prototype_is_set :
    parse_public_result inheriting ≡ returns (foreign (field "headSha" (text "abc") end))
unfolding parse_public_result sets_prototype
prototype_is_set = refl

parse_value_iff_example :
    (((w : Json) × (parse_value inheriting ≡ some w)) ↔ IsPublic inheriting)
    × ((w : Json)
        → parse_value inheriting ≡ some w
        → (clone_value w ≡ without_proto inheriting)
          × IsPublic (clone_value w)
          × (parse_value (clone_value w) ≡ some (clone_value w))
          × (HasNoPrototype inheriting → w ≡ clone_value w))
parse_value_iff_example = parse_value_iff inheriting
