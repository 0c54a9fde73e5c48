-- ===== src/Core/ReceiptStore/Transitions.antt =====
-- The transitions of one receipt.
use mcp_access_stack_legacy.Prelude.{
  String, not, ◌&&◌, Option, none, some, ◌≡◌, refl, ◌≢◌, ◌⊎◌, inl, inr, arith, Bool-cases,
}
use mcp_access_stack_legacy.Prelude.Assoc.{get}
use mcp_access_stack_legacy.Core.Receipts.{
  MutationReceiptIdentity, reserved, executing, completed, reconciliation_required, Json,
  MutationReceipt, Attempt, returns, app_error, schema_error, ◌>>=◌, parse_identity,
  parse_public_result, parse_result, MutationReceiptState, assert_same_identity, clone_value,
  clone_receipt,
}
use mcp_access_stack_legacy.Core.Receipts.Public.{IsPublic}
use mcp_access_stack_legacy.Core.Receipts.Public.Clone.{parse_value_kept}
use mcp_access_stack_legacy.Core.Receipts.Parse.{
  IsStored, clone_stored, same_identity_iff, parse_receipt-IsStored, parse_public_result-again,
}
use mcp_access_stack_legacy.Core.ReceiptStore.{
  in_state, parse_existing, require_existing_receipt, mark_mutation_receipt_executing,
  mark_mutation_receipt_reconciliation_required, mark_mutation_receipt_completed, ReceiptStore,
  completed_with, completed_from, executing_from, reconciliation_from, state_eq,
}

-- What may become of the receipt of a key.
pub data Allowed (p q : Option MutationReceipt) : Type 0 where
  stays : q ≡ p → Allowed p q
  reserves : (i : MutationReceiptIdentity) → p ≡ none → q ≡ some (in_state reserved i) → Allowed p q
  executes :
      (i : MutationReceiptIdentity)
      → p ≡ some (in_state reserved i)
      → q ≡ some (in_state executing i)
      → Allowed p q
  reconciles :
      (i : MutationReceiptIdentity)
      → p ≡ some (in_state executing i)
      → q ≡ some (in_state reconciliation_required i)
      → Allowed p q
  completes :
      (i : MutationReceiptIdentity) (v : Json)
      → IsPublic v
      → (p ≡ some (in_state executing i)) ⊎ (p ≡ some (in_state reconciliation_required i))
      → q ≡ some (record { identity = i; state = completed; result = some v })
      → Allowed p q

abbrev pub IsSound : ReceiptStore → Type 0
IsSound store = (key : String) (r : MutationReceipt) → get key store ≡ some r → IsStored key r

parse_existing-eq :
    (key : String) (e r : MutationReceipt) (i : MutationReceiptIdentity)
    → IsStored key e
    → parse_existing e i ≡ returns r
    → (r ≡ e) × (e.identity ≡ i)
unfolding parse_existing assert_same_identity
parse_existing-eq key e r i s h =
    ground (arith, parse_receipt-IsStored key e s, same_identity_iff e.identity i)

pub parse_existing-same :
    (key : String) (e : MutationReceipt) (i : MutationReceiptIdentity)
    → IsStored key e
    → e.identity ≡ i
    → parse_existing e i ≡ returns e
unfolding parse_existing assert_same_identity
parse_existing-same key e i s n =
    ground (arith, parse_receipt-IsStored key e s, same_identity_iff e.identity i)

require_existing_receipt-eq :
    (key : String) (o : Option MutationReceipt) (r : MutationReceipt) (i : MutationReceiptIdentity)
    → ((e : MutationReceipt) → o ≡ some e → IsStored key e)
    → parse_identity i ≡ returns i
    → require_existing_receipt o i ≡ returns r
    → (o ≡ some r) × (r.identity ≡ i)
unfolding require_existing_receipt
require_existing_receipt-eq key none r i s p h = absurd (ground arith)
require_existing_receipt-eq key (some e) r i s p h =
    ground (arith, parse_existing-eq key e r i (s e refl))

-- A stored receipt that is not completed has no result.
stored_in_state :
    (key : String) (q : MutationReceipt)
    → IsStored key q
    → (q.state ≢ completed)
    → q ≡ in_state q.state q.identity
unfolding parse_result
stored_in_state key q s n = ground arith

>>=-eq-returns :
    {A B : Type 0} (m : Attempt A) (f : A → Attempt B) (y : B)
    → (m >>= f) ≡ returns y
    → (x : A) × (m ≡ returns x) × (f x ≡ returns y)
>>=-eq-returns (returns x) f y h = (x, refl, h)
>>=-eq-returns (app_error e) f y h = cc
>>=-eq-returns schema_error f y h = cc

-- A transition of one receipt: the clone of what it makes of a sound optional receipt is allowed and
-- sound.
abbrev pub IsTransition :
    (Option MutationReceipt → MutationReceiptIdentity → Attempt MutationReceipt) → Type 0
IsTransition f =
    (o : Option MutationReceipt) (i : MutationReceiptIdentity) (r : MutationReceipt)
    → ((e : MutationReceipt) → o ≡ some e → IsStored i.idempotency_key e)
    → parse_identity i ≡ returns i
    → f o i ≡ returns r
    → Allowed o (some (clone_receipt r)) × IsStored i.idempotency_key (clone_receipt r)

pub in_state-IsStored :
    (i : MutationReceiptIdentity) (state : MutationReceiptState)
    → state ≢ completed
    → parse_identity i ≡ returns i
    → IsStored i.idempotency_key (in_state state i)
unfolding parse_result
in_state-IsStored i state n p = ground arith

-- The receipt that a marking function starts from, where it returns.
marked_from :
    (o : Option MutationReceipt) (i : MutationReceiptIdentity) (r : MutationReceipt)
    (g : MutationReceipt → Attempt MutationReceipt)
    → ((e : MutationReceipt) → o ≡ some e → IsStored i.idempotency_key e)
    → parse_identity i ≡ returns i
    → (require_existing_receipt o i >>= g) ≡ returns r
    → (q : MutationReceipt) × (o ≡ some q)
      × (q.identity ≡ i)
      × IsStored i.idempotency_key q
      × (g q ≡ returns r)
marked_from o i r g s p h =
    let (q, e, made) = >>=-eq-returns (require_existing_receipt o i) g r h in
    let found = require_existing_receipt-eq i.idempotency_key o q i s p e in
    (q, found.0, found.1, s q found.0, made)

pub mark_executing-IsTransition : IsTransition mark_mutation_receipt_executing
unfolding mark_mutation_receipt_executing
mark_executing-IsTransition o i r s p h =
    let (q, found, named, stored, made) = marked_from o i r executing_from s p h in
    let shape = stored_in_state i.idempotency_key q stored in
    let new = in_state-IsStored i executing (ground arith) p in
    (executes i (ground (arith, shape)) (ground (arith, shape)), ground (arith, new))

pub mark_reconciliation_required-IsTransition :
    IsTransition mark_mutation_receipt_reconciliation_required
unfolding mark_mutation_receipt_reconciliation_required
mark_reconciliation_required-IsTransition o i r s p h =
    let (q, found, named, stored, made) = marked_from o i r reconciliation_from s p h in
    let shape = stored_in_state i.idempotency_key q stored in
    let new = in_state-IsStored i reconciliation_required (ground arith) p in
    elim (Bool-cases (state_eq q.state reconciliation_required)) [
      | inl again ↦
          (let clone = clone_stored i.idempotency_key q stored in
            (stays (ground (arith, clone)), ground (arith, clone)))
      | inr first ↦
          (reconciles i (ground (arith, shape)) (ground (arith, shape)), ground (arith, new))
    ]

parse_public_result-IsPublic :
    (v w : Json) → parse_public_result v ≡ returns w → IsPublic (clone_value w)
unfolding parse_public_result
parse_public_result-IsPublic v w e = (parse_value_kept v w (ground arith)).0

completed_from-eq :
    (v : Json) (q r : MutationReceipt)
    → completed_from v q ≡ returns r
    → (w : Json) × (parse_public_result v ≡ returns w)
      × (r ≡ completed_with q w)
      × ((q.state ≡ executing) ⊎ (q.state ≡ reconciliation_required))
completed_from-eq v q r e =
    elim (Bool-cases
      (not (state_eq q.state executing) && not (state_eq q.state reconciliation_required))) [
        | inl other ↦ absurd (ground arith)
        | inr fits ↦
            (let (w, parsed, made) =
                >>=-eq-returns (parse_public_result v) (λ w. returns (completed_with q w)) r
                  (ground (arith, e, fits)) in
              (
                w,
                parsed,
                ground arith,
                elim (Bool-cases (state_eq q.state executing)) [
                  | inl here ↦ inl (ground arith)
                  | inr there ↦ inr (ground arith)
                ],
              ))
      ]

pub mark_completed-IsTransition :
    (v : Json) → IsTransition (λ o i. mark_mutation_receipt_completed o i v)
unfolding mark_mutation_receipt_completed
mark_completed-IsTransition v o i r s p h =
    let (q, found, named, stored, made) = marked_from o i r (completed_from v) s p h in
    let (w, parsed, shape, before) = completed_from-eq v q r made in
    let old = stored_in_state i.idempotency_key q stored in
    let again = parse_public_result-again v w parsed in
    (
      completes i (clone_value w) (parse_public_result-IsPublic v w parsed)
          (elim before [
            | inl run ↦ inl (ground (arith, old))
            | inr late ↦ inr (ground (arith, old))
          ])
          (ground arith),
      ground (arith, again, p),
    )

-- A receipt that was completed keeps its identity.
pub mark_completed_shape :
    (o : Option MutationReceipt) (i : MutationReceiptIdentity) (v : Json) (r : MutationReceipt)
    → ((e : MutationReceipt) → o ≡ some e → IsStored i.idempotency_key e)
    → parse_identity i ≡ returns i
    → mark_mutation_receipt_completed o i v ≡ returns r
    → (r.state ≡ completed) × (r.identity ≡ i)
unfolding mark_mutation_receipt_completed
mark_completed_shape o i v r s p h =
    let (q, found, named, stored, made) = marked_from o i r (completed_from v) s p h in
    let (w, parsed, shape, before) = completed_from-eq v q r made in (ground arith, ground arith)
