-- ===== src/Core/ReceiptStore/Refinement.antt =====
-- The store refines a table of phases: each of its operations is one allowed transition of one key.
use mcp_access_stack_legacy.Prelude.{
  String, Option, some, str_eq, ◌≡◌, refl, ◌⊎◌, inl, inr, arith, eq_iff, Option-cases, Bool-cases,
}
use mcp_access_stack_legacy.Prelude.Assoc.{get, put, get-put}
use mcp_access_stack_legacy.Core.Errors.{ErrorCode}
use mcp_access_stack_legacy.Core.Receipts.{
  MutationReceiptIdentity, reserved, completed, Json, MutationReceipt, Attempt, returns, app_error,
  schema_error, ◌>>=◌, parse_identity, clone_receipt,
}
use mcp_access_stack_legacy.Core.Receipts.Parse.{IsStored, parse_identity-again}
use mcp_access_stack_legacy.Core.ReceiptStore.{
  in_state, parse_existing, reserve_mutation_receipt, mark_mutation_receipt_executing,
  mark_mutation_receipt_reconciliation_required, mark_mutation_receipt_completed, ReceiptStore,
  reserve, mark, mark_executing, mark_reconciliation_required, mark_completed, state_eq,
}
use mcp_access_stack_legacy.Core.ReceiptStore.{marked_as, reserved_as, reservation_of}
use mcp_access_stack_legacy.Core.ReceiptStore.Transitions.{
  Allowed, stays, reserves, IsSound, IsTransition, in_state-IsStored, mark_executing-IsTransition,
  mark_reconciliation_required-IsTransition, mark_completed-IsTransition,
}

pub Attempt-cases :
    {A : Type 0} (a : Attempt A)
    → ((x : A) × (a ≡ returns x)) ⊎ (((e : ErrorCode) × (a ≡ app_error e)) ⊎ (a ≡ schema_error))
Attempt-cases (returns x) = inl (x, refl)
Attempt-cases (app_error e) = inr (inl (e, refl))
Attempt-cases schema_error = inr (inr refl)

-- The transition of one key, and what the store says of the others.
module _ (store : ReceiptStore) (sound : IsSound store) where
  put-IsSound : (key : String) (r : MutationReceipt) → IsStored key r → IsSound (put key r store)
  put-IsSound key r s j q e = ground (arith, get-put j key r store, eq_iff key j, sound j q)

  put-Allowed :
      (key j : String) (r : MutationReceipt)
      → Allowed (get key store) (some r)
      → Allowed (get j store) (get j (put key r store))
  put-Allowed key j r a = elim (Bool-cases (str_eq key j)) [
    | inl same ↦
        let e : key ≡ j = (eq_iff key j).0 same in rw (get-put j key r store, same) (rw⁻¹ e a)
    | inr other ↦ stays (rw (get-put j key r store, other))
  ]

  -- A sound store in which every key made an allowed transition.
  abbrev pub Refines : ReceiptStore → Type 0
  Refines store' = IsSound store' × ((j : String) → Allowed (get j store) (get j store'))

  unchanged-Refines : Refines store
  unchanged-Refines = (sound, λ j. stays refl)

  marked_as-Refines :
      (key : String) (a : Attempt MutationReceipt)
      → ((r : MutationReceipt)
          → a ≡ returns r
          → Allowed (get key store) (some (clone_receipt r)) × IsStored key (clone_receipt r))
      → Refines (marked_as key store a).0
  marked_as-Refines key (returns r) h =
      let (allowed, stored) = h r refl in
      (put-IsSound key (clone_receipt r) stored, λ j. put-Allowed key j (clone_receipt r) allowed)
  marked_as-Refines key (app_error e) h = unchanged-Refines
  marked_as-Refines key schema_error h = unchanged-Refines

  pub mark-Refines :
      (f : Option MutationReceipt → MutationReceiptIdentity → Attempt MutationReceipt)
      (i : MutationReceiptIdentity)
      → IsTransition f
      → Refines (mark f i store).0
  unfolding mark
  mark-Refines f i t = elim (Attempt-cases (parse_identity i)) [
    | inl (j, e) ↦
        let again = (parse_identity-again i j e).1 in
        let o = get j.idempotency_key store in
        rw (e, mark)
          (marked_as-Refines j.idempotency_key (f o j)
            (λ r. t o j r (λ q. sound j.idempotency_key q) again))
    | inr (inl (c, e)) ↦ rw (e, mark) unchanged-Refines
    | inr (inr e) ↦ rw (e, mark) unchanged-Refines
  ]

  taken_unchanged :
      (j : MutationReceiptIdentity) (q : MutationReceipt)
      → Refines
          (reserved_as j.idempotency_key store
            (parse_existing q j >>= λ r. returns (reservation_of r))).0
  taken_unchanged j q = elim (Attempt-cases (parse_existing q j)) [
    | inl (r, e) ↦ elim (Bool-cases (state_eq r.state completed)) [
      | inl over ↦ rw (e, over) unchanged-Refines
      | inr pending ↦ rw (e, pending) unchanged-Refines
    ]
    | inr (inl (c, e)) ↦ rw e unchanged-Refines
    | inr (inr e) ↦ rw e unchanged-Refines
  ]

  reserved_as-Refines :
      (j : MutationReceiptIdentity)
      → parse_identity j ≡ returns j
      → Refines
          (reserved_as j.idempotency_key store
            (reserve_mutation_receipt (get j.idempotency_key store) j)).0
  unfolding reserve_mutation_receipt
  reserved_as-Refines j p = elim (Option-cases (get j.idempotency_key store)) [
    | inl free ↦
        rw (free, p)
          (
            put-IsSound j.idempotency_key (in_state reserved j)
                (in_state-IsStored j reserved (ground arith) p),
            λ k. put-Allowed j.idempotency_key k (in_state reserved j) (reserves j free refl),
          )
    | inr (q, taken) ↦ rw (taken, p) (taken_unchanged j q)
  ]

  pub reserve-Refines : (i : MutationReceiptIdentity) → Refines (reserve i store).0
  unfolding reserve
  reserve-Refines i = elim (Attempt-cases (parse_identity i)) [
    | inl (j, e) ↦ rw (e, reserve) (reserved_as-Refines j (parse_identity-again i j e).1)
    | inr (inl (c, e)) ↦ rw (e, reserve) unchanged-Refines
    | inr (inr e) ↦ rw (e, reserve) unchanged-Refines
  ]

-- What callers do with a store.
pub data StoreOperation : Type 0 where
  reserving marking_executing marking_reconciliation : MutationReceiptIdentity → StoreOperation
  marking_completed : MutationReceiptIdentity → Json → StoreOperation

unfoldable pub apply : StoreOperation → ReceiptStore → ReceiptStore
unfolding reserve mark_executing mark_reconciliation_required mark_completed
apply (reserving i) store = (reserve i store).0
apply (marking_executing i) store = (mark_executing i store).0
apply (marking_reconciliation i) store = (mark_reconciliation_required i store).0
apply (marking_completed i v) store = (mark_completed i v store).0

-- Every operation on a sound store keeps it sound and takes each key through one allowed transition or
-- none: a receipt is reserved, executed, perhaps marked for reconciliation, and completed, in that order,
-- always for the same identity, and completed with a public result only.
pub apply-Refines :
    (op : StoreOperation) (store : ReceiptStore) (sound : IsSound store)
    → Refines store sound (apply op store)
unfolding apply
apply-Refines (reserving i) store sound = reserve-Refines store sound i
apply-Refines (marking_executing i) store sound =
    mark-Refines store sound mark_mutation_receipt_executing i mark_executing-IsTransition
apply-Refines (marking_reconciliation i) store sound =
    mark-Refines store sound mark_mutation_receipt_reconciliation_required i
      mark_reconciliation_required-IsTransition
apply-Refines (marking_completed i v) store sound =
    mark-Refines store sound (λ o i. mark_mutation_receipt_completed o i v) i
      (mark_completed-IsTransition v)
