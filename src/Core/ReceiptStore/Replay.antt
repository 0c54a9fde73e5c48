-- ===== src/Core/ReceiptStore/Replay.antt =====
-- A mutation runs once, and a completed one is replayed.
use mcp_access_stack_legacy.Prelude.{
  String, List, [], ◌∷◌, Option, none, some, ◌≡◌, refl, ◌≢◌, inl, inr, arith, eq_iff, Option-cases,
}
use mcp_access_stack_legacy.Prelude.Assoc.{get, put, get-put}
use mcp_access_stack_legacy.Core.Text.{trim}
use mcp_access_stack_legacy.Core.Receipts.{
  MutationReceiptIdentity, reserved, executing, completed, reconciliation_required, Json,
  MutationReceipt, MutationReceiptReservation, execute, replay_completed, Attempt, returns,
  app_error, schema_error, ◌>>=◌, parse_identity, clone_receipt,
}
use mcp_access_stack_legacy.Core.Receipts.Parse.{IsStored, clone_stored, parse_identity-again}
use mcp_access_stack_legacy.Core.ReceiptStore.{
  in_state, parse_existing, reserve_mutation_receipt, ReceiptStore, reserve, mark, marked_as,
  mark_completed, mark_mutation_receipt_completed, reservation_of, reserved_as,
}
use mcp_access_stack_legacy.Core.ReceiptStore.Transitions.{
  Allowed, stays, reserves, executes, reconciles, completes, IsSound, mark_completed_shape,
  mark_completed-IsTransition, parse_existing-same,
}
use mcp_access_stack_legacy.Core.ReceiptStore.Refinement.{
  Attempt-cases, reserve-Refines, mark-Refines, StoreOperation, apply, apply-Refines,
}

pub apply_all : List StoreOperation → ReceiptStore → ReceiptStore
unfolding apply
apply_all [] store = store
apply_all (op ∷ ops) store = apply_all ops (apply op store)

Allowed-taken :
    (p q : Option MutationReceipt) (r : MutationReceipt)
    → Allowed p q
    → p ≡ some r
    → (r' : MutationReceipt) × (q ≡ some r') × (r'.identity ≡ r.identity)
Allowed-taken p q r (stays e) t = (r, ground arith, refl)
Allowed-taken p q r (reserves i e f) t = absurd (ground arith)
Allowed-taken p q r (executes i e f) t = (in_state executing i, f, ground arith)
Allowed-taken p q r (reconciles i e f) t = (in_state reconciliation_required i, f, ground arith)
Allowed-taken p q r (completes i v w (inl e) f) t = (_, f, ground arith)
Allowed-taken p q r (completes i v w (inr e) f) t = (_, f, ground arith)

Allowed-completed :
    (p q : Option MutationReceipt) (r : MutationReceipt)
    → Allowed p q
    → p ≡ some r
    → r.state ≡ completed
    → q ≡ some r
Allowed-completed p q r (stays e) t c = ground arith
Allowed-completed p q r (reserves i e f) t c = absurd (ground arith)
Allowed-completed p q r (executes i e f) t c = absurd (ground arith)
Allowed-completed p q r (reconciles i e f) t c = absurd (ground arith)
Allowed-completed p q r (completes i v w (inl e) f) t c = absurd (ground arith)
Allowed-completed p q r (completes i v w (inr e) f) t c = absurd (ground arith)

apply_all-IsSound :
    (ops : List StoreOperation) (store : ReceiptStore)
    → IsSound store
    → IsSound (apply_all ops store)
unfolding apply_all
apply_all-IsSound [] store sound = sound
apply_all-IsSound (op ∷ ops) store sound =
    apply_all-IsSound ops (apply op store) (apply-Refines op store sound).0

-- A key that has a receipt keeps one, for the same identity.
apply_all_taken :
    (ops : List StoreOperation) (store : ReceiptStore) (key : String) (r : MutationReceipt)
    → IsSound store
    → get key store ≡ some r
    → (r' : MutationReceipt) × (get key (apply_all ops store) ≡ some r')
      × (r'.identity ≡ r.identity)
unfolding apply_all
apply_all_taken [] store key r sound t = (r, t, refl)
apply_all_taken (op ∷ ops) store key r sound t =
    let (sound', allowed) = apply-Refines op store sound in
    let (r1, found, same) =
      Allowed-taken (get key store) (get key (apply op store)) r (allowed key) t in
    let (r2, last, same') = apply_all_taken ops (apply op store) key r1 sound' found in
    (r2, last, ground (arith, same, same'))

apply_all_completed :
    (ops : List StoreOperation) (store : ReceiptStore) (key : String) (r : MutationReceipt)
    → IsSound store
    → get key store ≡ some r
    → r.state ≡ completed
    → get key (apply_all ops store) ≡ some r
unfolding apply_all
apply_all_completed [] store key r sound t c = t
apply_all_completed (op ∷ ops) store key r sound t c =
    let (sound', allowed) = apply-Refines op store sound in
    apply_all_completed ops (apply op store) key r sound'
      (Allowed-completed (get key store) (get key (apply op store)) r (allowed key) t c) c

abbrev reserves_again :
    MutationReceiptIdentity → MutationReceipt → Attempt MutationReceiptReservation
reserves_again j q = parse_existing q j >>= λ r. returns (reservation_of r)

reserve_of_taken :
    (i j : MutationReceiptIdentity) (store : ReceiptStore) (q : MutationReceipt)
    → parse_identity i ≡ returns j
    → get j.idempotency_key store ≡ some q
    → reserve i store ≡ reserved_as j.idempotency_key store (reserves_again j q)
unfolding reserve reserve_mutation_receipt
reserve_of_taken i j store q p t =
    rw (p, reserve) (rw (t, reserve_mutation_receipt) (rw ((parse_identity-again i j p).1)))

reserves_again-ne-execute :
    (key : String) (store : ReceiptStore) (a : Attempt MutationReceipt) (r : MutationReceipt)
    → (reserved_as key store (a >>= λ r. returns (reservation_of r))).1 ≢ returns (execute r)
reserves_again-ne-execute key store (returns q) r e = ground arith
reserves_again-ne-execute key store (app_error c) r e = ground arith
reserves_again-ne-execute key store schema_error r e = ground arith

refused_reserve :
    (i : MutationReceiptIdentity) (store : ReceiptStore) (r : MutationReceipt)
    → (reserve i store).1 ≡ returns (execute r)
    → (j : MutationReceiptIdentity) × (parse_identity i ≡ returns j)
unfolding reserve
refused_reserve i store r e = elim (Attempt-cases (parse_identity i)) [
  | inl (j, p) ↦ (j, p)
  | inr (inl (c, p)) ↦ absurd (ground (arith, e, p))
  | inr (inr p) ↦ absurd (ground (arith, e, p))
]

-- A reservation of a key that has a receipt is not to be executed.
reserve_taken :
    (i : MutationReceiptIdentity) (store : ReceiptStore) (q r : MutationReceipt)
    → get (trim i.idempotency_key) store ≡ some q
    → (reserve i store).1 ≢ returns (execute r)
reserve_taken i store q r t e =
    let (j, p) = refused_reserve i store r e in
    let own = (parse_identity-again i j p).0 in
    let found : get j.idempotency_key store ≡ some q = rw own t in
    reserves_again-ne-execute j.idempotency_key store (parse_existing q j) r
      (rw⁻¹ (reserve_of_taken i j store q p found) e)

reserve_of_free :
    (i j : MutationReceiptIdentity) (store : ReceiptStore)
    → parse_identity i ≡ returns j
    → get j.idempotency_key store ≡ none
    → reserve i store
      ≡ (put j.idempotency_key (in_state reserved j) store, returns (execute (in_state reserved j)))
unfolding reserve reserve_mutation_receipt
reserve_of_free i j store p t =
    rw (p, reserve) (rw (t, reserve_mutation_receipt) (rw ((parse_identity-again i j p).1)))

-- What a reservation to be executed stores.
reserve_stored :
    (i : MutationReceiptIdentity) (store : ReceiptStore) (r : MutationReceipt)
    → (reserve i store).1 ≡ returns (execute r)
    → get (trim i.idempotency_key) (reserve i store).0 ≡ some r
reserve_stored i store r e =
    let (j, p) = refused_reserve i store r e in
    let own = (parse_identity-again i j p).0 in
    elim (Option-cases (get j.idempotency_key store)) [
      | inr (q, t) ↦ absurd (reserve_taken i store q r (rw⁻¹ own t) e)
      | inl t ↦
          (let made = reserve_of_free i j store p t in
            ground (
              arith,
              made,
              own,
              e,
              eq_iff j.idempotency_key j.idempotency_key,
              get-put j.idempotency_key j.idempotency_key (in_state reserved j) store,
            ))
    ]

-- After a reservation that is to be executed, no reservation of the same idempotency key, white space
-- around it aside, is ever to be executed again, whatever operations come in between.
pub reserve_once :
    (i i' : MutationReceiptIdentity) (ops : List StoreOperation) (store : ReceiptStore)
    (r r' : MutationReceipt)
    → IsSound store
    → (reserve i store).1 ≡ returns (execute r)
    → trim i'.idempotency_key ≡ trim i.idempotency_key
    → (reserve i' (apply_all ops (reserve i store).0)).1 ≢ returns (execute r')
reserve_once i i' ops store r r' sound first same =
    let (q, kept, named) =
      apply_all_taken ops (reserve i store).0 (trim i.idempotency_key) r
        (reserve-Refines store sound i).0 (reserve_stored i store r first) in
    reserve_taken i' (apply_all ops (reserve i store).0) q r' (rw same kept)

marked_as_stored :
    (key : String) (store : ReceiptStore) (a : Attempt MutationReceipt) (r : MutationReceipt)
    → (marked_as key store a).1 ≡ returns r
    → (q : MutationReceipt) × (a ≡ returns q)
      × (clone_receipt q ≡ r)
      × (get key (marked_as key store a).0 ≡ some r)
marked_as_stored key store (returns q) r e =
    (q, refl, ground arith, ground (arith, eq_iff key key, get-put key key (clone_receipt q) store))
marked_as_stored key store (app_error c) r e = absurd (ground arith)
marked_as_stored key store schema_error r e = absurd (ground arith)

mark_stored :
    (f : Option MutationReceipt → MutationReceiptIdentity → Attempt MutationReceipt)
    (i : MutationReceiptIdentity) (store : ReceiptStore) (r : MutationReceipt)
    → (mark f i store).1 ≡ returns r
    → (j : MutationReceiptIdentity) × (q : MutationReceipt) × (parse_identity i ≡ returns j)
      × (f (get j.idempotency_key store) j ≡ returns q)
      × (clone_receipt q ≡ r)
      × (get j.idempotency_key (mark f i store).0 ≡ some r)
unfolding mark
mark_stored f i store r e = elim (Attempt-cases (parse_identity i)) [
  | inr (inl (c, p)) ↦ absurd (ground (arith, e, p))
  | inr (inr p) ↦ absurd (ground (arith, e, p))
  | inl (j, p) ↦
      (let s =
          marked_as_stored j.idempotency_key store (f (get j.idempotency_key store) j) r
            (rw (p, mark) at e) in
        (j, s.0, p, s.1, s.2, rw (p, mark) s.3))
]

-- A reservation whose receipt is completed replays it.
reserve_completed :
    (i j : MutationReceiptIdentity) (store : ReceiptStore) (r : MutationReceipt)
    → parse_identity i ≡ returns j
    → get j.idempotency_key store ≡ some r
    → IsStored j.idempotency_key r
    → r.state ≡ completed
    → r.identity ≡ j
    → (reserve i store).1 ≡ returns (replay_completed r)
reserve_completed i j store r p t s c n =
    let parsed : parse_existing r j ≡ returns r = parse_existing-same j.idempotency_key r j s n in
    let clone = clone_stored j.idempotency_key r s in
    rw (reserve_of_taken i j store r p t) (rw parsed (ground (arith, clone)))

-- After `markCompleted` returned a receipt, every reservation for the same identity replays that
-- receipt, with its result, whatever operations come in between.
pub mark_completed-reserve :
    (i : MutationReceiptIdentity) (v : Json) (ops : List StoreOperation) (store : ReceiptStore)
    (r : MutationReceipt)
    → IsSound store
    → (mark_completed i v store).1 ≡ returns r
    → (reserve i (apply_all ops (mark_completed i v store).0)).1 ≡ returns (replay_completed r)
unfolding mark_completed
mark_completed-reserve i v ops store r sound e =
    let f : Option MutationReceipt → MutationReceiptIdentity → Attempt MutationReceipt =
      λ o k. mark_mutation_receipt_completed o k v in
    let (j, q, p, made, clone, stored) = mark_stored f i store r e in
    let again = (parse_identity-again i j p).1 in
    let shape =
      mark_completed_shape (get j.idempotency_key store) j v q (λ q. sound j.idempotency_key q)
        again made in
    let over : r.state ≡ completed = ground arith in
    let named : r.identity ≡ j = ground arith in
    let sound' = (mark-Refines store sound f i (mark_completed-IsTransition v)).0 in
    let kept = apply_all_completed ops (mark f i store).0 j.idempotency_key r sound' stored over in
    reserve_completed i j (apply_all ops (mark f i store).0) r p kept
      (sound' j.idempotency_key r stored) over named
