-- ===== src/Core/TypedConfirmation/OneShot.antt =====
-- A typed confirmation is used once, in time, and for the operation that it was made for.
use mcp_access_stack_legacy.Prelude.{
  ℕ, ◌<◌, String, Bool, true, none, some, leb, not, ◌≡◌, ◌↔◌, inl, inr, arith, eq_iff, Option-cases,
}
use mcp_access_stack_legacy.Prelude.Assoc.{get, get-delete, get-retain}
use mcp_access_stack_legacy.Core.Errors.{source_control_confirmation_invalid}
use mcp_access_stack_legacy.Core.Receipts.{returns, app_error}
use mcp_access_stack_legacy.Core.TypedConfirmation.{
  ConfirmableSourceControlOperationName, operation_eq, TypedConfirmationBinding,
  PendingTypedConfirmation, TypedConfirmationRegistry, is_valid_binding, same_binding,
  prune_expired, consume,
}

operation_eq_iff :
    (a b : ConfirmableSourceControlOperationName) → (operation_eq a b ≡ true) ↔ (a ≡ b)
operation_eq_iff a b = ground arith

same_binding_iff : (a b : TypedConfirmationBinding) → (same_binding a b ≡ true) ↔ (a ≡ b)
unfolding same_binding
same_binding_iff a b = ground (
  arith,
  eq_iff a.workspace_id b.workspace_id,
  operation_eq_iff a.operation b.operation,
  eq_iff a.target_resource b.target_resource,
  eq_iff a.canonical_arguments_digest b.canonical_arguments_digest,
)

abbrev is_live : ℕ → PendingTypedConfirmation → Bool
is_live now p = not (leb p.expires_at_ms now)

-- The binding is well formed, and a confirmation for it is stored and expires after both readings of the
-- clock.
pub record IsValidFor (id : String) (b : TypedConfirmationBinding) (now later : ℕ)
    (r : TypedConfirmationRegistry) : Type 0 where
  pub well_formed : is_valid_binding b ≡ true
  pub confirmation : PendingTypedConfirmation
  pub stored : get id r.pending ≡ some confirmation
  pub same_operation : confirmation.binding ≡ b
  pub not_expired : now < confirmation.expires_at_ms
  pub still_valid : later < confirmation.expires_at_ms

consume-IsValidFor :
    (id : String) (b : TypedConfirmationBinding) (now later : ℕ) (r : TypedConfirmationRegistry)
    → (consume id b now later r).1 ≡ returns tt
    → IsValidFor id b now later r
unfolding consume
consume-IsValidFor id b now later r e = elim (Option-cases (get id r.pending)) [
  | inl missing ↦ absurd (ground (arith, get-retain id (is_live now) r.pending))
  | inr (p, found) ↦ record {
    well_formed = ground arith;
    confirmation = p;
    stored = found;
    same_operation =
        ground (arith, get-retain id (is_live now) r.pending, same_binding_iff p.binding b);
    not_expired = ground (arith, get-retain id (is_live now) r.pending);
    still_valid = ground (arith, get-retain id (is_live now) r.pending);
  }
]

-- A confirmation is accepted exactly where the binding is well formed, the confirmation is stored, is
-- bound to the same operation in every field, and expires after the times that `consume` reads; and an id
-- that was accepted is refused from then on, for every well-formed binding at all times.
pub consume_typed_iff :
    (id : String) (b : TypedConfirmationBinding) (now later : ℕ) (r : TypedConfirmationRegistry)
    → (((consume id b now later r).1 ≡ returns tt) ↔ IsValidFor id b now later r)
      × ((b' : TypedConfirmationBinding) (now' later' : ℕ)
          → (consume id b now later r).1 ≡ returns tt
          → is_valid_binding b' ≡ true
          → (consume id b' now' later' (consume id b now later r).0).1
            ≡ app_error source_control_confirmation_invalid)
unfolding consume
consume_typed_iff id b now later r = (
  (
    consume-IsValidFor id b now later r,
    λ v. ground (
      arith,
      v.well_formed,
      get-retain id (is_live now) r.pending,
      same_binding_iff v.confirmation.binding b,
    ),
  ),
  λ b' now' later' e formed.
      let gone : get id (consume id b now later r).0.pending ≡ none =
        ground (arith, get-delete id id (prune_expired now r).pending, eq_iff id id) in
      ground
        (arith, formed, gone, get-retain id (is_live now') (consume id b now later r).0.pending),
)
