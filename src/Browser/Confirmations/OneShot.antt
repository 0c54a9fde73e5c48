-- ===== src/Browser/Confirmations/OneShot.antt =====
-- A confirmation is used once, in time, and for the action that it was made for.
use mcp_access_stack_legacy.Prelude.{
  ℕ, ◌+◌, ◌<◌, ◌≤◌, String, Bool, true, List, none, some, if◌then◌else◌, leb, not, includes, ◌≡◌,
  refl, ◌≢◌, ◌↔◌, inl, inr, arith, eq_iff, Option-cases, Bool-cases, leb→le,
}
use mcp_access_stack_legacy.Prelude.Assoc.{get, get-put, get-delete, get-retain}
use mcp_access_stack_legacy.Core.Errors.{browser_confirmation_invalid, ok, throw}
use mcp_access_stack_legacy.Browser.Confirmations.{
  BrowserConfirmationBinding, BrowserConfirmationCategory, PendingConfirmation,
  BrowserConfirmationRegistry, category_eq, same_binding, prune_expired, create, discard_tabs,
  consume,
}

category_eq_iff : (a b : BrowserConfirmationCategory) → (category_eq a b ≡ true) ↔ (a ≡ b)
category_eq_iff a b = ground arith

same_binding_iff : (a b : BrowserConfirmationBinding) → (same_binding a b ≡ true) ↔ (a ≡ b)
unfolding same_binding
same_binding_iff a b = ground (
  arith,
  eq_iff a.tab_id b.tab_id,
  eq_iff a.origin b.origin,
  eq_iff a.url b.url,
  category_eq_iff a.category b.category,
  eq_iff a.action b.action,
  eq_iff a.target b.target,
)

abbrev is_live : ℕ → PendingConfirmation → Bool
is_live now p = not (leb p.expires_at_ms now)

-- The confirmation is stored, for this action, and expires after both readings of the clock.
pub record IsValidFor (id : String) (b : BrowserConfirmationBinding) (now later : ℕ)
    (r : BrowserConfirmationRegistry) : Type 0 where
  pub confirmation : PendingConfirmation
  pub stored : get id r.pending ≡ some confirmation
  pub same_action : confirmation.binding ≡ b
  pub not_expired : now < confirmation.expires_at_ms
  pub still_valid : later < confirmation.expires_at_ms

-- `consume` succeeds exactly when the confirmation is stored, is bound to the same action in every
-- field, and expires after the times that `consume` reads.
pub consume_iff :
    (id : String) (b : BrowserConfirmationBinding) (now later : ℕ) (r : BrowserConfirmationRegistry)
    → ((consume id b now later r).1 ≡ ok tt) ↔ IsValidFor id b now later r
unfolding consume
consume_iff id b now later r = (
  (λ e. elim (Option-cases (get id r.pending)) [
    | inl missing ↦ absurd (ground (arith, get-retain id (is_live now) r.pending))
    | inr (p, found) ↦ record {
      confirmation = p;
      stored = found;
      same_action =
          ground (arith, get-retain id (is_live now) r.pending, same_binding_iff p.binding b);
      not_expired = ground (arith, get-retain id (is_live now) r.pending);
      still_valid = ground (arith, get-retain id (is_live now) r.pending);
    }
  ]),
  λ v.
      ground
        (arith, get-retain id (is_live now) r.pending, same_binding_iff v.confirmation.binding b),
)

-- After a successful `consume` the same id is refused for every action at all times.
pub consume_once :
    (id : String) (b b' : BrowserConfirmationBinding) (now later now' later' : ℕ)
    (r : BrowserConfirmationRegistry)
    → (consume id b now later r).1 ≡ ok tt
    → (consume id b' now' later' (consume id b now later r).0).1
      ≡ throw browser_confirmation_invalid
unfolding consume
consume_once id b b' now later now' later' r e =
    let gone : get id (consume id b now later r).0.pending ≡ none =
      ground (arith, get-delete id id (prune_expired now r).pending, eq_iff id id) in
    ground (arith, get-retain id (is_live now') (consume id b now later r).0.pending, gone)

-- `consume` for another action throws and leaves a confirmation that has not expired in place.
pub consume_other_action :
    (id : String) (b b' : BrowserConfirmationBinding) (now later : ℕ)
    (r : BrowserConfirmationRegistry)
    → IsValidFor id b now later r
    → b ≢ b'
    → ((consume id b' now later r).1 ≡ throw browser_confirmation_invalid)
      × IsValidFor id b now later (consume id b' now later r).0
unfolding consume
consume_other_action id b b' now later r v other =
    let kept = get-retain id (is_live now) r.pending in
    let differs = same_binding_iff v.confirmation.binding b' in
    (
      ground (arith, kept, differs),
      record {
        confirmation = v.confirmation;
        stored = ground (arith, kept, differs);
        same_action = v.same_action;
        not_expired = v.not_expired;
        still_valid = v.still_valid;
      },
    )

create_stored :
    (id : String) (b : BrowserConfirmationBinding) (t0 t1 : ℕ) (r : BrowserConfirmationRegistry)
    → get id (create b id t0 t1 r).0.pending
      ≡ some (record { binding = b; expires_at_ms = t1 + r.ttl_ms })
unfolding create
create_stored id b t0 t1 r = ground (
  arith,
  eq_iff id id,
  get-put id id (record { binding = b; expires_at_ms = t1 + r.ttl_ms })
      (prune_expired t0 r).pending,
)

consume_late :
    (id : String) (b : BrowserConfirmationBinding) (now later : ℕ) (r : BrowserConfirmationRegistry)
    (p : PendingConfirmation)
    → get id r.pending ≡ some p
    → p.expires_at_ms ≤ later
    → (consume id b now later r).1 ≡ throw browser_confirmation_invalid
unfolding consume
consume_late id b now later r p found late = ground (arith, get-retain id (is_live now) r.pending)

-- A new confirmation can be used for its action until its time to live is over, and from then on
-- `consume` throws.
pub create-consume :
    (id : String) (b : BrowserConfirmationBinding) (t0 t1 now later : ℕ)
    (r : BrowserConfirmationRegistry)
    → now ≤ later
    → (consume id b now later (create b id t0 t1 r).0).1
      ≡ (if leb (t1 + r.ttl_ms) later then throw browser_confirmation_invalid else ok tt)
create-consume id b t0 t1 now later r h =
    let stored = create_stored id b t0 t1 r in
    elim (Bool-cases (leb (t1 + r.ttl_ms) later)) [
      | inl late ↦
          rw late (consume_late id b now later (create b id t0 t1 r).0 _ stored (leb→le _ _ late))
      | inr in_time ↦ rw in_time (
          (consume_iff id b now later (create b id t0 t1 r).0).1 (record {
            confirmation = record { binding = b; expires_at_ms = t1 + r.ttl_ms };
            stored = stored;
            same_action = refl;
            not_expired = ground arith;
            still_valid = ground arith;
          }))
    ]

-- After `discardTabs` no confirmation of these tabs is pending, and those of other tabs stay.
pub discard_tabs_lem :
    (tabs : List String) (id : String) (r : BrowserConfirmationRegistry)
    → get id (discard_tabs tabs r).pending ≡ elim (get id r.pending) [
      | none ↦ none
      | some p ↦ if includes tabs p.binding.tab_id then none else some p
    ]
unfolding discard_tabs
discard_tabs_lem tabs id r =
    ground (arith, get-retain id (λ p. not (includes tabs p.binding.tab_id)) r.pending)
