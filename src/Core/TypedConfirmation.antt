-- ===== src/Core/TypedConfirmation.antt =====
-- packages/mcp-core/src/typed-confirmation.ts: one-shot confirmations of source-control operations, and
-- what their arguments are before they are digested. A TypeError and a RangeError are `schema_error`.
-- An operation has its declared type, so that its schema accepts it. `consume` reads the clock twice.
pub mod OneShot
pub mod Arguments
mod Tests
use mcp_access_stack_legacy.Prelude.{
  ℕ, ◌+◌, ◌*◌, String, Bool, true, false, not, ◌&&◌, ◌||◌, List, [], ◌∷◌, Option, none, some,
  if◌then◌else◌, str_eq, leb, ◌or_else◌,
}
use mcp_access_stack_legacy.Prelude.Assoc.{Assoc, get, put, delete, retain}
use mcp_access_stack_legacy.Core.Text.{trim, normalized_key, codes, codes_eq, contains, ends_with}
use mcp_access_stack_legacy.Core.Errors.{source_control_confirmation_invalid}
use mcp_access_stack_legacy.Core.Receipts.{
  Attempt, returns, app_error, schema_error, is_digest, Json, null, boolean, number, non_finite,
  text, array, object, foreign, unsupported, Items, nil, item, Fields, end, field, assign, and_item,
  and_field, as_array, as_object, sets_prototype,
}

abbrev pub max_typed_confirmation_ttl_ms : ℕ
max_typed_confirmation_ttl_ms = 10 * 60 * 1000

pub data ConfirmableSourceControlOperationName : Type 0 where
  git_push_branch github_create_repository : ConfirmableSourceControlOperationName
  github_create_pull_request github_merge_pull_request : ConfirmableSourceControlOperationName

abbrev pub operation_eq :
    ConfirmableSourceControlOperationName → ConfirmableSourceControlOperationName → Bool
operation_eq git_push_branch git_push_branch = true
operation_eq github_create_repository github_create_repository = true
operation_eq github_create_pull_request github_create_pull_request = true
operation_eq github_merge_pull_request github_merge_pull_request = true
operation_eq _ _ = false

pub record TypedConfirmationBinding : Type 0 where
  pub workspace_id : String
  pub operation : ConfirmableSourceControlOperationName
  pub target_resource : String
  pub canonical_arguments_digest : String

pub record PendingTypedConfirmation : Type 0 where
  pub binding : TypedConfirmationBinding
  pub expires_at_ms : ℕ

pub record TypedConfirmationRegistry : Type 0 where
  pub pending : Assoc PendingTypedConfirmation
  pub ttl_ms : ℕ

pub construct : Option ℕ → Attempt TypedConfirmationRegistry
construct option =
    let ttl_ms = option or_else max_typed_confirmation_ttl_ms in
    if leb ttl_ms 0 || not (leb ttl_ms max_typed_confirmation_ttl_ms)
    then schema_error
    else returns (record { pending = []; ttl_ms = ttl_ms })

-- Whether `parseBinding` returns; it changes nothing.
pub is_valid_binding : TypedConfirmationBinding → Bool
unfolding trim is_digest
is_valid_binding binding =
    not (str_eq (trim binding.workspace_id) "")
    && (not (str_eq (trim binding.target_resource) "")
        && is_digest binding.canonical_arguments_digest)

-- Equal bytes of the UTF-8 encodings: equal texts, where no text holds a lone surrogate.
abbrev pub safe_equal : String → String → Bool
safe_equal left right = str_eq left right

pub same_binding : TypedConfirmationBinding → TypedConfirmationBinding → Bool
same_binding left right =
    safe_equal left.workspace_id right.workspace_id
    && (operation_eq left.operation right.operation
        && (safe_equal left.target_resource right.target_resource
            && safe_equal left.canonical_arguments_digest right.canonical_arguments_digest))

pub prune_expired : ℕ → TypedConfirmationRegistry → TypedConfirmationRegistry
unfolding retain
prune_expired now r = record r { pending = retain (λ p. not (leb p.expires_at_ms now)) r.pending }

-- `confirmation_id` is the text made of `randomBytes(18)`.
pub create :
    TypedConfirmationBinding
    → String
    → ℕ
    → ℕ
    → TypedConfirmationRegistry
    → TypedConfirmationRegistry × Attempt ℕ
unfolding prune_expired is_valid_binding
create binding confirmation_id now later r =
    let r' = prune_expired now r in
    let expires_at_ms = later + r.ttl_ms in
    if not (is_valid_binding binding) then (r, schema_error) else (
      record r' {
        pending =
            put confirmation_id (record { binding = binding; expires_at_ms = expires_at_ms })
              r'.pending;
      },
      returns expires_at_ms,
    )

-- What `consume` does after the pruning, at the second reading of the clock.
abbrev pub consume_pruned :
    String
    → TypedConfirmationBinding
    → ℕ
    → TypedConfirmationRegistry
    → TypedConfirmationRegistry × Attempt (Unit {0})
consume_pruned confirmation_id binding later r =
    let removed = record r { pending = delete confirmation_id r.pending } in
    elim (get confirmation_id r.pending) [
      | none ↦ (removed, app_error source_control_confirmation_invalid)
      | some p ↦
          if leb p.expires_at_ms later
          then (removed, app_error source_control_confirmation_invalid)
          else if not (same_binding p.binding binding)
          then (r, app_error source_control_confirmation_invalid)
          else (removed, returns tt)
    ]

pub consume :
    String
    → TypedConfirmationBinding
    → ℕ
    → ℕ
    → TypedConfirmationRegistry
    → TypedConfirmationRegistry × Attempt (Unit {0})
unfolding prune_expired is_valid_binding same_binding
consume confirmation_id binding now later r =
    if not (is_valid_binding binding)
    then (r, schema_error)
    else consume_pruned confirmation_id binding later (prune_expired now r)

abbrev pub is_confirmation_id : String → Bool
is_confirmation_id key = codes_eq (normalized_key key) (codes "confirmationid")

unfoldable pub is_sensitive_field_key : String → Bool
unfolding normalized_key
is_sensitive_field_key key =
    let normalized = normalized_key key in
    contains normalized (codes "authorization")
    || codes_eq normalized (codes "token")
    || ends_with normalized (codes "token")
    || contains normalized (codes "credential")
    || contains normalized (codes "password")
    || contains normalized (codes "secret")
    || ends_with normalized (codes "apikey")
    || contains normalized (codes "privatekey")

-- `removeEphemeralAndRejectSensitive`; `none` is a TypeError.
mutual
  unfolding is_sensitive_field_key normalized_key sets_prototype

  pub remove_ephemeral : Json → Option Json
  remove_ephemeral null = some null
  remove_ephemeral (boolean b) = some (boolean b)
  remove_ephemeral (text s) = some (text s)
  remove_ephemeral (number n) = some (number n)
  remove_ephemeral non_finite = some non_finite
  remove_ephemeral unsupported = some unsupported
  remove_ephemeral (foreign fs) = none
  remove_ephemeral (array xs) = as_array (remove_from_items xs)
  remove_ephemeral (object fs) = as_object (sets_prototype fs) (remove_from_fields fs)

  pub remove_from_items : Items → Option Items
  remove_from_items nil = some nil
  remove_from_items (item v xs) = and_item (remove_ephemeral v) (remove_from_items xs)

  pub remove_from_fields : Fields → Option Fields
  remove_from_fields end = some end
  remove_from_fields (field key v fs) =
      let rest = remove_from_fields fs in
      let kept = and_field key (remove_ephemeral v) rest in
      if is_confirmation_id key then rest else if is_sensitive_field_key key then none else kept
