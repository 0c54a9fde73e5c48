-- ===== src/Core/Receipts.antt =====
-- packages/mcp-core/src/mutation-receipts.ts: receipts of source-control mutations, so that one with an
-- idempotency key runs once. A receipt is a value of its declared type: the fields that `parse` would
-- refuse as unknown cannot be written. `schema_error` is the exception of a schema.
pub mod Names
pub mod Public
pub mod Parse
use mcp_access_stack_legacy.Prelude.{
  ℕ, String, Bool, true, false, not, ◌&&◌, ◌||◌, List, [], ◌∷◌, Option, none, some, if◌then◌else◌,
  leb, ◌==◌, str_eq,
}
use mcp_access_stack_legacy.Prelude.Assoc.{Assoc, get, put}
use mcp_access_stack_legacy.Core.Text.{
  utf16_length, length_within, trim, in_range, normalized_key, codes, codes_eq, ends_with, contains,
}
use mcp_access_stack_legacy.Core.Errors.{
  ErrorCode, invalid_argument, execution_state_invalid, source_control_idempotency_conflict,
}

pub data SourceControlOperationName : Type 0 where
  git_create_branch git_stage_paths git_unstage_paths git_commit : SourceControlOperationName
  git_merge_branch git_push_branch github_get_repository : SourceControlOperationName
  github_create_repository github_get_pull_request : SourceControlOperationName
  github_create_pull_request github_merge_pull_request : SourceControlOperationName

abbrev pub operation_index : SourceControlOperationName → ℕ
operation_index git_create_branch = 0
operation_index git_stage_paths = 1
operation_index git_unstage_paths = 2
operation_index git_commit = 3
operation_index git_merge_branch = 4
operation_index git_push_branch = 5
operation_index github_get_repository = 6
operation_index github_create_repository = 7
operation_index github_get_pull_request = 8
operation_index github_create_pull_request = 9
operation_index github_merge_pull_request = 10

-- `===` on operations.
abbrev pub operation_eq : SourceControlOperationName → SourceControlOperationName → Bool
operation_eq a b = operation_index a == operation_index b

pub record MutationReceiptIdentity : Type 0 where
  pub workspace_id : String
  pub operation : SourceControlOperationName
  pub target_resource : String
  pub canonical_arguments_digest : String
  pub idempotency_key : String

pub data MutationReceiptState : Type 0 where
  reserved executing completed reconciliation_required : MutationReceiptState

-- A JavaScript value. A finite number is known by a code of its value, in which 0 and -0 are one;
-- `foreign` is an object whose prototype is neither that of a plain object nor null, with its own fields;
-- `unsupported` is a value that is neither a JSON value nor such an object. The fields of an object come
-- in the order of `Object.entries`.
mutual
  pub data Json : Type 0 where
    null : Json
    boolean : Bool → Json
    number : ℕ → Json
    non_finite : Json
    text : String → Json
    array : Items → Json
    object foreign : Fields → Json
    unsupported : Json

  pub data Items : Type 0 where
    nil : Items
    item : Json → Items → Items

  pub data Fields : Type 0 where
    end : Fields
    field : String → Json → Fields → Fields

pub record MutationReceipt : Type 0 where
  pub identity : MutationReceiptIdentity
  pub state : MutationReceiptState
  pub result : Option Json

pub data MutationReceiptReservation : Type 0 where
  execute replay_completed needs_reconciliation : MutationReceipt → MutationReceiptReservation

-- What a call returns or throws.
pub data Attempt {ℓ} (A : Type ℓ) : Type ℓ where
  returns : A → Attempt A
  app_error : ErrorCode → Attempt A
  schema_error : Attempt A

infixl 5 ◌>>=◌ ◌>>◌
abbrev pub ◌>>=◌ : {A B : Type 0} → Attempt A → (A → Attempt B) → Attempt B
returns a >>= f = f a
app_error e >>= f = app_error e
schema_error >>= f = schema_error

abbrev pub ◌>>◌ : {B : Type 0} → Attempt (Unit {0}) → Attempt B → Attempt B
m >> k = m >>= λ _. k

abbrev pub is_hex : ℕ → Bool
is_hex n = in_range b'a' b'f' n || in_range b'0' b'9' n

unfoldable pub all_hex : List ℕ → Bool
all_hex [] = true
all_hex (n ∷ ns) = is_hex n && all_hex ns

-- `/^[a-f0-9]{64}$/u`.
unfoldable pub is_digest : String → Bool
unfolding all_hex utf16_length
is_digest s = all_hex (codes s) && utf16_length s == 64

-- `mutationReceiptIdentitySchema.parse`: three fields are trimmed.
unfoldable pub parse_identity : MutationReceiptIdentity → Attempt MutationReceiptIdentity
unfolding utf16_length is_digest
parse_identity identity =
    let parsed : MutationReceiptIdentity = record identity {
      workspace_id = trim identity.workspace_id;
      target_resource = trim identity.target_resource;
      idempotency_key = trim identity.idempotency_key;
    } in
    if leb 1 (utf16_length parsed.workspace_id)
      && (length_within 1 512 parsed.target_resource
          && (is_digest identity.canonical_arguments_digest
              && length_within 1 512 parsed.idempotency_key))
    then returns parsed
    else schema_error

unfoldable pub is_sensitive_receipt_field : String → Bool
unfolding normalized_key
is_sensitive_receipt_field key =
    let normalized = normalized_key key in
    codes_eq normalized (codes "confirmationid")
    || contains normalized (codes "authorization")
    || codes_eq normalized (codes "token")
    || ends_with normalized (codes "token")
    || contains normalized (codes "credential")
    || contains normalized (codes "password")
    || contains normalized (codes "secret")
    || ends_with normalized (codes "apikey")
    || contains normalized (codes "privatekey")

-- `result[key] = value` on a new object, as far as its own fields go: the key `__proto__` sets the
-- prototype, and adds no field.
abbrev pub assign : String → Json → Fields → Fields
assign key value rest = if str_eq key "__proto__" then rest else field key value rest

-- Whether a value is an object, so that it can be a prototype.
abbrev pub is_object : Json → Bool
is_object (array xs) = true
is_object (object fs) = true
is_object (foreign fs) = true
is_object _ = false

-- Whether assigning all these fields leaves the new object with an object as its prototype. A value that
-- is no object leaves the prototype, or sets it to null.
unfoldable pub sets_prototype : Fields → Bool
sets_prototype end = false
sets_prototype (field key value rest) =
    (str_eq key "__proto__" && is_object value) || sets_prototype rest

abbrev pub and_item : Option Json → Option Items → Option Items
and_item none xs = none
and_item (some v) none = none
and_item (some v) (some xs) = some (item v xs)

abbrev pub and_field : String → Option Json → Option Fields → Option Fields
and_field key none fs = none
and_field key (some v) none = none
and_field key (some v) (some fs) = some (assign key v fs)

abbrev pub as_array : Option Items → Option Json
as_array none = none
as_array (some xs) = some (array xs)

-- The new object, with its own fields.
abbrev pub as_object : (prototype : Bool) → Option Fields → Option Json
as_object prototype none = none
as_object prototype (some fs) = some (if prototype then foreign fs else object fs)

-- `parsePublicResultValue`; `none` is INVALID_ARGUMENT.
mutual
  unfolding is_sensitive_receipt_field sets_prototype

  pub parse_value : Json → Option Json
  parse_value null = some null
  parse_value (boolean b) = some (boolean b)
  parse_value (text s) = some (text s)
  parse_value (number n) = some (number n)
  parse_value non_finite = none
  parse_value unsupported = none
  parse_value (foreign fs) = none
  parse_value (array xs) = as_array (parse_items xs)
  parse_value (object fs) = as_object (sets_prototype fs) (parse_fields fs)

  pub parse_items : Items → Option Items
  parse_items nil = some nil
  parse_items (item v xs) = and_item (parse_value v) (parse_items xs)

  pub parse_fields : Fields → Option Fields
  parse_fields end = some end
  parse_fields (field key v fs) =
      let rest = and_field key (parse_value v) (parse_fields fs) in
      if is_sensitive_receipt_field key then none else rest

unfoldable pub parse_public_result : Json → Attempt Json
unfolding parse_value
parse_public_result value = elim (parse_value value) [
  | none ↦ app_error invalid_argument
  | some v ↦ returns v
]

-- The end of `parseMutationReceipt`, by the state and the result.
unfoldable pub parse_result : MutationReceiptState → Option Json → Attempt (Option Json)
unfolding parse_public_result
parse_result completed none = app_error invalid_argument
parse_result completed (some v) = do w ← parse_public_result v; returns (some w)
parse_result _ (some v) = app_error invalid_argument
parse_result _ none = returns none

unfoldable pub parse_receipt : MutationReceipt → Attempt MutationReceipt
unfolding parse_identity parse_result
parse_receipt r = do
  identity ← parse_identity r.identity
  result ← parse_result r.state r.result
  returns (record { identity = identity; state = r.state; result = result })

pub same_identity : MutationReceiptIdentity → MutationReceiptIdentity → Bool
same_identity existing requested =
    str_eq existing.workspace_id requested.workspace_id
    && (operation_eq existing.operation requested.operation
        && (str_eq existing.target_resource requested.target_resource
            && (str_eq existing.canonical_arguments_digest requested.canonical_arguments_digest
                && str_eq existing.idempotency_key requested.idempotency_key)))

unfoldable pub assert_same_identity :
    MutationReceiptIdentity → MutationReceiptIdentity → Attempt (Unit {0})
unfolding same_identity
assert_same_identity existing requested =
    if same_identity existing requested
    then returns tt
    else app_error source_control_idempotency_conflict

-- `JSON.parse(JSON.stringify(value))`: the own fields of an object make a plain one. Only values that were
-- parsed are cloned.
unfoldable mutual
  pub clone_value : Json → Json
  clone_value null = null
  clone_value (boolean b) = boolean b
  clone_value (number n) = number n
  clone_value non_finite = null
  clone_value (text s) = text s
  clone_value (array xs) = array (clone_items xs)
  clone_value (object fs) = object (clone_fields fs)
  clone_value (foreign fs) = object (clone_fields fs)
  clone_value unsupported = null

  pub clone_items : Items → Items
  clone_items nil = nil
  clone_items (item v xs) = item (clone_value v) (clone_items xs)

  pub clone_fields : Fields → Fields
  clone_fields end = end
  clone_fields (field key v fs) = field key (clone_value v) (clone_fields fs)

abbrev pub clone_result : Option Json → Option Json
clone_result none = none
clone_result (some v) = some (clone_value v)

abbrev pub clone_receipt : MutationReceipt → MutationReceipt
clone_receipt r = record r { result = clone_result r.result }

abbrev pub clone_reservation : MutationReceiptReservation → MutationReceiptReservation
clone_reservation (execute r) = execute (clone_receipt r)
clone_reservation (replay_completed r) = replay_completed (clone_receipt r)
clone_reservation (needs_reconciliation r) = needs_reconciliation (clone_receipt r)
