-- ===== src/Core/TypedConfirmation/Tests.antt =====
-- A confirmation of a push, and arguments with the id of a confirmation.
use mcp_access_stack_legacy.Prelude.{ℕ, true, [], ◌∷◌, some, ◌≡◌, refl, ◌↔◌}
use mcp_access_stack_legacy.Core.Errors.{source_control_confirmation_invalid}
use mcp_access_stack_legacy.Core.Receipts.{
  returns, app_error, Json, text, object, foreign, field, end, sets_prototype,
}
use mcp_access_stack_legacy.Core.TypedConfirmation.{
  git_push_branch, TypedConfirmationBinding, TypedConfirmationRegistry, is_valid_binding, consume,
  remove_ephemeral,
}
use mcp_access_stack_legacy.Core.TypedConfirmation.OneShot.{IsValidFor, consume_typed_iff}
use mcp_access_stack_legacy.Core.TypedConfirmation.Arguments.{IsCanonical, IsPlain}
use mcp_access_stack_legacy.Core.TypedConfirmation.Arguments.Again.{remove_ephemeral-IsCanonical}
use mcp_access_stack_legacy.Core.Receipts.Public.{HasNoPrototype}

abbrev push : TypedConfirmationBinding
push = record {
  workspace_id = "ws";
  operation = git_push_branch;
  target_resource = "origin/topic";
  canonical_arguments_digest = "0123456789abcdef0123456789abcdef0123456789abcdef0123456789abcdef";
}

abbrev registry : TypedConfirmationRegistry
registry = record {
  pending = ("id", record { binding = push; expires_at_ms = 600_000 }) ∷ [];
  ttl_ms = 600_000;
}

consume_typed_iff_example :
    (((consume "id" push 10 11 registry).1 ≡ returns tt) ↔ IsValidFor "id" push 10 11 registry)
    × ((b' : TypedConfirmationBinding) (now' later' : ℕ)
        → (consume "id" push 10 11 registry).1 ≡ returns tt
        → is_valid_binding b' ≡ true
        → (consume "id" b' now' later' (consume "id" push 10 11 registry).0).1
          ≡ app_error source_control_confirmation_invalid)
consume_typed_iff_example = consume_typed_iff "id" push 10 11 registry

abbrev arguments : Json
arguments = object (field "branch" (text "topic") (field "confirmationId" (text "id") end))

abbrev digested : Json
digested = object (field "branch" (text "topic") end)

remove_ephemeral-IsCanonical_example :
    IsCanonical digested
    × ((remove_ephemeral digested ≡ some digested) ↔ IsPlain digested)
    × (HasNoPrototype arguments → IsPlain digested)
unfolding remove_ephemeral sets_prototype
remove_ephemeral-IsCanonical_example = remove_ephemeral-IsCanonical arguments digested refl

-- The result of arguments with a prototype is refused by the same step.
abbrev inheriting : Json
inheriting = object (field "__proto__" (object end) (field "branch" (text "topic") end))

prototype_is_set : remove_ephemeral inheriting ≡ some (foreign (field "branch" (text "topic") end))
unfolding remove_ephemeral sets_prototype
prototype_is_set = refl
