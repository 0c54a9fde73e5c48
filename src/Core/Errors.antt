-- ===== src/Core/Errors.antt =====
-- packages/mcp-core/src/errors.ts: the codes of `AppError`, and what an operation that may throw one
-- returns. Of an `AppError` the code is kept; its message is text for people, and no code reads it.
use mcp_access_stack_legacy.Prelude.{◌≡◌, refl}

pub data ErrorCode : Type 0 where
  policy_invalid workspace_not_found workspace_disabled permission_denied write_not_allowed
        shell_not_allowed shell_failed shell_unavailable command_confirmation_invalid invalid_path
        path_outside_workspace path_outside_allowed_roots blocked_path file_not_found not_a_file
        not_a_directory file_too_large invalid_utf8 binary_file limit_exceeded not_git_repository
        git_error source_control_capability_denied source_control_confirmation_invalid
        source_control_idempotency_conflict source_control_reconciliation_required git_head_mismatch
        git_branch_conflict git_index_changed git_remote_changed git_merge_not_fast_forward
        git_protected_branch audit_failed agent_unavailable agent_busy agent_timeout
        operation_cancelled relay_protocol_error idempotency_key_conflict execution_not_found
        execution_state_invalid execution_outcome_unknown authentication_failed
        browser_worker_unavailable browser_worker_timeout browser_disconnected
        browser_context_recovery_failed task_scope_required task_not_found task_ownership_mismatch
        task_suspended task_expired site_access_authorization_required site_access_grant_expired
        site_navigation_blocked site_policy_not_found site_production_blocked
        login_credential_unavailable login_credentials_invalid login_interaction_required
        credential_broker_unavailable credential_broker_protocol_mismatch
        credential_broker_access_denied browser_capability_unsupported
        browser_operation_mode_unsupported frame_not_found frame_not_ready frame_cross_origin
        locator_not_found locator_ambiguous locator_low_confidence navigation_timeout
        state_not_reached action_blocked_by_policy capability_unsupported tab_not_found stale_tab_id
        tab_not_owned tab_protected navigation_blocked authentication_required captcha_detected
        action_requires_confirmation browser_confirmation_invalid invalid_argument internal_error :
      ErrorCode

pub data Result {ℓ} (A : Type ℓ) : Type ℓ where
  ok : A → Result A
  throw : ErrorCode → Result A

-- A method of a class with mutable fields `S`. What it has changed stays changed if it throws.
abbrev pub M : Type 0 → Type 0 → Type 0
M S A = S → S × Result A

abbrev pub pure : {S A : Type 0} → A → M S A
pure a s = (s, ok a)

abbrev pub fail : {S A : Type 0} → ErrorCode → M S A
fail e s = (s, throw e)

abbrev pub continue : {S A B : Type 0} → (A → M S B) → S × Result A → S × Result B
continue f (s, ok a) = f a s
continue f (s, throw e) = (s, throw e)

infixl 5 ◌>>=◌ ◌>>◌
abbrev pub ◌>>=◌ : {S A B : Type 0} → M S A → (A → M S B) → M S B
◌>>=◌ m f s = continue f (m s)

abbrev pub ◌>>◌ : {S B : Type 0} → M S (Unit {0}) → M S B → M S B
m >> k = m >>= λ _. k

abbrev pub get_state : {S : Type 0} → M S S
get_state s = (s, ok s)

abbrev pub set_state : {S : Type 0} → S → M S (Unit {0})
set_state s' s = (s', ok tt)

-- A predicate on the state that both parts of a sequence keep is kept by the sequence.
pub >>=-keeps :
    {S A B : Type 0} (P : S → Type 0) (m : M S A) (f : A → M S B) (s : S)
    → P (m s).0
    → ((a : A) → (m s).1 ≡ ok a → P (f a (m s).0).0)
    → P ((m >>= f) s).0
>>=-keeps {S} {A} {B} P m f s first second = go (m s) first second
  where
    go : (x : S × Result A) → P x.0 → ((a : A) → x.1 ≡ ok a → P (f a x.0).0) → P (continue f x).0
    go (s', ok a) first second = second a refl
    go (s', throw e) first second = first

-- A sequence that returns has run both of its parts.
pub >>=-eq-ok :
    {S A B : Type 0} (m : M S A) (f : A → M S B) (s : S) (b : B)
    → ((m >>= f) s).1 ≡ ok b
    → (a : A) × ((m s).1 ≡ ok a) × ((m >>= f) s ≡ f a (m s).0)
>>=-eq-ok {S} {A} {B} m f s b e = go (m s) e
  where
    go :
        (x : S × Result A)
        → (continue f x).1 ≡ ok b
        → (a : A) × (x.1 ≡ ok a) × (continue f x ≡ f a x.0)
    go (s', ok a) e = (a, refl, refl)
    go (s', throw c) e = cc
