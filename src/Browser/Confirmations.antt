-- ===== src/Browser/Confirmations.antt =====
-- services/browser-worker/domain/confirmation-registry.ts: one-shot confirmations of browser actions,
-- each bound to the action that it confirms. Times are milliseconds; `consume` reads the clock twice.
pub mod OneShot
mod Tests
use mcp_access_stack_legacy.Prelude.{
  ℕ, ◌+◌, ◌*◌, String, Bool, true, false, ◌&&◌, List, [], Option, none, some, if◌then◌else◌, str_eq,
  leb, ltb, not, any, includes,
}
use mcp_access_stack_legacy.Prelude.Assoc.{Assoc, get, put, delete, retain, values}
use mcp_access_stack_legacy.Core.Errors.{browser_confirmation_invalid, Result, ok, throw}

abbrev pub default_ttl_ms : ℕ
default_ttl_ms = 10 * 60 * 1000

pub data BrowserConfirmationCategory : Type 0 where
  submit_form publish_content send_message delete_or_cancel : BrowserConfirmationCategory
  purchase_or_payment change_credentials accept_terms_or_contract : BrowserConfirmationCategory
  upload_file : BrowserConfirmationCategory

abbrev pub category_eq : BrowserConfirmationCategory → BrowserConfirmationCategory → Bool
category_eq submit_form submit_form = true
category_eq publish_content publish_content = true
category_eq send_message send_message = true
category_eq delete_or_cancel delete_or_cancel = true
category_eq purchase_or_payment purchase_or_payment = true
category_eq change_credentials change_credentials = true
category_eq accept_terms_or_contract accept_terms_or_contract = true
category_eq upload_file upload_file = true
category_eq _ _ = false

pub record BrowserConfirmationBinding : Type 0 where
  pub tab_id : String
  pub origin : String
  pub url : String
  pub category : BrowserConfirmationCategory
  pub action : String
  pub target : String

pub record PendingConfirmation : Type 0 where
  pub binding : BrowserConfirmationBinding
  pub expires_at_ms : ℕ

pub record BrowserConfirmationRegistry : Type 0 where
  pub pending : Assoc PendingConfirmation
  pub ttl_ms : ℕ

-- Equal bytes of the UTF-8 encodings: equal texts, where no text holds a lone surrogate.
abbrev pub safe_equal : String → String → Bool
safe_equal left right = str_eq left right

pub same_binding : BrowserConfirmationBinding → BrowserConfirmationBinding → Bool
same_binding left right =
    safe_equal left.tab_id right.tab_id
    && (safe_equal left.origin right.origin
        && (safe_equal left.url right.url
            && (category_eq left.category right.category
                && (safe_equal left.action right.action && safe_equal left.target right.target))))

pub prune_expired : ℕ → BrowserConfirmationRegistry → BrowserConfirmationRegistry
unfolding retain
prune_expired now r = record r { pending = retain (λ p. not (leb p.expires_at_ms now)) r.pending }

-- `confirmation_id` is the text made of `randomBytes(18)`.
pub create :
    BrowserConfirmationBinding
    → String
    → ℕ
    → ℕ
    → BrowserConfirmationRegistry
    → BrowserConfirmationRegistry × ℕ
unfolding prune_expired
create binding confirmation_id now later r =
    let r' = prune_expired now r in
    let expires_at_ms = later + r.ttl_ms in
    (
      record r' {
        pending =
            put confirmation_id (record { binding = binding; expires_at_ms = expires_at_ms })
              r'.pending;
      },
      expires_at_ms,
    )

pub clear : BrowserConfirmationRegistry → BrowserConfirmationRegistry
clear r = record r { pending = [] }

pub has_pending_tabs :
    List String → ℕ → BrowserConfirmationRegistry → BrowserConfirmationRegistry × Bool
unfolding prune_expired any includes values
has_pending_tabs tab_ids now r =
    let r' = prune_expired now r in
    (r', any (λ p. includes tab_ids p.binding.tab_id) (values r'.pending))

pub discard_tabs : List String → BrowserConfirmationRegistry → BrowserConfirmationRegistry
unfolding retain includes
discard_tabs tab_ids r = record r {
  pending = retain (λ p. not (includes tab_ids p.binding.tab_id)) r.pending;
}

-- What `consume` does after the pruning, at the second reading of the clock.
pub consume_pruned :
    String
    → BrowserConfirmationBinding
    → ℕ
    → BrowserConfirmationRegistry
    → BrowserConfirmationRegistry × Result (Unit {0})
unfolding same_binding
consume_pruned confirmation_id binding later r =
    let removed = record r { pending = delete confirmation_id r.pending } in
    elim (get confirmation_id r.pending) [
      | none ↦ (removed, throw browser_confirmation_invalid)
      | some p ↦
          if leb p.expires_at_ms later
          then (removed, throw browser_confirmation_invalid)
          else if not (same_binding p.binding binding)
          then (r, throw browser_confirmation_invalid)
          else (removed, ok tt)
    ]

pub consume :
    String
    → BrowserConfirmationBinding
    → ℕ
    → ℕ
    → BrowserConfirmationRegistry
    → BrowserConfirmationRegistry × Result (Unit {0})
unfolding prune_expired consume_pruned
consume confirmation_id binding now later r =
    consume_pruned confirmation_id binding later (prune_expired now r)
