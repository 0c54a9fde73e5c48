-- ===== src/Browser/SiteGrants.antt =====
-- services/browser-worker/domain/browser-site-grant-registry.ts: confirmations of access to private
-- sites and the grants that they lead to. Times are milliseconds; of a policy the site and its origins
-- are read.
pub mod Bounds
mod Tests
use mcp_access_stack_legacy.Prelude.{
  ℕ, ◌+◌, ◌*◌, min, concat, String, Bool, ◌&&◌, List, [], ◌∷◌, Option, none, some, if◌then◌else◌,
  str_eq, leb, not, filter,
}
use mcp_access_stack_legacy.Prelude.Assoc.{Assoc, get, put, delete, retain, values}
use mcp_access_stack_legacy.Core.Errors.{
  site_access_authorization_required, task_ownership_mismatch, site_access_grant_expired, Result,
  ok, throw,
}
use mcp_access_stack_legacy.Browser.Tasks.{BrowserTask}

pub record AuthorizedSitePolicy : Type 0 where
  pub site_id : String
  pub allowed_origins : List String

pub record PendingSiteConfirmation : Type 0 where
  pub confirmation_id : String
  pub task_id : String
  pub owner_scope_hash : String
  pub site_id : String
  pub purpose : String
  pub expires_at : ℕ

pub record BrowserSiteGrant : Type 0 where
  pub task_id : String
  pub owner_scope_hash : String
  pub site_id : String
  pub allowed_origins : List String
  pub expires_at : ℕ

abbrev pub confirmation_ttl_ms : ℕ
confirmation_ttl_ms = 5 * 60 * 1000

abbrev pub grant_ttl_ms : ℕ
grant_ttl_ms = 10 * 60 * 1000

pub record BrowserSiteGrantRegistry : Type 0 where
  pub pending : Assoc PendingSiteConfirmation
  pub grants : Assoc BrowserSiteGrant

pub grant_key : String → String → String
grant_key task_id site_id = concat task_id (concat "\0" site_id)

pub prune_expired_confirmations : ℕ → BrowserSiteGrantRegistry → BrowserSiteGrantRegistry
unfolding retain
prune_expired_confirmations now r = record r {
  pending = retain (λ p. not (leb p.expires_at now)) r.pending;
}

pub prune_expired_grants : ℕ → BrowserSiteGrantRegistry → BrowserSiteGrantRegistry
unfolding retain
prune_expired_grants now r = record r { grants = retain (λ g. not (leb g.expires_at now)) r.grants }

-- `pruneConfirmations` and `pruneGrants` get one reading of the clock.
pub prune_expired : ℕ → BrowserSiteGrantRegistry → BrowserSiteGrantRegistry
unfolding prune_expired_confirmations prune_expired_grants
prune_expired now r = prune_expired_grants now (prune_expired_confirmations now r)

-- `uuid` is the text that `randomUUID()` returns.
pub create_confirmation :
    BrowserTask
    → AuthorizedSitePolicy
    → String
    → String
    → ℕ
    → ℕ
    → BrowserSiteGrantRegistry
    → BrowserSiteGrantRegistry × PendingSiteConfirmation
unfolding prune_expired
create_confirmation task policy purpose uuid now later r =
    let r' = prune_expired now r in
    let confirmation : PendingSiteConfirmation = record {
      confirmation_id = concat "site-confirm-" uuid;
      task_id = task.task_id;
      owner_scope_hash = task.owner_scope_hash;
      site_id = policy.site_id;
      purpose = purpose;
      expires_at = later + confirmation_ttl_ms;
    } in
    (record r' { pending = put confirmation.confirmation_id confirmation r'.pending }, confirmation)

pub matches : PendingSiteConfirmation → BrowserTask → AuthorizedSitePolicy → String → Bool
matches pending task policy purpose =
    str_eq pending.task_id task.task_id
    && (str_eq pending.owner_scope_hash task.owner_scope_hash
        && (str_eq pending.site_id policy.site_id && str_eq pending.purpose purpose))

-- The grant that `confirm` makes.
pub new_grant : BrowserTask → AuthorizedSitePolicy → ℕ → BrowserSiteGrant
new_grant task policy now = record {
  task_id = task.task_id;
  owner_scope_hash = task.owner_scope_hash;
  site_id = policy.site_id;
  allowed_origins = policy.allowed_origins;
  expires_at = min task.expires_at (now + grant_ttl_ms);
}

pub confirm :
    String
    → BrowserTask
    → AuthorizedSitePolicy
    → String
    → ℕ
    → ℕ
    → BrowserSiteGrantRegistry
    → BrowserSiteGrantRegistry × Result BrowserSiteGrant
unfolding prune_expired matches new_grant grant_key
confirm confirmation_id task policy purpose now later r =
    let r' = prune_expired now r in
    let grant = new_grant task policy later in
    elim (get confirmation_id r'.pending) [
      | none ↦ (r', throw site_access_authorization_required)
      | some pending ↦
          if not (matches pending task policy purpose)
          then (r', throw site_access_authorization_required)
          else (
            record r' {
              pending = delete confirmation_id r'.pending;
              grants = put (grant_key task.task_id policy.site_id) grant r'.grants;
            },
            ok grant,
          )
    ]

pub require_grant :
    BrowserTask
    → AuthorizedSitePolicy
    → ℕ
    → ℕ
    → BrowserSiteGrantRegistry
    → BrowserSiteGrantRegistry × Result BrowserSiteGrant
unfolding prune_expired_confirmations grant_key
require_grant task policy now later r =
    let r' = prune_expired_confirmations now r in
    let key = grant_key task.task_id policy.site_id in
    elim (get key r'.grants) [
      | none ↦ (r', throw site_access_authorization_required)
      | some grant ↦
          if not (str_eq grant.owner_scope_hash task.owner_scope_hash)
          then (r', throw task_ownership_mismatch)
          else if leb grant.expires_at later
          then (record r' { grants = delete key r'.grants }, throw site_access_grant_expired)
          else (r', ok grant)
    ]

pub grant_for_task_site :
    String
    → String
    → ℕ
    → BrowserSiteGrantRegistry
    → BrowserSiteGrantRegistry × Option BrowserSiteGrant
unfolding prune_expired grant_key
grant_for_task_site task_id site_id now r =
    let r' = prune_expired now r in (r', get (grant_key task_id site_id) r'.grants)

pub revoke_task_site :
    String → String → BrowserSiteGrantRegistry → BrowserSiteGrantRegistry × Option BrowserSiteGrant
unfolding grant_key
revoke_task_site task_id site_id r =
    let key = grant_key task_id site_id in
    elim (get key r.grants) [
      | none ↦ (r, none)
      | some grant ↦ (record r { grants = delete key r.grants }, some grant)
    ]

pub revoke_task :
    String → BrowserSiteGrantRegistry → BrowserSiteGrantRegistry × List BrowserSiteGrant
unfolding retain values filter
revoke_task task_id r = (
  record r {
    grants = retain (λ g. not (str_eq g.task_id task_id)) r.grants;
    pending = retain (λ p. not (str_eq p.task_id task_id)) r.pending;
  },
  filter (λ g. str_eq g.task_id task_id) (values r.grants),
)

pub active_grants : ℕ → BrowserSiteGrantRegistry → BrowserSiteGrantRegistry × List BrowserSiteGrant
unfolding prune_expired values
active_grants now r = let r' = prune_expired now r in (r', values r'.grants)
