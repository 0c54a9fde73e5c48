-- ===== src/Browser/SiteGrants/Bounds.antt =====
-- What a grant of access to a private site allows, and for how long.
use mcp_access_stack_legacy.Prelude.{
  ℕ, ◌+◌, ◌≤◌, ◌<◌, min, String, Bool, true, none, some, if◌then◌else◌, str_eq, leb, not, ◌≡◌, refl,
  ◌↔◌, ◌⊎◌, ap, sym, ◌∙◌, subst, inl, inr, arith, eq_iff, Option-cases,
}
use mcp_access_stack_legacy.Prelude.Assoc.{get, keep_if, get-put, get-delete, get-retain}
use mcp_access_stack_legacy.Core.Errors.{
  site_access_authorization_required, site_access_grant_expired, ok, throw,
}
use mcp_access_stack_legacy.Browser.Tasks.{BrowserTask}
use mcp_access_stack_legacy.Browser.SiteGrants.{
  AuthorizedSitePolicy, PendingSiteConfirmation, BrowserSiteGrant, BrowserSiteGrantRegistry,
  grant_ttl_ms, grant_key, prune_expired, matches, new_grant, confirm, require_grant, revoke_task,
}

matches_iff :
    (p : PendingSiteConfirmation) (task : BrowserTask) (policy : AuthorizedSitePolicy)
    (purpose : String)
    → (matches p task policy purpose ≡ true) ↔ (
        (p.task_id ≡ task.task_id)
        × (p.owner_scope_hash ≡ task.owner_scope_hash)
        × (p.site_id ≡ policy.site_id)
        × (p.purpose ≡ purpose))
unfolding matches
matches_iff p task policy purpose = ground (
  arith,
  eq_iff p.task_id task.task_id,
  eq_iff p.owner_scope_hash task.owner_scope_hash,
  eq_iff p.site_id policy.site_id,
  eq_iff p.purpose purpose,
)

abbrev is_live : ℕ → PendingSiteConfirmation → Bool
is_live now p = not (leb p.expires_at now)

-- A confirmation that has not expired was made for this task, owner, site and purpose.
pub record IsConfirmed (id : String) (task : BrowserTask) (policy : AuthorizedSitePolicy)
    (purpose : String) (now : ℕ) (r : BrowserSiteGrantRegistry) : Type 0 where
  pub confirmation : PendingSiteConfirmation
  pub stored : get id r.pending ≡ some confirmation
  pub not_expired : now < confirmation.expires_at
  pub same_task : confirmation.task_id ≡ task.task_id
  pub same_owner : confirmation.owner_scope_hash ≡ task.owner_scope_hash
  pub same_site : confirmation.site_id ≡ policy.site_id
  pub same_purpose : confirmation.purpose ≡ purpose

-- A grant is for the task, its owner and the site, lists the origins of the policy, and ends with the task
-- or ten minutes after it was made, if that is sooner.
pub record IsGrantFor (task : BrowserTask) (policy : AuthorizedSitePolicy) (now : ℕ)
    (g : BrowserSiteGrant) : Type 0 where
  pub of_task : g.task_id ≡ task.task_id
  pub of_owner : g.owner_scope_hash ≡ task.owner_scope_hash
  pub of_site : g.site_id ≡ policy.site_id
  pub origins : g.allowed_origins ≡ policy.allowed_origins
  pub before_task : g.expires_at ≤ task.expires_at
  pub within_ten_minutes : g.expires_at ≤ now + 600_000
  pub one_of_both : (g.expires_at ≡ task.expires_at) ⊎ (g.expires_at ≡ now + 600_000)

new_grant-IsGrantFor :
    (task : BrowserTask) (policy : AuthorizedSitePolicy) (now : ℕ)
    → IsGrantFor task policy now (new_grant task policy now)
unfolding new_grant
new_grant-IsGrantFor task policy now = record {
  of_task = refl;
  of_owner = refl;
  of_site = refl;
  origins = refl;
  before_task = omega arith;
  within_ten_minutes = omega arith;
  one_of_both = ground arith;
}

IsGrantFor-new_grant :
    (task : BrowserTask) (policy : AuthorizedSitePolicy) (now : ℕ) (g : BrowserSiteGrant)
    → IsGrantFor task policy now g
    → g ≡ new_grant task policy now
unfolding new_grant
IsGrantFor-new_grant task policy now g p = ground (
  arith, p.of_task, p.of_owner, p.of_site, p.origins, p.before_task, p.within_ten_minutes,
  p.one_of_both,
)

confirm-IsConfirmed :
    (id : String) (task : BrowserTask) (policy : AuthorizedSitePolicy) (purpose : String)
    (now later : ℕ) (r : BrowserSiteGrantRegistry) (g : BrowserSiteGrant)
    → (confirm id task policy purpose now later r).1 ≡ ok g
    → IsConfirmed id task policy purpose now r × (g ≡ new_grant task policy later)
unfolding confirm
confirm-IsConfirmed id task policy purpose now later r g e =
    elim (Option-cases (get id r.pending)) [
      | inl missing ↦ absurd (ground (arith, get-retain id (is_live now) r.pending))
      | inr (p, found) ↦
          (let live = get-retain id (is_live now) r.pending in
            let same = (matches_iff p task policy purpose).0 (ground (arith, live)) in
            (
              record {
                confirmation = p;
                stored = found;
                not_expired = ground (arith, live);
                same_task = same.0;
                same_owner = same.1;
                same_site = same.2;
                same_purpose = same.3;
              },
              ground (arith, live),
            ))
    ]

IsConfirmed-confirm :
    (id : String) (task : BrowserTask) (policy : AuthorizedSitePolicy) (purpose : String)
    (now later : ℕ) (r : BrowserSiteGrantRegistry)
    → IsConfirmed id task policy purpose now r
    → (confirm id task policy purpose now later r).1 ≡ ok (new_grant task policy later)
unfolding confirm
IsConfirmed-confirm id task policy purpose now later r c =
    ground
      (arith, get-retain id (is_live now) r.pending, matches_iff c.confirmation task policy purpose)

-- `confirm` grants access exactly when a confirmation that has not expired is stored under the id and
-- was made for the same task, owner, site and purpose. The grant is then for that task, owner and
-- site, lists the origins of the policy, and ends with the task or ten minutes later, if that is sooner.
pub confirm_iff :
    (id : String) (task : BrowserTask) (policy : AuthorizedSitePolicy) (purpose : String)
    (now later : ℕ) (r : BrowserSiteGrantRegistry) (g : BrowserSiteGrant)
    → ((confirm id task policy purpose now later r).1 ≡ ok g)
      ↔ (IsConfirmed id task policy purpose now r × IsGrantFor task policy later g)
confirm_iff id task policy purpose now later r g = (
  (λ e.
      let p = confirm-IsConfirmed id task policy purpose now later r g e in
      (
        p.0,
        subst (IsGrantFor task policy later) (sym p.1) (new_grant-IsGrantFor task policy later),
      )),
  λ (c, grant).
      IsConfirmed-confirm id task policy purpose now later r c
      ∙ ap ok (sym (IsGrantFor-new_grant task policy later g grant)),
)

-- A grant from `confirm` outlives neither its task nor ten minutes.
new_grant_bounds :
    (task : BrowserTask) (policy : AuthorizedSitePolicy) (now : ℕ)
    → ((new_grant task policy now).expires_at ≤ task.expires_at)
      × ((new_grant task policy now).expires_at ≤ now + grant_ttl_ms)
unfolding new_grant
new_grant_bounds task policy now = omega arith

-- A confirmation is used once: after a successful `confirm` the same id is refused, whatever the
-- task, site and purpose.
pub confirm_once :
    (id : String) (task task' : BrowserTask) (policy policy' : AuthorizedSitePolicy)
    (purpose purpose' : String) (now later now' later' : ℕ) (r : BrowserSiteGrantRegistry)
    (g : BrowserSiteGrant)
    → (confirm id task policy purpose now later r).1 ≡ ok g
    → (confirm id task' policy' purpose' now' later'
        (confirm id task policy purpose now later r).0).1
      ≡ throw site_access_authorization_required
unfolding confirm
confirm_once id task task' policy policy' purpose purpose' now later now' later' r g e =
    let gone : get id (confirm id task policy purpose now later r).0.pending ≡ none =
      ground (arith, get-delete id id (prune_expired now r).pending, eq_iff id id) in
    ground (
      arith,
      get-retain id (is_live now') (confirm id task policy purpose now later r).0.pending,
      gone,
    )

confirm_stored :
    (id : String) (task : BrowserTask) (policy : AuthorizedSitePolicy) (purpose : String)
    (now later : ℕ) (r : BrowserSiteGrantRegistry) (g : BrowserSiteGrant)
    → (confirm id task policy purpose now later r).1 ≡ ok g
    → get
        (grant_key task.task_id policy.site_id)
        (confirm id task policy purpose now later r).0.grants
      ≡ some g
unfolding confirm
confirm_stored id task policy purpose now later r g e =
    let key = grant_key task.task_id policy.site_id in
    ground (
      arith,
      eq_iff key key,
      get-put key key (new_grant task policy later) (prune_expired now r).grants,
    )

require_grant_stored :
    (task : BrowserTask) (policy : AuthorizedSitePolicy) (at at' : ℕ) (r : BrowserSiteGrantRegistry)
    (g : BrowserSiteGrant) (later : ℕ)
    → get (grant_key task.task_id policy.site_id) r.grants ≡ some g
    → g ≡ new_grant task policy later
    → (require_grant task policy at at' r).1 ≡ (
        if leb (min task.expires_at (later + grant_ttl_ms)) at'
        then throw site_access_grant_expired
        else ok g)
unfolding require_grant new_grant
require_grant_stored task policy at at' r g later found made =
    ground (arith, eq_iff g.owner_scope_hash task.owner_scope_hash)

-- After a successful `confirm`, `requireGrant` for the same task and site returns the grant as long
-- as the task has not expired and ten minutes have not passed, and refuses it afterwards.
pub confirm-require_grant :
    (id : String) (task : BrowserTask) (policy : AuthorizedSitePolicy) (purpose : String)
    (now later at at' : ℕ) (r : BrowserSiteGrantRegistry) (g : BrowserSiteGrant)
    → (confirm id task policy purpose now later r).1 ≡ ok g
    → (require_grant task policy at at' (confirm id task policy purpose now later r).0).1 ≡ (
        if leb (min task.expires_at (later + grant_ttl_ms)) at'
        then throw site_access_grant_expired
        else ok g)
confirm-require_grant id task policy purpose now later at at' r g e =
    require_grant_stored task policy at at' (confirm id task policy purpose now later r).0 g later
      (confirm_stored id task policy purpose now later r g e)
      (confirm-IsConfirmed id task policy purpose now later r g e).1

-- `requireGrant` never returns a grant of another owner scope, nor one that has expired.
pub require_grant_sound :
    (task : BrowserTask) (policy : AuthorizedSitePolicy) (now later : ℕ)
    (r : BrowserSiteGrantRegistry) (g : BrowserSiteGrant)
    → (require_grant task policy now later r).1 ≡ ok g
    → (get (grant_key task.task_id policy.site_id) r.grants ≡ some g)
      × (g.owner_scope_hash ≡ task.owner_scope_hash)
      × (later < g.expires_at)
unfolding require_grant
require_grant_sound task policy now later r g e =
    elim (Option-cases (get (grant_key task.task_id policy.site_id) r.grants)) [
      | inl missing ↦ absurd (ground arith)
      | inr (grant, found) ↦ ground (arith, eq_iff grant.owner_scope_hash task.owner_scope_hash)
    ]

-- After `revokeTask` no grant and no pending confirmation of the task is left under any key, and
-- those of other tasks are as before.
pub revoke_task_lem :
    (task_id key : String) (r : BrowserSiteGrantRegistry)
    → (get key (revoke_task task_id r).0.grants
        ≡ keep_if (λ g. not (str_eq g.task_id task_id)) (get key r.grants))
      × (get key (revoke_task task_id r).0.pending
          ≡ keep_if (λ p. not (str_eq p.task_id task_id)) (get key r.pending))
unfolding revoke_task
revoke_task_lem task_id key r = (
  get-retain key (λ g. not (str_eq g.task_id task_id)) r.grants,
  get-retain key (λ p. not (str_eq p.task_id task_id)) r.pending,
)
