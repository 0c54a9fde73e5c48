-- ===== src/Browser/SiteGrants/Tests.antt =====
-- Runs of the registry of site grants, and its theorems at concrete inputs.
use mcp_access_stack_legacy.Prelude.{
  ◌+◌, ◌<◌, min, [], ◌∷◌, some, ◌≡◌, refl, ◌↔◌, leb, if◌then◌else◌,
}
use mcp_access_stack_legacy.Prelude.Assoc.{get, put, retain}
use mcp_access_stack_legacy.Core.Errors.{site_access_grant_expired, ok, throw}
use mcp_access_stack_legacy.Browser.Tasks.{BrowserTask, active}
use mcp_access_stack_legacy.Browser.SiteGrants.{
  AuthorizedSitePolicy, BrowserSiteGrant, BrowserSiteGrantRegistry, grant_ttl_ms, grant_key,
  create_confirmation, confirm, require_grant,
}
use mcp_access_stack_legacy.Browser.SiteGrants.Bounds.{
  IsConfirmed, IsGrantFor, confirm_iff, confirm-require_grant, require_grant_sound,
}

abbrev a_task : BrowserTask
a_task = record {
  task_id = "task-1";
  owner_scope_hash = "h";
  state = active;
  tab_ids = [];
  created_at = 0;
  last_activity_at = 0;
  expires_at = 100_000;
  lifecycle_version = 1;
}

abbrev bank : AuthorizedSitePolicy
bank = record { site_id = "bank"; allowed_origins = "https://bank.test" ∷ [] }

abbrev no_grants : BrowserSiteGrantRegistry
no_grants = record { pending = []; grants = [] }

abbrev asked : BrowserSiteGrantRegistry
asked = (create_confirmation a_task bank "read" "u" 1_000 1_000 no_grants).0

abbrev granted : BrowserSiteGrantRegistry
granted = (confirm "site-confirm-u" a_task bank "read" 2_000 2_000 asked).0

abbrev the_grant : BrowserSiteGrant
the_grant = record {
  task_id = "task-1";
  owner_scope_hash = "h";
  site_id = "bank";
  allowed_origins = "https://bank.test" ∷ [];
  expires_at = 100_000;
}

confirm_run : (confirm "site-confirm-u" a_task bank "read" 2_000 2_000 asked).1 ≡ ok the_grant
unfolding confirm create_confirmation get put retain
confirm_run = refl

confirm_iff_example :
    ((confirm "site-confirm-u" a_task bank "read" 2_000 2_000 asked).1 ≡ ok the_grant) ↔ (
      IsConfirmed "site-confirm-u" a_task bank "read" 2_000 asked
      × IsGrantFor a_task bank 2_000 the_grant)
confirm_iff_example = confirm_iff "site-confirm-u" a_task bank "read" 2_000 2_000 asked the_grant

confirm-require_grant_example : (require_grant a_task bank 3_000 3_000 granted).1 ≡ (
    if leb (min 100_000 (2_000 + grant_ttl_ms)) 3_000
    then throw site_access_grant_expired
    else ok the_grant)
confirm-require_grant_example =
    confirm-require_grant "site-confirm-u" a_task bank "read" 2_000 2_000 3_000 3_000 asked
      the_grant confirm_run

require_grant_sound_example :
    (get (grant_key "task-1" "bank") granted.grants ≡ some the_grant)
    × (the_grant.owner_scope_hash ≡ a_task.owner_scope_hash)
    × (3_000 < the_grant.expires_at)
require_grant_sound_example =
    require_grant_sound a_task bank 3_000 3_000 granted the_grant confirm-require_grant_example
