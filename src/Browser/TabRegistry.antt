-- ===== src/Browser/TabRegistry.antt =====
-- services/browser-worker/domain/tab-registry.ts, with the tabs of
-- packages/mcp-core/src/browser-contracts.ts. A time is the milliseconds of its ISO text. A URL is its
-- text; an absent optional field is `none`.
pub mod Sticky
mod Tests
use mcp_access_stack_legacy.Prelude.{
  ℕ, String, Bool, true, false, ◌&&◌, ◌||◌, List, Option, none, some, if◌then◌else◌, str_eq, not,
  truthy, ◌or_else◌,
}
use mcp_access_stack_legacy.Prelude.Assoc.{Assoc, get, put, delete, values}
use mcp_access_stack_legacy.Core.Errors.{
  tab_not_owned, navigation_blocked, tab_protected, Result, ok, throw, M, ◌>>=◌,
}

pub data BrowserTabLifecycle : Type 0 where
  task_scoped persistent external : BrowserTabLifecycle

pub data BrowserOwnership : Type 0 where
  user mcp : BrowserOwnership

abbrev pub is_mcp : BrowserOwnership → Bool
is_mcp mcp = true
is_mcp user = false

pub record BrowserTab : Type 0 where
  pub tab_id : String
  pub task_id : Option String
  pub lifecycle : Option BrowserTabLifecycle
  pub ownership : BrowserOwnership
  pub purpose : String
  pub reusable : Bool
  pub protected : Bool
  pub sticky : Bool
  pub created_at : ℕ
  pub last_used_at : ℕ
  pub url : Option String
  pub requested_url : Option String
  pub title : Option String
  pub locked_url : Option String

pub record RegisterMcpTabInput : Type 0 where
  pub tab_id : Option String
  pub task_id : Option String
  pub lifecycle : Option BrowserTabLifecycle
  pub purpose : Option String
  pub reusable : Option Bool
  pub protected : Option Bool
  pub sticky : Option Bool
  pub url : Option String
  pub requested_url : Option String
  pub title : Option String
  pub locked_url : Option String

-- The map from tab ids to tabs is the registry's one field.
abbrev pub TabRegistry : Type 0
TabRegistry = Assoc BrowserTab

-- The first of two optional values that is present.
abbrev pub first {ℓ} : {A : Type ℓ} → Option A → Option A → Option A
first none b = b
first (some a) b = some a

pub ownership_of : String → TabRegistry → BrowserOwnership
ownership_of tab_id r = elim (get tab_id r) [ none ↦ user | some tab ↦ tab.ownership ]

pub list : TabRegistry → List BrowserTab
list r = values r

-- `uuid` is the text that `randomUUID()` returns.
pub register_mcp : RegisterMcpTabInput → String → ℕ → TabRegistry → TabRegistry × BrowserTab
register_mcp input uuid now r =
    let sticky = input.sticky or_else false in
    let tab : BrowserTab = record {
      tab_id = input.tab_id or_else uuid;
      task_id = input.task_id;
      lifecycle = some (input.lifecycle or_else task_scoped);
      ownership = mcp;
      purpose = input.purpose or_else "generic-research";
      reusable = if sticky then false else input.reusable or_else true;
      protected = if sticky then true else input.protected or_else false;
      sticky = sticky;
      created_at = now;
      last_used_at = now;
      url = input.url;
      requested_url = input.requested_url;
      title = input.title;
      locked_url = input.locked_url;
    } in
    (put tab.tab_id tab r, tab)

pub assert_mcp_owned : String → M TabRegistry BrowserTab
assert_mcp_owned tab_id r = elim (get tab_id r) [
  | none ↦ (r, throw tab_not_owned)
  | some tab ↦ if is_mcp tab.ownership then (r, ok tab) else (r, throw tab_not_owned)
]

-- The URL to which a tab is locked when it is reconfigured as sticky.
abbrev pub lock_of : RegisterMcpTabInput → BrowserTab → Option String
lock_of input current = first input.locked_url (
    first current.locked_url
      (first input.requested_url (first input.url (first current.requested_url current.url))))

pub reconfigured : RegisterMcpTabInput → ℕ → BrowserTab → BrowserTab
reconfigured input now current =
    let sticky = input.sticky or_else current.sticky in
    record current {
      task_id = first input.task_id current.task_id;
      lifecycle = some (input.lifecycle or_else (current.lifecycle or_else task_scoped));
      purpose = input.purpose or_else current.purpose;
      reusable = if sticky then false else input.reusable or_else current.reusable;
      protected = if sticky then true else input.protected or_else current.protected;
      sticky = sticky;
      last_used_at = now;
      url = first input.url current.url;
      requested_url = first input.requested_url current.requested_url;
      title = first input.title current.title;
      locked_url = if sticky then lock_of input current else none;
    }

-- `this.tabs.set(tabId, updated)`, and a clone of it.
pub set_tab : String → BrowserTab → M TabRegistry BrowserTab
set_tab tab_id tab r = (put tab_id tab r, ok tab)

pub reconfigure_mcp : String → RegisterMcpTabInput → ℕ → M TabRegistry BrowserTab
unfolding assert_mcp_owned reconfigured set_tab
reconfigure_mcp tab_id input now = do
  current ← assert_mcp_owned tab_id
  set_tab tab_id (reconfigured input now current)

pub register_user :
    String → Option String → Option String → ℕ → TabRegistry → TabRegistry × BrowserTab
register_user tab_id url title now r =
    let tab : BrowserTab = record {
      tab_id = tab_id;
      task_id = none;
      lifecycle = some external;
      ownership = user;
      purpose = "user-existing";
      reusable = false;
      protected = true;
      sticky = false;
      created_at = now;
      last_used_at = now;
      url = url;
      requested_url = none;
      title = title;
      locked_url = none;
    } in
    (put tab_id tab r, tab)

-- The test of `assertNavigable` on two optional texts, of which the empty one counts as absent.
abbrev pub leaves : Option String → Option String → Bool
leaves none locked = false
leaves (some target) none = false
leaves (some target) (some locked) = not (str_eq target locked)

pub check_navigable : Option String → BrowserTab → M TabRegistry BrowserTab
check_navigable target_url tab r =
    if tab.sticky && leaves (truthy target_url) (truthy tab.locked_url)
    then (r, throw navigation_blocked)
    else (r, ok tab)

pub assert_navigable : String → Option String → M TabRegistry BrowserTab
unfolding assert_mcp_owned check_navigable
assert_navigable tab_id target_url = do
  tab ← assert_mcp_owned tab_id
  check_navigable target_url tab

pub check_closable : BrowserTab → M TabRegistry BrowserTab
check_closable tab r = if tab.protected || tab.sticky then (r, throw tab_protected) else (r, ok tab)

pub assert_closable : String → M TabRegistry BrowserTab
unfolding assert_mcp_owned check_closable
assert_closable tab_id = do tab ← assert_mcp_owned tab_id; check_closable tab

pub touch : String → Option String → Option String → ℕ → M TabRegistry BrowserTab
unfolding assert_mcp_owned set_tab
touch tab_id url title now = do
  current ← assert_mcp_owned tab_id
  set_tab tab_id (record current {
    url = first url current.url;
    title = first title current.title;
    last_used_at = now;
  })

pub discard : String → TabRegistry → TabRegistry
discard tab_id r = delete tab_id r

pub remove : String → M TabRegistry (Unit {0})
unfolding assert_closable discard
remove tab_id = do _ ← assert_closable tab_id; λ r. (discard tab_id r, ok tt)
