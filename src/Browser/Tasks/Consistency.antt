-- ===== src/Browser/Tasks/Consistency.antt =====
-- The invariant of the browser worker's task registry: its two maps agree on who owns a tab.
use mcp_access_stack_legacy.Prelude.{
  String, true, false, ◌||◌, List, [], ◌∷◌, none, some, if◌then◌else◌, str_eq, includes, without,
  includes-append, includes-without, ◌≡◌, refl, ap, ◌≢◌, inl, inr, arith, eq_iff, Bool-cases,
}
use mcp_access_stack_legacy.Prelude.Assoc.{Assoc, get, put, delete, get-put, get-delete}
use mcp_access_stack_legacy.Prelude.Unique.{Unique, put-Unique}
use mcp_access_stack_legacy.Browser.Tasks.{BrowserTask, BrowserTaskRegistry, store}
use mcp_access_stack_legacy.Browser.Tasks.Tabs.{add_tab}
use mcp_access_stack_legacy.Browser.Tasks.Lifecycle.{unindex}

pub record IsConsistent (r : BrowserTaskRegistry) : Type 0 where
  -- A task is stored under its own id, which is not empty.
  pub keyed : (id : String) (t : BrowserTask) → get id r.tasks ≡ some t → t.task_id ≡ id
  pub named : get "" r.tasks ≡ none
  -- No id is stored twice.
  pub unique : Unique r.tasks
  -- A tab is indexed under a task exactly when that task lists it; so no two tasks list one tab.
  pub indexed :
      (tab id : String)
      → get tab r.task_by_tab ≡ some id
      → (t : BrowserTask) × (get id r.tasks ≡ some t) × (includes t.tab_ids tab ≡ true)
  pub owned :
      (tab id : String) (t : BrowserTask)
      → get id r.tasks ≡ some t
      → includes t.tab_ids tab ≡ true
      → get tab r.task_by_tab ≡ some id

-- A task is stored under an id.
abbrev HasTask : BrowserTaskRegistry → String → BrowserTask → Type 0
HasTask r id t = get id r.tasks ≡ some t

task_id-add_tab :
    (tab_id : String) (task : BrowserTask) → (add_tab tab_id task).task_id ≡ task.task_id
unfolding add_tab
task_id-add_tab tab_id task = refl

includes-add_tab :
    (tab_id tab : String) (task : BrowserTask)
    → includes (add_tab tab_id task).tab_ids tab ≡ (str_eq tab_id tab || includes task.tab_ids tab)
unfolding add_tab
includes-add_tab tab_id tab task = ground (
  arith,
  eq_iff tab_id tab,
  includes-append task.tab_ids (tab_id ∷ []) tab,
  includes_one,
  ap_includes,
)
  where
    includes_one : includes (tab_id ∷ []) tab ≡ (str_eq tab_id tab || false)
    includes_one = unfold includes in refl

    ap_includes : tab_id ≡ tab → includes task.tab_ids tab_id ≡ includes task.tab_ids tab
    ap_includes e = ap (includes task.tab_ids) e

includes-nil : (tab : String) → includes [] tab ≡ false
unfolding includes
includes-nil tab = refl

get-unindex :
    (tab : String) (tabs : List String) (index : Assoc String)
    → get tab (unindex tabs index) ≡ (if includes tabs tab then none else get tab index)
unfolding unindex includes
get-unindex tab [] index = refl
get-unindex tab (x ∷ xs) index =
    ground (arith, get-unindex tab xs (delete x index), get-delete tab x index, eq_iff x tab)

module _ (r : BrowserTaskRegistry) (c : IsConsistent r) (id : String) (task : BrowserTask)
    (found : HasTask r id task) where
  filled : id ≢ ""
  filled e = ground (arith, c.named)

  -- A change in place of a task that keeps its id and its tabs.
  pub store-IsConsistent :
      (task' : BrowserTask)
      → task'.task_id ≡ task.task_id
      → task'.tab_ids ≡ task.tab_ids
      → IsConsistent (store id task' r)
  unfolding store
  store-IsConsistent task' same_id same_tabs = record {
    keyed = λ j t e.
        ground (arith, get-put j id task' r.tasks, eq_iff id j, c.keyed j t, c.keyed id task);
    named = ground (arith, get-put "" id task' r.tasks, eq_iff id "", c.named);
    unique = put-Unique id task' r.tasks c.unique;
    indexed = λ tab j e.
        (let (t, ft, inc) = c.indexed tab j e in
          elim (Bool-cases (str_eq id j)) [
            | inl same ↦
                (task', ground (arith, get-put j id task' r.tasks), ground (arith, eq_iff id j))
            | inr other ↦ (t, ground (arith, get-put j id task' r.tasks), inc)
          ]);
    owned = λ tab j t e inc.
        ground
          (arith, get-put j id task' r.tasks, eq_iff id j, c.owned tab j t, c.owned tab id task);
  }

  -- A tab that no other task owns is added to a task.
  pub attach-IsConsistent :
      (tab_id : String)
      → ((other : String) → get tab_id r.task_by_tab ≡ some other → other ≡ id)
      → IsConsistent (record r {
        tasks = put id (add_tab tab_id task) r.tasks;
        task_by_tab = put tab_id id r.task_by_tab;
      })
  attach-IsConsistent tab_id free = record {
    keyed = λ j t e. ground (
      arith,
      get-put j id (add_tab tab_id task) r.tasks,
      eq_iff id j,
      c.keyed j t,
      c.keyed id task,
      task_id-add_tab tab_id task,
    );
    named = ground (arith, get-put "" id (add_tab tab_id task) r.tasks, eq_iff id "", c.named);
    unique = put-Unique id (add_tab tab_id task) r.tasks c.unique;
    indexed = λ tab j e. elim (Bool-cases (str_eq tab_id tab)) [
      | inl this ↦ (
        add_tab tab_id task,
        ground (arith, get-put j id (add_tab tab_id task) r.tasks, index tab, eq_iff id j),
        ground (arith, includes-add_tab tab_id tab task),
      )
      | inr that ↦
          (let (t, ft, inc) = c.indexed tab j (ground (arith, index tab)) in
            elim (Bool-cases (str_eq id j)) [
              | inl same ↦ (
                add_tab tab_id task,
                ground (arith, get-put j id (add_tab tab_id task) r.tasks),
                ground (arith, includes-add_tab tab_id tab task, eq_iff id j),
              )
              | inr other ↦ (t, ground (arith, get-put j id (add_tab tab_id task) r.tasks), inc)
            ])
    ];
    owned = λ tab j t e inc. ground (
      arith,
      get-put j id (add_tab tab_id task) r.tasks,
      get-put tab tab_id id r.task_by_tab,
      eq_iff id j,
      eq_iff tab_id tab,
      c.owned tab j t,
      c.owned tab id task,
      free j,
      includes-add_tab tab_id tab task,
    );
  }
    where
      index :
          (tab : String)
          → get tab (put tab_id id r.task_by_tab)
            ≡ (if str_eq tab_id tab then some id else get tab r.task_by_tab)
      index tab = get-put tab tab_id id r.task_by_tab

  -- A tab is taken from a task, and the index forgets it.
  pub detach-IsConsistent :
      (tab_id : String) (task' : BrowserTask)
      → task'.task_id ≡ task.task_id
      → task'.tab_ids ≡ without task.tab_ids tab_id
      → get tab_id r.task_by_tab ≡ some id
      → IsConsistent
          (record r { tasks = put id task' r.tasks; task_by_tab = delete tab_id r.task_by_tab })
  detach-IsConsistent tab_id task' same_id tabs' mine = record {
    keyed = λ j t e.
        ground (arith, get-put j id task' r.tasks, eq_iff id j, c.keyed j t, c.keyed id task);
    named = ground (arith, get-put "" id task' r.tasks, eq_iff id "", c.named);
    unique = put-Unique id task' r.tasks c.unique;
    indexed = λ tab j e.
        (let (t, ft, inc) = c.indexed tab j (ground (arith, get-delete tab tab_id r.task_by_tab)) in
          elim (Bool-cases (str_eq id j)) [
            | inl same ↦ (
              task',
              ground (arith, get-put j id task' r.tasks),
              ground (
                arith,
                includes-without task.tab_ids tab_id tab,
                eq_iff id j,
                get-delete tab tab_id r.task_by_tab,
              ),
            )
            | inr other ↦ (t, ground (arith, get-put j id task' r.tasks), inc)
          ]);
    owned = λ tab j t e inc. ground (
      arith,
      get-put j id task' r.tasks,
      get-delete tab tab_id r.task_by_tab,
      eq_iff id j,
      eq_iff tab_id tab,
      c.owned tab j t,
      c.owned tab id task,
      includes-without task.tab_ids tab_id tab,
    );
  }

  -- A task gives up all of its tabs, and the index forgets them.
  pub unindex-IsConsistent :
      (task' : BrowserTask)
      → task'.task_id ≡ task.task_id
      → task'.tab_ids ≡ []
      → IsConsistent (record r {
        tasks = put id task' r.tasks;
        task_by_tab = unindex task.tab_ids r.task_by_tab;
      })
  unindex-IsConsistent task' same_id no_tabs = record {
    keyed = λ j t e.
        ground (arith, get-put j id task' r.tasks, eq_iff id j, c.keyed j t, c.keyed id task);
    named = ground (arith, get-put "" id task' r.tasks, eq_iff id "", c.named);
    unique = put-Unique id task' r.tasks c.unique;
    indexed = λ tab j e.
        (let (t, ft, inc) =
            c.indexed tab j (ground (arith, get-unindex tab task.tab_ids r.task_by_tab)) in
          elim (Bool-cases (str_eq id j)) [
            | inl same ↦
                absurd (ground (arith, get-unindex tab task.tab_ids r.task_by_tab, eq_iff id j))
            | inr other ↦ (t, ground (arith, get-put j id task' r.tasks), inc)
          ]);
    owned = λ tab j t e inc. ground (
      arith,
      get-put j id task' r.tasks,
      get-unindex tab task.tab_ids r.task_by_tab,
      eq_iff id j,
      c.owned tab j t,
      c.owned tab id task,
      no_tabs,
      includes-nil tab,
    );
  }

-- A task with no tabs is stored under a fresh id.
pub insert-IsConsistent :
    (r : BrowserTaskRegistry) (task : BrowserTask)
    → IsConsistent r
    → task.task_id ≢ ""
    → get task.task_id r.tasks ≡ none
    → task.tab_ids ≡ []
    → IsConsistent (store task.task_id task r)
unfolding store
insert-IsConsistent r task c filled fresh no_tabs = record {
  keyed = λ j t e. ground (arith, at j, eq_iff task.task_id j, c.keyed j t);
  named = ground (arith, at "", eq_iff task.task_id "", c.named);
  unique = put-Unique task.task_id task r.tasks c.unique;
  indexed = λ tab j e.
      (let (t, ft, inc) = c.indexed tab j e in
        (t, ground (arith, at j, eq_iff task.task_id j), inc));
  owned = λ tab j t e inc.
      ground (arith, at j, eq_iff task.task_id j, c.owned tab j t, includes-nil tab);
}
  where
    at :
        (j : String)
        → get j (put task.task_id task r.tasks)
          ≡ (if str_eq task.task_id j then some task else get j r.tasks)
    at j = get-put j task.task_id task r.tasks
