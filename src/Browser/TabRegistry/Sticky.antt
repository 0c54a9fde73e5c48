-- ===== src/Browser/TabRegistry/Sticky.antt =====
-- What the tab registry protects: tabs of the user, protected tabs and tabs locked to a URL.
use mcp_access_stack_legacy.Prelude.{
  ℕ, String, true, false, ◌||◌, Option, some, if◌then◌else◌, str_eq, ◌or_else◌, ◌≡◌, ◌≢◌, ◌⊎◌, inl,
  inr, arith, eq_iff, Option-cases, Bool-cases,
}
use mcp_access_stack_legacy.Prelude.Assoc.{get, put, delete, get-put, get-delete}
use mcp_access_stack_legacy.Core.Errors.{
  tab_not_owned, navigation_blocked, tab_protected, ok, throw,
}
use mcp_access_stack_legacy.Browser.TabRegistry.{
  mcp, BrowserTab, RegisterMcpTabInput, TabRegistry, register_mcp, register_user, reconfigure_mcp,
  reconfigured, lock_of, assert_navigable, touch, discard, remove, first, is_mcp,
}

-- A sticky tab is protected and is not handed out for reuse.
pub record IsGuarded (tab : BrowserTab) : Type 0 where
  pub sticky_protected : tab.sticky ≡ true → tab.protected ≡ true
  pub sticky_not_reusable : tab.sticky ≡ true → tab.reusable ≡ false

abbrev pub AllGuarded : TabRegistry → Type 0
AllGuarded r = (id : String) (tab : BrowserTab) → get id r ≡ some tab → IsGuarded tab

put-AllGuarded :
    (r : TabRegistry) (id : String) (tab : BrowserTab)
    → AllGuarded r
    → IsGuarded tab
    → AllGuarded (put id tab r)
put-AllGuarded r id tab all g j t e = ground (arith, get-put j id tab r, all j t, g)

delete-AllGuarded : (r : TabRegistry) (id : String) → AllGuarded r → AllGuarded (delete id r)
delete-AllGuarded r id all j t e = ground (arith, get-delete j id r, all j t)

module _ (r : TabRegistry) (id : String) (all : AllGuarded r) where
  reconfigure_mcp-AllGuarded :
      (input : RegisterMcpTabInput) (now : ℕ) → AllGuarded (reconfigure_mcp id input now r).0
  unfolding reconfigure_mcp
  reconfigure_mcp-AllGuarded input now j t e = elim (Option-cases (get id r)) [
    | inl missing ↦ ground (arith, all j t)
    | inr (tab, found) ↦ ground (arith, all j t, get-put j id (reconfigured input now tab) r)
  ]

  touch-AllGuarded : (url title : Option String) (now : ℕ) → AllGuarded (touch id url title now r).0
  unfolding touch
  touch-AllGuarded url title now j t e = elim (Option-cases (get id r)) [
    | inl missing ↦ ground (arith, all j t)
    | inr (tab, found) ↦ ground (
      arith,
      all j t,
      all id tab found,
      get-put j id
          (record tab {
            url = first url tab.url;
            title = first title tab.title;
            last_used_at = now;
          })
          r,
    )
  ]

  remove-AllGuarded : AllGuarded (remove id r).0
  unfolding remove
  remove-AllGuarded j t e = elim (Option-cases (get id r)) [
    | inl missing ↦ ground (arith, all j t)
    | inr (tab, found) ↦ ground (arith, all j t, get-delete j id r)
  ]

-- Registering, reconfiguring, touching, discarding and removing tabs keep every sticky tab protected
-- and out of reuse, whether the call returns or throws.
pub operations-AllGuarded :
    (r : TabRegistry) (id uuid : String) (input : RegisterMcpTabInput) (url title : Option String)
    (now : ℕ)
    → AllGuarded r
    → AllGuarded (register_mcp input uuid now r).0
      × AllGuarded (register_user id url title now r).0
      × AllGuarded (reconfigure_mcp id input now r).0
      × AllGuarded (touch id url title now r).0
      × AllGuarded (discard id r)
      × AllGuarded (remove id r).0
unfolding register_mcp register_user discard
operations-AllGuarded r id uuid input url title now all = (
  put-AllGuarded r _ _ all (ground arith),
  put-AllGuarded r _ _ all (ground arith),
  reconfigure_mcp-AllGuarded r id all input now,
  touch-AllGuarded r id all url title now,
  delete-AllGuarded r id all,
  remove-AllGuarded r id all,
)

remove_found :
    (id : String) (r : TabRegistry) (tab : BrowserTab)
    → get id r ≡ some tab
    → ((tab : BrowserTab) × (get id r ≡ some tab)
        × (tab.ownership ≡ mcp)
        × (tab.protected ≡ false)
        × (tab.sticky ≡ false)
        × (remove id r ≡ (delete id r, ok tt)))
      ⊎ ((remove id r ≡ (r, throw tab_not_owned)) ⊎ (remove id r ≡ (r, throw tab_protected)))
unfolding remove
remove_found id r tab found = elim (Bool-cases (is_mcp tab.ownership)) [
  | inr foreign ↦ inr (inl (ground arith))
  | inl own ↦ elim (Bool-cases (tab.protected || tab.sticky)) [
    | inl kept ↦ inr (inr (ground arith))
    | inr free ↦ inl (tab, found, ground arith, ground arith, ground arith, ground arith)
  ]
]

-- `remove` deletes the tab exactly when it is a tab of the MCP that is neither protected nor sticky.
-- Otherwise it throws TAB_NOT_OWNED or TAB_PROTECTED and the registry is as before.
pub remove_cases :
    (id : String) (r : TabRegistry)
    → ((tab : BrowserTab) × (get id r ≡ some tab)
        × (tab.ownership ≡ mcp)
        × (tab.protected ≡ false)
        × (tab.sticky ≡ false)
        × (remove id r ≡ (delete id r, ok tt)))
      ⊎ ((remove id r ≡ (r, throw tab_not_owned)) ⊎ (remove id r ≡ (r, throw tab_protected)))
unfolding remove
remove_cases id r = elim (Option-cases (get id r)) [
  | inl missing ↦ inr (inl (ground arith))
  | inr (tab, found) ↦ remove_found id r tab found
]

-- A tab that was made sticky with a URL to lock it to can then be navigated to that URL only.
pub reconfigure_mcp-assert_navigable :
    (id lock target : String) (input : RegisterMcpTabInput) (now : ℕ) (r : TabRegistry)
    (tab : BrowserTab)
    → get id r ≡ some tab
    → tab.ownership ≡ mcp
    → (input.sticky or_else tab.sticky) ≡ true
    → lock_of input tab ≡ some lock
    → lock ≢ ""
    → target ≢ ""
    → (assert_navigable id (some target) (reconfigure_mcp id input now r).0).1
      ≡ (if str_eq target lock then ok (reconfigured input now tab) else throw navigation_blocked)
unfolding assert_navigable reconfigure_mcp
reconfigure_mcp-assert_navigable id lock target input now r tab found own sticky locked nl nt =
    ground (
      arith,
      get-put id id (reconfigured input now tab) r,
      eq_iff id id,
      eq_iff lock "",
      eq_iff target "",
    )
