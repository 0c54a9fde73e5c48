-- ===== src/Browser/TabRegistry/Tests.antt =====
-- Runs of the tab registry, and its theorems at concrete inputs.
use mcp_access_stack_legacy.Prelude.{true, [], none, some, arith}
use mcp_access_stack_legacy.Prelude.Assoc.{get}
use mcp_access_stack_legacy.Browser.TabRegistry.{
  BrowserTab, RegisterMcpTabInput, TabRegistry, register_mcp, register_user, reconfigure_mcp, touch,
  discard, remove,
}
use mcp_access_stack_legacy.Browser.TabRegistry.Sticky.{AllGuarded, operations-AllGuarded}

abbrev plain : RegisterMcpTabInput
plain = record {
  tab_id = some "t1";
  task_id = none;
  lifecycle = none;
  purpose = none;
  reusable = none;
  protected = none;
  sticky = none;
  url = some "https://a.test";
  requested_url = none;
  title = none;
  locked_url = none;
}

abbrev sticky_input : RegisterMcpTabInput
sticky_input = record plain { sticky = some true; locked_url = some "https://a.test" }

abbrev empty_registry : TabRegistry
empty_registry = []

abbrev one_tab : TabRegistry
one_tab = (register_mcp plain "u" 1_000 empty_registry).0

abbrev the_tab : BrowserTab
the_tab = (register_mcp plain "u" 1_000 empty_registry).1

empty_registry-AllGuarded : AllGuarded empty_registry
unfolding get
empty_registry-AllGuarded id tab e = ground arith

one_tab-AllGuarded : AllGuarded one_tab
one_tab-AllGuarded =
    (operations-AllGuarded empty_registry "t1" "u" plain none none 1_000
      empty_registry-AllGuarded).0

operations-AllGuarded_example :
    AllGuarded (register_mcp sticky_input "u2" 2_000 one_tab).0
    × AllGuarded (register_user "t1" none none 2_000 one_tab).0
    × AllGuarded (reconfigure_mcp "t1" sticky_input 2_000 one_tab).0
    × AllGuarded (touch "t1" none none 2_000 one_tab).0
    × AllGuarded (discard "t1" one_tab)
    × AllGuarded (remove "t1" one_tab).0
operations-AllGuarded_example =
    operations-AllGuarded one_tab "t1" "u2" sticky_input none none 2_000 one_tab-AllGuarded
