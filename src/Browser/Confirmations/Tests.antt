-- ===== src/Browser/Confirmations/Tests.antt =====
-- Runs of the confirmation registry, and its theorems at concrete inputs.
use mcp_access_stack_legacy.Prelude.{◌+◌, [], ◌≡◌, refl, ◌≢◌, ◌↔◌, arith, leb, if◌then◌else◌}
use mcp_access_stack_legacy.Prelude.Assoc.{get, put, retain, delete}
use mcp_access_stack_legacy.Core.Errors.{browser_confirmation_invalid, ok, throw}
use mcp_access_stack_legacy.Browser.Confirmations.{
  BrowserConfirmationBinding, submit_form, purchase_or_payment, BrowserConfirmationRegistry, create,
  consume,
}
use mcp_access_stack_legacy.Browser.Confirmations.OneShot.{
  IsValidFor, consume_iff, consume_once, create-consume,
}

abbrev purchase : BrowserConfirmationBinding
purchase = record {
  tab_id = "t1";
  origin = "https://shop.test";
  url = "https://shop.test/cart";
  category = purchase_or_payment;
  action = "click";
  target = "buy";
}

abbrev form : BrowserConfirmationBinding
form = record purchase { category = submit_form }

abbrev nothing : BrowserConfirmationRegistry
nothing = record { pending = []; ttl_ms = 600_000 }

abbrev asked : BrowserConfirmationRegistry
asked = (create purchase "c1" 1_000 1_000 nothing).0

asked-IsValidFor : IsValidFor "c1" purchase 2_000 2_001 asked
unfolding create get put retain
asked-IsValidFor = record {
  confirmation = record { binding = purchase; expires_at_ms = 601_000 };
  stored = refl;
  same_action = refl;
  not_expired = ground arith;
  still_valid = ground arith;
}

consume_iff_example :
    ((consume "c1" purchase 2_000 2_001 asked).1 ≡ ok tt)
    ↔ IsValidFor "c1" purchase 2_000 2_001 asked
consume_iff_example = consume_iff "c1" purchase 2_000 2_001 asked

consume_once_example :
    (consume "c1" form 3_000 3_001 (consume "c1" purchase 2_000 2_001 asked).0).1
    ≡ throw browser_confirmation_invalid
unfolding consume create get put retain delete
consume_once_example = consume_once "c1" purchase form 2_000 2_001 3_000 3_001 asked refl

different : purchase ≢ form
different e = ground (arith, e)

create-consume_example :
    (consume "c1" purchase 601_000 601_000 asked).1
    ≡ (if leb (1_000 + 600_000) 601_000 then throw browser_confirmation_invalid else ok tt)
create-consume_example =
    create-consume "c1" purchase 1_000 1_000 601_000 601_000 nothing (ground arith)
