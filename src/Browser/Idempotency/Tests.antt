-- ===== src/Browser/Idempotency/Tests.antt =====
-- Runs of the idempotency registry, and its theorems at concrete inputs.
use mcp_access_stack_legacy.Prelude.{
  true, ◌+◌, String, [], none, some, ◌≡◌, refl, ◌≢◌, arith, eq_iff, leb, str_eq, if◌then◌else◌,
  filter,
}
use mcp_access_stack_legacy.Prelude.Assoc.{get, put, retain, values}
use mcp_access_stack_legacy.Core.Errors.{idempotency_key_conflict, ok, throw}
use mcp_access_stack_legacy.Browser.Idempotency.{
  BrowserIdempotencyRegistry, joined, new_entry, prune, run, settle, snapshot,
}
use mcp_access_stack_legacy.Browser.Idempotency.Once.{
  IsBounded, IsHeld, operations-IsBounded, run-IsHeld, run_started, settle_expiry,
}

abbrev empty_registry : BrowserIdempotencyRegistry
empty_registry = record {
  entries = [];
  ttl_ms = 300_000;
  max_entries = 1;
  hits = 0;
  misses = 0;
  conflicts = 0;
  evictions = 0;
  expirations = 0;
  observed = [];
}

abbrev one_entry : BrowserIdempotencyRegistry
one_entry = (run (some "k") "f" 7 1_000 empty_registry).0

operations-IsBounded_example :
    IsBounded (run (some "k") "f" 7 1_000 empty_registry).0
    × IsBounded (settle "k" 7 1_000 empty_registry)
    × IsBounded (snapshot 1_000 empty_registry).0
operations-IsBounded_example =
    operations-IsBounded (some "k") "k" "f" 7 1_000 empty_registry (ground arith)

filled : ◌≢◌ {A = String} "k" ""
filled e = ground (arith, e, eq_iff "k" "")

one_entry-IsHeld : IsHeld "k" (new_entry "f" 7) 2_000 one_entry
unfolding run get put retain values filter
one_entry-IsHeld = run_started "k" "f" 7 1_000 2_000 empty_registry filled refl

run-IsHeld_example :
    let (r', outcome) = run (some "k") "g" 8 2_000 one_entry in
    (outcome ≡ (
      if str_eq (new_entry "f" 7).fingerprint "g"
      then ok (joined (new_entry "f" 7).value)
      else throw idempotency_key_conflict))
    × (r'.hits
        ≡ (if str_eq (new_entry "f" 7).fingerprint "g" then one_entry.hits + 1 else one_entry.hits))
    × (r'.conflicts ≡ (
        if str_eq (new_entry "f" 7).fingerprint "g"
        then one_entry.conflicts
        else one_entry.conflicts + 1))
    × (r'.misses ≡ one_entry.misses)
    × IsHeld "k" (new_entry "f" 7) 2_000 r'
run-IsHeld_example = run-IsHeld "k" "g" (new_entry "f" 7) 8 2_000 one_entry one_entry-IsHeld

settle_expiry_example : get "k" (prune 400_000 (settle "k" 7 5_000 one_entry)).entries ≡ (
    if leb (5_000 + one_entry.ttl_ms) 400_000
    then none
    else some (record {
      fingerprint = "f";
      expires_at = some (5_000 + one_entry.ttl_ms);
      settled = true;
      value = 7;
    }))
settle_expiry_example = settle_expiry "k" "f" 7 5_000 400_000 one_entry one_entry-IsHeld.stored
