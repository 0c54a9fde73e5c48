-- ===== src/Browser/Idempotency/Once.antt =====
-- An idempotency key starts one operation until its entry expires.
use mcp_access_stack_legacy.Prelude.{
  ℕ, ◌+◌, ◌≤◌, String, true, false, not, Option, none, some, if◌then◌else◌, str_eq, leb, truthy,
  ◌≡◌, refl, ◌≢◌, inl, inr, arith, eq_iff, Option-cases,
}
use mcp_access_stack_legacy.Prelude.Assoc.{get, size, get-put, get-retain, size-put, size-retain-le}
use mcp_access_stack_legacy.Core.Errors.{idempotency_key_conflict, ok, throw}
use mcp_access_stack_legacy.Browser.Idempotency.{
  IdempotencyEntry, BrowserIdempotencyRegistry, joined, started, is_expired, prune, new_entry,
  start, join, run, settle, snapshot,
}

abbrev pub IsBounded : BrowserIdempotencyRegistry → Type 0
IsBounded r = size r.entries ≤ r.max_entries

size-prune-le :
    (now : ℕ) (r : BrowserIdempotencyRegistry) → size (prune now r).entries ≤ size r.entries
unfolding prune
size-prune-le now r = size-retain-le (λ e. not (is_expired now e)) r.entries

prune-max_entries :
    (now : ℕ) (r : BrowserIdempotencyRegistry) → (prune now r).max_entries ≡ r.max_entries
unfolding prune
prune-max_entries now r = refl

start-IsBounded :
    (key fingerprint : String) (promise : ℕ) (r : BrowserIdempotencyRegistry)
    → IsBounded r
    → IsBounded (start key fingerprint promise r).0
unfolding start
start-IsBounded key fingerprint promise r h =
    ground (arith, size-put key (new_entry fingerprint promise) r.entries)

join-IsBounded :
    (e : IdempotencyEntry) (fingerprint : String) (r : BrowserIdempotencyRegistry)
    → IsBounded r
    → IsBounded (join e fingerprint r).0
unfolding join
join-IsBounded e fingerprint r h = ground arith

prune-IsBounded : (now : ℕ) (r : BrowserIdempotencyRegistry) → IsBounded r → IsBounded (prune now r)
prune-IsBounded now r h = omega (arith, size-prune-le now r, prune-max_entries now r)

run-IsBounded :
    (key : Option String) (fingerprint : String) (promise now : ℕ) (r : BrowserIdempotencyRegistry)
    → IsBounded r
    → IsBounded (run key fingerprint promise now r).0
unfolding run
run-IsBounded key fingerprint promise now r h = elim (Option-cases (truthy key)) [
  | inl absent ↦ rw (absent, run) h
  | inr (k, given) ↦
      rw (given, run)
        (elim (Option-cases (get k (prune now r).entries)) [
          | inl missing ↦
              rw (missing, run)
                (start-IsBounded k fingerprint promise (prune now r) (prune-IsBounded now r h))
          | inr (entry, found) ↦
              rw (found, run)
                (join-IsBounded entry fingerprint (prune now r) (prune-IsBounded now r h))
        ])
]

settle-IsBounded :
    (key : String) (promise now : ℕ) (r : BrowserIdempotencyRegistry)
    → IsBounded r
    → IsBounded (settle key promise now r)
unfolding settle
settle-IsBounded key promise now r h = elim (Option-cases (get key r.entries)) [
  | inl missing ↦ rw (missing, settle) h
  | inr (entry, found) ↦ ground (
    arith,
    h,
    size-put key (record entry { settled = true; expires_at = some (now + r.ttl_ms) }) r.entries,
  )
]

-- No call and no settlement takes the registry past its capacity.
pub operations-IsBounded :
    (key : Option String) (k fingerprint : String) (promise now : ℕ)
    (r : BrowserIdempotencyRegistry)
    → IsBounded r
    → IsBounded (run key fingerprint promise now r).0
      × IsBounded (settle k promise now r)
      × IsBounded (snapshot now r).0
unfolding snapshot
operations-IsBounded key k fingerprint promise now r h = (
  run-IsBounded key fingerprint promise now r h,
  settle-IsBounded k promise now r h,
  prune-IsBounded now r h,
)

-- An entry that is in flight, or settled and not yet expired, at a time.
pub record IsHeld (k : String) (entry : IdempotencyEntry) (now : ℕ) (r : BrowserIdempotencyRegistry)
    : Type 0 where
  pub key_filled : k ≢ ""
  pub stored : get k r.entries ≡ some entry
  pub not_expired : is_expired now entry ≡ false

-- While an entry is held, a call with its key never starts an operation: with the same fingerprint
-- it returns the promise of the entry and counts a hit, with another one it throws
-- IDEMPOTENCY_KEY_CONFLICT and counts a conflict. The entry stays held.
pub run-IsHeld :
    (k fingerprint : String) (entry : IdempotencyEntry) (promise now : ℕ)
    (r : BrowserIdempotencyRegistry)
    → IsHeld k entry now r
    → let (r', outcome) = run (some k) fingerprint promise now r in
      (outcome ≡ (
        if str_eq entry.fingerprint fingerprint
        then ok (joined entry.value)
        else throw idempotency_key_conflict))
      × (r'.hits ≡ (if str_eq entry.fingerprint fingerprint then r.hits + 1 else r.hits))
      × (r'.conflicts
          ≡ (if str_eq entry.fingerprint fingerprint then r.conflicts else r.conflicts + 1))
      × (r'.misses ≡ r.misses)
      × IsHeld k entry now r'
unfolding run
run-IsHeld k fingerprint entry promise now r h =
    let kept = get-retain k (λ e. not (is_expired now e)) r.entries in
    let named = eq_iff k "" in
    (
      ground (arith, kept, named, h.key_filled, h.stored, h.not_expired),
      ground (arith, kept, named, h.key_filled, h.stored, h.not_expired),
      ground (arith, kept, named, h.key_filled, h.stored, h.not_expired),
      ground (arith, kept, named, h.key_filled, h.stored, h.not_expired),
      record {
        key_filled = h.key_filled;
        stored = ground (arith, kept, named, h.key_filled, h.stored, h.not_expired);
        not_expired = h.not_expired;
      },
    )

-- After a call that started its operation, the entry of the key is held at every time, until the
-- operation settles.
pub run_started :
    (k fingerprint : String) (promise now later : ℕ) (r : BrowserIdempotencyRegistry)
    → k ≢ ""
    → (run (some k) fingerprint promise now r).1 ≡ ok (started promise)
    → IsHeld k (new_entry fingerprint promise) later (run (some k) fingerprint promise now r).0
unfolding run is_expired
run_started k fingerprint promise now later r filled e = record {
  key_filled = filled;
  stored = ground (
    arith,
    eq_iff k "",
    eq_iff k k,
    get-put k k (new_entry fingerprint promise) (prune now r).entries,
  );
  not_expired = refl;
}

-- After an operation has settled, its entry is held for the time to live and no longer.
pub settle_expiry :
    (k fingerprint : String) (promise settled_at at : ℕ) (r : BrowserIdempotencyRegistry)
    → get k r.entries ≡ some (new_entry fingerprint promise)
    → get k (prune at (settle k promise settled_at r)).entries ≡ (
        if leb (settled_at + r.ttl_ms) at
        then none
        else some (record {
          fingerprint = fingerprint;
          expires_at = some (settled_at + r.ttl_ms);
          settled = true;
          value = promise;
        }))
unfolding settle prune new_entry
settle_expiry k fingerprint promise settled_at at r e =
    let entry : IdempotencyEntry = record (new_entry fingerprint promise) {
      settled = true;
      expires_at = some (settled_at + r.ttl_ms);
    } in
    ground (
      arith,
      eq_iff k k,
      get-put k k entry r.entries,
      get-retain k (λ e. not (is_expired at e)) (settle k promise settled_at r).entries,
    )
