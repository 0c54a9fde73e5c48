-- ===== src/Browser/Idempotency.antt =====
-- services/browser-worker/services/browser-idempotency-registry.ts: one run for each idempotency key.
-- A promise is a number that stands for it. `run` is called at one time; the operation of an entry
-- runs later and settles by `settle`, the two callbacks of `then`, at a time of its own.
pub mod Once
mod Tests
use mcp_access_stack_legacy.Prelude.{
  ℕ, suc, ◌+◌, ◌*◌, String, Bool, true, false, ◌&&◌, not, List, [], ◌∷◌, ◌++◌, Option, none, some,
  if◌then◌else◌, str_eq, leb, ltb, truthy, length, filter, ◌==◌, replicate,
}
use mcp_access_stack_legacy.Prelude.Assoc.{Assoc, get, put, retain, values, size}
use mcp_access_stack_legacy.Core.Errors.{
  idempotency_key_conflict, limit_exceeded, Result, ok, throw, M, ◌>>=◌, ◌>>◌,
}

-- `expires_at` is `none` for `Number.POSITIVE_INFINITY`.
pub record IdempotencyEntry : Type 0 where
  pub fingerprint : String
  pub expires_at : Option ℕ
  pub settled : Bool
  pub value : ℕ

pub data BrowserIdempotencyDisposition : Type 0 where
  hit miss conflict capacity expiration : BrowserIdempotencyDisposition

abbrev pub default_ttl_ms : ℕ
default_ttl_ms = 5 * 60 * 1000

abbrev pub default_max_entries : ℕ
default_max_entries = 4096

-- `observed` lists the calls of `onDisposition`, the last one first.
pub record BrowserIdempotencyRegistry : Type 0 where
  pub entries : Assoc IdempotencyEntry
  pub ttl_ms : ℕ
  pub max_entries : ℕ
  pub hits : ℕ
  pub misses : ℕ
  pub conflicts : ℕ
  pub evictions : ℕ
  pub expirations : ℕ
  pub observed : List BrowserIdempotencyDisposition

-- What `run` hands back: the promise of a call that bypasses the registry, that of an entry that was
-- there, or that of a new entry, whose operation is then started.
pub data Outcome : Type 0 where
  direct joined started : ℕ → Outcome

pub observe :
    BrowserIdempotencyDisposition → BrowserIdempotencyRegistry → BrowserIdempotencyRegistry
observe disposition r = record r { observed = disposition ∷ r.observed }

pub is_expired : ℕ → IdempotencyEntry → Bool
is_expired now entry = elim entry.expires_at [ none ↦ false | some t ↦ entry.settled && leb t now ]

pub prune : ℕ → BrowserIdempotencyRegistry → BrowserIdempotencyRegistry
unfolding is_expired retain filter values
prune now r =
    let gone = length (filter (is_expired now) (values r.entries)) in
    record r {
      entries = retain (λ e. not (is_expired now e)) r.entries;
      expirations = r.expirations + gone;
      observed = replicate gone expiration ++ r.observed;
    }

pub ensure_capacity : M BrowserIdempotencyRegistry (Unit {0})
unfolding observe
ensure_capacity r =
    if ltb (size r.entries) r.max_entries
    then (r, ok tt)
    else (observe capacity r, throw limit_exceeded)

-- The entry that `run` makes for an operation with this promise.
pub new_entry : String → ℕ → IdempotencyEntry
new_entry fingerprint promise = record {
  fingerprint = fingerprint;
  expires_at = none;
  settled = false;
  value = promise;
}

-- The rest of `run` once there is room: the miss is counted and the entry is stored.
pub insert_entry : String → String → ℕ → M BrowserIdempotencyRegistry Outcome
unfolding observe new_entry
insert_entry key fingerprint promise r =
    let r' = observe miss (record r { misses = r.misses + 1 }) in
    (
      record r' { entries = put key (new_entry fingerprint promise) r'.entries },
      ok (started promise),
    )

pub start : String → String → ℕ → M BrowserIdempotencyRegistry Outcome
unfolding ensure_capacity insert_entry
start key fingerprint promise = do ensure_capacity; insert_entry key fingerprint promise

pub join :
    IdempotencyEntry
    → String
    → BrowserIdempotencyRegistry
    → BrowserIdempotencyRegistry × Result Outcome
unfolding observe
join existing fingerprint r =
    if not (str_eq existing.fingerprint fingerprint)
    then (
      observe conflict (record r { conflicts = r.conflicts + 1 }),
      throw idempotency_key_conflict,
    )
    else (observe hit (record r { hits = r.hits + 1 }), ok (joined existing.value))

-- `promise` is the promise of the call's operation, if the call starts it.
pub run :
    Option String
    → String
    → ℕ
    → ℕ
    → BrowserIdempotencyRegistry
    → BrowserIdempotencyRegistry × Result Outcome
unfolding prune start join
run key fingerprint promise now r = elim (truthy key) [
  | none ↦ (r, ok (direct promise))
  | some k ↦
      let r' = prune now r in
      elim (get k r'.entries) [
        | none ↦ start k fingerprint promise r'
        | some existing ↦ join existing fingerprint r'
      ]
]

-- The operation of the entry of `key` with this promise fulfils or rejects.
pub settle : String → ℕ → ℕ → BrowserIdempotencyRegistry → BrowserIdempotencyRegistry
settle key promise now r = elim (get key r.entries) [
  | none ↦ r
  | some entry ↦
      if entry.value == promise
      then record r {
        entries =
            put key (record entry { settled = true; expires_at = some (now + r.ttl_ms) }) r.entries;
      }
      else r
]

pub record BrowserIdempotencyMetrics : Type 0 where
  pub entries : ℕ
  pub hits : ℕ
  pub misses : ℕ
  pub conflicts : ℕ
  pub evictions : ℕ
  pub expirations : ℕ

pub snapshot :
    ℕ → BrowserIdempotencyRegistry → BrowserIdempotencyRegistry × BrowserIdempotencyMetrics
unfolding prune
snapshot now r =
    let r' = prune now r in
    (
      r',
      record {
        entries = size r'.entries;
        hits = r'.hits;
        misses = r'.misses;
        conflicts = r'.conflicts;
        evictions = r'.evictions;
        expirations = r'.expirations;
      },
    )
