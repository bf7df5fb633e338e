-- ===== src/RateLimit.antt =====
-- The login rate limiter (backend/app/rate_limit.py): `LoginRateLimiter` with its two ordered
-- dictionaries of counters. A method takes the clock's reading as its first argument, in
-- microseconds since the epoch; the lock of the class makes each method one step.
-- `str.casefold` is the argument `casefold`.
pub mod Window
pub mod Counters
pub mod Isolation
pub mod Lockout
mod Tests
use lab_gpu_server_monitor.Prelude.{
  ℕ, ◌+◌, ◌-◌, ◌*◌, ◌/◌, Bool, true, false, not, ◌&&◌, Option, none, some, List, [], ◌∷◌, ◌++◌, ltb,
  leb, if◌then◌else◌, length, keep, Text, codes, text_eq,
}
use lab_gpu_server_monitor.Prelude.Table.{lookup, erase}
use lab_gpu_server_monitor.Prelude.Table.Eviction.{drop_oldest}

abbrev pub second : ℕ
second = 1000000

abbrev pub max_failures_pair : ℕ
max_failures_pair = 5

abbrev pub max_failures_ip : ℕ
max_failures_ip = 20

abbrev pub window : ℕ
window = 600 * second

abbrev pub lock_time : ℕ
lock_time = 600 * second

abbrev pub max_buckets : ℕ
max_buckets = 4096

pub record Counter : Type 0 where
  pub failures : List ℕ
  pub locked_until : ℕ

abbrev pub new_counter : Counter
new_counter = record { failures = []; locked_until = 0 }

abbrev pub Buckets : Type 0
Buckets = List (Text × Counter)

pub record Limiter : Type 0 where
  pub by_ip : Buckets
  pub by_pair : Buckets

abbrev pub new_limiter : Limiter
new_limiter = record { by_ip = []; by_pair = [] }

abbrev pub ip_key : Text → Text
ip_key ip = codes "ip:" ++ ip

-- `f"pair:{ip}\0{username.casefold()}"`
abbrev pub pair_key : (Text → Text) → Text → Text → Text
pair_key casefold ip username = codes "pair:" ++ (ip ++ (0 ∷ casefold username))

-- `now - t < WINDOW_SECONDS`, also where the clock has gone back
abbrev pub in_window : ℕ → ℕ → Bool
in_window now t = ltb (now - t) window

abbrev pub prune : ℕ → Counter → Counter
prune now c = record c { failures = keep (in_window now) c.failures }

abbrev pub stale : ℕ → Counter → Bool
stale now c = elim c.failures [ [] ↦ leb c.locked_until now | _ ∷ _ ↦ false ]

-- the seconds that a bucket's lock has left, if it is locked
unfoldable pub locked_for : ℕ → Option Counter → Option ℕ
locked_for now none = none
locked_for now (some c) =
    if ltb now c.locked_until then some ((c.locked_until - now) / second) else none

unfoldable pub check : (Text → Text) → ℕ → Text → Text → Limiter → Bool × ℕ
check casefold now ip username l = elim (locked_for now (lookup (ip_key ip) l.by_ip)) [
  | some left ↦ (false, left)
  | none ↦ elim (locked_for now (lookup (pair_key casefold ip username) l.by_pair)) [
    | some left ↦ (false, left)
    | none ↦ (true, 0)
  ]
]

-- `_bounded`: the oldest buckets go while there are too many
abbrev pub bounded : Buckets → Buckets
bounded = drop_oldest max_buckets

abbrev pub lock_or_count : ℕ → ℕ → Counter → Counter
lock_or_count threshold now c =
    if leb threshold (length c.failures)
    then record { failures = []; locked_until = now + lock_time }
    else c

-- what a failure does to its counter
unfoldable pub hit : ℕ → ℕ → Counter → Counter
hit threshold now c =
    let c' = prune now c in
    lock_or_count threshold now (record c' { failures = c'.failures ++ now ∷ [] })

abbrev pub counter_or_new : Option Counter → Counter
counter_or_new none = new_counter
counter_or_new (some c) = c

-- one round of the loop: `setdefault`, `move_to_end`, the counter's update, `_bounded`
unfoldable pub record_one : ℕ → ℕ → Text → Buckets → Buckets
record_one threshold now key t =
    bounded (erase key t ++ (key, hit threshold now (counter_or_new (lookup key t))) ∷ [])

unfoldable pub drop_stale : ℕ → Buckets → Buckets
drop_stale now = keep (λ b. not (stale now b.1))

unfoldable pub record_failure : (Text → Text) → ℕ → Text → Text → Limiter → Limiter
record_failure casefold now ip username l =
    let by_ip = record_one max_failures_ip now (ip_key ip) l.by_ip in
    let by_pair = record_one max_failures_pair now (pair_key casefold ip username) l.by_pair in
    record { by_ip = drop_stale now by_ip; by_pair = drop_stale now by_pair }

unfoldable pub record_success : (Text → Text) → Text → Text → Limiter → Limiter
record_success casefold ip username l = record l {
  by_pair = erase (pair_key casefold ip username) l.by_pair;
}

abbrev is_locked : ℕ → Text × Counter → Bool
is_locked now b = ltb now b.1.locked_until

-- `locked_ip_count`, `locked_pair_count`, `tracked_bucket_count`
unfoldable pub status : ℕ → Limiter → ℕ × ℕ × ℕ
status now l = (
  length (keep (is_locked now) l.by_ip),
  length (keep (is_locked now) l.by_pair),
  length l.by_ip + length l.by_pair,
)
