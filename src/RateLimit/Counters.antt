-- ===== src/RateLimit/Counters.antt =====
-- The invariant of the limiter: bounded dictionaries, whose counters stay below their thresholds.
use lab_gpu_server_monitor.Prelude.{
  ℕ, ◌≤◌, ◌<◌, Bool, not, [], ◌∷◌, ◌++◌, length, length-keep-le, arith, All, All-append, All-keep,
  Text, text_eq,
}
use lab_gpu_server_monitor.Prelude.Table.{
  lookup, erase, IsDict, erase-IsDict, append-IsDict, keep-IsDict, lookup-erase_self,
  length-erase-le,
}
use lab_gpu_server_monitor.Prelude.Table.Eviction.{
  drop_oldest, length-drop_oldest-le, drop_oldest-IsDict,
}
use lab_gpu_server_monitor.RateLimit.{
  Counter, Buckets, Limiter, max_buckets, max_failures_ip, max_failures_pair, stale, hit, bounded,
  counter_or_new, record_one, drop_stale, record_failure, record_success, pair_key, ip_key,
}
use lab_gpu_server_monitor.RateLimit.Window.{hit-bounded}

abbrev pub IsBelow : ℕ → Text × Counter → Type 0
IsBelow threshold b = length b.1.failures < threshold

-- One dictionary: no key twice, not too many buckets, each below the threshold.
pub record IsBounded (threshold : ℕ) (t : Buckets) : Type 0 where
  pub distinct : IsDict t
  pub size : length t ≤ max_buckets
  pub below : All (IsBelow threshold) t

pub record IsValid (l : Limiter) : Type 0 where
  pub ips : IsBounded max_failures_ip l.by_ip
  pub pairs : IsBounded max_failures_pair l.by_pair

bounded-All : (n : ℕ) (t : Buckets) → All (IsBelow n) t → All (IsBelow n) (bounded t)
unfolding drop_oldest
bounded-All n [] h = tt
bounded-All n (b ∷ t) h = ground (arith, bounded-All n t h.1)

erase-All : (n : ℕ) (k : Text) (t : Buckets) → All (IsBelow n) t → All (IsBelow n) (erase k t)
erase-All n k [] h = tt
erase-All n k ((j, c) ∷ t) h = ground (arith, erase-All n k t h.1)

-- The list that `record_one` bounds is still a dictionary.
pub moved-IsDict :
    (k : Text) (c : Counter) (t : Buckets) → IsDict t → IsDict (erase k t ++ (k, c) ∷ [])
moved-IsDict k c t h = append-IsDict k c (erase k t) (lookup-erase_self k t h) (erase-IsDict k t h)

record_one-IsBounded :
    (threshold now : ℕ) (k : Text) (t : Buckets)
    → 0 < threshold
    → IsBounded threshold t
    → IsBounded threshold (record_one threshold now k t)
unfolding record_one
record_one-IsBounded threshold now k t pos h = record {
  distinct = drop_oldest-IsDict max_buckets _ (moved-IsDict k c t h.distinct);
  size = length-drop_oldest-le max_buckets _;
  below = bounded-All threshold _ (
      All-append (IsBelow threshold) (erase k t) ((k, c) ∷ []) (erase-All threshold k t h.below)
        (hit-bounded threshold now (counter_or_new (lookup k t)) pos, tt));
}
  where
    c : Counter
    c = hit threshold now (counter_or_new (lookup k t))

drop_stale-IsBounded : (n now : ℕ) (t : Buckets) → IsBounded n t → IsBounded n (drop_stale now t)
unfolding drop_stale
drop_stale-IsBounded n now t h = record {
  distinct = keep-IsDict fresh t h.distinct;
  size = omega (arith, length-keep-le fresh t, h.size);
  below = All-keep (IsBelow n) fresh t h.below;
}
  where
    fresh : Text × Counter → Bool
    fresh b = not (stale now b.1)

-- A failed login keeps both dictionaries within `MAX_BUCKETS` buckets, without a key twice, and
-- every counter below its threshold.
pub record_failure-IsValid :
    (casefold : Text → Text) (now : ℕ) (ip username : Text) (l : Limiter)
    → IsValid l
    → IsValid (record_failure casefold now ip username l)
unfolding record_failure
record_failure-IsValid casefold now ip username l h = record {
  ips =
      drop_stale-IsBounded _ now _
        (record_one-IsBounded max_failures_ip now (ip_key ip) l.by_ip (omega arith) h.ips);
  pairs = drop_stale-IsBounded _ now _ (
      record_one-IsBounded max_failures_pair now (pair_key casefold ip username) l.by_pair
        (omega arith) h.pairs);
}

-- A successful login keeps both dictionaries within `MAX_BUCKETS` buckets, without a key twice, and
-- every counter below its threshold.
pub record_success-IsValid :
    (casefold : Text → Text) (ip username : Text) (l : Limiter)
    → IsValid l
    → IsValid (record_success casefold ip username l)
unfolding record_success
record_success-IsValid casefold ip username l h = record {
  ips = h.ips;
  pairs = record {
    distinct = erase-IsDict (pair_key casefold ip username) l.by_pair h.pairs.distinct;
    size = omega (arith, length-erase-le (pair_key casefold ip username) l.by_pair, h.pairs.size);
    below = erase-All _ (pair_key casefold ip username) l.by_pair h.pairs.below;
  };
}
