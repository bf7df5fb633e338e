-- ===== src/RateLimit/Lockout.antt =====
-- When a source is locked out: runs of failed logins of one account from one source.
use lab_gpu_server_monitor.Prelude.{
  ℕ, ◌+◌, ◌≤◌, ◌<◌, ◌≡◌, refl, ap, ◌∙◌, true, false, Option, none, some, List, [], ◌∷◌, ◌++◌,
  length, keep, length-append, length-keep-le, arith, Text, text_eq,
}
use lab_gpu_server_monitor.Prelude.Table.{lookup, erase, lookup-erase_self}
use lab_gpu_server_monitor.Prelude.Table.Eviction.{lookup-drop_oldest_last}
use lab_gpu_server_monitor.RateLimit.{
  Counter, Buckets, Limiter, window, in_window, max_buckets, max_failures_ip, max_failures_pair,
  stale, hit, counter_or_new, record_one, drop_stale, record_failure, pair_key, ip_key, locked_for,
  check,
}
use lab_gpu_server_monitor.RateLimit.Counters.{IsValid, record_failure-IsValid}
use lab_gpu_server_monitor.RateLimit.Window.{hit-not_stale}

-- The counter after failures at the given times.
unfoldable pub hits : ℕ → List ℕ → Counter → Counter
hits n [] c = c
hits n (t ∷ ts) c = hits n ts (hit n t c)

-- The limiter after failed logins of one account from one source at the given times.
unfoldable pub attempts : (Text → Text) → Text → Text → List ℕ → Limiter → Limiter
attempts casefold ip username [] l = l
attempts casefold ip username (t ∷ ts) l =
    attempts casefold ip username ts (record_failure casefold t ip username l)

lookup-drop_stale :
    (now : ℕ) (k : Text) (c : Counter) (t : Buckets)
    → lookup k t ≡ some c
    → stale now c ≡ false
    → lookup k (drop_stale now t) ≡ some c
unfolding drop_stale
lookup-drop_stale now k c [] h fresh = cc
lookup-drop_stale now k c ((j, d) ∷ t) h fresh = ground (arith, lookup-drop_stale now k c t)

-- After a failure the bucket holds the counter that was there, or a new one, once hit.
lookup-record_one_self :
    (n now : ℕ) (k : Text) (t : Buckets)
    → lookup k (erase k t) ≡ none
    → lookup k (drop_stale now (record_one n now k t))
      ≡ some (hit n now (counter_or_new (lookup k t)))
unfolding record_one
lookup-record_one_self n now k t gone =
    let c = hit n now (counter_or_new (lookup k t)) in
    lookup-drop_stale now k c _
      (lookup-drop_oldest_last max_buckets k c (erase k t) (omega arith) gone)
      (hit-not_stale n now (counter_or_new (lookup k t)))

module _ (casefold : Text → Text) (ip username : Text) where
  pair-attempts :
      (ts : List ℕ) (l : Limiter)
      → IsValid l
      → counter_or_new
          (lookup (pair_key casefold ip username) (attempts casefold ip username ts l).by_pair)
        ≡ hits max_failures_pair ts
            (counter_or_new (lookup (pair_key casefold ip username) l.by_pair))
  unfolding attempts hits record_failure
  pair-attempts [] l v = refl
  pair-attempts (t ∷ ts) l v =
      pair-attempts ts _ (record_failure-IsValid casefold t ip username l v)
      ∙ ap (λ o. hits max_failures_pair ts (counter_or_new o))
          (lookup-record_one_self max_failures_pair t (pair_key casefold ip username) l.by_pair
            (lookup-erase_self _ l.by_pair v.pairs.distinct))

  ip-attempts :
      (ts : List ℕ) (l : Limiter)
      → IsValid l
      → counter_or_new (lookup (ip_key ip) (attempts casefold ip username ts l).by_ip)
        ≡ hits max_failures_ip ts (counter_or_new (lookup (ip_key ip) l.by_ip))
  unfolding attempts hits record_failure
  ip-attempts [] l v = refl
  ip-attempts (t ∷ ts) l v =
      ip-attempts ts _ (record_failure-IsValid casefold t ip username l v)
      ∙ ap (λ o. hits max_failures_ip ts (counter_or_new o))
          (lookup-record_one_self max_failures_ip t (ip_key ip) l.by_ip
            (lookup-erase_self _ l.by_ip v.ips.distinct))

-- Too few failures to lock: the lock of the counter stays as it was.
hits-unlocked :
    (n : ℕ) (ts : List ℕ) (c : Counter)
    → length c.failures + length ts < n
    → (hits n ts c).locked_until ≡ c.locked_until
unfolding hits hit
hits-unlocked n [] c h = refl
hits-unlocked n (t ∷ ts) c h = ground (
  arith,
  length-keep-le (in_window t) c.failures,
  length-append (keep (in_window t) c.failures) (t ∷ []),
  hits-unlocked n ts (record {
    failures = keep (in_window t) c.failures ++ t ∷ [];
    locked_until = c.locked_until;
  }),
)

-- A time of a burst that begins at `start`.
abbrev pub IsIn : ℕ → ℕ → Type 0
IsIn start t = (start ≤ t) × (t < start + window)

unlocked :
    (now : ℕ) (o : Option Counter) → (counter_or_new o).locked_until ≡ 0 → locked_for now o ≡ none
unfolding locked_for
unlocked now none h = refl
unlocked now (some c) h = ground arith

module _ (casefold : Text → Text) (ip username : Text) (l : Limiter) (v : IsValid l) where
  -- Four failures, at whatever times, lock out neither the source nor its pair with the account,
  -- if nothing was counted before: every later check admits them.
  pub check-attempts_few :
      (ts : List ℕ) (later : ℕ)
      → lookup (ip_key ip) l.by_ip ≡ none
      → lookup (pair_key casefold ip username) l.by_pair ≡ none
      → length ts < max_failures_pair
      → check casefold later ip username (attempts casefold ip username ts l) ≡ (true, 0)
  unfolding check
  check-attempts_few ts later no_ip no_pair few =
      let b = attempts casefold ip username ts l in
      ground (
        arith,
        unlocked later (lookup (ip_key ip) b.by_ip) (
            ap (λ c. c.locked_until) (ip-attempts casefold ip username ts l v)
            ∙ hits-unlocked max_failures_ip ts _ (rw no_ip (omega arith))
            ∙ ap (λ o. (counter_or_new o).locked_until) no_ip),
        unlocked later (lookup (pair_key casefold ip username) b.by_pair) (
            ap (λ c. c.locked_until) (pair-attempts casefold ip username ts l v)
            ∙ hits-unlocked max_failures_pair ts _ (rw no_pair (omega arith))
            ∙ ap (λ o. (counter_or_new o).locked_until) no_pair),
      )
