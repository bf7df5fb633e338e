-- ===== src/RateLimit/Window.antt =====
-- The counter of one bucket: it counts the failures of the last ten minutes since the last lock.
use lab_gpu_server_monitor.Prelude.{
  ℕ, ◌+◌, ◌<◌, ◌≡◌, refl, ◌⊎◌, false, List, [], ◌∷◌, ◌++◌, length, keep, arith,
}
use lab_gpu_server_monitor.RateLimit.{Counter, in_window, stale, lock_time, hit}

-- The failures of a history that lie in the window which ends now.
abbrev pub recent : ℕ → List ℕ → List ℕ
recent now h = keep (in_window now) h

-- How long a lock lasts, whatever the threshold: to the end of `lock_time` from the last failure.
pub hit-locked_until :
    (threshold now : ℕ) (c : Counter)
    → ((hit threshold now c).locked_until ≡ now + lock_time)
      ⊎ ((hit threshold now c).locked_until ≡ c.locked_until)
unfolding hit
hit-locked_until threshold now c = ground arith

-- Fewer failures are kept than the threshold.
pub hit-bounded :
    (threshold now : ℕ) (c : Counter)
    → 0 < threshold
    → length (hit threshold now c).failures < threshold
unfolding hit
hit-bounded threshold now c h = ground arith

-- The tests of `_stale` on a counter whose last failure is known.
stale-append :
    (now t locked : ℕ) (ts : List ℕ)
    → stale now (record { failures = ts ++ t ∷ []; locked_until = locked }) ≡ false
stale-append now t locked [] = refl
stale-append now t locked (u ∷ ts) = refl

-- A counter that a failure has just reached is not stale at that time.
pub hit-not_stale : (threshold now : ℕ) (c : Counter) → stale now (hit threshold now c) ≡ false
unfolding hit
hit-not_stale threshold now c =
    ground (arith, stale-append now now c.locked_until (recent now c.failures))
