-- ===== src/RateLimit/Tests.antt =====
-- The rate limiter on concrete failures, and its theorems at inputs that meet their hypotheses.
use lab_gpu_server_monitor.Prelude.{
  ◌*◌, ◌≡◌, ◌≢◌, refl, true, false, [], ◌∷◌, arith, Text, codes, text_eq, text_beq,
}
use lab_gpu_server_monitor.Prelude.Table.Eviction.{drop_oldest}
use lab_gpu_server_monitor.RateLimit.{
  Limiter, new_limiter, second, hit, check, record_failure, record_success, locked_for, record_one,
  drop_stale, status,
}
use lab_gpu_server_monitor.RateLimit.Counters.{IsValid}
use lab_gpu_server_monitor.RateLimit.Isolation.{check-record_failure_other}
use lab_gpu_server_monitor.RateLimit.Lockout.{attempts, hits}

abbrev same : Text → Text
same s = s

abbrev home : Text
home = codes "10.0.0.1"

abbrev away : Text
away = codes "10.0.0.2"

abbrev admin : Text
admin = codes "admin"

program : Unit {0}
unfolding check record_failure record_success locked_for hits drop_oldest record_one drop_stale hit
    attempts status text_beq
program = tt

abbrev five : Limiter
five = attempts same home admin (0 ∷ second ∷ 2 * second ∷ 3 * second ∷ 4 * second ∷ []) new_limiter

five_locked : check same (10 * second) home admin five ≡ (false, 594)
unfolding program
five_locked = refl

five_elsewhere : check same (10 * second) away admin five ≡ (true, 0)
unfolding program
five_elsewhere = refl

five_later : check same (604 * second) home admin five ≡ (true, 0)
unfolding program
five_later = refl

five-status : status (10 * second) five ≡ (0, 1, 2)
unfolding program
five-status = refl

forgiven : check same (10 * second) home admin (record_success same home admin five) ≡ (true, 0)
unfolding program
forgiven = refl

new_limiter-IsValid : IsValid new_limiter
new_limiter-IsValid = omega arith

home-ne-away : home ≢ away
home-ne-away = ground arith

admitted_away : check same 9 away admin new_limiter ≡ (true, 0)
unfolding program
admitted_away = refl

check-record_failure_other_example :
    check same 9 away admin (record_failure same 7 home admin new_limiter) ≡ (true, 0)
check-record_failure_other_example =
    check-record_failure_other same 7 9 home away admin admin new_limiter new_limiter-IsValid
      (omega arith) (omega arith) home-ne-away admitted_away
