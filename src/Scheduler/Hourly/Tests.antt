-- ===== src/Scheduler/Hourly/Tests.antt =====
-- The hourly rollup on concrete inputs, and the theorems at inputs that meet their hypotheses.
use lab_gpu_server_monitor.Prelude.{
  ℕ, ◌+◌, ◌*◌, ◌≡◌, refl, true, false, none, some, [], inl, ◌∷◌, arith, length, text_eq, nat_eq,
}
use lab_gpu_server_monitor.Prelude.Table.{lookup}
use lab_gpu_server_monitor.RateLimit.{second}
use lab_gpu_server_monitor.Alerts.{Gpu}
use lab_gpu_server_monitor.Scheduler.Hourly.{
  HourSample, hour, insert_sorted, sort_samples, add_idle, add_sample, integrate, all_gpus,
  mem_percents, hour_row,
}
use lab_gpu_server_monitor.Scheduler.Hourly.Rollup.{
  Raw, Rollup, key_eq, key_of, samples_of, previous_of, rolled, roll_hour, close_hours, last_hour,
  first_hour, hourly_aggregate,
}
use lab_gpu_server_monitor.Scheduler.Hourly.Rollup.Closed.{hourly_aggregate-closes}
use lab_gpu_server_monitor.Scheduler.Hourly.Legacy.{
  first_raw, add_hour, legacy_hours, legacy_at, rebuild, upgrade_legacy_gpu_card_time,
  upgrade_legacy_gpu_card_time-settles,
}
use lab_gpu_server_monitor.Scheduler.Fixtures.{hundredths}

program : Unit {0}
unfolding insert_sorted sort_samples add_idle add_sample integrate all_gpus mem_percents hour_row
    samples_of previous_of rolled roll_hour close_hours last_hour first_hour hourly_aggregate
    first_raw add_hour legacy_hours rebuild upgrade_legacy_gpu_card_time
program = tt

abbrev card : ℕ → Gpu ℕ
card busy = record {
  utilization = some (busy * 100);
  temperature = none;
  power_draw = some 100;
  gpu_total_mb = some 800;
  gpu_used_mb = some 400;
}

abbrev sample : ℕ → ℕ → HourSample ℕ
sample id at = record {
  id = id;
  at = at;
  interval = some 60;
  is_ok = true;
  cpu_percent = 1000;
  mem_used_mb = 100;
  mem_total_mb = 400;
  gpus = card 3 ∷ card 80 ∷ [];
  net_rx_bytes = 0;
  net_tx_bytes = 0;
}

abbrev raw : Raw ℕ
raw =
    (1, sample 1 (9 * hour + 3570 * second))
    ∷ (1, sample 2 (10 * hour + 30 * second))
    ∷ (1, sample 3 (10 * hour + 60 * second))
    ∷ []

-- 30 s carried in, 30 s until the next sample, and 60 s, of two GPUs, in hundredths of a minute
one_hour : (rolled hundredths 60 raw (10 * hour) 1 none).gpu_sample_minutes ≡ some 400
unfolding program
one_hour = refl

idle_hour : (rolled hundredths 60 raw (10 * hour) 1 none).idle_held_minutes ≡ 2
unfolding program
idle_hour = refl

abbrev rolled_up : Rollup ℕ
rolled_up = roll_hour hundredths 60 raw (10 * hour) (1 ∷ 2 ∷ []) []

two_servers : length rolled_up ≡ 2
unfolding program
two_servers = refl

abbrev before_gap : Rollup ℕ
before_gap = (key_of 1 (7 * hour), rolled hundredths 60 raw (7 * hour) 1 none) ∷ []

-- the hours 8 and 9 are closed, the hour 10 is not over
gap : length (hourly_aggregate hundredths (10 * hour + 90 * second) 60 raw (1 ∷ []) before_gap) ≡ 3
unfolding program
gap = refl

hourly_aggregate-closes_example :
    lookup
      (key_of 1 (9 * hour))
      (hourly_aggregate hundredths (11 * hour) 60 raw (1 ∷ []) before_gap)
    ≡ some (rolled hundredths 60 raw (9 * hour) 1 (lookup (key_of 1 (9 * hour)) before_gap))
unfolding program
hourly_aggregate-closes_example =
    hourly_aggregate-closes hundredths (11 * hour) 60 raw before_gap (1 ∷ []) 1 1 (9 * hour) refl
      (omega arith) (omega arith) (inl (omega arith, refl))

abbrev old_release : Rollup ℕ
old_release =
    (
      key_of 1 (10 * hour),
      record (rolled hundredths 60 raw (10 * hour) 1 none) {
        gpu_sample_minutes = none;
        gpu_time_estimated = true;
      },
    )
    ∷ []

was_legacy : legacy_at 1 (10 * hour) old_release ≡ true
unfolding program
was_legacy = refl

upgrade_legacy_gpu_card_time-settles_example :
    legacy_at 1
      (10 * hour)
      (upgrade_legacy_gpu_card_time hundredths 60 raw (1 ∷ []) 96 (11 * hour) old_release)
    ≡ false
unfolding program
upgrade_legacy_gpu_card_time-settles_example =
    upgrade_legacy_gpu_card_time-settles hundredths 60 raw (1 ∷ []) 96 (9 * hour + 3570 * second)
      (11 * hour) 1 (10 * hour) old_release refl (omega arith) (omega arith) refl (omega arith)
      (omega arith)
