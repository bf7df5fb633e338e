-- ===== src/Scheduler/Tests.antt =====
-- The scheduler's work on concrete inputs, with hundredths for Python's numbers; and the theorems at
-- inputs that meet their hypotheses.
use lab_gpu_server_monitor.Prelude.{
  ℕ, ◌*◌, ◌≡◌, ◌≤◌, refl, true, false, none, some, List, [], ◌∷◌, ◌++◌, codes, text_beq,
  starts_with, arith, keep, length, Text, text_eq, nat_eq,
}
use lab_gpu_server_monitor.Prelude.Decimal.{decimal}
use lab_gpu_server_monitor.Prelude.Table.{contains}
use lab_gpu_server_monitor.Scheduler.{server_begin, server_end, expire_maintenance, same_poll}
use lab_gpu_server_monitor.Scheduler.Polls.{
  asks, ends, turn, turns, idle_scheduler, remove_poll, turns-one_poll,
}
use lab_gpu_server_monitor.Scheduler.KernelLog.{
  KernelEvent, KernelEventRow, new_rows, store_kernel_events, IsUnique,
}
use lab_gpu_server_monitor.Scheduler.KernelLog.Unique.{store_kernel_events-IsUnique}
use lab_gpu_server_monitor.Scheduler.Idle.{
  GpuReading, PastSample, idle_key, scan_batch, backfill_loop, backfill_idle_start, track_one,
  track, update_gpu_idle_state,
}
use lab_gpu_server_monitor.Scheduler.Idle.Rounds.{held_after}
use lab_gpu_server_monitor.Scheduler.Idle.Tracking.{update_gpu_idle_state-contains}
use lab_gpu_server_monitor.Scheduler.Idle.Backfill.{older, run_start, backfill_idle_start-run_start}
use lab_gpu_server_monitor.Scheduler.Retention.{
  Metrics, RetentionEnv, max_expired, archive_expired_metrics, delete_loop, clean_up, exported,
}
use lab_gpu_server_monitor.Scheduler.Retention.Safe.{Kept, clean_up-Kept}
use lab_gpu_server_monitor.Scheduler.Fixtures.{hundredths}

program : Unit {0}
unfolding decimal server_begin server_end expire_maintenance remove_poll turn turns new_rows
    store_kernel_events scan_batch backfill_loop track_one track update_gpu_idle_state held_after
    run_start max_expired archive_expired_metrics delete_loop clean_up text_beq starts_with
program = tt

-- polls

busy_twice :
    (turns
      (asks 1 (codes "poll") ∷ asks 1 (codes "poll") ∷ asks 2 (codes "poll") ∷ [])
      idle_scheduler).running
    ≡ (2, codes "poll") ∷ (1, codes "poll") ∷ []
unfolding program
busy_twice = refl

busy_again :
    (turns
      (asks 1 (codes "poll") ∷ ends 1 (codes "poll") ∷ asks 1 (codes "poll") ∷ [])
      idle_scheduler).busy
    ≡ (1, codes "poll") ∷ []
unfolding program
busy_again = refl

turns-one_poll_example :
    length (
      keep
        (same_poll 1 (codes "poll"))
        (turns (asks 1 (codes "poll") ∷ asks 1 (codes "poll") ∷ []) idle_scheduler).running)
    ≤ 1
turns-one_poll_example =
    turns-one_poll (asks 1 (codes "poll") ∷ asks 1 (codes "poll") ∷ []) 1 (codes "poll")

window_ends :
    expire_maintenance 10
      (record {
        id = 4;
        status = codes "maintenance";
        status_reason = codes "fan";
        status_until = some 10;
      }
        ∷ [])
      []
    ≡ (
      record { id = 4; status = codes "active"; status_reason = []; status_until = none } ∷ [],
      (4, codes "维护窗口到期，自动恢复为 active") ∷ [],
    )
unfolding program
window_ends = refl

-- kernel events

abbrev xid_event : ℕ → KernelEvent
xid_event n = record {
  event_type = codes "GPU_XID";
  severity = codes "critical";
  message = codes "Xid";
  raw_message = codes "NVRM: Xid";
  gpu_uuid = [];
  xid = n;
}

abbrev digest : Text → Text
digest t = t

abbrev log_rows : List KernelEventRow
log_rows =
    store_kernel_events digest 5 1 (codes "b1") (xid_event 79 ∷ xid_event 79 ∷ xid_event 31 ∷ []) []

two_rows : length log_rows ≡ 2
unfolding program
two_rows = refl

store_kernel_events-IsUnique_example :
    IsUnique (store_kernel_events digest 5 1 (codes "b1") (xid_event 79 ∷ xid_event 79 ∷ []) [])
store_kernel_events-IsUnique_example =
    store_kernel_events-IsUnique digest 1 (codes "b1") 5 (xid_event 79 ∷ xid_event 79 ∷ []) []
      (λ s h. omega arith)

-- idle GPUs

abbrev reading : Text → ℕ → GpuReading ℕ
reading u busy = record {
  uuid = u;
  utilization = some (busy * 100);
  mem_total = some 800;
  mem_used = some 400;
}

abbrev past : List (PastSample ℕ)
past =
    record { at = 30; readings = reading (codes "a") 0 ∷ [] }
    ∷ record { at = 20; readings = reading (codes "a") 1 ∷ [] }
    ∷ record { at = 10; readings = reading (codes "a") 90 ∷ [] }
    ∷ []

idle_since :
    update_gpu_idle_state hundredths 1 40 past (reading (codes "a") 2 ∷ []) []
    ≡ (idle_key 1 (codes "a"), 20) ∷ []
unfolding program
idle_since = refl

idle_no_more :
    update_gpu_idle_state hundredths 1 40 past
      (reading (codes "a") 50 ∷ [])
      ((idle_key 1 (codes "a"), 20) ∷ [])
    ≡ []
unfolding program
idle_no_more = refl

gone_card :
    update_gpu_idle_state hundredths 1 40 past []
      ((idle_key 1 (codes "a"), 20) ∷ (idle_key 11 (codes "a"), 3) ∷ [])
    ≡ (idle_key 11 (codes "a"), 3) ∷ []
unfolding program
gone_card = refl

update_gpu_idle_state-contains_example :
    contains
      (idle_key 1 (codes "a"))
      (update_gpu_idle_state hundredths 1 40 past (reading (codes "a") 2 ∷ []) [])
    ≡ held_after hundredths (codes "a") false (reading (codes "a") 2 ∷ [])
update_gpu_idle_state-contains_example =
    update_gpu_idle_state-contains hundredths 1 40 past (reading (codes "a") 2 ∷ []) [] (codes "a")
      tt refl

backfill_idle_start-run_start_example :
    backfill_idle_start hundredths (codes "a") past 40
    ≡ run_start hundredths (codes "a") none (older 40 past)
backfill_idle_start-run_start_example =
    backfill_idle_start-run_start hundredths (codes "a") past 40
      ((omega arith, (omega arith, tt)), ((omega arith, tt), (tt, tt)))

-- retention

abbrev metrics : Metrics
metrics = (1, 10) ∷ (2, 20) ∷ (3, 90) ∷ []

abbrev good_day : RetentionEnv
good_day = record {
  before_count = [];
  before_export = [];
  before_delete = (4, 15) ∷ [];
  has_directory = true;
  published = true;
  deletes = λ n. true;
}

cleaned : clean_up good_day 50 metrics ≡ ((1, 10) ∷ (2, 20) ∷ [], some ((3, 90) ∷ (4, 15) ∷ []))
unfolding program
cleaned = refl

unpublished :
    clean_up (record good_day { published = false }) 50 metrics
    ≡ ([], some ((1, 10) ∷ (2, 20) ∷ (3, 90) ∷ (4, 15) ∷ []))
unfolding program
unpublished = refl

-- the first batch is rolled back
undeleted :
    clean_up (record good_day { deletes = λ n. false }) 50 metrics
    ≡ ((1, 10) ∷ (2, 20) ∷ [], some ((1, 10) ∷ (2, 20) ∷ (3, 90) ∷ (4, 15) ∷ []))
unfolding program
undeleted = refl

clean_up-Kept_example :
    (after : Metrics) × ((clean_up good_day 50 metrics).1 ≡ some after)
    × Kept (exported good_day metrics ++ (4, 15) ∷ []) (clean_up good_day 50 metrics).0 after
unfolding program
clean_up-Kept_example =
    clean_up-Kept good_day 50 metrics (refl, (refl, (refl, (refl, tt))))
      (λ bound h. (ground (arith, h), tt))
