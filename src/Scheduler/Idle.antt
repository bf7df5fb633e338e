-- ===== src/Scheduler/Idle.antt =====
-- GPUs whose memory is held while they idle: `_gpu_is_idle_held`, `_backfill_idle_start` and
-- `update_gpu_idle_state` of backend/app/scheduler.py. The state maps `f"{server_id}:{uuid}"` to the
-- time since when, here a number in place of its ISO text; floating point is `Floats`.
pub mod Rounds
pub mod Tracking
pub mod Backfill
use lab_gpu_server_monitor.Prelude.{
  ℕ, zero, suc, Bool, true, false, not, ◌&&◌, ◌||◌, Option, none, some, List, [], ◌∷◌, ◌++◌,
  if◌then◌else◌, Text, text_eq, nat_beq, ltb, ◌==◌, any, keep, find, take, length, non_empty,
  starts_with,
}
use lab_gpu_server_monitor.Prelude.Decimal.{decimal}
use lab_gpu_server_monitor.Prelude.Table.{contains, insert, erase}
use lab_gpu_server_monitor.Alerts.{Floats, or_zero}

-- one element of `gpus`; a missing uuid is empty
pub record GpuReading (F : Type 0) : Type 0 where
  pub uuid : Text
  pub utilization : Option F
  pub mem_total : Option F
  pub mem_used : Option F

-- one sample of a server's history, of status "ok"
pub record PastSample (F : Type 0) : Type 0 where
  pub at : ℕ
  pub readings : List (GpuReading F)

abbrev pub IdleState : Type 0
IdleState = List (Text × ℕ)

-- `f"{server_id}:"` and the key of a GPU
abbrev pub server_prefix : ℕ → Text
server_prefix sid = decimal sid ++ 58 ∷ []

abbrev pub idle_key : ℕ → Text → Text
idle_key sid uuid = decimal sid ++ 58 ∷ uuid

-- the variables of the loop
pub record Tracker : Type 0 where
  pub state : IdleState
  pub seen : List Text
  pub changed : Bool

abbrev pub is_seen : Text → List Text → Bool
is_seen k seen = any (λ j. j == k) seen

abbrev pub is_gone : ℕ → List Text → Text × ℕ → Bool
is_gone sid seen (k, _) = starts_with (server_prefix sid) k && not (is_seen k seen)

abbrev pub or_now : ℕ → Option ℕ → ℕ
or_now now none = now
or_now now (some t) = t

-- the second loop: keys of this server that were not seen
abbrev pub drop_gone : ℕ → Tracker → Tracker
drop_gone sid t = record t {
  state = keep (λ b. not (is_gone sid t.seen b)) t.state;
  changed = t.changed || any (is_gone sid t.seen) t.state;
}

module _ {F : Type 0} where
  -- `rows[-1].collected_at`
  abbrev pub last_time : ℕ → List (PastSample F) → ℕ
  last_time cursor [] = cursor
  last_time cursor (m ∷ []) = m.at
  last_time cursor (m ∷ n ∷ ms) = last_time cursor (n ∷ ms)

module _ {F : Type 0} (fl : Floats F) where
  abbrev pub gpu_is_idle_held : GpuReading F → Bool
  gpu_is_idle_held g =
      fl.lt (or_zero fl g.utilization) (fl.of_int 5)
      && (fl.truthy (or_zero fl g.mem_total)
          && fl.ge
              (fl.times (fl.over (or_zero fl g.mem_used) (or_zero fl g.mem_total)) (fl.of_int 100))
              (fl.of_int 30))

  abbrev pub held_in : Text → PastSample F → Bool
  held_in uuid m = elim (find (λ g. g.uuid == uuid) m.readings) [
    | none ↦ false
    | some g ↦ gpu_is_idle_held g
  ]

  -- The loop over one batch: whether the run's beginning was found, and the start so far.
  unfoldable pub scan_batch : Text → Option ℕ → List (PastSample F) → Bool × Option ℕ
  scan_batch uuid start [] = (false, start)
  scan_batch uuid start (m ∷ ms) =
      let rest = scan_batch uuid (some m.at) ms in if held_in uuid m then rest else (true, start)

  -- `_backfill_idle_start`, `while True` on fuel: the history is in descending order of time, and
  -- `limit` is the query's.
  unfoldable pub backfill_loop : ℕ → ℕ → Text → List (PastSample F) → ℕ → Option ℕ → Option ℕ
  backfill_loop zero limit uuid history cursor start = start
  backfill_loop (suc fuel) limit uuid history cursor start =
      let rows = take limit (keep (λ m. ltb m.at cursor) history) in
      let (found, start') = scan_batch uuid start rows in
      let again = backfill_loop fuel limit uuid history (last_time cursor rows) start' in
      if nat_beq (length rows) 0
      then start
      else if found
      then start'
      else if ltb (length rows) limit
      then start'
      else again

  abbrev pub backfill_idle_start : Text → List (PastSample F) → ℕ → Option ℕ
  backfill_idle_start uuid history before =
      backfill_loop (suc (length history)) 2000 uuid history before none

  -- since when a GPU idles that is not in the state
  abbrev pub started : Text → ℕ → List (PastSample F) → ℕ
  started uuid now history = or_now now (backfill_idle_start uuid history now)

  -- one round of the loop over the GPUs
  unfoldable pub track_one : ℕ → ℕ → List (PastSample F) → GpuReading F → Tracker → Tracker
  track_one sid now history g t =
      let key = idle_key sid g.uuid in
      if not (non_empty g.uuid)
      then t
      else if gpu_is_idle_held g
      then (if contains key t.state then record t { seen = key ∷ t.seen } else record {
        state = insert key (started g.uuid now history) t.state;
        seen = key ∷ t.seen;
        changed = true;
      })
      else if contains key t.state
      then record { state = erase key t.state; seen = key ∷ t.seen; changed = true }
      else record t { seen = key ∷ t.seen }

  unfoldable pub track : ℕ → ℕ → List (PastSample F) → List (GpuReading F) → Tracker → Tracker
  track sid now history [] t = t
  track sid now history (g ∷ gs) t = track sid now history gs (track_one sid now history g t)

  -- `update_gpu_idle_state`: the state that is stored afterwards
  unfoldable pub update_gpu_idle_state :
      ℕ → ℕ → List (PastSample F) → List (GpuReading F) → IdleState → IdleState
  update_gpu_idle_state sid now history gpus state =
      let t =
        drop_gone sid
          (track sid now history gpus (record { state = state; seen = []; changed = false })) in
      if t.changed then t.state else state
