-- ===== src/Scheduler/Hourly.antt =====
-- The hourly rollup of one server, the loop's body in `_roll_hour` of backend/app/scheduler.py.
-- Times are microseconds; the card times are Python's numbers, in minutes.
pub mod Rollup
pub mod Legacy
mod Tests
use lab_gpu_server_monitor.Prelude.{
  ℕ, ◌+◌, ◌-◌, ◌*◌, ◌/◌, min, max, Bool, true, false, not, ◌&&◌, ◌||◌, Option, none, some, List, [],
  ◌∷◌, ◌++◌, if◌then◌else◌, nat_beq, ltb, leb, any, keep, map, length,
}
use lab_gpu_server_monitor.RateLimit.{second}
use lab_gpu_server_monitor.Alerts.{
  Floats, Gpu, or_zero, maximum, total, average, percent_of, gpu_mem_percents,
}

abbrev pub hour : ℕ
hour = 3600 * second

-- the columns of `ServerMetric` that the rollup reads
pub record HourSample (F : Type 0) : Type 0 where
  pub id : ℕ
  pub at : ℕ
  pub interval : Option ℕ
  pub is_ok : Bool
  pub cpu_percent : F
  pub mem_used_mb : F
  pub mem_total_mb : F
  pub gpus : List (Gpu F)
  pub net_rx_bytes : F
  pub net_tx_bytes : F

-- `server_metrics_hourly`; the card time is missing in a row of an older release
pub record HourRow (F : Type 0) : Type 0 where
  pub samples : ℕ
  pub ok_samples : ℕ
  pub gpu_sample_minutes : Option F
  pub idle_held_gpu_minutes : F
  pub idle_held_minutes : ℕ
  pub gpu_time_estimated : Bool
  pub cpu_avg : F
  pub cpu_max : F
  pub mem_avg_pct : F
  pub gpu_util_avg : F
  pub gpu_util_max : F
  pub gpu_mem_pct_avg : F
  pub gpu_power_avg : F
  pub net_rx_avg_bps : F
  pub net_tx_avg_bps : F

module _ {F : Type 0} where
  -- the order `(collected_at, id)`
  abbrev pub before : HourSample F → HourSample F → Bool
  before a b = ltb a.at b.at || nat_beq a.at b.at && leb a.id b.id

  unfoldable pub insert_sorted : HourSample F → List (HourSample F) → List (HourSample F)
  insert_sorted x [] = x ∷ []
  insert_sorted x (y ∷ ys) = if before x y then x ∷ y ∷ ys else y ∷ insert_sorted x ys

  unfoldable pub sort_samples : List (HourSample F) → List (HourSample F)
  sort_samples [] = []
  sort_samples (x ∷ xs) = insert_sorted x (sort_samples xs)

  abbrev pub interval_of : ℕ → HourSample F → ℕ
  interval_of default m = elim m.interval [
    | none ↦ default
    | some s ↦ if nat_beq s 0 then default else s
  ]

  -- How long a sample counts in the hour: until the next one, its expiry or the end. `-` stops at 0,
  -- as `max(0, …)` does.
  abbrev pub covered : ℕ → ℕ → ℕ → HourSample F → ℕ → ℕ
  covered begin end default m next =
      min next (min (m.at + interval_of default m * second) end) - max m.at begin

  abbrev pub next_time : ℕ → List (HourSample F) → ℕ
  next_time end [] = end
  next_time end (n ∷ _) = n.at

-- the variables that the loop over the samples adds to
pub record CardTime (F : Type 0) : Type 0 where
  pub sampled : F
  pub idle_held : F
  pub estimated : Bool

module _ {F : Type 0} (fl : Floats F) where
  abbrev pub is_idle_held : Gpu F → Bool
  is_idle_held g =
      let whole = or_zero fl g.gpu_total_mb in
      fl.gt whole (fl.of_int 0)
      && (fl.ge (fl.over (or_zero fl g.gpu_used_mb) whole) (fl.over (fl.of_int 30) (fl.of_int 100))
          && fl.le (or_zero fl g.utilization) (fl.of_int 5))

  -- `seconds / 60.0`, of a time in microseconds
  abbrev pub minutes_of : ℕ → F
  minutes_of time = fl.over (fl.over (fl.of_int time) (fl.of_int second)) (fl.of_int 60)

  -- the minutes once for every GPU that is idle and held
  unfoldable pub add_idle : F → List (Gpu F) → F → F
  add_idle minutes [] held = held
  add_idle minutes (g ∷ gs) held =
      add_idle minutes gs (if is_idle_held g then fl.plus held minutes else held)

  -- what a sample that counts for a time adds
  unfoldable pub add_sample : ℕ → HourSample F → CardTime F → CardTime F
  add_sample time m c = if not m.is_ok || nat_beq time 0 then c else record {
    sampled = fl.plus c.sampled (fl.times (fl.of_int (length m.gpus)) (minutes_of time));
    idle_held = add_idle (minutes_of time) m.gpus c.idle_held;
    estimated = c.estimated || (elim m.interval [ none ↦ true | some _ ↦ false ]);
  }

  unfoldable pub integrate : ℕ → ℕ → ℕ → List (HourSample F) → CardTime F → CardTime F
  integrate begin end default [] c = c
  integrate begin end default (m ∷ ms) c =
      integrate begin end default ms
        (add_sample (covered begin end default m (next_time end ms)) m c)

  abbrev pub mean : List F → F
  mean vs = elim (average fl vs) [ none ↦ fl.of_int 0 | some v ↦ fl.round v ]

  abbrev pub peak : List F → F
  peak vs = elim (maximum fl vs) [ none ↦ fl.of_int 0 | some v ↦ fl.round v ]

  unfoldable pub all_gpus : List (HourSample F) → List (Gpu F)
  all_gpus [] = []
  all_gpus (m ∷ ms) = m.gpus ++ all_gpus ms

  unfoldable pub mem_percents : List (HourSample F) → List F
  mem_percents [] = []
  mem_percents (m ∷ ms) =
      let rest = mem_percents ms in
      elim (percent_of fl m.mem_used_mb m.mem_total_mb) [ none ↦ rest | some p ↦ p ∷ rest ]

  -- the row for a server's samples of the hour, with the last one before it for the card time
  unfoldable pub hour_row : ℕ → ℕ → List (HourSample F) → Option (HourSample F) → HourRow F
  hour_row begin default rows previous =
      let ok = keep (λ m. m.is_ok) rows in
      let carried : List (HourSample F) = elim previous [ none ↦ rows | some p ↦ rows ++ p ∷ [] ] in
      let guessed = any (λ m. elim m.interval [ none ↦ true | some _ ↦ false ]) ok in
      let c =
        integrate begin (begin + hour) default (sort_samples carried)
          (record { sampled = fl.of_int 0; idle_held = fl.of_int 0; estimated = guessed }) in
      let gpus = all_gpus ok in
      record {
        samples = length rows;
        ok_samples = length ok;
        gpu_sample_minutes = some c.sampled;
        idle_held_gpu_minutes = c.idle_held;
        idle_held_minutes =
            fl.floor (fl.plus c.idle_held (fl.over (fl.of_int 1) (fl.of_int 1000000000)));
        gpu_time_estimated = c.estimated;
        cpu_avg = mean (map (λ m. or_zero fl (some m.cpu_percent)) ok);
        cpu_max = peak (map (λ m. or_zero fl (some m.cpu_percent)) ok);
        mem_avg_pct = mean (mem_percents ok);
        gpu_util_avg = mean (map (λ g. or_zero fl g.utilization) gpus);
        gpu_util_max = peak (map (λ g. or_zero fl g.utilization) gpus);
        gpu_mem_pct_avg = mean (gpu_mem_percents fl gpus);
        gpu_power_avg = mean (keep fl.truthy (map (λ g. or_zero fl g.power_draw) gpus));
        net_rx_avg_bps = mean (map (λ m. or_zero fl (some m.net_rx_bytes)) ok);
        net_tx_avg_bps = mean (map (λ m. or_zero fl (some m.net_tx_bytes)) ok);
      }
