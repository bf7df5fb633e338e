-- ===== src/Alerts.antt =====
-- Alert rules, backend/app/scheduler.py: the metric of a sample, its comparison, and the evaluation
-- `_eval_alerts`, which opens and closes the rows of `alert_events`. Floating point is a parameter,
-- the record `Floats`; the two calls of the notifier are logged, and the environment says which of
-- them a channel accepted.
pub mod Events
mod Tests
use lab_gpu_server_monitor.Prelude.{
  ℕ, ◌+◌, ◌*◌, ◌/◌, max, Bool, true, false, not, ◌&&◌, ◌||◌, Option, none, some, List, [], ◌∷◌,
  ◌++◌, if◌then◌else◌, Text, codes, text_eq, nat_eq, nat_beq, ltb, leb, ◌==◌, keep, all, length,
  map,
}
use lab_gpu_server_monitor.RateLimit.{second}

-- Python's numbers, of which the code compares, divides, adds and rounds some.
pub record Floats (F : Type 0) : Type 0 where
  pub gt : F → F → Bool
  pub ge : F → F → Bool
  pub lt : F → F → Bool
  pub le : F → F → Bool
  pub plus : F → F → F
  pub times : F → F → F
  pub over : F → F → F
  pub of_int : ℕ → F
  -- `bool(x)`
  pub truthy : F → Bool
  -- `round(x, 1)`
  pub round : F → F
  -- `int(x)`, of a number that is not negative
  pub floor : F → ℕ
  pub show : F → Text

-- A value of a JSON object that is missing or null is `none`.
pub record Gpu (F : Type 0) : Type 0 where
  pub utilization : Option F
  pub temperature : Option F
  pub power_draw : Option F
  pub gpu_total_mb : Option F
  pub gpu_used_mb : Option F

-- the columns of `ServerMetric` that the rules read; `disks` holds the mounts' `percent`
pub record Sample (F : Type 0) : Type 0 where
  pub server_id : ℕ
  pub collected_at : ℕ
  pub hostname : Text
  pub status : Text
  pub cpu_percent : F
  pub mem_total_mb : F
  pub mem_used_mb : F
  pub swap_total_mb : F
  pub swap_used_mb : F
  pub disks : List (Option F)
  pub load1 : F
  pub cpu_count : ℕ
  pub gpus : List (Gpu F)

pub record AlertRule (F : Type 0) : Type 0 where
  pub id : ℕ
  pub name : Text
  pub metric : Text
  pub op : Text
  pub threshold : F
  pub duration_minutes : ℕ
  pub target : Option ℕ
  pub enabled : Bool

module _ {F : Type 0} (fl : Floats F) where
  -- `x.get(key, 0) or 0`
  abbrev pub or_zero : Option F → F
  or_zero none = fl.of_int 0
  or_zero (some x) = if fl.truthy x then x else fl.of_int 0

  -- `x.get(key, 0)`
  abbrev pub get_zero : Option F → F
  get_zero none = fl.of_int 0
  get_zero (some x) = x

  -- `max` of a list that begins with `best`: the first of the largest
  unfoldable pub largest : F → List F → F
  largest best [] = best
  largest best (x ∷ xs) = largest (if fl.gt x best then x else best) xs

  unfoldable pub maximum : List F → Option F
  maximum [] = none
  maximum (x ∷ xs) = some (largest x xs)

  -- `sum`
  unfoldable pub total : F → List F → F
  total acc [] = acc
  total acc (x ∷ xs) = total (fl.plus acc x) xs

  -- `sum(vals) / len(vals)`
  unfoldable pub average : List F → Option F
  average [] = none
  average (x ∷ xs) = some (fl.over (total (fl.of_int 0) (x ∷ xs)) (fl.of_int (length (x ∷ xs))))

  abbrev pub percent_of : F → F → Option F
  percent_of used whole =
      if fl.truthy whole then some (fl.times (fl.over used whole) (fl.of_int 100)) else none

  -- the fraction of the memory of each GPU that has some
  unfoldable pub gpu_mem_percents : List (Gpu F) → List F
  gpu_mem_percents [] = []
  gpu_mem_percents (g ∷ gs) =
      let rest = gpu_mem_percents gs in
      let whole = or_zero g.gpu_total_mb in
      if fl.gt whole (fl.of_int 0)
      then fl.times (fl.over (or_zero g.gpu_used_mb) whole) (fl.of_int 100) ∷ rest
      else rest

  -- `_extract_metric`; `none` where the metric is not available
  unfoldable pub extract_metric : Sample F → Text → Option F
  extract_metric m metric =
      if metric == codes "cpu_percent"
      then some m.cpu_percent
      else if metric == codes "mem_percent"
      then percent_of m.mem_used_mb m.mem_total_mb
      else if metric == codes "swap_percent"
      then percent_of m.swap_used_mb m.swap_total_mb
      else if metric == codes "disk_percent"
      then maximum (map get_zero m.disks)
      else if metric == codes "load_per_core"
      then (if nat_beq m.cpu_count 0 then none else some (fl.over m.load1 (fl.of_int m.cpu_count)))
      else if metric == codes "gpu_util"
      then average (map (λ g. or_zero g.utilization) m.gpus)
      else if metric == codes "gpu_temp"
      then maximum (map (λ g. or_zero g.temperature) m.gpus)
      else if metric == codes "gpu_mem_percent"
      then maximum (gpu_mem_percents m.gpus)
      else if metric == codes "gpu_power"
      then maximum (map (λ g. or_zero g.power_draw) m.gpus)
      else none

  -- `_compare`
  unfoldable pub compare_value : F → Text → F → Bool
  compare_value value op threshold =
      if op == codes ">"
      then fl.gt value threshold
      else if op == codes ">="
      then fl.ge value threshold
      else if op == codes "<"
      then fl.lt value threshold
      else if op == codes "<="
      then fl.le value threshold
      else false

  abbrev pub breaches : AlertRule F → F → Bool
  breaches rule value = compare_value value rule.op rule.threshold

  abbrev pub is_ok : Sample F → Bool
  is_ok m = m.status == codes "ok"

  -- the samples of `m`'s server that go back from `m` by no more than the rule's duration
  abbrev pub in_duration : AlertRule F → Sample F → Sample F → Bool
  in_duration rule m r =
      nat_beq r.server_id m.server_id
      && (leb m.collected_at (r.collected_at + rule.duration_minutes * 60 * second) && is_ok r)

  unfoldable pub values : Text → List (Sample F) → List F
  values metric [] = []
  values metric (r ∷ rs) =
      let rest = values metric rs in
      elim (extract_metric r metric) [ none ↦ rest | some v ↦ v ∷ rest ]

  -- how many values the window must hold at least
  abbrev pub enough_values : AlertRule F → ℕ → ℕ
  enough_values rule interval = max 2 (max 1 (rule.duration_minutes * 60 / max 10 interval) / 2)

  -- Whether a breach has held for the rule's duration.
  unfoldable pub sustained : AlertRule F → ℕ → List (Sample F) → Sample F → Bool
  sustained rule interval samples m =
      if nat_beq rule.duration_minutes 0
      then true
      else let vals = values rule.metric (keep (in_duration rule m) samples) in
        not (ltb (length vals) (enough_values rule interval)) && all (breaches rule) vals

  -- the newest good sample of a server, the last of several at one time
  unfoldable pub latest_from : ℕ → Option (Sample F) → List (Sample F) → Option (Sample F)
  latest_from sid best [] = best
  latest_from sid best (m ∷ ms) =
      latest_from sid
        (if nat_beq m.server_id sid && is_ok m
          then (elim best [
            | none ↦ some m
            | some b ↦ if leb b.collected_at m.collected_at then some m else some b
          ])
          else best)
        ms
