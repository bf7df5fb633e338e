-- ===== src/Scheduler/Hourly/Rollup/Closed.antt =====
-- Which rows the hourly rollup of backend/app/scheduler.py writes, and which it leaves alone.
use lab_gpu_server_monitor.Prelude.{
  ℕ, zero, suc, ◌+◌, ◌*◌, ◌-◌, ◌⊎◌, inl, inr, ◌≤◌, ◌<◌, ◌≡◌, refl, true, ◌&&◌, Option, none, some,
  List, [], ◌∷◌, if◌then◌else◌, nat_beq, ltb, arith,
}
use lab_gpu_server_monitor.Prelude.Table.{lookup, insert, lookup-insert}
use lab_gpu_server_monitor.Alerts.{Floats}
use lab_gpu_server_monitor.Scheduler.Hourly.{HourRow, hour, hour_row}
use lab_gpu_server_monitor.Scheduler.Hourly.Rollup.{
  key_of, key_eq, is_one_of, Raw, Rollup, samples_of, rolled, roll_hour, close_hours,
  backfill_hours, prev_hour, last_hour, first_hour, hourly_aggregate,
}

module _ {F : Type 0} (fl : Floats F) (default : ℕ) (raw : Raw F) where
  rolled-again :
      (begin sid : ℕ) (existing : Option (HourRow F))
      → rolled fl default raw begin sid (some (rolled fl default raw begin sid existing))
        ≡ rolled fl default raw begin sid existing
  unfolding rolled hour_row
  rolled-again begin sid existing = ground arith

  pub roll_hour-lookup :
      (begin s h : ℕ) (ids : List ℕ) (table : Rollup F)
      → lookup (key_of s h) (roll_hour fl default raw begin ids table) ≡ (
          if nat_beq h begin && is_one_of ids s
          then some (rolled fl default raw begin s (lookup (key_of s begin) table))
          else lookup (key_of s h) table)
  unfolding roll_hour
  roll_hour-lookup begin s h [] table = ground arith
  roll_hour-lookup begin s h (sid ∷ ids) table =
      let row = rolled fl default raw begin sid (lookup (key_of sid begin) table) in
      ground (
        arith,
        roll_hour-lookup begin s h ids (insert (key_of sid begin) row table),
        lookup-insert (key_of sid begin) (key_of s h) row table,
        lookup-insert (key_of sid begin) (key_of s begin) row table,
        rolled-again begin s (lookup (key_of s begin) table),
      )

  -- Rolling an hour up again, from the same samples, changes no row.
  pub roll_hour-again :
      (begin : ℕ) (ids : List ℕ) (table : Rollup F) (s h : ℕ)
      → lookup
          (key_of s h)
          (roll_hour fl default raw begin ids (roll_hour fl default raw begin ids table))
        ≡ lookup (key_of s h) (roll_hour fl default raw begin ids table)
  roll_hour-again begin ids table s h =
      let once = roll_hour fl default raw begin ids table in
      ground (
        arith,
        roll_hour-lookup begin s h ids table,
        roll_hour-lookup begin s begin ids table,
        roll_hour-lookup begin s h ids once,
        rolled-again begin s (lookup (key_of s begin) table),
      )

  close_hours-earlier :
      (n begin prev s h : ℕ) (ids : List ℕ) (table : Rollup F)
      → h < begin
      → lookup (key_of s h) (close_hours fl default raw n begin prev ids table)
        ≡ lookup (key_of s h) table
  unfolding close_hours
  close_hours-earlier zero begin prev s h ids table lt = refl
  close_hours-earlier (suc n) begin prev s h ids table lt = ground (
    arith,
    close_hours-earlier n (begin + hour) prev s h ids (roll_hour fl default raw begin ids table)
        (omega arith),
    roll_hour-lookup begin s h ids table,
  )

  close_hours-lookup :
      (n begin prev s i h : ℕ) (ids : List ℕ) (table : Rollup F)
      → is_one_of ids s ≡ true
      → i < n
      → h ≡ begin + i * hour
      → h ≤ prev
      → lookup (key_of s h) (close_hours fl default raw n begin prev ids table)
        ≡ some (rolled fl default raw h s (lookup (key_of s h) table))
  unfolding close_hours
  close_hours-lookup zero begin prev s i h ids table mine lt at le = ground arith
  close_hours-lookup (suc n) begin prev s zero h ids table mine lt at le =
      let more = roll_hour fl default raw begin ids table in
      ground (
        arith,
        close_hours-earlier n (begin + hour) prev s h ids more (omega arith),
        roll_hour-lookup begin s h ids table,
      )
  close_hours-lookup (suc n) begin prev s (suc i) h ids table mine lt at le =
      let more = roll_hour fl default raw begin ids table in
      ground (
        arith,
        close_hours-lookup n (begin + hour) prev s i h ids more mine (omega arith) (omega arith) le,
        roll_hour-lookup begin s h ids table,
      )

  -- An hour that no longer has samples keeps a row that has card time.
  roll_hour-Kept :
      (begin s h : ℕ) (ids : List ℕ) (table : Rollup F) (row : HourRow F) (time : F)
      → samples_of s h raw ≡ []
      → row.gpu_sample_minutes ≡ some time
      → lookup (key_of s h) table ≡ some row
      → lookup (key_of s h) (roll_hour fl default raw begin ids table) ≡ some row
  unfolding rolled
  roll_hour-Kept begin s h ids table row time gone known here =
      ground (arith, roll_hour-lookup begin s h ids table)

  close_hours-Kept :
      (n begin prev s h : ℕ) (ids : List ℕ) (table : Rollup F) (row : HourRow F) (time : F)
      → samples_of s h raw ≡ []
      → row.gpu_sample_minutes ≡ some time
      → lookup (key_of s h) table ≡ some row
      → lookup (key_of s h) (close_hours fl default raw n begin prev ids table) ≡ some row
  unfolding close_hours
  close_hours-Kept zero begin prev s h ids table row time gone known here = here
  close_hours-Kept (suc n) begin prev s h ids table row time gone known here = ground (
    arith,
    close_hours-Kept n (begin + hour) prev s h ids (roll_hour fl default raw begin ids table) row
        time gone known (roll_hour-Kept begin s h ids table row time gone known here),
    here,
  )

-- an hour that a run is to close, by the newest hour of the table
abbrev pub IsOpenHour : ℕ → ℕ → ℕ → Option ℕ → Type 0
IsOpenHour prev i h none = (h + i * hour ≡ prev) × (1079 * hour ≤ prev)
IsOpenHour prev i h (some last) =
    ((last < prev) × (h ≡ last + (i + 1) * hour)) ⊎ ((prev ≤ last) × (h ≡ prev))

IsOpenHour-first_hour :
    {F : Type 0} (prev i h : ℕ) (table : Rollup F)
    → i < 1080
    → IsOpenHour prev i h (last_hour table)
    → (k : ℕ) × ((k < backfill_hours) × (h ≡ first_hour prev table + k * hour))
unfolding first_hour
IsOpenHour-first_hour prev i h table lt = go (last_hour table)
  where
    go :
        (o : Option ℕ)
        → IsOpenHour prev i h o
        → (k : ℕ) × ((k < backfill_hours)
            × (h
                ≡ (elim o [
                  | none ↦ prev - (backfill_hours - 1) * hour
                  | some l ↦ if ltb l prev then l + hour else prev
                ])
                  + k * hour))
    go none due = (1079 - i, (omega arith, omega (arith, due.0, due.1)))
    go (some l) (inl due) = (i, (lt, ground (arith, due.0, due.1)))
    go (some l) (inr due) = (0, (omega arith, ground (arith, due.0, due.1)))

module _ {F : Type 0} (fl : Floats F) (now default : ℕ) (raw : Raw F) (table : Rollup F) where
  -- Every enabled server gets a row for each of the first 1080 hours after the newest row that are
  -- over; where the last hour that is over has a row already, for that hour again; and in an empty
  -- table for the last 1080 that are over, where there have been as many since the epoch. The row is
  -- the one made of the hour's samples and of the row that was there.
  pub hourly_aggregate-closes :
      (ids : List ℕ) (s i h : ℕ)
      → is_one_of ids s ≡ true
      → i < 1080
      → h ≤ prev_hour now
      → IsOpenHour (prev_hour now) i h (last_hour table)
      → lookup (key_of s h) (hourly_aggregate fl now default raw ids table)
        ≡ some (rolled fl default raw h s (lookup (key_of s h) table))
  unfolding hourly_aggregate
  hourly_aggregate-closes [] s i h mine lt le due = ground arith
  hourly_aggregate-closes (sid ∷ ids) s i h mine lt le due =
      let prev = prev_hour now in
      let (k, (few, at)) = IsOpenHour-first_hour prev i h table lt due in
      close_hours-lookup fl default raw backfill_hours (first_hour prev table) prev s k h
        (sid ∷ ids) table mine few at le

  -- A row with card time stays as it is, wherever the raw samples of its hour are gone.
  pub hourly_aggregate-keeps :
      (ids : List ℕ) (s h : ℕ) (time : F) (row : HourRow F)
      → samples_of s h raw ≡ []
      → row.gpu_sample_minutes ≡ some time
      → lookup (key_of s h) table ≡ some row
      → lookup (key_of s h) (hourly_aggregate fl now default raw ids table) ≡ some row
  unfolding hourly_aggregate
  hourly_aggregate-keeps [] s h time row gone known here = here
  hourly_aggregate-keeps (sid ∷ ids) s h time row gone known here =
      close_hours-Kept fl default raw backfill_hours (first_hour (prev_hour now) table)
        (prev_hour now) s h (sid ∷ ids) table row time gone known here
