-- ===== src/Scheduler/Hourly/Rollup.antt =====
-- `_roll_hour` for all servers and `_hourly_aggregate` of backend/app/scheduler.py. The table is a
-- dictionary under the unique key of server and hour: replacing a row is its deletion and insertion.
pub mod Closed
use lab_gpu_server_monitor.Prelude.{
  ℕ, zero, suc, ◌+◌, ◌-◌, ◌*◌, ◌/◌, ◌≡◌, ◌↔◌, Bool, true, false, ◌&&◌, Option, none, some, List, [],
  ◌∷◌, if◌then◌else◌, Eq, nat_eq, nat_beq, ltb, leb, any, keep, map, arith,
}
use lab_gpu_server_monitor.Prelude.Table.{lookup, insert}
use lab_gpu_server_monitor.Alerts.{Floats}
use lab_gpu_server_monitor.Scheduler.Hourly.{HourSample, HourRow, before, hour, hour_row}

abbrev pub backfill_hours : ℕ
backfill_hours = 24 * 45

-- the last hour that is over
abbrev pub prev_hour : ℕ → ℕ
prev_hour now = (now / hour) * hour - hour

-- a server and the start of an hour
pub record RollupKey : Type 0 where
  pub server_id : ℕ
  pub start : ℕ

abbrev pub key_of : ℕ → ℕ → RollupKey
key_of sid begin = record { server_id = sid; start = begin }

abbrev pub key_beq : RollupKey → RollupKey → Bool
key_beq j k = nat_beq j.server_id k.server_id && nat_beq j.start k.start

pub key_beq_iff : (j k : RollupKey) → (key_beq j k ≡ true) ↔ (j ≡ k)
key_beq_iff j k = ground arith

instance abbrev pub key_eq : Eq RollupKey
key_eq = record { beq = key_beq; beq_iff = key_beq_iff }

abbrev pub is_one_of : List ℕ → ℕ → Bool
is_one_of ids sid = any (λ i. nat_beq i sid) ids

-- `server_metrics` by server, and `server_metrics_hourly`
abbrev pub Raw : Type 0 → Type 0
Raw F = List (ℕ × HourSample F)

abbrev pub Rollup : Type 0 → Type 0
Rollup F = List (RollupKey × HourRow F)

module _ {F : Type 0} where
  abbrev pub in_hour : ℕ → HourSample F → Bool
  in_hour begin m = leb begin m.at && ltb m.at (begin + hour)

  -- `rows_by_server[sid]`
  unfoldable pub samples_of : ℕ → ℕ → Raw F → List (HourSample F)
  samples_of sid begin [] = []
  samples_of sid begin ((s, m) ∷ raw) =
      let rest = samples_of sid begin raw in
      if nat_beq s sid && in_hour begin m then m ∷ rest else rest

  -- `previous_by_server.get(sid)`
  unfoldable pub previous_of : ℕ → ℕ → Raw F → Option (HourSample F)
  previous_of sid begin [] = none
  previous_of sid begin ((s, m) ∷ raw) =
      let rest = previous_of sid begin raw in
      if nat_beq s sid && ltb m.at begin
      then (elim rest [ none ↦ some m | some p ↦ if before m p then some p else some m ])
      else rest

  -- a row whose raw samples are gone
  abbrev pub settled : HourRow F → HourRow F
  settled row = elim row.gpu_sample_minutes [
    | none ↦ record row { gpu_time_estimated = false }
    | some _ ↦ row
  ]

module _ {F : Type 0} (fl : Floats F) (default : ℕ) (raw : Raw F) where
  -- a server's row, from the one that exists
  unfoldable pub rolled : ℕ → ℕ → Option (HourRow F) → HourRow F
  rolled begin sid existing =
      let built =
        hour_row fl begin default (samples_of sid begin raw) (previous_of sid begin raw) in
      elim (samples_of sid begin raw) [
        | [] ↦ elim existing [ some row ↦ settled row | none ↦ built ]
        | _ ∷ _ ↦ built
      ]

  -- `_roll_hour`
  unfoldable pub roll_hour : ℕ → List ℕ → Rollup F → Rollup F
  roll_hour begin [] table = table
  roll_hour begin (sid ∷ ids) table =
      let key = key_of sid begin in
      roll_hour begin ids (insert key (rolled begin sid (lookup key table)) table)

  -- the `while` loop, with the number of hours that it may still close
  unfoldable pub close_hours : ℕ → ℕ → ℕ → List ℕ → Rollup F → Rollup F
  close_hours zero begin prev ids table = table
  close_hours (suc n) begin prev ids table =
      let rest = close_hours n (begin + hour) prev ids (roll_hour begin ids table) in
      if leb begin prev then rest else table

module _ {F : Type 0} where
  -- `max(hour)` over the table
  unfoldable pub last_hour : Rollup F → Option ℕ
  last_hour [] = none
  last_hour ((k, _) ∷ table) =
      let rest = last_hour table in
      elim rest [ none ↦ some k.start | some h ↦ if ltb h k.start then some k.start else some h ]

  unfoldable pub first_hour : ℕ → Rollup F → ℕ
  first_hour prev table = elim (last_hour table) [
    | none ↦ prev - (backfill_hours - 1) * hour
    | some h ↦ if ltb h prev then h + hour else prev
  ]

-- `_hourly_aggregate`, for the enabled servers
unfoldable pub hourly_aggregate :
    {F : Type 0} → Floats F → ℕ → ℕ → Raw F → List ℕ → Rollup F → Rollup F
hourly_aggregate fl now default raw [] table = table
hourly_aggregate fl now default raw (sid ∷ ids) table =
    close_hours fl default raw backfill_hours (first_hour (prev_hour now) table) (prev_hour now)
      (sid ∷ ids) table
