-- ===== src/Scheduler/Retention.antt =====
-- Retention, `_archive_expired_metrics` and `_retention_cleanup` of backend/app/scheduler.py. The
-- table of metrics maps a row's id to its time; other sessions insert rows between the queries.
-- What writes and publishes the archive is one Boolean, whether all of it succeeded.
pub mod Safe
use lab_gpu_server_monitor.Prelude.{
  ℕ, zero, suc, ◌+◌, ◌-◌, ◌*◌, ◌≤◌, ◌<◌, ◌≡◌, refl, sym, ap, ◌∙◌, ◌⊎◌, inl, inr, Bool, true, false,
  not, ◌&&◌, ◌||◌, Option, none, some, List, [], ◌∷◌, ◌++◌, if◌then◌else◌, Text, text_eq, nat_eq,
  nat_beq, ltb, leb, ◌==◌, any, keep, map, take, length, All, arith, Bool-cases, Option-cases,
}
use lab_gpu_server_monitor.Prelude.Table.{lookup, IsDict, lookup-append, lookup-keep_key}
use lab_gpu_server_monitor.RateLimit.{second}

-- `(id, collected_at)`
abbrev pub Metrics : Type 0
Metrics = List (ℕ × ℕ)

-- What happens meanwhile: the rows that appear before the count, before the rows are serialized and
-- before the deletion; whether ARCHIVE_DIR is set; whether the archive was written, encrypted and
-- published; and which deletions succeed.
pub record RetentionEnv : Type 0 where
  pub before_count : Metrics
  pub before_export : Metrics
  pub before_delete : Metrics
  pub has_directory : Bool
  pub published : Bool
  -- whether a batch, counted from 0, is deleted and committed; else it is rolled back
  pub deletes : ℕ → Bool

abbrev pub is_old : ℕ → ℕ × ℕ → Bool
is_old cutoff (_, at) = ltb at cutoff

-- `SELECT max(id) … WHERE collected_at < cutoff`
unfoldable pub max_expired : ℕ → Metrics → Option ℕ
max_expired cutoff [] = none
max_expired cutoff (m ∷ ms) =
    let rest = max_expired cutoff ms in
    if is_old cutoff m
    then (elim rest [ none ↦ some m.0 | some k ↦ if leb k m.0 then some m.0 else some k ])
    else rest

-- the rows that the archive takes and the loop deletes
abbrev pub is_due : ℕ → ℕ → ℕ × ℕ → Bool
is_due cutoff bound m = is_old cutoff m && leb m.0 bound

-- What `_archive_expired_metrics` returns, and the rows in the archive.
abbrev pub Archived : Type 0
Archived = Option ℕ × Metrics

abbrev pub counted : RetentionEnv → Metrics → Metrics
counted env rows = rows ++ env.before_count

abbrev pub exported : RetentionEnv → Metrics → Metrics
exported env rows = counted env rows ++ env.before_export

unfoldable pub archive_expired_metrics : RetentionEnv → ℕ → Metrics → Archived
archive_expired_metrics env cutoff rows = elim (max_expired cutoff rows) [
  | none ↦ (some 0, [])
  | some bound ↦
      let n = length (keep (is_due cutoff bound) (counted env rows)) in
      let written = keep (is_due cutoff bound) (exported env rows) in
      if not env.has_directory
      then (none, [])
      else if not (nat_beq (length written) n) || not env.published
      then (none, [])
      else (some bound, written)
]

abbrev pub batch_ids : ℕ → ℕ → Metrics → List ℕ
batch_ids cutoff bound rows = take 5000 (map (λ m. m.0) (keep (is_due cutoff bound) rows))

abbrev pub is_in : List ℕ → ℕ → Bool
is_in ids i = any (λ j. nat_beq j i) ids

-- `while True` on fuel, `none` when it runs out, after some batches; a deletion or a commit that raises
-- is rolled back and ends it
unfoldable pub delete_loop : (ℕ → Bool) → ℕ → ℕ → ℕ → ℕ → Metrics → Option Metrics
delete_loop deletes zero batch cutoff bound rows = none
delete_loop deletes (suc fuel) batch cutoff bound rows =
    let ids = batch_ids cutoff bound rows in
    let again =
      delete_loop deletes fuel (suc batch) cutoff bound (keep (λ m. not (is_in ids m.0)) rows) in
    if nat_beq (length ids) 0 then some rows else if deletes batch then again else some rows

-- the cleanup of one day: the archive and the table afterwards
unfoldable pub clean_up : RetentionEnv → ℕ → Metrics → Metrics × Option Metrics
clean_up env cutoff rows =
    let (returned, archive) = archive_expired_metrics env cutoff rows in
    let table = exported env rows ++ env.before_delete in
    elim returned [
      | none ↦ (archive, some table)
      | some bound ↦
          if nat_beq bound 0
          then (archive, some table)
          else (archive, delete_loop env.deletes (suc (length table)) 0 cutoff bound table)
    ]

abbrev pub day : ℕ
day = 86400 * second

-- `_retention_cleanup`: the day it ran last, what it archived, and the table. `days` is the setting,
-- 0 where it holds no positive number.
unfoldable pub retention_cleanup :
    RetentionEnv → Text → ℕ → ℕ → Text × Metrics → Text × Metrics × Option Metrics
retention_cleanup env today now days (last_day, rows) =
    if last_day == today
    then (last_day, [], some rows)
    else if nat_beq days 0
    then (today, [], some rows)
    else let (archive, table) = clean_up env (now - days * day) rows in (today, archive, table)
