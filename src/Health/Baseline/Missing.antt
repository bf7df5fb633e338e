-- ===== src/Health/Baseline/Missing.antt =====
-- Which GPUs backend/app/health.py holds for missing after a poll.
use lab_gpu_server_monitor.Prelude.{
  ℕ, ◌≡◌, refl, Bool, true, Option, none, some, List, [], ◌∷◌, if◌then◌else◌, Text, text_eq,
  non_empty, arith,
}
use lab_gpu_server_monitor.Prelude.Table.{lookup, insert, lookup-insert}
use lab_gpu_server_monitor.Alerts.{Floats}
use lab_gpu_server_monitor.Alerts.Events.{Board, Notice}
use lab_gpu_server_monitor.Health.Baseline.{
  Card, Baselines, registered, update_gpu_baseline, is_shown, judge_row, detect_gpu_missing,
}

-- since when a GPU of the baseline is missing, `none` for one that is not in it
abbrev pub missing_of : Text → Baselines → Option (Option ℕ)
missing_of u rows = elim (lookup u rows) [ none ↦ none | some b ↦ some b.missing_since ]

-- after a poll that does not show it
abbrev pub gone_since : ℕ → Option (Option ℕ) → Option (Option ℕ)
gone_since now none = none
gone_since now (some none) = some (some now)
gone_since now (some (some t)) = some (some t)

update_gpu_baseline-missing_of :
    (now : ℕ) (gs : List Card) (rows : Baselines) (u : Text)
    → non_empty u ≡ true
    → missing_of u (update_gpu_baseline now gs rows)
      ≡ (if is_shown u gs then some none else missing_of u rows)
unfolding update_gpu_baseline
update_gpu_baseline-missing_of now [] rows u n = refl
update_gpu_baseline-missing_of now (g ∷ gs) rows u n =
    let next =
      if non_empty g.uuid
      then insert g.uuid (registered now g (lookup g.uuid rows)) rows
      else rows in
    ground (
      arith,
      update_gpu_baseline-missing_of now gs next u n,
      text_eq.beq_iff g.uuid u,
      lookup-insert g.uuid u (registered now g (lookup g.uuid rows)) rows,
    )

module _ {F : Type 0} (fl : Floats F) (now : ℕ) (delivers : Notice → Bool) (sid : ℕ)
    (server_name : Text) where
  detect_gpu_missing-missing_of :
      (gs : List Card) (rows : Baselines) (board : Board F) (u : Text)
      → missing_of u (detect_gpu_missing fl now delivers sid server_name gs rows board).0 ≡ (
          if is_shown u gs
          then (elim (missing_of u rows) [ none ↦ none | some _ ↦ some none ])
          else gone_since now (missing_of u rows))
  unfolding detect_gpu_missing
  detect_gpu_missing-missing_of gs [] board u = ground arith
  detect_gpu_missing-missing_of gs ((v, b) ∷ rows) board u =
      let next = judge_row fl now delivers sid server_name gs v b board in
      ground (arith, text_eq.beq_iff v u, detect_gpu_missing-missing_of gs rows next.1 u)

  -- After a successful poll of a server for which the detectors run, which is one that is not in
  -- maintenance, a GPU with a UUID that the poll shows is in the baseline and not
  -- missing; one that it does not show is missing if it was in the baseline, since the first such
  -- poll, and else is not in it.
  pub detect_gpu_missing-update_gpu_baseline :
      (polled : ℕ) (gs : List Card) (rows : Baselines) (board : Board F) (u : Text)
      → non_empty u ≡ true
      → missing_of u
          (detect_gpu_missing fl now delivers sid server_name gs
            (update_gpu_baseline polled gs rows)
            board).0
        ≡ (if is_shown u gs then some none else gone_since now (missing_of u rows))
  detect_gpu_missing-update_gpu_baseline polled gs rows board u n = ground (
    arith,
    detect_gpu_missing-missing_of gs (update_gpu_baseline polled gs rows) board u,
    update_gpu_baseline-missing_of polled gs rows u n,
  )
