-- ===== src/Alerts/Events/Outcome.antt =====
-- What one rule's evaluation on one server does to the alert, in backend/app/scheduler.py.
use lab_gpu_server_monitor.Prelude.{
  ℕ, ◌≡◌, ◌∙◌, ap, inl, inr, Bool, false, not, ◌&&◌, ◌||◌, none, some, if◌then◌else◌, Text, any,
  find, arith, Option-cases,
}
use lab_gpu_server_monitor.Alerts.{Floats, Sample, AlertRule, extract_metric, breaches, sustained}
use lab_gpu_server_monitor.Alerts.Events.{
  Board, Pass, is_none, is_open_for, closed, new_event, judge, in_maintenance, latest, eval_one,
}
use lab_gpu_server_monitor.Alerts.Events.Open.{
  OneOpen, find-none, find-any, count-any, any-append, amend-only, closed-shut,
}

module _ {F : Type 0} where
  -- whether the open event of a rule and a server is acknowledged
  abbrev pub is_acked : ℕ → ℕ → Board F → Bool
  is_acked rule_id sid b = elim (find (is_open_for rule_id sid) b.events) [
    | none ↦ false
    | some e ↦ not (is_none e.acked_at)
  ]

  abbrev pub has_open : ℕ → ℕ → Board F → Bool
  has_open rule_id sid b = any (is_open_for rule_id sid) b.events

module _ {F : Type 0} (fl : Floats F) (label : Text → Text) (env : Pass F) where
  judge-open :
      (rule : AlertRule F) (sid : ℕ) (m : Sample F) (value : F) (b : Board F)
      → OneOpen b
      → has_open rule.id sid (judge fl label env rule sid m value b) ≡ (
          if has_open rule.id sid b
          then is_acked rule.id sid b || breaches fl rule value
          else breaches fl rule value && sustained fl rule env.interval env.samples m)
  unfolding judge
  judge-open rule sid m value b h =
      let p = is_open_for {F = F} rule.id sid in
      elim (Option-cases (find p b.events)) [
        | inl absent ↦
            let before = count-any p b.events (find-none p b.events absent) in
            let after = any-append p b.events (new_event fl label env rule sid m value b) in
            ground (arith, before, after, absent)
        | inr (e, found) ↦
            let before = find-any p b.events e found in
            let gone =
              amend-only p (closed env.now) e b.events (closed-shut env.now rule.id sid) found
                (h rule.id sid) in
            ground (arith, before, gone, found)
      ]

  -- On a server with a good sample that has the metric, and out of maintenance, a rule that had at
  -- most one open event there has one after its evaluation exactly if it had one that is
  -- acknowledged or whose breach goes on, or had none and the breach has held for the rule's
  -- duration. So an acknowledged event does not recover when its breach ends, although README.md
  -- says that it does.
  pub eval_one-open :
      (rule : AlertRule F) (sid : ℕ) (m : Sample F) (value : F) (b : Board F)
      → OneOpen b
      → in_maintenance fl label env sid ≡ false
      → latest fl label env sid ≡ some m
      → extract_metric fl m rule.metric ≡ some value
      → has_open rule.id sid (eval_one fl label env rule sid b) ≡ (
          if has_open rule.id sid b
          then is_acked rule.id sid b || breaches fl rule value
          else breaches fl rule value && sustained fl rule env.interval env.samples m)
  unfolding eval_one
  eval_one-open rule sid m value b h on there read =
      let same : eval_one fl label env rule sid b ≡ judge fl label env rule sid m value b =
        ground (arith, on, there, read) in
      ap (has_open rule.id sid) same ∙ judge-open rule sid m value b h
