-- ===== src/Alerts/Events/Routes.antt =====
-- An administrator's and a viewer's actions on an event, `ack_event`, `resolve_event` and
-- `assign_event` of backend/app/api/alerts.py. The body's value is the
-- text that `str(…)` makes of it.
use lab_gpu_server_monitor.Prelude.{
  ℕ, ◌≡◌, true, not, text_eq, nat_eq, Option, none, some, List, [], ◌∷◌, ◌++◌, if◌then◌else◌, Text,
  codes, nat_beq, find, arith, non_empty, strip, take,
}
use lab_gpu_server_monitor.Account.{Answer, ok, http}
use lab_gpu_server_monitor.Alerts.{Floats, AlertRule}
use lab_gpu_server_monitor.Alerts.Events.{
  AlertEvent, Board, Pass, is_none, is_open_for, amend, closed, eval_alerts,
}
use lab_gpu_server_monitor.Alerts.Events.Open.{
  OneOpen, amend-count, closed-open, eval_alerts-OneOpen,
}

module _ {F : Type 0} where
  -- `db.get(AlertEvent, event_id)`
  abbrev pub event_at : ℕ → Board F → Option (AlertEvent F)
  event_at id b = find (λ e. nat_beq e.id id) b.events

  abbrev pub change_event : ℕ → (AlertEvent F → AlertEvent F) → Board F → Board F
  change_event id change b = record b { events = amend id change b.events }

  abbrev pub acked : ℕ → Text → AlertEvent F → AlertEvent F
  acked now who e = record e { acked_at = some now; acked_by = who }

  abbrev pub assigned : Text → AlertEvent F → AlertEvent F
  assigned who e = record e { assignee = who }

  abbrev pub note : Text → Text → Text → Board F → Board F
  note username action detail b = record b {
    audit_log = b.audit_log ++ (username, action, take 500 detail) ∷ [];
  }

module _ {F : Type 0} (fl : Floats F) where
  -- `f"event {event_id}…"`
  abbrev pub event_text : ℕ → Text → Text
  event_text id more = codes "event " ++ (fl.show (fl.of_int id) ++ more)

  abbrev pub in_parens : Text → Text
  in_parens t = codes " (" ++ (t ++ codes ")")

  unfoldable pub ack_event : ℕ → ℕ → Text → Board F → Answer (Unit {0}) × Board F
  ack_event now id admin b = elim (event_at id b) [
    | none ↦ (http 404, b)
    | some ev ↦ if not (is_none ev.recovered_at) then (http 400, b) else (
      ok tt,
      note admin (codes "alert.ack") (event_text id (in_parens ev.rule_name))
          (if is_none ev.acked_at then change_event id (acked now admin) b else b),
    )
  ]

  unfoldable pub resolve_event : ℕ → ℕ → Text → Board F → Answer (Unit {0}) × Board F
  resolve_event now id admin b = elim (event_at id b) [
    | none ↦ (http 404, b)
    | some ev ↦ (
      ok tt,
      note admin (codes "alert.resolve") (event_text id (in_parens ev.rule_name))
          (if is_none ev.recovered_at then change_event id (closed now) b else b),
    )
  ]

  unfoldable pub assign_event : ℕ → Text → Text → Board F → Answer Text × Board F
  assign_event id body user b = elim (event_at id b) [
    | none ↦ (http 404, b)
    | some _ ↦
        let assignee = take 64 (strip body) in
        let who = if non_empty assignee then assignee else user in
        (
          ok who,
          note user (codes "alert.assign") (event_text id (codes " -> " ++ who))
              (change_event id (assigned who) b),
        )
  ]

-- What happens to the table: a pass of the scheduler, or an action of a user.
pub data Action (F : Type 0) : Type 0 where
  evaluated : Pass F → List (AlertRule F) → Action F
  acknowledged : ℕ → ℕ → Text → Action F
  resolved : ℕ → ℕ → Text → Action F
  taken : ℕ → Text → Text → Action F

module _ {F : Type 0} where
  change_event-OneOpen :
      (id : ℕ) (change : AlertEvent F → AlertEvent F) (b : Board F)
      → ((r s : ℕ) (e : AlertEvent F)
          → is_open_for r s (change e) ≡ true
          → is_open_for r s e ≡ true)
      → OneOpen b
      → OneOpen (change_event id change b)
  change_event-OneOpen id change b shut h r s =
      omega (arith, h r s, amend-count (is_open_for r s) id change b.events (shut r s))

module _ {F : Type 0} (fl : Floats F) where
  ack_event-OneOpen :
      (now id : ℕ) (who : Text) (b : Board F) → OneOpen b → OneOpen (ack_event fl now id who b).1
  unfolding ack_event
  ack_event-OneOpen now id who b h r s =
      let done = change_event-OneOpen id (acked now who) b (λ r' s' e q. ground (arith, q)) h r s in
      ground (arith, done, h r s)

  resolve_event-OneOpen :
      (now id : ℕ) (who : Text) (b : Board F)
      → OneOpen b
      → OneOpen (resolve_event fl now id who b).1
  unfolding resolve_event
  resolve_event-OneOpen now id who b h r s =
      let done = change_event-OneOpen id (closed now) b (closed-open now) h r s in
      ground (arith, done, h r s)

  assign_event-OneOpen :
      (id : ℕ) (body user : Text) (b : Board F)
      → OneOpen b
      → OneOpen (assign_event fl id body user b).1
  unfolding assign_event
  assign_event-OneOpen id body user b h r s =
      let who = if non_empty (take 64 (strip body)) then take 64 (strip body) else user in
      let done = change_event-OneOpen id (assigned who) b (λ r' s' e q. ground (arith, q)) h r s in
      ground (arith, done, h r s)

module _ {F : Type 0} (fl : Floats F) (label : Text → Text) where
  unfoldable pub act : Action F → Board F → Board F
  act (evaluated env rules) b = eval_alerts fl label env rules b
  act (acknowledged now id who) b = (ack_event fl now id who b).1
  act (resolved now id who) b = (resolve_event fl now id who b).1
  act (taken id body user) b = (assign_event fl id body user b).1

  unfoldable pub act_all : List (Action F) → Board F → Board F
  act_all [] b = b
  act_all (a ∷ more) b = act_all more (act a b)

  -- Whatever passes of the scheduler and actions of users follow one another, no rule has two open
  -- events for one server, if none had before.
  pub act_all-OneOpen :
      (actions : List (Action F)) (b : Board F) → OneOpen b → OneOpen (act_all actions b)
  unfolding act_all act
  act_all-OneOpen [] b h = h
  act_all-OneOpen (evaluated env rules ∷ more) b h =
      act_all-OneOpen more (eval_alerts fl label env rules b)
        (eval_alerts-OneOpen fl label env rules b h)
  act_all-OneOpen (acknowledged now id who ∷ more) b h =
      act_all-OneOpen more (ack_event fl now id who b).1 (ack_event-OneOpen fl now id who b h)
  act_all-OneOpen (resolved now id who ∷ more) b h =
      act_all-OneOpen more (resolve_event fl now id who b).1
        (resolve_event-OneOpen fl now id who b h)
  act_all-OneOpen (taken id body user ∷ more) b h =
      act_all-OneOpen more (assign_event fl id body user b).1
        (assign_event-OneOpen fl id body user b h)
