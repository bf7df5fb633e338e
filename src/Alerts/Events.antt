-- ===== src/Alerts/Events.antt =====
-- The rows of `alert_events` and what writes them: `_eval_alerts` of backend/app/scheduler.py, the
-- detectors' `_fire`, `_recover` and `_ttl_recover_point_events` of backend/app/health.py, and the
-- routes of backend/app/api/alerts.py that acknowledge, resolve and assign an event. The table is
-- in the order of insertion; of several rows a query's `.first()` is the oldest.
pub mod Open
pub mod Outcome
pub mod Routes
use lab_gpu_server_monitor.Prelude.{
  ℕ, ◌+◌, ◌*◌, Bool, true, false, not, ◌&&◌, ◌||◌, Option, none, some, List, [], ◌∷◌, ◌++◌,
  if◌then◌else◌, Text, codes, text_eq, nat_eq, nat_beq, ltb, leb, ◌==◌, any, find, map, non_empty,
  take, strip,
}
use lab_gpu_server_monitor.Account.{Audit}
use lab_gpu_server_monitor.RateLimit.{second}
use lab_gpu_server_monitor.Alerts.{
  Floats, Sample, AlertRule, extract_metric, breaches, sustained, latest_from,
}

pub record AlertEvent (F : Type 0) : Type 0 where
  pub id : ℕ
  -- the rule, or none for an event of a detector
  pub rule_id : Option ℕ
  pub rule_name : Text
  pub server_id : ℕ
  pub server_name : Text
  pub metric : Text
  pub value : F
  pub threshold : F
  pub message : Text
  pub triggered_at : ℕ
  pub recovered_at : Option ℕ
  pub notified : Bool
  pub acked_at : Option ℕ
  pub acked_by : Text
  pub assignee : Text

-- What is handed to the notifier.
pub data Notice : Type 0 where
  alert : Text → Text → Text → Notice
  recovery : Text → Text → Text → Notice

pub record Board (F : Type 0) : Type 0 where
  pub events : List (AlertEvent F)
  pub next_id : ℕ
  pub notices : List Notice
  -- entries are `(username, action, detail)`
  pub audit_log : Audit

abbrev pub is_none {ℓ} : {A : Type ℓ} → Option A → Bool
is_none none = true
is_none (some _) = false

abbrev same_rule : Option ℕ → Option ℕ → Bool
same_rule none none = true
same_rule (some a) (some b) = nat_beq a b
same_rule none (some _) = false
same_rule (some _) none = false

-- The environment of one pass: the clock, the poll interval, whether some channel accepts a notice,
-- the enabled servers in the order of their ids with their status, and the samples in the order of
-- theirs.
pub record Pass (F : Type 0) : Type 0 where
  pub now : ℕ
  pub interval : ℕ
  pub delivers : Notice → Bool
  pub servers : List (ℕ × Text)
  pub samples : List (Sample F)

module _ {F : Type 0} where
  abbrev pub is_open : AlertEvent F → Bool
  is_open e = is_none e.recovered_at

  -- the filter of the rules' query for the open event
  abbrev pub is_open_for : ℕ → ℕ → AlertEvent F → Bool
  is_open_for rule_id sid e =
      same_rule e.rule_id (some rule_id) && (nat_beq e.server_id sid && is_open e)

  -- the row with an id is changed
  unfoldable pub amend :
      ℕ → (AlertEvent F → AlertEvent F) → List (AlertEvent F) → List (AlertEvent F)
  amend id change [] = []
  amend id change (e ∷ es) = (if nat_beq e.id id then change e else e) ∷ amend id change es

  abbrev pub closed : ℕ → AlertEvent F → AlertEvent F
  closed now e = record e { recovered_at = some now }

  abbrev pub recover : Pass F → AlertEvent F → AlertRule F → Board F → Board F
  recover env e rule b = record b {
    events = amend e.id (closed env.now) b.events;
    notices =
        b.notices
        ++ recovery e.server_name e.metric
            (if non_empty e.rule_name then e.rule_name else rule.name)
          ∷ [];
  }

module _ {F : Type 0} (fl : Floats F) (label : Text → Text) where
  -- `f"{METRIC_LABELS.get(…)} {round(value,1)} {rule.op} {rule.threshold}"`
  abbrev pub message_of : AlertRule F → F → Text
  message_of rule value =
      label rule.metric
      ++ (b' '
          ∷ (fl.show (fl.round value) ++ (b' ' ∷ (rule.op ++ (b' ' ∷ fl.show rule.threshold)))))

  abbrev pub name_of : ℕ → Sample F → Text
  name_of sid m = if non_empty m.hostname then m.hostname else fl.show (fl.of_int sid)

  abbrev pub new_event : Pass F → AlertRule F → ℕ → Sample F → F → Board F → AlertEvent F
  new_event env rule sid m value b = record {
    id = b.next_id;
    rule_id = some rule.id;
    rule_name = rule.name;
    server_id = sid;
    server_name = name_of sid m;
    metric = rule.metric;
    value = fl.round value;
    threshold = rule.threshold;
    message = message_of rule value;
    triggered_at = env.now;
    recovered_at = none;
    notified = env.delivers (alert (name_of sid m) rule.metric rule.name);
    acked_at = none;
    acked_by = [];
    assignee = [];
  }

  abbrev pub raise_alert : Pass F → AlertRule F → ℕ → Sample F → F → Board F → Board F
  raise_alert env rule sid m value b = record b {
    events = b.events ++ new_event env rule sid m value b ∷ [];
    next_id = b.next_id + 1;
    notices = b.notices ++ alert (name_of sid m) rule.metric rule.name ∷ [];
  }

  -- the body of the loop once the value is known
  unfoldable pub judge : Pass F → AlertRule F → ℕ → Sample F → F → Board F → Board F
  judge env rule sid m value b = elim (find (is_open_for rule.id sid) b.events) [
    | some e ↦
        if not (is_none e.acked_at)
        then b
        else if breaches fl rule value
        then b
        else recover env e rule b
    | none ↦
        if breaches fl rule value && sustained fl rule env.interval env.samples m
        then raise_alert env rule sid m value b
        else b
  ]

  abbrev pub in_maintenance : Pass F → ℕ → Bool
  in_maintenance env sid = any (λ s. nat_beq s.0 sid && s.1 == codes "maintenance") env.servers

  -- `latest_by_server.get(sid)`
  abbrev pub latest : Pass F → ℕ → Option (Sample F)
  latest env sid =
      if any (λ s. nat_beq s.0 sid) env.servers then latest_from fl sid none env.samples else none

  -- one rule on one server
  unfoldable pub eval_one : Pass F → AlertRule F → ℕ → Board F → Board F
  eval_one env rule sid b = if in_maintenance env sid then b else elim (latest env sid) [
    | none ↦ b
    | some m ↦ elim (extract_metric fl m rule.metric) [
      | none ↦ b
      | some value ↦ judge env rule sid m value b
    ]
  ]

  -- a server without a sample is passed over by `eval_one`
  abbrev pub targets : Pass F → AlertRule F → List ℕ
  targets env rule = elim rule.target [
    | none ↦ map (λ s. s.0) env.servers
    | some sid ↦ if nat_beq sid 0 then map (λ s. s.0) env.servers else sid ∷ []
  ]

  unfoldable pub eval_rule : Pass F → AlertRule F → List ℕ → Board F → Board F
  eval_rule env rule [] b = b
  eval_rule env rule (sid ∷ sids) b = eval_rule env rule sids (eval_one env rule sid b)

  -- `_eval_alerts`
  unfoldable pub eval_alerts : Pass F → List (AlertRule F) → Board F → Board F
  eval_alerts env [] b = b
  eval_alerts env (rule ∷ rules) b =
      eval_alerts env rules (if rule.enabled then eval_rule env rule (targets env rule) b else b)
