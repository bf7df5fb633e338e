-- ===== src/Alerts/Events/Open.antt =====
-- The open events of `_eval_alerts` in backend/app/scheduler.py: how many a rule has for a server,
-- and when it has one.
use lab_gpu_server_monitor.Prelude.{
  ℕ, ◌+◌, ◌≤◌, ◌≡◌, refl, inl, inr, Bool, true, false, none, some, List, [], ◌∷◌, ◌++◌,
  if◌then◌else◌, Text, nat_beq, keep, any, find, length, arith, Bool-cases, Option-cases,
}
use lab_gpu_server_monitor.Alerts.{Floats, Sample, AlertRule, extract_metric}
use lab_gpu_server_monitor.Alerts.Events.{
  AlertEvent, Board, Pass, is_open_for, amend, closed, new_event, raise_alert, judge,
  in_maintenance, latest, eval_one, eval_rule, eval_alerts, targets,
}

module _ {ℓ} {A : Type ℓ} (p : A → Bool) where
  pub find-none : (xs : List A) → find p xs ≡ none → length (keep p xs) ≡ 0
  find-none [] h = refl
  find-none (x ∷ xs) h = ground (arith, find-none xs)

  pub count-append :
      (xs : List A) (y : A)
      → length (keep p (xs ++ y ∷ [])) ≡ length (keep p xs) + (if p y then 1 else 0)
  count-append [] y = ground arith
  count-append (x ∷ xs) y = ground (arith, count-append xs y)

  pub count-any : (xs : List A) → length (keep p xs) ≡ 0 → any p xs ≡ false
  count-any [] h = refl
  count-any (x ∷ xs) h = ground (arith, count-any xs)

  pub any-append : (xs : List A) (y : A) → p y ≡ true → any p (xs ++ y ∷ []) ≡ true
  any-append [] y h = ground arith
  any-append (x ∷ xs) y h = ground (arith, any-append xs y h)

  pub find-any : (xs : List A) (x : A) → find p xs ≡ some x → any p xs ≡ true
  find-any [] x h = ground arith
  find-any (y ∷ ys) x h = ground (arith, find-any ys x)

module _ {F : Type 0} where
  -- No rule has two open events for one server.
  abbrev pub OneOpen : Board F → Type 0
  OneOpen b = (r s : ℕ) → length (keep (is_open_for r s) b.events) ≤ 1

  -- the size of a test's part of a list, element by element
  count-cons :
      (p : AlertEvent F → Bool) (a b : AlertEvent F) (xs ys : List (AlertEvent F))
      → (p a ≡ true → p b ≡ true)
      → length (keep p xs) ≤ length (keep p ys)
      → length (keep p (a ∷ xs)) ≤ length (keep p (b ∷ ys))
  count-cons p a b xs ys h le = ground arith

  -- A change that opens nothing opens nothing in the table.
  pub amend-count :
      (p : AlertEvent F → Bool) (id : ℕ) (change : AlertEvent F → AlertEvent F)
      (es : List (AlertEvent F))
      → ((e : AlertEvent F) → p (change e) ≡ true → p e ≡ true)
      → length (keep p (amend id change es)) ≤ length (keep p es)
  unfolding amend
  amend-count p id change [] h = omega arith
  amend-count p id change (e ∷ es) h =
      count-cons p (if nat_beq e.id id then change e else e) e (amend id change es) es
        (same (nat_beq e.id id)) (amend-count p id change es h)
    where
      same : (b : Bool) → p (if b then change e else e) ≡ true → p e ≡ true
      same true q = h e q
      same false q = q

  -- An event that is closed is not open for anything.
  pub closed-open :
      (now r s : ℕ) (e : AlertEvent F)
      → is_open_for r s (closed now e) ≡ true
      → is_open_for r s e ≡ true
  closed-open now r s e h = ground arith

  -- Where the element that was found is the only one that passes, a change after which it fails
  -- leaves none that passes.
  pub amend-only :
      (p : AlertEvent F → Bool) (change : AlertEvent F → AlertEvent F) (e : AlertEvent F)
      (es : List (AlertEvent F))
      → ((x : AlertEvent F) → p (change x) ≡ false)
      → find p es ≡ some e
      → length (keep p es) ≤ 1
      → any p (amend e.id change es) ≡ false
  unfolding amend
  amend-only p change e [] never h le = ground arith
  amend-only p change e (x ∷ xs) never h le = elim (Bool-cases (p x)) [
    | inl here ↦
        let few : length (keep p (amend e.id change xs)) ≤ length (keep p xs) =
          amend-count p e.id change xs (λ y q. ground (arith, never y)) in
        let same : x ≡ e = ground arith in
        ground (arith, few, never x, same, count-any p (amend e.id change xs))
    | inr there ↦
        let rest : any p (amend e.id change xs) ≡ false =
          amend-only p change e xs never (ground arith) (ground arith) in
        ground (arith, rest, never x, there)
  ]

  pub closed-shut : (now r s : ℕ) (e : AlertEvent F) → is_open_for r s (closed now e) ≡ false
  closed-shut now r s e = ground arith

module _ {F : Type 0} (fl : Floats F) (label : Text → Text) (env : Pass F) where
  raise_alert-OneOpen :
      (rule : AlertRule F) (sid : ℕ) (m : Sample F) (value : F) (b : Board F)
      → OneOpen b
      → find (is_open_for rule.id sid) b.events ≡ none
      → OneOpen (raise_alert fl label env rule sid m value b)
  raise_alert-OneOpen rule sid m value b h absent r s =
      let e = new_event fl label env rule sid m value b in
      let grown = count-append (is_open_for r s) b.events e in
      elim (Bool-cases (is_open_for r s e)) [
        | inl here ↦
            let same_rule : rule.id ≡ r = ground arith in
            let same_server : sid ≡ s = ground arith in
            let empty : length (keep (is_open_for r s) b.events) ≡ 0 =
              find-none (is_open_for r s) b.events (cc) in
            ground (arith, grown, empty)
        | inr there ↦ ground (arith, grown, there, h r s)
      ]

  judge-OneOpen :
      (rule : AlertRule F) (sid : ℕ) (m : Sample F) (value : F) (b : Board F)
      → OneOpen b
      → OneOpen (judge fl label env rule sid m value b)
  unfolding judge
  judge-OneOpen rule sid m value b h r s =
      elim (Option-cases (find (is_open_for rule.id sid) b.events)) [
        | inl absent ↦
            let more = raise_alert-OneOpen rule sid m value b h absent r s in
            ground (arith, more, h r s)
        | inr (e, found) ↦
            let less =
              amend-count (is_open_for r s) e.id (closed env.now) b.events
                (λ y q. ground (arith, closed-shut env.now r s y)) in
            ground (arith, less, h r s)
      ]

  eval_one-OneOpen :
      (rule : AlertRule F) (sid : ℕ) (b : Board F)
      → OneOpen b
      → OneOpen (eval_one fl label env rule sid b)
  unfolding eval_one
  eval_one-OneOpen rule sid b h r s = elim (Bool-cases (in_maintenance fl label env sid)) [
    | inl off ↦ ground (arith, h r s)
    | inr on ↦ elim (Option-cases (latest fl label env sid)) [
      | inl missing ↦ ground (arith, h r s)
      | inr (m, there) ↦ elim (Option-cases (extract_metric fl m rule.metric)) [
        | inl unread ↦ ground (arith, h r s)
        | inr (value, read) ↦
            let judged = judge-OneOpen rule sid m value b h r s in ground (arith, judged)
      ]
    ]
  ]

  eval_rule-OneOpen :
      (rule : AlertRule F) (sids : List ℕ) (b : Board F)
      → OneOpen b
      → OneOpen (eval_rule fl label env rule sids b)
  unfolding eval_rule
  eval_rule-OneOpen rule [] b h = h
  eval_rule-OneOpen rule (sid ∷ sids) b h =
      eval_rule-OneOpen rule sids (eval_one fl label env rule sid b) (eval_one-OneOpen rule sid b h)

  -- An evaluation of any rules leaves at most one open event for a rule and a server, if there was
  -- at most one before.
  pub eval_alerts-OneOpen :
      (rules : List (AlertRule F)) (b : Board F)
      → OneOpen b
      → OneOpen (eval_alerts fl label env rules b)
  unfolding eval_alerts
  eval_alerts-OneOpen [] b h = h
  eval_alerts-OneOpen (rule ∷ rules) b h =
      eval_alerts-OneOpen rules (if rule.enabled then rated else b) (either rule.enabled)
    where
      rated : Board F
      rated = eval_rule fl label env rule (targets fl label env rule) b

      either : (on : Bool) → OneOpen (if on then rated else b)
      either true = eval_rule-OneOpen rule (targets fl label env rule) b h
      either false = h
