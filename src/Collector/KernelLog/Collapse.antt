-- ===== src/Collector/KernelLog/Collapse.antt =====
-- What `parse_kernel_log` of backend/app/collectors_extra.py keeps of an incident without memory.
use lab_gpu_server_monitor.Prelude.{
  ℕ, zero, suc, ◌≤◌, ◌<◌, ◌≡◌, refl, ap, ◌∙◌, Bool, true, not, some, List, [], ◌∷◌, Text, text_eq,
  nat_beq, ltb, any, keep, take, length, arith, inl, inr, Bool-cases,
}
use lab_gpu_server_monitor.Scheduler.KernelLog.{KernelEvent}
use lab_gpu_server_monitor.Collector.{splitlines}
use lab_gpu_server_monitor.Collector.KernelLog.{
  Letters, is_oom, names_victim, first_index, kept_index, keep_only, collapse, line_events,
  parse_kernel_log,
}

abbrev pub is_other : KernelEvent → Bool
is_other e = not (is_oom e)

-- events of other kinds all stay
keep_only-other :
    (kept i : ℕ) (events : List KernelEvent)
    → keep is_other (keep_only kept i events) ≡ keep is_other events
unfolding keep_only
keep_only-other kept i [] = refl
keep_only-other kept i (e ∷ events) = ground (arith, keep_only-other kept (suc i) events)

-- of the others, at most the one at the place
keep_only-after :
    (kept i : ℕ) (events : List KernelEvent) → kept < i → keep is_oom (keep_only kept i events) ≡ []
unfolding keep_only
keep_only-after kept i [] h = refl
keep_only-after kept i (e ∷ events) h = ground (arith, keep_only-after kept (suc i) events)

keep_only-oom :
    (kept i : ℕ) (events : List KernelEvent) → length (keep is_oom (keep_only kept i events)) ≤ 1
unfolding keep_only
keep_only-oom kept i [] = omega arith
keep_only-oom kept i (e ∷ events) = elim (Bool-cases (nat_beq i kept)) [
  | inl here ↦ ground (arith, here, keep_only-after kept (suc i) events)
  | inr other ↦ ground (arith, other, keep_only-oom kept (suc i) events)
]

length-keep-take :
    (p : KernelEvent → Bool) (m : ℕ) (events : List KernelEvent)
    → length (keep p (take m events)) ≤ length (keep p events)
length-keep-take p zero events = omega arith
length-keep-take p (suc m) [] = omega arith
length-keep-take p (suc m) (e ∷ events) = ground (arith, length-keep-take p m events)

length-take-events : (m : ℕ) (events : List KernelEvent) → length (take m events) ≤ m
length-take-events zero events = omega arith
length-take-events (suc m) [] = omega arith
length-take-events (suc m) (e ∷ events) = omega (arith, length-take-events m events)

collapse-oom : (events : List KernelEvent) → length (keep is_oom (collapse events)) ≤ 1
unfolding collapse
collapse-oom events = ground (arith, keep_only-oom (kept_index events) 0 events)

collapse-other :
    (events : List KernelEvent) → keep is_other (collapse events) ≡ keep is_other events
unfolding collapse
collapse-other events = ground (arith, keep_only-other (kept_index events) 0 events)

first_index-any :
    (p : KernelEvent → Bool) (i : ℕ) (events : List KernelEvent)
    → any p events ≡ true
    → (k : ℕ) × (first_index p i events ≡ some k)
unfolding first_index
first_index-any p i [] h = absurd cc
first_index-any p i (e ∷ events) h = elim (Bool-cases (p e)) [
  | inl here ↦ (i, rw here refl)
  | inr other ↦
      let (k, found) = first_index-any p (suc i) events (ground (arith, other, h)) in
      (k, rw other found)
]

first_index-kept :
    (p : KernelEvent → Bool) (i k : ℕ) (events : List KernelEvent)
    → first_index p i events ≡ some k
    → any p (keep_only k i events) ≡ true
unfolding first_index keep_only
first_index-kept p i k [] h = absurd cc
first_index-kept p i k (e ∷ events) h = elim (Bool-cases (p e)) [
  | inl here ↦ ground (arith, here, h)
  | inr other ↦ ground (arith, other, h, first_index-kept p (suc i) k events)
]

collapse-victim :
    (events : List KernelEvent)
    → any names_victim events ≡ true
    → any names_victim (collapse events) ≡ true
unfolding collapse
collapse-victim events h =
    let (k, found) = first_index-any names_victim 0 events h in
    let kept = first_index-kept names_victim 0 k events found in
    let place : kept_index events ≡ k = rw (kept_index, found) refl in
    elim (Bool-cases (ltb 1 (length (keep is_oom events)))) [
      | inl many ↦
          rw (collapse, many) (ap (λ j. any names_victim (keep_only j 0 events)) place ∙ kept)
      | inr few ↦ rw (collapse, few) h
    ]

take-all : (m : ℕ) (events : List KernelEvent) → length events ≤ m → take m events ≡ events
take-all zero [] h = refl
take-all zero (e ∷ events) h = absurd (omega arith)
take-all (suc m) [] h = refl
take-all (suc m) (e ∷ events) h = ap (λ es. e ∷ es) (take-all m events (omega arith))

-- What is kept.
pub parse_kernel_log-one_oom :
    (u : Letters) (text : Text)
    → (length (parse_kernel_log u text) ≤ 100)
      × (length (keep is_oom (parse_kernel_log u text)) ≤ 1)
unfolding parse_kernel_log
parse_kernel_log-one_oom u text =
    let events = line_events u (splitlines text) in
    (
      length-take-events 100 (collapse events),
      omega (arith, length-keep-take is_oom 100 (collapse events), collapse-oom events),
    )

-- Of a log whose events name a victim that was killed for want of memory, and of which at most 100
-- events are left, one out-of-memory event at most is kept, it names a victim, and all other
-- events stay as they are.
pub parse_kernel_log-collapse :
    (u : Letters) (text : Text) (events : List KernelEvent)
    → line_events u (splitlines text) ≡ events
    → length (collapse events) ≤ 100
    → any names_victim events ≡ true
    → (length (keep is_oom (parse_kernel_log u text)) ≤ 1)
      × (keep is_other (parse_kernel_log u text) ≡ keep is_other events)
      × (any names_victim (parse_kernel_log u text) ≡ true)
unfolding parse_kernel_log
parse_kernel_log-collapse u text events read short victim =
    let same : parse_kernel_log u text ≡ collapse events =
      ap (λ es. take 100 (collapse es)) read ∙ take-all 100 (collapse events) short in
    (
      (parse_kernel_log-one_oom u text).1,
      ap (keep is_other) same ∙ collapse-other events,
      ap (any names_victim) same ∙ collapse-victim events victim,
    )
