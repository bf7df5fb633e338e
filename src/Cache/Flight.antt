-- ===== src/Cache/Flight.antt =====
-- `cached`: the calls of one process, each in its own thread. `_inflight` maps a key to the thread
-- that leads its computation (the source's event is its leader's). What the backend answers and
-- what `fn` does is the environment's choice; so is when a follower stops waiting, since
-- `ev.wait` has a timeout.
pub mod Single
use lab_gpu_server_monitor.Prelude.{
  ℕ, Bool, true, false, Option, none, some, List, [], ◌∷◌, if◌then◌else◌, Text, text_eq, nat_beq,
}
use lab_gpu_server_monitor.Prelude.Table.{lookup, insert, erase}

abbrev pub Flights : Type 0
Flights = List (Text × ℕ)

-- Where a call stands: before `backend.get`; before the lock; running `fn` as the leader; waiting
-- for a leader; running `fn` on its own; and its two ends.
pub data Phase {ℓ} (V : Type ℓ) : Type ℓ where
  start missed leading waiting direct : Phase V
  returned : V → Phase V
  raised : Phase V

pub data Reply {ℓ} (V : Type ℓ) : Type ℓ where
  found : V → Reply V
  missing failed : Reply V

pub data Outcome {ℓ} (V : Type ℓ) : Type ℓ where
  returns : V → Outcome V
  raises : Outcome V

pub data Event {ℓ} (V : Type ℓ) : Type ℓ where
  reply : Reply V → Event V
  lock : Event V
  outcome : Outcome V → Event V

module _ {ℓ} {V : Type ℓ} where
  abbrev pub after_probe : Reply V → Phase V
  after_probe (found v) = returned v
  after_probe missing = missed
  after_probe failed = direct

  abbrev pub after_wait : Reply V → Phase V
  after_wait (found v) = returned v
  after_wait missing = direct
  after_wait failed = direct

  abbrev pub after_fn : Outcome V → Phase V
  after_fn (returns v) = returned v
  after_fn raises = raised

  -- the first block under `_inflight_lock`
  unfoldable pub enter : ℕ → Text → Flights → Phase V × Flights
  enter t key f = elim (lookup key f) [ none ↦ (leading, insert key t f) | some _ ↦ (waiting, f) ]

  -- One part of the call of thread `t`; an event that the call does not wait for changes nothing.
  -- A leader leaves by its `finally`, whatever `fn` does.
  unfoldable pub advance : ℕ → Text → Phase V → Event V → Flights → Phase V × Flights
  advance t key start (reply r) f = (after_probe r, f)
  advance t key missed lock f = enter t key f
  advance t key leading (outcome o) f = (after_fn o, erase key f)
  advance t key waiting (reply r) f = (after_wait r, f)
  advance t key direct (outcome o) f = (after_fn o, f)
  advance t key p e f = (p, f)

pub record System {ℓ} (V : Type ℓ) : Type ℓ where
  pub phase : ℕ → Phase V
  pub flights : Flights

module _ {ℓ} {V : Type ℓ} (key : ℕ → Text) where
  abbrev pub put_phase : ℕ → Phase V → (ℕ → Phase V) → ℕ → Phase V
  put_phase t p ps u = if nat_beq t u then p else ps u

  unfoldable pub step : ℕ → Event V → System V → System V
  step t e s =
      let (p, f) = advance t (key t) (s.phase t) e s.flights in
      record { phase = put_phase t p s.phase; flights = f }

  -- The calls under a schedule: which thread goes on next, and by what.
  unfoldable pub run : List (ℕ × Event V) → System V → System V
  run [] s = s
  run ((t, e) ∷ more) s = run more (step t e s)

abbrev pub no_calls {ℓ} : {V : Type ℓ} → System V
no_calls = record { phase = λ _. start; flights = [] }
