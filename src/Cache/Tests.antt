-- ===== src/Cache/Tests.antt =====
-- The cache on concrete runs, and its theorems at inputs that meet their hypotheses.
use lab_gpu_server_monitor.Prelude.{
  ℕ, ◌≡◌, ◌≢◌, refl, false, none, some, List, [], ◌∷◌, arith, Text, codes, text_eq, text_beq,
  starts_with,
}
use lab_gpu_server_monitor.Prelude.Table.Eviction.{drop_oldest}
use lab_gpu_server_monitor.Cache.{Backend, get, set, clear, invalidate_prefix}
use lab_gpu_server_monitor.Cache.Memory.{IsValid}
use lab_gpu_server_monitor.Cache.Flight.{
  Phase, leading, returned, missing, found, returns, Event, reply, lock, outcome, System, enter,
  advance, step, run, no_calls,
}
use lab_gpu_server_monitor.Cache.Flight.Single.{run-single_leader, run-no_leak}

program : Unit {0}
unfolding get set clear invalidate_prefix drop_oldest text_beq starts_with enter advance step run
program = tt

abbrev empty : Backend ℕ
empty = record { entries = []; next_sweep = 0 }

abbrev latest : Text
latest = codes "latest:1"

abbrev dashboard : Text
dashboard = codes "dashboard"

abbrev one : Backend ℕ
one = set 10 latest (some 7) 5 empty

read_fresh : (get 15 latest one).0 ≡ some 7
unfolding program
read_fresh = refl

read_expired : get 16 latest one ≡ (none, record { entries = []; next_sweep = 60000010 })
unfolding program
read_expired = refl

dropped : (get 12 latest (invalidate_prefix (codes "latest") one)).0 ≡ none
unfolding program
dropped = refl

-- Two calls of one key: the second waits, and then reads what the first has stored.
abbrev schedule : List (ℕ × Event ℕ)
schedule =
    (1, reply missing)
    ∷ (2, reply missing)
    ∷ (1, lock)
    ∷ (2, lock)
    ∷ (1, outcome (returns 7))
    ∷ (2, reply (found 7))
    ∷ []

abbrev same_key : ℕ → Text
same_key t = latest

abbrev after : System ℕ
after = run same_key schedule no_calls

both_return : ◌≡◌ {A = Phase ℕ × Phase ℕ} (after.phase 1, after.phase 2) (returned 7, returned 7)
unfolding program
both_return = refl

empty-IsValid : IsValid empty
empty-IsValid = record { distinct = tt; size = omega arith }

keys_differ : text_beq dashboard latest ≡ false
unfolding program
keys_differ = refl

first_leads :
    (run same_key ((1, reply missing) ∷ (1, lock) ∷ []) (no_calls {V = ℕ})).phase 1 ≡ leading
unfolding program
first_leads = refl

run-single_leader_example : ◌≡◌ {A = ℕ} 1 1
run-single_leader_example =
    run-single_leader {V = ℕ} same_key ((1, reply missing) ∷ (1, lock) ∷ []) 1 1 first_leads
      first_leads refl

-- The phases of the calls after the schedule.
none_leads : (t : ℕ) → after.phase t ≢ leading
unfolding program
none_leads t = λ h. ground arith

run-no_leak_example : after.flights ≡ []
run-no_leak_example = run-no_leak same_key schedule none_leads
