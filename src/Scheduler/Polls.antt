-- ===== src/Scheduler/Polls.antt =====
-- The guard of polls in flight in backend/app/scheduler.py, over sequences of begins and ends.
use lab_gpu_server_monitor.Prelude.{
  ℕ, ◌+◌, ◌≤◌, ◌≡◌, refl, true, not, ◌&&◌, List, [], ◌∷◌, if◌then◌else◌, Text, text_eq, nat_beq,
  ◌==◌, any, keep, length, arith,
}
use lab_gpu_server_monitor.Scheduler.{Busy, same_poll, server_begin, server_end}

-- A cycle asks for a poll and does it if it may; a poll that runs ends (`finally`).
pub data Turn : Type 0 where
  asks : ℕ → Text → Turn
  ends : ℕ → Text → Turn

-- the set, and the polls that run
pub record Polls : Type 0 where
  pub busy : Busy
  pub running : List (ℕ × Text)

-- a poll that ends leaves the list of those that run, once
unfoldable pub remove_poll : ℕ → Text → List (ℕ × Text) → List (ℕ × Text)
remove_poll sid tier [] = []
remove_poll sid tier (p ∷ ps) =
    let rest = remove_poll sid tier ps in if same_poll sid tier p then ps else p ∷ rest

unfoldable pub turn : Turn → Polls → Polls
turn (asks sid tier) p =
    let (mine, busy) = server_begin sid tier p.busy in
    if mine
    then record { busy = busy; running = (sid, tier) ∷ p.running }
    else record p { busy = busy }
turn (ends sid tier) p =
    if any (same_poll sid tier) p.running
    then record { busy = server_end sid tier p.busy; running = remove_poll sid tier p.running }
    else p

unfoldable pub turns : List Turn → Polls → Polls
turns [] p = p
turns (t ∷ ts) p = turns ts (turn t p)

abbrev pub idle_scheduler : Polls
idle_scheduler = record { busy = []; running = [] }

abbrev runs : ℕ → Text → List (ℕ × Text) → ℕ
runs sid tier ps = length (keep (same_poll sid tier) ps)

-- a poll that runs is alone of its kind, and in the set
abbrev IsExclusive : Polls → Type 0
IsExclusive p =
    (s : ℕ) (t : Text) → runs s t p.running ≡ (if any (same_poll s t) p.busy then 1 else 0)

any-not_same :
    (sid s : ℕ) (tier t : Text) (ps : Busy)
    → any (same_poll s t) (keep (λ b. not (same_poll sid tier b)) ps)
      ≡ (any (same_poll s t) ps && not (nat_beq sid s && tier == t))
any-not_same sid s tier t [] = refl
any-not_same sid s tier t ((i, u) ∷ ps) = ground (
  arith,
  text_eq.beq_iff u t,
  text_eq.beq_iff u tier,
  text_eq.beq_iff tier t,
  any-not_same sid s tier t ps,
)

runs-remove_poll :
    (sid s : ℕ) (tier t : Text) (ps : List (ℕ × Text))
    → any (same_poll sid tier) ps ≡ true
    → runs s t ps
      ≡ (if nat_beq sid s && tier == t then 1 else 0) + runs s t (remove_poll sid tier ps)
unfolding remove_poll
runs-remove_poll sid s tier t [] h = ground arith
runs-remove_poll sid s tier t ((i, u) ∷ ps) h = ground (
  arith,
  text_eq.beq_iff u t,
  text_eq.beq_iff u tier,
  text_eq.beq_iff tier t,
  runs-remove_poll sid s tier t ps,
)

turn-IsExclusive : (t : Turn) (p : Polls) → IsExclusive p → IsExclusive (turn t p)
unfolding turn server_begin server_end
turn-IsExclusive (asks sid tier) p h s t = ground (arith, text_eq.beq_iff tier t, h s t, h sid tier)
turn-IsExclusive (ends sid tier) p h s t = ground (
  arith,
  text_eq.beq_iff tier t,
  h s t,
  h sid tier,
  any-not_same sid s tier t p.busy,
  runs-remove_poll sid s tier t p.running,
)

turns-IsExclusive : (ts : List Turn) (p : Polls) → IsExclusive p → IsExclusive (turns ts p)
unfolding turns
turns-IsExclusive [] p h = h
turns-IsExclusive (t ∷ ts) p h = turns-IsExclusive ts (turn t p) (turn-IsExclusive t p h)

-- Whatever cycles ask for and whichever polls end, in any order, no two polls of one server and tier
-- run at once.
pub turns-one_poll :
    (ts : List Turn) (sid : ℕ) (tier : Text)
    → length (keep (same_poll sid tier) (turns ts idle_scheduler).running) ≤ 1
turns-one_poll ts sid tier =
    ground (arith, turns-IsExclusive ts idle_scheduler (λ s t. refl) sid tier)
