-- ===== src/Scheduler.antt =====
-- The scheduler's own work in backend/app/scheduler.py: the guard of polls in flight, the end of
-- maintenance windows; in the children, kernel events, idle GPUs, retention and the hourly rollup.
pub mod Polls
pub mod KernelLog
pub mod Idle
pub mod Retention
pub mod Hourly
pub mod Fixtures
mod Tests
use lab_gpu_server_monitor.Prelude.{
  ℕ, Bool, true, false, not, ◌&&◌, Option, none, some, List, [], ◌∷◌, ◌++◌, if◌then◌else◌, Text,
  codes, text_eq, nat_beq, leb, ◌==◌, any, keep, map,
}

-- `_server_busy`: the server and the tier of each poll in flight
abbrev pub Busy : Type 0
Busy = List (ℕ × Text)

abbrev pub same_poll : ℕ → Text → ℕ × Text → Bool
same_poll sid tier (s, t) = nat_beq s sid && t == tier

unfoldable pub server_begin : ℕ → Text → Busy → Bool × Busy
server_begin sid tier busy =
    if any (same_poll sid tier) busy then (false, busy) else (true, (sid, tier) ∷ busy)

unfoldable pub server_end : ℕ → Text → Busy → Busy
server_end sid tier busy = keep (λ b. not (same_poll sid tier b)) busy

-- the columns of a server that a maintenance window concerns
pub record ServerState : Type 0 where
  pub id : ℕ
  pub status : Text
  pub status_reason : Text
  pub status_until : Option ℕ

-- a note in a server's log: the server and its text
abbrev pub Notes : Type 0
Notes = List (ℕ × Text)

abbrev pub window_over : ℕ → Option ℕ → Bool
window_over now none = false
window_over now (some until) = leb until now

abbrev pub is_expired : ℕ → ServerState → Bool
is_expired now s = s.status == codes "maintenance" && window_over now s.status_until

abbrev pub back_to_active : ServerState → ServerState
back_to_active s = record s { status = codes "active"; status_reason = []; status_until = none }

-- `_expire_maintenance`
unfoldable pub expire_maintenance : ℕ → List ServerState → Notes → List ServerState × Notes
expire_maintenance now servers notes = (
  map (λ s. if is_expired now s then back_to_active s else s) servers,
  notes ++ map (λ s. (s.id, codes "维护窗口到期，自动恢复为 active")) (keep (is_expired now) servers),
)
