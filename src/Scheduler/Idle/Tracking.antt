-- ===== src/Scheduler/Idle/Tracking.antt =====
-- Which GPUs `update_gpu_idle_state` of backend/app/scheduler.py has idle after a poll, and since
-- when.
use lab_gpu_server_monitor.Prelude.{
  ℕ, ◌≡◌, ◌≢◌, refl, ap, ◌∙◌, inl, inr, Bool, true, false, not, ◌&&◌, ◌||◌, some, List, [], ◌∷◌,
  Text, text_eq, ◌==◌, any, all, keep, non_empty, starts_with, arith, Bool-cases,
}
use lab_gpu_server_monitor.Prelude.Decimal.{decimal-prefix}
use lab_gpu_server_monitor.Prelude.Table.{lookup, contains, IsDict, lookup-keep_key}
use lab_gpu_server_monitor.Alerts.{Floats}
use lab_gpu_server_monitor.Scheduler.Idle.{
  GpuReading, PastSample, IdleState, Tracker, idle_key, server_prefix, is_seen, is_gone,
  gpu_is_idle_held, track, drop_gone, update_gpu_idle_state,
}
use lab_gpu_server_monitor.Scheduler.Idle.Rounds.{
  held_after, has_reading, idle_key-prefix, track-contains, track-seen, track-unchanged,
  track-since, track-other,
}

module _ {F : Type 0} (fl : Floats F) where
  held_after-absent :
      (u : Text) (b : Bool) (gs : List (GpuReading F))
      → has_reading u gs ≡ false
      → held_after fl u b gs ≡ b
  unfolding held_after
  held_after-absent u b [] h = refl
  held_after-absent u b (g ∷ gs) h = ground (arith, held_after-absent u b gs)

  held_after-any :
      (u : Text) (b c : Bool) (gs : List (GpuReading F))
      → has_reading u gs ≡ true
      → held_after fl u b gs ≡ held_after fl u c gs
  unfolding held_after
  held_after-any u b c [] h = ground arith
  held_after-any u b c (g ∷ gs) h = elim (Bool-cases (g.uuid == u)) [
    | inl here ↦ ground (arith, here)
    | inr there ↦ ground (arith, there, held_after-any u b c gs)
  ]

keep-all {ℓ} :
    {A : Type ℓ} (p : A → Bool) (xs : List A) → any p xs ≡ false → keep (λ x. not (p x)) xs ≡ xs
keep-all p [] h = refl
keep-all p (x ∷ xs) h = ground (arith, keep-all p xs)

module _ {F : Type 0} (fl : Floats F) (sid now : ℕ) (history : List (PastSample F)) where
  abbrev first : IdleState → Tracker
  first state = record { state = state; seen = []; changed = false }

  -- what is stored is what the loops leave, also where nothing changed and nothing is stored
  stored :
      (gs : List (GpuReading F)) (state : IdleState)
      → update_gpu_idle_state fl sid now history gs state
        ≡ (drop_gone sid (track fl sid now history gs (first state))).state
  unfolding update_gpu_idle_state
  stored gs state =
      let t = track fl sid now history gs (first state) in
      let same = track-unchanged fl sid now history gs (first state) in
      let all_kept = keep-all (is_gone sid t.seen) t.state in ground (arith, same, all_kept)

  -- After a poll a server's GPU that has a UUID is in the state exactly if the poll shows it, by
  -- its last reading, holding memory while idle, where the state had no key twice.
  pub update_gpu_idle_state-contains :
      (gs : List (GpuReading F)) (state : IdleState) (u : Text)
      → IsDict state
      → non_empty u ≡ true
      → contains (idle_key sid u) (update_gpu_idle_state fl sid now history gs state)
        ≡ held_after fl u false gs
  update_gpu_idle_state-contains gs state u d n =
      let t = track fl sid now history gs (first state) in
      let tracked = track-contains fl sid now history gs (first state) u d n in
      let seen = track-seen fl sid now history gs (first state) u n in
      let filtered =
        lookup-keep_key (idle_key sid u)
          (λ k. not (starts_with (server_prefix sid) k && not (is_seen k t.seen))) t.state in
      ap (contains (idle_key sid u)) (stored gs state)
      ∙ ground (
        arith,
        tracked,
        seen,
        filtered,
        idle_key-prefix sid u,
        held_after-absent fl u false gs,
        held_after-any fl u (contains (idle_key sid u) state) false gs,
      )

  -- A poll of one server changes nothing of the others.
  pub update_gpu_idle_state-other :
      (gs : List (GpuReading F)) (state : IdleState) (other : ℕ) (u : Text)
      → sid ≢ other
      → lookup (idle_key other u) (update_gpu_idle_state fl sid now history gs state)
        ≡ lookup (idle_key other u) state
  update_gpu_idle_state-other gs state other u ne =
      let t = track fl sid now history gs (first state) in
      let foreign : starts_with (server_prefix sid) (idle_key other u) ≡ false =
        elim (Bool-cases (starts_with (server_prefix sid) (idle_key other u))) [
          | inl own ↦ absurd (ne (decimal-prefix sid other u own))
          | inr out ↦ out
        ] in
      let filtered =
        lookup-keep_key (idle_key other u)
          (λ k. not (starts_with (server_prefix sid) k && not (is_seen k t.seen))) t.state in
      ap (lookup (idle_key other u)) (stored gs state)
      ∙ ground (
        arith,
        filtered,
        foreign,
        track-other fl sid now history gs (first state) (idle_key other u),
      )

  -- A GPU that goes on holding memory while idle keeps the time since when.
  pub update_gpu_idle_state-since :
      (gs : List (GpuReading F)) (state : IdleState) (u : Text) (v : ℕ)
      → non_empty u ≡ true
      → has_reading u gs ≡ true
      → all (λ g. not (g.uuid == u) || gpu_is_idle_held fl g) gs ≡ true
      → lookup (idle_key sid u) state ≡ some v
      → lookup (idle_key sid u) (update_gpu_idle_state fl sid now history gs state) ≡ some v
  update_gpu_idle_state-since gs state u v n shown held there =
      let t = track fl sid now history gs (first state) in
      let kept = track-since fl sid now history gs (first state) u v n held there in
      let seen = track-seen fl sid now history gs (first state) u n in
      let filtered =
        lookup-keep_key (idle_key sid u)
          (λ k. not (starts_with (server_prefix sid) k && not (is_seen k t.seen))) t.state in
      ap (lookup (idle_key sid u)) (stored gs state) ∙ ground (arith, kept, seen, filtered, shown)
