-- ===== src/Scheduler/Idle/Rounds.antt =====
-- The loop over the GPUs in `update_gpu_idle_state` of backend/app/scheduler.py, round by round.
use lab_gpu_server_monitor.Prelude.{
  ℕ, ◌≡◌, refl, ap, sym, ◌∙◌, inl, inr, Bool, true, false, not, ◌||◌, some, List, [], ◌∷◌, ◌++◌,
  if◌then◌else◌, Text, text_eq, text_beq_iff, ◌==◌, any, all, non_empty, starts_with, arith,
  Bool-cases,
}
use mathlib.Core.List.{append_assoc}
use lab_gpu_server_monitor.Prelude.Decimal.{decimal, starts_with-append}
use lab_gpu_server_monitor.Prelude.Table.{
  lookup, contains, IsDict, lookup-insert, lookup-erase_ne, lookup-erase_self, insert-IsDict,
  erase-IsDict,
}
use lab_gpu_server_monitor.Alerts.{Floats}
use lab_gpu_server_monitor.Scheduler.Idle.{
  GpuReading, PastSample, Tracker, idle_key, server_prefix, is_seen, gpu_is_idle_held, track_one,
  track, started,
}

cut_prefix : (p s t : Text) → p ++ s ≡ p ++ t → s ≡ t
cut_prefix [] s t e = e
cut_prefix (c ∷ p) s t e = cut_prefix p s t (cc)

-- Keys of one server are equal for one uuid alone.
idle_key_inj : (sid : ℕ) (u v : Text) → idle_key sid u ≡ idle_key sid v → u ≡ v
idle_key_inj sid u v e = let tails = cut_prefix (decimal sid) (58 ∷ u) (58 ∷ v) e in cc

pub idle_key-beq : (sid : ℕ) (u v : Text) → (idle_key sid u == idle_key sid v) ≡ (u == v)
idle_key-beq sid u v = ground (
  arith,
  text_beq_iff (idle_key sid u) (idle_key sid v),
  text_beq_iff u v,
  idle_key_inj sid u v,
  ap (idle_key sid) {x = u} {y = v},
)

pub idle_key-prefix : (sid : ℕ) (u : Text) → starts_with (server_prefix sid) (idle_key sid u) ≡ true
idle_key-prefix sid u =
    ap (starts_with (server_prefix sid)) (sym (append_assoc (decimal sid) (58 ∷ []) u))
    ∙ starts_with-append (server_prefix sid) u

module _ {F : Type 0} where
  abbrev pub has_reading : Text → List (GpuReading F) → Bool
  has_reading u gs = any (λ g. g.uuid == u) gs

module _ {F : Type 0} (fl : Floats F) where
  -- Whether the last reading of a GPU, if there is one, holds memory while idle; `b` if none is.
  unfoldable pub held_after : Text → Bool → List (GpuReading F) → Bool
  held_after u b [] = b
  held_after u b (g ∷ gs) = held_after u (if g.uuid == u then gpu_is_idle_held fl g else b) gs

  module _ (sid now : ℕ) (history : List (PastSample F)) where
    pub track_one-IsDict :
        (g : GpuReading F) (t : Tracker)
        → IsDict t.state
        → IsDict (track_one fl sid now history g t).state
    unfolding track_one
    track_one-IsDict g t d = ground (
      arith,
      insert-IsDict (idle_key sid g.uuid) (started fl g.uuid now history) t.state d,
      erase-IsDict (idle_key sid g.uuid) t.state d,
    )

    pub track_one-contains :
        (g : GpuReading F) (t : Tracker) (u : Text)
        → IsDict t.state
        → non_empty u ≡ true
        → contains (idle_key sid u) (track_one fl sid now history g t).state
          ≡ (if g.uuid == u then gpu_is_idle_held fl g else contains (idle_key sid u) t.state)
    unfolding track_one
    track_one-contains g t u d n =
        let k = idle_key sid g.uuid in
        let j = idle_key sid u in
        let same = idle_key-beq sid g.uuid u in
        let set = lookup-insert k j (started fl g.uuid now history) t.state in
        let kept = lookup-erase_ne k j t.state in
        let gone = lookup-erase_self k t.state d in
        elim (Bool-cases (g.uuid == u)) [
          | inl here ↦
              let e : g.uuid ≡ u = (text_beq_iff g.uuid u).0 here in
              let same_key : k ≡ j = ap (idle_key sid) e in
              ground (arith, same_key, same, set, gone, here)
          | inr there ↦ ground (arith, same, set, kept, there)
        ]

    pub track_one-seen :
        (g : GpuReading F) (t : Tracker) (u : Text)
        → non_empty u ≡ true
        → is_seen (idle_key sid u) (track_one fl sid now history g t).seen
          ≡ ((g.uuid == u) || is_seen (idle_key sid u) t.seen)
    unfolding track_one
    track_one-seen g t u n = ground (arith, idle_key-beq sid g.uuid u, text_beq_iff g.uuid u)

    pub track_one-unchanged :
        (g : GpuReading F) (t : Tracker)
        → (track_one fl sid now history g t).changed ≡ false
        → ((track_one fl sid now history g t).state ≡ t.state) × (t.changed ≡ false)
    unfolding track_one
    track_one-unchanged g t h = ground arith

    -- a key that is not this server's
    pub track_one-other :
        (g : GpuReading F) (t : Tracker) (k : Text)
        → starts_with (server_prefix sid) k ≡ false
        → lookup k (track_one fl sid now history g t).state ≡ lookup k t.state
    unfolding track_one
    track_one-other g t k out =
        let own = idle_key-prefix sid g.uuid in
        let differ = text_beq_iff (idle_key sid g.uuid) k in
        let ne : (idle_key sid g.uuid == k) ≡ false = ground (arith, own, differ, out) in
        ground (
          arith,
          ne,
          lookup-insert (idle_key sid g.uuid) k (started fl g.uuid now history) t.state,
          lookup-erase_ne (idle_key sid g.uuid) k t.state,
        )

    -- a GPU that is in the state, at a reading of itself that is held or at another's
    pub track_one-since :
        (g : GpuReading F) (t : Tracker) (u : Text) (v : ℕ)
        → non_empty u ≡ true
        → (not (g.uuid == u) || gpu_is_idle_held fl g) ≡ true
        → lookup (idle_key sid u) t.state ≡ some v
        → lookup (idle_key sid u) (track_one fl sid now history g t).state ≡ some v
    unfolding track_one
    track_one-since g t u v n held there =
        let k = idle_key sid g.uuid in
        let j = idle_key sid u in
        elim (Bool-cases (g.uuid == u)) [
          | inl here ↦
              let e : g.uuid ≡ u = (text_beq_iff g.uuid u).0 here in
              let same_key : k ≡ j = ap (idle_key sid) e in
              ground (arith, same_key, held, here, there)
          | inr away ↦ ground (
            arith,
            idle_key-beq sid g.uuid u,
            lookup-insert k j (started fl g.uuid now history) t.state,
            lookup-erase_ne k j t.state,
            away,
            there,
          )
        ]

    pub track-IsDict :
        (gs : List (GpuReading F)) (t : Tracker)
        → IsDict t.state
        → IsDict (track fl sid now history gs t).state
    unfolding track
    track-IsDict [] t d = d
    track-IsDict (g ∷ gs) t d =
        track-IsDict gs (track_one fl sid now history g t) (track_one-IsDict g t d)

    pub track-contains :
        (gs : List (GpuReading F)) (t : Tracker) (u : Text)
        → IsDict t.state
        → non_empty u ≡ true
        → contains (idle_key sid u) (track fl sid now history gs t).state
          ≡ held_after u (contains (idle_key sid u) t.state) gs
    unfolding track held_after
    track-contains [] t u d n = refl
    track-contains (g ∷ gs) t u d n =
        track-contains gs (track_one fl sid now history g t) u (track_one-IsDict g t d) n
        ∙ ap (λ b. held_after u b gs) (track_one-contains g t u d n)

    pub track-seen :
        (gs : List (GpuReading F)) (t : Tracker) (u : Text)
        → non_empty u ≡ true
        → is_seen (idle_key sid u) (track fl sid now history gs t).seen
          ≡ (has_reading u gs || is_seen (idle_key sid u) t.seen)
    unfolding track
    track-seen [] t u n = refl
    track-seen (g ∷ gs) t u n =
        ground (arith, track-seen gs (track_one fl sid now history g t) u n, track_one-seen g t u n)

    pub track-unchanged :
        (gs : List (GpuReading F)) (t : Tracker)
        → (track fl sid now history gs t).changed ≡ false
        → ((track fl sid now history gs t).state ≡ t.state) × (t.changed ≡ false)
    unfolding track
    track-unchanged [] t h = (refl, h)
    track-unchanged (g ∷ gs) t h =
        let (later, still) = track-unchanged gs (track_one fl sid now history g t) h in
        let (here, before) = track_one-unchanged g t still in (later ∙ here, before)

    pub track-since :
        (gs : List (GpuReading F)) (t : Tracker) (u : Text) (v : ℕ)
        → non_empty u ≡ true
        → all (λ g. not (g.uuid == u) || gpu_is_idle_held fl g) gs ≡ true
        → lookup (idle_key sid u) t.state ≡ some v
        → lookup (idle_key sid u) (track fl sid now history gs t).state ≡ some v
    unfolding track
    track-since [] t u v n held there = there
    track-since (g ∷ gs) t u v n held there =
        track-since gs (track_one fl sid now history g t) u v n (ground arith)
          (track_one-since g t u v n (ground arith) there)

    pub track-other :
        (gs : List (GpuReading F)) (t : Tracker) (k : Text)
        → starts_with (server_prefix sid) k ≡ false
        → lookup k (track fl sid now history gs t).state ≡ lookup k t.state
    unfolding track
    track-other [] t k out = refl
    track-other (g ∷ gs) t k out =
        track-other gs (track_one fl sid now history g t) k out ∙ track_one-other g t k out
