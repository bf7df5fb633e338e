-- ===== src/Health/Faults/Connection.antt =====
-- What `_detect_ssh_fault` of backend/app/health.py makes of a run of samples.
use lab_gpu_server_monitor.Prelude.{
  ℕ, ◌≡◌, refl, sym, ap, ◌∙◌, Bool, true, false, ◌&&◌, List, [], ◌∷◌, Text, text_eq, any, arith,
  inl, inr, Bool-cases,
}
use lab_gpu_server_monitor.Alerts.{Floats}
use lab_gpu_server_monitor.Alerts.Events.{AlertEvent, Board, Notice}
use lab_gpu_server_monitor.Health.Faults.{
  LatestSample, is_ssh_fault, close_faults, detect_ssh_fault,
}

close_faults_none :
    {F : Type 0} (now sid : ℕ) (events : List (AlertEvent F))
    → any (is_ssh_fault sid) (close_faults now sid events) ≡ false
close_faults_none now sid [] = refl
close_faults_none now sid (e ∷ events) = ground (arith, close_faults_none now sid events)

-- the last two samples are errors, after two that are or are not
abbrev pub is_down : {F : Type 0} → Bool → Bool → List (ℕ × LatestSample F) → Bool
is_down before twice [] = twice
is_down before twice ((_, m) ∷ samples) = is_down m.is_error (before && m.is_error) samples

module _ {F : Type 0} (fl : Floats F) (delivers : Notice → Bool) (sid : ℕ) (name : Text) where
  -- the detector after every sample, each with its time, and with whether the one before is an error
  abbrev pub watch : Bool → List (ℕ × LatestSample F) → Board F → Board F
  watch before [] b = b
  watch before ((now, m) ∷ samples) b =
      watch m.is_error samples (detect_ssh_fault fl now delivers sid name m before b)

  -- a fault that is open says that the last two samples are errors
  watch_down :
      (before twice : Bool) (samples : List (ℕ × LatestSample F)) (b : Board F)
      → (any (is_ssh_fault sid) b.events ≡ true → (before && twice) ≡ true)
      → any (is_ssh_fault sid) (watch before samples b).events ≡ true
      → is_down before twice samples ≡ true
  unfolding detect_ssh_fault
  watch_down before twice [] b h open_now = ground (arith, h open_now)
  watch_down before twice ((now, m) ∷ samples) b h open_now = elim (Bool-cases m.is_error) [
    | inr good ↦
        let closed_all = close_faults_none now sid b.events in
        let after = detect_ssh_fault fl now delivers sid name m before b in
        let none_open : any (is_ssh_fault sid) after.events ≡ false =
          rw (detect_ssh_fault, good) closed_all in
        watch_down m.is_error (before && m.is_error) samples after
          (λ old. absurd (ground (arith, none_open, old))) open_now
    | inl bad ↦ elim (Bool-cases before) [
      | inl again ↦
          watch_down m.is_error (before && m.is_error) samples
            (detect_ssh_fault fl now delivers sid name m before b)
            (λ old. ground (arith, bad, again)) open_now
      | inr first ↦
          let same : detect_ssh_fault fl now delivers sid name m before b ≡ b =
            rw (detect_ssh_fault, bad, first) refl in
          watch_down m.is_error (before && m.is_error) samples
            (detect_ssh_fault fl now delivers sid name m before b)
            (λ old. absurd (
              ground
                (arith, first, h (ap (λ c. any (is_ssh_fault sid) c.events) (sym same) ∙ old))))
            open_now
    ]
  ]

  -- where no connection fault of the server is open at the start, one that is open after a run of
  -- samples, each judged with the one before it, says that the last two samples are errors.
  pub watch-is_down :
      (samples : List (ℕ × LatestSample F)) (b : Board F)
      → any (is_ssh_fault sid) b.events ≡ false
      → any (is_ssh_fault sid) (watch false samples b).events ≡ true
      → is_down false false samples ≡ true
  watch-is_down samples b quiet open_now =
      watch_down false false samples b (λ old. ground (arith, quiet, old)) open_now
