-- ===== src/Scheduler/Idle/Backfill.antt =====
-- The history walk `_backfill_idle_start` of backend/app/scheduler.py, against a plain scan of the
-- history.
use lab_gpu_server_monitor.Prelude.{
  ℕ, zero, suc, ◌≤◌, ◌<◌, ◌≡◌, refl, sym, ap, ◌∙◌, inl, inr, ◌⊎◌, Option, none, some, List, [], ◌∷◌,
  ◌++◌, if◌then◌else◌, Text, ltb, keep, take, length, length-keep-le, All, All-keep, arith,
}
use mathlib.Core.Path.{subst}
use lab_gpu_server_monitor.Alerts.{Floats}
use lab_gpu_server_monitor.Scheduler.Idle.{
  PastSample, held_in, scan_batch, last_time, backfill_loop, backfill_idle_start,
}

module _ {F : Type 0} where
  -- a history in strictly descending order of time
  abbrev pub IsDescending : List (PastSample F) → Type 0
  IsDescending [] = Unit
  IsDescending (m ∷ ms) = All (λ n. n.at < m.at) ms × IsDescending ms

  abbrev drop : ℕ → List (PastSample F) → List (PastSample F)
  drop zero ms = ms
  drop (suc n) [] = []
  drop (suc n) (m ∷ ms) = drop n ms

  abbrev pub older : ℕ → List (PastSample F) → List (PastSample F)
  older c ms = keep (λ m. ltb m.at c) ms

  older-All : (c : ℕ) (ms : List (PastSample F)) → All (λ n. n.at < c) ms → older c ms ≡ ms
  older-All c [] h = refl
  older-All c (m ∷ ms) h = ground (arith, older-All c ms h.1, h.0)

  older-IsDescending :
      (c : ℕ) (ms : List (PastSample F)) → IsDescending ms → IsDescending (older c ms)
  older-IsDescending c [] h = tt
  older-IsDescending c (m ∷ ms) h =
      ground
        (arith, All-keep (λ n. n.at < m.at) (λ n. ltb n.at c) ms h.0, older-IsDescending c ms h.1)

  older-older : (c d : ℕ) (ms : List (PastSample F)) → d ≤ c → older d (older c ms) ≡ older d ms
  older-older c d [] h = refl
  older-older c d (m ∷ ms) h = ground (arith, older-older c d ms h)

  older-below : (c : ℕ) (ms : List (PastSample F)) → All (λ n. n.at < c) (older c ms)
  older-below c [] = tt
  older-below c (m ∷ ms) = ground (arith, older-below c ms)

  last_time-le :
      (c n : ℕ) (m : PastSample F) (ms : List (PastSample F))
      → IsDescending (m ∷ ms)
      → last_time c (m ∷ take n ms) ≤ m.at
  last_time-le c zero m ms h = omega arith
  last_time-le c (suc n) m [] h = omega arith
  last_time-le c (suc n) m (k ∷ ms) h = omega (arith, last_time-le c n k ms h.1, h.0.0)

  -- What is older than the last of a batch is what follows the batch.
  older-last_time :
      (c n : ℕ) (m : PastSample F) (ms : List (PastSample F))
      → IsDescending (m ∷ ms)
      → older (last_time c (m ∷ take n ms)) (m ∷ ms) ≡ drop n ms
  older-last_time c zero m ms h = ground (arith, older-All m.at ms h.0)
  older-last_time c (suc n) m [] h = ground arith
  older-last_time c (suc n) m (k ∷ ms) h =
      ground (arith, older-last_time c n k ms h.1, last_time-le c n k ms h.1, h.0.0)

  take-drop : (n : ℕ) (ms : List (PastSample F)) → take n ms ++ drop n ms ≡ ms
  take-drop zero ms = refl
  take-drop (suc n) [] = refl
  take-drop (suc n) (m ∷ ms) = ap (λ t. m ∷ t) (take-drop n ms)

  length-drop-le : (n : ℕ) (ms : List (PastSample F)) → length (drop n ms) ≤ length ms
  length-drop-le zero ms = omega arith
  length-drop-le (suc n) [] = omega arith
  length-drop-le (suc n) (m ∷ ms) = omega (arith, length-drop-le n ms)

  take-short : (n : ℕ) (ms : List (PastSample F)) → length (take n ms) < n → drop n ms ≡ []
  take-short zero ms h = absurd (omega arith)
  take-short (suc n) [] h = refl
  take-short (suc n) (m ∷ ms) h = take-short n ms (omega arith)

module _ {F : Type 0} (fl : Floats F) (uuid : Text) where
  -- When the run of idle samples began with which a history, newest first, opens.
  unfoldable pub run_start : Option ℕ → List (PastSample F) → Option ℕ
  run_start start [] = start
  run_start start (m ∷ ms) =
      let longer = run_start (some m.at) ms in if held_in fl uuid m then longer else start

  scan_batch-append :
      (start : Option ℕ) (ms ns : List (PastSample F))
      → run_start start (ms ++ ns) ≡ (
          if (scan_batch fl uuid start ms).0
          then (scan_batch fl uuid start ms).1
          else run_start (scan_batch fl uuid start ms).1 ns)
  unfolding scan_batch run_start
  scan_batch-append start [] ns = refl
  scan_batch-append start (m ∷ ms) ns = ground (arith, scan_batch-append (some m.at) ms ns)

  scan_batch-run_start :
      (start : Option ℕ) (ms : List (PastSample F))
      → (scan_batch fl uuid start ms).1 ≡ run_start start ms
  unfolding scan_batch run_start
  scan_batch-run_start start [] = refl
  scan_batch-run_start start (m ∷ ms) = ground (arith, scan_batch-run_start (some m.at) ms)

  -- one round on a history that has an older sample
  round-eq :
      (fuel limit cursor : ℕ) (start : Option ℕ) (history : List (PastSample F)) (m : PastSample F)
      (ms : List (PastSample F))
      → IsDescending (m ∷ ms)
      → older cursor history ≡ m ∷ ms
      → ((next : Option ℕ)
          → backfill_loop fl fuel
              (suc limit)
              uuid
              history
              (last_time cursor (m ∷ take limit ms))
              next
            ≡ run_start next (drop limit ms))
      → backfill_loop fl (suc fuel) (suc limit) uuid history cursor start ≡ run_start start (m ∷ ms)
  unfolding backfill_loop run_start
  round-eq fuel limit cursor start history m ms d e next =
      let batch = m ∷ take limit ms in
      let whole : batch ++ drop limit ms ≡ m ∷ ms = ap (λ t. m ∷ t) (take-drop limit ms) in
      let scan = scan_batch-append start batch (drop limit ms) in
      let short = take-short limit ms in
      let later = next (scan_batch fl uuid start batch).1 in
      let scanned = sym (ap (run_start start) whole) ∙ scan in
      rw e (ground (arith, scanned, short, later))

  round-empty :
      (fuel limit cursor : ℕ) (start : Option ℕ) (history : List (PastSample F))
      → older cursor history ≡ []
      → backfill_loop fl (suc fuel) (suc limit) uuid history cursor start
        ≡ run_start start (older cursor history)
  unfolding backfill_loop run_start
  round-empty fuel limit cursor start history e = rw e (ground arith)

  List-cases :
      (ms : List (PastSample F))
      → (ms ≡ []) ⊎ ((k : PastSample F) × (ks : List (PastSample F)) × (ms ≡ k ∷ ks))
  List-cases [] = inl refl
  List-cases (k ∷ ks) = inr (k, ks, refl)

  backfill_loop-eq :
      (fuel limit cursor : ℕ) (start : Option ℕ) (history : List (PastSample F))
      → IsDescending history
      → length (older cursor history) < fuel
      → backfill_loop fl fuel (suc limit) uuid history cursor start
        ≡ run_start start (older cursor history)
  backfill_loop-eq zero limit cursor start history d le = absurd (omega arith)
  backfill_loop-eq (suc fuel) limit cursor start history d le =
      elim (List-cases (older cursor history)) [
        | inl e ↦ round-empty fuel limit cursor start history e
        | inr (m, ms, e) ↦
            let d' : IsDescending (m ∷ ms) =
              subst IsDescending e (older-IsDescending cursor history d) in
            let last = last_time cursor (m ∷ take limit ms) in
            let below : m.at < cursor =
              (subst (All (λ n. n.at < cursor)) e (older-below cursor history)).0 in
            let rest : older last history ≡ drop limit ms =
              sym
                (older-older cursor last history (omega (arith, last_time-le cursor limit m ms d')))
              ∙ ap (older last) e
              ∙ older-last_time cursor limit m ms d' in
            let fewer : length (older last history) < fuel =
              omega (arith, ap length rest, length-drop-le limit ms, ap length e) in
            round-eq fuel limit cursor start history m ms d' e (λ next.
              backfill_loop-eq fuel limit last next history d fewer ∙ ap (run_start next) rest)
            ∙ ap (run_start start) (sym e)
      ]

  -- The walk ends, and finds when the run of idle samples before a time began: read in batches of
  -- 2000, a history in strictly descending order gives what a scan of the whole gives.
  pub backfill_idle_start-run_start :
      (history : List (PastSample F)) (before : ℕ)
      → IsDescending history
      → backfill_idle_start fl uuid history before ≡ run_start none (older before history)
  backfill_idle_start-run_start history before d =
      backfill_loop-eq (suc (length history)) 1999 before none history d
        (omega (arith, length-keep-le (λ m. ltb m.at before) history))
