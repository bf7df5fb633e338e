-- ===== src/Scheduler/Hourly/Legacy.antt =====
-- `_upgrade_legacy_gpu_card_time` of backend/app/scheduler.py: hours that an older release rolled up
-- without card time are rolled up again, while their samples are there.
use lab_gpu_server_monitor.Prelude.{
  ℕ, zero, suc, ◌+◌, ◌*◌, ◌/◌, ◌%◌, ◌≤◌, ◌<◌, ◌≡◌, refl, Bool, true, false, ◌&&◌, ◌||◌, Option,
  none, some, List, [], ◌∷◌, if◌then◌else◌, nat_eq, nat_beq, ltb, leb, any, take, length, arith,
  Bool-cases, inl, inr,
}
use lab_gpu_server_monitor.Prelude.Table.{lookup}
use lab_gpu_server_monitor.Alerts.{Floats}
use lab_gpu_server_monitor.Scheduler.Hourly.{HourRow, hour, hour_row}
use lab_gpu_server_monitor.Scheduler.Hourly.Rollup.{
  RollupKey, key_of, key_eq, is_one_of, Raw, Rollup, rolled, roll_hour,
}
use lab_gpu_server_monitor.Scheduler.Hourly.Rollup.Closed.{roll_hour-lookup}

-- the first hour whose samples are all there
abbrev pub full_raw_hour : ℕ → ℕ
full_raw_hour t = if nat_beq (t % hour) 0 then t else (t / hour) * hour + hour

module _ {F : Type 0} where
  -- `min(collected_at)` over the samples
  unfoldable pub first_raw : Raw F → Option ℕ
  first_raw [] = none
  first_raw ((_, m) ∷ raw) =
      let rest = first_raw raw in
      elim rest [ none ↦ some m.at | some t ↦ if ltb m.at t then some m.at else some t ]

  abbrev pub is_legacy : HourRow F → Bool
  is_legacy row =
      (elim row.gpu_sample_minutes [ none ↦ true | some _ ↦ false ]) && row.gpu_time_estimated

-- the newest hours first, each once
unfoldable pub add_hour : ℕ → List ℕ → List ℕ
add_hour h [] = h ∷ []
add_hour h (k ∷ hours) =
    if nat_beq h k then k ∷ hours else if ltb k h then h ∷ k ∷ hours else k ∷ add_hour h hours

module _ {F : Type 0} where
  abbrev pub is_upgradable : List ℕ → ℕ → ℕ → RollupKey → HourRow F → Bool
  is_upgradable ids from before k row =
      is_legacy row && (is_one_of ids k.server_id && (leb from k.start && ltb k.start before))

  unfoldable pub legacy_hours : List ℕ → ℕ → ℕ → Rollup F → List ℕ
  legacy_hours ids from before [] = []
  legacy_hours ids from before ((k, row) ∷ table) =
      let rest = legacy_hours ids from before table in
      if is_upgradable ids from before k row then add_hour k.start rest else rest

module _ {F : Type 0} (fl : Floats F) (default : ℕ) (raw : Raw F) (ids : List ℕ) where
  -- the loop over the hours, with the number of them before the worker is stopped
  unfoldable pub rebuild : ℕ → List ℕ → Rollup F → Rollup F
  rebuild n [] table = table
  rebuild zero (h ∷ hours) table = table
  rebuild (suc n) (h ∷ hours) table = rebuild n hours (roll_hour fl default raw h ids table)

  -- `_upgrade_legacy_gpu_card_time`, stopped after a number of hours
  unfoldable pub upgrade_legacy_gpu_card_time : ℕ → ℕ → Rollup F → Rollup F
  upgrade_legacy_gpu_card_time n before table = elim (first_raw raw) [
    | none ↦ table
    | some t ↦ rebuild n (take 96 (legacy_hours ids (full_raw_hour t) before table)) table
  ]

abbrev has_hour : ℕ → List ℕ → Bool
has_hour h hours = any (λ k. nat_beq k h) hours

has_hour-add_hour :
    (h k : ℕ) (hours : List ℕ) → has_hour h (add_hour k hours) ≡ (nat_beq k h || has_hour h hours)
unfolding add_hour
has_hour-add_hour h k [] = refl
has_hour-add_hour h k (j ∷ hours) = ground (arith, has_hour-add_hour h k hours)

take-all : (n : ℕ) (xs : List ℕ) → length xs ≤ n → take n xs ≡ xs
take-all zero [] h = refl
take-all zero (x ∷ xs) h = ground arith
take-all (suc n) [] h = refl
take-all (suc n) (x ∷ xs) h = ground (arith, take-all n xs)

module _ {F : Type 0} where
  -- whether the row of a server and an hour is to be upgraded
  abbrev pub legacy_at : ℕ → ℕ → Rollup F → Bool
  legacy_at s h table = elim (lookup (key_of s h) table) [ none ↦ false | some row ↦ is_legacy row ]

  has_hour-legacy_hours :
      (ids : List ℕ) (from before s h : ℕ) (table : Rollup F)
      → is_one_of ids s ≡ true
      → (leb from h && ltb h before) ≡ true
      → legacy_at s h table ≡ true
      → has_hour h (legacy_hours ids from before table) ≡ true
  unfolding legacy_hours
  has_hour-legacy_hours ids from before s h [] mine within up = ground arith
  has_hour-legacy_hours ids from before s h ((k, r) ∷ table) mine within up = ground (
    arith,
    key_eq.beq_iff k (key_of s h),
    has_hour-add_hour h k.start (legacy_hours ids from before table),
    has_hour-legacy_hours ids from before s h table,
  )

module _ {F : Type 0} (fl : Floats F) (default : ℕ) (raw : Raw F) (ids : List ℕ) where
  rolled-legacy :
      (begin sid : ℕ) (existing : Option (HourRow F))
      → is_legacy (rolled fl default raw begin sid existing) ≡ false
  unfolding rolled hour_row
  rolled-legacy begin sid existing = ground arith

  roll_hour-legacy_at :
      (begin s h : ℕ) (table : Rollup F)
      → legacy_at s h (roll_hour fl default raw begin ids table)
        ≡ (if nat_beq h begin && is_one_of ids s then false else legacy_at s h table)
  roll_hour-legacy_at begin s h table = ground (
    arith,
    roll_hour-lookup fl default raw begin s h ids table,
    rolled-legacy begin s (lookup (key_of s begin) table),
  )

  rebuild-legacy_at :
      (n s h : ℕ) (hours : List ℕ) (table : Rollup F)
      → is_one_of ids s ≡ true
      → length hours ≤ n
      → legacy_at s h (rebuild fl default raw ids n hours table)
        ≡ (if has_hour h hours then false else legacy_at s h table)
  unfolding rebuild
  rebuild-legacy_at n s h [] table mine enough = refl
  rebuild-legacy_at zero s h (k ∷ hours) table mine enough = ground arith
  rebuild-legacy_at (suc n) s h (k ∷ hours) table mine enough = ground (
    arith,
    rebuild-legacy_at n s h hours (roll_hour fl default raw k ids table) mine (omega arith),
    roll_hour-legacy_at k s h table,
  )

  rebuild-settles :
      (n s h : ℕ) (hours : List ℕ) (table : Rollup F)
      → is_one_of ids s ≡ true
      → length hours ≤ n
      → (legacy_at s h table ≡ true → has_hour h hours ≡ true)
      → legacy_at s h (rebuild fl default raw ids n hours table) ≡ false
  rebuild-settles n s h hours table mine enough all = elim (Bool-cases (legacy_at s h table)) [
    | inl old ↦ ground (arith, rebuild-legacy_at n s h hours table mine enough, all old)
    | inr new ↦ ground (arith, rebuild-legacy_at n s h hours table mine enough, new)
  ]

  -- With at most 96 legacy hours, a worker that is not stopped early leaves no legacy row of an
  -- enabled server, from the first hour with all its samples to the hour it is told to end before:
  -- the scheduler finds nothing there to start it for again.
  pub upgrade_legacy_gpu_card_time-settles :
      (n t before s h : ℕ) (table : Rollup F)
      → first_raw raw ≡ some t
      → length (legacy_hours ids (full_raw_hour t) before table) ≤ 96
      → 96 ≤ n
      → is_one_of ids s ≡ true
      → full_raw_hour t ≤ h
      → h < before
      → legacy_at s h (upgrade_legacy_gpu_card_time fl default raw ids n before table) ≡ false
  unfolding upgrade_legacy_gpu_card_time
  upgrade_legacy_gpu_card_time-settles n t before s h table some_raw few enough mine lo hi =
      let hours = legacy_hours ids (full_raw_hour t) before table in
      let done =
        rebuild-settles n s h hours table mine (omega (arith, few, enough))
          (has_hour-legacy_hours ids (full_raw_hour t) before s h table mine (ground arith)) in
      rw (upgrade_legacy_gpu_card_time, some_raw, take-all 96 hours few) done
