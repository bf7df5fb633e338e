-- ===== src/Health/Baseline/Errors.antt =====
-- The count of uncorrected memory errors that `_detect_gpu_ecc` of backend/app/health.py keeps.
use lab_gpu_server_monitor.Prelude.{
  ℕ, ◌≡◌, refl, ap, ◌∙◌, Bool, true, ◌&&◌, Option, none, some, List, [], ◌∷◌, if◌then◌else◌, Text,
  text_eq, ◌==◌, non_empty, max, arith, Option-cases, inl, inr,
}
use lab_gpu_server_monitor.Prelude.Table.{lookup, lookup-insert}
use lab_gpu_server_monitor.Alerts.{Floats}
use lab_gpu_server_monitor.Alerts.Events.{Board, Notice}
use lab_gpu_server_monitor.Health.Baseline.{Card, Baselines, count_errors, ecc_one, detect_gpu_ecc}

-- the count on which a GPU's errors grow, `none` for one that is not in the baseline
abbrev pub errors_of : Text → Baselines → Option (Option ℕ)
errors_of u rows = elim (lookup u rows) [ none ↦ none | some b ↦ some b.ecc_baseline ]

-- the greatest total that a sample shows of a GPU, from a count on
pub greatest : Text → List Card → Option (Option ℕ) → Option (Option ℕ)
greatest u [] o = o
greatest u (g ∷ gs) o = greatest u gs (
    if g.ecc_supported && (g.uuid == u)
    then (elim o [
      | none ↦ none
      | some none ↦ some (some g.ecc_total)
      | some (some n) ↦ some (some (max n g.ecc_total))
    ])
    else o)

module _ {F : Type 0} (fl : Floats F) (now : ℕ) (delivers : Notice → Bool) (sid : ℕ)
    (server_name : Text) where
  ecc_one-errors_of :
      (g : Card) (rows : Baselines) (board : Board F) (u : Text)
      → non_empty u ≡ true
      → errors_of u (ecc_one fl now delivers sid server_name g (rows, board)).0 ≡ (
          if g.ecc_supported && (g.uuid == u)
          then (elim (errors_of u rows) [
            | none ↦ none
            | some none ↦ some (some g.ecc_total)
            | some (some n) ↦ some (some (max n g.ecc_total))
          ])
          else errors_of u rows)
  unfolding ecc_one
  ecc_one-errors_of g rows board u n = elim (Option-cases (lookup g.uuid rows)) [
    | inl absent ↦ ground (arith, absent, text_eq.beq_iff g.uuid u)
    | inr (b, found) ↦
        ground
          (arith, found, text_eq.beq_iff g.uuid u, lookup-insert g.uuid u (count_errors g b).0 rows)
  ]

  -- After a pass the count of a GPU of the baseline, which has a UUID, is the greatest of the count
  -- before and of the totals that the sample shows of it, so that it never falls; the first total
  -- is taken as it is.
  pub detect_gpu_ecc-errors_of :
      (gs : List Card) (rows : Baselines) (board : Board F) (u : Text)
      → non_empty u ≡ true
      → errors_of u (detect_gpu_ecc fl now delivers sid server_name gs (rows, board)).0
        ≡ greatest u gs (errors_of u rows)
  unfolding detect_gpu_ecc greatest
  detect_gpu_ecc-errors_of [] rows board u n = refl
  detect_gpu_ecc-errors_of (g ∷ gs) rows board u n =
      let next = ecc_one fl now delivers sid server_name g (rows, board) in
      detect_gpu_ecc-errors_of gs next.0 next.1 u n
      ∙ ap (greatest u gs) (ecc_one-errors_of g rows board u n)
