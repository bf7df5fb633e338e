-- ===== src/Scheduler/Retention/Safe.antt =====
-- What retention in backend/app/scheduler.py deletes, and that it keeps what no archive has.
use lab_gpu_server_monitor.Prelude.{
  ℕ, zero, suc, ◌≤◌, ◌<◌, ◌≡◌, refl, ap, ◌⊎◌, inl, inr, Bool, true, false, not, ◌&&◌, none, some,
  List, [], ◌∷◌, ◌++◌, nat_eq, nat_beq, nat_beq_iff, any, keep, map, take, length, length-keep-le,
  All, arith, Bool-cases, Option-cases,
}
use lab_gpu_server_monitor.Prelude.Table.{
  lookup, IsDict, lookup-append, lookup-keep-some, keep-IsDict,
}
use lab_gpu_server_monitor.Scheduler.Retention.{
  Metrics, RetentionEnv, max_expired, is_due, exported, archive_expired_metrics, batch_ids, is_in,
  delete_loop, clean_up,
}

abbrev ids_of : Metrics → List ℕ
ids_of ms = map (λ m. m.0) ms

is_in-take : (n : ℕ) (ids : List ℕ) (i : ℕ) → is_in (take n ids) i ≡ true → is_in ids i ≡ true
is_in-take zero ids i h = ground arith
is_in-take (suc n) [] i h = h
is_in-take (suc n) (j ∷ ids) i h = ground (arith, is_in-take n ids i)

is_in-keep-none :
    (p : ℕ × ℕ → Bool) (rows : Metrics) (i : ℕ)
    → lookup i rows ≡ none
    → is_in (ids_of (keep p rows)) i ≡ false
is_in-keep-none p [] i h = refl
is_in-keep-none p ((j, at) ∷ rows) i h = ground (arith, is_in-keep-none p rows i)

-- In a table without a key twice, an id among those of the rows that pass is that of a row that
-- passes.
is_in-keep :
    (p : ℕ × ℕ → Bool) (rows : Metrics) (i : ℕ) (at : ℕ)
    → IsDict rows
    → lookup i rows ≡ some at
    → is_in (ids_of (keep p rows)) i ≡ true
    → p (i, at) ≡ true
is_in-keep p [] i at d h q = cc
is_in-keep p ((j, t) ∷ rows) i at d h q =
    ground (arith, nat_beq_iff j i, is_in-keep-none p rows j d.0, is_in-keep p rows i at d.1)

keep-fewer-le :
    (due : ℕ × ℕ → Bool) (ids : List ℕ) (rows : Metrics)
    → length (keep due (keep (λ m. not (is_in ids m.0)) rows)) ≤ length (keep due rows)
keep-fewer-le due ids [] = omega arith
keep-fewer-le due ids (m ∷ rows) = ground (arith, keep-fewer-le due ids rows)

keep-fewer :
    (due : ℕ × ℕ → Bool) (ids : List ℕ) (rows : Metrics)
    → any (λ m. due m && is_in ids m.0) rows ≡ true
    → length (keep due (keep (λ m. not (is_in ids m.0)) rows)) < length (keep due rows)
keep-fewer due ids [] h = absurd (ground arith)
keep-fewer due ids (m ∷ rows) h =
    ground (arith, keep-fewer due ids rows, keep-fewer-le due ids rows)

any-head :
    (p q : ℕ × ℕ → Bool) (rows : Metrics) (m : ℕ × ℕ) (ms : Metrics)
    → keep p rows ≡ m ∷ ms
    → q m ≡ true
    → any (λ x. p x && q x) rows ≡ true
any-head p q [] m ms e h = cc
any-head p q (x ∷ rows) m ms e h = ground (arith, any-head p q rows m ms)

first_batch :
    (due : ℕ × ℕ → Bool) (n : ℕ) (rows : Metrics)
    → (keep due rows ≡ [])
      ⊎ ((nat_beq (length (take (suc n) (ids_of (keep due rows)))) 0 ≡ false)
          × (any (λ m. due m && is_in (take (suc n) (ids_of (keep due rows))) m.0) rows ≡ true))
first_batch due n rows = go (keep due rows) refl
  where
    go :
        (ms : Metrics)
        → keep due rows ≡ ms
        → (ms ≡ [])
          ⊎ ((nat_beq (length (take (suc n) (ids_of ms))) 0 ≡ false)
              × (any (λ m. due m && is_in (take (suc n) (ids_of ms)) m.0) rows ≡ true))
    go [] e = inl refl
    go (m ∷ ms) e = inr (
      ground arith,
      any-head due (λ x. is_in (take (suc n) (ids_of (m ∷ ms))) x.0) rows m ms e
          (ground (arith, nat_beq_iff m.0 m.0)),
    )

-- With more fuel than rows that are due the loop ends, and each row is still there or was due, where
-- no id is there twice; whichever deletion fails.
delete_loop-left :
    (deletes : ℕ → Bool) (fuel batch cutoff bound : ℕ) (rows : Metrics)
    → IsDict rows
    → length (keep (is_due cutoff bound) rows) < fuel
    → (after : Metrics) × (delete_loop deletes fuel batch cutoff bound rows ≡ some after)
      × ((i at : ℕ)
          → lookup i rows ≡ some at
          → (lookup i after ≡ some at) ⊎ (is_due cutoff bound (i, at) ≡ true))
unfolding delete_loop
delete_loop-left deletes zero batch cutoff bound rows d le = absurd (omega arith)
delete_loop-left deletes (suc fuel) batch cutoff bound rows d le =
    let due = is_due cutoff bound in
    let ids = batch_ids cutoff bound rows in
    let left = keep (λ m. not (is_in ids m.0)) rows in
    elim (first_batch due 4999 rows) [
      | inl none_due ↦ (rows, ground (arith, none_due), λ i at h. inl h)
      | inr (more, some_due) ↦ elim (Bool-cases (deletes batch)) [
        | inr failed ↦ (rows, ground (arith, more, failed), λ i at h. inl h)
        | inl deleted ↦
            let fewer : length (keep due left) < length (keep due rows) =
              keep-fewer due ids rows some_due in
            let (after, ends, others) =
              delete_loop-left deletes fuel (suc batch) cutoff bound left
                (keep-IsDict (λ m. not (is_in ids m.0)) rows d) (omega arith) in
            (
              after,
              ground (arith, more, deleted, ends),
              λ i at h. elim (Bool-cases (is_in ids i)) [
                | inl here ↦
                    inr (
                      is_in-keep due rows i at d h
                        (is_in-take 5000 (ids_of (keep due rows)) i here))
                | inr away ↦
                    others i at (
                      lookup-keep-some i at (λ m. not (is_in ids m.0)) rows h
                        (ground (arith, away)))
              ],
            )
      ]
    ]

-- What an archive that lets the deletion go on holds.
archived :
    (env : RetentionEnv) (cutoff bound : ℕ) (rows : Metrics)
    → (archive_expired_metrics env cutoff rows).0 ≡ some bound
    → nat_beq bound 0 ≡ false
    → (max_expired cutoff rows ≡ some bound)
      × ((archive_expired_metrics env cutoff rows).1
          ≡ keep (is_due cutoff bound) (exported env rows))
unfolding archive_expired_metrics
archived env cutoff bound rows h pos = elim (Option-cases (max_expired cutoff rows)) [
  | inl nothing ↦ absurd (ground arith)
  | inr (b, found) ↦ ground (arith, found)
]

lookup-above :
    (bound i : ℕ) (ms : Metrics) → All (λ m. bound < m.0) ms → i ≤ bound → lookup i ms ≡ none
lookup-above bound i [] h le = refl
lookup-above bound i (m ∷ ms) h le =
    ground (arith, nat_beq_iff m.0 i, lookup-above bound i ms h.1 le, h.0)

-- Every row is still there, or is in the archive.
abbrev pub Kept : Metrics → Metrics → Metrics → Type 0
Kept before archive after =
    (i at : ℕ)
    → lookup i before ≡ some at
    → (lookup i after ≡ some at) ⊎ (lookup i archive ≡ some at)

due_row :
    (cutoff bound i at : ℕ) (old new : Metrics)
    → All (λ m. bound < m.0) new
    → lookup i (old ++ new) ≡ some at
    → is_due cutoff bound (i, at) ≡ true
    → lookup i (keep (is_due cutoff bound) old) ≡ some at
due_row cutoff bound i at old new above h due =
    let absent = lookup-above bound i new above (ground arith) in
    let there : lookup i old ≡ some at = ground (arith, lookup-append i old new, absent) in
    lookup-keep-some i at (is_due cutoff bound) old there due

-- A cleanup ends, and loses no row: whatever rows other sessions insert meanwhile, under ids above
-- those that were there once the boundary is read, and whichever of its steps fails, each row of
-- the table is there afterwards or in the archive, where no id is there twice.
pub clean_up-Kept :
    (env : RetentionEnv) (cutoff : ℕ) (rows : Metrics)
    → IsDict (exported env rows ++ env.before_delete)
    → ((bound : ℕ)
        → max_expired cutoff rows ≡ some bound
        → All (λ m. bound < m.0) env.before_delete)
    → (after : Metrics) × ((clean_up env cutoff rows).1 ≡ some after)
      × Kept (exported env rows ++ env.before_delete) (clean_up env cutoff rows).0 after
unfolding clean_up
clean_up-Kept env cutoff rows d above =
    let table = exported env rows ++ env.before_delete in
    elim (Option-cases (archive_expired_metrics env cutoff rows).0) [
      | inl failed ↦ (table, ground (arith, failed), λ i at h. inl h)
      | inr (bound, done) ↦ elim (Bool-cases (nat_beq bound 0)) [
        | inl nothing ↦ (table, ground (arith, done, nothing), λ i at h. inl h)
        | inr pos ↦
            let due = is_due cutoff bound in
            let (boundary, held) = archived env cutoff bound rows done pos in
            let (after, ends, left) =
              delete_loop-left env.deletes (suc (length table)) 0 cutoff bound table d
                (omega (arith, length-keep-le due table)) in
            (
              after,
              ground (arith, done, pos, ends),
              λ i at h. elim (left i at h) [
                | inl stays ↦ inl stays
                | inr goes ↦
                    let found =
                      due_row cutoff bound i at (exported env rows) env.before_delete
                        (above bound boundary) h goes in
                    inr (ground (arith, done, pos, ap (lookup i) held, found))
              ],
            )
      ]
    ]
