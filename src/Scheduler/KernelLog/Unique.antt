-- ===== src/Scheduler/KernelLog/Unique.antt =====
-- The log of kernel events in backend/app/scheduler.py holds each event once, however often the log
-- is read.
use lab_gpu_server_monitor.Prelude.{
  ℕ, ◌+◌, ◌≤◌, ◌≡◌, refl, ap, ◌∙◌, inl, inr, Bool, true, false, ◌&&◌, ◌||◌, List, [], ◌∷◌, ◌++◌,
  Text, text_eq, nat_eq, nat_beq, any, keep, length, arith, Bool-cases,
}
use mathlib.Core.List.{append-nil}
use mathlib.Core.Path.{subst}
use lab_gpu_server_monitor.Scheduler.KernelLog.{
  KernelEvent, KernelEventRow, Pending, has_hash, in_pending, has_key, IsUnique, pending_of,
  known_hashes, new_rows, store_kernel_events,
}

module _ (sha256_hex : Text → Text) (now sid : ℕ) (boot_id : Text) where
  pub new_rows-known :
      (known : List Text) (pending : Pending) (h : Text)
      → has_hash h known ≡ true
      → length (keep (has_key sid h) (new_rows sha256_hex now sid boot_id known pending)) ≡ 0
  unfolding new_rows
  new_rows-known known [] h k = refl
  new_rows-known known ((g, ev) ∷ pending) h k = ground (
    arith,
    text_eq.beq_iff g h,
    new_rows-known known pending h,
    new_rows-known (g ∷ known) pending h,
  )

  pub new_rows-once :
      (known : List Text) (pending : Pending) (h : Text)
      → length (keep (has_key sid h) (new_rows sha256_hex now sid boot_id known pending)) ≤ 1
  unfolding new_rows
  new_rows-once known [] h = omega arith
  new_rows-once known ((g, ev) ∷ pending) h = ground (
    arith,
    text_eq.beq_iff g h,
    new_rows-once known pending h,
    new_rows-once (g ∷ known) pending h,
    new_rows-known (g ∷ known) pending h,
  )

  pub new_rows-other :
      (known : List Text) (pending : Pending) (s : ℕ) (h : Text)
      → (nat_beq sid s && in_pending h pending) ≡ false
      → length (keep (has_key s h) (new_rows sha256_hex now sid boot_id known pending)) ≡ 0
  unfolding new_rows
  new_rows-other known [] s h out = refl
  new_rows-other known ((g, ev) ∷ pending) s h out =
      ground (arith, new_rows-other known pending s h, new_rows-other (g ∷ known) pending s h)

  pub new_rows-present :
      (known : List Text) (pending : Pending) (h : Text)
      → in_pending h pending ≡ true
      → (has_hash h known
          || any (has_key sid h) (new_rows sha256_hex now sid boot_id known pending))
        ≡ true
  unfolding new_rows
  new_rows-present known [] h i = ground arith
  new_rows-present known ((g, ev) ∷ pending) h i = ground (
    arith,
    text_eq.beq_iff g h,
    nat_eq.beq_iff sid sid,
    new_rows-present known pending h,
    new_rows-present (g ∷ known) pending h,
  )

  pub known_hashes_lem :
      (pending : Pending) (rows : List KernelEventRow) (h : Text)
      → in_pending h pending ≡ true
      → has_hash h (known_hashes sha256_hex now sid boot_id pending rows) ≡ any (has_key sid h) rows
  known_hashes_lem pending [] h i = refl
  known_hashes_lem pending (r ∷ rows) h i =
      ground (arith, text_eq.beq_iff r.dedup_hash h, known_hashes_lem pending rows h i)

  pub new_rows-nothing :
      (known : List Text) (pending : Pending)
      → ((h : Text) → in_pending h pending ≡ true → has_hash h known ≡ true)
      → new_rows sha256_hex now sid boot_id known pending ≡ []
  unfolding new_rows
  new_rows-nothing known [] all_known = refl
  new_rows-nothing known ((g, ev) ∷ pending) all_known =
      let here = all_known g (ground (arith, text_eq.beq_iff g g)) in
      let rest = new_rows-nothing known pending (λ h i. all_known h (ground arith)) in
      ground (arith, here, rest)

count-append {ℓ} :
    {A : Type ℓ} (p : A → Bool) (xs ys : List A)
    → length (keep p (xs ++ ys)) ≡ length (keep p xs) + length (keep p ys)
count-append p [] ys = omega arith
count-append p (x ∷ xs) ys = ground (arith, count-append p xs ys)

count-none {ℓ} :
    {A : Type ℓ} (p : A → Bool) (xs : List A) → any p xs ≡ false → length (keep p xs) ≡ 0
count-none p [] h = refl
count-none p (x ∷ xs) h = ground (arith, count-none p xs)

any-append {ℓ} :
    {A : Type ℓ} (p : A → Bool) (xs ys : List A) → any p (xs ++ ys) ≡ (any p xs || any p ys)
any-append p [] ys = refl
any-append p (x ∷ xs) ys = ground (arith, any-append p xs ys)

module _ (sha256_hex : Text → Text) (sid : ℕ) (boot_id : Text) where
  stored-once :
      (now : ℕ) (pending : Pending) (rows : List KernelEventRow) (h : Text)
      → in_pending h pending ≡ true
      → length (keep (has_key sid h) rows) ≤ 1
      → length (keep (has_key sid h) rows)
          + length (
              keep (has_key sid h) (
                new_rows sha256_hex now sid boot_id
                  (known_hashes sha256_hex now sid boot_id pending rows)
                  pending))
        ≤ 1
  stored-once now pending rows h i le =
      let known = known_hashes sha256_hex now sid boot_id pending rows in
      let same = known_hashes_lem sha256_hex now sid boot_id pending rows h i in
      elim (Bool-cases (any (has_key sid h) rows)) [
        | inl there ↦
            omega
              (arith, new_rows-known sha256_hex now sid boot_id known pending h (same ∙ there), le)
        | inr absent ↦ omega (
          arith,
          count-none (has_key sid h) rows absent,
          new_rows-once sha256_hex now sid boot_id known pending h,
        )
      ]

  -- However often a log is read, and whatever it repeats, no two rows have one server and one hash,
  -- if no two had before: the table's unique key is never violated.
  pub store_kernel_events-IsUnique :
      (now : ℕ) (events : List KernelEvent) (rows : List KernelEventRow)
      → IsUnique rows
      → IsUnique (store_kernel_events sha256_hex now sid boot_id events rows)
  unfolding store_kernel_events
  store_kernel_events-IsUnique now events rows u s h =
      let pending = pending_of sha256_hex now sid boot_id events in
      let known = known_hashes sha256_hex now sid boot_id pending rows in
      let both =
        count-append (has_key s h) rows (new_rows sha256_hex now sid boot_id known pending) in
      elim (Bool-cases (nat_beq sid s && in_pending h pending)) [
        | inr out ↦
            let none_new = new_rows-other sha256_hex now sid boot_id known pending s h out in
            omega (arith, both, none_new, u s h)
        | inl mine ↦
            let own : sid ≡ s = ground arith in
            let once = stored-once now pending rows h (ground arith) in
            omega (
              arith,
              both,
              subst
                  (λ t.
                    length (keep (has_key t h) rows) ≤ 1
                    → length (keep (has_key t h) rows)
                        + length
                            (keep (has_key t h) (new_rows sha256_hex now sid boot_id known pending))
                      ≤ 1)
                  own once (u s h),
            )
      ]

  -- What has been stored is not stored again: a second read of the same events, at any later time,
  -- leaves the table as it is.
  pub store_kernel_events-again :
      (now later : ℕ) (events : List KernelEvent) (rows : List KernelEventRow)
      → store_kernel_events sha256_hex later sid boot_id events
          (store_kernel_events sha256_hex now sid boot_id events rows)
        ≡ store_kernel_events sha256_hex now sid boot_id events rows
  unfolding store_kernel_events
  store_kernel_events-again now later events rows =
      let pending = pending_of sha256_hex now sid boot_id events in
      let known = known_hashes sha256_hex now sid boot_id pending rows in
      let fresh = new_rows sha256_hex now sid boot_id known pending in
      let nothing =
        new_rows-nothing sha256_hex later sid boot_id
          (known_hashes sha256_hex later sid boot_id pending (rows ++ fresh)) pending
          (λ h i. ground (
            arith,
            known_hashes_lem sha256_hex later sid boot_id pending (rows ++ fresh) h i,
            known_hashes_lem sha256_hex now sid boot_id pending rows h i,
            any-append (has_key sid h) rows fresh,
            new_rows-present sha256_hex now sid boot_id known pending h i,
          )) in
      ap (λ more. (rows ++ fresh) ++ more) nothing ∙ append-nil (rows ++ fresh)
