-- ===== src/Collector/Disks/Unique.antt =====
-- What `_parse_df` of backend/app/ssh_collector.py lists: every mount once, in order.
use mathlib.Core.Path.{subst}
use lab_gpu_server_monitor.Prelude.{
  ◌≤◌, ◌≡◌, refl, Bool, true, false, List, [], ◌∷◌, Text, text_eq, text_beq_iff, ◌==◌, any, keep,
  length, arith, inl, inr, Bool-cases,
}
use lab_gpu_server_monitor.Collector.{words_max, part}
use lab_gpu_server_monitor.Collector.Processes.{Numbers, but_first}
use lab_gpu_server_monitor.Collector.Disks.{
  DiskUse, filled_lines, text_ltb, put_sorted, sort_by, df_skips, df_loop, parse_df,
}

text_ltb-asym : (s t : Text) → text_ltb s t ≡ true → text_ltb t s ≡ false
unfolding text_ltb
text_ltb-asym [] [] h = refl
text_ltb-asym [] (d ∷ t) h = refl
text_ltb-asym (c ∷ s) [] h = absurd cc
text_ltb-asym (c ∷ s) (d ∷ t) h = ground (arith, text_ltb-asym s t)

module _ {A : Type 0} (key : A → Text) where
  -- no element is greater than the next one
  abbrev pub IsOrdered : List A → Type 0
  IsOrdered [] = Unit
  IsOrdered (x ∷ []) = Unit
  IsOrdered (x ∷ y ∷ ys) = (text_ltb (key y) (key x) ≡ false) × IsOrdered (y ∷ ys)

  put_sorted-IsOrdered : (x : A) (ys : List A) → IsOrdered ys → IsOrdered (put_sorted key x ys)
  unfolding put_sorted
  put_sorted-IsOrdered x [] h = tt
  put_sorted-IsOrdered x (y ∷ []) h = elim (Bool-cases (text_ltb (key y) (key x))) [
    | inl less ↦ rw (put_sorted, less) (text_ltb-asym (key y) (key x) less, tt)
    | inr first ↦ rw (put_sorted, first) (first, tt)
  ]
  put_sorted-IsOrdered x (y ∷ z ∷ zs) h = elim (Bool-cases (text_ltb (key y) (key x))) [
    | inr first ↦ rw (put_sorted, first) (first, h)
    | inl less ↦ elim (Bool-cases (text_ltb (key z) (key x))) [
      | inr here ↦ rw (put_sorted, less, here) (text_ltb-asym (key y) (key x) less, (here, h.1))
      | inl later ↦
          let rest = put_sorted-IsOrdered x (z ∷ zs) h.1 in
          let same : put_sorted key x (z ∷ zs) ≡ z ∷ put_sorted key x zs =
            rw (put_sorted, later) refl in
          rw (put_sorted, less, later) (h.0, subst IsOrdered same rest)
    ]
  ]

  sort_by-IsOrdered : (xs : List A) → IsOrdered (sort_by key xs)
  unfolding sort_by
  sort_by-IsOrdered [] = tt
  sort_by-IsOrdered (x ∷ xs) = put_sorted-IsOrdered x (sort_by key xs) (sort_by-IsOrdered xs)

  -- a sort keeps how many pass a test
  put_sorted-keep :
      (p : A → Bool) (x : A) (ys : List A)
      → length (keep p (put_sorted key x ys)) ≡ length (keep p (x ∷ ys))
  unfolding put_sorted
  put_sorted-keep p x [] = refl
  put_sorted-keep p x (y ∷ ys) = ground (arith, put_sorted-keep p x ys)

  sort_by-keep :
      (p : A → Bool) (xs : List A) → length (keep p (sort_by key xs)) ≡ length (keep p xs)
  unfolding sort_by
  sort_by-keep p [] = refl
  sort_by-keep p (x ∷ xs) = ground (arith, sort_by-keep p xs, put_sorted-keep p x (sort_by key xs))

-- the disks under a mount
abbrev pub at_mount : {F : Type 0} → Text → List (DiskUse F) → List (DiskUse F)
at_mount m disks = keep (λ d. d.mount == m) disks

module _ {F : Type 0} (n : Numbers F) where
  df_loop_seen :
      (m : Text) (seen lines : List Text)
      → any (λ s. s == m) seen ≡ true
      → at_mount m (df_loop n seen lines) ≡ []
  unfolding df_loop
  df_loop_seen m seen [] h = refl
  df_loop_seen m seen (line ∷ lines) h =
      let parts = words_max 5 line in
      elim (Bool-cases (df_skips n parts seen)) [
        | inl skip ↦ rw (df_loop, skip) (df_loop_seen m seen lines h)
        | inr new ↦ ground (
          arith,
          new,
          h,
          text_beq_iff (part 5 parts) m,
          df_loop_seen m (part 5 parts ∷ seen) lines,
        )
      ]

  df_loop_unique :
      (m : Text) (seen lines : List Text) → length (at_mount m (df_loop n seen lines)) ≤ 1
  unfolding df_loop
  df_loop_unique m seen [] = omega arith
  df_loop_unique m seen (line ∷ lines) =
      let parts = words_max 5 line in
      let rest = df_loop_unique m (part 5 parts ∷ seen) lines in
      let none_left = df_loop_seen m (part 5 parts ∷ seen) lines in
      elim (Bool-cases (df_skips n parts seen)) [
        | inl skip ↦ rw (df_loop, skip) (df_loop_unique m seen lines)
        | inr new ↦ elim (Bool-cases (part 5 parts == m)) [
          | inl here ↦ ground (arith, new, here, none_left)
          | inr other ↦ ground (arith, new, other, rest)
        ]
      ]

  -- The disks of `df` are in the order of their mounts, and no mount is there twice.
  pub parse_df-IsOrdered :
      (text m : Text)
      → (length (at_mount m (parse_df n text)) ≤ 1) × IsOrdered (λ d. d.mount) (parse_df n text)
  unfolding parse_df
  parse_df-IsOrdered text m =
      let found = df_loop n [] (but_first (filled_lines text)) in
      (
        omega (
          arith,
          sort_by-keep (λ d. d.mount) (λ d. d.mount == m) found,
          df_loop_unique m [] (but_first (filled_lines text)),
        ),
        sort_by-IsOrdered (λ d. d.mount) found,
      )
