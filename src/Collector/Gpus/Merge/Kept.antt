-- ===== src/Collector/Gpus/Merge/Kept.antt =====
-- What the merges of backend/app/ssh_collector.py keep of the cards, and what the processes that they
-- add tell of their users.
use lab_gpu_server_monitor.Prelude.{
  ◌≡◌, refl, sym, ◌∙◌, Bool, ◌||◌, Option, some, List, [], ◌∷◌, ◌++◌, map, Text, codes, text_eq,
  ltb, any, All, All-append, length, strip, arith, inl, inr, Bool-cases, Option-cases,
}
use mathlib.Core.Path.{subst}
use lab_gpu_server_monitor.Prelude.Int.{ℤ, int_eq}
use lab_gpu_server_monitor.Ssh.Faults.{occurs_in}
use lab_gpu_server_monitor.Collector.{part}
use lab_gpu_server_monitor.Collector.Processes.{Numbers, Process, to_float}
use lab_gpu_server_monitor.Collector.Processes.Anonymous.{Whole-cases}
use lab_gpu_server_monitor.Collector.Gpus.{GpuRow, GpuProcess, columns, update_last, whole_of}
use lab_gpu_server_monitor.Collector.Gpus.Merge.{
  has_index, has_uuid, health_of, counts_of, put_health, health_lines, clocks_of, put_clocks,
  clock_lines, entry_of, with_process, put_process, app_lines, last_part,
}

module _ {A B : Type 0} where
  update_last-map :
      (r : A → B) (p : A → Bool) (f : A → A)
      → ((x : A) → r (f x) ≡ r x)
      → (xs : List A) → map r (update_last p f xs) ≡ map r xs
  unfolding update_last
  update_last-map r p f same [] = refl
  update_last-map r p f same (x ∷ xs) = ground (arith, same x, update_last-map r p f same xs)

module _ {A : Type 0} where
  update_last-All :
      (P : A → Type 0) (p : A → Bool) (f : A → A)
      → ((x : A) → P x → P (f x))
      → (xs : List A) → All P xs
      → All P (update_last p f xs)
  unfolding update_last
  update_last-All P p f keeps [] h = tt
  update_last-All P p f keeps (x ∷ xs) h = elim (Bool-cases (any p xs)) [
    | inl later ↦ rw (update_last, later) (h.0, update_last-All P p f keeps xs h.1)
    | inr last ↦ elim (Bool-cases (p x)) [
      | inl here ↦ rw (update_last, last, here) (keeps x h.0, h.1)
      | inr other ↦ rw (update_last, last, other) h
    ]
  ]

pub some_inj : {A : Type 0} {a b : A} → some a ≡ some b → a ≡ b
some_inj h = cc

module _ {F : Type 0} where
  -- cards with the readings that others have, whose processes pass a test
  abbrev pub Follows : (GpuProcess F → Type 0) → List (GpuRow F) → List (GpuRow F) → Type 0
  Follows P old new =
      (map (λ g. g.reading) new ≡ map (λ g. g.reading) old) × All (λ g. All P g.processes) new

  update-Follows :
      (P : GpuProcess F → Type 0) (p : GpuRow F → Bool) (f : GpuRow F → GpuRow F)
      (gpus : List (GpuRow F))
      → ((g : GpuRow F) → (f g).reading ≡ g.reading)
      → ((g : GpuRow F) → All P g.processes → All P (f g).processes)
      → All (λ g. All P g.processes) gpus
      → Follows P gpus (update_last p f gpus)
  update-Follows P p f gpus same keeps h = (
    update_last-map (λ g. g.reading) p f same gpus,
    update_last-All (λ g. All P g.processes) p f keeps gpus h,
  )

  pub Follows-trans :
      (P : GpuProcess F → Type 0) (a b c : List (GpuRow F))
      → Follows P a b
      → Follows P b c
      → Follows P a c
  Follows-trans P a b c f g = (g.0 ∙ f.0, g.1)

module _ {F : Type 0} (n : Numbers F) (read_based : Text → Option ℤ)
    (P : GpuProcess F → Type 0) where
  put_health-Follows :
      (parts : List Text) (index : ℤ) (gpus got : List (GpuRow F))
      → All (λ g. All P g.processes) gpus
      → put_health n read_based parts index gpus ≡ some got
      → Follows P gpus got
  unfolding put_health
  put_health-Follows parts index gpus got h done = elim (Bool-cases (any (has_index index) gpus)) [
    | inr absent ↦
        let same : gpus ≡ got = ground (arith, absent, done) in
        subst (Follows P gpus) same (refl, h)
    | inl there ↦ elim (Option-cases (counts_of n parts)) [
      | inl bad ↦ absurd (ground (arith, there, bad, done))
      | inr (counts, good) ↦
          let f : GpuRow F → GpuRow F =
            λ g. record g { health = health_of n read_based parts counts } in
          let same : update_last (has_index index) f gpus ≡ got =
            ground (arith, there, good, done) in
          subst (Follows P gpus) same
            (update-Follows P (has_index index) f gpus (λ g. refl) (λ g k. k) h)
    ]
  ]

  pub health_lines-Follows :
      (lines : List Text) (gpus got : List (GpuRow F))
      → All (λ g. All P g.processes) gpus
      → health_lines n read_based lines gpus ≡ some got
      → Follows P gpus got
  unfolding health_lines
  health_lines-Follows [] gpus got h done = subst (Follows P gpus) (some_inj done) (refl, h)
  health_lines-Follows (line ∷ lines) gpus got h done =
      let parts = columns line in
      elim (Bool-cases (ltb (length parts) 18)) [
        | inl short ↦ health_lines-Follows lines gpus got h (ground (arith, short, done))
        | inr long ↦ elim (Whole-cases (whole_of n (part 0 parts))) [
          | inr (inl nan) ↦ health_lines-Follows lines gpus got h (ground (arith, long, nan, done))
          | inr (inr bad) ↦ absurd (ground (arith, long, bad, done))
          | inl (index, good) ↦ elim (Option-cases (put_health n read_based parts index gpus)) [
            | inl bad ↦ absurd (ground (arith, long, good, bad, done))
            | inr (put, made) ↦
                let first = put_health-Follows parts index gpus put h made in
                Follows-trans P gpus put got first (
                  health_lines-Follows lines put got first.1
                    (ground (arith, long, good, made, done)))
          ]
        ]
      ]

module _ {F : Type 0} (n : Numbers F) (P : GpuProcess F → Type 0) where
  put_clocks-Follows :
      (parts : List Text) (index : ℤ) (gpus got : List (GpuRow F))
      → All (λ g. All P g.processes) gpus
      → put_clocks n parts index gpus ≡ some got
      → Follows P gpus got
  unfolding put_clocks
  put_clocks-Follows parts index gpus got h done = elim (Bool-cases (any (has_index index) gpus)) [
    | inr absent ↦
        let same : gpus ≡ got = ground (arith, absent, done) in
        subst (Follows P gpus) same (refl, h)
    | inl there ↦ elim (Bool-cases (ltb 5 (length parts))) [
      | inr few ↦
          let f : GpuRow F → GpuRow F =
            λ g. record g { clocks = clocks_of n parts g.clocks g.clocks.encoder_sessions } in
          let same : update_last (has_index index) f gpus ≡ got =
            ground (arith, there, few, done) in
          subst (Follows P gpus) same
            (update-Follows P (has_index index) f gpus (λ g. refl) (λ g k. k) h)
      | inl many ↦ elim (Whole-cases (whole_of n (part 5 parts))) [
        | inr (inl bad) ↦ absurd (ground (arith, there, many, bad, done))
        | inr (inr bad) ↦ absurd (ground (arith, there, many, bad, done))
        | inl (sessions, good) ↦
            let f : GpuRow F → GpuRow F =
              λ g. record g { clocks = clocks_of n parts g.clocks sessions } in
            let same : update_last (has_index index) f gpus ≡ got =
              ground (arith, there, many, good, done) in
            subst (Follows P gpus) same
              (update-Follows P (has_index index) f gpus (λ g. refl) (λ g k. k) h)
      ]
    ]
  ]

  pub clock_lines-Follows :
      (lines : List Text) (gpus got : List (GpuRow F))
      → All (λ g. All P g.processes) gpus
      → clock_lines n lines gpus ≡ some got
      → Follows P gpus got
  unfolding clock_lines
  clock_lines-Follows [] gpus got h done = subst (Follows P gpus) (some_inj done) (refl, h)
  clock_lines-Follows (line ∷ lines) gpus got h done =
      let parts = columns line in
      elim (Bool-cases (ltb (length parts) 5 || occurs_in (codes "Field ") (strip line))) [
        | inl short ↦ clock_lines-Follows lines gpus got h (ground (arith, short, done))
        | inr long ↦ elim (Whole-cases (whole_of n (part 0 parts))) [
          | inr (inl nan) ↦ clock_lines-Follows lines gpus got h (ground (arith, long, nan, done))
          | inr (inr bad) ↦ absurd (ground (arith, long, bad, done))
          | inl (index, good) ↦ elim (Option-cases (put_clocks n parts index gpus)) [
            | inl bad ↦ absurd (ground (arith, long, good, bad, done))
            | inr (put, made) ↦
                let first = put_clocks-Follows parts index gpus put h made in
                Follows-trans P gpus put got first (
                  clock_lines-Follows lines put got first.1
                    (ground (arith, long, good, made, done)))
          ]
        ]
      ]

  put_process-Follows :
      (uuid : Text) (entry : GpuProcess F) (gpus : List (GpuRow F))
      → P entry
      → All (λ g. All P g.processes) gpus
      → Follows P gpus (put_process uuid entry gpus)
  unfolding put_process
  put_process-Follows uuid entry [] p h = (refl, tt)
  put_process-Follows uuid entry (g ∷ gpus) p h =
      let keeps : (x : GpuRow F) → All P x.processes → All P (x.processes ++ entry ∷ []) =
        λ x k. All-append P x.processes (entry ∷ []) k (p, tt) in
      elim (Bool-cases (any (has_uuid uuid) (g ∷ gpus))) [
        | inl there ↦
            let same : put_process uuid entry (g ∷ gpus)
                ≡ update_last (has_uuid uuid) (with_process entry) (g ∷ gpus) =
              ground (arith, there) in
            subst (Follows P (g ∷ gpus)) (sym same)
              (update-Follows P (has_uuid uuid) (with_process entry) (g ∷ gpus) (λ x. refl) keeps h)
        | inr absent ↦
            let same : put_process uuid entry (g ∷ gpus) ≡ with_process entry g ∷ gpus =
              ground (arith, absent) in
            subst (Follows P (g ∷ gpus)) (sym same) (refl, (keeps g h.0, h.1))
      ]

  pub app_lines-Follows :
      (names : List (ℤ × Text)) (index : List (ℤ × Process F)) (lines : List Text)
      (gpus got : List (GpuRow F))
      → ((pid : ℤ) (mem : Text) → P (entry_of n names index pid mem))
      → All (λ g. All P g.processes) gpus
      → app_lines n names index lines gpus ≡ some got
      → Follows P gpus got
  unfolding app_lines
  app_lines-Follows names index [] gpus got p h done =
      subst (Follows P gpus) (some_inj done) (refl, h)
  app_lines-Follows names index (line ∷ lines) gpus got p h done =
      let parts = columns line in
      elim (Bool-cases (ltb (length parts) 3)) [
        | inl short ↦ app_lines-Follows names index lines gpus got p h (ground (arith, short, done))
        | inr long ↦ elim (Whole-cases (n.truncate (to_float n (part 1 parts)))) [
          | inr (inl nan) ↦
              app_lines-Follows names index lines gpus got p h (ground (arith, long, nan, done))
          | inr (inr bad) ↦ absurd (ground (arith, long, bad, done))
          | inl (pid, good) ↦
              let entry = entry_of n names index pid (last_part parts) in
              let put = put_process (part 0 parts) entry gpus in
              let first =
                put_process-Follows (part 0 parts) entry gpus (p pid (last_part parts)) h in
              Follows-trans P gpus put got first (
                app_lines-Follows names index lines put got p first.1
                  (ground (arith, long, good, done)))
        ]
      ]
