-- ===== src/Collector/Processes/Anonymous.antt =====
-- What `_parse_ps` of backend/app/ssh_collector.py keeps of the processes in the metric history.
use lab_gpu_server_monitor.Prelude.{
  ℕ, zero, suc, ◌+◌, ◌≤◌, ◌<◌, ◌≡◌, refl, sym, ap, ◌∙◌, Bool, true, false, not, ◌&&◌, some, List,
  [], ◌∷◌, ◌++◌, Text, nat_beq, leb, all, All, All-append, take, length, max, strip, is_space,
  non_empty, lstrip, arith, inl, inr, ◌⊎◌, Bool-cases, Option-cases, length-append,
}
use mathlib.Core.List.{reverse, reverse-cons}
use mathlib.Core.Path.{subst}
use lab_gpu_server_monitor.Prelude.Int.{ℤ}
use lab_gpu_server_monitor.Collector.{words_max, first_word, part}
use lab_gpu_server_monitor.Collector.Processes.{
  Numbers, Whole, whole, not_a_number, too_large, Process, Line, skipped, fails, taken, until,
  basename, executable_name, ps_lines, but_first, to_float, process_of, checked_process,
  read_process, ps_loop, parse_ps, is_bare, IsAnonymous,
}

all-append : (p : ℕ → Bool) (s t : Text) → all p s ≡ true → all p t ≡ true → all p (s ++ t) ≡ true
all-append p [] t hs ht = ht
all-append p (c ∷ s) t hs ht = ground (arith, all-append p s t)

all-reverse : (p : ℕ → Bool) (s : Text) → all p s ≡ true → all p (reverse s) ≡ true
all-reverse p [] h = refl
all-reverse p (c ∷ s) h =
    ap (all p) (reverse-cons c s)
    ∙ all-append p (reverse s) (c ∷ []) (all-reverse p s (ground arith)) (ground arith)

all-until : (p : ℕ → Bool) (sep : ℕ) (s : Text) → all p s ≡ true → all p (until sep s) ≡ true
unfolding until
all-until p sep [] h = refl
all-until p sep (c ∷ s) h = ground (arith, all-until p sep s)

until-no : (sep : ℕ) (s : Text) → all (λ c. not (nat_beq c sep)) (until sep s) ≡ true
unfolding until
until-no sep [] = refl
until-no sep (c ∷ s) = ground (arith, until-no sep s)

pub all-take : (p : ℕ → Bool) (n : ℕ) (s : Text) → all p s ≡ true → all p (take n s) ≡ true
all-take p zero s h = refl
all-take p (suc n) [] h = refl
all-take p (suc n) (c ∷ s) h = ground (arith, all-take p n s)

all-both :
    (p q : ℕ → Bool) (s : Text) → all p s ≡ true → all q s ≡ true → all (λ c. p c && q c) s ≡ true
all-both p q [] hp hq = refl
all-both p q (c ∷ s) hp hq = ground (arith, all-both p q s)

pub length-take-le : (n : ℕ) (s : Text) → length (take n s) ≤ n
length-take-le zero s = omega arith
length-take-le (suc n) [] = omega arith
length-take-le (suc n) (c ∷ s) = omega (arith, length-take-le n s)

first_word-no : (s : Text) → all (λ c. not (is_space c)) (first_word s) ≡ true
unfolding first_word
first_word-no [] = refl
first_word-no (c ∷ s) = elim (Bool-cases (is_space c)) [
  | inl space ↦ rw space refl
  | inr word ↦ ground (arith, word, first_word-no s)
]

abbrev not_space : ℕ → Bool
not_space c = not (is_space c)

basename-bare : (s : Text) → all not_space s ≡ true → is_bare (take 80 (basename s)) ≡ true
unfolding basename
basename-bare s h =
    let back = until 47 (reverse s) in
    let spaces =
      all-reverse not_space back (all-until not_space 47 (reverse s) (all-reverse not_space s h)) in
    let slashes = all-reverse (λ c. not (nat_beq c 47)) back (until-no 47 (reverse s)) in
    let both =
      all-take (λ c. not_space c && not (nat_beq c 47)) 80 (basename s)
        (all-both not_space (λ c. not (nat_beq c 47)) (basename s) spaces slashes) in
    ground (arith, both, length-take-le 80 (basename s))

-- the name of an executable
pub executable_name-bare :
    (command name : Text) → executable_name command ≡ some name → is_bare name ≡ true
unfolding executable_name words_max
executable_name-bare command name h =
    let t = lstrip (strip command) in
    let bare = basename-bare (first_word t) (first_word-no t) in
    elim (Bool-cases (non_empty t)) [
      | inl full ↦
          let same : some (take 80 (basename (first_word t))) ≡ some name =
            ground (arith, full, h) in
          let same_name : take 80 (basename (first_word t)) ≡ name = cc in
          ap is_bare (sym same_name) ∙ bare
      | inr blank ↦ absurd (ground (arith, blank, h))
    ]

Line-cases : {A : Type 0} (l : Line A) → (l ≡ skipped) ⊎ ((l ≡ fails) ⊎ ((a : A) × (l ≡ taken a)))
Line-cases skipped = inl refl
Line-cases fails = inr (inl refl)
Line-cases (taken a) = inr (inr (a, refl))

pub Whole-cases : (w : Whole) → ((z : ℤ) × (w ≡ whole z)) ⊎ ((w ≡ not_a_number) ⊎ (w ≡ too_large))
Whole-cases (whole z) = inl (z, refl)
Whole-cases not_a_number = inr (inl refl)
Whole-cases too_large = inr (inr refl)

taken_inj : {A : Type 0} (a b : A) → taken a ≡ taken b → a ≡ b
taken_inj a b h = cc

module _ {F : Type 0} (n : Numbers F) where
  checked_process-IsAnonymous :
      (parts : List Text) (pid ppid : ℤ) (p : Process F)
      → checked_process n false parts pid ppid ≡ taken p
      → IsAnonymous p
  unfolding checked_process
  checked_process-IsAnonymous parts pid ppid p h =
      elim (Whole-cases (n.truncate (to_float n (part 8 parts)))) [
        | inr (inl bad) ↦ absurd (ground (arith, bad, h))
        | inr (inr bad) ↦ absurd (ground (arith, bad, h))
        | inl (etimes, good) ↦ elim (Option-cases (executable_name (part 9 parts))) [
          | inl bad ↦ absurd (ground (arith, good, bad, h))
          | inr (command, named) ↦
              let shown = process_of n false parts pid ppid etimes command in
              let same : taken shown ≡ taken p = ground (arith, good, named, h) in
              subst IsAnonymous (taken_inj shown p same)
                (refl, executable_name-bare (part 9 parts) command named)
        ]
      ]

  read_process-IsAnonymous :
      (line : Text) (p : Process F) → read_process n false line ≡ taken p → IsAnonymous p
  unfolding read_process
  read_process-IsAnonymous line p h =
      let parts = words_max 9 line in
      elim (Option-cases (n.read_int (part 0 parts))) [
        | inl bad ↦ absurd (ground (arith, bad, h))
        | inr (pid, good) ↦ elim (Option-cases (n.read_int (part 1 parts))) [
          | inl bad ↦ absurd (ground (arith, good, bad, h))
          | inr (ppid, fine) ↦
              checked_process-IsAnonymous parts pid ppid p (ground (arith, good, fine, h))
        ]
      ]

  ps_loop-IsAnonymous :
      (limit : ℕ) (procs got : List (Process F)) (lines : List Text)
      → length procs < max 1 limit
      → All IsAnonymous procs
      → ps_loop n false limit procs lines ≡ some got
      → All IsAnonymous got × (length got ≤ max 1 limit)
  unfolding ps_loop
  ps_loop-IsAnonymous limit procs got [] room h done =
      let same : procs ≡ got = cc in
      subst (λ (ps : List (Process F)). All IsAnonymous ps × (length ps ≤ max 1 limit)) same
        (h, omega arith)
  ps_loop-IsAnonymous limit procs got (line ∷ lines) room h done =
      elim (Line-cases (read_process n false line)) [
        | inl skip ↦ ps_loop-IsAnonymous limit procs got lines room h (ground (arith, skip, done))
        | inr (inl bad) ↦ absurd (ground (arith, bad, done))
        | inr (inr (p, read)) ↦
            let more = procs ++ p ∷ [] in
            let all_more =
              All-append IsAnonymous procs (p ∷ []) h (read_process-IsAnonymous line p read, tt) in
            let longer : length more ≡ length procs + 1 = length-append procs (p ∷ []) in
            elim (Bool-cases (leb limit (length more))) [
              | inl full ↦
                  let same : some more ≡ some got = ground (arith, read, full, done) in
                  let same_list : more ≡ got = cc in
                  subst (λ (ps : List (Process F)). All IsAnonymous ps × (length ps ≤ max 1 limit))
                    same_list (all_more, omega (arith, longer))
              | inr short ↦
                  ps_loop-IsAnonymous limit more got lines (ground (arith, longer, short)) all_more
                    (ground (arith, read, short, done))
            ]
      ]

  -- Privacy.
  pub parse_ps-IsAnonymous :
      (limit : ℕ) (text : Text) (procs : List (Process F))
      → parse_ps n limit false text ≡ some procs
      → All IsAnonymous procs × (length procs ≤ max 1 limit)
  unfolding parse_ps
  parse_ps-IsAnonymous limit text procs done =
      ps_loop-IsAnonymous limit [] procs (but_first (ps_lines text)) (omega arith) tt done
