-- ===== src/Collector/Gpus/Merge/Anonymous.antt =====
-- The cards of a poll as a whole, in backend/app/ssh_collector.py.
use lab_gpu_server_monitor.Prelude.{
  ℕ, ◌≡◌, refl, sym, ap, ◌∙◌, Bool, true, false, not, ◌&&◌, Option, none, some, List, [], ◌∷◌, ◌++◌,
  map, Text, text_eq, ltb, leb, ◌==◌, codes, non_empty, strip, ◌||◌, all, All, All-append, take,
  length, is_space, nat_beq, Eq, arith, inl, inr, Bool-cases, Option-cases,
}
use mathlib.Core.Path.{subst}
use lab_gpu_server_monitor.Prelude.Int.{ℤ, int_eq}
use lab_gpu_server_monitor.Prelude.Table.{lookup, insert}
use lab_gpu_server_monitor.Ssh.Faults.{occurs_in}
use lab_gpu_server_monitor.Collector.{splitlines, part}
use lab_gpu_server_monitor.Collector.Processes.{
  Numbers, Process, to_float, executable_name, is_bare, IsAnonymous, parse_ps,
}
use lab_gpu_server_monitor.Collector.Processes.Anonymous.{
  Whole-cases, executable_name-bare, parse_ps-IsAnonymous, all-take, length-take-le,
}
use lab_gpu_server_monitor.Collector.Gpus.{
  GpuRow, GpuProcess, columns, whole_of, parse_gpus, gpu_lines, reading_of, no_health, no_clocks,
}
use lab_gpu_server_monitor.Collector.Gpus.Merge.{
  merge_gpu_health, merge_gpu_clocks, name_lines, ps_index, command_of, entry_of, merge_gpu_apps,
  read_gpus,
}
use lab_gpu_server_monitor.Collector.Gpus.Merge.Kept.{
  some_inj, Follows, Follows-trans, health_lines-Follows, clock_lines-Follows, app_lines-Follows,
}

module _ {K V : Type 0} ⦃e : Eq K⦄ (Q : V → Type 0) where
  values-insert :
      (k : K) (v : V) (d : List (K × V))
      → Q v
      → All (λ b. Q b.1) d
      → All (λ b. Q b.1) (insert k v d)
  values-insert k v [] q h = (q, tt)
  values-insert k v ((j, w) ∷ d) q h = elim (Bool-cases (j == k)) [
    | inl same ↦ rw same (q, h.1)
    | inr other ↦ rw other (h.0, values-insert k v d q h.1)
  ]

  values-lookup :
      (k : K) (v : V) (d : List (K × V)) → All (λ b. Q b.1) d → lookup k d ≡ some v → Q v
  values-lookup k v [] h found = absurd cc
  values-lookup k v ((j, w) ∷ d) h found = elim (Bool-cases (j == k)) [
    | inl same ↦
        let here : some w ≡ some v = ground (arith, same, found) in subst Q (some_inj here) h.0
    | inr other ↦ values-lookup k v d h.1 (ground (arith, other, found))
  ]

abbrev IsBare : Text → Type 0
IsBare name = is_bare name ≡ true

take-within :
    (p : ℕ → Bool) (m k : ℕ) (s : Text)
    → (all p s && leb (length s) k) ≡ true
    → (all p (take m s) && leb (length (take m s)) m) ≡ true
take-within p m k s h = ground (arith, all-take p m s, length-take-le m s)

take-IsBare : (s : Text) → IsBare s → IsBare (take 80 s)
take-IsBare s h = take-within (λ c. not (is_space c) && not (nat_beq c 47)) 80 80 s h

module _ {F : Type 0} where
  -- a card's process that tells neither whose it is nor what it was called with
  abbrev pub IsAnonymousEntry : GpuProcess F → Type 0
  IsAnonymousEntry p = (p.user ≡ []) × IsBare p.command

  -- cards whose processes tell neither
  abbrev pub AreAnonymous : List (GpuRow F) → Type 0
  AreAnonymous gpus = All (λ g. All IsAnonymousEntry g.processes) gpus

  ps_index-IsAnonymous :
      (procs : List (Process F)) (index : List (ℤ × Process F))
      → All IsAnonymous procs
      → All (λ b. IsAnonymous b.1) index
      → All (λ b. IsAnonymous b.1) (ps_index procs index)
  unfolding ps_index
  ps_index-IsAnonymous [] index h k = k
  ps_index-IsAnonymous (p ∷ procs) index h k =
      ps_index-IsAnonymous procs (insert p.pid p index) h.1
        (values-insert IsAnonymous p.pid p index h.0 k)

  command_of-IsBare :
      (name : Option Text) (proc : Option (Process F))
      → ((t : Text) → name ≡ some t → IsBare t)
      → ((p : Process F) → proc ≡ some p → IsAnonymous p)
      → IsBare (command_of name proc)
  command_of-IsBare (some (c ∷ t)) proc named known = named (c ∷ t) refl
  command_of-IsBare (some []) (some p) named known = (known p refl).1
  command_of-IsBare (some []) none named known = refl
  command_of-IsBare none (some p) named known = (known p refl).1
  command_of-IsBare none none named known = refl

module _ {F : Type 0} (n : Numbers F) where
  name_lines-IsBare :
      (lines : List Text) (names got : List (ℤ × Text))
      → All (λ b. IsBare b.1) names
      → name_lines n lines names ≡ some got
      → All (λ b. IsBare b.1) got
  unfolding name_lines
  name_lines-IsBare [] names got h done =
      subst (λ (d : List (ℤ × Text)). All (λ b. IsBare b.1) d) (some_inj done) h
  name_lines-IsBare (line ∷ lines) names got h done =
      let parts = columns line in
      elim (Bool-cases (ltb (length parts) 2)) [
        | inl short ↦ name_lines-IsBare lines names got h (ground (arith, short, done))
        | inr long ↦ elim (Whole-cases (n.truncate (to_float n (part 0 parts)))) [
          | inr (inl nan) ↦ name_lines-IsBare lines names got h (ground (arith, long, nan, done))
          | inr (inr bad) ↦ absurd (ground (arith, long, bad, done))
          | inl (pid, good) ↦ elim (Option-cases (executable_name (part 1 parts))) [
            | inl bad ↦ absurd (ground (arith, long, good, bad, done))
            | inr (name, made) ↦
                name_lines-IsBare lines (insert pid name names) got
                  (values-insert IsBare pid name names
                    (executable_name-bare (part 1 parts) name made) h)
                  (ground (arith, long, good, made, done))
          ]
        ]
      ]

  entry_of-IsAnonymousEntry :
      (names : List (ℤ × Text)) (index : List (ℤ × Process F)) (pid : ℤ) (mem : Text)
      → All (λ b. IsBare b.1) names
      → All (λ b. IsAnonymous b.1) index
      → IsAnonymousEntry (entry_of n names index pid mem)
  entry_of-IsAnonymousEntry names index pid mem named known = (
    elim (Option-cases (lookup pid index)) [
      | inl unknown ↦ rw (entry_of, unknown) refl
      | inr (proc, found) ↦
          rw (entry_of, found) (values-lookup IsAnonymous pid proc index known found).0
    ],
    take-IsBare (command_of (lookup pid names) (lookup pid index)) (
        command_of-IsBare (lookup pid names) (lookup pid index)
          (λ t found. values-lookup IsBare pid t names named found)
          (λ p found. values-lookup IsAnonymous pid p index known found)),
  )

  gpu_lines-AreAnonymous :
      (lines : List Text) (gpus got : List (GpuRow F)) (driver end : Text)
      → AreAnonymous gpus
      → gpu_lines n lines gpus driver ≡ some (got, end)
      → AreAnonymous got
  unfolding gpu_lines
  gpu_lines-AreAnonymous [] gpus got driver end h done =
      subst AreAnonymous (ap (λ p. p.0) (some_inj done)) h
  gpu_lines-AreAnonymous (line ∷ lines) gpus got driver end h done =
      let parts = columns line in
      elim (Bool-cases (ltb (length parts) 12)) [
        | inl short ↦
            gpu_lines-AreAnonymous lines gpus got driver end h (ground (arith, short, done))
        | inr long ↦ elim (Whole-cases (whole_of n (part 0 parts))) [
          | inr (inl bad) ↦ absurd (ground (arith, long, bad, done))
          | inr (inr bad) ↦ absurd (ground (arith, long, bad, done))
          | inl (index, good) ↦
              let g : GpuRow F = record {
                reading = reading_of n parts index;
                health = no_health n;
                clocks = no_clocks n;
                processes = [];
              } in
              gpu_lines-AreAnonymous lines (gpus ++ g ∷ []) got (part 11 parts) end
                (All-append (λ x. All IsAnonymousEntry x.processes) gpus (g ∷ []) h (tt, tt))
                (ground (arith, long, good, done))
        ]
      ]

  parse_gpus-AreAnonymous :
      (text driver : Text) (gpus : List (GpuRow F))
      → parse_gpus n text ≡ some (gpus, driver)
      → AreAnonymous gpus
  unfolding parse_gpus
  parse_gpus-AreAnonymous text driver gpus done =
      let skip = not (non_empty (strip text)) || occurs_in (codes "__NO_NVIDIA__") text in
      elim (Bool-cases skip) [
        | inl none_there ↦
            let same : [] ≡ gpus = ground (arith, none_there, done) in subst AreAnonymous same tt
        | inr some_there ↦
            gpu_lines-AreAnonymous (splitlines text) [] gpus [] driver tt
              (ground (arith, some_there, done))
      ]

  merge_gpu_apps-Follows :
      (apps names : Text) (gpus got : List (GpuRow F)) (procs : List (Process F))
      → All IsAnonymous procs
      → AreAnonymous gpus
      → merge_gpu_apps n apps names gpus (ps_index procs []) ≡ some got
      → Follows IsAnonymousEntry gpus got
  unfolding merge_gpu_apps
  merge_gpu_apps-Follows apps names gpus got procs known h done =
      elim (Option-cases (name_lines n (splitlines names) [])) [
        | inl bad ↦ absurd (ground (arith, bad, done))
        | inr (named, good) ↦
            let index = ps_index procs [] in
            app_lines-Follows n IsAnonymousEntry named index (splitlines apps) gpus got
              (λ pid mem.
                entry_of-IsAnonymousEntry named index pid mem
                  (name_lines-IsBare (splitlines names) [] named tt good)
                  (ps_index-IsAnonymous procs [] known tt))
              h (ground (arith, good, done))
      ]

  -- The processes that are put on the GPUs tell no user, no argument and no folder where the known
  -- ones do not; the readings are as `_parse_gpus` has read them.
  pub read_gpus-anonymous :
      (read_based : Text → Option ℤ) (gpu health clock apps names driver : Text)
      (procs : List (Process F)) (gpus : List (GpuRow F))
      → All IsAnonymous procs
      → read_gpus n read_based gpu health clock apps names procs ≡ some (gpus, driver)
      → AreAnonymous gpus
        × ((bare : List (GpuRow F)) × ((parse_gpus n gpu ≡ some (bare, driver))
              × (map (λ g. g.reading) gpus ≡ map (λ g. g.reading) bare)))
  unfolding read_gpus
  read_gpus-anonymous read_based gpu health clock apps names driver procs gpus known done =
      elim (Option-cases (parse_gpus n gpu)) [
        | inl bad ↦ absurd (ground (arith, bad, done))
        | inr (found, parsed) ↦ elim (Option-cases (merge_gpu_health n read_based health found.0)) [
          | inl bad ↦ absurd (ground (arith, parsed, bad, done))
          | inr (healthy, a) ↦ elim (Option-cases (merge_gpu_clocks n clock healthy)) [
            | inl bad ↦ absurd (ground (arith, parsed, a, bad, done))
            | inr (clocked, b) ↦
                elim (Option-cases (merge_gpu_apps n apps names clocked (ps_index procs []))) [
                  | inl bad ↦ absurd (ground (arith, parsed, a, b, bad, done))
                  | inr (full, c) ↦
                      let out : List (GpuRow F) × Text = (full, found.1) in
                      let wanted : List (GpuRow F) × Text = (gpus, driver) in
                      let same : some out ≡ some wanted = ground (arith, parsed, a, b, c, done) in
                      let start = parse_gpus-AreAnonymous gpu found.1 found.0 parsed in
                      let first =
                        health_lines-Follows n read_based IsAnonymousEntry (splitlines health)
                          found.0 healthy start a in
                      let second =
                        clock_lines-Follows n IsAnonymousEntry (splitlines clock) healthy clocked
                          first.1 b in
                      let third =
                        merge_gpu_apps-Follows apps names clocked full procs known second.1 c in
                      let follows =
                        Follows-trans IsAnonymousEntry found.0 healthy full first
                          (Follows-trans IsAnonymousEntry healthy clocked full second third) in
                      let all_gpus : full ≡ gpus = ap (λ o. o.0) (some_inj same) in
                      let driven : found.1 ≡ driver = ap (λ o. o.1) (some_inj same) in
                      (
                        subst AreAnonymous all_gpus follows.1,
                        (
                          found.0,
                          (
                            parsed ∙ ap (λ t. some (found.0, t)) driven,
                            ap (λ (gs : List (GpuRow F)). map (λ g. g.reading) gs) (sym all_gpus)
                                ∙ follows.0,
                          ),
                        ),
                      )
                ]
          ]
        ]
      ]

  -- Where the process list has been read without the sensitive parts and no parser raises, the
  -- processes that are put on the GPUs tell no user, no argument and no folder, and the merges
  -- leave every GPU's own readings, their number and their order as `_parse_gpus` has read them.
  pub read_gpus-AreAnonymous :
      (read_based : Text → Option ℤ) (limit : ℕ) (ps gpu health clock apps names driver : Text)
      (procs : List (Process F)) (gpus : List (GpuRow F))
      → parse_ps n limit false ps ≡ some procs
      → read_gpus n read_based gpu health clock apps names procs ≡ some (gpus, driver)
      → AreAnonymous gpus
        × ((bare : List (GpuRow F)) × ((parse_gpus n gpu ≡ some (bare, driver))
              × (map (λ g. g.reading) gpus ≡ map (λ g. g.reading) bare)))
  read_gpus-AreAnonymous read_based limit ps gpu health clock apps names driver procs gpus read
        done =
      read_gpus-anonymous read_based gpu health clock apps names driver procs gpus
        (parse_ps-IsAnonymous n limit ps procs read).0 done
