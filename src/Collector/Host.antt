-- ===== src/Collector/Host.antt =====
-- The processor and the memory of a poll, in backend/app/ssh_collector.py. A call that raises
-- returns `none`.
use lab_gpu_server_monitor.Prelude.{
  ℕ, zero, suc, Bool, ◌&&◌, ◌||◌, Option, none, some, List, [], ◌∷◌, ◌++◌, map, if◌then◌else◌, Text,
  codes, text_eq, nat_eq, ◌==◌, any, all, starts_with, strip, non_empty, is_space,
}
use mathlib.Core.List.{reverse}
use lab_gpu_server_monitor.Prelude.Int.{ℤ, pos, negsuc}
use lab_gpu_server_monitor.Prelude.Table.{lookup, insert}
use lab_gpu_server_monitor.Prelude.Decimal.{decimal}
use lab_gpu_server_monitor.Collector.{splitlines, words, cut, without}
use lab_gpu_server_monitor.Collector.Processes.{
  Numbers, Whole, whole, not_a_number, too_large, to_float,
}
use lab_gpu_server_monitor.Collector.KernelLog.{Letters, folded, is_digit, leading_number}

pub record Core (F : Type 0) : Type 0 where
  pub id : ℕ
  pub util : F
  pub freq_mhz : ℤ
  pub temp : F

pub record Cpu (F : Type 0) : Type 0 where
  pub overall : F
  pub iowait : F
  pub cores : List (Core F)
  pub package_temp : F

pub record Memory (F : Type 0) : Type 0 where
  pub total_mb : F
  pub used_mb : F
  pub available_mb : F
  pub cached_mb : F
  pub swap_total_mb : F
  pub swap_used_mb : F

-- the `i`-th element, where there is one
unfoldable pub element {ℓ} : {A : Type ℓ} → ℕ → List A → Option A
element i [] = none
element zero (x ∷ xs) = some x
element (suc i) (x ∷ xs) = element i xs

-- `^Core\s+(\d+)$` under `re.I`, of a stripped name; spaces, then a number to the end
module _ (u : Letters) where
  abbrev pub number_to_end : Text → Option ℕ
  number_to_end s = if non_empty s && all (is_digit u) s then some (leading_number u 0 s) else none

  unfoldable pub after_spaces : Text → Text
  after_spaces [] = []
  after_spaces (c ∷ s) = let rest = after_spaces s in if is_space c then rest else c ∷ s

  abbrev pub spaced_number : Text → Option ℕ
  spaced_number [] = none
  spaced_number (c ∷ s) = if is_space c then number_to_end (after_spaces s) else none

  abbrev pub core_number : Text → Option ℕ
  core_number name =
      if starts_with (codes "core") (map folded name) then spaced_number (without 4 name) else none

-- `^(Package id 0|Tctl|Tdie|CPU)$` under `re.I`
abbrev pub is_package : Text → Bool
is_package name =
    any (λ t. map folded name == t)
      (codes "package id 0" ∷ codes "tctl" ∷ codes "tdie" ∷ codes "cpu" ∷ [])

module _ {F : Type 0} (n : Numbers F) where
  abbrev pub nought : F
  nought = n.floats.of_int 0

  -- `max(a, b)` and `min(a, b)`
  abbrev pub max_of : F → F → F
  max_of a b = if n.floats.gt b a then b else a

  abbrev pub min_of : F → F → F
  min_of a b = if n.floats.lt b a then b else a

  abbrev pub sum_of : F → List F → F
  sum_of acc [] = acc
  sum_of acc (x ∷ xs) = sum_of (n.floats.plus acc x) xs

  -- `round(min(100.0, max(0.0, x)), 1)`
  abbrev pub clamped : F → F
  clamped x = n.floats.round (min_of (n.floats.of_int 100) (max_of nought x))

  unfoldable pub cpu_lines : List Text → List (Text × List F) → List (Text × List F)
  cpu_lines [] result = result
  cpu_lines (line ∷ lines) result = elim (words line) [
    | [] ↦ cpu_lines lines result
    | name ∷ values ↦ cpu_lines lines (
        if starts_with (codes "cpu") name
        then insert name (map (to_float n) values) result
        else result)
  ]

  abbrev pub difference : List F → List F → ℕ → Option F
  difference f1 f2 i = elim (element i f2) [
    | none ↦ none
    | some b ↦ elim (element i f1) [ none ↦ none | some a ↦ some (n.minus b a) ]
  ]

  abbrev pub total_of : List F → List F → F
  total_of f1 f2 = n.minus (sum_of nought f2) (sum_of nought f1)

  -- the idle time; `f2[3]` raises where it is missing
  abbrev pub idle_of : List F → List F → Option F
  idle_of f1 f2 = elim (difference f1 f2 3) [
    | none ↦ none
    | some idle ↦
        some (n.floats.plus idle (elim (difference f1 f2 4) [ none ↦ nought | some wait ↦ wait ]))
  ]

  unfoldable pub core_util : List F → List F → Option F
  core_util f1 f2 =
      if n.floats.le (total_of f1 f2) nought then some nought else elim (idle_of f1 f2) [
        | none ↦ none
        | some idle ↦ some (
            clamped (
              n.floats.times (n.minus (n.floats.of_int 1) (n.floats.over idle (total_of f1 f2)))
                (n.floats.of_int 100)))
      ]

  unfoldable pub cpu_iowait : List F → List F → F
  cpu_iowait f1 f2 =
      if n.floats.le (total_of f1 f2) nought then nought else elim (difference f1 f2 4) [
        | none ↦ nought
        | some wait ↦
            clamped (n.floats.times (n.floats.over wait (total_of f1 f2)) (n.floats.of_int 100))
      ]

  -- the frequencies, the last word of every line
  unfoldable pub freqs_of : List Text → List F
  freqs_of [] = []
  freqs_of (line ∷ lines) =
      let rest = freqs_of lines in
      elim (reverse (words line)) [
        | [] ↦ rest
        | w ∷ _ ↦ if n.floats.gt (to_float n w) nought then to_float n w ∷ rest else rest
      ]

  abbrev pub Temperatures : Type 0
  Temperatures = List (ℕ × F) × F

  unfoldable pub temp_line : Letters → Text → Temperatures → Temperatures
  temp_line u line (temps, highest) = elim (cut 61 line) [
    | none ↦ (temps, highest)
    | some p ↦
        let v = n.floats.over (to_float n p.1) (n.floats.of_int 1000) in
        if n.floats.le v nought || n.floats.gt v (n.floats.of_int 150)
        then (temps, highest)
        else elim (core_number u (strip p.0)) [
          | some i ↦ (insert i (n.floats.round v) temps, highest)
          | none ↦
              if is_package (strip p.0)
              then (temps, max_of highest (n.floats.round v))
              else (temps, highest)
        ]
  ]

  unfoldable pub temp_lines : Letters → List Text → Temperatures → Temperatures
  temp_lines u [] t = t
  temp_lines u (line ∷ lines) t = temp_lines u lines (temp_line u line t)

  abbrev pub util_of : List (Text × List F) → List (Text × List F) → Text → Option F
  util_of c1 c2 key = elim (lookup key c1) [
    | none ↦ some nought
    | some f1 ↦ elim (lookup key c2) [ none ↦ some nought | some f2 ↦ core_util f1 f2 ]
  ]

  abbrev pub freq_of : List F → ℕ → Whole
  freq_of freqs i = elim (element i freqs) [ none ↦ whole (pos 0) | some f ↦ n.nearest f ]

  abbrev pub temp_of : List (ℕ × F) → ℕ → F
  temp_of temps i = elim (lookup i temps) [ none ↦ nought | some t ↦ t ]

  -- the cores from `i` on, as many as the fuel
  unfoldable pub cores_from :
      List (Text × List F)
      → List (Text × List F)
      → List F
      → List (ℕ × F)
      → ℕ
      → ℕ
      → Option (List (Core F))
  cores_from c1 c2 freqs temps zero i = some []
  cores_from c1 c2 freqs temps (suc left) i = elim (util_of c1 c2 (codes "cpu" ++ decimal i)) [
    | none ↦ none
    | some util ↦ elim (freq_of freqs i) [
      | not_a_number ↦ none
      | too_large ↦ none
      | whole freq ↦ elim (cores_from c1 c2 freqs temps left (suc i)) [
        | none ↦ none
        | some rest ↦
            some (record { id = i; util = util; freq_mhz = freq; temp = temp_of temps i } ∷ rest)
      ]
    ]
  ]

  -- `range(count)`
  abbrev pub range_size : ℤ → ℕ
  range_size (pos m) = m
  range_size (negsuc m) = 0

  abbrev pub iowait_of : List (Text × List F) → List (Text × List F) → F
  iowait_of c1 c2 = elim (lookup (codes "cpu") c1) [
    | none ↦ nought
    | some f1 ↦ elim (lookup (codes "cpu") c2) [ none ↦ nought | some f2 ↦ cpu_iowait f1 f2 ]
  ]

  unfoldable pub parse_cpu : Letters → (s1 s2 freq_text temp_text : Text) → ℤ → Option (Cpu F)
  parse_cpu u s1 s2 freq_text temp_text count =
      let c1 = cpu_lines (splitlines s1) [] in
      let c2 = cpu_lines (splitlines s2) [] in
      let temps = temp_lines u (splitlines temp_text) ([], nought) in
      elim (util_of c1 c2 (codes "cpu")) [
        | none ↦ none
        | some overall ↦
            elim (cores_from c1 c2 (freqs_of (splitlines freq_text)) temps.0 (range_size count) 0) [
              | none ↦ none
              | some cores ↦ some (record {
                overall = overall;
                iowait = iowait_of c1 c2;
                cores = cores;
                package_temp = temps.1;
              })
            ]
      ]

  -- `parts[1].strip().split()[0] if parts[1].strip() else "0"`
  abbrev pub meminfo_value : Text → Text
  meminfo_value v = elim (words v) [ [] ↦ codes "0" | w ∷ _ ↦ w ]

  unfoldable pub meminfo_lines : List Text → List (Text × F) → List (Text × F)
  meminfo_lines [] info = info
  meminfo_lines (line ∷ lines) info = elim (cut 58 line) [
    | none ↦ meminfo_lines lines info
    | some p ↦ meminfo_lines lines (insert (strip p.0) (to_float n (meminfo_value p.1)) info)
  ]

  abbrev pub parse_meminfo : Text → List (Text × F)
  parse_meminfo text = meminfo_lines (splitlines text) []

  abbrev pub info_of : List (Text × F) → Text → F
  info_of info key = elim (lookup key info) [ none ↦ nought | some v ↦ v ]

  -- `MemAvailable`, or what old kernels let one work out
  unfoldable pub available_of : List (Text × F) → F
  available_of info = elim (lookup (codes "MemAvailable") info) [
    | some v ↦ v
    | none ↦
        n.floats.plus
          (n.floats.plus (info_of info (codes "MemFree")) (info_of info (codes "Buffers")))
          (max_of nought (
            n.minus
              (n.floats.plus (info_of info (codes "Cached")) (info_of info (codes "SReclaimable")))
              (info_of info (codes "Shmem"))))
  ]

  abbrev pub kb_in_mb : F → F
  kb_in_mb v = n.floats.over v (n.floats.of_int 1024)

  unfoldable pub memory : List (Text × F) → Memory F
  memory info =
      let total = info_of info (codes "MemTotal") in
      let available = available_of info in
      record {
        total_mb = kb_in_mb total;
        used_mb = kb_in_mb (max_of nought (n.minus total available));
        available_mb = kb_in_mb available;
        cached_mb = kb_in_mb (
            n.floats.plus
              (n.floats.plus (info_of info (codes "Buffers")) (info_of info (codes "Cached")))
              (info_of info (codes "SReclaimable")));
        swap_total_mb = kb_in_mb (info_of info (codes "SwapTotal"));
        swap_used_mb = kb_in_mb (
            max_of nought
              (n.minus (info_of info (codes "SwapTotal")) (info_of info (codes "SwapFree"))));
      }
