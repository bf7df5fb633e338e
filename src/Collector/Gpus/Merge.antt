-- ===== src/Collector/Gpus/Merge.antt =====
-- What `_merge_gpu_health`, `_merge_gpu_clocks` and `_merge_gpu_apps` of
-- backend/app/ssh_collector.py write into the cards of a poll. A call that raises returns `none`.
pub mod Kept
pub mod Anonymous
use lab_gpu_server_monitor.Prelude.{
  ℕ, suc, ◌+◌, ◌≡◌, refl, Bool, true, false, not, ◌&&◌, ◌||◌, Option, none, some, List, [], ◌∷◌,
  ◌++◌, map, if◌then◌else◌, Text, codes, text_eq, ltb, ◌==◌, any, keep, take, length, strip,
  non_empty,
}
use mathlib.Core.List.{reverse}
use lab_gpu_server_monitor.Prelude.Int.{ℤ, int_eq}
use lab_gpu_server_monitor.Prelude.Table.{lookup, insert}
use lab_gpu_server_monitor.Ssh.Faults.{occurs_in}
use lab_gpu_server_monitor.Collector.{splitlines, part}
use lab_gpu_server_monitor.Collector.Processes.{
  Numbers, Whole, whole, not_a_number, too_large, Process, to_float, executable_name,
}
use lab_gpu_server_monitor.Collector.Gpus.{
  GpuRow, GpuProcess, GpuHealth, GpuClocks, is_na, throttle_reasons, columns, update_last,
  whole_all, at, gval, whole_of, parse_gpus,
}

-- the last of some texts
abbrev pub last_part : List Text → Text
last_part parts = elim (reverse parts) [ [] ↦ [] | p ∷ _ ↦ p ]

module _ {F : Type 0} where
  abbrev pub has_index : ℤ → GpuRow F → Bool
  has_index index g = g.reading.index == index

  abbrev pub has_uuid : Text → GpuRow F → Bool
  has_uuid uuid g = g.reading.uuid == uuid

  -- `{p["pid"]: p for p in processes}`
  unfoldable pub ps_index : List (Process F) → List (ℤ × Process F) → List (ℤ × Process F)
  ps_index [] index = index
  ps_index (p ∷ procs) index = ps_index procs (insert p.pid p index)

  -- `names.get(pid) or (ps_proc["command"] if ps_proc else "")`
  abbrev pub command_of : Option Text → Option (Process F) → Text
  command_of (some (c ∷ name)) proc = c ∷ name
  command_of _ (some proc) = proc.command
  command_of _ none = []

  abbrev pub with_process : GpuProcess F → GpuRow F → GpuRow F
  with_process entry g = record g { processes = g.processes ++ entry ∷ [] }

  -- the card with the UUID, or the first one
  unfoldable pub put_process : Text → GpuProcess F → List (GpuRow F) → List (GpuRow F)
  put_process uuid entry [] = []
  put_process uuid entry (g ∷ gpus) =
      if any (has_uuid uuid) (g ∷ gpus)
      then update_last (has_uuid uuid) (with_process entry) (g ∷ gpus)
      else with_process entry g ∷ gpus

module _ {F : Type 0} (n : Numbers F) where
  -- the columns of whole numbers, in order
  abbrev pub counts_of : List Text → Option (List ℤ)
  counts_of parts =
      whole_all (
        map (λ k. whole_of n (part k parts))
          (6 ∷ 7 ∷ 8 ∷ 9 ∷ 10 ∷ 11 ∷ 12 ∷ 14 ∷ 15 ∷ 16 ∷ 17 ∷ []))

module _ {F : Type 0} (n : Numbers F) (read_based : Text → Option ℤ) where
  abbrev pub health_of : List Text → List ℤ → GpuHealth F
  health_of parts counts = record {
    serial = part 1 parts;
    pci_bus_id = part 2 parts;
    mem_temperature = gval n (part 3 parts);
    throttle_mask = part 4 parts;
    throttle_reasons = throttle_reasons read_based (part 4 parts);
    ecc_mode = if is_na (part 5 parts) then [] else part 5 parts;
    ecc_supported = not (is_na (part 5 parts));
    ecc_corrected_volatile = at 0 counts;
    ecc_uncorrected_volatile = at 1 counts;
    ecc_corrected_total = at 2 counts;
    ecc_uncorrected_total = at 3 counts;
    remapped_pending = at 4 counts;
    remapped_failure = at 5 counts;
    retired_pending = at 6 counts;
    pstate = part 13 parts;
    pcie_gen_current = at 7 counts;
    pcie_gen_max = at 8 counts;
    pcie_width_current = at 9 counts;
    pcie_width_max = at 10 counts;
  }

  -- the card with the index, if there is one
  unfoldable pub put_health : List Text → ℤ → List (GpuRow F) → Option (List (GpuRow F))
  put_health parts index gpus = elim (any (has_index index) gpus) [
    | false ↦ some gpus
    | true ↦ elim (counts_of n parts) [
      | none ↦ none
      | some counts ↦
          some
            (update_last (has_index index) (λ g. record g { health = health_of parts counts }) gpus)
    ]
  ]

  unfoldable pub health_lines : List Text → List (GpuRow F) → Option (List (GpuRow F))
  health_lines [] gpus = some gpus
  health_lines (line ∷ lines) gpus =
      let parts = columns line in
      elim (ltb (length parts) 18) [
        | true ↦ health_lines lines gpus
        | false ↦ elim (whole_of n (part 0 parts)) [
          | not_a_number ↦ health_lines lines gpus
          | too_large ↦ none
          | whole index ↦ elim (put_health parts index gpus) [
            | none ↦ none
            | some put ↦ health_lines lines put
          ]
        ]
      ]

  abbrev pub merge_gpu_health : Text → List (GpuRow F) → Option (List (GpuRow F))
  merge_gpu_health text gpus = health_lines (splitlines text) gpus

module _ {F : Type 0} (n : Numbers F) where
  abbrev pub clocks_of : List Text → GpuClocks F → ℤ → GpuClocks F
  clocks_of parts old sessions = record {
    clock_graphics = gval n (part 1 parts);
    clock_memory = gval n (part 2 parts);
    clock_graphics_max = gval n (part 3 parts);
    clock_memory_max = gval n (part 4 parts);
    encoder_sessions = sessions;
    compute_mode = if ltb 6 (length parts) then part 6 parts else old.compute_mode;
  }

  unfoldable pub put_clocks : List Text → ℤ → List (GpuRow F) → Option (List (GpuRow F))
  put_clocks parts index gpus = elim (any (has_index index) gpus) [
    | false ↦ some gpus
    | true ↦ elim (ltb 5 (length parts)) [
      | false ↦ some (
          update_last (has_index index)
            (λ g. record g { clocks = clocks_of parts g.clocks g.clocks.encoder_sessions }) gpus)
      | true ↦ elim (whole_of n (part 5 parts)) [
        | whole sessions ↦ some (
            update_last (has_index index)
              (λ g. record g { clocks = clocks_of parts g.clocks sessions }) gpus)
        | not_a_number ↦ none
        | too_large ↦ none
      ]
    ]
  ]

  unfoldable pub clock_lines : List Text → List (GpuRow F) → Option (List (GpuRow F))
  clock_lines [] gpus = some gpus
  clock_lines (line ∷ lines) gpus =
      let parts = columns line in
      elim (ltb (length parts) 5 || occurs_in (codes "Field ") (strip line)) [
        | true ↦ clock_lines lines gpus
        | false ↦ elim (whole_of n (part 0 parts)) [
          | not_a_number ↦ clock_lines lines gpus
          | too_large ↦ none
          | whole index ↦ elim (put_clocks parts index gpus) [
            | none ↦ none
            | some put ↦ clock_lines lines put
          ]
        ]
      ]

  abbrev pub merge_gpu_clocks : Text → List (GpuRow F) → Option (List (GpuRow F))
  merge_gpu_clocks text gpus = clock_lines (splitlines text) gpus

  -- `names`: the executables by their process; a blank name raises an `IndexError`, which nothing
  -- catches
  unfoldable pub name_lines : List Text → List (ℤ × Text) → Option (List (ℤ × Text))
  name_lines [] names = some names
  name_lines (line ∷ lines) names =
      let parts = columns line in
      elim (ltb (length parts) 2) [
        | true ↦ name_lines lines names
        | false ↦ elim (n.truncate (to_float n (part 0 parts))) [
          | not_a_number ↦ name_lines lines names
          | too_large ↦ none
          | whole pid ↦ elim (executable_name (part 1 parts)) [
            | none ↦ none
            | some name ↦ name_lines lines (insert pid name names)
          ]
        ]
      ]

  abbrev pub entry_of : List (ℤ × Text) → List (ℤ × Process F) → ℤ → Text → GpuProcess F
  entry_of names index pid mem = record {
    pid = pid;
    mem_mb = gval n mem;
    user = elim (lookup pid index) [ none ↦ [] | some proc ↦ proc.user ];
    command = take 80 (command_of (lookup pid names) (lookup pid index));
  }

  unfoldable pub app_lines :
      List (ℤ × Text)
      → List (ℤ × Process F)
      → List Text
      → List (GpuRow F)
      → Option (List (GpuRow F))
  app_lines names index [] gpus = some gpus
  app_lines names index (line ∷ lines) gpus =
      let parts = columns line in
      elim (ltb (length parts) 3) [
        | true ↦ app_lines names index lines gpus
        | false ↦ elim (n.truncate (to_float n (part 1 parts))) [
          | not_a_number ↦ app_lines names index lines gpus
          | too_large ↦ none
          | whole pid ↦
              app_lines names index lines
                (put_process (part 0 parts) (entry_of names index pid (last_part parts)) gpus)
        ]
      ]

  unfoldable pub merge_gpu_apps :
      Text → Text → List (GpuRow F) → List (ℤ × Process F) → Option (List (GpuRow F))
  merge_gpu_apps apps_text names_text gpus index = elim (name_lines (splitlines names_text) []) [
    | none ↦ none
    | some names ↦ app_lines names index (splitlines apps_text) gpus
  ]

  -- the end of `_parse_fast_output`: the cards of the sections `GPU`, `GPUHEALTH`, `GPUCLOCK`,
  -- `GPUAPPS` and `GPUAPPNAME`
  unfoldable pub read_gpus :
      (Text → Option ℤ)
      → (gpu health clock apps names : Text) → List (Process F)
      → Option (List (GpuRow F) × Text)
  read_gpus read_based gpu health clock apps names processes = elim (parse_gpus n gpu) [
    | none ↦ none
    | some found ↦ elim (merge_gpu_health n read_based health found.0) [
      | none ↦ none
      | some healthy ↦ elim (merge_gpu_clocks clock healthy) [
        | none ↦ none
        | some clocked ↦ elim (merge_gpu_apps apps names clocked (ps_index processes [])) [
          | none ↦ none
          | some gpus ↦ some (gpus, found.1)
        ]
      ]
    ]
  ]
