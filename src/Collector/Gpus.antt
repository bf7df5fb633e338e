-- ===== src/Collector/Gpus.antt =====
-- The GPUs of a poll, in backend/app/ssh_collector.py: `_parse_gpus`, and what the merges of the
-- health, the clocks and the processes add. A call that raises returns `none`.
pub mod Merge
use lab_gpu_server_monitor.Prelude.{
  ℕ, zero, suc, ◌+◌, ◌-◌, ◌*◌, ◌/◌, ◌%◌, ◌≤◌, ◌≡◌, refl, Bool, true, false, not, ◌&&◌, ◌||◌, Option,
  none, some, List, [], ◌∷◌, ◌++◌, map, if◌then◌else◌, Text, codes, text_eq, nat_beq, ltb, leb,
  ◌==◌, all, any, find, keep, take, length, starts_with, strip, non_empty, split_on,
}
use mathlib.Core.List.{reverse}
use lab_gpu_server_monitor.Prelude.Int.{ℤ, pos, negsuc, int_eq}
use lab_gpu_server_monitor.Prelude.Table.{lookup, insert}
use lab_gpu_server_monitor.Alerts.{Floats}
use lab_gpu_server_monitor.Ssh.Faults.{occurs_in}
use lab_gpu_server_monitor.Ssh.Connect.{lower_char}
use lab_gpu_server_monitor.Collector.{splitlines, part}
use lab_gpu_server_monitor.Collector.Processes.{
  Numbers, Whole, whole, not_a_number, too_large, Process, to_float, executable_name,
}

pub record GpuProcess (F : Type 0) : Type 0 where
  pub pid : ℤ
  pub mem_mb : F
  pub user : Text
  pub command : Text

-- what `_parse_gpus` reads of a card
pub record CardReading (F : Type 0) : Type 0 where
  pub index : ℤ
  pub uuid : Text
  pub name : Text
  pub utilization : F
  pub util_memory : F
  pub mem_used_mb : F
  pub mem_total_mb : F
  pub temperature : F
  pub power_draw : F
  pub power_limit : F
  pub fan_speed : F

-- what `_merge_gpu_health` adds
pub record GpuHealth (F : Type 0) : Type 0 where
  pub serial : Text
  pub pci_bus_id : Text
  pub mem_temperature : F
  pub throttle_mask : Text
  pub throttle_reasons : List Text
  pub ecc_mode : Text
  pub ecc_supported : Bool
  pub ecc_corrected_volatile : ℤ
  pub ecc_uncorrected_volatile : ℤ
  pub ecc_corrected_total : ℤ
  pub ecc_uncorrected_total : ℤ
  pub remapped_pending : ℤ
  pub remapped_failure : ℤ
  pub retired_pending : ℤ
  pub pstate : Text
  pub pcie_gen_current : ℤ
  pub pcie_gen_max : ℤ
  pub pcie_width_current : ℤ
  pub pcie_width_max : ℤ

-- what `_merge_gpu_clocks` adds
pub record GpuClocks (F : Type 0) : Type 0 where
  pub clock_graphics : F
  pub clock_memory : F
  pub clock_graphics_max : F
  pub clock_memory_max : F
  pub encoder_sessions : ℤ
  pub compute_mode : Text

pub record GpuRow (F : Type 0) : Type 0 where
  pub reading : CardReading F
  pub health : GpuHealth F
  pub clocks : GpuClocks F
  pub processes : List (GpuProcess F)

abbrev pub na_texts : List Text
na_texts =
    codes "[n/a]"
    ∷ codes "n/a"
    ∷ codes "not supported"
    ∷ codes "[not supported]"
    ∷ codes "na"
    ∷ codes "[n/a] "
    ∷ []

abbrev pub is_na : Text → Bool
is_na v = any (λ t. map lower_char (strip v) == t) na_texts

abbrev pub throttle_bits : List (ℕ × Text)
throttle_bits =
    (1, codes "GPU_IDLE")
    ∷ (2, codes "APPLICATIONS_CLOCKS")
    ∷ (4, codes "SW_POWER_CAP")
    ∷ (8, codes "HW_SLOWDOWN")
    ∷ (16, codes "SYNC_BOOST")
    ∷ (32, codes "SW_THERMAL_SLOWDOWN")
    ∷ (64, codes "HW_THERMAL_SLOWDOWN")
    ∷ (128, codes "HW_POWER_BRAKE_SLOWDOWN")
    ∷ []

-- `mask & bit`, of a power of two, in two's complement
abbrev pub has_bit : ℤ → ℕ → Bool
has_bit (pos m) bit = nat_beq ((m / bit) % 2) 1
has_bit (negsuc m) bit = nat_beq ((m / bit) % 2) 0

-- `int(bitmask_str, 0)` is an argument
unfoldable pub throttle_reasons : (Text → Option ℤ) → Text → List Text
throttle_reasons read_based text = elim (read_based text) [
  | none ↦ []
  | some mask ↦ map (λ b. b.1) (keep (λ b. has_bit mask b.0) throttle_bits)
]

-- `[p.strip() for p in line.split(",")]` of a stripped line
abbrev pub columns : Text → List Text
columns line = map strip (split_on 44 (strip line))

-- the card that a dictionary by a key holds: the last one that has it
unfoldable pub update_last {ℓ} : {A : Type ℓ} → (A → Bool) → (A → A) → List A → List A
update_last p f [] = []
update_last p f (x ∷ xs) =
    let rest = update_last p f xs in if any p xs then x ∷ rest else if p x then f x ∷ xs else x ∷ xs

-- the values that a list of calls returns, if none raises
unfoldable pub whole_all : List Whole → Option (List ℤ)
whole_all [] = some []
whole_all (w ∷ ws) = elim w [
  | whole z ↦ elim (whole_all ws) [ none ↦ none | some zs ↦ some (z ∷ zs) ]
  | not_a_number ↦ none
  | too_large ↦ none
]

abbrev pub at : ℕ → List ℤ → ℤ
at n [] = pos 0
at zero (z ∷ zs) = z
at (suc n) (z ∷ zs) = at n zs

module _ {F : Type 0} (n : Numbers F) where
  abbrev pub gval : Text → F
  gval v = if is_na v then n.floats.of_int 0 else to_float n v

  abbrev pub whole_of : Text → Whole
  whole_of v = n.truncate (gval v)

  abbrev pub no_health : GpuHealth F
  no_health = record {
    serial = [];
    pci_bus_id = [];
    mem_temperature = n.floats.of_int 0;
    throttle_mask = [];
    throttle_reasons = [];
    ecc_mode = [];
    ecc_supported = false;
    ecc_corrected_volatile = pos 0;
    ecc_uncorrected_volatile = pos 0;
    ecc_corrected_total = pos 0;
    ecc_uncorrected_total = pos 0;
    remapped_pending = pos 0;
    remapped_failure = pos 0;
    retired_pending = pos 0;
    pstate = [];
    pcie_gen_current = pos 0;
    pcie_gen_max = pos 0;
    pcie_width_current = pos 0;
    pcie_width_max = pos 0;
  }

  abbrev pub no_clocks : GpuClocks F
  no_clocks = record {
    clock_graphics = n.floats.of_int 0;
    clock_memory = n.floats.of_int 0;
    clock_graphics_max = n.floats.of_int 0;
    clock_memory_max = n.floats.of_int 0;
    encoder_sessions = pos 0;
    compute_mode = [];
  }

  abbrev pub reading_of : List Text → ℤ → CardReading F
  reading_of parts index = record {
    index = index;
    uuid = part 1 parts;
    name = part 2 parts;
    utilization = gval (part 3 parts);
    util_memory = gval (part 4 parts);
    mem_used_mb = gval (part 5 parts);
    mem_total_mb = gval (part 6 parts);
    temperature = gval (part 7 parts);
    power_draw = gval (part 8 parts);
    power_limit = gval (part 9 parts);
    fan_speed = gval (part 10 parts);
  }

  -- the loop over the lines, with the cards and the driver so far
  unfoldable pub gpu_lines : List Text → List (GpuRow F) → Text → Option (List (GpuRow F) × Text)
  gpu_lines [] gpus driver = some (gpus, driver)
  gpu_lines (line ∷ lines) gpus driver =
      let parts = columns line in
      elim (ltb (length parts) 12) [
        | true ↦ gpu_lines lines gpus driver
        | false ↦ elim (whole_of (part 0 parts)) [
          | whole index ↦
              gpu_lines lines
                (gpus
                  ++ (record {
                    reading = reading_of parts index;
                    health = no_health;
                    clocks = no_clocks;
                    processes = [];
                  }
                      ∷ []))
                (part 11 parts)
          | not_a_number ↦ none
          | too_large ↦ none
        ]
      ]

  unfoldable pub parse_gpus : Text → Option (List (GpuRow F) × Text)
  parse_gpus text =
      if not (non_empty (strip text)) || occurs_in (codes "__NO_NVIDIA__") text
      then some ([], [])
      else gpu_lines (splitlines text) [] []
