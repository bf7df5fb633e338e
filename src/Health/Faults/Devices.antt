-- ===== src/Health/Faults/Devices.antt =====
-- `_detect_nvme` and `_detect_raid` of backend/app/health.py.
use lab_gpu_server_monitor.Prelude.{
  ℕ, zero, suc, ◌+◌, ◌/◌, ◌%◌, Bool, false, not, ◌||◌, Option, none, some, List, [], ◌∷◌, ◌++◌,
  if◌then◌else◌, Text, codes, text_eq, nat_beq, ltb, leb,
}
use lab_gpu_server_monitor.Prelude.Decimal.{decimal}
use lab_gpu_server_monitor.Alerts.{Floats}
use lab_gpu_server_monitor.Alerts.Events.{Board, Notice}
use lab_gpu_server_monitor.Health.Faults.{report}
use lab_gpu_server_monitor.Health.{fire, recover_detector, contains_text}
use lab_gpu_server_monitor.Health.Tree.{join_with}
use lab_gpu_server_monitor.Health.Baseline.{index_text}

pub record NvmeSmart : Type 0 where
  pub device : Option Text
  pub critical_warning : ℕ
  pub available_spare : Option ℕ
  pub available_spare_threshold : Option ℕ
  pub media_errors : ℕ
  pub percentage_used : Option ℕ

pub record RaidArray : Type 0 where
  pub name : Text
  pub level : Text
  pub state : Text
  pub active_disks : Option ℕ
  pub total_disks : Option ℕ

-- `f"{n:x}"`
unfoldable pub hex_digits : ℕ → ℕ → Text
hex_digits zero n = []
hex_digits (suc fuel) n =
    let rest = hex_digits fuel (n / 16) in
    let last = if ltb (n % 16) 10 then 48 + n % 16 else 87 + n % 16 in
    if ltb n 16 then last ∷ [] else rest ++ last ∷ []

abbrev pub hex : ℕ → Text
hex n = hex_digits (suc n) n

abbrev pub filed : Bool → Text → List Text → List Text
filed problem text others = if problem then text ∷ others else others

abbrev pub at_most : Option ℕ → Option ℕ → Bool
at_most (some a) (some b) = leb a b
at_most (some a) none = false
at_most none b = false

abbrev pub fewer : Option ℕ → Option ℕ → Bool
fewer (some a) (some b) = ltb a b
fewer (some a) none = false
fewer none b = false

abbrev pub number_or_zero : Option ℕ → ℕ
number_or_zero none = 0
number_or_zero (some n) = n

-- `problems`, in order
unfoldable pub nvme_problems : NvmeSmart → List Text
nvme_problems d =
    let spare = number_or_zero d.available_spare in
    let bound = number_or_zero d.available_spare_threshold in
    let used = number_or_zero d.percentage_used in
    filed (not (nat_beq d.critical_warning 0))
      (codes "critical_warning=0x" ++ hex d.critical_warning)
      (filed (at_most d.available_spare d.available_spare_threshold)
        (codes "可用备用空间 " ++ (decimal spare ++ (codes "% ≤ 阈值 " ++ (decimal bound ++ codes "%"))))
        (filed (not (nat_beq d.media_errors 0))
          (codes "介质错误 " ++ (decimal d.media_errors ++ codes " 次"))
          (filed (at_most (some 90) d.percentage_used)
            (codes "寿命已用 " ++ (decimal used ++ codes "%")) [])))

abbrev pub is_array_degraded : RaidArray → Bool
is_array_degraded a = contains_text (codes "_") a.state || fewer a.active_disks a.total_disks

abbrev pub raid_text : RaidArray → Text
raid_text a =
    a.name
    ++ (codes " "
        ++ (a.level
            ++ (codes " 状态降级（"
                ++ (index_text a.active_disks
                    ++ (codes "/"
                        ++ (index_text a.total_disks
                            ++ (codes " 在线, " ++ (a.state ++ codes "）"))))))))

abbrev pub device_of : NvmeSmart → Text
device_of d = elim d.device [ none ↦ codes "?" | some name ↦ name ]

module _ {F : Type 0} (fl : Floats F) (now : ℕ) (delivers : Notice → Bool) (sid : ℕ)
    (server_name : Text) where
  unfoldable pub detect_nvme : List NvmeSmart → Board F → Board F
  detect_nvme [] b = b
  detect_nvme (d ∷ devices) b = detect_nvme devices (elim (nvme_problems d) [
    | [] ↦ recover_detector now (codes "NVME_HEALTH") sid (device_of d) b
    | p ∷ ps ↦
        fire now delivers
          (report fl now delivers sid server_name (codes "NVME_HEALTH") (device_of d)
            (device_of d ++ (codes ": " ++ join_with (codes "; ") (p ∷ ps))))
          b
  ])

  unfoldable pub detect_raid : List RaidArray → Board F → Board F
  detect_raid [] b = b
  detect_raid (a ∷ arrays) b = detect_raid arrays (
      if is_array_degraded a
      then fire now delivers
          (report fl now delivers sid server_name (codes "RAID_DEGRADED") a.name (raid_text a)) b
      else recover_detector now (codes "RAID_DEGRADED") sid a.name b)
