-- ===== src/Health/Tests.antt =====
-- The detectors' events and the risk score on concrete inputs, with the natural numbers for
-- Python's; and the theorems at inputs that meet their hypotheses.
use lab_gpu_server_monitor.Prelude.{
  List, ℕ, ◌+◌, ◌*◌, ◌/◌, ◌≡◌, refl, true, false, not, none, some, [], ◌∷◌, codes, text_beq,
  starts_with, nat_beq, ltb, leb, keep,
}
use lab_gpu_server_monitor.Alerts.{Floats}
use lab_gpu_server_monitor.Alerts.Events.{Board, alert, recovery, is_open, amend}
use lab_gpu_server_monitor.Health.{
  Report, contains_text, fire, recover_detector, ttl_recover_point_events, point_event_ttl,
}
use lab_gpu_server_monitor.Health.Faults.{LatestSample, detect_ssh_fault}
use lab_gpu_server_monitor.Health.Faults.Connection.{is_down, watch-is_down}
use lab_gpu_server_monitor.Health.Faults.Devices.{
  NvmeSmart, RaidArray, hex, hex_digits, nvme_problems, detect_nvme, detect_raid,
}
use lab_gpu_server_monitor.Health.Risk.{
  GpuSample, Tally, new_tally, observe, observe_all, score, risk,
}

program : Unit {0}
unfolding contains_text fire recover_detector ttl_recover_point_events amend observe observe_all
    score text_beq starts_with detect_ssh_fault hex_digits nvme_problems detect_nvme detect_raid
program = tt

abbrev numbers : Floats ℕ
numbers = record {
  gt = λ a b. ltb b a;
  ge = λ a b. leb b a;
  lt = ltb;
  le = leb;
  plus = λ a b. a + b;
  times = λ a b. a * b;
  over = λ a b. a / b;
  of_int = λ n. n;
  truthy = λ n. not (nat_beq n 0);
  round = λ n. n;
  floor = λ n. n;
  show = λ n. b'#' ∷ [];
}

abbrev empty_board : Board ℕ
empty_board = record { events = []; next_id = 1; notices = []; audit_log = [] }

abbrev xid : Report ℕ
xid = record {
  detector = codes "GPU_XID";
  sid = 1;
  server_name = codes "n1";
  key = codes "ab12";
  text = codes "Xid 79";
  value = 79;
  threshold = 0;
}

abbrev raised_once : Board ℕ
raised_once = fire 5 (λ _. true) xid empty_board

one_notice : raised_once.notices ≡ alert (codes "n1") (codes "GPU_XID") (codes "GPU_XID") ∷ []
unfolding program
one_notice = refl

its_recovery :
    (recover_detector 9 (codes "GPU_XID") 1 (codes "ab12") raised_once).notices
    ≡ alert (codes "n1") (codes "GPU_XID") (codes "GPU_XID")
      ∷ recovery (codes "n1") (codes "GPU_XID") (codes "GPU_XID")
      ∷ []
unfolding program
its_recovery = refl

expired : keep is_open (ttl_recover_point_events (point_event_ttl + 5) raised_once).events ≡ []
unfolding program
expired = refl

abbrev warm : GpuSample ℕ
warm = record {
  temperature = some 88;
  throttle_reasons = codes "HW_THERMAL_SLOWDOWN" ∷ [];
  ecc_uncorrected_volatile = 1;
  ecc_corrected_volatile = 120;
  pcie_width_current = 16;
  pcie_width_max = 16;
}

abbrev day : Tally ℕ
day = observe_all numbers (warm ∷ warm ∷ []) (new_tally numbers)

-- five for the error, ten for the corrected ones, seven for throttling, five for the heat
day-risk : risk numbers day ≡ 27
unfolding program
day-risk = refl

abbrev with_xid : Tally ℕ
with_xid = record day { xid_events = 2 }

abbrev unreachable : LatestSample ℕ
unreachable = record {
  hostname = codes "n1";
  is_error = true;
  error_code = codes "SSH_TIMEOUT";
  error = codes "timed out";
  cards = [];
}

abbrev two_errors : List (ℕ × LatestSample ℕ)
two_errors = (100, unreachable) ∷ (700, unreachable) ∷ []

watch-is_down_example : is_down false false two_errors ≡ true
unfolding program
watch-is_down_example =
    watch-is_down numbers (λ _. true) 1 (codes "n1") two_errors empty_board refl refl

hex-255 : hex 255 ≡ codes "ff"
unfolding program
hex-255 = refl

abbrev half_mirror : RaidArray
half_mirror = record {
  name = codes "md0";
  level = codes "raid1";
  state = codes "[U_]";
  active_disks = some 1;
  total_disks = some 2;
}

-- a degraded array is told of once, and its recovery when it is whole again
its_array :
    let whole = record half_mirror { state = codes "[UU]"; active_disks = some 2 } in
    (detect_raid numbers 9
      (λ _. true)
      1
      (codes "n1")
      (half_mirror ∷ whole ∷ [])
      empty_board).notices
    ≡ alert (codes "n1") (codes "RAID_DEGRADED") (codes "RAID_DEGRADED")
      ∷ recovery (codes "n1") (codes "RAID_DEGRADED") (codes "RAID_DEGRADED")
      ∷ []
unfolding program
its_array = refl

abbrev worn : NvmeSmart
worn = record {
  device = none;
  critical_warning = 0;
  available_spare = some 10;
  available_spare_threshold = some 10;
  media_errors = 0;
  percentage_used = some 89;
}

its_device :
    (detect_nvme numbers 9 (λ _. true) 1 (codes "n1") (worn ∷ []) empty_board).notices
    ≡ alert (codes "n1") (codes "NVME_HEALTH") (codes "NVME_HEALTH") ∷ []
unfolding program
its_device = refl
