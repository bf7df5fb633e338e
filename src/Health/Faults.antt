-- ===== src/Health/Faults.antt =====
-- The detectors of backend/app/health.py that read the newest samples: connections, throttled GPUs,
-- kernel events and services; Faults/Devices has those of NVMe devices and arrays.
pub mod Connection
pub mod Devices
use lab_gpu_server_monitor.Prelude.{
  ℕ, zero, suc, ◌+◌, ◌-◌, ◌/◌, ◌%◌, Bool, true, false, not, ◌&&◌, ◌||◌, Option, none, some, List,
  [], ◌∷◌, ◌++◌, if◌then◌else◌, Text, codes, text_eq, nat_beq, ltb, leb, ◌==◌, any, keep, map, take,
  length, non_empty,
}
use lab_gpu_server_monitor.Prelude.Decimal.{decimal}
use lab_gpu_server_monitor.Scheduler.KernelLog.{KernelEventRow}
use lab_gpu_server_monitor.Alerts.{Floats}
use lab_gpu_server_monitor.Alerts.Events.{
  AlertEvent, Board, Notice, is_none, is_open, amend, closed,
}
use lab_gpu_server_monitor.Health.{Report, fire, recover_detector, open_event, contains_text}
use lab_gpu_server_monitor.Health.Tree.{join_with}
use lab_gpu_server_monitor.Health.Baseline.{index_text, text_or}

-- the newest sample, as these detectors read it
pub record LatestSample (F : Type 0) : Type 0 where
  pub hostname : Text
  pub is_error : Bool
  pub error_code : Text
  pub error : Text
  pub cards : List (Text × (Option ℕ × (List Text × Option F)))

abbrev pub thermal_reasons : List Text → List Text
thermal_reasons reasons =
    keep (λ r. contains_text (codes "THERMAL") r || r == codes "HW_SLOWDOWN") reasons

module _ {F : Type 0} where
  -- the events that a success closes
  abbrev pub is_ssh_fault : ℕ → AlertEvent F → Bool
  is_ssh_fault sid e =
      is_none e.rule_id && (e.metric == codes "SSH_FAULT" && (nat_beq e.server_id sid && is_open e))

  abbrev pub close_faults : ℕ → ℕ → List (AlertEvent F) → List (AlertEvent F)
  close_faults now sid events = map (λ e. if is_ssh_fault sid e then closed now e else e) events

module _ {F : Type 0} (fl : Floats F) (now : ℕ) (delivers : Notice → Bool) (sid : ℕ)
    (server_name : Text) where
  abbrev pub no_value : F
  no_value = fl.of_int 0

  abbrev pub report : Text → Text → Text → Report F
  report detector key text = record {
    detector = detector;
    sid = sid;
    server_name = server_name;
    key = key;
    text = text;
    value = no_value;
    threshold = no_value;
  }

  -- `_detect_ssh_fault`, with whether the sample before the newest one is an error
  unfoldable pub detect_ssh_fault : LatestSample F → Bool → Board F → Board F
  detect_ssh_fault m before b =
      if m.is_error
      then (if before
          then fire now delivers
              (report (codes "SSH_FAULT") (codes "SSH")
                (m.error_code ++ (codes ": " ++ take 120 m.error)))
              b
          else b)
      else record b { events = close_faults now sid b.events }

  abbrev pub throttle_report : LatestSample F → Text → Option ℕ → List Text → Option F → Report F
  throttle_report m uuid index thermal temperature = record {
    detector = codes "GPU_THERMAL_THROTTLE";
    sid = sid;
    server_name = text_or m.hostname server_name;
    key = uuid;
    text =
        codes "GPU "
        ++ (index_text index
            ++ (codes " 热降频中（"
                ++ (join_with (codes ",") thermal
                    ++ (codes "，"
                        ++ (elim temperature [ none ↦ codes "None" | some t ↦ fl.show t ]
                            ++ codes "°C）")))));
    value = elim temperature [ none ↦ no_value | some t ↦ t ];
    threshold = no_value;
  }

  unfoldable pub throttle_cards :
      LatestSample F → List (Text × (Option ℕ × (List Text × Option F))) → Board F → Board F
  throttle_cards m [] b = b
  throttle_cards m ((uuid, (index, (reasons, temperature))) ∷ cards) b =
      throttle_cards m cards (elim (thermal_reasons reasons) [
        | [] ↦ recover_detector now (codes "GPU_THERMAL_THROTTLE") sid uuid b
        | r ∷ rs ↦ fire now delivers (throttle_report m uuid index (r ∷ rs) temperature) b
      ])

  abbrev pub detect_gpu_throttle : LatestSample F → Board F → Board F
  detect_gpu_throttle m b = throttle_cards m m.cards b

  abbrev pub xid_report : KernelEventRow → Report F
  xid_report row = record {
    detector = codes "GPU_XID";
    sid = sid;
    server_name = server_name;
    key = take 16 row.dedup_hash;
    text =
        codes "GPU "
        ++ (text_or row.event.gpu_uuid (codes "?")
            ++ (codes " Xid "
                ++ (decimal row.event.xid ++ (codes ": " ++ take 120 row.event.message))));
    value = fl.of_int row.event.xid;
    threshold = no_value;
  }

  abbrev pub judge_event : KernelEventRow → Board F → Board F
  judge_event row b =
      if row.event.event_type == codes "GPU_XID"
      then fire now delivers (xid_report row) b
      else if any (λ t. row.event.event_type == t)
          (codes "OOM_KILL" ∷ codes "MCE_HARDWARE_ERROR" ∷ codes "PCIE_AER" ∷ [])
      then fire now delivers
          (report row.event.event_type (take 16 row.dedup_hash) (take 160 row.event.message)) b
      else b

  -- `_detect_kernel_events`: the server's rows since a time
  unfoldable pub detect_kernel_events : ℕ → List KernelEventRow → Board F → Board F
  detect_kernel_events since [] b = b
  detect_kernel_events since (row ∷ rows) b =
      detect_kernel_events since rows
        (if nat_beq row.server_id sid && leb since row.collected_at then judge_event row b else b)

  abbrev pub failed_text : List Text → Text
  failed_text units =
      decimal (length units) ++ (codes " 个 systemd 单元失败: " ++ join_with (codes ", ") (take 5 units))

  -- `_detect_services`, with the failed units of the newest slow sample
  unfoldable pub detect_services : Option (List Text) → Board F → Board F
  detect_services none b = b
  detect_services (some []) b = recover_detector now (codes "SERVICE_FAILED") sid [] b
  detect_services (some (u ∷ units)) b = elim (open_event (codes "SERVICE_FAILED") sid [] b) [
    | none ↦ fire now delivers (report (codes "SERVICE_FAILED") [] (failed_text (u ∷ units))) b
    | some ev ↦ record b {
      events = amend ev.id (λ e. record e { message = failed_text (u ∷ units) }) b.events;
    }
  ]
