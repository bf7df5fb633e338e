-- ===== src/Health/Baseline.antt =====
-- The baseline of a server's GPUs in backend/app/health.py: `update_gpu_baseline`, and the detectors
-- `_detect_gpu_missing` and `_detect_gpu_ecc`. The rows of one server are a dictionary by UUID.
pub mod Missing
pub mod Errors
mod Tests
use lab_gpu_server_monitor.Prelude.{
  ℕ, ◌+◌, ◌-◌, Bool, true, false, not, ◌&&◌, ◌||◌, Option, none, some, List, [], ◌∷◌, ◌++◌,
  if◌then◌else◌, Text, codes, text_eq, nat_beq, ltb, ◌==◌, any, non_empty,
}
use lab_gpu_server_monitor.Prelude.Decimal.{decimal}
use lab_gpu_server_monitor.Prelude.Table.{lookup, insert}
use lab_gpu_server_monitor.Alerts.{Floats}
use lab_gpu_server_monitor.Alerts.Events.{Board, Notice}
use lab_gpu_server_monitor.Health.{Report, fire, recover_detector}
use lab_gpu_server_monitor.Health.Tree.{join_with}

-- an element of `gpus`, as these functions read it; a missing text is empty, a missing count 0
pub record Card : Type 0 where
  pub uuid : Text
  pub index : Option ℕ
  pub name : Text
  pub serial : Text
  pub pci_bus_id : Text
  pub ecc_supported : Bool
  pub ecc_volatile : ℕ
  pub ecc_total : ℕ

-- a row of `gpu_baseline`, under its UUID
pub record Baseline : Type 0 where
  pub name : Text
  pub serial : Text
  pub pci_bus_id : Text
  pub last_seen : ℕ
  pub missing_since : Option ℕ
  pub ecc_baseline : Option ℕ

abbrev pub Baselines : Type 0
Baselines = List (Text × Baseline)

abbrev pub text_or : Text → Text → Text
text_or t other = if non_empty t then t else other

-- a row that is new, and one that is there already
abbrev pub registered : ℕ → Card → Option Baseline → Baseline
registered now g none = record {
  name = g.name;
  serial = g.serial;
  pci_bus_id = g.pci_bus_id;
  last_seen = now;
  missing_since = none;
  ecc_baseline = none;
}
registered now g (some row) = record row {
  name = text_or g.name row.name;
  serial = text_or g.serial row.serial;
  pci_bus_id = text_or g.pci_bus_id row.pci_bus_id;
  last_seen = now;
  missing_since = none;
}

-- `update_gpu_baseline`
unfoldable pub update_gpu_baseline : ℕ → List Card → Baselines → Baselines
update_gpu_baseline now [] rows = rows
update_gpu_baseline now (g ∷ gs) rows =
    update_gpu_baseline now gs (
      if non_empty g.uuid then insert g.uuid (registered now g (lookup g.uuid rows)) rows else rows)

abbrev pub is_shown : Text → List Card → Bool
is_shown u gs = any (λ g. g.uuid == u) gs

abbrev pub index_text : Option ℕ → Text
index_text i = elim i [ none ↦ codes "None" | some n ↦ decimal n ]

-- `uuid or f"idx{index}"`
abbrev pub card_key : Card → Text
card_key g = text_or g.uuid (codes "idx" ++ index_text g.index)

abbrev pub new_errors : Card → Text → List Text
new_errors g grown =
    (if ltb 0 g.ecc_volatile
      then (codes "本次启动新增 " ++ (decimal g.ecc_volatile ++ codes " 条")) ∷ []
      else [])
    ++ (if non_empty grown then grown ∷ [] else [])

-- the row with its new baseline of errors, and what is said of their growth
abbrev pub count_errors : Card → Baseline → Baseline × Text
count_errors g b = elim b.ecc_baseline [
  | none ↦ (record b { ecc_baseline = some g.ecc_total }, [])
  | some old ↦
      if ltb old g.ecc_total
      then (
        record b { ecc_baseline = some g.ecc_total },
        codes "累计新增 " ++ (decimal (g.ecc_total - old) ++ codes " 条"),
      )
      else (b, [])
]

module _ {F : Type 0} (fl : Floats F) (now : ℕ) (delivers : Notice → Bool) (sid : ℕ)
    (server_name : Text) where
  abbrev pub missing_report : Text → Baseline → Report F
  missing_report u b = record {
    detector = codes "GPU_MISSING";
    sid = sid;
    server_name = server_name;
    key = u;
    text =
        codes "GPU "
        ++ (text_or b.name u ++ (codes " (" ++ (b.pci_bus_id ++ codes ") 从采集结果中消失——掉卡/被移除/驱动异常")));
    value = fl.of_int 0;
    threshold = fl.of_int 0;
  }

  -- a row, and the events, after the sample has been looked at
  abbrev pub judge_row : List Card → Text → Baseline → Board F → Baseline × Board F
  judge_row gs u b board =
      if is_shown u gs
      then (
        record b { missing_since = none; last_seen = now },
        recover_detector now (codes "GPU_MISSING") sid u board,
      )
      else elim b.missing_since [
        | none ↦
            (record b { missing_since = some now }, fire now delivers (missing_report u b) board)
        | some _ ↦ (b, board)
      ]

  -- `_detect_gpu_missing`
  unfoldable pub detect_gpu_missing : List Card → Baselines → Board F → Baselines × Board F
  detect_gpu_missing gs [] board = ([], board)
  detect_gpu_missing gs ((u, b) ∷ rows) board =
      let (b', board') = judge_row gs u b board in
      let (rows', board'') = detect_gpu_missing gs rows board' in ((u, b') ∷ rows', board'')

  abbrev pub ecc_report : Card → List Text → Report F
  ecc_report g problems = record {
    detector = codes "GPU_ECC_UNCORRECTED";
    sid = sid;
    server_name = server_name;
    key = card_key g;
    text =
        codes "GPU "
        ++ (index_text g.index
            ++ (codes " 不可纠正 ECC 错误（" ++ (join_with (codes "，") problems ++ codes "）——硬件故障风险")));
    value = fl.of_int g.ecc_volatile;
    threshold = fl.of_int 0;
  }

  abbrev pub report_errors : Card → List Text → Board F → Board F
  report_errors g problems board = elim problems [
    | [] ↦ recover_detector now (codes "GPU_ECC_UNCORRECTED") sid (card_key g) board
    | p ∷ ps ↦ fire now delivers (ecc_report g (p ∷ ps)) board
  ]

  -- one round of the loop over the GPUs
  unfoldable pub ecc_one : Card → Baselines × Board F → Baselines × Board F
  ecc_one g (rows, board) =
      if not g.ecc_supported
      then (rows, board)
      else elim (if non_empty g.uuid then lookup g.uuid rows else none) [
        | none ↦ (rows, report_errors g (new_errors g []) board)
        | some b ↦
            let (b', grown) = count_errors g b in
            (insert g.uuid b' rows, report_errors g (new_errors g grown) board)
      ]

  -- `_detect_gpu_ecc`
  unfoldable pub detect_gpu_ecc : List Card → Baselines × Board F → Baselines × Board F
  detect_gpu_ecc [] s = s
  detect_gpu_ecc (g ∷ gs) s = detect_gpu_ecc gs (ecc_one g s)
