-- ===== src/Health/Baseline/Tests.antt =====
-- The baseline of GPUs on concrete inputs, and the theorems at some of them.
use lab_gpu_server_monitor.Prelude.{
  ℕ, ◌≡◌, refl, true, none, some, [], ◌∷◌, codes, text_beq, starts_with, map, length, if◌then◌else◌,
}
use lab_gpu_server_monitor.Prelude.Decimal.{decimal}
use lab_gpu_server_monitor.Alerts.Events.{Board, amend}
use lab_gpu_server_monitor.Scheduler.Fixtures.{hundredths}
use lab_gpu_server_monitor.Health.{contains_text, fire, recover_detector}
use lab_gpu_server_monitor.Health.Tree.{join_with}
use lab_gpu_server_monitor.Health.Baseline.{
  Card, Baselines, update_gpu_baseline, is_shown, detect_gpu_missing, ecc_one, detect_gpu_ecc,
}
use lab_gpu_server_monitor.Health.Baseline.Missing.{
  missing_of, gone_since, detect_gpu_missing-update_gpu_baseline,
}
use lab_gpu_server_monitor.Health.Baseline.Errors.{errors_of, greatest, detect_gpu_ecc-errors_of}

program : Unit {0}
unfolding text_beq starts_with decimal contains_text fire recover_detector amend join_with
    update_gpu_baseline detect_gpu_missing ecc_one detect_gpu_ecc
program = tt

abbrev board : Board ℕ
board = record { events = []; next_id = 1; notices = []; audit_log = [] }

abbrev card_a : Card
card_a = record {
  uuid = codes "a";
  index = some 0;
  name = codes "A100";
  serial = [];
  pci_bus_id = codes "01";
  ecc_supported = true;
  ecc_volatile = 0;
  ecc_total = 4;
}

abbrev card_b : Card
card_b = record card_a { uuid = codes "b"; name = [] }

abbrev known : Baselines
known = update_gpu_baseline 5 (card_a ∷ card_b ∷ []) []

two_cards : length known ≡ 2
unfolding program
two_cards = refl

fell_off :
    map
      (λ e. e.message)
      (detect_gpu_missing hundredths 9
        (λ _. true)
        1
        (codes "n1")
        (card_a ∷ [])
        known
        board).1.events
    ≡ codes "[b] GPU b (01) 从采集结果中消失——掉卡/被移除/驱动异常" ∷ []
unfolding program
fell_off = refl

detect_gpu_missing-update_gpu_baseline_example :
    missing_of
      (codes "b")
      (detect_gpu_missing hundredths 9
        (λ _. true)
        1
        (codes "n1")
        (card_a ∷ [])
        (update_gpu_baseline 8 (card_a ∷ []) known)
        board).0
    ≡ (if is_shown (codes "b") (card_a ∷ [])
        then some none
        else gone_since 9 (missing_of (codes "b") known))
detect_gpu_missing-update_gpu_baseline_example =
    detect_gpu_missing-update_gpu_baseline hundredths 9 (λ _. true) 1 (codes "n1") 8 (card_a ∷ [])
      known board (codes "b") refl

abbrev counted : Baselines
counted = (detect_gpu_ecc hundredths 9 (λ _. true) 1 (codes "n1") (card_a ∷ []) (known, board)).0

errors_grow :
    map
      (λ e. e.message)
      (detect_gpu_ecc hundredths 9
        (λ _. true)
        1
        (codes "n1")
        (record card_a { ecc_total = 7 } ∷ [])
        (counted, board)).1.events
    ≡ codes "[a] GPU 0 不可纠正 ECC 错误（累计新增 3 条）——硬件故障风险" ∷ []
unfolding program
errors_grow = refl

detect_gpu_ecc-errors_of_example :
    errors_of
      (codes "a")
      (detect_gpu_ecc hundredths 9
        (λ _. true)
        1
        (codes "n1")
        (record card_a { ecc_total = 7 } ∷ [])
        (counted, board)).0
    ≡ greatest (codes "a") (record card_a { ecc_total = 7 } ∷ []) (errors_of (codes "a") counted)
detect_gpu_ecc-errors_of_example =
    detect_gpu_ecc-errors_of hundredths 9 (λ _. true) 1 (codes "n1")
      (record card_a { ecc_total = 7 } ∷ []) counted board (codes "a") refl
