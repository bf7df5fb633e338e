-- ===== src/Alerts/Tests.antt =====
-- The evaluation of alert rules and the actions on events, on one server with a hot GPU, with the
-- natural numbers for Python's; and the theorems at inputs that meet their hypotheses.
use lab_gpu_server_monitor.Prelude.{
  ℕ, ◌+◌, ◌*◌, ◌/◌, ◌≡◌, refl, true, not, none, some, [], ◌∷◌, if◌then◌else◌, Text, codes, text_beq,
  nat_beq, ltb, leb, arith, ◌&&◌, ◌||◌, strip, lstrip,
}
use lab_gpu_server_monitor.Alerts.{
  Floats, Sample, AlertRule, largest, maximum, total, average, gpu_mem_percents, extract_metric,
  compare_value, values, sustained, latest_from, breaches,
}
use lab_gpu_server_monitor.Alerts.Events.{
  Board, alert, recovery, Pass, amend, judge, eval_one, eval_rule, eval_alerts,
}
use lab_gpu_server_monitor.Alerts.Events.Open.{OneOpen}
use lab_gpu_server_monitor.Alerts.Events.Outcome.{is_acked, has_open, eval_one-open}
use lab_gpu_server_monitor.Alerts.Events.Routes.{
  ack_event, resolve_event, assign_event, evaluated, acknowledged, resolved, act, act_all,
  act_all-OneOpen,
}

program : Unit {0}
unfolding largest maximum total average gpu_mem_percents extract_metric compare_value values
    sustained latest_from amend judge eval_one eval_rule eval_alerts ack_event resolve_event
    assign_event act act_all strip lstrip text_beq
program = tt

abbrev numbers : Floats ℕ
numbers = record {
  gt = λ a b. ltb b a;
  ge = λ a b. leb b a;
  lt = ltb;
  le = leb;
  plus = λ a b. a + b;
  times = λ a b. a * b;
  over = λ a b. a / b;
  of_int = λ n. n;
  truthy = λ n. not (nat_beq n 0);
  round = λ n. n;
  floor = λ n. n;
  show = λ n. b'#' ∷ [];
}

abbrev label : Text → Text
label t = t

-- a sample of server 1 with one GPU
abbrev sample : ℕ → ℕ → Sample ℕ
sample at temperature = record {
  server_id = 1;
  collected_at = at;
  hostname = codes "n1";
  status = codes "ok";
  cpu_percent = 10;
  mem_total_mb = 100;
  mem_used_mb = 50;
  swap_total_mb = 0;
  swap_used_mb = 0;
  disks = [];
  load1 = 1;
  cpu_count = 4;
  gpus =
      record {
        utilization = some 50;
        temperature = some temperature;
        power_draw = none;
        gpu_total_mb = some 10;
        gpu_used_mb = some 5;
      }
      ∷ [];
}

abbrev hot : AlertRule ℕ
hot = record {
  id = 7;
  name = codes "hot";
  metric = codes "gpu_temp";
  op = codes ">";
  threshold = 80;
  duration_minutes = 0;
  target = none;
  enabled = true;
}

-- a pass that finds the GPU at a temperature
abbrev pass : ℕ → ℕ → Pass ℕ
pass at temperature = record {
  now = at;
  interval = 60;
  delivers = λ _. true;
  servers = (1, codes "active") ∷ [];
  samples = sample at temperature ∷ [];
}

abbrev empty_board : Board ℕ
empty_board = record { events = []; next_id = 1; notices = []; audit_log = [] }

empty_board-OneOpen : OneOpen empty_board
empty_board-OneOpen r s = omega arith

abbrev fired : Board ℕ
fired = eval_alerts numbers label (pass 1 90) (hot ∷ []) empty_board

one_alert : fired.notices ≡ alert (codes "n1") (codes "gpu_temp") (codes "hot") ∷ []
unfolding program
one_alert = refl

-- It is not raised twice, and recovers when the GPU has cooled down.
cooled :
    (eval_alerts numbers label
      (pass 3 60)
      (hot ∷ [])
      (eval_alerts numbers label (pass 2 91) (hot ∷ []) fired)).notices
    ≡ alert (codes "n1") (codes "gpu_temp") (codes "hot")
      ∷ recovery (codes "n1") (codes "gpu_temp") (codes "hot")
      ∷ []
unfolding program
cooled = refl

-- Once acknowledged it stays open, though the GPU has cooled down and heats up again.
acknowledged_stays :
    has_open 7 1 (
      act_all numbers label
        (acknowledged 2 1 (codes "ann")
          ∷ evaluated (pass 3 60) (hot ∷ [])
          ∷ evaluated (pass 4 95) (hot ∷ [])
          ∷ [])
        fired)
    ≡ true
unfolding program
acknowledged_stays = refl

act_all-OneOpen_example : OneOpen (
    act_all numbers label
      (evaluated (pass 1 90) (hot ∷ [])
        ∷ evaluated (pass 2 91) (hot ∷ [])
        ∷ resolved 3 1 (codes "ann")
        ∷ [])
      empty_board)
act_all-OneOpen_example =
    act_all-OneOpen numbers label
      (evaluated (pass 1 90) (hot ∷ [])
        ∷ evaluated (pass 2 91) (hot ∷ [])
        ∷ resolved 3 1 (codes "ann")
        ∷ [])
      empty_board empty_board-OneOpen

eval_one-open_example : has_open 7 1 (eval_one numbers label (pass 1 90) hot 1 empty_board) ≡ (
    if has_open 7 1 empty_board
    then is_acked 7 1 empty_board || breaches numbers hot 90
    else breaches numbers hot 90 && sustained numbers hot 60 (sample 1 90 ∷ []) (sample 1 90))
unfolding program
eval_one-open_example =
    eval_one-open numbers label (pass 1 90) hot 1 (sample 1 90) 90 empty_board empty_board-OneOpen
      refl refl refl
