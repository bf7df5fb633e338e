-- ===== src/Privacy/Tests.antt =====
-- Runs of backend/app/privacy.py.
use lab_gpu_server_monitor.Prelude.{
  ◌≡◌, refl, true, Option, none, some, Text, codes, text_eq, text_beq,
}
use lab_gpu_server_monitor.Privacy.{
  Json, Fields, text, scalar, array, object, no_items, item, no_fields, field, get_field, set_field,
  only_fields, minimize_items, minimize_processes, minimize_cards, minimize_gpus, minimize_metric,
  is_process_list, is_card_list, minimize_metric_private,
}

program : Unit {0}
unfolding text_beq get_field set_field only_fields minimize_items minimize_processes minimize_cards
    minimize_gpus minimize_metric
program = tt

abbrev process : Json
process = object (
    field (codes "command") (text (codes "python train.py")) (
      field (codes "pid") (scalar true (codes "7"))
        (field (codes "user") (text (codes "alice")) no_fields)))

abbrev metric : Fields
metric = field (codes "processes") (array (item process no_items)) (
    field (codes "cpu_percent") (scalar true (codes "12.5")) (
      field (codes "gpus")
        (array (
          item (object (field (codes "processes") (array (item process no_items)) no_fields))
            no_items))
        no_fields))

-- a field of what is left, or nothing where the filter raises
abbrev left : Text → Option Fields → Option Json
left key none = none
left key (some d) = get_field key d

told :
    left (codes "processes") (minimize_metric metric)
    ≡ some
        (array (item (object (field (codes "pid") (scalar true (codes "7")) no_fields)) no_items))
unfolding program
told = refl

raised : minimize_gpus (some (scalar true (codes "7"))) ≡ none
unfolding program
raised = refl

as_it_is : minimize_gpus (some (text (codes "none"))) ≡ some (text (codes "none"))
unfolding program
as_it_is = refl

minimize_metric_private_example :
    (out : Fields) × (minimize_metric metric ≡ some out)
    × (get_field (codes "users") out ≡ some (array no_items))
    × (is_process_list (get_field (codes "processes") out) ≡ true)
    × (is_card_list (get_field (codes "gpus") out) ≡ true)
    × (get_field (codes "cpu_percent") out ≡ get_field (codes "cpu_percent") metric)
unfolding program
minimize_metric_private_example =
    minimize_metric_private metric (codes "cpu_percent") refl refl refl
