-- ===== src/Collector/Fast/Kept.antt =====
-- What `collect` of backend/app/ssh_collector.py returns: its code, and what its metrics tell of, whole
-- or not.
use lab_gpu_server_monitor.Prelude.{
  ◌≤◌, ◌≡◌, Bool, true, some, [], Text, codes, text_eq, ◌==◌, ◌||◌, ◌⊎◌, All, length,
}
use lab_gpu_server_monitor.Collector.Processes.{IsAnonymous}
use lab_gpu_server_monitor.Collector.Gpus.Merge.Anonymous.{AreAnonymous}
use lab_gpu_server_monitor.Collector.Fast.{Tools, PollMetrics, Assign, blank}
use lab_gpu_server_monitor.Collector.Fast.Poll.{MetricResult}

abbrev pub is_ok : Text → Bool
is_ok code = code == codes "OK"

module _ {F : Type 0} (t : Tools F) where
  -- metrics that tell of no user and of no argument
  abbrev pub IsPrivate : PollMetrics F → Type 0
  IsPrivate m =
      (m.users ≡ [])
      × (length m.processes ≤ 500)
      × All IsAnonymous m.processes
      × AreAnonymous m.gpus

  abbrev Keeps : Assign t → Type 0
  Keeps step = (m m' : PollMetrics F) → IsPrivate m → step m ≡ some m' → IsPrivate m'

  -- whether a code says that there was an output
  abbrev pub is_output : Text → Bool
  is_output code = is_ok code || code == codes "COLLECT_FAILED"

  -- a result that is successful exactly with the code `OK`, whose metrics are private, and are the
  -- defaults where there was no output
  abbrev pub IsSound : MetricResult F → Type 0
  IsSound r =
      (r.ok ≡ is_ok r.error_code)
      × IsPrivate r.metrics
      × ((is_output r.error_code ≡ true) ⊎ (r.metrics ≡ blank t))
