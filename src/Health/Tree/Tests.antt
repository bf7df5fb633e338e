-- ===== src/Health/Tree/Tests.antt =====
-- The tree of a host's health on concrete inputs, and the theorem at one of them.
use lab_gpu_server_monitor.Prelude.{
  ℕ, ◌≡◌, refl, not, ◌&&◌, ◌||◌, none, some, [], ◌∷◌, codes, text_beq, text_eq, nat_beq, leb, any,
  map, ◌==◌,
}
use lab_gpu_server_monitor.Prelude.Decimal.{decimal}
use lab_gpu_server_monitor.Alerts.{largest, maximum}
use lab_gpu_server_monitor.Scheduler.Fixtures.{hundredths}
use lab_gpu_server_monitor.Health.Tree.{
  ok, warning, critical, Newest, GpuRisk, Findings, cat, worst, join_with, gpu_category, measured,
  health_tree, gpu_leaf,
}
use lab_gpu_server_monitor.Health.Tree.Overall.{IsWorst, is_critical, health_tree-overall}

program : Unit {0}
unfolding text_beq decimal largest maximum cat worst join_with gpu_category measured health_tree
program = tt

abbrev newest : Newest ℕ
newest = record {
  status = codes "ok";
  error_code = [];
  error = [];
  ssh_latency = 100;
  duration = 500;
  cpu_percent = 1200;
  cpu_iowait = none;
  mem_used_mb = 9500;
  mem_total_mb = 10000;
  disk_percents = 5000 ∷ [];
  inode_percents = 10000 ∷ [];
  net_ifaces = [];
}

abbrev worn_card : GpuRisk ℕ
worn_card = record {
  index = some 3;
  name = codes "A100";
  risk = 65;
  xid_events = 2;
  ecc_uncorrected_max = 5;
  thermal_throttle_samples = 0;
  max_temp = 8000;
}

abbrev findings : Findings ℕ
findings = record {
  cpu_threshold = 9000;
  mem_threshold = 9200;
  disk_threshold = 9000;
  risks = worn_card ∷ [];
  kernel_events = 0;
  critical_events = 0;
}

worn_detail : (gpu_leaf hundredths worn_card).detail ≡ codes "A100 · 最高 #°C · Xid×2/ECC-Unc 5"
unfolding program
worn_detail = refl

-- connectivity, CPU, memory, file systems, network, GPUs and kernel events: full inodes pass
statuses :
    map (λ c. c.entry.status) (health_tree hundredths findings newest).categories
    ≡ ok ∷ ok ∷ warning ∷ ok ∷ ok ∷ critical ∷ ok ∷ []
unfolding program
statuses = refl

health_tree-overall_example :
    IsWorst (health_tree hundredths findings newest)
    × (is_critical (health_tree hundredths findings newest).overall ≡ (
        (newest.status == codes "error")
        || any (λ r. leb 60 r.risk) findings.risks
        || not (nat_beq findings.kernel_events 0) && not (nat_beq findings.critical_events 0)))
health_tree-overall_example = health_tree-overall hundredths findings newest
