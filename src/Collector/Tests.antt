-- ===== src/Collector/Tests.antt =====
-- Runs of the collectors of backend/app/ssh_collector.py and backend/app/collectors_extra.py, with
-- numbers in hundredths.
use lab_gpu_server_monitor.Prelude.{
  ℕ, ◌+◌, ◌-◌, ◌*◌, ◌/◌, ◌≤◌, ◌≡◌, refl, true, false, ◌&&◌, ◌||◌, nat_beq, Option, none, some, List,
  [], ◌∷◌, ◌++◌, map, if◌then◌else◌, Text, codes, text_eq, text_beq, leb, lstrip, strip, split_on,
  starts_with, any, keep, length, ◌==◌, arith,
}
use lab_gpu_server_monitor.Prelude.Int.{ℤ, pos}
use lab_gpu_server_monitor.Scheduler.Fixtures.{hundredths}
use lab_gpu_server_monitor.Scheduler.KernelLog.{KernelEvent}
use lab_gpu_server_monitor.Ssh.Faults.{occurs_in}
use lab_gpu_server_monitor.Collector.{
  lines_from, splitlines, words, words_max, first_word, after_word, rstrip, join_lines,
}
use lab_gpu_server_monitor.Collector.Sections.{
  Sections, bare_name, tail_name, section_name, read_line, read_lines, joined, split_sections,
}
use lab_gpu_server_monitor.Collector.Sections.RoundTrip.{printed, layout, split_sections-printed}
use lab_gpu_server_monitor.Collector.Processes.{
  Numbers, whole, Process, until, basename, executable_name, checked_process, read_process, ps_loop,
  parse_ps,
}
use lab_gpu_server_monitor.Collector.Gpus.{
  GpuRow, throttle_reasons, update_last, whole_all, gpu_lines, parse_gpus,
}
use lab_gpu_server_monitor.Collector.Gpus.Merge.{
  put_health, health_lines, put_clocks, clock_lines, name_lines, ps_index, put_process, app_lines,
  merge_gpu_apps, read_gpus,
}
use lab_gpu_server_monitor.Collector.Gpus.Merge.Anonymous.{AreAnonymous, read_gpus-AreAnonymous}
use lab_gpu_server_monitor.Collector.KernelLog.{
  Letters, somewhere, begins, kernel_patterns, leading_number, xid_of, gpu_uuid_of, first_pattern,
  line_events, first_index, keep_only, collapse, names_victim, is_oom, parse_kernel_log,
}
use lab_gpu_server_monitor.Ssh.{returns}
use lab_gpu_server_monitor.Ssh.HostKeys.{
  Disk, sweep, ensure_hostkey_storage_locked, under_lock, hostkey_path, tofu_pattern,
  verify_recorded_key, publish, first_use, record_key, missing_host_key,
}
use lab_gpu_server_monitor.Ssh.Connect.{
  new_client, with_legacy, credential, ask_policy, greet, open_client, connect_host,
}
use lab_gpu_server_monitor.Ssh.Fixtures.{under, toy, sound, shows}
use lab_gpu_server_monitor.Prelude.Decimal.{digits, decimal}
use lab_gpu_server_monitor.Collector.{cut}
use lab_gpu_server_monitor.Collector.Disks.{
  text_ltb, put_sorted, sort_by, df_loop, parse_df, dfi_loop, parse_dfi,
}
use lab_gpu_server_monitor.Collector.Host.{
  element, after_spaces, cpu_lines, core_util, cpu_iowait, freqs_of, temp_line, temp_lines,
  cores_from, parse_cpu, meminfo_lines, available_of, memory,
}
use lab_gpu_server_monitor.Collector.Traffic.{
  diskstats_lines, disk_rates_of, disk_rates, netdev_lines, netlink_lines, net_rates_of,
  number_after, sockstat_lines,
}
use lab_gpu_server_monitor.Collector.Fast.{Tools, run_steps, parse_sections}
use lab_gpu_server_monitor.Collector.Fast.Poll.{
  Target, MetricResult, judge_output, run_target, connect_target, collect,
}
use lab_gpu_server_monitor.Collector.KernelLog.Collapse.{
  is_other, parse_kernel_log-one_oom, parse_kernel_log-collapse,
}

abbrev digits_to : ℕ → Text → Option ℕ
digits_to acc [] = some acc
digits_to acc (c ∷ s) = if leb 48 c && leb c 57 then digits_to (acc * 10 + (c - 48)) s else none

abbrev natural : Text → Option ℕ
natural [] = none
natural (c ∷ s) = digits_to 0 (c ∷ s)

abbrev read_pos : Text → Option ℤ
read_pos s = elim (natural s) [ none ↦ none | some n ↦ some (pos n) ]

abbrev numbers : Numbers ℕ
numbers = record {
  floats = hundredths;
  minus = λ a b. a - b;
  read = λ s. elim (natural s) [ none ↦ none | some n ↦ some (n * 100) ];
  truncate = λ x. whole (pos (x / 100));
  read_int = read_pos;
  round3 = λ x. x;
  nearest = λ x. whole (pos ((x + 50) / 100));
}

abbrev letters : Letters
letters = record {
  digit = λ c. if leb 48 c && leb c 57 then some (c - 48) else none;
  is_word = λ c. leb 48 c && leb c 57 || leb 97 c && leb c 122 || nat_beq c 95;
}

program : Unit {0}
unfolding lines_from words words_max first_word after_word rstrip join_lines bare_name tail_name
    section_name read_line read_lines split_sections until basename executable_name checked_process
    read_process ps_loop parse_ps throttle_reasons update_last whole_all gpu_lines parse_gpus
    put_health health_lines put_clocks clock_lines name_lines ps_index put_process app_lines
    merge_gpu_apps read_gpus somewhere begins kernel_patterns leading_number xid_of gpu_uuid_of
    first_pattern line_events first_index keep_only collapse parse_kernel_log occurs_in text_beq
    lstrip strip split_on starts_with sweep ensure_hostkey_storage_locked under_lock hostkey_path
    tofu_pattern verify_recorded_key publish first_use record_key missing_host_key new_client
    with_legacy credential ask_policy greet open_client connect_host under digits decimal cut
    text_ltb put_sorted sort_by df_loop parse_df dfi_loop parse_dfi element after_spaces cpu_lines
    core_util cpu_iowait freqs_of temp_line temp_lines cores_from parse_cpu meminfo_lines
    available_of memory diskstats_lines disk_rates_of disk_rates netdev_lines netlink_lines
    net_rates_of number_after sockstat_lines run_steps parse_sections judge_output run_target
    connect_target collect
program = tt

abbrev sections : Sections
sections =
    (codes "OS", codes "Debian 12" ∷ [])
    ∷ (codes "EMPTY", [])
    ∷ (codes "DF", codes "== not a name ==" ∷ codes "" ∷ codes " /dev/sda1  / " ∷ [])
    ∷ []

split_sections-printed_example : split_sections (printed (layout sections)) ≡ joined sections
unfolding program
split_sections-printed_example =
    split_sections-printed sections
      (((refl, refl), ((refl, refl), ((refl, refl), tt))), (refl, (refl, (refl, tt))))

abbrev ps_text : Text
ps_text =
    codes "PID PPID USER\n7 1 alice 12 3 2048 4096 R 60 /usr/bin/python train.py --token s3cret\n"

abbrev processes : List (Process ℕ)
processes =
    record {
      pid = pos 7;
      ppid = pos 1;
      cpu = 1200;
      mem = 300;
      rss_mb = 200;
      vsz_mb = 400;
      stat = codes "R";
      etimes = pos 60;
      command = codes "python";
      user = [];
    }
    ∷ []

ps_read : parse_ps numbers 500 false ps_text ≡ some processes
unfolding program
ps_read = refl

-- the kernel's own form of an Xid, which names the bus first
xid_on_bus : parse_kernel_log letters (codes "NVRM: Xid (PCI:0000:01:00): 79, pid=1\n") ≡ []
unfolding program
xid_on_bus = refl

xid_alone : map (λ e. e.xid) (parse_kernel_log letters (codes "NVRM: Xid 79, pid=1\n")) ≡ 79 ∷ []
unfolding program
xid_alone = refl

-- the drivers of current cards
driver_reset :
    parse_kernel_log letters (codes "mlx5_core 0000:01:00.0: link down\nbnxt_en eth0: reset\n") ≡ []
unfolding program
driver_reset = refl

abbrev oom_log : Text
oom_log =
    codes
      "python invoked oom-killer: gfp_mask\nOut of memory: see below\nnfs: server stale\nKilled process 77 (python)\n"

abbrev oom_events : List KernelEvent
oom_events = line_events letters (splitlines oom_log)

oom_victim :
    map (λ e. e.message) (parse_kernel_log letters oom_log)
    ≡ codes "nfs: server stale" ∷ codes "Killed process 77 (python)" ∷ []
unfolding program
oom_victim = refl

parse_kernel_log-one_oom_example :
    (length (parse_kernel_log letters oom_log) ≤ 100)
    × (length (keep is_oom (parse_kernel_log letters oom_log)) ≤ 1)
parse_kernel_log-one_oom_example = parse_kernel_log-one_oom letters oom_log

short_log : length (collapse oom_events) ≤ 100
unfolding program
short_log = omega arith

parse_kernel_log-collapse_example :
    (length (keep is_oom (parse_kernel_log letters oom_log)) ≤ 1)
    × (keep is_other (parse_kernel_log letters oom_log) ≡ keep is_other oom_events)
    × (any names_victim (parse_kernel_log letters oom_log) ≡ true)
unfolding program
parse_kernel_log-collapse_example =
    parse_kernel_log-collapse letters oom_log oom_events refl short_log refl

abbrev gpu_text : Text
gpu_text = codes "0, GPU-a, H100, 50, 10, 100, 200, 40, 300, 700, [N/A], 550.1\n"

abbrev health_text : Text
health_text = codes "0, S1, 0000:01, 50, 0x8, Enabled, 0, 1, 0, 2, 0, 0, 0, P0, 4, 5, 16, 16\n"

abbrev read_mask : Text → Option ℤ
read_mask s = if s == codes "0x8" then some (pos 8) else none

abbrev cards : Option (List (GpuRow ℕ) × Text)
cards =
    read_gpus numbers read_mask gpu_text health_text [] (codes "GPU-a, 7, 1024\n")
      (codes "7, /usr/bin/python\n") processes

abbrev found : List (GpuRow ℕ)
found = elim cards [ none ↦ [] | some c ↦ c.0 ]

reasons : map (λ g. g.health.throttle_reasons) found ≡ (codes "HW_SLOWDOWN" ∷ []) ∷ []
unfolding program
reasons = refl

users : map (λ g. map (λ p. p.command) g.processes) found ≡ (codes "python" ∷ []) ∷ []
unfolding program
users = refl

read_gpus-AreAnonymous_example :
    AreAnonymous found
    × ((bare : List (GpuRow ℕ)) × ((parse_gpus numbers gpu_text ≡ some (bare, codes "550.1"))
          × (map (λ g. g.reading) found ≡ map (λ g. g.reading) bare)))
unfolding program
read_gpus-AreAnonymous_example =
    read_gpus-AreAnonymous numbers read_mask 500 ps_text gpu_text health_text []
      (codes "GPU-a, 7, 1024\n") (codes "7, /usr/bin/python\n") (codes "550.1") processes found refl
      refl

-- a process without a name
nameless : read_gpus numbers read_mask gpu_text [] [] [] (codes "7, \n") processes ≡ none
unfolding program
nameless = refl

abbrev tools : Tools ℕ
tools = record {
  numbers = numbers;
  letters = letters;
  read_based = read_mask;
  isdigit = λ s. elim (natural s) [ none ↦ false | some _ ↦ true ];
}

abbrev fast_output : Text
fast_output =
    codes
      "==HOSTNAME==\ngpu1\n==CPUCOUNT==\n1\n==CPUSTAT1==\ncpu 0 0 0 0 0\n==CPUSTAT2==\ncpu 5 0 0 5 0\n"
    ++ codes "==DF==\nhead\n/dev/b 1048576 524288 0 50% /b\n/dev/a 1048576 0 0 0% /a\n"
    ++ codes "==PS==\n"
    ++ ps_text
    ++ codes "==GPU==\n"
    ++ gpu_text

abbrev target : Target
target = record {
  host = codes "gpu";
  port = 22;
  username = codes "mon";
  password_enc = codes "pw";
  private_key_enc = [];
  passphrase_enc = [];
  server_key = codes "server_1";
}

abbrev poll : MetricResult ℕ × Disk
poll =
    collect tools toy (λ v. returns v) true sound (shows (codes "K1")) 8
      (λ client. returns (codes "0", fast_output)) target []

poll_ok : poll.0.ok ≡ true
unfolding program
poll_ok = refl

abbrev poll_mounts : List Text
poll_mounts = map (λ d. d.mount) poll.0.metrics.disks

mounts_in_order : poll_mounts ≡ codes "/a" ∷ codes "/b" ∷ []
unfolding program
mounts_in_order = refl
