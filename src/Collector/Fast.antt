-- ===== src/Collector/Fast.antt =====
-- A poll, in backend/app/ssh_collector.py: `_parse_fast_output` and `collect`, over the SSH transport.
pub mod Kept
pub mod Poll
use lab_gpu_server_monitor.Prelude.{
  ℕ, zero, suc, ◌+◌, ◌-◌, ◌^◌, ◌≡◌, Bool, true, false, not, ◌&&◌, ◌||◌, Option, none, some, List,
  [], ◌∷◌, ◌++◌, map, if◌then◌else◌, Text, codes, text_eq, nat_beq, ltb, leb, ◌==◌, any, keep, take,
  length, strip, non_empty,
}
use lab_gpu_server_monitor.Prelude.Int.{ℤ, pos, negsuc, ltb_ℤ}
use lab_gpu_server_monitor.Prelude.Table.{lookup}
use lab_gpu_server_monitor.Prelude.Decimal.{decimal}
use lab_gpu_server_monitor.Ssh.{Exception, Outcome, returns, raises, Paramiko, Dial}
use lab_gpu_server_monitor.Ssh.HostKeys.{Disk, Storage, Run}
use lab_gpu_server_monitor.Ssh.Connect.{SshRequest, Client, connect_host}
use lab_gpu_server_monitor.Ssh.Faults.{classify_ssh_error}
use lab_gpu_server_monitor.Collector.{splitlines, words, part}
use lab_gpu_server_monitor.Collector.Sections.{split_sections, first_line}
use lab_gpu_server_monitor.Collector.Processes.{
  Numbers, Whole, whole, not_a_number, too_large, Process, to_float, parse_ps,
}
use lab_gpu_server_monitor.Collector.Gpus.{GpuRow}
use lab_gpu_server_monitor.Collector.Gpus.Merge.{read_gpus}
use lab_gpu_server_monitor.Collector.KernelLog.{Letters}
use lab_gpu_server_monitor.Collector.Disks.{DiskUse, InodeUse, parse_df, parse_dfi}
use lab_gpu_server_monitor.Collector.Host.{
  Core, Cpu, Memory, nought, parse_cpu, parse_meminfo, memory, info_of,
}
use lab_gpu_server_monitor.Collector.Traffic.{
  DiskRate, NetRate, Link, Sockets, disk_rates, parse_diskstats, net_rates, parse_netdev,
  netlink_lines, parse_sockstat,
}

-- what the parser takes from Python's library: `int(s, 0)` and `str.isdigit`
pub record Tools (F : Type 0) : Type 0 where
  pub numbers : Numbers F
  pub letters : Letters
  pub read_based : Text → Option ℤ
  pub isdigit : Text → Bool

-- what a poll measures
pub record PollMetrics (F : Type 0) : Type 0 where
  pub hostname : Text
  pub os : Text
  pub kernel : Text
  pub boot_id : Text
  pub host_ts : ℤ
  pub uptime_seconds : ℤ
  pub loads : F × (F × F)
  pub cpu_model : Text
  pub cpu_count : ℤ
  pub cpu : Cpu F
  pub cpu_freq_avg : ℤ
  pub memory_use : Memory F
  pub hugepages_total : ℤ
  pub hugepages_free : ℤ
  pub disk_io : List (DiskRate F)
  pub net_ifaces : List (NetRate F)
  pub disks : List (DiskUse F)
  pub inodes : List (InodeUse F)
  pub sockets : Sockets
  pub fd_allocated : ℤ
  pub fd_max : ℤ
  pub pid_max : ℤ
  pub processes : List (Process F)
  pub users : List Text
  pub kernel_log : Text
  pub gpu_driver : Text
  pub gpus : List (GpuRow F)

abbrev pub of_whole : Whole → Option ℤ
of_whole (whole z) = some z
of_whole not_a_number = none
of_whole too_large = none

-- `min(z, 2**63 - 1)`
abbrev pub capped : ℤ → ℤ
capped z = if ltb_ℤ (pos (2 ^ 63 - 1)) z then pos (2 ^ 63 - 1) else z

module _ {F : Type 0} (t : Tools F) where
  abbrev pub float : Text → F
  float v = to_float t.numbers v

  -- `int(_to_float(v))`
  abbrev pub whole_number : Text → Option ℤ
  whole_number v = of_whole (t.numbers.truncate (float v))

  -- `sec.get(name, "")`
  abbrev pub section : List (Text × Text) → Text → Text
  section sec name = elim (lookup name sec) [ none ↦ [] | some text ↦ text ]

  -- `int(_to_float(_first_line(sec.get(name, "0"))))`
  abbrev pub first_number : List (Text × Text) → Text → Option ℤ
  first_number sec name =
      whole_number (first_line (elim (lookup name sec) [ none ↦ codes "0" | some text ↦ text ]))

  abbrev pub mb : F → F
  mb v = t.numbers.floats.round v

  abbrev pub rounded : Memory F → Memory F
  rounded m = record {
    total_mb = mb m.total_mb;
    used_mb = mb m.used_mb;
    available_mb = mb m.available_mb;
    cached_mb = mb m.cached_mb;
    swap_total_mb = mb m.swap_total_mb;
    swap_used_mb = mb m.swap_used_mb;
  }

  -- `round(sum(freqs) / len(freqs)) if freqs else 0.0`, of whole numbers: the sum and the mean are
  -- of floats
  abbrev pub positive_freqs : List (Core F) → List ℕ
  positive_freqs [] = []
  positive_freqs (c ∷ cores) = elim c.freq_mhz [
    | pos m ↦ if ltb 0 m then m ∷ positive_freqs cores else positive_freqs cores
    | negsuc m ↦ positive_freqs cores
  ]

  abbrev pub total : List ℕ → ℕ
  total [] = 0
  total (m ∷ ms) = m + total ms

  abbrev pub mean_freq : List ℕ → Option ℤ
  mean_freq [] = some (pos 0)
  mean_freq (m ∷ ms) = of_whole (
      t.numbers.nearest (
        t.numbers.floats.over (t.numbers.floats.of_int (total (m ∷ ms)))
          (t.numbers.floats.of_int (length (m ∷ ms)))))

  abbrev pub uptime_of : List Text → Option ℤ
  uptime_of [] = some (pos 0)
  uptime_of (w ∷ _) = whole_number w

  abbrev pub loads_of : List Text → F × (F × F)
  loads_of parts =
      if ltb (length parts) 3
      then (nought t.numbers, (nought t.numbers, nought t.numbers))
      else (float (part 0 parts), (float (part 1 parts), float (part 2 parts)))

  -- the open files, the third word their bound
  abbrev pub fd_of : ℕ → List Text → Option ℤ
  fd_of i parts =
      if ltb (length parts) 3
      then some (pos 0)
      else elim (whole_number (part i parts)) [ none ↦ none | some z ↦ some (capped z) ]

  abbrev pub named_host : Text → Text → Text
  named_host found host = if non_empty found then found else host

  abbrev pub cards_of : List (Text × Text) → List (Process F) → Option (List (GpuRow F) × Text)
  cards_of sec processes =
      read_gpus t.numbers t.read_based (section sec (codes "GPU")) (section sec (codes "GPUHEALTH"))
        (section sec (codes "GPUCLOCK")) (section sec (codes "GPUAPPS"))
        (section sec (codes "GPUAPPNAME")) processes

  abbrev pub unread : F
  unread = nought t.numbers

  -- the defaults of `MetricResult`
  abbrev pub blank : PollMetrics F
  blank = record {
    hostname = [];
    os = [];
    kernel = [];
    boot_id = [];
    host_ts = pos 0;
    uptime_seconds = pos 0;
    loads = (unread, (unread, unread));
    cpu_model = [];
    cpu_count = pos 0;
    cpu = record { overall = unread; iowait = unread; cores = []; package_temp = unread };
    cpu_freq_avg = pos 0;
    memory_use = record {
      total_mb = unread;
      used_mb = unread;
      available_mb = unread;
      cached_mb = unread;
      swap_total_mb = unread;
      swap_used_mb = unread;
    };
    hugepages_total = pos 0;
    hugepages_free = pos 0;
    disk_io = [];
    net_ifaces = [];
    disks = [];
    inodes = [];
    sockets = record { estab = 0; timewait = 0 };
    fd_allocated = pos 0;
    fd_max = pos 0;
    pid_max = pos 0;
    processes = [];
    users = [];
    kernel_log = [];
    gpu_driver = [];
    gpus = [];
  }

  -- an assignment to the result; `none` where what is assigned raises
  abbrev pub Assign : Type 0
  Assign = PollMetrics F → Option (PollMetrics F)

  abbrev pub assign : {A : Type 0} → Option A → (A → PollMetrics F) → Option (PollMetrics F)
  assign none put = none
  assign (some v) put = some (put v)

  -- the assignments up to the memory, in order
  abbrev pub host_steps : List (Text × Text) → Text → List Assign
  host_steps sec host =
      (λ m. some (record m {
        hostname = named_host (first_line (section sec (codes "HOSTNAME"))) host;
        os = first_line (section sec (codes "OS"));
        kernel = first_line (section sec (codes "KERNEL"));
        boot_id = first_line (section sec (codes "BOOTID"));
      }))
      ∷ (λ m. assign (first_number sec (codes "DATETIME")) (λ v. record m { host_ts = v }))
      ∷ (λ m.
          assign (uptime_of (words (section sec (codes "UPTIME"))))
            (λ v. record m { uptime_seconds = v }))
      ∷ (λ m. some (record m {
        loads = loads_of (words (section sec (codes "LOADAVG")));
        cpu_model = take 120 (first_line (section sec (codes "CPUMODEL")));
      }))
      ∷ (λ m. assign (first_number sec (codes "CPUCOUNT")) (λ v. record m { cpu_count = v }))
      ∷ (λ m.
          assign
            (parse_cpu t.numbers t.letters (section sec (codes "CPUSTAT1"))
              (section sec (codes "CPUSTAT2")) (section sec (codes "CPUFREQ"))
              (section sec (codes "CPUTEMP")) m.cpu_count)
            (λ v. record m { cpu = v }))
      ∷ (λ m. assign (mean_freq (positive_freqs m.cpu.cores)) (λ v. record m { cpu_freq_avg = v }))
      ∷ []

  -- the assignments from the memory to the bound of process numbers
  abbrev pub use_steps : List (Text × Text) → List Assign
  use_steps sec =
      let n = t.numbers in
      let info = parse_meminfo n (section sec (codes "MEMINFO")) in
      let window = n.floats.of_int 1 in
      let fd = words (section sec (codes "FDNR")) in
      (λ m. some (record m { memory_use = rounded (memory n info) }))
      ∷ (λ m.
          assign (of_whole (n.truncate (info_of n info (codes "HugePages_Total"))))
            (λ v. record m { hugepages_total = v }))
      ∷ (λ m.
          assign (of_whole (n.truncate (info_of n info (codes "HugePages_Free"))))
            (λ v. record m { hugepages_free = v }))
      ∷ (λ m. some (record m {
        disk_io =
            disk_rates n t.letters window (parse_diskstats n (section sec (codes "DISKSTATS1")))
              (parse_diskstats n (section sec (codes "DISKSTATS2")));
      }))
      ∷ (λ m.
          assign (netlink_lines n t.isdigit (splitlines (section sec (codes "NETLINK2"))) [])
            (λ links. record m {
              net_ifaces =
                  net_rates n window (parse_netdev n (section sec (codes "NETDEV1")))
                    (parse_netdev n (section sec (codes "NETDEV2"))) links;
            }))
      ∷ (λ m. some (record m { disks = parse_df n (section sec (codes "DF")) }))
      ∷ (λ m. assign (parse_dfi n (section sec (codes "DFI"))) (λ v. record m { inodes = v }))
      ∷ (λ m.
          some (record m { sockets = parse_sockstat t.letters (section sec (codes "SOCKETS")) }))
      ∷ (λ m. assign (fd_of 0 fd) (λ v. record m { fd_allocated = v }))
      ∷ (λ m. assign (fd_of 2 fd) (λ v. record m { fd_max = v }))
      ∷ (λ m. assign (first_number sec (codes "PIDMAX")) (λ v. record m { pid_max = v }))
      ∷ []

  -- the assignments of the processes, the log and the cards
  abbrev pub work_steps : List (Text × Text) → List Assign
  work_steps sec =
      (λ m.
        assign (parse_ps t.numbers 500 false (section sec (codes "PS")))
          (λ v. record m { processes = v }))
      ∷ (λ m. some (record m { users = []; kernel_log = section sec (codes "KLOG") }))
      ∷ (λ m. assign (cards_of sec m.processes) (λ v. record m { gpus = v.0; gpu_driver = v.1 }))
      ∷ []

  -- whether none of the assignments has raised, and what the result then holds
  unfoldable pub run_steps : List Assign → PollMetrics F → Bool × PollMetrics F
  run_steps [] m = (true, m)
  run_steps (step ∷ steps) m = elim (step m) [ none ↦ (false, m) | some m' ↦ run_steps steps m' ]

  unfoldable pub parse_sections : List (Text × Text) → Text → Bool × PollMetrics F
  parse_sections sec host =
      run_steps (host_steps sec host ++ (use_steps sec ++ work_steps sec)) blank

  abbrev pub parse_fast_output : Text → Text → Bool × PollMetrics F
  parse_fast_output out host = parse_sections (split_sections out) host
