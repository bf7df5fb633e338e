-- ===== src/Collector/Traffic.antt =====
-- The rates of a poll, in backend/app/ssh_collector.py: the disks' and the interfaces' counters, read
-- twice, and the sockets. A call that raises returns `none`.
use lab_gpu_server_monitor.Prelude.{
  ℕ, Bool, true, false, not, ◌&&◌, ◌||◌, Option, none, some, List, [], ◌∷◌, map, if◌then◌else◌,
  Text, codes, text_eq, ltb, ◌==◌, any, keep, take, length, starts_with, strip, non_empty, is_space,
}
use lab_gpu_server_monitor.Prelude.Int.{ℤ, pos}
use lab_gpu_server_monitor.Prelude.Table.{lookup, contains, insert}
use lab_gpu_server_monitor.Collector.{splitlines, words, part, cut, without}
use lab_gpu_server_monitor.Collector.Processes.{Numbers, to_float}
use lab_gpu_server_monitor.Collector.KernelLog.{
  Letters, begins, anything, digit_then, leading_number,
}
use lab_gpu_server_monitor.Collector.Disks.{sort_by}
use lab_gpu_server_monitor.Collector.Host.{nought, max_of, min_of, after_spaces}

pub record DiskCounts (F : Type 0) : Type 0 where
  pub reads : F
  pub sectors_read : F
  pub writes : F
  pub sectors_written : F
  pub busy_ms : F

pub record DiskRate (F : Type 0) : Type 0 where
  pub device : Text
  pub read_bps : F
  pub write_bps : F
  pub read_iops : F
  pub write_iops : F
  pub busy_percent : F

pub record NetCounts (F : Type 0) : Type 0 where
  pub rx : F
  pub rx_err : F
  pub rx_drop : F
  pub tx : F
  pub tx_err : F
  pub tx_drop : F

pub record Link : Type 0 where
  pub state : Text
  pub carrier : Text
  pub speed : ℤ

pub record NetRate (F : Type 0) : Type 0 where
  pub iface : Text
  pub rx_bps : F
  pub tx_bps : F
  pub rx_err_rate : F
  pub rx_drop_rate : F
  pub tx_err_rate : F
  pub tx_drop_rate : F
  pub operstate : Text
  pub speed_mbps : ℤ

pub record Sockets : Type 0 where
  pub estab : ℕ
  pub timewait : ℕ

-- `_SKIP_DISK.match(name)`
abbrev pub skips_disk : Letters → Text → Bool
skips_disk u name =
    any (λ p. starts_with p name)
      (codes "loop" ∷ codes "ram" ∷ codes "sr" ∷ codes "fd" ∷ codes "zram" ∷ [])
    || begins (codes "dm-") (digit_then u anything) name
    || begins (codes "md") (digit_then u anything) name

-- the keys of the second dictionary that the first has too, sorted
abbrev pub common {ℓ} : {V : Type ℓ} → List (Text × V) → List (Text × V) → List Text
common d1 d2 = sort_by (λ k. k) (keep (λ k. contains k d1) (map (λ b. b.0) d2))

module _ {F : Type 0} (n : Numbers F) where
  unfoldable pub diskstats_lines :
      List Text → List (Text × DiskCounts F) → List (Text × DiskCounts F)
  diskstats_lines [] out = out
  diskstats_lines (line ∷ lines) out =
      let parts = words line in
      diskstats_lines lines (
        if ltb (length parts) 14
        then out
        else insert (part 2 parts)
            (record {
              reads = to_float n (part 3 parts);
              sectors_read = to_float n (part 5 parts);
              writes = to_float n (part 7 parts);
              sectors_written = to_float n (part 9 parts);
              busy_ms = to_float n (part 13 parts);
            })
            out)

  abbrev pub parse_diskstats : Text → List (Text × DiskCounts F)
  parse_diskstats text = diskstats_lines (splitlines text) []

  -- the growth of a counter per second, and never below nought
  abbrev pub growth : F → F → F → F
  growth window a b = max_of n (nought n) (n.floats.over (n.minus b a) window)

  abbrev pub bytes_rate : F → F → F → F
  bytes_rate window a b =
      max_of n (nought n)
        (n.floats.over (n.floats.times (n.minus b a) (n.floats.of_int 512)) window)

  abbrev pub busy_of : F → F → F → F
  busy_of window a b = min_of n (n.floats.of_int 100) (
      n.floats.times
        (n.floats.over (max_of n (nought n) (n.minus b a))
          (n.floats.times window (n.floats.of_int 1000)))
        (n.floats.of_int 100))

  -- `0.5`
  abbrev pub half : F
  half = n.floats.over (n.floats.of_int 1) (n.floats.of_int 2)

  abbrev pub is_idle_disk : F → DiskCounts F → DiskCounts F → Bool
  is_idle_disk window a b =
      n.floats.lt (bytes_rate window a.sectors_read b.sectors_read) (n.floats.of_int 1)
      && n.floats.lt (bytes_rate window a.sectors_written b.sectors_written) (n.floats.of_int 1)
      && n.floats.lt (busy_of window a.busy_ms b.busy_ms) half

  abbrev pub disk_rate : F → Text → DiskCounts F → DiskCounts F → DiskRate F
  disk_rate window name a b = record {
    device = name;
    read_bps = n.floats.round (bytes_rate window a.sectors_read b.sectors_read);
    write_bps = n.floats.round (bytes_rate window a.sectors_written b.sectors_written);
    read_iops = n.floats.round (growth window a.reads b.reads);
    write_iops = n.floats.round (growth window a.writes b.writes);
    busy_percent = n.floats.round (busy_of window a.busy_ms b.busy_ms);
  }

  unfoldable pub disk_rates_of :
      F → List (Text × DiskCounts F) → List (Text × DiskCounts F) → List Text → List (DiskRate F)
  disk_rates_of window d1 d2 [] = []
  disk_rates_of window d1 d2 (name ∷ names) =
      let rest = disk_rates_of window d1 d2 names in
      elim (lookup name d1) [
        | none ↦ rest
        | some a ↦ elim (lookup name d2) [
          | none ↦ rest
          | some b ↦ if is_idle_disk window a b then rest else disk_rate window name a b ∷ rest
        ]
      ]

  unfoldable pub disk_rates :
      Letters → F → List (Text × DiskCounts F) → List (Text × DiskCounts F) → List (DiskRate F)
  disk_rates u window d1 d2 =
      disk_rates_of window d1 d2 (take 16 (keep (λ k. not (skips_disk u k)) (common d1 d2)))

  unfoldable pub netdev_lines : List Text → List (Text × NetCounts F) → List (Text × NetCounts F)
  netdev_lines [] out = out
  netdev_lines (line ∷ lines) out = elim (cut 58 line) [
    | none ↦ netdev_lines lines out
    | some p ↦
        let parts = words p.1 in
        netdev_lines lines (
          if strip p.0 == codes "lo" || ltb (length parts) 16
          then out
          else insert (strip p.0)
              (record {
                rx = to_float n (part 0 parts);
                rx_err = to_float n (part 2 parts);
                rx_drop = to_float n (part 3 parts);
                tx = to_float n (part 8 parts);
                tx_err = to_float n (part 10 parts);
                tx_drop = to_float n (part 11 parts);
              })
              out)
  ]

  abbrev pub parse_netdev : Text → List (Text × NetCounts F)
  parse_netdev text = netdev_lines (splitlines text) []

  -- `int(parts[3]) if … parts[3].isdigit() else 0`, with `str.isdigit` as an argument
  abbrev pub speed_of : (Text → Bool) → Text → Option ℤ
  speed_of isdigit v = if non_empty v && isdigit v then n.read_int v else some (pos 0)

  unfoldable pub netlink_lines :
      (Text → Bool) → List Text → List (Text × Link) → Option (List (Text × Link))
  netlink_lines isdigit [] out = some out
  netlink_lines isdigit (line ∷ lines) out =
      let parts = words line in
      elim (ltb (length parts) 3) [
        | true ↦ netlink_lines isdigit lines out
        | false ↦ elim (speed_of isdigit (part 3 parts)) [
          | none ↦ none
          | some speed ↦ netlink_lines isdigit lines (
              insert (part 0 parts)
                (record { state = part 1 parts; carrier = part 2 parts; speed = speed }) out)
        ]
      ]

  abbrev pub change : F → F → F → F
  change window a b = n.floats.over (n.minus b a) window

  abbrev pub is_quiet : F → NetCounts F → NetCounts F → Bool
  is_quiet window a b =
      n.floats.lt (change window a.rx b.rx) (n.floats.of_int 1)
      && n.floats.lt (change window a.tx b.tx) (n.floats.of_int 1)
      && not (
          n.floats.truthy (n.minus b.rx_err a.rx_err)
          || n.floats.truthy (n.minus b.rx_drop a.rx_drop)
          || n.floats.truthy (n.minus b.tx_err a.tx_err)
          || n.floats.truthy (n.minus b.tx_drop a.tx_drop))

  abbrev pub net_rate : F → Text → NetCounts F → NetCounts F → Option Link → NetRate F
  net_rate window name a b link = record {
    iface = name;
    rx_bps = n.floats.round (change window a.rx b.rx);
    tx_bps = n.floats.round (change window a.tx b.tx);
    rx_err_rate = n.round3 (n.minus b.rx_err a.rx_err);
    rx_drop_rate = n.round3 (n.minus b.rx_drop a.rx_drop);
    tx_err_rate = n.round3 (n.minus b.tx_err a.tx_err);
    tx_drop_rate = n.round3 (n.minus b.tx_drop a.tx_drop);
    operstate = elim link [ none ↦ [] | some l ↦ l.state ];
    speed_mbps = elim link [ none ↦ pos 0 | some l ↦ l.speed ];
  }

  unfoldable pub net_rates_of :
      F
      → List (Text × NetCounts F)
      → List (Text × NetCounts F)
      → List (Text × Link)
      → List Text
      → List (NetRate F)
  net_rates_of window n1 n2 links [] = []
  net_rates_of window n1 n2 links (name ∷ names) =
      let rest = net_rates_of window n1 n2 links names in
      elim (lookup name n1) [
        | none ↦ rest
        | some a ↦ elim (lookup name n2) [
          | none ↦ rest
          | some b ↦
              if is_quiet window a b
              then rest
              else net_rate window name a b (lookup name links) ∷ rest
        ]
      ]

  abbrev pub net_rates :
      F
      → List (Text × NetCounts F)
      → List (Text × NetCounts F)
      → List (Text × Link)
      → List (NetRate F)
  net_rates window n1 n2 links = net_rates_of window n1 n2 links (common n1 n2)

module _ (u : Letters) where
  -- `\s+(\d+)`: the number, if it is there
  abbrev pub number_after_spaces : Text → Option ℕ
  number_after_spaces [] = none
  number_after_spaces (c ∷ s) =
      let t = after_spaces u s in
      if is_space c && digit_then u anything t then some (leading_number u 0 t) else none

  -- the first place of a word that a number follows, where it may begin
  unfoldable pub number_after : Text → Bool → Bool → Text → Option ℕ
  number_after word bound inside [] = none
  number_after word bound inside (c ∷ s) =
      let rest = number_after word bound (u.is_word c) s in
      if starts_with word (c ∷ s) && not (bound && inside)
      then elim (number_after_spaces (without (length word) (c ∷ s))) [
        | some k ↦ some k
        | none ↦ rest
      ]
      else rest

  abbrev pub or_old : ℕ → Option ℕ → ℕ
  or_old old none = old
  or_old old (some k) = k

  unfoldable pub sockstat_lines : List Text → Sockets → Sockets
  sockstat_lines [] out = out
  sockstat_lines (line ∷ lines) out = sockstat_lines lines (record {
    estab = or_old out.estab (number_after (codes "ESTAB") false false line);
    timewait = or_old out.timewait (number_after (codes "tw") true false line);
  })

  abbrev pub parse_sockstat : Text → Sockets
  parse_sockstat text = sockstat_lines (splitlines text) (record { estab = 0; timewait = 0 })
