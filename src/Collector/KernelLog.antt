-- ===== src/Collector/KernelLog.antt =====
-- `parse_kernel_log` of backend/app/collectors_extra.py. Its regular expressions are tests of texts
-- here: `somewhere` for a search, `begins` for a literal and what follows it. Under `re.I` a line is
-- searched with its letters folded; every test of them is for lower case.
pub mod Collapse
use lab_gpu_server_monitor.Prelude.{
  ℕ, zero, suc, ◌+◌, ◌*◌, ◌≡◌, Bool, true, false, not, ◌&&◌, ◌||◌, Option, none, some, List, [],
  ◌∷◌, ◌++◌, map, if◌then◌else◌, Text, codes, text_eq, nat_beq, ltb, leb, ◌==◌, any, all, keep,
  take, length, is_space, non_empty,
}
use lab_gpu_server_monitor.Scheduler.KernelLog.{KernelEvent}
use lab_gpu_server_monitor.Ssh.Faults.{occurs_in}
use lab_gpu_server_monitor.Ssh.Connect.{lower_char}
use lab_gpu_server_monitor.Collector.{splitlines, rstrip, without}

-- Unicode's tables: the value of a digit of `\d`, and `\w`
pub record Letters : Type 0 where
  pub digit : ℕ → Option ℕ
  pub is_word : ℕ → Bool

-- `re.I`, for the letters of the patterns: İ and ı are i, ſ is s, and the Kelvin sign is k
abbrev pub folded : ℕ → ℕ
folded c =
    if nat_beq c 304 || nat_beq c 305
    then 105
    else if nat_beq c 383
    then 115
    else if nat_beq c 8490
    then 107
    else lower_char c

unfoldable pub somewhere : (Text → Bool) → Text → Bool
somewhere f [] = f []
somewhere f (c ∷ s) = f (c ∷ s) || somewhere f s

unfoldable pub begins : Text → (Text → Bool) → Text → Bool
begins [] rest s = rest s
begins (c ∷ p) rest [] = false
begins (c ∷ p) rest (d ∷ s) = nat_beq c d && begins p rest s

abbrev pub anything : Text → Bool
anything s = true

abbrev pub one_of : List Text → (Text → Bool) → Text → Bool
one_of parts rest s = any (λ p. begins p rest s) parts

abbrev pub has : List Text → Text → Bool
has parts s = somewhere (one_of parts anything) s

module _ (u : Letters) where
  abbrev pub is_digit : ℕ → Bool
  is_digit c = elim (u.digit c) [ none ↦ false | some _ ↦ true ]

  -- `\d`, then the rest
  abbrev pub digit_then : (Text → Bool) → Text → Bool
  digit_then rest [] = false
  digit_then rest (c ∷ s) = is_digit c && rest s

  -- `\b` after a word, then the rest
  abbrev pub word_end_then : (Text → Bool) → Text → Bool
  word_end_then rest [] = rest []
  word_end_then rest (c ∷ s) = not (u.is_word c) && rest (c ∷ s)

  -- `_KERNEL_PATTERNS`, on a folded line
  unfoldable pub kernel_patterns : List (Text × (Text × (Text → Bool)))
  kernel_patterns =
      (
        codes "GPU_XID",
        (codes "critical", somewhere (begins (codes "nvrm: xid ") (digit_then anything))),
      )
      ∷ (
        codes "GPU_FALLEN_OFF_BUS",
        (codes "critical", has (codes "gpu has fallen off the bus" ∷ [])),
      )
      ∷ (
        codes "OOM_KILL",
        (
          codes "critical",
          has (
              codes "out of memory"
              ∷ codes "killed process"
              ∷ codes "oom-kill"
              ∷ codes "invoked oom-killer"
              ∷ []),
        ),
      )
      ∷ (
        codes "MCE_HARDWARE_ERROR",
        (
          codes "critical",
          has (codes "machine check" ∷ codes "hardware error" ∷ codes "mce:" ∷ []),
        ),
      )
      ∷ (
        codes "EDAC_MEMORY_ERROR",
        (codes "warning", somewhere (begins (codes "edac") (has (codes "error" ∷ [])))),
      )
      ∷ (
        codes "PCIE_AER",
        (
          codes "warning",
          somewhere (one_of (codes "pcieport" ∷ codes "aer" ∷ []) (has (codes "error" ∷ []))),
        ),
      )
      ∷ (
        codes "IO_ERROR",
        (
          codes "warning",
          λ s.
              has (codes "i/o error" ∷ codes "blk_update_request" ∷ codes "ext4-fs error" ∷ []) s
              || somewhere (begins (codes "xfs ") (has (codes " error" ∷ []))) s,
        ),
      )
      ∷ (
        codes "NVME_ERROR",
        (
          codes "warning",
          somewhere (
              begins (codes "nvme") (
                digit_then (
                  has (
                    codes "timeout"
                    ∷ codes "resetting"
                    ∷ codes "controller reset"
                    ∷ codes "i/o"
                    ∷ [])))),
        ),
      )
      ∷ (
        codes "NFS_ERROR",
        (
          codes "warning",
          somewhere (
              begins (codes "nfs")
                (has (codes "not responding" ∷ codes "timed out" ∷ codes "stale" ∷ []))),
        ),
      )
      ∷ (
        codes "NIC_RESET",
        (
          codes "warning",
          somewhere (
              one_of
                (codes "igb" ∷ codes "ixgbe" ∷ codes "mlx" ∷ codes "bnxt" ∷ codes "e1000e" ∷ [])
                (word_end_then
                  (has (codes "reset" ∷ codes "link down" ∷ codes "nic link is down" ∷ [])))),
        ),
      )
      ∷ (codes "TCP_REQUESTED", (codes "info", has (codes "tcp: request_sock_tcp" ∷ [])))
      ∷ []

  -- `int` of the digits that a text begins with
  unfoldable pub leading_number : ℕ → Text → ℕ
  leading_number acc [] = acc
  leading_number acc (c ∷ s) = elim (u.digit c) [
    | none ↦ acc
    | some d ↦ leading_number (acc * 10 + d) s
  ]

  -- what follows the first `Xid ` that a digit follows
  unfoldable pub xid_of : Text → ℕ
  xid_of [] = 0
  xid_of (c ∷ s) =
      let rest = xid_of s in
      if begins (codes "Xid ") (digit_then anything) (c ∷ s)
      then leading_number 0 (without 4 (c ∷ s))
      else rest

  -- `[0-9a-f-]`
  abbrev pub uuid_char : ℕ → Bool
  uuid_char c = leb 48 c && leb c 57 || leb 97 c && leb c 102 || nat_beq c 45

  -- `[-\s]`, then 36 of these
  abbrev pub uuid_follows : Text → Bool
  uuid_follows [] = false
  uuid_follows (c ∷ s) =
      (nat_beq c 45 || is_space c) && (nat_beq (length (take 36 s)) 36 && all uuid_char (take 36 s))

  unfoldable pub gpu_uuid_of : Text → Text
  gpu_uuid_of [] = []
  gpu_uuid_of (c ∷ s) =
      let rest = gpu_uuid_of s in
      if begins (codes "GPU") uuid_follows (c ∷ s) then take 36 (without 4 (c ∷ s)) else rest

  abbrev pub event_of : Text → Text → Text → KernelEvent
  event_of event_type severity line = record {
    event_type = event_type;
    severity = severity;
    message = take 200 line;
    raw_message = take 2000 line;
    gpu_uuid = if event_type == codes "GPU_XID" then gpu_uuid_of line else [];
    xid = if event_type == codes "GPU_XID" then xid_of line else 0;
  }

  -- the first pattern that the line has
  unfoldable pub first_pattern : List (Text × (Text × (Text → Bool))) → Text → Option KernelEvent
  first_pattern [] line = none
  first_pattern ((event_type, (severity, found)) ∷ patterns) line =
      if found (map folded line)
      then some (event_of event_type severity line)
      else first_pattern patterns line

  -- the loop over the lines
  unfoldable pub line_events : List Text → List KernelEvent
  line_events [] = []
  line_events (line ∷ lines) =
      let rest = line_events lines in
      if non_empty (rstrip line)
      then elim (first_pattern kernel_patterns (rstrip line)) [ none ↦ rest | some e ↦ e ∷ rest ]
      else rest

abbrev pub is_oom : KernelEvent → Bool
is_oom e = e.event_type == codes "OOM_KILL"

abbrev pub names_victim : KernelEvent → Bool
names_victim e = is_oom e && occurs_in (codes "Killed process") e.message

-- the place of the first event that passes a test
unfoldable pub first_index : (KernelEvent → Bool) → ℕ → List KernelEvent → Option ℕ
first_index p i [] = none
first_index p i (e ∷ events) = if p e then some i else first_index p (suc i) events

-- `keep`: the first line that names the victim, or else the first of the incident
abbrev pub kept_index : List KernelEvent → ℕ
kept_index events = elim (first_index names_victim 0 events) [
  | some i ↦ i
  | none ↦ elim (first_index is_oom 0 events) [ some i ↦ i | none ↦ 0 ]
]

-- the others of the incident are dropped
unfoldable pub keep_only : ℕ → ℕ → List KernelEvent → List KernelEvent
keep_only kept i [] = []
keep_only kept i (e ∷ events) =
    let rest = keep_only kept (suc i) events in
    if not (is_oom e) || nat_beq i kept then e ∷ rest else rest

unfoldable pub collapse : List KernelEvent → List KernelEvent
collapse events =
    if ltb 1 (length (keep is_oom events)) then keep_only (kept_index events) 0 events else events

unfoldable pub parse_kernel_log : Letters → Text → List KernelEvent
parse_kernel_log u text = take 100 (collapse (line_events u (splitlines text)))
