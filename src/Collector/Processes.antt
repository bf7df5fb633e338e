-- ===== src/Collector/Processes.antt =====
-- The process list of backend/app/ssh_collector.py: `_executable_name`, `_parse_ps`, `_parse_who`.
-- A call that raises returns `none`.
pub mod Anonymous
use lab_gpu_server_monitor.Prelude.{
  ℕ, suc, ◌+◌, ◌≤◌, ◌≡◌, refl, sym, ap, ◌∙◌, Bool, true, false, not, ◌&&◌, ◌||◌, Option, none, some,
  List, [], ◌∷◌, ◌++◌, map, if◌then◌else◌, Text, codes, nat_beq, ltb, leb, all, All, All-append,
  keep, any, take, length, starts_with, strip, is_space, non_empty, arith, inl, inr, Bool-cases,
  Option-cases, length-append,
}
use lab_gpu_server_monitor.Prelude.Int.{ℤ}
use mathlib.Core.List.{reverse}
use lab_gpu_server_monitor.Alerts.{Floats}
use lab_gpu_server_monitor.Collector.{splitlines, words, words_max, rstrip, part, first_word}

-- `int(x)` of a float: a `ValueError` for a NaN, an `OverflowError` for an infinity
pub data Whole : Type 0 where
  whole : ℤ → Whole
  not_a_number : Whole
  too_large : Whole

-- Python's numbers: floats, `float(s.strip())`, `int(x)` of a float and `int(s)`
pub record Numbers (F : Type 0) : Type 0 where
  pub floats : Floats F
  pub minus : F → F → F
  pub read : Text → Option F
  pub truncate : F → Whole
  pub read_int : Text → Option ℤ
  -- `round(x, 3)` and `round(x)`
  pub round3 : F → F
  pub nearest : F → Whole

pub record Process (F : Type 0) : Type 0 where
  pub pid : ℤ
  pub ppid : ℤ
  pub cpu : F
  pub mem : F
  pub rss_mb : F
  pub vsz_mb : F
  pub stat : Text
  pub etimes : ℤ
  pub command : Text
  pub user : Text

unfoldable pub until : ℕ → Text → Text
until sep [] = []
until sep (c ∷ s) = let rest = until sep s in if nat_beq c sep then [] else c ∷ rest

-- `os.path.basename(path)`
unfoldable pub basename : Text → Text
basename path = reverse (until 47 (reverse path))

unfoldable pub executable_name : Text → Option Text
executable_name command = elim (words_max 1 (strip command)) [
  | [] ↦ none
  | first ∷ rest ↦ some (take 80 (basename first))
]

-- `[x.rstrip() for x in text.splitlines() if x.strip()]`
abbrev pub ps_lines : Text → List Text
ps_lines text = map rstrip (keep (λ line. non_empty (strip line)) (splitlines text))

abbrev pub but_first {ℓ} : {A : Type ℓ} → List A → List A
but_first [] = []
but_first (x ∷ xs) = xs

-- what becomes of a line
pub data Line (A : Type 0) : Type 0 where
  skipped : Line A
  fails : Line A
  taken : A → Line A

-- a name without its arguments and its folder, of at most 80 characters
abbrev pub is_bare : Text → Bool
is_bare command =
    all (λ c. not (is_space c) && not (nat_beq c 47)) command && leb (length command) 80

module _ {F : Type 0} (n : Numbers F) where
  -- `_to_float(v)`
  abbrev pub to_float : Text → F
  to_float v = elim (n.read v) [ none ↦ n.floats.of_int 0 | some x ↦ x ]

  abbrev pub in_mb : Text → F
  in_mb v = n.floats.round (n.floats.over (to_float v) (n.floats.of_int 1024))

  -- the command that is kept
  abbrev pub shown_command : Bool → Text → Option Text
  shown_command true args = some (strip (take 120 args))
  shown_command false args = executable_name args

  abbrev pub process_of : Bool → List Text → ℤ → ℤ → ℤ → Text → Process F
  process_of include_sensitive parts pid ppid etimes command = record {
    pid = pid;
    ppid = ppid;
    cpu = to_float (part 3 parts);
    mem = to_float (part 4 parts);
    rss_mb = in_mb (part 5 parts);
    vsz_mb = in_mb (part 6 parts);
    stat = part 7 parts;
    etimes = etimes;
    command = command;
    user = if include_sensitive then part 2 parts else [];
  }

  -- the values that may raise
  unfoldable pub checked_process : Bool → List Text → ℤ → ℤ → Line (Process F)
  checked_process include_sensitive parts pid ppid = elim (n.truncate (to_float (part 8 parts))) [
    | not_a_number ↦ fails
    | too_large ↦ fails
    | whole etimes ↦ elim (shown_command include_sensitive (part 9 parts)) [
      | none ↦ fails
      | some command ↦ taken (process_of include_sensitive parts pid ppid etimes command)
    ]
  ]

  unfoldable pub read_process : Bool → Text → Line (Process F)
  read_process include_sensitive line =
      let parts = words_max 9 line in
      if ltb (length parts) 10 then skipped else elim (n.read_int (part 0 parts)) [
        | none ↦ skipped
        | some pid ↦ elim (n.read_int (part 1 parts)) [
          | none ↦ skipped
          | some ppid ↦ checked_process include_sensitive parts pid ppid
        ]
      ]

  -- the loop: it ends with the line that makes the list as long as the limit
  unfoldable pub ps_loop : Bool → ℕ → List (Process F) → List Text → Option (List (Process F))
  ps_loop include_sensitive limit procs [] = some procs
  ps_loop include_sensitive limit procs (line ∷ lines) =
      elim (read_process include_sensitive line) [
        | skipped ↦ ps_loop include_sensitive limit procs lines
        | fails ↦ none
        | taken process ↦
            let more = procs ++ process ∷ [] in
            elim (leb limit (length more)) [
              | true ↦ some more
              | false ↦ ps_loop include_sensitive limit more lines
            ]
      ]

  unfoldable pub parse_ps : ℕ → Bool → Text → Option (List (Process F))
  parse_ps limit include_sensitive text =
      ps_loop include_sensitive limit [] (but_first (ps_lines text))

-- a process that tells neither whose it is nor what it was called with
abbrev pub IsAnonymous : {F : Type 0} → Process F → Type 0
IsAnonymous p = (p.user ≡ []) × (is_bare p.command ≡ true)
