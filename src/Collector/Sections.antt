-- ===== src/Collector/Sections.antt =====
-- `_split_sections` of backend/app/ssh_collector.py, which every collector's output goes through: the
-- parts of a script's output between its `==NAME==` lines.
pub mod RoundTrip
use lab_gpu_server_monitor.Prelude.{
  ℕ, ◌≡◌, refl, sym, ap, ◌∙◌, Bool, true, false, not, ◌&&◌, ◌||◌, Option, none, some, List, [], ◌∷◌,
  ◌++◌, map, if◌then◌else◌, Text, codes, text_eq, text_beq_iff, ◌==◌, nat_beq, leb, all, All,
  starts_with, strip, lstrip, non_empty, push, arith, inl, inr, Bool-cases, Option-cases, beq_refl,
}
use lab_gpu_server_monitor.Prelude.Table.{lookup, insert, IsDict, lookup-append, insert_new}
use mathlib.Core.List.{reverse, reverse-append, reverse-reverse, append-nil, append_assoc}
use lab_gpu_server_monitor.Collector.{is_break, lines_from, splitlines, join_lines, without}

abbrev pub section_char : ℕ → Bool
section_char c = leb 65 c && leb c 90 || leb 48 c && leb c 57 || nat_beq c 95

abbrev pub checked_name : Text → Option Text
checked_name name = if non_empty name && all section_char name then some name else none

-- the name that stands backwards after a `==`
unfoldable pub tail_name : Text → Option Text
unfolding starts_with
tail_name back =
    if starts_with (codes "==") back then checked_name (reverse (without 2 back)) else none

-- the name between `==` and `==`
unfoldable pub bare_name : Text → Option Text
unfolding starts_with
bare_name s = if starts_with (codes "==") s then tail_name (reverse (without 2 s)) else none

-- `re.match(r"^==([A-Z0-9_]+)==$", line.strip())`
unfoldable pub section_name : Text → Option Text
section_name line = bare_name (strip line)

abbrev pub Sections : Type 0
Sections = List (Text × List Text)

-- the section that is open, and those so far
abbrev pub Reading : Type 0
Reading = Option Text × Sections

abbrev pub lines_of : Text → Sections → List Text
lines_of name sections = elim (lookup name sections) [ none ↦ [] | some lines ↦ lines ]

unfoldable pub read_line : Text → Reading → Reading
read_line line (current, sections) = elim (section_name line) [
  | some name ↦ (some name, insert name [] sections)
  | none ↦ elim current [
    | none ↦ (none, sections)
    | some name ↦ (some name, insert name (lines_of name sections ++ line ∷ []) sections)
  ]
]

unfoldable pub read_lines : List Text → Reading → Reading
read_lines [] r = r
read_lines (line ∷ lines) r = read_lines lines (read_line line r)

abbrev pub joined : Sections → List (Text × Text)
joined sections = map (λ s. (s.0, join_lines s.1)) sections

unfoldable pub split_sections : Text → List (Text × Text)
split_sections out = joined (read_lines (splitlines out) (none, [])).1

-- `s.strip().splitlines()[0].strip() if s and s.strip() else ""`
abbrev pub first_line : Text → Text
first_line s = elim (splitlines (strip s)) [ [] ↦ [] | line ∷ _ ↦ strip line ]
