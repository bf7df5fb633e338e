-- ===== src/Collector.antt =====
-- The collectors of backend/app/ssh_collector.py and backend/app/collectors_extra.py: how the text
-- that a server's script prints is cut into lines and words, and Python's numbers.
pub mod Sections
pub mod Processes
pub mod KernelLog
pub mod Gpus
pub mod Disks
pub mod Host
pub mod Traffic
pub mod Fast
-- pub mod Slow
mod Tests
use lab_gpu_server_monitor.Prelude.{
  ℕ, zero, suc, ◌≡◌, Bool, true, false, not, ◌&&◌, ◌||◌, Option, none, some, List, [], ◌∷◌, ◌++◌,
  if◌then◌else◌, Text, nat_beq, leb, is_space, push, lstrip, strip, non_empty,
}
use mathlib.Core.List.{reverse}

-- where `str.splitlines` ends a line; `\r\n` is one end
abbrev pub is_break : ℕ → Bool
is_break c =
    leb 10 c && leb c 13
    || leb 28 c && leb c 30
    || nat_beq c 133
    || nat_beq c 8232
    || nat_beq c 8233

-- the lines, after a `\r` or not
unfoldable pub lines_from : Bool → Text → List Text
lines_from cr [] = []
lines_from cr (c ∷ s) =
    let rest = lines_from (nat_beq c 13) s in
    if cr && nat_beq c 10 then rest else if is_break c then [] ∷ rest else push c rest

-- `s.splitlines()`
abbrev pub splitlines : Text → List Text
splitlines s = lines_from false s

abbrev pub in_word : Text → Bool
in_word [] = false
in_word (c ∷ s) = not (is_space c)

-- `s.split()`
unfoldable pub words : Text → List Text
words [] = []
words (c ∷ s) =
    let rest = words s in
    if is_space c then rest else if in_word s then push c rest else (c ∷ []) ∷ rest

unfoldable pub first_word : Text → Text
first_word [] = []
first_word (c ∷ s) = let rest = first_word s in if is_space c then [] else c ∷ rest

unfoldable pub after_word : Text → Text
after_word [] = []
after_word (c ∷ s) = let rest = after_word s in if is_space c then c ∷ s else rest

-- `s.split(None, n)`
unfoldable pub words_max : ℕ → Text → List Text
words_max zero s = if non_empty (lstrip s) then lstrip s ∷ [] else []
words_max (suc n) s =
    let t = lstrip s in
    let rest = words_max n (after_word t) in if non_empty t then first_word t ∷ rest else []

unfoldable pub rstrip : Text → Text
unfolding lstrip
rstrip s = reverse (lstrip (reverse s))

-- what stands before and after the first of a character, where there is one
unfoldable pub cut : ℕ → Text → Option (Text × Text)
cut sep [] = none
cut sep (c ∷ s) =
    let rest = cut sep s in
    if nat_beq c sep then some ([], s) else elim rest [ none ↦ none | some p ↦ some (c ∷ p.0, p.1) ]

-- `"\n".join(lines)`
unfoldable pub join_lines : List Text → Text
join_lines [] = []
join_lines (line ∷ []) = line
join_lines (line ∷ next ∷ more) = line ++ (10 ∷ join_lines (next ∷ more))

-- the `n`-th part, from nought
abbrev pub part : ℕ → List Text → Text
part n [] = []
part zero (w ∷ ws) = w
part (suc n) (w ∷ ws) = part n ws

abbrev pub without : ℕ → Text → Text
without zero s = s
without (suc n) [] = []
without (suc n) (c ∷ s) = without n s
