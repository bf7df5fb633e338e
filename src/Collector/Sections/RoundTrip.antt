-- ===== src/Collector/Sections/RoundTrip.antt =====
-- The parts that a script prints are the parts that `_split_sections` of
-- backend/app/ssh_collector.py reads.
use lab_gpu_server_monitor.Prelude.{
  ◌≡◌, refl, sym, ap, ◌∙◌, Bool, true, false, not, ◌&&◌, Option, none, some, List, [], ◌∷◌, ◌++◌,
  Text, codes, text_eq, text_beq_iff, nat_beq, all, All, starts_with, strip, lstrip, non_empty,
  arith, inl, inr, Option-cases, beq_refl,
}
use lab_gpu_server_monitor.Prelude.Table.{lookup, insert, IsDict, lookup-append, insert_new}
use mathlib.Core.List.{reverse, reverse-append, reverse-reverse, append-nil, append_assoc}
use lab_gpu_server_monitor.Collector.{is_break, lines_from, splitlines}
use lab_gpu_server_monitor.Collector.Sections.{
  section_char, checked_name, tail_name, bare_name, section_name, Sections, lines_of, read_line,
  read_lines, joined, split_sections,
}

-- a line that no section begins, without a break
abbrev pub is_content : Text → Bool
is_content line =
    all (λ c. not (is_break c)) line && elim (section_name line) [ none ↦ true | some _ ↦ false ]

abbrev pub is_name : Text → Bool
is_name name = non_empty name && all section_char name

-- what the scripts print: `echo "==NAME=="`, then the lines
abbrev pub marker : Text → Text
marker name = codes "==" ++ (name ++ codes "==")

abbrev pub layout : Sections → List Text
layout [] = []
layout ((name, lines) ∷ sections) = marker name ∷ (lines ++ layout sections)

abbrev pub printed : List Text → Text
printed [] = []
printed (line ∷ lines) = line ++ (10 ∷ printed lines)

abbrev pub IsOutput : Sections → Type 0
IsOutput sections =
    All (λ s. (is_name s.0 ≡ true) × (all is_content s.1 ≡ true)) sections × IsDict sections

lines_from-printed_line :
    (line rest : Text)
    → all (λ c. not (is_break c)) line ≡ true
    → lines_from false (line ++ (10 ∷ rest)) ≡ line ∷ lines_from false rest
unfolding lines_from
lines_from-printed_line [] rest h = refl
lines_from-printed_line (c ∷ line) rest h =
    let plain : nat_beq c 13 ≡ false = ground arith in
    ground (arith, plain, lines_from-printed_line line rest)

splitlines-printed :
    (lines : List Text)
    → all (λ line. all (λ c. not (is_break c)) line) lines ≡ true
    → splitlines (printed lines) ≡ lines
unfolding lines_from
splitlines-printed [] h = refl
splitlines-printed (line ∷ lines) h =
    ground (arith, lines_from-printed_line line (printed lines), splitlines-printed lines)

reverse-marker : (name : Text) → reverse (marker name) ≡ marker (reverse name)
reverse-marker name =
    reverse-append (codes "==") (name ++ codes "==")
    ∙ ap (λ t. t ++ codes "==") (reverse-append name (codes "=="))

strip-marker : (name : Text) → strip (marker name) ≡ marker name
unfolding strip lstrip
strip-marker name =
    ap (λ t. reverse (lstrip t)) (reverse-marker name)
    ∙ reverse-marker (reverse name)
    ∙ ap marker (reverse-reverse name)

section_name-marker : (name : Text) → is_name name ≡ true → section_name (marker name) ≡ some name
unfolding section_name bare_name tail_name starts_with
section_name-marker name h =
    ap bare_name (strip-marker name)
    ∙ ap tail_name (reverse-append name (codes "=="))
    ∙ ap checked_name (reverse-reverse name)
    ∙ rw h refl

insert_last :
    (name : Text) (old new : List Text) (sections : Sections)
    → lookup name sections ≡ none
    → insert name new (sections ++ (name, old) ∷ []) ≡ sections ++ (name, new) ∷ []
insert_last name old new [] h = ground (arith, beq_refl name)
insert_last name old new ((n, ls) ∷ sections) h = ground (arith, insert_last name old new sections)

lines_of_last :
    (name : Text) (old : List Text) (sections : Sections)
    → lookup name sections ≡ none
    → lines_of name (sections ++ (name, old) ∷ []) ≡ old
lines_of_last name old sections h =
    ground (arith, h, beq_refl name, lookup-append name sections ((name, old) ∷ []))

module _ (name : Text) where
  read_line-content :
      (line : Text) (got : List Text) (sections : Sections)
      → is_content line ≡ true
      → lookup name sections ≡ none
      → read_line line (some name, sections ++ (name, got) ∷ [])
        ≡ (some name, sections ++ (name, got ++ line ∷ []) ∷ [])
  unfolding read_line
  read_line-content line got sections h new = elim (Option-cases (section_name line)) [
    | inr (n, begins) ↦ absurd (ground (arith, begins, h))
    | inl plain ↦
        let same = lines_of_last name got sections new in
        rw (read_line, plain, same)
          (ap (λ s. (some name, s)) (insert_last name got (got ++ line ∷ []) sections new))
  ]

  -- the lines of the section that is open
  read_lines-content :
      (lines more got : List Text) (sections : Sections)
      → all is_content lines ≡ true
      → lookup name sections ≡ none
      → read_lines (lines ++ more) (some name, sections ++ (name, got) ∷ [])
        ≡ read_lines more (some name, sections ++ (name, got ++ lines) ∷ [])
  unfolding read_lines
  read_lines-content [] more got sections h new =
      ap (λ g. read_lines more (some name, sections ++ (name, g) ∷ [])) (sym (append-nil got))
  read_lines-content (line ∷ lines) more got sections h new =
      ap (read_lines (lines ++ more)) (read_line-content line got sections (ground arith) new)
      ∙ read_lines-content lines more (got ++ line ∷ []) sections (ground arith) new
      ∙ ap (λ g. read_lines more (some name, sections ++ (name, g) ∷ []))
          (append_assoc got (line ∷ []) lines)

-- no section of the second has a name of the first
abbrev Fresh : Sections → Sections → Type 0
Fresh done todo = All (λ s. lookup s.0 done ≡ none) todo

Fresh-append :
    (name : Text) (lines : List Text) (done todo : Sections)
    → Fresh done todo
    → lookup name todo ≡ none
    → Fresh (done ++ (name, lines) ∷ []) todo
Fresh-append name lines done [] h new = tt
Fresh-append name lines done ((n, ls) ∷ todo) h new = (
  ground (
    arith,
    new,
    h.0,
    text_beq_iff n name,
    text_beq_iff name n,
    lookup-append n done ((name, lines) ∷ []),
  ),
  Fresh-append name lines done todo h.1 (ground (arith, new)),
)

read_line-marker :
    (name : Text) (current : Option Text) (done : Sections)
    → is_name name ≡ true
    → lookup name done ≡ none
    → read_line (marker name) (current, done) ≡ (some name, done ++ (name, []) ∷ [])
unfolding read_line
read_line-marker name current done h new =
    rw (read_line, section_name-marker name h)
      (ap (λ s. (some name, s)) (insert_new name [] done new))

read_lines-layout :
    (done todo : Sections) (current : Option Text)
    → IsOutput todo
    → Fresh done todo
    → (read_lines (layout todo) (current, done)).1 ≡ done ++ todo
unfolding read_lines
read_lines-layout done [] current h fresh = sym (append-nil done)
read_lines-layout done ((name, lines) ∷ todo) current h fresh =
    let rest = done ++ (name, lines) ∷ [] in
    let begun = read_line-marker name current done h.0.0.0 fresh.0 in
    let body = read_lines-content name lines (layout todo) [] done h.0.0.1 fresh.0 in
    let after =
      read_lines-layout rest todo (some name) (h.0.1, h.1.1)
        (Fresh-append name lines done todo fresh.1 h.1.0) in
    ap (λ r. (read_lines (lines ++ layout todo) r).1) begun
    ∙ ap (λ r. r.1) body
    ∙ after
    ∙ append_assoc done ((name, lines) ∷ []) todo

abbrev unbroken : Text → Bool
unbroken line = all (λ c. not (is_break c)) line

name-unbroken : (name : Text) → all section_char name ≡ true → unbroken (name ++ codes "==") ≡ true
name-unbroken [] h = refl
name-unbroken (c ∷ name) h = ground (arith, name-unbroken name)

content-unbroken :
    (lines more : List Text)
    → all is_content lines ≡ true
    → all unbroken more ≡ true
    → all unbroken (lines ++ more) ≡ true
content-unbroken [] more h rest = rest
content-unbroken (line ∷ lines) more h rest = ground (arith, content-unbroken lines more)

layout-unbroken : (sections : Sections) → IsOutput sections → all unbroken (layout sections) ≡ true
layout-unbroken [] h = refl
layout-unbroken ((name, lines) ∷ sections) h =
    let named = name-unbroken name (ground (arith, h.0.0.0)) in
    let rest =
      content-unbroken lines (layout sections) h.0.0.1 (layout-unbroken sections (h.0.1, h.1.1)) in
    ground (arith, named, rest)

none-Fresh : (sections : Sections) → Fresh [] sections
none-Fresh [] = tt
none-Fresh (s ∷ sections) = (refl, none-Fresh sections)

-- Sections with different names of capitals, digits and underscores, whose lines have no line
-- break and are no section's first line, are read back as they were from what the scripts print of
-- them.
pub split_sections-printed :
    (sections : Sections)
    → IsOutput sections
    → split_sections (printed (layout sections)) ≡ joined sections
unfolding split_sections
split_sections-printed sections h =
    let lines = splitlines-printed (layout sections) (layout-unbroken sections h) in
    ap (λ ls. joined (read_lines ls (none, [])).1) lines
    ∙ ap joined (read_lines-layout [] sections none h (none-Fresh sections))
