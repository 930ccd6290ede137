-- ===== src/Risk.antt =====
-- The coordinate of a changed line in the current file, `current_line_anchor` of src/apex_ray/risk.py, by
-- which a risk signal names its line. The rules of a project, which give such signals, are in `Risk.Policy`.
pub mod Anchor
pub mod Policy
pub mod Covered
mod Examples
use apex_ray.Base.{ℕ, zero, suc, Option, none, some, List, [], ◌∷◌, ◌++◌, take, drop}
use apex_ray.Models.{DiffLine, ChangedHunk}

-- The first of the lines with a number in the current file.
unfoldable pub first_new_line : List DiffLine → Option ℕ
first_new_line [] = none
first_new_line (l ∷ ls) = elim l.new_line [ some n ↦ some n | none ↦ first_new_line ls ]

abbrev pub backwards : List DiffLine → List DiffLine
backwards [] = []
backwards (l ∷ ls) = backwards ls ++ l ∷ []

-- `hunk.lines[line_index]`
unfoldable pub line_at : ℕ → List DiffLine → Option DiffLine
line_at n [] = none
line_at zero (l ∷ ls) = some l
line_at (suc n) (l ∷ ls) = line_at n ls

abbrev or_else : Option ℕ → Option ℕ → Option ℕ
or_else none other = other
or_else (some n) other = some n

abbrev or_start : Option ℕ → ℕ → ℕ
or_start none start = start
or_start (some n) start = n

-- `none` stands for the IndexError of an index out of range.
unfoldable pub current_line_anchor : ChangedHunk → ℕ → Option ℕ
current_line_anchor hunk index = elim (line_at index hunk.lines) [
  | none ↦ none
  | some line ↦ some (
      or_start
        (or_else line.new_line (
          or_else (first_new_line (drop (suc index) hunk.lines))
            (first_new_line (backwards (take index hunk.lines)))))
        hunk.new_start)
]
