-- ===== src/Lines.antt =====
-- Line ranges, src/apex_ray/line_ranges.py: merging, counting and subtracting the ranges of lines that
-- coverage works with. A range is a pair of line numbers, its first and last line.
pub mod Covers
pub mod Merge
pub mod Canonical
pub mod Count
pub mod Subtract
mod Examples
use apex_ray.Base.{
  ℕ, ◌+◌, ◌-◌, min, max, Bool, true, false, ◌&&◌, ◌||◌, List, [], ◌∷◌, ◌++◌, map, ltb, leb,
  if◌then◌else◌, filter, sum_by,
}
use apex_ray.Base.Sort.{sorted}

abbrev pub LineRange : Type 0
LineRange = ℕ × ℕ

-- The order of Python's tuples.
abbrev pub range_le : LineRange → LineRange → Bool
range_le (a, b) (c, d) = ltb a c || (leb a c && leb b d)

-- `start > 0 and end > 0`
abbrev pub is_positive : LineRange → Bool
is_positive (start, end) = ltb 0 start && ltb 0 end

-- `(min(start, end), max(start, end))`
abbrev pub normalized : LineRange → LineRange
normalized (start, end) = (min start end, max start end)

-- The loop of `merge_line_ranges`, where `previous` is `merged[-1]` and what stands before it is final.
merge_from : LineRange → List LineRange → List LineRange
merge_from previous [] = previous ∷ []
merge_from previous (r ∷ rest) = elim (leb r.0 (previous.1 + 1)) [
  | true ↦ merge_from (previous.0, max previous.1 r.1) rest
  | false ↦ previous ∷ merge_from r rest
]

abbrev merge_ordered : List LineRange → List LineRange
merge_ordered [] = []
merge_ordered (r ∷ rest) = merge_from r rest

pub merge_line_ranges : List LineRange → List LineRange
unfolding sorted merge_from
merge_line_ranges ranges =
    merge_ordered (sorted range_le (map normalized (filter is_positive ranges)))

-- `max(0, end - start + 1)`, which subtraction on ℕ gives.
pub line_range_count : List LineRange → ℕ
line_range_count = sum_by (λ r. r.1 + 1 - r.0)

-- What one covered range leaves of one fragment.
cut : LineRange → LineRange → List LineRange
cut (covered_start, covered_end) (fragment_start, fragment_end) =
    if ltb covered_end fragment_start || ltb fragment_end covered_start
    then (fragment_start, fragment_end) ∷ []
    else (if ltb fragment_start covered_start then (fragment_start, covered_start - 1) ∷ [] else [])
      ++ (if ltb covered_end fragment_end then (covered_end + 1, fragment_end) ∷ [] else [])

cut_all : LineRange → List LineRange → List LineRange
unfolding cut
cut_all covered [] = []
cut_all covered (fragment ∷ rest) = cut covered fragment ++ cut_all covered rest

-- The loop over `covered_ranges`, with its early `break`.
fragments_left : List LineRange → List LineRange → List LineRange
unfolding cut_all
fragments_left [] fragments = fragments
fragments_left (covered ∷ rest) fragments = elim (cut_all covered fragments) [
  | [] ↦ []
  | f ∷ fs ↦ fragments_left rest (f ∷ fs)
]

remaining_of : List LineRange → List LineRange → List LineRange
unfolding fragments_left
remaining_of [] covered_ranges = []
remaining_of (r ∷ ranges) covered_ranges =
    fragments_left covered_ranges (r ∷ []) ++ remaining_of ranges covered_ranges

pub subtract_line_ranges : List LineRange → List LineRange → List LineRange
unfolding remaining_of merge_line_ranges
subtract_line_ranges ranges covered_ranges = merge_line_ranges (remaining_of ranges covered_ranges)
