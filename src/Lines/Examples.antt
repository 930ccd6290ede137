-- ===== src/Lines/Examples.antt =====
-- The operations on small ranges, and the theorems at concrete inputs.
use apex_ray.Base.{ℕ, ◌≡◌, refl, not, ◌&&◌, List, [], ◌∷◌, arith}
use apex_ray.Lines.{LineRange, merge_line_ranges, line_range_count, subtract_line_ranges}
use apex_ray.Lines.Covers.{covers, touches, IsMerged}
use apex_ray.Lines.Merge.{covers-merge_line_ranges, merge_line_ranges-IsMerged}
use apex_ray.Lines.Canonical.{merge_line_ranges-canonical}
use apex_ray.Lines.Count.{lines_below, line_range_count-merge_line_ranges}
use apex_ray.Lines.Subtract.{covers-subtract_line_ranges}

abbrev scattered : List LineRange
scattered = (12, 9) ∷ (0, 4) ∷ (1, 3) ∷ (4, 5) ∷ (20, 20) ∷ []

abbrev twice_scattered : List LineRange
twice_scattered = (12, 9) ∷ (12, 9) ∷ (0, 4) ∷ (1, 3) ∷ (4, 5) ∷ (20, 20) ∷ []

abbrev whole : List LineRange
whole = (1, 30) ∷ (40, 45) ∷ []

scattered_merged : merge_line_ranges scattered ≡ (1, 5) ∷ (9, 12) ∷ (20, 20) ∷ []
unfolding merge_line_ranges
scattered_merged = refl

whole_minus_scattered :
    subtract_line_ranges whole ((9, 12) ∷ (29, 40) ∷ []) ≡ (1, 8) ∷ (13, 28) ∷ (41, 45) ∷ []
unfolding subtract_line_ranges
whole_minus_scattered = refl

covers-merge_line_ranges_example : covers 10 (merge_line_ranges scattered) ≡ touches 10 scattered
covers-merge_line_ranges_example = covers-merge_line_ranges 10 scattered

merge_line_ranges-IsMerged_example : IsMerged (merge_line_ranges scattered)
merge_line_ranges-IsMerged_example = merge_line_ranges-IsMerged scattered

touches_twice : (n : ℕ) → touches n scattered ≡ touches n twice_scattered
touches_twice n = ground arith

merge_line_ranges-canonical_example :
    merge_line_ranges scattered ≡ merge_line_ranges twice_scattered
merge_line_ranges-canonical_example =
    merge_line_ranges-canonical scattered twice_scattered touches_twice

line_range_count-merge_line_ranges_example :
    line_range_count (merge_line_ranges scattered)
    ≡ lines_below 30 (λ n. covers n (merge_line_ranges scattered))
unfolding merge_line_ranges
line_range_count-merge_line_ranges_example =
    line_range_count-merge_line_ranges 30 scattered (omega arith)

covers-subtract_line_ranges_example :
    covers 10 (subtract_line_ranges whole scattered) ≡ covers 10 whole && not (covers 10 scattered)
covers-subtract_line_ranges_example = covers-subtract_line_ranges 10 whole scattered (omega arith)
