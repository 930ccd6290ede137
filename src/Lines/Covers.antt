-- ===== src/Lines/Covers.antt =====
-- Which lines a list of ranges stands for.
use apex_ray.Base.{ℕ, ◌+◌, ◌≤◌, Bool, ◌&&◌, List, [], ◌∷◌, leb, any}
use apex_ray.Lines.{LineRange, is_positive, normalized}

-- Line `n` lies in the range.
abbrev pub in_range : ℕ → LineRange → Bool
in_range n (start, end) = leb start n && leb n end

-- Line `n` lies in one of the ranges.
abbrev pub covers : ℕ → List LineRange → Bool
covers n = any (in_range n)

-- Line `n` lies between the two ends, in either order, of one of the ranges that has no end at 0.
abbrev pub touches : ℕ → List LineRange → Bool
touches n = any (λ r. is_positive r && in_range n (normalized r))

-- Ranges from `lo` on, in order, none empty, and at least one line between any two.
abbrev pub IsSeparated : ℕ → List LineRange → Type 0
IsSeparated lo [] = Unit
IsSeparated lo (r ∷ rest) = (lo ≤ r.0) × (r.0 ≤ r.1) × IsSeparated (r.1 + 2) rest

-- What `merge_line_ranges` promises of its result.
abbrev pub IsMerged : List LineRange → Type 0
IsMerged = IsSeparated 1

-- A range of lines, numbered from 1.
abbrev pub IsProper : LineRange → Type 0
IsProper r = (1 ≤ r.0) × (r.0 ≤ r.1)
