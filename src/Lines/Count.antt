-- ===== src/Lines/Count.antt =====
-- `line_range_count` counts each line of merged ranges once.
use apex_ray.Base.{
  ℕ, zero, suc, ◌+◌, ◌-◌, ◌≤◌, ◌<◌, ◌≡◌, refl, Bool, List, [], ◌∷◌, arith, if◌then◌else◌, All, min,
}
use apex_ray.Lines.{LineRange, merge_line_ranges, line_range_count}
use apex_ray.Lines.Covers.{in_range, covers, IsSeparated}
use apex_ray.Lines.Canonical.{covers-below}
use apex_ray.Lines.Merge.{merge_line_ranges-IsMerged}

-- How many of the lines below `k` pass the test.
pub lines_below : ℕ → (ℕ → Bool) → ℕ
lines_below zero p = 0
lines_below (suc k) p = (if p k then 1 else 0) + lines_below k p

-- The lines of one range, and those of the ranges behind it.
one_range :
    (k : ℕ) (r : LineRange)
    → r.0 ≤ r.1
    → lines_below k (λ n. in_range n r) ≡ min (r.1 + 1) k - min r.0 k
unfolding lines_below
one_range zero r h = omega arith
one_range (suc k) r h = ground (arith, one_range k r h)

disjoint_sum :
    (k : ℕ) (r : LineRange) (rs : List LineRange)
    → IsSeparated (r.1 + 2) rs
    → lines_below k (λ n. covers n (r ∷ rs))
      ≡ lines_below k (λ n. in_range n r) + lines_below k (λ n. covers n rs)
unfolding lines_below
disjoint_sum zero r rs h = refl
disjoint_sum (suc k) r rs h = ground (arith, disjoint_sum k r rs h, covers-below (r.1 + 2) k rs h)

none_below : (k : ℕ) → lines_below k (λ n. covers n []) ≡ 0
unfolding lines_below
none_below zero = refl
none_below (suc k) = omega (arith, none_below k)

count_lem :
    (lo k : ℕ) (rs : List LineRange)
    → IsSeparated lo rs
    → All (λ r. r.1 < k) rs
    → line_range_count rs ≡ lines_below k (λ n. covers n rs)
unfolding line_range_count
count_lem lo k [] h b = omega (arith, none_below k)
count_lem lo k (r ∷ rs) h b =
    omega (arith, disjoint_sum k r rs h.2, one_range k r h.1, count_lem (r.1 + 2) k rs h.2 b.1)

-- The count of merged ranges is the number of the lines that they cover, if these lie below `k`.
pub line_range_count-merge_line_ranges :
    (k : ℕ) (ranges : List LineRange)
    → All (λ r. r.1 < k) (merge_line_ranges ranges)
    → line_range_count (merge_line_ranges ranges)
      ≡ lines_below k (λ n. covers n (merge_line_ranges ranges))
line_range_count-merge_line_ranges k ranges =
    count_lem 1 k (merge_line_ranges ranges) (merge_line_ranges-IsMerged ranges)
