-- ===== src/Lines/Merge.antt =====
-- `merge_line_ranges` keeps the set of lines, and its result is in normal form.
use apex_ray.Base.{
  ℕ, ◌+◌, ◌≤◌, max, ◌≡◌, refl, ◌∙◌, inl, inr, true, false, ◌||◌, List, [], ◌∷◌, map, arith, leb,
  filter, All, Bool-cases,
}
use apex_ray.Base.Sort.{sorted, IsSorted, sorted-IsSorted, any-sorted, All-sorted}
use apex_ray.Lines.{
  LineRange, range_le, is_positive, normalized, merge_from, merge_ordered, merge_line_ranges,
}
use apex_ray.Lines.Covers.{in_range, covers, touches, IsSeparated, IsMerged, IsProper}

range_le_total : (a b : LineRange) → range_le a b ≡ false → range_le b a ≡ true
range_le_total a b h = ground arith

range_le_trans :
    (a b c : LineRange) → range_le a b ≡ true → range_le b c ≡ true → range_le a c ≡ true
range_le_trans a b c h k = ground arith

range_le→le : (a b : LineRange) → range_le a b ≡ true → a.0 ≤ b.0
range_le→le a b h = ground arith

-- The ranges still to be merged start at `lo` or later.
abbrev Starts : ℕ → List LineRange → Type 0
Starts lo = All (λ r. lo ≤ r.0)

Starts-sorted :
    (r : LineRange) (rest : List LineRange) → All (λ s. range_le r s ≡ true) rest → Starts r.0 rest
Starts-sorted r [] h = tt
Starts-sorted r (s ∷ rest) h = (range_le→le r s h.0, Starts-sorted r rest h.1)

in_range-join :
    (n : ℕ) (p r : LineRange)
    → p.0 ≤ p.1
    → p.0 ≤ r.0
    → r.0 ≤ p.1 + 1
    → in_range n (p.0, max p.1 r.1) ≡ in_range n p || in_range n r
in_range-join n p r h k j = ground arith

covers-merge_from :
    (n : ℕ) (p : LineRange) (rest : List LineRange)
    → IsProper p
    → All IsProper rest
    → Starts p.0 rest
    → IsSorted range_le rest
    → covers n (merge_from p rest) ≡ in_range n p || covers n rest
unfolding merge_from
covers-merge_from n p [] hp h s o = refl
covers-merge_from n p (r ∷ rest) hp h s o = elim (Bool-cases (leb r.0 (p.1 + 1))) [
  | inl e ↦
      let near : r.0 ≤ p.1 + 1 = ground arith in
      rw (e, merge_from)
        (ground (
          arith,
          in_range-join n p r hp.1 s.0 near,
          covers-merge_from n (p.0, max p.1 r.1) rest (omega arith) h.1 s.1 o.1,
        ))
  | inr e ↦
      rw (e, merge_from)
        (ground (arith, covers-merge_from n r rest h.0 h.1 (Starts-sorted r rest o.0) o.1))
]

merge_from-IsSeparated :
    (lo : ℕ) (p : LineRange) (rest : List LineRange)
    → lo ≤ p.0
    → IsProper p
    → All IsProper rest
    → Starts p.0 rest
    → IsSorted range_le rest
    → IsSeparated lo (merge_from p rest)
unfolding merge_from
merge_from-IsSeparated lo p [] l hp h s o = (l, hp.1, tt)
merge_from-IsSeparated lo p (r ∷ rest) l hp h s o = elim (Bool-cases (leb r.0 (p.1 + 1))) [
  | inl e ↦
      rw (e, merge_from)
        (merge_from-IsSeparated lo (p.0, max p.1 r.1) rest l (omega arith) h.1 s.1 o.1)
  | inr e ↦
      let far : p.1 + 2 ≤ r.0 = ground arith in
      rw (e, merge_from)
        (
          l,
          hp.1,
          merge_from-IsSeparated (p.1 + 2) r rest far h.0 h.1 (Starts-sorted r rest o.0) o.1,
        )
]

-- What the merge loop is given.
prepared-IsProper : (rs : List LineRange) → All IsProper (map normalized (filter is_positive rs))
prepared-IsProper [] = tt
prepared-IsProper (r ∷ rs) = elim (Bool-cases (is_positive r)) [
  | inl e ↦ rw e (ground arith, prepared-IsProper rs)
  | inr e ↦ rw e (prepared-IsProper rs)
]

covers-prepared :
    (n : ℕ) (rs : List LineRange) → covers n (map normalized (filter is_positive rs)) ≡ touches n rs
covers-prepared n [] = refl
covers-prepared n (r ∷ rs) = elim (Bool-cases (is_positive r)) [
  | inl e ↦ rw e (rw (covers-prepared n rs))
  | inr e ↦ rw e (covers-prepared n rs)
]

covers-merge_ordered :
    (n : ℕ) (rs : List LineRange)
    → All IsProper rs
    → IsSorted range_le rs
    → covers n (merge_ordered rs) ≡ covers n rs
covers-merge_ordered n [] h o = refl
covers-merge_ordered n (r ∷ rest) h o =
    covers-merge_from n r rest h.0 h.1 (Starts-sorted r rest o.0) o.1

merge_ordered-IsMerged :
    (rs : List LineRange) → All IsProper rs → IsSorted range_le rs → IsMerged (merge_ordered rs)
merge_ordered-IsMerged [] h o = tt
merge_ordered-IsMerged (r ∷ rest) h o =
    merge_from-IsSeparated 1 r rest h.0.0 h.0 h.1 (Starts-sorted r rest o.0) o.1

-- A line lies in the merged ranges exactly if it lies between the ends of a given range, in either
-- order, neither of whose ends is 0.
pub covers-merge_line_ranges :
    (n : ℕ) (ranges : List LineRange) → covers n (merge_line_ranges ranges) ≡ touches n ranges
unfolding merge_line_ranges
covers-merge_line_ranges n ranges =
    let given = map normalized (filter is_positive ranges) in
    covers-merge_ordered n (sorted range_le given)
      (All-sorted range_le IsProper given (prepared-IsProper ranges))
      (sorted-IsSorted range_le range_le_total range_le_trans given)
    ∙ any-sorted range_le (in_range n) given
    ∙ covers-prepared n ranges

-- The merged ranges are in order, none is empty, they start at line 1 at the earliest, and between any
-- two of them at least one line is left out.
pub merge_line_ranges-IsMerged : (ranges : List LineRange) → IsMerged (merge_line_ranges ranges)
unfolding merge_line_ranges
merge_line_ranges-IsMerged ranges =
    let given = map normalized (filter is_positive ranges) in
    merge_ordered-IsMerged (sorted range_le given)
      (All-sorted range_le IsProper given (prepared-IsProper ranges))
      (sorted-IsSorted range_le range_le_total range_le_trans given)
