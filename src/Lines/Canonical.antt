-- ===== src/Lines/Canonical.antt =====
-- Ranges in normal form are determined by their lines, so the merge depends on the lines alone.
use apex_ray.Base.{ℕ, ◌+◌, ◌≤◌, ◌<◌, ◌≡◌, refl, sym, ◌∙◌, subst, true, false, List, [], ◌∷◌, arith}
use apex_ray.Lines.{LineRange, merge_line_ranges}
use apex_ray.Lines.Covers.{covers, touches, IsSeparated}
use apex_ray.Lines.Merge.{covers-merge_line_ranges, merge_line_ranges-IsMerged}

-- A line before the first range is not covered.
pub covers-below :
    (lo n : ℕ) (rs : List LineRange) → IsSeparated lo rs → n < lo → covers n rs ≡ false
covers-below lo n [] h l = refl
covers-below lo n (r ∷ rs) h l = ground (arith, covers-below (r.1 + 2) n rs h.2)

covers-first : (r : LineRange) (rs : List LineRange) → r.0 ≤ r.1 → covers r.0 (r ∷ rs) ≡ true
covers-first r rs h = ground arith

covers-last : (r : LineRange) (rs : List LineRange) → r.0 ≤ r.1 → covers r.1 (r ∷ rs) ≡ true
covers-last r rs h = ground arith

covers-gap :
    (r : LineRange) (rs : List LineRange)
    → IsSeparated (r.1 + 2) rs
    → covers (r.1 + 1) (r ∷ rs) ≡ false
covers-gap r rs h = ground (arith, covers-below (r.1 + 2) (r.1 + 1) rs h)

-- The head of a list in normal form is the smaller range of the lines from its start on.
heads_start :
    (lo lo' : ℕ) (r s : LineRange) (rs ss : List LineRange)
    → IsSeparated lo (r ∷ rs)
    → IsSeparated lo' (s ∷ ss)
    → ((n : ℕ) → covers n (r ∷ rs) ≡ covers n (s ∷ ss))
    → s.0 ≤ r.0
heads_start lo lo' r s rs ss h k same =
    ground (
      arith,
      same r.0,
      covers-first r rs h.1,
      covers-below s.0 r.0 (s ∷ ss) (omega arith, k.1, k.2),
    )

heads_end :
    (lo lo' : ℕ) (r s : LineRange) (rs ss : List LineRange)
    → IsSeparated lo (r ∷ rs)
    → IsSeparated lo' (s ∷ ss)
    → r.0 ≡ s.0
    → ((n : ℕ) → covers n (r ∷ rs) ≡ covers n (s ∷ ss))
    → r.1 ≤ s.1
heads_end lo lo' r s rs ss h k e same = ground (arith, same (s.1 + 1), covers-gap s ss k.2)

tails_agree :
    (n : ℕ) (r : LineRange) (rs ss : List LineRange)
    → IsSeparated (r.1 + 2) rs
    → IsSeparated (r.1 + 2) ss
    → covers n (r ∷ rs) ≡ covers n (r ∷ ss)
    → covers n rs ≡ covers n ss
tails_agree n r rs ss h k same =
    ground (arith, covers-below (r.1 + 2) n rs h, covers-below (r.1 + 2) n ss k)

heads_agree :
    (lo lo' : ℕ) (r s : LineRange) (rs ss : List LineRange)
    → IsSeparated lo (r ∷ rs)
    → IsSeparated lo' (s ∷ ss)
    → ((n : ℕ) → covers n (r ∷ rs) ≡ covers n (s ∷ ss))
    → r ≡ s
heads_agree lo lo' r s rs ss h k same =
    let starts : r.0 ≡ s.0 = omega (
      arith,
      heads_start lo lo' r s rs ss h k same,
      heads_start lo' lo s r ss rs k h (λ n. sym (same n)),
    ) in
    let ends : r.1 ≡ s.1 = omega (
      arith,
      heads_end lo lo' r s rs ss h k starts same,
      heads_end lo' lo s r ss rs k h (sym starts) (λ n. sym (same n)),
    ) in
    cc

IsSeparated-ext :
    (lo lo' : ℕ) (rs ss : List LineRange)
    → IsSeparated lo rs
    → IsSeparated lo' ss
    → ((n : ℕ) → covers n rs ≡ covers n ss)
    → rs ≡ ss
IsSeparated-ext lo lo' [] [] h k same = refl
IsSeparated-ext lo lo' [] (s ∷ ss) h k same = cc (same s.0, covers-first s ss k.1)
IsSeparated-ext lo lo' (r ∷ rs) [] h k same = cc (same r.0, covers-first r rs h.1)
IsSeparated-ext lo lo' (r ∷ rs) (s ∷ ss) h k same =
    let e : r ≡ s = heads_agree lo lo' r s rs ss h k same in
    let k' : IsSeparated (r.1 + 2) ss =
      subst (λ (t : LineRange). IsSeparated (t.1 + 2) ss) (sym e) k.2 in
    cc (
      e,
      IsSeparated-ext (r.1 + 2) (r.1 + 2) rs ss h.2 k'
          (λ n. tails_agree n r rs ss h.2 k' (rw e (rw e at (same n)))),
    )

-- Two lists of ranges that touch the same lines have the same merge: the order of the ranges, their
-- overlaps and the order of their ends do not matter.
pub merge_line_ranges-canonical :
    (xs ys : List LineRange)
    → ((n : ℕ) → touches n xs ≡ touches n ys)
    → merge_line_ranges xs ≡ merge_line_ranges ys
merge_line_ranges-canonical xs ys same =
    IsSeparated-ext 1 1 _ _ (merge_line_ranges-IsMerged xs) (merge_line_ranges-IsMerged ys)
      (λ n. covers-merge_line_ranges n xs ∙ same n ∙ sym (covers-merge_line_ranges n ys))
