-- ===== src/Lines/Subtract.antt =====
-- `subtract_line_ranges` is the difference of the sets of lines.
use apex_ray.Base.{ℕ, ◌≡◌, refl, ◌∙◌, not, ◌&&◌, List, [], ◌∷◌, arith, All, any-append, All-append}
use apex_ray.Lines.{LineRange, cut, cut_all, fragments_left, remaining_of, subtract_line_ranges}
use apex_ray.Lines.Covers.{in_range, covers, touches, IsProper}
use apex_ray.Lines.Merge.{covers-merge_line_ranges}

covers-cut :
    (n : ℕ) (c f : LineRange) → IsProper f → covers n (cut c f) ≡ in_range n f && not (in_range n c)
unfolding cut
covers-cut n c f h = ground arith

cut-IsProper : (c f : LineRange) → IsProper f → All IsProper (cut c f)
unfolding cut
cut-IsProper c f h = ground arith

covers-cut_all :
    (n : ℕ) (c : LineRange) (fs : List LineRange)
    → All IsProper fs
    → covers n (cut_all c fs) ≡ covers n fs && not (in_range n c)
unfolding cut_all
covers-cut_all n c [] h = refl
covers-cut_all n c (f ∷ fs) h =
    any-append (in_range n) (cut c f) (cut_all c fs)
    ∙ ground (arith, covers-cut n c f h.0, covers-cut_all n c fs h.1)

cut_all-IsProper :
    (c : LineRange) (fs : List LineRange) → All IsProper fs → All IsProper (cut_all c fs)
unfolding cut_all
cut_all-IsProper c [] h = tt
cut_all-IsProper c (f ∷ fs) h =
    All-append IsProper (cut c f) (cut_all c fs) (cut-IsProper c f h.0) (cut_all-IsProper c fs h.1)

fragments_left-nil : (cs : List LineRange) → fragments_left cs [] ≡ []
unfolding fragments_left
fragments_left-nil [] = refl
fragments_left-nil (c ∷ cs) = refl

-- The early `break` changes nothing.
fragments_left-cons :
    (c : LineRange) (cs fs : List LineRange)
    → fragments_left (c ∷ cs) fs ≡ fragments_left cs (cut_all c fs)
unfolding fragments_left
fragments_left-cons c cs fs = ground (arith, fragments_left-nil cs)

covers-fragments_left :
    (n : ℕ) (cs fs : List LineRange)
    → All IsProper fs
    → covers n (fragments_left cs fs) ≡ covers n fs && not (covers n cs)
covers-fragments_left n [] fs h = unfold fragments_left in ground arith
covers-fragments_left n (c ∷ cs) fs h = rw (fragments_left-cons c cs fs) (
    covers-fragments_left n cs (cut_all c fs) (cut_all-IsProper c fs h)
    ∙ ground (arith, covers-cut_all n c fs h))

fragments_left-IsProper :
    (cs fs : List LineRange) → All IsProper fs → All IsProper (fragments_left cs fs)
fragments_left-IsProper [] fs h = unfold fragments_left in h
fragments_left-IsProper (c ∷ cs) fs h =
    rw (fragments_left-cons c cs fs)
      (fragments_left-IsProper cs (cut_all c fs) (cut_all-IsProper c fs h))

covers-remaining_of :
    (n : ℕ) (rs cs : List LineRange)
    → All IsProper rs
    → covers n (remaining_of rs cs) ≡ covers n rs && not (covers n cs)
unfolding remaining_of
covers-remaining_of n [] cs h = refl
covers-remaining_of n (r ∷ rs) cs h =
    any-append (in_range n) (fragments_left cs (r ∷ [])) (remaining_of rs cs)
    ∙ ground (arith, covers-fragments_left n cs (r ∷ []) (h.0, tt), covers-remaining_of n rs cs h.1)

remaining_of-IsProper :
    (rs cs : List LineRange) → All IsProper rs → All IsProper (remaining_of rs cs)
unfolding remaining_of
remaining_of-IsProper [] cs h = tt
remaining_of-IsProper (r ∷ rs) cs h =
    All-append IsProper (fragments_left cs (r ∷ [])) (remaining_of rs cs)
      (fragments_left-IsProper cs (r ∷ []) (h.0, tt)) (remaining_of-IsProper rs cs h.1)

-- Proper ranges are untouched by the normalising step of the merge.
touches-eq-covers : (n : ℕ) (rs : List LineRange) → All IsProper rs → touches n rs ≡ covers n rs
touches-eq-covers n [] h = refl
touches-eq-covers n (r ∷ rs) h = ground (arith, touches-eq-covers n rs h.1)

-- Of ranges that start at line 1 or later and are not empty, exactly those lines are left that no covered
-- range holds, whatever the covered ranges are: overlapping, adjacent, empty or out of order.
pub covers-subtract_line_ranges :
    (n : ℕ) (ranges covered_ranges : List LineRange)
    → All IsProper ranges
    → covers n (subtract_line_ranges ranges covered_ranges)
      ≡ covers n ranges && not (covers n covered_ranges)
unfolding subtract_line_ranges
covers-subtract_line_ranges n ranges covered_ranges h =
    covers-merge_line_ranges n (remaining_of ranges covered_ranges)
    ∙ touches-eq-covers n _ (remaining_of-IsProper ranges covered_ranges h)
    ∙ covers-remaining_of n ranges covered_ranges h
