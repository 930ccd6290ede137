-- ===== src/Risk/Anchor.antt =====
-- Where an anchor lies.
use apex_ray.Base.{
  ℕ, zero, suc, ◌+◌, ◌≤◌, ◌<◌, ◌≡◌, refl, subst, inl, inr, Option, none, some, List, [], ◌∷◌, arith,
  take, drop, length, All, All-append, Option-cases,
}
use apex_ray.Base.Distinct.{All-drop}
use apex_ray.Models.{DiffLine, DiffLineKind, context, add, delete, ChangedHunk}
use apex_ray.Diff.Count.{IsNumbered, HunkIsNumbered, IsAt, count_in, old_width, new_width}
use apex_ray.Risk.{first_new_line, backwards, line_at, or_else, or_start, current_line_anchor}

-- A number of a line in the current file, if there is one, lies between the bounds.
abbrev Within : ℕ → ℕ → Option ℕ → Type 0
Within a b none = Unit
Within a b (some n) = (a ≤ n) × (n ≤ b)

abbrev LineWithin : ℕ → ℕ → DiffLine → Type 0
LineWithin a b l = Within a b l.new_line

IsAt-Within :
    (o n a b : ℕ) (kind : DiffLineKind) (l : DiffLine)
    → IsAt o n kind l
    → a ≤ n
    → n + new_width kind ≤ b
    → LineWithin a b l
IsAt-Within o n a b context l h lo hi = rw h.1 (lo, omega (arith, hi))
IsAt-Within o n a b add l h lo hi = rw h.1 (lo, omega (arith, hi))
IsAt-Within o n a b delete l h lo hi = rw h.1 tt

IsNumbered-Within :
    (o n a b : ℕ) (ls : List DiffLine)
    → IsNumbered o n ls
    → a ≤ n
    → n + count_in new_width ls ≤ b
    → All (LineWithin a b) ls
IsNumbered-Within o n a b [] h lo hi = tt
IsNumbered-Within o n a b (l ∷ ls) h lo hi = (
  IsAt-Within o n a b l.kind l h.0 lo (omega (arith, hi)),
  IsNumbered-Within (o + old_width l.kind) (n + new_width l.kind) a b ls h.1 (omega (arith, lo))
      (omega (arith, hi)),
)

All-take : (P : DiffLine → Type 0) (n : ℕ) (ls : List DiffLine) → All P ls → All P (take n ls)
All-take P zero ls h = tt
All-take P (suc n) [] h = tt
All-take P (suc n) (l ∷ ls) h = (h.0, All-take P n ls h.1)

All-backwards : (P : DiffLine → Type 0) (ls : List DiffLine) → All P ls → All P (backwards ls)
All-backwards P [] h = tt
All-backwards P (l ∷ ls) h = All-append P (backwards ls) (l ∷ []) (All-backwards P ls h.1) (h.0, tt)

first_new_line-Within :
    (a b : ℕ) (ls : List DiffLine) → All (LineWithin a b) ls → Within a b (first_new_line ls)
unfolding first_new_line
first_new_line-Within a b [] h = tt
first_new_line-Within a b (l ∷ ls) h = elim (Option-cases l.new_line) [
  | inl e ↦ rw (first_new_line, e) (first_new_line-Within a b ls h.1)
  | inr (n, e) ↦ let w : Within a b (some n) = subst (Within a b) e h.0 in rw (first_new_line, e) w
]

or_else-Within : (a b : ℕ) (x y : Option ℕ) → Within a b x → Within a b y → Within a b (or_else x y)
or_else-Within a b none y hx hy = hy
or_else-Within a b (some n) y hx hy = hx

or_start-Within :
    (a b start : ℕ) (x : Option ℕ)
    → Within a b x
    → Within a b (some start)
    → Within a b (some (or_start x start))
or_start-Within a b start none hx hs = hs
or_start-Within a b start (some n) hx hs = hx

line_at-All :
    (P : DiffLine → Type 0) (n : ℕ) (ls : List DiffLine)
    → All P ls
    → n < length ls
    → (l : DiffLine) × (line_at n ls ≡ some l) × P l
unfolding line_at
line_at-All P n [] h k = absurd (omega (arith, k))
line_at-All P zero (l ∷ ls) h k = (l, refl, h.0)
line_at-All P (suc n) (l ∷ ls) h k = line_at-All P n ls h.1 (omega (arith, k))

-- In a hunk whose lines are numbered as its header says, every line has an anchor, and it lies within the
-- lines that the hunk holds of the current file, or at most one line behind them.
pub current_line_anchor-Within :
    (hunk : ChangedHunk) (index : ℕ)
    → HunkIsNumbered hunk
    → index < length hunk.lines
    → (anchor : ℕ) × (current_line_anchor hunk index ≡ some anchor)
      × (hunk.new_start ≤ anchor)
      × (anchor ≤ hunk.new_start + count_in new_width hunk.lines)
unfolding current_line_anchor
current_line_anchor-Within hunk index numbered inside =
    let a : ℕ = hunk.new_start in
    let b : ℕ = hunk.new_start + count_in new_width hunk.lines in
    let all =
      IsNumbered-Within hunk.old_start hunk.new_start a b hunk.lines numbered (omega arith)
        (omega arith) in
    let found = line_at-All (LineWithin a b) index hunk.lines all inside in
    let after =
      first_new_line-Within a b (drop (suc index) hunk.lines)
        (All-drop (LineWithin a b) (suc index) hunk.lines all) in
    let before = first_new_line-Within a b (backwards (take index hunk.lines)) (
      All-backwards (LineWithin a b) (take index hunk.lines)
        (All-take (LineWithin a b) index hunk.lines all)) in
    let near = or_else-Within a b _ _ after before in
    let chosen =
      or_start-Within a b a _ (or_else-Within a b found.0.new_line _ found.2 near)
        (omega arith, omega arith) in
    (_, rw (found.1, current_line_anchor) refl, chosen.0, chosen.1)
