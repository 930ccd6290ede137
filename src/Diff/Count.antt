-- ===== src/Diff/Count.antt =====
-- Predicates on parsed hunks: how many lines of each kind they hold, and how these are numbered.
use apex_ray.Base.{ℕ, ◌+◌, ◌≡◌, none, some, List, [], ◌∷◌, ◌++◌, arith, sum_by, All}
use apex_ray.Models.{DiffLineKind, context, add, delete, DiffLine, ChangedHunk}
use apex_ray.Diff.{add_line, new_hunk, HunkHeader}

abbrev pub adds : DiffLineKind → ℕ
adds add = 1
adds _ = 0

abbrev pub deletes : DiffLineKind → ℕ
deletes delete = 1
deletes _ = 0

-- How far a line of this kind moves in the old file, and in the new one.
abbrev pub old_width : DiffLineKind → ℕ
old_width add = 0
old_width _ = 1

abbrev pub new_width : DiffLineKind → ℕ
new_width delete = 0
new_width _ = 1

abbrev pub count_in : (DiffLineKind → ℕ) → List DiffLine → ℕ
count_in weight = sum_by (λ l. weight l.kind)

abbrev pub count_hunks : (DiffLineKind → ℕ) → List ChangedHunk → ℕ
count_hunks weight = sum_by (λ h. count_in weight h.lines)

-- The line stands at this place of the old file, of the new file, or of both, as its kind says.
abbrev pub IsAt : ℕ → ℕ → DiffLineKind → DiffLine → Type 0
IsAt o n context l = (l.old_line ≡ some o) × (l.new_line ≡ some n)
IsAt o n add l = (l.old_line ≡ none) × (l.new_line ≡ some n)
IsAt o n delete l = (l.old_line ≡ some o) × (l.new_line ≡ none)

-- The lines are numbered one after the other in both files, from `o` and from `n`.
abbrev pub IsNumbered : ℕ → ℕ → List DiffLine → Type 0
IsNumbered o n [] = Unit
IsNumbered o n (l ∷ ls) =
    IsAt o n l.kind l × IsNumbered (o + old_width l.kind) (n + new_width l.kind) ls

abbrev pub HunkIsNumbered : ChangedHunk → Type 0
HunkIsNumbered h = IsNumbered h.old_start h.new_start h.lines

-- Behind the last hunk's lines stand line `o` of the old file and line `n` of the new one.
abbrev pub LastEndsAt : ℕ → ℕ → List ChangedHunk → Type 0
LastEndsAt o n [] = ⊥
LastEndsAt o n (h ∷ []) =
    (h.old_start + count_in old_width h.lines ≡ o) × (h.new_start + count_in new_width h.lines ≡ n)
LastEndsAt o n (h ∷ g ∷ rest) = LastEndsAt o n (g ∷ rest)

pub sum_by-append {ℓ} :
    {A : Type ℓ} (f : A → ℕ) (xs ys : List A) → sum_by f (xs ++ ys) ≡ sum_by f xs + sum_by f ys
sum_by-append f [] ys = omega arith
sum_by-append f (x ∷ xs) ys = omega (arith, sum_by-append f xs ys)

IsNumbered-snoc :
    (o n o' n' : ℕ) (ls : List DiffLine) (l : DiffLine)
    → IsNumbered o n ls
    → o + count_in old_width ls ≡ o'
    → n + count_in new_width ls ≡ n'
    → IsAt o' n' l.kind l
    → IsNumbered o n (ls ++ l ∷ [])
IsNumbered-snoc o n o' n' [] l h eo en a =
    let eo' : o ≡ o' = omega arith in let en' : n ≡ n' = omega arith in (rw (eo', en') a, tt)
IsNumbered-snoc o n o' n' (k ∷ ls) l h eo en a = (
  h.0,
  IsNumbered-snoc (o + old_width k.kind) (n + new_width k.kind) o' n' ls l h.1 (omega arith)
      (omega arith) a,
)

-- Adding a line to the last hunk: the numbering goes on, and the count rises by the line's weight.
pub add_line-IsNumbered :
    (o n : ℕ) (hs : List ChangedHunk) (l : DiffLine)
    → All HunkIsNumbered hs
    → LastEndsAt o n hs
    → IsAt o n l.kind l
    → All HunkIsNumbered (add_line l hs)
unfolding add_line
add_line-IsNumbered o n [] l h e a = tt
add_line-IsNumbered o n (g ∷ []) l h e a =
    (IsNumbered-snoc g.old_start g.new_start o n g.lines l h.0 e.0 e.1 a, tt)
add_line-IsNumbered o n (g ∷ k ∷ rest) l h e a = (h.0, add_line-IsNumbered o n (k ∷ rest) l h.1 e a)

LastEndsAt-cons :
    (o n : ℕ) (g : ChangedHunk) (hs : List ChangedHunk)
    → LastEndsAt o n hs
    → LastEndsAt o n (g ∷ hs)
LastEndsAt-cons o n g [] h = absurd h
LastEndsAt-cons o n g (k ∷ rest) h = h

pub add_line-LastEndsAt :
    (o n : ℕ) (hs : List ChangedHunk) (l : DiffLine)
    → LastEndsAt o n hs
    → LastEndsAt (o + old_width l.kind) (n + new_width l.kind) (add_line l hs)
unfolding add_line
add_line-LastEndsAt o n [] l e = absurd e
add_line-LastEndsAt o n (g ∷ []) l e = (
  omega (arith, sum_by-append (λ (d : DiffLine). old_width d.kind) g.lines (l ∷ [])),
  omega (arith, sum_by-append (λ (d : DiffLine). new_width d.kind) g.lines (l ∷ [])),
)
add_line-LastEndsAt o n (g ∷ k ∷ rest) l e =
    LastEndsAt-cons (o + old_width l.kind) (n + new_width l.kind) g (add_line l (k ∷ rest))
      (add_line-LastEndsAt o n (k ∷ rest) l e)

pub count_hunks-add_line :
    (weight : DiffLineKind → ℕ) (o n : ℕ) (hs : List ChangedHunk) (l : DiffLine)
    → LastEndsAt o n hs
    → count_hunks weight (add_line l hs) ≡ count_hunks weight hs + weight l.kind
unfolding add_line
count_hunks-add_line weight o n [] l e = absurd e
count_hunks-add_line weight o n (g ∷ []) l e =
    omega (arith, sum_by-append (λ (d : DiffLine). weight d.kind) g.lines (l ∷ []))
count_hunks-add_line weight o n (g ∷ k ∷ rest) l e =
    omega (arith, count_hunks-add_line weight o n (k ∷ rest) l e)

pub snoc-LastEndsAt :
    (hs : List ChangedHunk) (h : HunkHeader)
    → LastEndsAt h.old_start h.new_start (hs ++ new_hunk h ∷ [])
snoc-LastEndsAt [] h = (omega arith, omega arith)
snoc-LastEndsAt (g ∷ hs) h =
    LastEndsAt-cons h.old_start h.new_start g (hs ++ new_hunk h ∷ []) (snoc-LastEndsAt hs h)
