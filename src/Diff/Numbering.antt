-- ===== src/Diff/Numbering.antt =====
-- The parser's invariant: in every file the counts are those of its hunks, and the lines of each hunk are
-- numbered as its header says.
use native.Mathlib.Nat.{add-zero}
use apex_ray.Base.Text.{is_blank}
use apex_ray.Base.{
  ℕ, ◌+◌, ◌≡◌, refl, sym, ap, subst, ◌∙◌, inl, inr, String, Bool, true, false, Option, none, some,
  List, [], ◌∷◌, ◌++◌, arith, if◌then◌else◌, All, All-append, Bool-cases, Option-cases,
}
use apex_ray.Models.{TargetMode, DiffLine, ChangedHunk, ChangedFile}
use apex_ray.Diff.{
  ParseState, HunkHeader, HunkLine, addition, deletion, unchanged, no_newline_note, unrecognized,
  added_line, deleted_line, context_line, file_mode_line, marker_line, match_hunk, match_header,
  hunk_line, apply_hunk_line, start_hunk, new_hunk, parse_file_line, parse_line, parse_lines,
  parse_start, add_line, finished, parse_unified_diff,
}
use apex_ray.Diff.Count.{
  adds, deletes, count_hunks, count_in, HunkIsNumbered, IsAt, LastEndsAt, sum_by-append,
  add_line-IsNumbered, add_line-LastEndsAt, count_hunks-add_line, snoc-LastEndsAt,
}

-- What the parser promises of a file.
pub record IsCounted (f : ChangedFile) : Type 0 where
  pub additions : f.additions ≡ count_hunks adds f.hunks
  pub deletions : f.deletions ≡ count_hunks deletes f.hunks
  pub numbered : All HunkIsNumbered f.hunks

-- In a hunk, the two counters stand behind the last line of the file's last hunk.
pub record IsCurrent (st : ParseState) (f : ChangedFile) : Type 0 where
  pub counted : IsCounted f
  pub at : st.in_hunk ≡ true → LastEndsAt st.old_line st.new_line f.hunks

abbrev CurrentIsValid : ParseState → Option ChangedFile → Type 0
CurrentIsValid st none = Unit
CurrentIsValid st (some f) = IsCurrent st f

pub record IsValid (st : ParseState) : Type 0 where
  pub done : All IsCounted st.files
  pub current : CurrentIsValid st st.current_file

-- The lines before the hunks change neither hunks nor counts.
record SameHunks (f g : ChangedFile) : Type 0 where
  hunks : g.hunks ≡ f.hunks
  additions : g.additions ≡ f.additions
  deletions : g.deletions ≡ f.deletions

file_mode_line-SameHunks :
    (f g : ChangedFile) (line : String) → file_mode_line f line ≡ some g → SameHunks f g
unfolding file_mode_line
file_mode_line-SameHunks f g line e = ground arith

marker_line-SameHunks :
    (f g : ChangedFile) (line : String) → marker_line f line ≡ some g → SameHunks f g
unfolding marker_line
marker_line-SameHunks f g line e = ground arith

SameHunks-IsCounted : (f g : ChangedFile) → SameHunks f g → IsCounted f → IsCounted g
SameHunks-IsCounted f g s c = record {
  additions = s.additions ∙ c.additions ∙ ap (count_hunks adds) (sym s.hunks);
  deletions = s.deletions ∙ c.deletions ∙ ap (count_hunks deletes) (sym s.hunks);
  numbered = rw s.hunks c.numbered;
}

-- Changing the file and nothing else of the state.
changed-IsValid :
    (st : ParseState) (f g : ChangedFile)
    → IsValid st
    → IsCurrent st f
    → SameHunks f g
    → IsValid (record st { current_file = some g })
changed-IsValid st f g v c s = record {
  done = v.done;
  current = record { counted = SameHunks-IsCounted f g s c.counted; at = λ e. rw s.hunks (c.at e) };
}

snoc-IsCounted :
    (f : ChangedFile) (h : HunkHeader)
    → IsCounted f
    → IsCounted (record f { hunks = f.hunks ++ new_hunk h ∷ [] })
snoc-IsCounted f h c = record {
  additions = omega (
    arith,
    c.additions,
    sum_by-append (λ (k : ChangedHunk). count_in adds k.lines) f.hunks (new_hunk h ∷ []),
  );
  deletions = omega (
    arith,
    c.deletions,
    sum_by-append (λ (k : ChangedHunk). count_in deletes k.lines) f.hunks (new_hunk h ∷ []),
  );
  numbered = All-append HunkIsNumbered f.hunks (new_hunk h ∷ []) c.numbered (tt, tt);
}

start_hunk-IsValid :
    (st : ParseState) (f : ChangedFile) (h : HunkHeader)
    → IsValid st
    → IsCurrent st f
    → IsValid (start_hunk st f h)
start_hunk-IsValid st f h v c = record {
  done = v.done;
  current = record { counted = snoc-IsCounted f h c.counted; at = λ e. snoc-LastEndsAt f.hunks h };
}

-- The file with one more line in its last hunk, counted in `a` and `d`.
grown-IsCounted :
    (o n : ℕ) (f : ChangedFile) (l : DiffLine) (a d : ℕ)
    → IsCounted f
    → LastEndsAt o n f.hunks
    → IsAt o n l.kind l
    → a ≡ f.additions + adds l.kind
    → d ≡ f.deletions + deletes l.kind
    → IsCounted (record f { hunks = add_line l f.hunks; additions = a; deletions = d })
grown-IsCounted o n f l a d c ends place ea ed = record {
  additions = omega (arith, c.additions, count_hunks-add_line adds o n f.hunks l ends);
  deletions = omega (arith, c.deletions, count_hunks-add_line deletes o n f.hunks l ends);
  numbered = add_line-IsNumbered o n f.hunks l c.numbered ends place;
}

apply_hunk_line-IsValid :
    (st : ParseState) (f : ChangedFile) (line : String) (l : HunkLine)
    → st.in_hunk ≡ true
    → IsValid st
    → st.current_file ≡ some f
    → IsCurrent st f
    → IsValid (apply_hunk_line st f line l)
unfolding apply_hunk_line
apply_hunk_line-IsValid st f line (addition content) i v e c =
    let o : ℕ = st.old_line in
    let n : ℕ = st.new_line in
    let l = added_line content n in
    record {
      done = v.done;
      current = record {
        counted =
            grown-IsCounted o n f l (f.additions + 1) f.deletions c.counted (c.at i) (refl, refl)
              refl (omega arith);
        at = λ _. rw (← add-zero o) (add_line-LastEndsAt o n f.hunks l (c.at i));
      };
    }
apply_hunk_line-IsValid st f line (deletion content) i v e c =
    let o : ℕ = st.old_line in
    let n : ℕ = st.new_line in
    let l = deleted_line content o in
    record {
      done = v.done;
      current = record {
        counted =
            grown-IsCounted o n f l f.additions (f.deletions + 1) c.counted (c.at i) (refl, refl)
              (omega arith) refl;
        at = λ _. rw (← add-zero n) (add_line-LastEndsAt o n f.hunks l (c.at i));
      };
    }
apply_hunk_line-IsValid st f line (unchanged content) i v e c =
    let o : ℕ = st.old_line in
    let n : ℕ = st.new_line in
    let l = context_line content o n in
    record {
      done = v.done;
      current = record {
        counted =
            grown-IsCounted o n f l f.additions f.deletions c.counted (c.at i) (refl, refl)
              (omega arith) (omega arith);
        at = λ _. add_line-LastEndsAt o n f.hunks l (c.at i);
      };
    }
apply_hunk_line-IsValid st f line no_newline_note i v e c = v
apply_hunk_line-IsValid st f line unrecognized i v e c = record {
  done = v.done;
  current = rw e (record { counted = c.counted; at = c.at });
}

if-IsValid :
    (b : Bool) (x y : ParseState)
    → (b ≡ true → IsValid x)
    → IsValid y
    → IsValid (if b then x else y)
if-IsValid true x y vx vy = vx refl
if-IsValid false x y vx vy = vy

body-IsValid :
    (st : ParseState) (f : ChangedFile) (line : String)
    → IsValid st
    → st.current_file ≡ some f
    → IsCurrent st f
    → IsValid (if st.in_hunk then apply_hunk_line st f line (hunk_line line) else st)
body-IsValid st f line v e c =
    if-IsValid st.in_hunk (apply_hunk_line st f line (hunk_line line)) st
      (λ i. apply_hunk_line-IsValid st f line (hunk_line line) i v e c) v

-- The chain of tests behind the file header.
parse_file_line-IsValid :
    (st : ParseState) (f : ChangedFile) (line : String)
    → IsValid st
    → st.current_file ≡ some f
    → IsCurrent st f
    → IsValid (parse_file_line st f line)
unfolding parse_file_line
parse_file_line-IsValid st f line v e c = elim (Option-cases (file_mode_line f line)) [
  | inr (g, mode) ↦
      rw (mode, parse_file_line)
        (changed-IsValid st f g v c (file_mode_line-SameHunks f g line mode))
  | inl no_mode ↦ elim (Bool-cases st.in_hunk) [
    | inl inside ↦ elim (Option-cases (match_hunk line)) [
      | inr (h, header) ↦
          rw (no_mode, inside, header, parse_file_line) (start_hunk-IsValid st f h v c)
      | inl no_header ↦
          rw (no_mode, inside, no_header, parse_file_line) (body-IsValid st f line v e c)
    ]
    | inr outside ↦ elim (Option-cases (marker_line f line)) [
      | inr (g, marker) ↦
          rw (no_mode, outside, marker, parse_file_line)
            (changed-IsValid st f g v c (marker_line-SameHunks f g line marker))
      | inl no_marker ↦ elim (Option-cases (match_hunk line)) [
        | inr (h, header) ↦
            rw (no_mode, outside, no_marker, header, parse_file_line)
              (start_hunk-IsValid st f h v c)
        | inl no_header ↦
            rw (no_mode, outside, no_marker, no_header, parse_file_line)
              (body-IsValid st f line v e c)
      ]
    ]
  ]
]

finished-IsCounted : (st : ParseState) → IsValid st → All IsCounted (finished st)
finished-IsCounted st v = elim (Option-cases st.current_file) [
  | inl e ↦ rw e v.done
  | inr (f, e) ↦
      let c : IsCurrent st f = subst (CurrentIsValid st) e v.current in
      rw e (All-append IsCounted st.files (f ∷ []) v.done (c.counted, tt))
]

parse_line-IsValid : (st : ParseState) (line : String) → IsValid st → IsValid (parse_line st line)
unfolding parse_line
parse_line-IsValid st line v = elim (Option-cases (match_header line)) [
  | inr (paths, header) ↦
      rw (header, parse_line)
        (record {
          done = finished-IsCounted st v;
          current = record {
            counted = record { additions = refl; deletions = refl; numbered = tt };
            at = λ e. cc;
          };
        })
  | inl no_header ↦ elim (Option-cases st.current_file) [
    | inr (f, e) ↦
        rw (no_header, e, parse_line)
          (parse_file_line-IsValid st f line v e (subst (CurrentIsValid st) e v.current))
    | inl e ↦ elim (Bool-cases (is_blank line)) [
      | inl blank ↦ rw (no_header, e, parse_line, blank) v
      | inr text ↦ rw (no_header, e, parse_line, text) (record { done = v.done; current = rw e tt })
    ]
  ]
]

parse_lines-IsValid :
    (st : ParseState) (lines : List String) → IsValid st → IsValid (parse_lines st lines)
unfolding parse_lines
parse_lines-IsValid st [] v = v
parse_lines-IsValid st (line ∷ lines) v =
    parse_lines-IsValid (parse_line st line) lines (parse_line-IsValid st line v)

-- In every parsed file the counts of additions and deletions are those of the lines in its hunks, and the
-- lines of each hunk are numbered one after the other in the old file and in the new one, from the
-- starts that the hunk's header gives, whatever the input is.
pub parse_unified_diff-IsCounted :
    (lines : List String) (mode : TargetMode) (base : Option String)
    → All IsCounted (parse_unified_diff lines mode base).files
unfolding parse_unified_diff
parse_unified_diff-IsCounted lines mode base =
    let start : IsValid parse_start = record { done = tt; current = tt } in
    finished-IsCounted (parse_lines parse_start lines) (parse_lines-IsValid parse_start lines start)
