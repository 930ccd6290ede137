-- ===== src/Diff/Files.antt =====
-- The statistics of a parsed diff.
use apex_ray.Base.{
  ℕ, ◌+◌, ◌≡◌, refl, ◌∙◌, inl, inr, String, Bool, true, false, Option, none, some, List, [], ◌∷◌,
  ◌++◌, arith, sum_by, All, Bool-cases, Option-cases, length, length-append, if◌then◌else◌,
}
use apex_ray.Base.Text.{is_blank}
use apex_ray.Models.{TargetMode, DiffLineKind, ChangedFile}
use apex_ray.Diff.{
  ParseState, match_header, parse_line, parse_file_line, apply_hunk_line, HunkLine, hunk_line,
  file_mode_line, marker_line, match_hunk, addition, deletion, unchanged, no_newline_note,
  unrecognized, parse_lines, parse_start, finished, parse_unified_diff, new_file,
}
use apex_ray.Diff.Count.{adds, deletes, count_hunks}
use apex_ray.Diff.Numbering.{IsCounted, parse_unified_diff-IsCounted}

-- How many lines of a kind all hunks of the files hold.
abbrev pub count_files : (DiffLineKind → ℕ) → List ChangedFile → ℕ
count_files weight = sum_by (λ f. count_hunks weight f.hunks)

total_additions :
    (fs : List ChangedFile) → All IsCounted fs → sum_by (λ f. f.additions) fs ≡ count_files adds fs
total_additions [] h = refl
total_additions (f ∷ fs) h = omega (arith, h.0.additions, total_additions fs h.1)

total_deletions :
    (fs : List ChangedFile)
    → All IsCounted fs
    → sum_by (λ f. f.deletions) fs ≡ count_files deletes fs
total_deletions [] h = refl
total_deletions (f ∷ fs) h = omega (arith, h.0.deletions, total_deletions fs h.1)

-- The statistics of a parsed diff are the numbers of added and of deleted lines in its hunks, and of its
-- files.
pub parse_unified_diff-stats :
    (lines : List String) (mode : TargetMode) (base : Option String)
    → let d = parse_unified_diff lines mode base in
      (d.stats.additions ≡ count_files adds d.files)
      × (d.stats.deletions ≡ count_files deletes d.files)
      × (d.stats.files_changed ≡ length d.files)
unfolding parse_unified_diff
parse_unified_diff-stats lines mode base =
    let h = parse_unified_diff-IsCounted lines mode base in
    (
      total_additions (finished (parse_lines parse_start lines)) h,
      total_deletions (finished (parse_lines parse_start lines)) h,
      refl,
    )

-- 1 for a line that starts a file.
abbrev pub header_weight : String → ℕ
header_weight line = elim (match_header line) [ some paths ↦ 1 | none ↦ 0 ]

-- The number of lines that start a file.
abbrev pub headers : List String → ℕ
headers lines = sum_by header_weight lines

-- Both states have the same finished files and are inside a file.
abbrev GoesOn : ParseState → ParseState → Type 0
GoesOn st next = (next.files ≡ st.files) × ((g : ChangedFile) × (next.current_file ≡ some g))

apply_hunk_line-GoesOn :
    (st : ParseState) (f : ChangedFile) (line : String) (l : HunkLine)
    → st.current_file ≡ some f
    → GoesOn st (apply_hunk_line st f line l)
unfolding apply_hunk_line
apply_hunk_line-GoesOn st f line (addition c) e = (refl, (_, refl))
apply_hunk_line-GoesOn st f line (deletion c) e = (refl, (_, refl))
apply_hunk_line-GoesOn st f line (unchanged c) e = (refl, (_, refl))
apply_hunk_line-GoesOn st f line no_newline_note e = (refl, (f, e))
apply_hunk_line-GoesOn st f line unrecognized e = (refl, (f, e))

hunk_body-GoesOn :
    (b : Bool) (st : ParseState) (f : ChangedFile) (line : String) (l : HunkLine)
    → st.current_file ≡ some f
    → GoesOn st (if b then apply_hunk_line st f line l else st)
hunk_body-GoesOn true st f line l e = apply_hunk_line-GoesOn st f line l e
hunk_body-GoesOn false st f line l e = (refl, (f, e))

parse_file_line-GoesOn :
    (st : ParseState) (f : ChangedFile) (line : String)
    → st.current_file ≡ some f
    → GoesOn st (parse_file_line st f line)
unfolding parse_file_line
parse_file_line-GoesOn st f line e = elim (Option-cases (file_mode_line f line)) [
  | inr (g, mode) ↦ rw (mode, parse_file_line) (refl, (g, refl))
  | inl no_mode ↦ elim (Option-cases (if st.in_hunk then none else marker_line f line)) [
    | inr (g, marker) ↦ rw (no_mode, marker, parse_file_line) (refl, (g, refl))
    | inl no_marker ↦ elim (Option-cases (match_hunk line)) [
      | inr (h, header) ↦ rw (no_mode, no_marker, header, parse_file_line) (refl, (_, refl))
      | inl no_header ↦
          rw (no_mode, no_marker, no_header, parse_file_line)
            (hunk_body-GoesOn st.in_hunk st f line (hunk_line line) e)
    ]
  ]
]

GoesOn-finished :
    (st next : ParseState) (f : ChangedFile)
    → st.current_file ≡ some f
    → GoesOn st next
    → length (finished next) ≡ length (finished st)
GoesOn-finished st next f e (same, (g, eg)) =
    rw (e, eg, same, length-append st.files (f ∷ []), length-append st.files (g ∷ [])) refl

header_weight-none : (line : String) → match_header line ≡ none → header_weight line ≡ 0
header_weight-none line e = rw (e, header_weight) refl

finished-none : (st : ParseState) → st.current_file ≡ none → length (finished st) ≡ length st.files
finished-none st e = rw e refl

finished-some :
    (st : ParseState) (f : ChangedFile)
    → st.current_file ≡ some f
    → length (finished st) ≡ length (st.files ++ f ∷ [])
finished-some st f e = rw e refl

length-finished-parse_line :
    (st : ParseState) (line : String)
    → length (finished (parse_line st line)) ≡ length (finished st) + header_weight line
unfolding parse_line
length-finished-parse_line st line = elim (Option-cases (match_header line)) [
  | inr (paths, header) ↦
      rw (header, parse_line, header_weight)
        (length-append (finished st) (new_file paths.0 paths.1 ∷ []))
  | inl no_header ↦ elim (Option-cases st.current_file) [
    | inr (f, e) ↦
        let h =
          GoesOn-finished st (parse_file_line st f line) f e (parse_file_line-GoesOn st f line e) in
        rw (no_header, e, parse_line)
          (omega (arith, h, finished-some st f e, header_weight-none line no_header))
    | inl e ↦ elim (Bool-cases (is_blank line)) [
      | inl blank ↦
          rw (no_header, e, parse_line, blank)
            (omega (arith, finished-none st e, header_weight-none line no_header))
      | inr text ↦
          rw (no_header, e, parse_line, text)
            (omega (arith, finished-none st e, header_weight-none line no_header))
    ]
  ]
]

length-finished-parse_lines :
    (st : ParseState) (lines : List String)
    → length (finished (parse_lines st lines)) ≡ length (finished st) + headers lines
unfolding parse_lines
length-finished-parse_lines st [] = omega arith
length-finished-parse_lines st (line ∷ lines) =
    let first = length-finished-parse_line st line in
    omega (arith, first, length-finished-parse_lines (parse_line st line) lines)

-- A diff has one file for each line that starts one: no line of the input loses a file or makes one up.
pub parse_unified_diff-files_changed :
    (lines : List String) (mode : TargetMode) (base : Option String)
    → (parse_unified_diff lines mode base).stats.files_changed ≡ headers lines
unfolding parse_unified_diff
parse_unified_diff-files_changed lines mode base =
    length-finished-parse_lines parse_start lines ∙ omega arith
