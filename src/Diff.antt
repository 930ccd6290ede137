-- ===== src/Diff.antt =====
-- The parser of unified diffs, src/apex_ray/diff.py. Its input is the list of lines that `splitlines` gives.
-- The current hunk is the last hunk of the current file, as in the source, where the two are one
-- object. The two regular expressions are written as the matchers that they are on one line; `\d` is an
-- ASCII digit.
pub mod Count
pub mod Numbering
mod Files
mod Examples
use Prim.Native.String.{◌++◌ as append}
use apex_ray.Base.{
  ℕ, ◌+◌, String, Bool, true, false, not, ◌&&◌, ◌||◌, Option, none, some, List, [], ◌∷◌, ◌++◌,
  if◌then◌else◌, ◌==◌, length, sum_by, contains, string_eq,
}
use apex_ray.Base.Text.{
  ◌>>=◌, drop_prefix, starts_with, strip, is_blank, take_chars, split_first, number,
}
use apex_ray.Models.{
  TargetMode, FileStatus, FileKind, DiffLineKind, DiffLine, ChangedHunk, ChangedFile, DiffStats,
  DiffSummary, file_status_eq,
}

-- `DIFF_HEADER_RE`: the two paths.
pub match_header : String → Option (String × String)
match_header line = do rest ← drop_prefix "diff --git a/" line; split_first " b/" rest

pub record HunkHeader : Type 0 where
  pub old_start : ℕ
  pub old_lines : Option ℕ
  pub new_start : ℕ
  pub new_lines : Option ℕ
  pub header : String

-- `(?:,(\d+))?`
optional_count : String → Option (Option ℕ × String)
optional_count s = elim (drop_prefix "," s) [
  | none ↦ some (none, s)
  | some rest ↦ number rest >>= λ (n, after). some (some n, after)
]

abbrev without_space : String → String
without_space s = elim (drop_prefix " " s) [ none ↦ s | some rest ↦ rest ]

-- `HUNK_RE`
pub match_hunk : String → Option HunkHeader
match_hunk line = drop_prefix "@@ -" line >>= λ s. number s >>= λ (old_start, s).
    optional_count s >>= λ (old_lines, s). drop_prefix " +" s >>= λ s.
    number s >>= λ (new_start, s). optional_count s >>= λ (new_lines, s).
    drop_prefix " @@" s >>= λ s. some (record {
      old_start = old_start;
      old_lines = old_lines;
      new_start = new_start;
      new_lines = new_lines;
      header = without_space s;
    })

-- The local variables of `parse_unified_diff`; `in_hunk` says that `current_hunk` is not None.
pub record ParseState : Type 0 where
  pub files : List ChangedFile
  pub current_file : Option ChangedFile
  pub in_hunk : Bool
  pub old_line : ℕ
  pub new_line : ℕ
  pub warnings : List String

abbrev pub new_file : String → String → ChangedFile
new_file old_path new_path = record {
  old_path = some old_path;
  new_path = some new_path;
  status = FileStatus.modified;
  language = "unknown";
  file_kind = FileKind.unknown;
  additions = 0;
  deletions = 0;
  hunks = [];
  risk_signals = [];
  is_ignored = false;
  ignore_reason = none;
}

abbrev non_empty : Option String → Option String
non_empty none = none
non_empty (some p) = if p == "" then none else some p

-- `ChangedFile.path`
unfoldable pub path : ChangedFile → String
path file = elim (non_empty file.new_path) [
  | some p ↦ p
  | none ↦ elim (non_empty file.old_path) [ some p ↦ p | none ↦ "<unknown>" ]
]

-- `_parse_marker_path`
pub parse_marker_path : String → Option String
parse_marker_path value =
    let value = strip value in
    if value == "/dev/null" then none else (elim (drop_prefix "a/" value) [
      | some rest ↦ some rest
      | none ↦ elim (drop_prefix "b/" value) [ some rest ↦ some rest | none ↦ some value ]
    ])

abbrev is_moved : FileStatus → Bool
is_moved status = contains status (FileStatus.renamed ∷ FileStatus.copied ∷ [])

-- The lines on the file as a whole: what they make of the file, if the line is one of them.
pub file_mode_line : ChangedFile → String → Option ChangedFile
file_mode_line file line =
    if starts_with "new file mode" line
    then some (record file { status = FileStatus.added })
    else if starts_with "deleted file mode" line
    then some (record file { status = FileStatus.deleted })
    else (elim (drop_prefix "rename from " line) [
      | some p ↦ some (record file { status = FileStatus.renamed; old_path = some (strip p) })
      | none ↦ elim (drop_prefix "rename to " line) [
        | some p ↦ some (record file { status = FileStatus.renamed; new_path = some (strip p) })
        | none ↦ elim (drop_prefix "copy from " line) [
          | some p ↦ some (record file { status = FileStatus.copied; old_path = some (strip p) })
          | none ↦ elim (drop_prefix "copy to " line) [
            | some p ↦ some (record file { status = FileStatus.copied; new_path = some (strip p) })
            | none ↦ none
          ]
        ]
      ]
    ])

abbrev mark_old : ChangedFile → Option String → ChangedFile
mark_old file none = record file { old_path = none }
mark_old file (some p) = if is_moved file.status then file else record file { old_path = some p }

abbrev mark_new : ChangedFile → Option String → ChangedFile
mark_new file none = record file { new_path = none }
mark_new file (some p) = if is_moved file.status then file else record file { new_path = some p }

-- The lines `--- path` and `+++ path` before the first hunk.
pub marker_line : ChangedFile → String → Option ChangedFile
marker_line file line = elim (drop_prefix "--- " line) [
  | some p ↦ some (mark_old file (parse_marker_path p))
  | none ↦ elim (drop_prefix "+++ " line) [
    | some p ↦ some (mark_new file (parse_marker_path p))
    | none ↦ none
  ]
]

abbrev pub count_or_one : Option ℕ → ℕ
count_or_one none = 1
count_or_one (some n) = n

abbrev pub new_hunk : HunkHeader → ChangedHunk
new_hunk h = record {
  old_start = h.old_start;
  old_lines = count_or_one h.old_lines;
  new_start = h.new_start;
  new_lines = count_or_one h.new_lines;
  section_header = h.header;
  lines = [];
  risk_signals = [];
}

-- `current_hunk.lines.append(line)`
pub add_line : DiffLine → List ChangedHunk → List ChangedHunk
add_line line [] = []
add_line line (h ∷ []) = record h { lines = h.lines ++ line ∷ [] } ∷ []
add_line line (h ∷ g ∷ rest) = h ∷ add_line line (g ∷ rest)

abbrev pub added_line : String → ℕ → DiffLine
added_line content new_line = record {
  kind = DiffLineKind.add;
  content = content;
  old_line = none;
  new_line = some new_line;
}

abbrev pub deleted_line : String → ℕ → DiffLine
deleted_line content old_line = record {
  kind = DiffLineKind.delete;
  content = content;
  old_line = some old_line;
  new_line = none;
}

abbrev pub context_line : String → ℕ → ℕ → DiffLine
context_line content old_line new_line = record {
  kind = DiffLineKind.context;
  content = content;
  old_line = some old_line;
  new_line = some new_line;
}

-- What a line inside a hunk is.
pub data HunkLine : Type 0 where
  addition deletion unchanged : String → HunkLine
  no_newline_note unrecognized : HunkLine

pub hunk_line : String → HunkLine
hunk_line line = elim (drop_prefix "+" line) [
  | some content ↦ addition content
  | none ↦ elim (drop_prefix "-" line) [
    | some content ↦ deletion content
    | none ↦ elim (drop_prefix " " line) [
      | some content ↦ unchanged content
      | none ↦
          if line == ""
          then unchanged ""
          else if starts_with "\\" line
          then no_newline_note
          else unrecognized
    ]
  ]
]

-- The chain on the line's first character, inside a hunk of `file`.
pub apply_hunk_line : ParseState → ChangedFile → String → HunkLine → ParseState
apply_hunk_line st file line (addition content) = record st {
  current_file = some (record file {
    hunks = add_line (added_line content st.new_line) file.hunks;
    additions = file.additions + 1;
  });
  new_line = st.new_line + 1;
}
apply_hunk_line st file line (deletion content) = record st {
  current_file = some (record file {
    hunks = add_line (deleted_line content st.old_line) file.hunks;
    deletions = file.deletions + 1;
  });
  old_line = st.old_line + 1;
}
apply_hunk_line st file line (unchanged content) = record st {
  current_file =
      some (record file {
        hunks = add_line (context_line content st.old_line st.new_line) file.hunks;
      });
  old_line = st.old_line + 1;
  new_line = st.new_line + 1;
}
apply_hunk_line st file line no_newline_note = st
apply_hunk_line st file line unrecognized = record st {
  warnings =
      st.warnings
      ++ append "Unrecognized hunk line in " (append (path file) (append ": " (take_chars 80 line)))
        ∷ [];
}

abbrev pub start_hunk : ParseState → ChangedFile → HunkHeader → ParseState
start_hunk st file h = record st {
  current_file = some (record file { hunks = file.hunks ++ new_hunk h ∷ [] });
  in_hunk = true;
  old_line = h.old_start;
  new_line = h.new_start;
}

-- The body of the loop behind the header tests, inside `file`.
pub parse_file_line : ParseState → ChangedFile → String → ParseState
parse_file_line st file line = elim (file_mode_line file line) [
  | some changed ↦ record st { current_file = some changed }
  | none ↦ elim (if st.in_hunk then none else marker_line file line) [
    | some changed ↦ record st { current_file = some changed }
    | none ↦ elim (match_hunk line) [
      | some h ↦ start_hunk st file h
      | none ↦ if st.in_hunk then apply_hunk_line st file line (hunk_line line) else st
    ]
  ]
]

abbrev pub finished : ParseState → List ChangedFile
finished st = elim st.current_file [ none ↦ st.files | some file ↦ st.files ++ file ∷ [] ]

abbrev pub start_file : ParseState → String × String → ParseState
start_file st (old_path, new_path) = record st {
  files = finished st;
  current_file = some (new_file old_path new_path);
  in_hunk = false;
}

-- The body of the loop.
pub parse_line : ParseState → String → ParseState
parse_line st line = elim (match_header line) [
  | some paths ↦ start_file st paths
  | none ↦ elim st.current_file [
    | some file ↦ parse_file_line st file line
    | none ↦ if is_blank line then st else record st {
      warnings =
          st.warnings ++ append "Ignored diff line before file header: " (take_chars 80 line) ∷ [];
    }
  ]
]

pub parse_lines : ParseState → List String → ParseState
parse_lines st [] = st
parse_lines st (line ∷ lines) = parse_lines (parse_line st line) lines

abbrev pub parse_start : ParseState
parse_start = record {
  files = [];
  current_file = none;
  in_hunk = false;
  old_line = 0;
  new_line = 0;
  warnings = [];
}

pub parse_unified_diff : List String → TargetMode → Option String → DiffSummary
parse_unified_diff lines target_mode base =
    let st = parse_lines parse_start lines in
    let files = finished st in
    record {
      base = base;
      target_mode = target_mode;
      files = files;
      stats = record {
        files_changed = length files;
        additions = sum_by (λ f. f.additions) files;
        deletions = sum_by (λ f. f.deletions) files;
        ignored_files = 0;
      };
      warnings = st.warnings;
    }

-- What a run of the parser computes with.
unfoldable pub program : Unit {0}
unfolding parse_unified_diff parse_lines parse_line parse_file_line apply_hunk_line hunk_line
    marker_line file_mode_line match_hunk match_header optional_count parse_marker_path path
    add_line drop_prefix starts_with strip is_blank take_chars split_first number string_eq
    file_status_eq
program = tt
