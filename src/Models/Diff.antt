-- ===== src/Models/Diff.antt =====
-- Changed files, hunks and diff lines of src/apex_ray/models.py.
use apex_ray.Base.{ℕ, String, Bool, Option, List}
use apex_ray.Models.Enums.{TargetMode, FileStatus, FileKind, DiffLineKind, RiskSeverity}

pub record DiffLine : Type 0 where
  pub kind : DiffLineKind
  pub content : String
  pub old_line : Option ℕ
  pub new_line : Option ℕ

pub record RiskSignal : Type 0 where
  pub kind : String
  pub severity : RiskSeverity
  pub reason : String
  pub file : String
  pub line : Option ℕ
  pub score : ℕ
  pub source : String
  pub rule_id : Option String
  pub categories : List String
  pub reviewer_tags : List String
  pub guidance : String

pub record ChangedHunk : Type 0 where
  pub old_start : ℕ
  pub old_lines : ℕ
  pub new_start : ℕ
  pub new_lines : ℕ
  pub section_header : String
  pub lines : List DiffLine
  pub risk_signals : List RiskSignal

pub record ChangedFile : Type 0 where
  pub old_path : Option String
  pub new_path : Option String
  pub status : FileStatus
  pub language : String
  pub file_kind : FileKind
  pub additions : ℕ
  pub deletions : ℕ
  pub hunks : List ChangedHunk
  pub risk_signals : List RiskSignal
  pub is_ignored : Bool
  pub ignore_reason : Option String

pub record DiffStats : Type 0 where
  pub files_changed : ℕ
  pub additions : ℕ
  pub deletions : ℕ
  pub ignored_files : ℕ

pub record DiffSummary : Type 0 where
  pub base : Option String
  pub target_mode : TargetMode
  pub files : List ChangedFile
  pub stats : DiffStats
  pub warnings : List String
