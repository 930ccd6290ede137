-- ===== src/Risk/Examples.antt =====
-- A deleted line at the end of a hunk: its anchor, and a rule of the project that mentions it.
use apex_ray.Base.{
  ℕ, ◌+◌, ◌≤◌, ◌≡◌, refl, String, Bool, true, false, none, some, [], ◌∷◌, ◌==◌, map, arith,
  string_eq,
}
use apex_ray.Models.{
  ChangedHunk, ChangedFile, RiskRule, RiskConfig, RiskSeverity, FileStatus, FileKind, file_kind_eq,
  file_status_eq,
}
use apex_ray.Diff.Count.{count_in, new_width}
use apex_ray.Diff.{context_line, deleted_line}
use apex_ray.Base.Text.{drop_prefix, split_first}
use apex_ray.Risk.{first_new_line, line_at, current_line_anchor}
use apex_ray.Diff.{path}
use apex_ray.Risk.Policy.{
  rule_filters_match, anchors_from, apply_rule, apply_rules, apply_project_risk_policy,
}
use apex_ray.Risk.Covered.{IsCovered, apply_project_risk_policy-IsCovered}
use apex_ray.Risk.Anchor.{current_line_anchor-Within}

abbrev hunk : ChangedHunk
hunk = record {
  old_start = 3;
  old_lines = 2;
  new_start = 3;
  new_lines = 1;
  section_header = "";
  lines = context_line "kept" 3 3 ∷ deleted_line "old" 4 ∷ [];
  risk_signals = [];
}

current_line_anchor-Within_example :
    (anchor : ℕ) × (current_line_anchor hunk 1 ≡ some anchor)
    × (3 ≤ anchor)
    × (anchor ≤ 3 + count_in new_width hunk.lines)
current_line_anchor-Within_example =
    current_line_anchor-Within hunk 1 ((refl, refl), ((refl, refl), tt)) (omega arith)

abbrev file : ChangedFile
file = record {
  old_path = some "a.py";
  new_path = some "a.py";
  status = FileStatus.modified;
  language = "python";
  file_kind = FileKind.source;
  additions = 0;
  deletions = 1;
  hunks = hunk ∷ [];
  risk_signals = [];
  is_ignored = false;
  ignore_reason = none;
}

abbrev rule : RiskRule
rule = record {
  id = "legacy";
  title = "";
  severity = RiskSeverity.high;
  score = none;
  paths = [];
  exclude_paths = [];
  languages = "python" ∷ [];
  file_kinds = [];
  statuses = [];
  text = "old" ∷ [];
  risk = [];
  categories = [];
  reviewer_tags = [];
  guidance = "";
}

abbrev policy : RiskConfig
policy = record { built_in_enabled = true; rules = rule ∷ [] }

abbrev literally : String → String → Bool
literally path pattern = path == pattern

abbrev signalled : ChangedFile
signalled = apply_project_risk_policy literally (λ s. s) file policy

one_signal : map (λ s. s.line) signalled.risk_signals ≡ some 3 ∷ []
unfolding string_eq drop_prefix split_first first_new_line line_at current_line_anchor path
    rule_filters_match anchors_from apply_rule apply_rules apply_project_risk_policy
one_signal = refl

apply_project_risk_policy-IsCovered_example : IsCovered signalled
apply_project_risk_policy-IsCovered_example =
    apply_project_risk_policy-IsCovered literally (λ s. s) file policy (tt, tt)
