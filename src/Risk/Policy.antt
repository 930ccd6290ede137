-- ===== src/Risk/Policy.antt =====
-- The signals of a project's own risk rules, `apply_project_risk_policy` of src/apex_ray/risk.py. The file is a value:
-- its new signals are appended to it and to its hunks. `str.casefold` and the glob matcher are parameters.
use apex_ray.Base.{
  ℕ, suc, String, Bool, true, false, not, ◌&&◌, ◌||◌, Option, none, some, List, [], ◌∷◌, ◌++◌, map,
  if◌then◌else◌, ◌==◌, contains, filter, any, truthy, string_eq, nat_eq,
}
use apex_ray.Base.Text.{concat, split_first}
use apex_ray.Models.{
  ChangedFile, ChangedHunk, DiffLine, DiffLineKind, RiskConfig, RiskRule, RiskSeverity, RiskSignal,
  file_kind_eq, file_status_eq,
}
use apex_ray.Diff.{path}
use apex_ray.Paths.{path_matches_any}
use apex_ray.Risk.{current_line_anchor}

abbrev rule_severity_score : RiskSeverity → ℕ
rule_severity_score RiskSeverity.critical = 100
rule_severity_score RiskSeverity.high = 75
rule_severity_score RiskSeverity.medium = 45
rule_severity_score RiskSeverity.low = 20

abbrev score_of : Option ℕ → RiskSeverity → ℕ
score_of (some score) severity = score
score_of none severity = rule_severity_score severity

abbrev pub signal_for_rule : RiskRule → ChangedFile → Option ℕ → RiskSignal
signal_for_rule rule file line = record {
  kind = concat "policy:" rule.id;
  severity = rule.severity;
  reason =
      concat "Project risk policy matched: "
        (concat (if rule.title == "" then rule.id else rule.title) ".");
  file = path file;
  line = line;
  score = score_of rule.score rule.severity;
  source = "project";
  rule_id = some rule.id;
  categories = rule.categories;
  reviewer_tags = rule.reviewer_tags;
  guidance = rule.guidance;
}

abbrev is_context : DiffLineKind → Bool
is_context DiffLineKind.context = true
is_context _ = false

abbrev is_found : Option (String × String) → Bool
is_found none = false
is_found (some _) = true

abbrev pub built_in_kinds : List RiskSignal → List String
built_in_kinds signals = map (λ s. s.kind) (filter (λ s. s.source == "built_in") signals)

module _ (fnmatchcase : String → String → Bool) (casefold : String → String) where
  unfoldable pub rule_filters_match : RiskRule → ChangedFile → Bool
  rule_filters_match rule file =
      if truthy rule.paths && not (path_matches_any fnmatchcase (path file) rule.paths)
      then false
      else if truthy rule.exclude_paths
          && path_matches_any fnmatchcase (path file) rule.exclude_paths
      then false
      else if truthy rule.languages && not (contains file.language rule.languages)
      then false
      else if truthy rule.file_kinds && not (contains file.file_kind rule.file_kinds)
      then false
      else not (truthy rule.statuses) || contains file.status rule.statuses

  -- Whether a token of the rule stands in the line.
  abbrev mentions : List String → String → Bool
  mentions tokens content =
      any (λ t. is_found (split_first (casefold t) (casefold content)))
        (filter (λ t. not (t == "")) tokens)

  abbrev with_anchor : Option ℕ → List ℕ → (List ℕ → List ℕ) → List ℕ
  with_anchor none seen rest = rest seen
  with_anchor (some anchor) seen rest =
      if contains anchor seen then rest seen else anchor ∷ rest (anchor ∷ seen)

  -- The loop over the lines of a hunk, from an index on and with the anchors that were matched.
  unfoldable pub anchors_from : List String → ChangedHunk → ℕ → List DiffLine → List ℕ → List ℕ
  anchors_from tokens hunk index [] seen = []
  anchors_from tokens hunk index (line ∷ lines) seen =
      let rest = λ (s : List ℕ). anchors_from tokens hunk (suc index) lines s in
      elim (not (is_context line.kind) && mentions tokens line.content) [
        | true ↦ with_anchor (current_line_anchor hunk index) seen rest
        | false ↦ rest seen
      ]

  abbrev pub hunk_signals : RiskRule → ChangedFile → ChangedHunk → List RiskSignal
  hunk_signals rule file hunk =
      if truthy rule.text
      then map (λ n. signal_for_rule rule file (some n))
          (anchors_from rule.text hunk 0 hunk.lines [])
      else []

  abbrev pub line_signals : RiskRule → ChangedFile → List ChangedHunk → List RiskSignal
  line_signals rule file [] = []
  line_signals rule file (hunk ∷ hunks) =
      hunk_signals rule file hunk ++ line_signals rule file hunks

  abbrev pub signal_hunks : RiskRule → ChangedFile → List ChangedHunk → List ChangedHunk
  signal_hunks rule file [] = []
  signal_hunks rule file (hunk ∷ hunks) =
      record hunk { risk_signals = hunk.risk_signals ++ hunk_signals rule file hunk }
      ∷ signal_hunks rule file hunks

  -- One rule: its signals on lines, or one on the whole file, or none.
  unfoldable pub apply_rule : List String → RiskRule → ChangedFile → ChangedFile
  apply_rule built_in_risks rule file =
      let signals = line_signals rule file file.hunks in
      let risk_triggered = any (λ k. contains k rule.risk) built_in_risks in
      let has_triggers = truthy rule.text || truthy rule.risk in
      if not (rule_filters_match rule file)
      then file
      else if has_triggers && not (truthy signals) && not risk_triggered
      then file
      else if truthy signals
      then record file {
        hunks = signal_hunks rule file file.hunks;
        risk_signals = file.risk_signals ++ signals;
      }
      else record file { risk_signals = file.risk_signals ++ signal_for_rule rule file none ∷ [] }

  unfoldable pub apply_rules : List String → List RiskRule → ChangedFile → ChangedFile
  apply_rules built_in_risks [] file = file
  apply_rules built_in_risks (rule ∷ rules) file =
      apply_rules built_in_risks rules (apply_rule built_in_risks rule file)

  unfoldable pub apply_project_risk_policy : ChangedFile → RiskConfig → ChangedFile
  apply_project_risk_policy file config =
      apply_rules (built_in_kinds file.risk_signals) config.rules file
