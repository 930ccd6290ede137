-- ===== src/Selection.antt =====
-- The choice of context packs for review under a cap on packs, src/apex_ray/pipeline/selection.py, with
-- the priority of a pack, src/apex_ray/report/coverage_breakdown.py. Where the source passes indexes into
-- the list of packs, a pack goes along with its index here.
pub mod Cap
pub mod Tokens
pub mod Plan
pub mod Continue
pub mod Consistent
mod Examples
use apex_ray.Base.{
  ℕ, zero, suc, ◌+◌, ◌-◌, ◌*◌, ◌/◌, min, max, String, Bool, true, false, not, ◌&&◌, ◌||◌, Option,
  none, some, List, [], ◌∷◌, ◌++◌, map, if◌then◌else◌, ◌==◌, eqb, leb, ltb, length, filter, any,
  contains, sum_by, string_eq,
}
use apex_ray.Base.Dict.{Dict, lookup, insert}
use apex_ray.Base.Sort.{sorted}
use apex_ray.Diff.{path}
use apex_ray.Models.{
  ChangedFile, ContextPack, FileKind, FindingSeverity, RiskSeverity, RiskSignal, RuleMatch,
  RuleMode, Priority, p0, p1, p2, priority_eq, risk_severity_eq, finding_severity_eq, rule_mode_eq,
  file_kind_eq,
}

abbrev pub IndexedPack : Type 0
IndexedPack = ℕ × ContextPack

abbrev is_severe_signal : RiskSignal → Bool
is_severe_signal s = s.severity == RiskSeverity.critical || s.severity == RiskSeverity.high

abbrev is_severe_rule : RuleMatch → Bool
is_severe_rule r = r.severity == FindingSeverity.critical || r.severity == FindingSeverity.high

abbrev is_strict : RuleMatch → Bool
is_strict r = r.mode == RuleMode.strict

-- `_is_high_risk_pack`
pub is_high_risk_pack : ContextPack → Bool
is_high_risk_pack pack =
    any
      (λ s.
        is_severe_signal s
        && not (pack.file_kind == FileKind.test && s.source == "built_in" && s.kind == "auth"))
      pack.risk_signals
    || any is_strict pack.rule_matches
    || any is_severe_rule pack.rule_matches

abbrev pub priority_order : Priority → ℕ
priority_order p0 = 3
priority_order p1 = 2
priority_order p2 = 1

-- The priority of the pack as it is now.
pub current_priority : ContextPack → Priority
current_priority pack =
    if is_high_risk_pack pack
      || any is_strict pack.rule_matches
      || any is_severe_rule pack.rule_matches
    then p0
    else if any (λ s. s.severity == RiskSeverity.medium) pack.risk_signals
        || any is_severe_signal pack.risk_signals
        || contains pack.file_kind
            (FileKind.source ∷ FileKind.schema ∷ FileKind.migration ∷ FileKind.config ∷ [])
        || pack.stats.truncated
    then p1
    else p2

-- `none` stands for an archived priority that is missing or is none of the three.
pub pack_residual_priority : ContextPack → Option Priority → Priority
pack_residual_priority pack none = current_priority pack
pack_residual_priority pack (some archived) =
    if ltb (priority_order (current_priority pack)) (priority_order archived)
    then archived
    else current_priority pack

-- `_bounded_deep_cap`
pub bounded_deep_cap : Option ℕ → Option ℕ → Option ℕ
bounded_deep_cap none max_deep_packs = max_deep_packs
bounded_deep_cap (some max_packs) none = some max_packs
bounded_deep_cap (some max_packs) (some max_deep_packs) = some (min max_packs max_deep_packs)

-- `_initial_llm_breadth_budget`
pub initial_llm_breadth_budget : ℕ → ℕ → ℕ
initial_llm_breadth_budget max_packs file_count =
    if leb max_packs 2 then min max_packs file_count else min file_count (max 2 (max_packs / 2))

-- `_is_high_value_extra_pack`
pub is_high_value_extra_pack : ContextPack → Bool
is_high_value_extra_pack pack =
    any is_severe_signal pack.risk_signals
    || any is_strict pack.rule_matches
    || any is_severe_rule pack.rule_matches

abbrev severity_score : RiskSeverity → ℕ
severity_score RiskSeverity.critical = 100
severity_score RiskSeverity.high = 75
severity_score RiskSeverity.medium = 45
severity_score RiskSeverity.low = 20

pub risk_signal_score : RiskSignal → ℕ
risk_signal_score signal =
    if signal.source == "project"
    then signal.score
    else if eqb signal.score 0
    then severity_score signal.severity
    else signal.score

abbrev signal_rank : RiskSeverity → ℕ
signal_rank RiskSeverity.critical = 4
signal_rank RiskSeverity.high = 3
signal_rank RiskSeverity.medium = 2
signal_rank RiskSeverity.low = 1

abbrev rule_rank : FindingSeverity → ℕ
rule_rank FindingSeverity.critical = 4
rule_rank FindingSeverity.high = 3
rule_rank FindingSeverity.medium = 2
rule_rank FindingSeverity.low = 1

abbrev max_by {ℓ} : {A : Type ℓ} → (A → ℕ) → List A → ℕ
max_by f [] = 0
max_by f (x ∷ xs) = max (f x) (max_by f xs)

abbrev kind_score : FileKind → ℕ
kind_score FileKind.source = 5
kind_score FileKind.schema = 4
kind_score FileKind.migration = 4
kind_score FileKind.config = 3
kind_score FileKind.test = 1
kind_score _ = 2

abbrev kind_of : Dict String FileKind → ContextPack → FileKind
kind_of kind_by_path pack = elim (lookup pack.file kind_by_path) [
  | some kind ↦ kind
  | none ↦ pack.file_kind
]

-- `_llm_pack_priority`, without the negated index at the end of the tuple.
pub llm_pack_priority : ContextPack → Dict String FileKind → List ℕ
llm_pack_priority pack kind_by_path =
    let signals = pack.risk_signals in
    let file_kind = kind_of kind_by_path pack in
    let critical_risk = length (filter (λ s. s.severity == RiskSeverity.critical) signals) in
    let high_risk = length (filter (λ s. s.severity == RiskSeverity.high) signals) in
    let medium_risk = length (filter (λ s. s.severity == RiskSeverity.medium) signals) in
    let strict_rules = length (filter is_strict pack.rule_matches) in
    let severe_rules = length (filter is_severe_rule pack.rule_matches) in
    let severity_band : ℕ =
      max (max_by (λ s. signal_rank s.severity) signals)
        (max_by (λ r. rule_rank r.severity) pack.rule_matches) in
    let cross_kind : ℕ =
      critical_risk * 3000
      + strict_rules * 2000
      + sum_by (λ s. 1500 + risk_signal_score s)
          (filter (λ s. s.source == "project" && is_severe_signal s) signals) in
    let risk_score : ℕ =
      critical_risk * 2000
      + high_risk * 1000
      + strict_rules * 800
      + severe_rules * 500
      + medium_risk * 100
      + sum_by risk_signal_score signals in
    let review_tier : ℕ = if file_kind == FileKind.test then 1 else 2 in
    let references : ℕ = length pack.references + length pack.contracts + length pack.metadata in
    severity_band
    ∷ cross_kind
    ∷ review_tier
    ∷ risk_score
    ∷ kind_score file_kind
    ∷ min pack.stats.estimated_chars 100000
    ∷ references
    ∷ []

-- The order of tuples: the first key, with its index negated at the end, is not below the second.
pub key_ge : List ℕ → ℕ → List ℕ → ℕ → Bool
key_ge (a ∷ ks) i (b ∷ bs) j = let rest = key_ge ks i bs j in if eqb a b then rest else ltb b a
key_ge [] i [] j = leb i j
key_ge [] i (b ∷ bs) j = false
key_ge (a ∷ ks) i [] j = true

-- `{file.path: file.file_kind for file in changed_files}`
pub kinds_by_path : Dict String FileKind → List ChangedFile → Dict String FileKind
kinds_by_path kinds [] = kinds
kinds_by_path kinds (file ∷ files) = kinds_by_path (insert (path file) file.file_kind kinds) files

-- `sort(key=..., reverse=True)` by `_llm_pack_priority`.
abbrev pub priority_ge : Dict String FileKind → IndexedPack → IndexedPack → Bool
priority_ge kinds a b = key_ge (llm_pack_priority a.1 kinds) a.0 (llm_pack_priority b.1 kinds) b.0

-- The same, with the preferred packs first.
abbrev pub preferred_ge : List String → Dict String FileKind → IndexedPack → IndexedPack → Bool
preferred_ge preferred kinds a b =
    let rank : ContextPack → ℕ = λ p. if contains p.id preferred then 1 else 0 in
    key_ge (rank a.1 ∷ llm_pack_priority a.1 kinds) a.0 (rank b.1 ∷ llm_pack_priority b.1 kinds) b.0

abbrev pub index_le : IndexedPack → IndexedPack → Bool
index_le a b = leb a.0 b.0
