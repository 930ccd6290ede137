-- ===== src/Routing/Examples.antt =====
-- The override of three rules.
use apex_ray.Base.{◌≡◌, refl, String, Option, none, some, List, [], ◌∷◌, option_eq, string_eq}
use apex_ray.Base.Sort.{sorted, insert_sorted}
use apex_ray.Models.{RuleMatch, RuleMode, FindingSeverity}
use apex_ray.Routing.{enumerate_rules, ranked_rules, rule_model_override}
use apex_ray.Routing.Override.{IsOverride, rule_model_override-IsOverride}

abbrev rule : String → FindingSeverity → RuleMode → Option String → RuleMatch
rule id severity mode model = record {
  id = id;
  title = id;
  severity = severity;
  mode = mode;
  resolution_surfaces = [];
  model = model;
  verify = none;
  source_path = none;
}

abbrev rules : List RuleMatch
rules =
    rule "a" FindingSeverity.high RuleMode.advisory (some "small")
    ∷ rule "b" FindingSeverity.high RuleMode.strict (some "large")
    ∷ rule "c" FindingSeverity.critical RuleMode.strict none
    ∷ []

strict_rule_wins : rule_model_override (λ r. r.model) rules ≡ some "large"
unfolding string_eq sorted insert_sorted enumerate_rules ranked_rules rule_model_override
strict_rule_wins = refl

rule_model_override-IsOverride_example :
    IsOverride (λ r. r.model) rules (rule_model_override (λ r. r.model) rules)
rule_model_override-IsOverride_example = rule_model_override-IsOverride (λ r. r.model) rules
