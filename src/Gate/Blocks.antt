-- ===== src/Gate/Blocks.antt =====
-- When the gate blocks a push.
use apex_ray.Base.{
  ℕ, ◌≤◌, ◌≡◌, refl, sym, ap, ◌∙◌, subst, ◌⊎◌, ◌↔◌, String, Bool, true, false, ◌&&◌, ◌||◌, Option,
  none, some, List, [], ◌∷◌, ◌++◌, if◌then◌else◌, ◌==◌, ==_iff, filter, leb, leb→le, le→leb, truthy,
  Any, arith, and_left, and_right, string_eq,
}
use apex_ray.Base.Or.{or_iff}
use apex_ray.Models.{Finding, FindingSeverity, PartialSeverity, PrePushGateConfig}
use apex_ray.Findings.{Scanner}
use apex_ray.Gate.{
  GatedReport, finding_severity_rank, partial_severity_rank, partial_severity_blocks,
  eligible_findings, at_least, findings_over, finding_reasons, quality_reasons, partial_reasons,
  evaluate_pre_push_gate,
}

truthy-append {ℓ} : {A : Type ℓ} (xs ys : List A) → truthy (xs ++ ys) ≡ truthy xs || truthy ys
truthy-append [] ys = refl
truthy-append (x ∷ xs) ys = refl

-- There is an eligible finding of the least severity that blocks.
abbrev pub SeverityBlocks : List Finding → Option FindingSeverity → Type 0
SeverityBlocks findings none = ⊥
SeverityBlocks findings (some severity) =
    Any (λ f. finding_severity_rank severity ≤ finding_severity_rank f.severity) findings

-- The coverage is partial to the degree that blocks.
abbrev pub PartialBlocks : PartialSeverity → Option PartialSeverity → Type 0
PartialBlocks current none = ⊥
PartialBlocks current (some threshold) =
    (1 ≤ partial_severity_rank threshold)
    × (partial_severity_rank threshold ≤ partial_severity_rank current)

partial_severity_blocks_lem :
    (current : PartialSeverity) (threshold : Option PartialSeverity)
    → (partial_severity_blocks current threshold ≡ true) ↔ PartialBlocks current threshold
unfolding partial_severity_blocks
partial_severity_blocks_lem current none = (λ e. cc, λ h. absurd h)
partial_severity_blocks_lem current (some PartialSeverity.none_severity) =
    (λ e. cc, λ h. absurd (omega (arith, h.0)))
partial_severity_blocks_lem current (some PartialSeverity.minor) = (
  λ e. (omega arith, leb→le 1 (partial_severity_rank current) e),
  λ h. le→leb 1 (partial_severity_rank current) h.1,
)
partial_severity_blocks_lem current (some PartialSeverity.major) = (
  λ e. (omega arith, leb→le 2 (partial_severity_rank current) e),
  λ h. le→leb 2 (partial_severity_rank current) h.1,
)
partial_severity_blocks_lem current (some PartialSeverity.critical) = (
  λ e. (omega arith, leb→le 3 (partial_severity_rank current) e),
  λ h. le→leb 3 (partial_severity_rank current) h.1,
)

truthy-if {ℓ} :
    {A : Type ℓ} (b : Bool) (x : A) (xs : List A)
    → truthy (if b then x ∷ xs else xs) ≡ b || truthy xs
truthy-if true x xs = refl
truthy-if false x xs = refl

truthy-filter :
    (n : ℕ) (fs : List Finding)
    → (truthy (filter (λ f. leb n (finding_severity_rank f.severity)) fs) ≡ true)
      ↔ Any (λ f. n ≤ finding_severity_rank f.severity) fs
truthy-filter n [] = (λ e. cc, λ h. absurd h)
truthy-filter n (f ∷ fs) =
    let rest = filter (λ g. leb n (finding_severity_rank g.severity)) fs in
    subst (λ b. (b ≡ true) ↔ Any (λ g. n ≤ finding_severity_rank g.severity) (f ∷ fs))
      (sym (truthy-if (leb n (finding_severity_rank f.severity)) f rest))
      (or_iff (leb n (finding_severity_rank f.severity)) (truthy rest)
        (leb→le n (finding_severity_rank f.severity), le→leb n (finding_severity_rank f.severity))
        (truthy-filter n fs))

module _ (fnmatchcase : String → String → Bool) (scan : Scanner)
    (status_le : String × ℕ → String × ℕ → Bool) where
  finding_reasons_lem :
      (findings : List Finding) (threshold : Option FindingSeverity)
      → (truthy (
            finding_reasons fnmatchcase scan status_le threshold
              (findings_over fnmatchcase scan status_le threshold findings))
          ≡ true)
        ↔ SeverityBlocks findings threshold
  finding_reasons_lem findings none = (λ e. cc, λ h. absurd h)
  finding_reasons_lem findings (some severity) =
      subst (λ b. (b ≡ true) ↔ SeverityBlocks findings (some severity))
        (sym (same (at_least fnmatchcase scan status_le severity findings)))
        (truthy-filter (finding_severity_rank severity) findings)
    where
      same :
          (fs : List Finding)
          → truthy (finding_reasons fnmatchcase scan status_le (some severity) fs) ≡ truthy fs
      same [] = refl
      same (f ∷ fs) = refl

  quality_reasons_lem :
      (report : GatedReport) (b : Bool)
      → truthy (quality_reasons fnmatchcase scan status_le report b) ≡ b
  quality_reasons_lem report true = refl
  quality_reasons_lem report false = refl

  partial_reasons_lem :
      (report : GatedReport) (b : Bool)
      → truthy (partial_reasons fnmatchcase scan status_le report b) ≡ b
  partial_reasons_lem report true = refl
  partial_reasons_lem report false = refl

  and_iff : (b : Bool) (s t : String) → (b && (s == t) ≡ true) ↔ ((b ≡ true) × (s ≡ t))
  and_iff b s t = (
    λ e. (and_left b (s == t) e, (==_iff s t).0 (and_right b (s == t) e)),
    λ h. ap (λ c. c && (s == t)) h.0 ∙ (==_iff s t).1 h.1,
  )

  -- A push is blocked exactly if a finding that counts is at least as severe as the threshold, or the coverage gate
  -- failed and failing it blocks, or the coverage is partial to the degree that blocks.
  pub evaluate_pre_push_gate-Blocks :
      (report : GatedReport) (config : PrePushGateConfig)
      → ((evaluate_pre_push_gate fnmatchcase scan status_le report config).blocked ≡ true) ↔ (
          SeverityBlocks
            (eligible_findings fnmatchcase scan status_le report config)
            config.min_finding_severity
          ⊎ (((config.fail_on_quality_gate ≡ true)
                × (report.llm_coverage.quality_gate_status ≡ "fail"))
              ⊎ PartialBlocks report.llm_coverage.partial_severity config.fail_on_partial_severity))
  unfolding evaluate_pre_push_gate
  evaluate_pre_push_gate-Blocks report config =
      let found =
        findings_over fnmatchcase scan status_le config.min_finding_severity
          (eligible_findings fnmatchcase scan status_le report config) in
      let first = finding_reasons fnmatchcase scan status_le config.min_finding_severity found in
      let failed =
        config.fail_on_quality_gate && (report.llm_coverage.quality_gate_status == "fail") in
      let partial =
        partial_severity_blocks report.llm_coverage.partial_severity
          config.fail_on_partial_severity in
      let second = quality_reasons fnmatchcase scan status_le report failed in
      let third = partial_reasons fnmatchcase scan status_le report partial in
      let split : truthy (first ++ (second ++ third)) ≡ truthy first || (failed || partial) =
        truthy-append first (second ++ third)
        ∙ ap (λ b. truthy first || b)
            (truthy-append second third
              ∙ ap (λ b. b || truthy third) (quality_reasons_lem report failed)
              ∙ ap (λ b. failed || b) (partial_reasons_lem report partial)) in
      subst
        (λ b. (b ≡ true) ↔ (
          SeverityBlocks (eligible_findings fnmatchcase scan status_le report config)
            config.min_finding_severity
          ⊎ (((config.fail_on_quality_gate ≡ true)
                × (report.llm_coverage.quality_gate_status ≡ "fail"))
              ⊎ PartialBlocks report.llm_coverage.partial_severity
                  config.fail_on_partial_severity)))
        (sym split)
        (or_iff (truthy first) (failed || partial)
          (finding_reasons_lem (eligible_findings fnmatchcase scan status_le report config)
            config.min_finding_severity)
          (or_iff failed partial
            (and_iff config.fail_on_quality_gate report.llm_coverage.quality_gate_status "fail")
            (partial_severity_blocks_lem report.llm_coverage.partial_severity
              config.fail_on_partial_severity)))
