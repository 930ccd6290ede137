-- ===== src/Coverage/Examples.antt =====
-- The completion of a review and its drain loop at concrete reports.
use apex_ray.Base.{ℕ, ◌≡◌, refl, true, false, none, [], string_eq}
use apex_ray.Models.{reviewer_status_eq, partial_severity_eq, completion_status_eq}
use apex_ray.Models.Samples.{summary}
use apex_ray.Coverage.{ReviewReport}
use apex_ray.Coverage.Program.{program}
use apex_ray.Coverage.Drain.{
  returned, Services, CoverageDrainResult, complete, continue_review_until_complete,
}
use apex_ray.Coverage.Drain.Outcomes.{IsOutcome, start_drain-IsOutcome}
use apex_ray.Coverage.Drain.Total.{StartsFrom, continue_review_until_complete-IsOutcome}

abbrev report : ℕ → ReviewReport
report reviewed = record {
  context_packs = [];
  llm_coverage = summary reviewed;
  reviewer_scope_ids = none;
}

-- Each batch of reviews reviews the one pack.
abbrev services : Services
services = record {
  id_le = λ a b. true;
  mentions_verification = λ r. false;
  validate = λ r. none;
  continue_review = λ batch r. returned (report 1);
  rebase = λ r. returned r;
  config_changed = λ r. false;
  reviewer_ids = none;
  batch_size = 1;
}

abbrev drained : CoverageDrainResult
drained = record { report = report 1; is_complete = true; batches = 1; stop_reason = complete }

start_drain-IsOutcome_example : IsOutcome services 3 0 (report 0) drained
unfolding program
start_drain-IsOutcome_example = start_drain-IsOutcome services 3 (report 0) drained refl

continue_review_until_complete-IsOutcome_example :
    (from : ReviewReport) × (r : CoverageDrainResult) × StartsFrom services (report 0) from
    × (continue_review_until_complete services (report 0) 3 ≡ returned r)
    × IsOutcome services 3 0 from r
continue_review_until_complete-IsOutcome_example =
    continue_review_until_complete-IsOutcome services (λ r. refl) (λ b r. tt) (λ r. tt) (report 0) 3
      refl refl
