-- ===== src/Triage/Examples.antt =====
-- A small triage state, the operations on it, and the theorems at concrete inputs.
use mathlib.Core.List.{Perm}
use apex_ray.Base.{
  ℕ, ◌≡◌, refl, String, true, false, none, some, List, [], ◌∷◌, ◌++◌, map, arith, All, length,
  Interleaved, ne_of_test, ◌==◌, option_eq, string_eq,
}
use apex_ray.Models.{Finding, FindingSeverity, FindingConfidence, TriageConfig}
use apex_ray.Triage.{
  false_positive, FindingSuppression, FindingCandidate, TriageState, state_of, same_scope,
  add_or_replace_suppression, prune_triage_state, active_at, apply_suppressions,
}
use apex_ray.Triage.Scope.{Concerns}
use apex_ray.Triage.Apply.{Justified, apply_suppressions-partition, apply_suppressions_sound}
use apex_ray.Triage.State.{IsValid, Reach-IsValid, same_id, here, next, replace, prune}
use apex_ray.Triage.Prune.{
  UsedBefore, IsAccounted, prune_triage_state-IsAccounted, prune_triage_state-keeps_newest,
}
use apex_ray.Triage.Shadow.{stale_first_shadows}

abbrev finding : Finding
finding = record {
  title = "Lost write";
  severity = FindingSeverity.high;
  confidence = FindingConfidence.high;
  file = "src/a.py";
  line = some 7;
  failure_mode = "the second write wins";
  evidence = "save is not locked";
  suggested_fix = "lock it";
  suggested_test = "";
  context_pack_id = "src/a.py#1";
  reviewer_ids = [];
  reviewer_context_pack_ids = [];
}

abbrev suppression : String → String → String → ℕ → FindingSuppression
suppression id pack pack_fingerprint created = record {
  id = id;
  finding_fingerprint = "apex-1";
  context_pack_id = pack;
  context_pack_fingerprint = pack_fingerprint;
  file = "src/a.py";
  line = some 7;
  title = "Lost write";
  severity = "high";
  confidence = "high";
  verdict = false_positive;
  reason = "guarded by the caller";
  target_base_ref = none;
  created_at = created;
  expires_at = some 1000;
  last_matched_at = none;
  match_count = 0;
  report_path = "";
}

abbrev candidate : FindingCandidate
candidate = record {
  finding = finding;
  snapshot = record {
    fingerprint = "apex-1";
    title = "Lost write";
    severity = "high";
    confidence = "high";
    file = "src/a.py";
    line = some 7;
    context_pack_id = "src/a.py#1";
    context_pack_fingerprint = "new";
  };
}

abbrev triage_config : TriageConfig
triage_config = record {
  enabled = true;
  state_path = "";
  events_path = "";
  default_expiry_days = 14;
  max_active_suppressions = 1;
  events_retention_days = none;
}

abbrev first : FindingSuppression
first = suppression "sup-1" "src/a.py#1" "old" 5

abbrev second : FindingSuppression
second = suppression "sup-2" "src/a.py#2" "new" 9

apply_second :
    (apply_suppressions (candidate ∷ []) (state_of (second ∷ [])) none 20).remaining_findings ≡ []
unfolding apply_suppressions string_eq
apply_second = refl

shadowed_by_first :
    (apply_suppressions
      (candidate ∷ [])
      (state_of (first ∷ second ∷ []))
      none
      20).remaining_findings
    ≡ finding ∷ []
unfolding apply_suppressions string_eq
shadowed_by_first = refl

apply_suppressions-partition_example :
    let r = apply_suppressions (candidate ∷ candidate ∷ []) (state_of (second ∷ [])) none 20 in
    Interleaved r.remaining_findings
      (map (λ s. s.finding) r.suppressed_findings)
      (finding ∷ finding ∷ [])
apply_suppressions-partition_example =
    apply_suppressions-partition (candidate ∷ candidate ∷ []) (state_of (second ∷ [])) none 20

apply_suppressions_sound_example :
    All
      (Justified (second ∷ []) none 20)
      (apply_suppressions (candidate ∷ []) (state_of (second ∷ [])) none 20).suppressed_findings
apply_suppressions_sound_example =
    apply_suppressions_sound (candidate ∷ []) (state_of (second ∷ [])) none 20

abbrev pair : TriageState
pair = state_of (first ∷ second ∷ [])

abbrev third : FindingSuppression
third = suppression "sup-3" "src/a.py#1" "new" 12

pair-IsValid : IsValid pair
unfolding same_id same_scope string_eq option_eq
pair-IsValid = record { ids = ((refl, tt), (tt, tt)); scopes = ((refl, tt), (tt, tt)) }

third_fresh : All (λ u. same_id u third ≡ false) pair.suppressions
unfolding same_id string_eq
third_fresh = (refl, (refl, tt))

Reach-IsValid_example :
    IsValid (prune_triage_state (add_or_replace_suppression pair third) triage_config 20).state
Reach-IsValid_example =
    Reach-IsValid pair-IsValid
      (next (next here (replace third third_fresh)) (prune triage_config 20))

prune_triage_state-IsAccounted_example :
    IsAccounted pair triage_config 20 (prune_triage_state pair triage_config 20)
prune_triage_state-IsAccounted_example = prune_triage_state-IsAccounted pair triage_config 20

prune_triage_state-keeps_newest_example :
    let r = prune_triage_state pair triage_config 20 in
    (pruned : List FindingSuppression) × (length pruned ≡ r.pruned_count)
    × Perm (pruned ++ r.state.suppressions) (active_at 20 (first ∷ second ∷ []))
    × UsedBefore pruned r.state.suppressions
prune_triage_state-keeps_newest_example = prune_triage_state-keeps_newest pair triage_config 20

first-Concerns : Concerns 20 none candidate.snapshot first
first-Concerns = record {
  same_finding = refl;
  active = λ t e. ground arith;
  same_target = λ a b e e' na nb. cc;
}

abbrev elsewhere : FindingSuppression
elsewhere = record (suppression "sup-0" "src/a.py#1" "new" 3) { finding_fingerprint = "apex-2" }

elsewhere-skipped : ¬ Concerns 20 none candidate.snapshot elsewhere
unfolding string_eq
elsewhere-skipped h = ne_of_test "apex-2" "apex-1" refl h.same_finding

stale_first_shadows_example :
    let run = λ (xs : List FindingCandidate).
      apply_suppressions xs (state_of (elsewhere ∷ first ∷ second ∷ [])) none 20 in
    let r = run (candidate ∷ candidate ∷ []) in
    (r.remaining_findings ≡ finding ∷ (run (candidate ∷ [])).remaining_findings)
    × (r.suppressed_findings ≡ (run (candidate ∷ [])).suppressed_findings)
    × All (λ x. (x.id == "sup-1") ≡ false) r.state.suppressions
unfolding apply_suppressions string_eq
stale_first_shadows_example =
    stale_first_shadows [] (candidate ∷ []) candidate (elsewhere ∷ []) (second ∷ []) first none 20
      (elsewhere-skipped, tt) first-Concerns (ne_of_test "old" "" refl) (ne_of_test "new" "" refl)
      (ne_of_test "old" "new" refl)
