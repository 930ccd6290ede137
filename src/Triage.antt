-- ===== src/Triage.antt =====
-- Suppressions of findings, src/apex_ray/triage.py: the records of the triage state and the operations that
-- create, replace, remove, prune and apply suppressions. A datetime is its instant in microseconds, as
-- `_as_utc` gives it. The new id and the current time are arguments. Reading and writing the state file,
-- and printing it, are not modelled.
pub mod Scope
pub mod Apply
pub mod State
pub mod Prune
pub mod Shadow
mod Examples
use apex_ray.Base.{
  ℕ, ◌+◌, ◌-◌, ◌*◌, String, Bool, true, false, not, ◌&&◌, ◌||◌, Option, none, some, List, [], ◌∷◌,
  ◌++◌, map, leb, ltb, if◌then◌else◌, filter, length, take, drop, contains, ◌==◌, string_eq,
  option_eq,
}
use apex_ray.Base.Dict.{Dict, lookup, insert}
use apex_ray.Base.Sort.{sorted}
use apex_ray.Models.{Finding, TriageConfig}

abbrev pub Datetime : Type 0
Datetime = ℕ

-- The number of microseconds in a day.
abbrev pub day : ℕ
day = 86_400_000_000

pub data SuppressionVerdict : Type 0 where
  false_positive not_actionable duplicate accepted_risk : SuppressionVerdict

pub data TriageEventKind : Type 0 where
  suppression_created suppression_matched suppression_stale : TriageEventKind
  suppression_expired suppression_pruned suppression_removed : TriageEventKind

pub record FindingSnapshot : Type 0 where
  pub fingerprint : String
  pub title : String
  pub severity : String
  pub confidence : String
  pub file : String
  pub line : Option ℕ
  pub context_pack_id : String
  pub context_pack_fingerprint : String

pub record FindingSuppression : Type 0 where
  pub id : String
  pub finding_fingerprint : String
  pub context_pack_id : String
  pub context_pack_fingerprint : String
  pub file : String
  pub line : Option ℕ
  pub title : String
  pub severity : String
  pub confidence : String
  pub verdict : SuppressionVerdict
  pub reason : String
  pub target_base_ref : Option String
  pub created_at : Datetime
  pub expires_at : Option Datetime
  pub last_matched_at : Option Datetime
  pub match_count : ℕ
  pub report_path : String

pub record TriageState : Type 0 where
  pub schema_version : String
  pub suppressions : List FindingSuppression

pub record TriageEvent : Type 0 where
  pub schema_version : String
  pub event : TriageEventKind
  pub suppression_id : String
  pub finding_fingerprint : String
  pub created_at : Datetime
  pub verdict : SuppressionVerdict
  pub reason : String
  pub suppression_reason : String
  pub file : String
  pub line : Option ℕ
  pub title : String
  pub severity : String
  pub context_pack_id : String

pub record FindingCandidate : Type 0 where
  pub finding : Finding
  pub snapshot : FindingSnapshot

pub record SuppressedFinding : Type 0 where
  pub finding : Finding
  pub suppression : FindingSuppression
  pub snapshot : FindingSnapshot

pub record StaleSuppression : Type 0 where
  pub finding : Finding
  pub suppression : FindingSuppression
  pub snapshot : FindingSnapshot
  pub reason : String

pub record TriagePruneResult : Type 0 where
  pub state : TriageState
  pub events : List TriageEvent
  pub expired_count : ℕ
  pub pruned_count : ℕ

pub record TriageApplyResult : Type 0 where
  pub remaining_findings : List Finding
  pub suppressed_findings : List SuppressedFinding
  pub stale_suppressions : List StaleSuppression
  pub state : TriageState
  pub events : List TriageEvent
  pub stale_count : ℕ

-- `TriageState(suppressions=...)`
abbrev pub state_of : List FindingSuppression → TriageState
state_of suppressions = record {
  schema_version = "finding-triage-state/v1";
  suppressions = suppressions;
}

pub triage_event : TriageEventKind → FindingSuppression → Datetime → String → TriageEvent
triage_event event suppression created_at reason = record {
  schema_version = "finding-triage-event/v1";
  event = event;
  suppression_id = suppression.id;
  finding_fingerprint = suppression.finding_fingerprint;
  created_at = created_at;
  verdict = suppression.verdict;
  reason = reason;
  suppression_reason = suppression.reason;
  file = suppression.file;
  line = suppression.line;
  title = suppression.title;
  severity = suppression.severity;
  context_pack_id = suppression.context_pack_id;
}

abbrev or_else : Option Datetime → Datetime → Datetime
or_else none t = t
or_else (some t) _ = t

pub create_suppression :
    (new_id : String) (snapshot : FindingSnapshot) (reason : String) (config : TriageConfig)
    (now : Datetime) (verdict : SuppressionVerdict) (expires_at : Option Datetime)
    (target_base_ref : Option String) (report_path : String)
    → FindingSuppression × TriageEvent
unfolding triage_event
create_suppression new_id snapshot reason config now verdict expires_at target_base_ref
      report_path =
    let suppression : FindingSuppression = record {
      id = new_id;
      finding_fingerprint = snapshot.fingerprint;
      context_pack_id = snapshot.context_pack_id;
      context_pack_fingerprint = snapshot.context_pack_fingerprint;
      file = snapshot.file;
      line = snapshot.line;
      title = snapshot.title;
      severity = snapshot.severity;
      confidence = snapshot.confidence;
      verdict = verdict;
      reason = reason;
      target_base_ref = target_base_ref;
      created_at = now;
      expires_at = some (or_else expires_at (now + config.default_expiry_days * day));
      last_matched_at = none;
      match_count = 0;
      report_path = report_path;
    } in
    (suppression, triage_event suppression_created suppression now reason)

-- The test under which a new suppression replaces an old one.
pub same_scope : FindingSuppression → FindingSuppression → Bool
same_scope existing suppression =
    existing.finding_fingerprint == suppression.finding_fingerprint
    && existing.context_pack_id == suppression.context_pack_id
    && existing.target_base_ref == suppression.target_base_ref

pub add_or_replace_suppression : TriageState → FindingSuppression → TriageState
unfolding same_scope
add_or_replace_suppression state suppression =
    let kept = filter (λ existing. not (same_scope existing suppression)) state.suppressions in
    state_of (kept ++ suppression ∷ [])

abbrev is_selected : String → FindingSuppression → Bool
is_selected selector suppression =
    suppression.id == selector || suppression.finding_fingerprint == selector

-- A suppression equal to a removed one has its id and fingerprint, so `not in removed` says that it is
-- not selected.
pub remove_suppressions : TriageState → String → Datetime → TriageState × List TriageEvent
unfolding triage_event
remove_suppressions state selector now =
    let removed = filter (is_selected selector) state.suppressions in
    let kept = filter (λ s. not (is_selected selector s)) state.suppressions in
    (state_of kept, map (λ s. triage_event suppression_removed s now "Removed by user.") removed)

pub is_expired : FindingSuppression → Datetime → Bool
is_expired suppression now = elim suppression.expires_at [
  | none ↦ false
  | some expires_at ↦ leb expires_at now
]

-- `suppression.last_matched_at or suppression.created_at`
pub last_used : FindingSuppression → Datetime
last_used suppression = or_else suppression.last_matched_at suppression.created_at

abbrev pub used_le : FindingSuppression → FindingSuppression → Bool
unfolding last_used
used_le s t = leb (last_used s) (last_used t)

abbrev pub active_at : Datetime → List FindingSuppression → List FindingSuppression
active_at now = filter (λ s. not (is_expired s now))

abbrev pub expired_at : Datetime → List FindingSuppression → List FindingSuppression
expired_at now = filter (λ s. is_expired s now)

pub prune_triage_state : TriageState → TriageConfig → Datetime → TriagePruneResult
unfolding triage_event is_expired last_used sorted
prune_triage_state state config now =
    let active = active_at now state.suppressions in
    let expired = expired_at now state.suppressions in
    let expired_events =
      map (λ s. triage_event suppression_expired s now "Suppression expired.") expired in
    if ltb config.max_active_suppressions (length active)
    then (let by_use = sorted used_le active in
        let prune_count = length by_use - config.max_active_suppressions in
        let stale = take prune_count by_use in
        record {
          state = state_of (drop prune_count by_use);
          events =
              expired_events
              ++ map
                  (λ s. triage_event suppression_pruned s now "Active suppression limit exceeded.")
                  stale;
          expired_count = length expired;
          pruned_count = length stale;
        })
    else record {
      state = state_of active;
      events = expired_events;
      expired_count = length expired;
      pruned_count = 0;
    }

-- `a and b and a != b`, where a missing reference and an empty one count as false.
abbrev pub refs_differ : Option String → Option String → Bool
refs_differ none _ = false
refs_differ (some a) none = false
refs_differ (some a) (some b) = not (a == "") && not (b == "") && not (a == b)

abbrev pub packs_differ : String → String → Bool
packs_differ a b = not (a == "") && not (b == "") && not (a == b)

abbrev pub stale_reason : String
stale_reason = "Context pack changed since suppression was created."

pub matching_suppression :
    FindingSnapshot
    → List FindingSuppression
    → Option String
    → Datetime
    → Option (FindingSuppression × String)
unfolding is_expired
matching_suppression snapshot [] target_base_ref now = none
matching_suppression snapshot (suppression ∷ rest) target_base_ref now =
    let later = matching_suppression snapshot rest target_base_ref now in
    if not (suppression.finding_fingerprint == snapshot.fingerprint)
    then later
    else if is_expired suppression now
    then later
    else if refs_differ suppression.target_base_ref target_base_ref
    then later
    else if packs_differ suppression.context_pack_fingerprint snapshot.context_pack_fingerprint
    then some (suppression, stale_reason)
    else some (suppression, "")

-- The local variables of `apply_suppressions`.
pub record ApplyState : Type 0 where
  pub remaining : List Finding
  pub suppressed : List SuppressedFinding
  pub stale : List StaleSuppression
  pub events : List TriageEvent
  pub stale_ids : List String
  pub updated_by_id : Dict String FindingSuppression

abbrev pub touched : Datetime → FindingSuppression → FindingSuppression
touched now suppression = record suppression {
  last_matched_at = some now;
  match_count = suppression.match_count + 1;
}

-- One round of the loop, by what `_matching_suppression` returned.
pub apply_match :
    Datetime → FindingCandidate → Option (FindingSuppression × String) → ApplyState → ApplyState
unfolding triage_event insert
apply_match now candidate none st = record st { remaining = st.remaining ++ candidate.finding ∷ [] }
apply_match now candidate (some (suppression, reason)) st =
    if not (reason == "")
    then if contains suppression.id st.stale_ids
      then record st { remaining = st.remaining ++ candidate.finding ∷ [] }
      else record st {
        remaining = st.remaining ++ candidate.finding ∷ [];
        stale =
            st.stale
            ++ record {
              finding = candidate.finding;
              suppression = suppression;
              snapshot = candidate.snapshot;
              reason = reason;
            }
              ∷ [];
        events = st.events ++ triage_event suppression_stale suppression now reason ∷ [];
        stale_ids = suppression.id ∷ st.stale_ids;
      }
    else (let updated = touched now suppression in
        record st {
          suppressed =
              st.suppressed
              ++ record {
                finding = candidate.finding;
                suppression = updated;
                snapshot = candidate.snapshot;
              }
                ∷ [];
          events = st.events ++ triage_event suppression_matched updated now updated.reason ∷ [];
          updated_by_id = insert suppression.id updated st.updated_by_id;
        })

pub apply_candidates :
    List FindingSuppression
    → Option String
    → Datetime
    → List FindingCandidate
    → ApplyState
    → ApplyState
unfolding apply_match matching_suppression
apply_candidates suppressions target_base_ref now [] st = st
apply_candidates suppressions target_base_ref now (candidate ∷ rest) st =
    apply_candidates suppressions target_base_ref now rest (
      apply_match now candidate
        (matching_suppression candidate.snapshot suppressions target_base_ref now) st)

abbrev get_or : Option FindingSuppression → FindingSuppression → FindingSuppression
get_or none s = s
get_or (some t) _ = t

-- `updated_by_id.get(suppression.id, suppression)` of the suppressions that are not stale.
pub next_suppressions :
    List String → Dict String FindingSuppression → List FindingSuppression → List FindingSuppression
next_suppressions stale_ids updated_by_id suppressions =
    map (λ s. get_or (lookup s.id updated_by_id) s)
      (filter (λ s. not (contains s.id stale_ids)) suppressions)

abbrev pub start : ApplyState
start = record {
  remaining = [];
  suppressed = [];
  stale = [];
  events = [];
  stale_ids = [];
  updated_by_id = [];
}

pub apply_suppressions :
    List FindingCandidate → TriageState → Option String → Datetime → TriageApplyResult
unfolding apply_candidates next_suppressions
apply_suppressions candidates state target_base_ref now =
    let st = apply_candidates state.suppressions target_base_ref now candidates start in
    record {
      remaining_findings = st.remaining;
      suppressed_findings = st.suppressed;
      stale_suppressions = st.stale;
      state = state_of (next_suppressions st.stale_ids st.updated_by_id state.suppressions);
      events = st.events;
      stale_count = length st.stale_ids;
    }
