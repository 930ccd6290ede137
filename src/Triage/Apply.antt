-- ===== src/Triage/Apply.antt =====
-- What `apply_suppressions` does with the findings.
use mathlib.Core.List.{Mem}
use mathlib.Core.List
use apex_ray.Base.{
  ◌≡◌, refl, ◌∙◌, sym, ap, inl, inr, String, not, Option, none, some, List, [], ◌∷◌, ◌++◌, map,
  arith, if◌then◌else◌, ◌==◌, ==_iff, string_eq, All, All-append, Bool-cases, Interleaved,
  none_left, left, right,
}
use apex_ray.Models.{Finding}
use apex_ray.Triage.{
  Datetime, FindingSuppression, FindingCandidate, SuppressedFinding, TriageState, ApplyState, start,
  touched, apply_match, apply_candidates, matching_suppression, apply_suppressions,
}
use apex_ray.Triage.Scope.{Concerns, PacksAgree, matching_suppression_sound}

-- One round appends to the lists that the loop has built, so the loop's output is that of a fresh start
-- behind what was there.
module _ (suppressions : List FindingSuppression) (target : Option String) (now : Datetime) where
  -- What the round does with its finding: it remains, or it is suppressed.
  abbrev kept : FindingCandidate → Option (FindingSuppression × String) → List Finding
  kept c none = c.finding ∷ []
  kept c (some (s, reason)) = if not (reason == "") then c.finding ∷ [] else []

  abbrev hidden : FindingCandidate → Option (FindingSuppression × String) → List SuppressedFinding
  hidden c none = []
  hidden c (some (s, reason)) =
      if not (reason == "")
      then []
      else record { finding = c.finding; suppression = touched now s; snapshot = c.snapshot } ∷ []

  apply_match-remaining :
      (c : FindingCandidate) (m : Option (FindingSuppression × String)) (st : ApplyState)
      → (apply_match now c m st).remaining ≡ st.remaining ++ kept c m
  unfolding apply_match
  apply_match-remaining c none st = refl
  apply_match-remaining c (some (s, reason)) st = ground (arith, List.append-nil st.remaining)

  apply_match-suppressed :
      (c : FindingCandidate) (m : Option (FindingSuppression × String)) (st : ApplyState)
      → (apply_match now c m st).suppressed ≡ st.suppressed ++ hidden c m
  unfolding apply_match
  apply_match-suppressed c none st = sym (List.append-nil st.suppressed)
  apply_match-suppressed c (some (s, reason)) st = ground (arith, List.append-nil st.suppressed)

  abbrev match_of : FindingCandidate → Option (FindingSuppression × String)
  match_of c = matching_suppression c.snapshot suppressions target now

  all_kept : List FindingCandidate → List Finding
  all_kept [] = []
  all_kept (c ∷ cs) = kept c (match_of c) ++ all_kept cs

  all_hidden : List FindingCandidate → List SuppressedFinding
  all_hidden [] = []
  all_hidden (c ∷ cs) = hidden c (match_of c) ++ all_hidden cs

  apply_candidates-remaining :
      (cs : List FindingCandidate) (st : ApplyState)
      → (apply_candidates suppressions target now cs st).remaining ≡ st.remaining ++ all_kept cs
  unfolding apply_candidates all_kept
  apply_candidates-remaining [] st = sym (List.append-nil st.remaining)
  apply_candidates-remaining (c ∷ cs) st =
      apply_candidates-remaining cs (apply_match now c (match_of c) st)
      ∙ ap (λ l. l ++ all_kept cs) (apply_match-remaining c (match_of c) st)
      ∙ List.append_assoc st.remaining (kept c (match_of c)) (all_kept cs)

  apply_candidates-suppressed :
      (cs : List FindingCandidate) (st : ApplyState)
      → (apply_candidates suppressions target now cs st).suppressed ≡ st.suppressed ++ all_hidden cs
  unfolding apply_candidates all_hidden
  apply_candidates-suppressed [] st = sym (List.append-nil st.suppressed)
  apply_candidates-suppressed (c ∷ cs) st =
      apply_candidates-suppressed cs (apply_match now c (match_of c) st)
      ∙ ap (λ l. l ++ all_hidden cs) (apply_match-suppressed c (match_of c) st)
      ∙ List.append_assoc st.suppressed (hidden c (match_of c)) (all_hidden cs)

  all_kept-append :
      (cs ds : List FindingCandidate) → all_kept (cs ++ ds) ≡ all_kept cs ++ all_kept ds
  unfolding all_kept
  all_kept-append [] ds = refl
  all_kept-append (c ∷ cs) ds =
      ap (λ l. kept c (match_of c) ++ l) (all_kept-append cs ds)
      ∙ sym (List.append_assoc (kept c (match_of c)) (all_kept cs) (all_kept ds))

  all_hidden-append :
      (cs ds : List FindingCandidate) → all_hidden (cs ++ ds) ≡ all_hidden cs ++ all_hidden ds
  unfolding all_hidden
  all_hidden-append [] ds = refl
  all_hidden-append (c ∷ cs) ds =
      ap (λ l. hidden c (match_of c) ++ l) (all_hidden-append cs ds)
      ∙ sym (List.append_assoc (hidden c (match_of c)) (all_hidden cs) (all_hidden ds))

  interleave_one :
      (c : FindingCandidate) (m : Option (FindingSuppression × String)) (fs : List Finding)
      (ss : List SuppressedFinding) (cs : List FindingCandidate)
      → Interleaved fs (map (λ s. s.finding) ss) (map (λ d. d.finding) cs)
      → Interleaved
          (kept c m ++ fs)
          (map (λ s. s.finding) (hidden c m ++ ss))
          (c.finding ∷ map (λ d. d.finding) cs)
  interleave_one c none fs ss cs i = left i
  interleave_one c (some (s, reason)) fs ss cs i = elim (Bool-cases (reason == "")) [
    | inl e ↦ rw e (right i)
    | inr e ↦ rw e (left i)
  ]

  interleave_all :
      (cs : List FindingCandidate)
      → Interleaved (all_kept cs) (map (λ s. s.finding) (all_hidden cs)) (map (λ c. c.finding) cs)
  unfolding all_kept all_hidden
  interleave_all [] = none_left
  interleave_all (c ∷ cs) =
      interleave_one c (match_of c) (all_kept cs) (all_hidden cs) cs (interleave_all cs)

  -- A suppressed finding is hidden by a suppression of the state, counted once more, that concerns it.
  abbrev pub Justified : SuppressedFinding → Type 0
  Justified h =
      (s : FindingSuppression) × (h.suppression ≡ touched now s)
      × Mem s suppressions
      × Concerns now target h.snapshot s
      × PacksAgree h.snapshot s

  hidden-Justified :
      (c : FindingCandidate) (m : Option (FindingSuppression × String))
      → match_of c ≡ m
      → All Justified (hidden c m)
  hidden-Justified c none e = tt
  hidden-Justified c (some (s, reason)) e = elim (Bool-cases (reason == "")) [
    | inl r ↦
        let e' : match_of c ≡ some (s, "") = rw ((==_iff reason "").0 r) at e in
        let (m, c', p) = matching_suppression_sound now target c.snapshot suppressions s e' in
        rw r ((s, refl, m, c', p), tt)
    | inr r ↦ rw r tt
  ]

  all_hidden-Justified : (cs : List FindingCandidate) → All Justified (all_hidden cs)
  unfolding all_hidden
  all_hidden-Justified [] = tt
  all_hidden-Justified (c ∷ cs) =
      All-append Justified (hidden c (match_of c)) (all_hidden cs)
        (hidden-Justified c (match_of c) refl) (all_hidden-Justified cs)

-- The findings of two lists of candidates are treated alike, one list after the other or each on its own.
pub remaining_findings-append :
    (cs ds : List FindingCandidate) (state : TriageState) (target : Option String) (now : Datetime)
    → (apply_suppressions (cs ++ ds) state target now).remaining_findings
      ≡ (apply_suppressions cs state target now).remaining_findings
        ++ (apply_suppressions ds state target now).remaining_findings
unfolding apply_suppressions
remaining_findings-append cs ds state target now =
    let ss = state.suppressions in
    apply_candidates-remaining ss target now (cs ++ ds) start
    ∙ all_kept-append ss target now cs ds
    ∙ rw
        (
          apply_candidates-remaining ss target now cs start,
          apply_candidates-remaining ss target now ds start,
        )
        refl

pub suppressed_findings-append :
    (cs ds : List FindingCandidate) (state : TriageState) (target : Option String) (now : Datetime)
    → (apply_suppressions (cs ++ ds) state target now).suppressed_findings
      ≡ (apply_suppressions cs state target now).suppressed_findings
        ++ (apply_suppressions ds state target now).suppressed_findings
unfolding apply_suppressions
suppressed_findings-append cs ds state target now =
    let ss = state.suppressions in
    apply_candidates-suppressed ss target now (cs ++ ds) start
    ∙ all_hidden-append ss target now cs ds
    ∙ rw
        (
          apply_candidates-suppressed ss target now cs start,
          apply_candidates-suppressed ss target now ds start,
        )
        refl

-- Every finding either remains or is suppressed, once and in its order: none is lost and none is added.
pub apply_suppressions-partition :
    (candidates : List FindingCandidate) (state : TriageState) (target : Option String)
    (now : Datetime)
    → let result = apply_suppressions candidates state target now in
      Interleaved result.remaining_findings
        (map (λ s. s.finding) result.suppressed_findings)
        (map (λ c. c.finding) candidates)
unfolding apply_suppressions
apply_suppressions-partition candidates state target now =
    rw
      (
        apply_candidates-remaining state.suppressions target now candidates start,
        apply_candidates-suppressed state.suppressions target now candidates start,
      )
      (interleave_all state.suppressions target now candidates)

-- Whatever is suppressed was allowed: by a suppression of the state for the same finding, not expired, for
-- the same base reference and the same context pack where these are known, whose match count rises by
-- one and whose last match is now.
pub apply_suppressions_sound :
    (candidates : List FindingCandidate) (state : TriageState) (target : Option String)
    (now : Datetime)
    → All
        (Justified state.suppressions target now)
        (apply_suppressions candidates state target now).suppressed_findings
unfolding apply_suppressions
apply_suppressions_sound candidates state target now =
    rw (apply_candidates-suppressed state.suppressions target now candidates start)
      (all_hidden-Justified state.suppressions target now candidates)
