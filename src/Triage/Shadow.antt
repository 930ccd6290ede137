-- ===== src/Triage/Shadow.antt =====
-- A stale suppression hides the ones behind it: `_matching_suppression` stops at the first suppression that
-- concerns the finding.
use apex_ray.Base.{
  ◌≡◌, refl, sym, ap, ◌∙◌, ◌≢◌, inl, inr, String, Bool, true, false, Option, none, some, List, [],
  ◌∷◌, ◌++◌, arith, ◌==◌, contains, string_eq, ==_refl, ==_iff, All, Bool-cases,
}
use apex_ray.Base.Dict.{Dict, lookup}
use apex_ray.Triage.{
  Datetime, FindingSuppression, FindingCandidate, state_of, stale_reason, apply_match,
  apply_candidates, next_suppressions, apply_suppressions, ApplyState, start, matching_suppression,
  get_or,
}
use apex_ray.Triage.Apply.{remaining_findings-append, suppressed_findings-append}
use apex_ray.Triage.State.{IsTouched, apply_candidates-IsTouched}
use apex_ray.Triage.Scope.{
  skips-Concerns, Concerns, Concerns-skips, skips, outcome, matching_suppression-cons,
  stale_reason-ne-empty,
}

outcome-stale :
    (c : FindingCandidate) (s : FindingSuppression)
    → s.context_pack_fingerprint ≢ ""
    → c.snapshot.context_pack_fingerprint ≢ ""
    → s.context_pack_fingerprint ≢ c.snapshot.context_pack_fingerprint
    → outcome c.snapshot s ≡ stale_reason
unfolding outcome
outcome-stale c s hs hc differ = ground arith

stale_reason-test : (stale_reason == "") ≡ false
stale_reason-test = ground (arith, stale_reason-ne-empty)

-- The first suppression that concerns the finding decides.
matching_suppression-first :
    (c : FindingCandidate) (before : List FindingSuppression) (s : FindingSuppression)
    (rest : List FindingSuppression) (target : Option String) (now : Datetime)
    → All (λ t. ¬ Concerns now target c.snapshot t) before
    → Concerns now target c.snapshot s
    → matching_suppression c.snapshot (before ++ s ∷ rest) target now
      ≡ some (s, outcome c.snapshot s)
matching_suppression-first c [] s rest target now none_before concerns =
    rw
      (
        matching_suppression-cons now target c.snapshot s rest,
        Concerns-skips now target c.snapshot s concerns,
      )
      refl
matching_suppression-first c (t ∷ before) s rest target now none_before concerns =
    elim (Bool-cases (skips now target c.snapshot t)) [
      | inl skipped ↦
          rw (matching_suppression-cons now target c.snapshot t (before ++ s ∷ rest), skipped)
            (matching_suppression-first c before s rest target now none_before.1 concerns)
      | inr found ↦ absurd (none_before.0 (skips-Concerns now target c.snapshot t found))
    ]

module _ (suppressions : List FindingSuppression) (target : Option String) (now : Datetime)
    (i : String) where
  -- A suppression that the loop has found stale stays so.
  apply_match-stale_ids :
      (c : FindingCandidate) (m : Option (FindingSuppression × String)) (st : ApplyState)
      → contains i st.stale_ids ≡ true
      → contains i (apply_match now c m st).stale_ids ≡ true
  unfolding apply_match
  apply_match-stale_ids c none st h = h
  apply_match-stale_ids c (some (s, reason)) st h = elim (Bool-cases (reason == "")) [
    | inl r ↦ rw r h
    | inr r ↦ elim (Bool-cases (contains s.id st.stale_ids)) [
      | inl known ↦ rw (r, known) h
      | inr fresh ↦ rw (r, fresh) (ground (arith, h))
    ]
  ]

  apply_candidates-stale_ids :
      (cs : List FindingCandidate) (st : ApplyState)
      → contains i st.stale_ids ≡ true
      → contains i (apply_candidates suppressions target now cs st).stale_ids ≡ true
  unfolding apply_candidates
  apply_candidates-stale_ids [] st h = h
  apply_candidates-stale_ids (c ∷ cs) st h =
      apply_candidates-stale_ids cs _ (apply_match-stale_ids c _ st h)

-- One round with a stale suppression.
apply_match-stale :
    (c : FindingCandidate) (s : FindingSuppression) (now : Datetime) (st : ApplyState)
    → contains s.id (apply_match now c (some (s, stale_reason)) st).stale_ids ≡ true
unfolding apply_match
apply_match-stale c s now st = elim (Bool-cases (contains s.id st.stale_ids)) [
  | inl known ↦ rw (stale_reason-test, known) known
  | inr fresh ↦ rw (stale_reason-test, fresh) (ground (arith, ==_refl s.id))
]

module _ (c : FindingCandidate) (s : FindingSuppression) (suppressions : List FindingSuppression)
    (target : Option String) (now : Datetime)
    (found : matching_suppression c.snapshot suppressions target now ≡ some (s, stale_reason)) where
  stale_ids-found :
      (cs ds : List FindingCandidate) (st : ApplyState)
      → contains s.id (apply_candidates suppressions target now (cs ++ c ∷ ds) st).stale_ids ≡ true
  unfolding apply_candidates
  stale_ids-found [] ds st =
      rw (apply_candidates, found)
        (apply_candidates-stale_ids suppressions target now s.id ds _
          (apply_match-stale c s now st))
  stale_ids-found (d ∷ cs) ds st = stale_ids-found cs ds _

  remaining-one :
      (apply_suppressions (c ∷ []) (state_of suppressions) target now).remaining_findings
      ≡ c.finding ∷ []
  unfolding apply_suppressions apply_candidates apply_match
  remaining-one = rw (found, stale_reason-test) refl

  suppressed-one :
      (apply_suppressions (c ∷ []) (state_of suppressions) target now).suppressed_findings ≡ []
  unfolding apply_suppressions apply_candidates apply_match
  suppressed-one = rw (found, stale_reason-test) refl

module _ (suppressions : List FindingSuppression) (target : Option String) (now : Datetime)
    (updated : Dict String FindingSuppression) (h : IsTouched suppressions target now updated) where
  latest-id :
      (x : FindingSuppression) (o : Option FindingSuppression)
      → lookup x.id updated ≡ o
      → (get_or o x).id ≡ x.id
  latest-id x none e = refl
  latest-id x (some u) e =
      let (s, m, same, eu) = h x.id u e in ap (λ (t : FindingSuppression). t.id) eu ∙ same

  -- The next state has no suppression with a stale id.
  next_suppressions-without :
      (i : String) (stale_ids : List String) (xs : List FindingSuppression)
      → contains i stale_ids ≡ true
      → All (λ x. (x.id == i) ≡ false) (next_suppressions stale_ids updated xs)
  unfolding next_suppressions
  next_suppressions-without i stale_ids [] k = tt
  next_suppressions-without i stale_ids (x ∷ xs) k = elim (Bool-cases (contains x.id stale_ids)) [
    | inl gone ↦ rw gone (next_suppressions-without i stale_ids xs k)
    | inr live ↦ rw live (
      ap (λ j. j == i) (latest-id x (lookup x.id updated) refl) ∙ other (x.id == i) refl live,
      next_suppressions-without i stale_ids xs k,
    )
  ]
    where
      other : (b : Bool) → (x.id == i) ≡ b → contains x.id stale_ids ≡ false → (x.id == i) ≡ false
      other false e live = e
      other true e live =
          let same = (==_iff x.id i).0 e in
          let clash : true ≡ false = sym k ∙ ap (λ j. contains j stale_ids) (sym same) ∙ live in cc

-- Let the first suppression that concerns a candidate have been made for another context pack, with both packs known.
-- Then, whatever candidates stand before and behind this one and whatever suppressions stand behind that one, also one
-- made for this very pack: the finding remains, in its place among the findings that remain of the others; it is not
-- suppressed; and no suppression with the id of the stale one is left in the state.
pub stale_first_shadows :
    (cs ds : List FindingCandidate) (c : FindingCandidate) (before rest : List FindingSuppression)
    (s : FindingSuppression) (target : Option String) (now : Datetime)
    → All (λ t. ¬ Concerns now target c.snapshot t) before
    → Concerns now target c.snapshot s
    → s.context_pack_fingerprint ≢ ""
    → c.snapshot.context_pack_fingerprint ≢ ""
    → s.context_pack_fingerprint ≢ c.snapshot.context_pack_fingerprint
    → let run = λ (xs : List FindingCandidate).
      apply_suppressions xs (state_of (before ++ s ∷ rest)) target now in
      let r = run (cs ++ c ∷ ds) in
      (r.remaining_findings
        ≡ (run cs).remaining_findings ++ c.finding ∷ (run ds).remaining_findings)
      × (r.suppressed_findings ≡ (run cs).suppressed_findings ++ (run ds).suppressed_findings)
      × All (λ x. (x.id == s.id) ≡ false) r.state.suppressions
unfolding apply_suppressions
stale_first_shadows cs ds c before rest s target now none_before concerns hs hc differ =
    let ss = before ++ s ∷ rest in
    let state = state_of ss in
    let found : matching_suppression c.snapshot ss target now ≡ some (s, stale_reason) =
      matching_suppression-first c before s rest target now none_before concerns
      ∙ ap (λ o. some (s, o)) (outcome-stale c s hs hc differ) in
    let st = apply_candidates ss target now (cs ++ c ∷ ds) start in
    (
      remaining_findings-append cs (c ∷ ds) state target now
          ∙ ap (λ l. (apply_suppressions cs state target now).remaining_findings ++ l)
              (remaining_findings-append (c ∷ []) ds state target now
                ∙ ap (λ l. l ++ (apply_suppressions ds state target now).remaining_findings)
                    (remaining-one c s ss target now found)),
      suppressed_findings-append cs (c ∷ ds) state target now
          ∙ ap (λ l. (apply_suppressions cs state target now).suppressed_findings ++ l)
              (suppressed_findings-append (c ∷ []) ds state target now
                ∙ ap (λ l. l ++ (apply_suppressions ds state target now).suppressed_findings)
                    (suppressed-one c s ss target now found)),
      next_suppressions-without ss target now st.updated_by_id
          (apply_candidates-IsTouched ss target now (cs ++ c ∷ ds) start (λ k u e. cc)) s.id
          st.stale_ids ss (stale_ids-found c s ss target now found cs ds start),
    )
