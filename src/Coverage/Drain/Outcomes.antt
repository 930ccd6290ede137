-- ===== src/Coverage/Drain/Outcomes.antt =====
-- What the four stop reasons of the drain loop mean.
use apex_ray.Base.{
  ℕ, zero, suc, ◌+◌, ◌≤◌, ◌≡◌, refl, subst, inl, inr, String, true, false, none, some, List, [],
  ◌∷◌, arith, Bool-cases,
}
use apex_ray.Coverage.{ReviewReport, coverage_is_complete}
use apex_ray.Coverage.Drain.{
  Result, raised, returned, StopReason, complete, no_eligible_work, no_progress, max_batches,
  CoverageDrainResult, Progress, progress_le, Services, pending_context_pack_ids, progress_key,
  next_batch, stopped, validated, after_batch, drain, start_drain,
}

-- Strictly behind, in the order of tuples.
progress_trans :
    (a b c : Progress) → progress_le b a ≡ false → progress_le c b ≡ false → progress_le c a ≡ false
unfolding progress_le
progress_trans a b c h k = ground arith

module _ (services : Services) where
  -- After no batch the report is the one at hand; after some it has made progress.
  abbrev pub Rises : ℕ → ReviewReport → ReviewReport → Type 0
  Rises zero current final = final ≡ current
  Rises (suc left) current final =
      progress_le (progress_key services final) (progress_key services current) ≡ false

  Rises-step :
      (left : ℕ) (current next final : ReviewReport)
      → progress_le (progress_key services next) (progress_key services current) ≡ false
      → Rises left next final
      → Rises (suc left) current final
  Rises-step zero current next final h same = rw same h
  Rises-step (suc left) current next final h rises =
      progress_trans (progress_key services current) (progress_key services next)
        (progress_key services final) h rises

  -- What a result says, by its reason, of a loop that starts with `left` batches to go after `done`.
  abbrev pub Outcome : ℕ → ℕ → ReviewReport → CoverageDrainResult → StopReason → Type 0
  Outcome left done current r complete =
      (r.is_complete ≡ true) × (coverage_is_complete r.report services.reviewer_ids ≡ true)
  Outcome left done current r no_eligible_work =
      (r.is_complete ≡ false) × (pending_context_pack_ids services r.report ≡ [])
  Outcome left done current r no_progress =
      (r.is_complete ≡ false) × (coverage_is_complete r.report services.reviewer_ids ≡ false)
  Outcome left done current r max_batches =
      (r.is_complete ≡ false) × (r.batches ≡ done + left) × Rises left current r.report

  pub record IsOutcome (left done : ℕ) (current : ReviewReport) (r : CoverageDrainResult)
      : Type 0 where
    pub batches : r.batches ≤ done + left
    pub reason : Outcome left done current r r.stop_reason

  -- The same of what a call returns, if it returns.
  abbrev pub Ends : ℕ → ℕ → ReviewReport → Result CoverageDrainResult → Type 0
  Ends left done current (raised message) = Unit
  Ends left done current (returned r) = IsOutcome left done current r

  validated-Ends :
      (left done : ℕ) (current report : ReviewReport) (rest : Result CoverageDrainResult)
      → Ends left done current rest
      → Ends left done current (validated services report rest)
  validated-Ends left done current report rest h =
      elim (services.validate report)
        as (λ o. Ends left done current (elim o [ some message ↦ raised message | none ↦ rest ])) [
          | some message ↦ tt
          | none ↦ h
        ]

  Outcome-step :
      (left done : ℕ) (current next : ReviewReport) (r : CoverageDrainResult) (reason : StopReason)
      → progress_le (progress_key services next) (progress_key services current) ≡ false
      → Outcome left (suc done) next r reason
      → Outcome (suc left) done current r reason
  Outcome-step left done current next r complete h o = o
  Outcome-step left done current next r no_eligible_work h o = o
  Outcome-step left done current next r no_progress h o = o
  Outcome-step left done current next r max_batches h o =
      (o.0, omega (arith, o.1), Rises-step left current next r.report h o.2)

  Ends-step :
      (left done : ℕ) (current next : ReviewReport) (rest : Result CoverageDrainResult)
      → progress_le (progress_key services next) (progress_key services current) ≡ false
      → Ends left (suc done) next rest
      → Ends (suc left) done current rest
  Ends-step left done current next (raised message) h o = tt
  Ends-step left done current next (returned r) h o = record {
    batches = omega (arith, o.batches);
    reason = Outcome-step left done current next r r.stop_reason h o.reason;
  }

  after_batch-Ends :
      (left done : ℕ) (current next : ReviewReport) (rest : Result CoverageDrainResult)
      → Ends left (suc done) next rest
      → Ends (suc left) done current (after_batch services current next (suc done) rest)
  unfolding after_batch
  after_batch-Ends left done current next rest h =
      elim (Bool-cases (coverage_is_complete next services.reviewer_ids)) [
        | inl e ↦ rw (after_batch, e) (record { batches = omega arith; reason = (refl, e) })
        | inr e ↦
            elim (Bool-cases
              (progress_le (progress_key services next) (progress_key services current))) [
                | inl stuck ↦
                    rw (after_batch, e, stuck)
                      (record { batches = omega arith; reason = (refl, e) })
                | inr rises ↦
                    rw (after_batch, e, rises) (Ends-step left done current next rest rises h)
              ]
      ]

  called-Ends :
      (left done : ℕ) (current : ReviewReport) (call : Result ReviewReport)
      (rest : ReviewReport → Result CoverageDrainResult)
      → ((next : ReviewReport) → Ends left done current (rest next))
      → Ends left done current (elim call [
        | raised message ↦ raised message
        | returned next ↦ validated services next (rest next)
      ])
  called-Ends left done current (raised message) rest h = tt
  called-Ends left done current (returned next) rest h =
      validated-Ends left done current next (rest next) (h next)

  pending-Ends :
      (left done : ℕ) (current : ReviewReport) (pending : List String)
      (rest : List String → Result CoverageDrainResult)
      → pending_context_pack_ids services current ≡ pending
      → ((ids : List String) → Ends (suc left) done current (rest ids))
      → Ends (suc left) done current (elim pending [
        | [] ↦ stopped services current false done no_eligible_work
        | i ∷ ids ↦ rest (i ∷ ids)
      ])
  pending-Ends left done current [] rest e h = record { batches = omega arith; reason = (refl, e) }
  pending-Ends left done current (i ∷ ids) rest e h = h (i ∷ ids)

  drain-Ends :
      (left done : ℕ) (current : ReviewReport)
      → Ends left done current (drain services left done current)
  unfolding drain
  drain-Ends zero done current = record {
    batches = omega arith;
    reason = (refl, omega arith, refl);
  }
  drain-Ends (suc left) done current =
      let after : ReviewReport → Result CoverageDrainResult = λ next.
        after_batch services current next (suc done) (drain services left (suc done) next) in
      let rest : List String → Result CoverageDrainResult = λ ids.
        elim (services.continue_review (next_batch services current ids) current) [
          | raised message ↦ raised message
          | returned next ↦ validated services next (after next)
        ] in
      validated-Ends (suc left) done current current _ (
        pending-Ends left done current (pending_context_pack_ids services current) rest refl (λ ids.
          called-Ends (suc left) done current
            (services.continue_review (next_batch services current ids) current) after
            (λ next. after_batch-Ends left done current next _ (drain-Ends left (suc done) next))))

  -- The result of the loop and of the test before it, started on a report.
  start_drain-Ends :
      (limit : ℕ) (current : ReviewReport)
      → Ends limit 0 current (start_drain services limit current)
  unfolding start_drain
  start_drain-Ends limit current =
      elim (Bool-cases (coverage_is_complete current services.reviewer_ids)) [
        | inl e ↦ rw e (record { batches = omega arith; reason = (refl, e) })
        | inr e ↦ rw e (drain-Ends limit 0 current)
      ]

  -- If `start_drain` returns, it has run at most as many batches as the limit says, and its stop reason is
  -- true: "complete" exactly if the result says so, and then the returned report is complete for the
  -- reviewers; "no_eligible_work" if no pack of it is pending; "no_progress" if it is not complete; and
  -- "max_batches" if all batches were run and, if there was any, made strict progress from the given
  -- report to the returned one.
  pub start_drain-IsOutcome :
      (limit : ℕ) (current : ReviewReport) (r : CoverageDrainResult)
      → start_drain services limit current ≡ returned r
      → IsOutcome limit 0 current r
  start_drain-IsOutcome limit current r e =
      subst (Ends limit 0 current) e (start_drain-Ends limit current)
