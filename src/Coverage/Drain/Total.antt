-- ===== src/Coverage/Drain/Total.antt =====
-- The drain returns when its services do, with an outcome that is true.
use apex_ray.Base.{
  ℕ, zero, suc, ◌≡◌, refl, ◌∙◌, ◌⊎◌, inl, inr, String, Bool, true, false, none, List, [], ◌∷◌,
  if◌then◌else◌, eqb, Bool-cases,
}
use apex_ray.Coverage.{ReviewReport, coverage_is_complete}
use apex_ray.Coverage.Drain.{
  Result, raised, returned, no_eligible_work, CoverageDrainResult, progress_le, Services, Batch,
  pending_context_pack_ids, progress_key, next_batch, stopped, validated, after_batch, drain,
  start_drain, needs_rebase, continue_review_until_complete,
}
use apex_ray.Coverage.Drain.Outcomes.{IsOutcome, start_drain-IsOutcome}

-- A call returned.
abbrev pub Returns : {A : Type 0} → Result A → Type 0
Returns (raised message) = ⊥
Returns (returned a) = Unit

-- The report the loop starts from: the given one, or its rebase where the scope asks for one.
abbrev pub StartsFrom : Services → ReviewReport → ReviewReport → Type 0
StartsFrom services report from =
    ((needs_rebase services report ≡ true) × (services.rebase report ≡ returned from))
    ⊎ ((needs_rebase services report ≡ false) × (report ≡ from))

answer : {A : Type 0} (x : Result A) → Returns x → (a : A) × (x ≡ returned a)
answer (raised message) h = absurd h
answer (returned a) h = (a, refl)

module _ (services : Services) (valid : (report : ReviewReport) → services.validate report ≡ none)
    (reviews : (batch : Batch) (report : ReviewReport)
      → Returns (services.continue_review batch report))
    (rebases : (report : ReviewReport) → Returns (services.rebase report)) where
  validated-Returns :
      (report : ReviewReport) (rest : Result CoverageDrainResult)
      → Returns rest
      → Returns (validated services report rest)
  validated-Returns report rest h = rw (Returns, valid report) h

  called-Returns :
      (call : Result ReviewReport) (rest : ReviewReport → Result CoverageDrainResult)
      → Returns call
      → ((next : ReviewReport) → Returns (rest next))
      → Returns (elim call [
        | raised message ↦ raised message
        | returned next ↦ validated services next (rest next)
      ])
  called-Returns (raised message) rest c h = c
  called-Returns (returned next) rest c h = validated-Returns next (rest next) (h next)

  if-Returns :
      (b : Bool) (x y : Result CoverageDrainResult)
      → Returns x
      → Returns y
      → Returns (if b then x else y)
  if-Returns true x y hx hy = hx
  if-Returns false x y hx hy = hy

  pending-Returns :
      (left done : ℕ) (current : ReviewReport) (pending : List String)
      (rest : List String → Result CoverageDrainResult)
      → ((ids : List String) → Returns (rest ids))
      → Returns (elim pending [
        | [] ↦ stopped services current false done no_eligible_work
        | i ∷ ids ↦ rest (i ∷ ids)
      ])
  pending-Returns left done current [] rest h = tt
  pending-Returns left done current (i ∷ ids) rest h = h (i ∷ ids)

  drain-Returns :
      (left done : ℕ) (current : ReviewReport) → Returns (drain services left done current)
  unfolding drain after_batch
  drain-Returns zero done current = tt
  drain-Returns (suc left) done current =
      let after : ReviewReport → Result CoverageDrainResult = λ next.
        after_batch services current next (suc done) (drain services left (suc done) next) in
      let rest : List String → Result CoverageDrainResult = λ ids.
        elim (services.continue_review (next_batch services current ids) current) [
          | raised message ↦ raised message
          | returned next ↦ validated services next (after next)
        ] in
      validated-Returns current _ (
        pending-Returns left done current (pending_context_pack_ids services current) rest (λ ids.
          called-Returns (services.continue_review (next_batch services current ids) current) after
            (reviews (next_batch services current ids) current)
            (λ next. if-Returns (coverage_is_complete next services.reviewer_ids) _ _ tt (
              if-Returns (progress_le (progress_key services next) (progress_key services current))
                _ _ tt (drain-Returns left (suc done) next)))))

  start_drain-Returns :
      (limit : ℕ) (current : ReviewReport) → Returns (start_drain services limit current)
  unfolding start_drain
  start_drain-Returns limit current =
      if-Returns (coverage_is_complete current services.reviewer_ids) _ _ tt
        (drain-Returns limit 0 current)

  validated_passes :
      (report : ReviewReport) (rest : Result CoverageDrainResult)
      → validated services report rest ≡ rest
  validated_passes report rest = rw (validated, valid report) refl

  drained_from :
      (report from : ReviewReport) (limit : ℕ)
      → StartsFrom services report from
      → eqb services.batch_size 0 ≡ false
      → eqb limit 0 ≡ false
      → continue_review_until_complete services report limit ≡ start_drain services limit from
  unfolding continue_review_until_complete
  drained_from report from limit (inl (e, k)) some_size some_batches =
      rw (some_size, some_batches, validated_passes report, e, k, validated_passes from) refl
  drained_from report from limit (inr (e, k)) some_size some_batches =
      rw (some_size, some_batches, validated_passes report, e, k) refl

  started : (report : ReviewReport) → (from : ReviewReport) × StartsFrom services report from
  started report = elim (Bool-cases (needs_rebase services report)) [
    | inl e ↦ let a = answer (services.rebase report) (rebases report) in (a.0, inl (e, a.1))
    | inr e ↦ (report, inr (e, refl))
  ]

  -- With a batch size and a limit other than 0, if every validation passes, and every batch of reviews
  -- and every rebase returns, then the drain returns, whatever the reports are. The loop starts from the given
  -- report or, where that has to be rebased, from its rebase; it runs at most as many batches as the limit says,
  -- and the stop reason is true of the result as `IsOutcome` says.
  pub continue_review_until_complete-IsOutcome :
      (report : ReviewReport) (limit : ℕ)
      → eqb services.batch_size 0 ≡ false
      → eqb limit 0 ≡ false
      → (from : ReviewReport) × (r : CoverageDrainResult) × StartsFrom services report from
        × (continue_review_until_complete services report limit ≡ returned r)
        × IsOutcome services limit 0 from r
  continue_review_until_complete-IsOutcome report limit some_size some_batches =
      let s = started report in
      let a = answer (start_drain services limit s.0) (start_drain-Returns limit s.0) in
      (
        s.0,
        a.0,
        s.1,
        drained_from report s.0 limit s.1 some_size some_batches ∙ a.1,
        start_drain-IsOutcome services limit s.0 a.0 a.1,
      )
