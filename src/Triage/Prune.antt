-- ===== src/Triage/Prune.antt =====
-- `prune_triage_state` keeps the active suppressions that were used last, up to the configured number.
use mathlib.Core.List
use mathlib.Core.List.{Perm}
use mathlib.Core.List.Perm
use apex_ray.Base.{
  ℕ, zero, suc, ◌+◌, ◌-◌, ◌≤◌, ◌≡◌, refl, sym, inl, inr, true, false, List, [], ◌∷◌, ◌++◌, map,
  arith, ltb, leb→le, length, take, drop, All, Bool-cases, length-drop, length-take,
  length-filter-not,
}
use apex_ray.Base.Distinct.{All-drop}
use apex_ray.Base.Sort.{sorted, sorted-perm, IsSorted, sorted-IsSorted, length-sorted}
use apex_ray.Models.{TriageConfig}
use apex_ray.Triage.{
  Datetime, FindingSuppression, TriageState, prune_triage_state, is_expired, last_used, used_le,
  active_at, expired_at, TriagePruneResult, TriageEvent, triage_event, suppression_expired,
  suppression_pruned,
}

length-map {ℓ κ} :
    {A : Type ℓ} {B : Type κ} (f : A → B) (xs : List A) → length (map f xs) ≡ length xs
length-map f [] = refl
length-map f (x ∷ xs) = omega (arith, length-map f xs)

split_length :
    (now : Datetime) (xs : List FindingSuppression)
    → length (expired_at now xs) + length (active_at now xs) ≡ length xs
split_length now xs = length-filter-not (λ s. is_expired s now) xs

-- The events that say which suppressions went, with the reasons the code gives.
abbrev pub expired_event : Datetime → FindingSuppression → TriageEvent
expired_event now s = triage_event suppression_expired s now "Suppression expired."

abbrev pub pruned_event : Datetime → FindingSuppression → TriageEvent
pruned_event now s = triage_event suppression_pruned s now "Active suppression limit exceeded."

used_le_total : (s t : FindingSuppression) → used_le s t ≡ false → used_le t s ≡ true
unfolding used_le
used_le_total s t h = ground arith

used_le_trans :
    (s t u : FindingSuppression) → used_le s t ≡ true → used_le t u ≡ true → used_le s u ≡ true
unfolding used_le
used_le_trans s t u h k = ground arith

-- Each of the first suppressions was used no later than each of the second.
abbrev pub UsedBefore : List FindingSuppression → List FindingSuppression → Type 0
UsedBefore xs ys = All (λ x. All (λ y. last_used x ≤ last_used y) ys) xs

sorted_later :
    (x : FindingSuppression) (xs : List FindingSuppression)
    → All (λ y. used_le x y ≡ true) xs
    → All (λ y. last_used x ≤ last_used y) xs
unfolding used_le
sorted_later x [] h = tt
sorted_later x (y ∷ ys) h = (leb→le _ _ h.0, sorted_later x ys h.1)

take-UsedBefore-drop :
    (n : ℕ) (xs : List FindingSuppression)
    → IsSorted used_le xs
    → UsedBefore (take n xs) (drop n xs)
take-UsedBefore-drop zero xs h = tt
take-UsedBefore-drop (suc n) [] h = tt
take-UsedBefore-drop (suc n) (x ∷ xs) h = (
  All-drop (λ y. last_used x ≤ last_used y) n xs (sorted_later x xs h.0),
  take-UsedBefore-drop n xs h.1,
)

take-append-drop {ℓ} : {A : Type ℓ} (n : ℕ) (xs : List A) → take n xs ++ drop n xs ≡ xs
take-append-drop zero xs = refl
take-append-drop (suc n) [] = refl
take-append-drop (suc n) (x ∷ xs) = rw (take-append-drop n xs)

-- What is kept and what is pruned are together the suppressions that have not expired, and each pruned
-- one was used (last matched or, if never, created) no later than each kept one.
pub prune_triage_state-keeps_newest :
    (state : TriageState) (config : TriageConfig) (now : Datetime)
    → let r = prune_triage_state state config now in
      (pruned : List FindingSuppression) × (length pruned ≡ r.pruned_count)
      × Perm (pruned ++ r.state.suppressions) (active_at now state.suppressions)
      × UsedBefore pruned r.state.suppressions
unfolding prune_triage_state
prune_triage_state-keeps_newest state config now =
    let active = active_at now state.suppressions in
    let by_use = sorted used_le active in
    let k = length by_use - config.max_active_suppressions in
    elim (Bool-cases (ltb config.max_active_suppressions (length active))) [
      | inl over ↦ rw over (
        take k by_use,
        refl,
        rw (take-append-drop k by_use) (sorted-perm used_le active),
        take-UsedBefore-drop k by_use (sorted-IsSorted used_le used_le_total used_le_trans active),
      )
      | inr within ↦ rw within ([], refl, Perm.refl _, tt)
    ]

-- What a run drops and reports: the expired suppressions, and of the active ones the `pruned`, which with the kept ones
-- are all the active ones; one event names each dropped suppression and says which of the two it was.
abbrev pub IsAccounted : TriageState → TriageConfig → Datetime → TriagePruneResult → Type 0
IsAccounted state config now r =
    (pruned : List FindingSuppression) × Perm (pruned ++ r.state.suppressions)
      (active_at now state.suppressions)
    × (r.events
        ≡ map (expired_event now) (expired_at now state.suppressions)
          ++ map (pruned_event now) pruned)
    × (r.expired_count ≡ length (expired_at now state.suppressions))
    × (r.pruned_count ≡ length pruned)
    × (length r.state.suppressions ≤ config.max_active_suppressions)
    × (r.expired_count + r.pruned_count + length r.state.suppressions ≡ length state.suppressions)

-- At most the configured number of suppressions is kept. The events are one for each expired suppression, as expired,
-- and one for each suppression that is dropped without having expired, as pruned, in this order; the pruned ones and the
-- kept ones are together the active ones; and the two counts and the number kept add up to the number given.
pub prune_triage_state-IsAccounted :
    (state : TriageState) (config : TriageConfig) (now : Datetime)
    → IsAccounted state config now (prune_triage_state state config now)
unfolding prune_triage_state
prune_triage_state-IsAccounted state config now =
    let active = active_at now state.suppressions in
    let total = split_length now state.suppressions in
    let by_use = sorted used_le active in
    let k = length by_use - config.max_active_suppressions in
    let same = length-sorted used_le active in
    elim (Bool-cases (ltb config.max_active_suppressions (length active))) [
      | inl over ↦ rw over (
        take k by_use,
        rw (take-append-drop k by_use) (sorted-perm used_le active),
        refl,
        refl,
        refl,
        omega (arith, length-drop k by_use),
        omega (arith, total, length-drop k by_use, length-take k by_use, same),
      )
      | inr within ↦
          rw within (
            [],
            Perm.refl _,
            sym (List.append-nil _),
            refl,
            refl,
            ground arith,
            omega (arith, total),
          )
    ]
