-- ===== src/Triage/State.antt =====
-- The triage state stays well formed under every operation.
use mathlib.Core.Logic.Or
use mathlib.Core.List.{Mem, mem-cons, not-mem-nil}
use mathlib.Core.Bool.{Bool-set}
use apex_ray.Base.{
  ◌⊎◌, ◌≡◌, refl, sym, ◌∙◌, inl, inr, String, Bool, true, false, not, Option, none, some, List, [],
  ◌∷◌, arith, ◌==◌, ==_iff, string_eq, String-set, option_eq, filter, contains, All, Bool-cases,
  Option-cases, ltb, length,
}
use apex_ray.Base.Dict.{Dict, lookup, insert, lookup-insert}
use apex_ray.Base.Distinct.{
  Distinct, Distinct-filter, Distinct-drop, Distinct-snoc, Distinct-map, Distinct-sorted,
  filter-All, All-filter, mem-All, Hides, All-of-mem,
}
use apex_ray.Models.{TriageConfig}
use apex_ray.Triage.{
  Datetime, FindingSuppression, FindingCandidate, TriageState, active_at, is_expired, ApplyState,
  start, touched, same_scope, add_or_replace_suppression, remove_suppressions, prune_triage_state,
  used_le, apply_match, apply_candidates, next_suppressions, matching_suppression,
  apply_suppressions, get_or,
}
use apex_ray.Triage.Scope.{matching_suppression_sound}

unfoldable pub same_id : FindingSuppression → FindingSuppression → Bool
same_id s t = s.id == t.id

-- No two suppressions share an id, and no two have the same finding, context pack and base reference.
pub record IsValid (state : TriageState) : Type 0 where
  pub ids : Distinct same_id state.suppressions
  pub scopes : Distinct same_scope state.suppressions

same_id_comm : (s t : FindingSuppression) → same_id s t ≡ same_id t s
unfolding same_id
same_id_comm s t = ground arith

same_scope_comm : (s t : FindingSuppression) → same_scope s t ≡ same_scope t s
unfolding same_scope
same_scope_comm s t = ground (arith, ref_comm s.target_base_ref t.target_base_ref)
  where
    ref_comm : (a b : Option String) → (a == b) ≡ (b == a)
    ref_comm a b = ground arith

eq_false_of_not : (b : Bool) → not b ≡ true → b ≡ false
eq_false_of_not b h = ground arith

All-not {ℓ} :
    {A : Type ℓ} (p : A → Bool) (xs : List A)
    → All (λ x. not (p x) ≡ true) xs
    → All (λ x. p x ≡ false) xs
All-not p [] h = tt
All-not p (x ∷ xs) h = (eq_false_of_not (p x) h.0, All-not p xs h.1)

-- Adding a suppression under a fresh id keeps the state valid: it replaces the one of its scope.
pub add_or_replace_suppression-IsValid :
    (state : TriageState) (s : FindingSuppression)
    → IsValid state
    → All (λ t. same_id t s ≡ false) state.suppressions
    → IsValid (add_or_replace_suppression state s)
unfolding add_or_replace_suppression
add_or_replace_suppression-IsValid state s v fresh =
    let replaced : FindingSuppression → Bool = λ t. same_scope t s in
    record {
      ids =
          Distinct-snoc same_id _ s (Distinct-filter same_id (λ t. not (replaced t)) _ v.ids) (
            All-filter (λ t. same_id t s ≡ false) (λ t. not (replaced t)) state.suppressions fresh);
      scopes =
          Distinct-snoc same_scope _ s
            (Distinct-filter same_scope (λ t. not (replaced t)) _ v.scopes)
            (All-not replaced _ (filter-All (λ t. not (replaced t)) state.suppressions));
    }

pub remove_suppressions-IsValid :
    (state : TriageState) (selector : String) (now : Datetime)
    → IsValid state
    → IsValid (remove_suppressions state selector now).0
unfolding remove_suppressions
remove_suppressions-IsValid state selector now v = record {
  ids = Distinct-filter same_id _ state.suppressions v.ids;
  scopes = Distinct-filter same_scope _ state.suppressions v.scopes;
}

pub prune_triage_state-IsValid :
    (state : TriageState) (config : TriageConfig) (now : Datetime)
    → IsValid state
    → IsValid (prune_triage_state state config now).state
unfolding prune_triage_state
prune_triage_state-IsValid state config now v =
    let active = active_at now state.suppressions in
    let ids = Distinct-filter same_id (λ s. not (is_expired s now)) _ v.ids in
    let scopes = Distinct-filter same_scope (λ s. not (is_expired s now)) _ v.scopes in
    elim (Bool-cases (ltb config.max_active_suppressions (length active))) [
      | inl over ↦ rw over (record {
        ids = Distinct-drop same_id _ _ (Distinct-sorted same_id same_id_comm used_le active ids);
        scopes =
            Distinct-drop same_scope _ _
              (Distinct-sorted same_scope same_scope_comm used_le active scopes);
      })
      | inr within ↦ rw within (record { ids = ids; scopes = scopes })
    ]

-- What `updated_by_id` holds: suppressions of the state, touched.
module _ (suppressions : List FindingSuppression) (target : Option String) (now : Datetime) where
  abbrev pub IsTouched : Dict String FindingSuppression → Type 0
  IsTouched updated =
      (k : String) (u : FindingSuppression)
      → lookup k updated ≡ some u
      → (s : FindingSuppression) × Mem s suppressions × (s.id ≡ k) × (u ≡ touched now s)

  insert-IsTouched :
      (s : FindingSuppression) (updated : Dict String FindingSuppression)
      → Mem s suppressions
      → IsTouched updated
      → IsTouched (insert s.id (touched now s) updated)
  insert-IsTouched s updated m h k u e = elim (Bool-cases (k == s.id)) [
    | inl same ↦
        let e' = rw (lookup-insert k s.id (touched now s) updated, same) at e in
        (s, m, sym ((==_iff k s.id).0 same), cc)
    | inr differ ↦ h k u (rw (lookup-insert k s.id (touched now s) updated, differ) at e)
  ]

  apply_match-IsTouched :
      (c : FindingCandidate) (st : ApplyState) (m : Option (FindingSuppression × String))
      → matching_suppression c.snapshot suppressions target now ≡ m
      → IsTouched st.updated_by_id
      → IsTouched (apply_match now c m st).updated_by_id
  unfolding apply_match
  apply_match-IsTouched c st none e h = h
  apply_match-IsTouched c st (some (s, reason)) e h = elim (Bool-cases (reason == "")) [
    | inl r ↦
        let e' = rw ((==_iff reason "").0 r) at e in
        let found = matching_suppression_sound now target c.snapshot suppressions s e' in
        rw r (insert-IsTouched s st.updated_by_id found.0 h)
    | inr r ↦ elim (Bool-cases (contains s.id st.stale_ids)) [
      | inl known ↦ rw (r, known) h
      | inr fresh ↦ rw (r, fresh) h
    ]
  ]

  pub apply_candidates-IsTouched :
      (cs : List FindingCandidate) (st : ApplyState)
      → IsTouched st.updated_by_id
      → IsTouched (apply_candidates suppressions target now cs st).updated_by_id
  unfolding apply_candidates
  apply_candidates-IsTouched [] st h = h
  apply_candidates-IsTouched (c ∷ cs) st h =
      apply_candidates-IsTouched cs _ (apply_match-IsTouched c st _ refl h)

FindingSuppression-set : IsSet FindingSuppression
FindingSuppression-set = hlevel String-set

-- In a valid state an id determines its suppression.
same_id-eq :
    (s t : FindingSuppression) (xs : List FindingSuppression)
    → Distinct same_id xs
    → Mem s xs
    → Mem t xs
    → same_id s t ≡ true
    → s ≡ t
same_id-eq s t [] d ms mt e = absurd (not-mem-nil ms)
same_id-eq s t (x ∷ xs) d ms mt e =
    let apart : (u : FindingSuppression) → Mem u xs → same_id x u ≡ false =
      λ u m. mem-All (λ y. same_id x y ≡ false) (λ y. Bool-set _ _) u xs d.0 m in
    Or.elim (FindingSuppression-set s t) (mem-cons.0 ms)
      (λ es.
        Or.elim (FindingSuppression-set s t) (mem-cons.0 mt) (λ et. es ∙ sym et)
          (λ mt'. let differ = apart t mt' in absurd (cc)))
      (λ ms'.
        Or.elim (FindingSuppression-set s t) (mem-cons.0 mt)
          (λ et. let differ = apart s ms' in let flip = same_id_comm s t in absurd (cc))
          (λ mt'. same_id-eq s t xs d.1 ms' mt' e))

-- A suppression that is touched keeps its id and its scope.
touched-Hides_id : (now : Datetime) (s : FindingSuppression) → Hides same_id (touched now) s
unfolding same_id
touched-Hides_id now s t = (refl, refl)

touched-Hides_scope : (now : Datetime) (s : FindingSuppression) → Hides same_scope (touched now) s
unfolding same_scope
touched-Hides_scope now s t = (refl, refl)

module _ (suppressions : List FindingSuppression) (now : Datetime) (target : Option String)
    (updated : Dict String FindingSuppression) (d : Distinct same_id suppressions)
    (h : IsTouched suppressions target now updated) where
  latest : FindingSuppression → FindingSuppression
  latest s = get_or (lookup s.id updated) s

  latest-cases :
      (s : FindingSuppression) → Mem s suppressions → (latest s ≡ s) ⊎ (latest s ≡ touched now s)
  unfolding latest
  latest-cases s m = elim (Option-cases (lookup s.id updated)) [
    | inl e ↦ inl (rw e)
    | inr (u, e) ↦
        let (t, mt, same, eu) = h s.id u e in
        let id_eq : same_id t s ≡ true = unfold same_id in (==_iff t.id s.id).1 same in
        let q : t ≡ s = same_id-eq t s suppressions d mt m id_eq in inr (rw (e, eu, q))
  ]

  latest-Hides_id : (s : FindingSuppression) → Mem s suppressions → Hides same_id latest s
  latest-Hides_id s m = elim (latest-cases s m) [
    | inl e ↦ λ t. rw e (refl, refl)
    | inr e ↦ λ t. rw e (touched-Hides_id now s t)
  ]

  latest-Hides_scope : (s : FindingSuppression) → Mem s suppressions → Hides same_scope latest s
  latest-Hides_scope s m = elim (latest-cases s m) [
    | inl e ↦ λ t. rw e (refl, refl)
    | inr e ↦ λ t. rw e (touched-Hides_scope now s t)
  ]

  next_suppressions-Distinct :
      (R : FindingSuppression → FindingSuppression → Bool)
      → ((s : FindingSuppression) → Mem s suppressions → Hides R latest s)
      → Distinct R suppressions
      → (stale_ids : List String) → Distinct R (next_suppressions stale_ids updated suppressions)
  unfolding next_suppressions latest
  next_suppressions-Distinct R hides dr stale_ids =
      let live : FindingSuppression → Bool = λ s. not (contains s.id stale_ids) in
      Distinct-map R latest (filter live suppressions)
        (All-filter (Hides R latest) live suppressions
          (All-of-mem (Hides R latest) suppressions hides))
        (Distinct-filter R live suppressions dr)

pub apply_suppressions-IsValid :
    (candidates : List FindingCandidate) (state : TriageState) (target : Option String)
    (now : Datetime)
    → IsValid state
    → IsValid (apply_suppressions candidates state target now).state
unfolding apply_suppressions
apply_suppressions-IsValid candidates state target now v =
    let st = apply_candidates state.suppressions target now candidates start in
    let h =
      apply_candidates-IsTouched state.suppressions target now candidates start (λ k u e. cc) in
    record {
      ids =
          next_suppressions-Distinct state.suppressions now target st.updated_by_id v.ids h same_id
            (latest-Hides_id state.suppressions now target st.updated_by_id v.ids h) v.ids
            st.stale_ids;
      scopes =
          next_suppressions-Distinct state.suppressions now target st.updated_by_id v.ids h
            same_scope (latest-Hides_scope state.suppressions now target st.updated_by_id v.ids h)
            v.scopes st.stale_ids;
    }

-- The operations that change the triage state.
pub data Step (s : TriageState) : TriageState → Type 0 where
  replace :
      (t : FindingSuppression)
      → All (λ u. same_id u t ≡ false) s.suppressions
      → Step s (add_or_replace_suppression s t)
  remove : (selector : String) (now : Datetime) → Step s (remove_suppressions s selector now).0
  prune : (config : TriageConfig) (now : Datetime) → Step s (prune_triage_state s config now).state
  apply :
      (candidates : List FindingCandidate) (target : Option String) (now : Datetime)
      → Step s (apply_suppressions candidates s target now).state

pub data Reach (s : TriageState) : TriageState → Type 0 where
  here : Reach s s
  next : {t u : TriageState} → Reach s t → Step t u → Reach s u

Step-IsValid : {s t : TriageState} → IsValid s → Step s t → IsValid t
Step-IsValid {s} v (replace t fresh) = add_or_replace_suppression-IsValid s t v fresh
Step-IsValid {s} v (remove selector now) = remove_suppressions-IsValid s selector now v
Step-IsValid {s} v (prune config now) = prune_triage_state-IsValid s config now v
Step-IsValid {s} v (apply candidates target now) =
    apply_suppressions-IsValid candidates s target now v

-- In every state that adding under fresh ids, removing, pruning and applying reach from a valid one, no
-- two suppressions share an id, and no two have the same finding, context pack and base reference.
pub Reach-IsValid : {s t : TriageState} → IsValid s → Reach s t → IsValid t
Reach-IsValid v here = v
Reach-IsValid v (next r st) = Step-IsValid (Reach-IsValid v r) st
