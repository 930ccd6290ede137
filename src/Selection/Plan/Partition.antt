-- ===== src/Selection/Plan/Partition.antt =====
-- What a plan says of each pack, by its id.
use apex_ray.Base.{
  ◌≡◌, refl, sym, ap, ◌∙◌, inl, inr, String, Bool, true, false, not, none, some, List, [], ◌∷◌, map,
  ◌&&◌, ◌||◌, any, filter, arith, if◌then◌else◌, ◌==◌, contains, string_eq, Bool-cases, ==_iff,
}
use apex_ray.Base.Contains.{contains-filter, contains-kept, map-filter}
use apex_ray.Selection.Plan.Disjoint.{contains-selected_items}
use apex_ray.Base.Dict.{Dict, insert, lookup, lookup-insert}
use apex_ray.Models.{ChangedFile, ContextPack, Priority}
use apex_ray.Selection.Plan.{
  Prompts, Limits, is_fast, is_over, plan_stages, plan_llm_context_selection, selection_of,
  skipped_reasons, item_ids, selected_items, effective_over_budget_ids, deep_over_budget_ids,
  shallow_over_budget_ids, token_budget_items, skipped_reason,
}

if-either {ℓ} : {A : Type ℓ} (b : Bool) (x y : A) → x ≡ y → (if b then some x else some y) ≡ some x
if-either true x y e = refl
if-either false x y e = ap some (sym e)

pub lookup-skipped_reasons :
    (reason : String → String) (i : String) (reasons : Dict String String) (ids : List String)
    → lookup i (skipped_reasons reason reasons ids)
      ≡ (if contains i ids then some (reason i) else lookup i reasons)
unfolding skipped_reasons
lookup-skipped_reasons reason i reasons [] = refl
lookup-skipped_reasons reason i reasons (j ∷ ids) =
    let rest = lookup-skipped_reasons reason i (insert j (reason j) reasons) ids in
    let inserted = lookup-insert i j (reason j) reasons in
    elim (Bool-cases (i == j)) [
      | inl same ↦
          rw (rest, inserted, same)
            (if-either (contains i ids) (reason i) (reason j) (ap reason ((==_iff i j).0 same)))
      | inr other ↦ rw (rest, inserted, other) refl
    ]

pub contains-ids_of :
    (i : String) (p : ContextPack → Bool) (packs : List ContextPack)
    → contains i (map (λ (q : ContextPack). q.id) (filter p packs))
      ≡ any (λ q. (i == q.id) && p q) packs
contains-ids_of i p [] = refl
contains-ids_of i p (q ∷ packs) = elim (Bool-cases (p q)) [
  | inl e ↦ ground (arith, e, contains-ids_of i p packs)
  | inr e ↦ ground (arith, e, contains-ids_of i p packs)
]

contains-over :
    (i : String) (fast : Bool) (deep shallow : List String)
    → contains i
        (if fast then deep else filter (λ j. contains j (if fast then [] else shallow)) deep)
      ≡ contains i deep && (fast || contains i shallow)
contains-over i true deep shallow = ground arith
contains-over i false deep shallow =
    ground (arith, contains-filter (λ j. contains j shallow) i deep)

-- The reason, by what the tests tell.
abbrev why : Bool → Bool → String
why large token =
    if large
    then "over context budget"
    else if token
    then "not selected by LLM token budget"
    else "not selected by LLM pack cap"

-- The reason in the dict, by what the tests tell.
settle :
    (selected unselected large is_large token is_token : Bool)
    → unselected ≡ not selected
    → is_large ≡ large
    → token ≡ is_token
    → (if unselected then some (why is_large is_token) else none) ≡ (
        if selected
        then none
        else if large
        then some "over context budget"
        else if token
        then some "not selected by LLM token budget"
        else some "not selected by LLM pack cap")
settle true unselected large is_large token is_token u l t = rw u refl
settle false unselected true is_large token is_token u l t = rw (u, l) refl
settle false unselected false is_large true is_token u l t = rw (u, l, ← t) refl
settle false unselected false is_large false is_token u l t = rw (u, l, ← t) refl

module _ (prompts : Prompts) (limits : Limits) (packs : List ContextPack) where
  -- A pack with this id has too many characters for a deep review, and, unless the mode is fast, one has a
  -- shallow payload with too many.
  abbrev pub is_too_large : String → Bool
  is_too_large i =
      any (λ p. (i == p.id) && is_over limits.max_pack_chars p.stats.estimated_chars) packs
      && (is_fast limits
          || any (λ p. (i == p.id) && is_over limits.max_pack_chars (prompts.shallow_chars p))
              packs)

  contains-effective_over_budget_ids :
      (i : String) → contains i (effective_over_budget_ids prompts limits packs) ≡ is_too_large i
  unfolding effective_over_budget_ids deep_over_budget_ids shallow_over_budget_ids
  contains-effective_over_budget_ids i =
      let deep : ContextPack → Bool = λ p. is_over limits.max_pack_chars p.stats.estimated_chars in
      let shallow : ContextPack → Bool =
        λ p. is_over limits.max_pack_chars (prompts.shallow_chars p) in
      contains-over i (is_fast limits) _ _
      ∙ rw (contains-ids_of i deep packs, contains-ids_of i shallow packs) refl

of_total : (u total stage : Bool) → u ≡ total && not stage → total ≡ true → u ≡ not stage
of_total u total stage h e = h ∙ ap (λ b. b && not stage) e

-- The test for an unselected id, from the test on the selected ones.
unselected-total :
    (u chosen total stage : Bool)
    → u ≡ (if total then not chosen else false)
    → chosen ≡ stage
    → u ≡ total && not stage
unselected-total u chosen true stage h e = h ∙ ap not e
unselected-total u chosen false stage h e = h

module _ (prompts : Prompts) (limits : Limits) (packs : List ContextPack) (files : List ChangedFile)
    (archived : Dict String Priority) where
  -- A pack id is selected if and only if one of the two stages selected it, and an id of the given packs is
  -- unselected if and only if none of them did.
  pub plan_llm_context_selection-partition :
      (i : String)
      → let s = plan_llm_context_selection prompts limits packs files archived in
        let in_stage =
          contains i s.deep_selected_context_pack_ids
          || contains i s.shallow_selected_context_pack_ids in
        (contains i s.selected_context_pack_ids ≡ in_stage)
        × (contains i s.unselected_context_pack_ids
            ≡ contains i s.total_context_pack_ids && not in_stage)
  unfolding plan_llm_context_selection selection_of
  plan_llm_context_selection-partition i =
      let st = plan_stages prompts limits packs files archived in
      let unselected : String → Bool = λ j. not (contains j (item_ids (selected_items st))) in
      let selected = contains-selected_items prompts limits packs files archived i in
      (
        selected,
        unselected-total _ _ (contains i (map (λ (q : ContextPack). q.id) packs)) _
            (ap (λ xs. contains i xs) (map-filter (λ (q : ContextPack). q.id) unselected packs)
              ∙ contains-filter unselected i (map (λ (q : ContextPack). q.id) packs))
            selected,
      )

  -- Of the ids of the given packs, those that no stage selected have a reason, and no others. The reason is the context
  -- budget exactly if a pack of the id is too large for the deep review and, unless the mode is fast, one for the
  -- shallow review; else it is the token budget exactly if the plan lists the id as over it; else the cap.
  pub plan_llm_context_selection-reasons :
      (i : String)
      → contains i (map (λ (p : ContextPack). p.id) packs) ≡ true
      → let s = plan_llm_context_selection prompts limits packs files archived in
        lookup i s.skipped_context_pack_reasons ≡ (
          if contains i s.deep_selected_context_pack_ids
            || contains i s.shallow_selected_context_pack_ids
          then none
          else if is_too_large prompts limits packs i
          then some "over context budget"
          else if contains i s.over_token_budget_context_pack_ids
          then some "not selected by LLM token budget"
          else some "not selected by LLM pack cap")
  unfolding plan_llm_context_selection selection_of skipped_reason
  plan_llm_context_selection-reasons i h =
      let st = plan_stages prompts limits packs files archived in
      let s = plan_llm_context_selection prompts limits packs files archived in
      let over = effective_over_budget_ids prompts limits packs in
      let chosen : String → Bool = λ j. contains j (item_ids (selected_items st)) in
      let token_ids = filter (λ j. not (chosen j)) (item_ids (token_budget_items limits st)) in
      let reason = skipped_reason over token_ids in
      lookup-skipped_reasons reason i [] s.unselected_context_pack_ids
      ∙ settle _ (contains i s.unselected_context_pack_ids) _ (contains i over)
          (contains i s.over_token_budget_context_pack_ids) (contains i token_ids)
          (of_total _ _ _ ((plan_llm_context_selection-partition i).1) h)
          (contains-effective_over_budget_ids prompts limits packs i)
          (ap (λ xs. contains i xs)
              (map-filter (λ (q : ContextPack). q.id) (λ j. contains j token_ids) packs)
            ∙ contains-kept (λ j. contains j token_ids) i (map (λ (q : ContextPack). q.id) packs) h)
