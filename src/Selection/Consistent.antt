-- ===== src/Selection/Consistent.antt =====
-- The selections that a plan and continuations of its review reach agree with themselves.
use apex_ray.Base.{
  ◌≡◌, refl, sym, ap, ◌∙◌, subst, inl, inr, String, Bool, true, false, not, ◌&&◌, ◌||◌, Option,
  none, some, List, [], ◌∷◌, map, filter, any, contains, if◌then◌else◌, ◌==◌, arith, string_eq,
  Bool-cases, ==_iff,
}
use mathlib.Core.Option.{some-injective}
use apex_ray.Base.Contains.{contains-filter}
use apex_ray.Base.Dict.{Dict, lookup}
use apex_ray.Models.{ChangedFile, ContextPack, PackDepth, LlmContextSelection, Priority}
use apex_ray.Selection.Plan.{
  Prompts, Limits, plan_llm_context_selection, selection_of, plan_stages, item_ids, selected_items,
  effective_over_budget_ids,
}
use apex_ray.Selection.Plan.Partition.{
  plan_llm_context_selection-partition, lookup-skipped_reasons, contains-ids_of,
}
use apex_ray.Selection.Continue.{
  merge_continuation_selection, existing_or_fresh, in_selected, in_deep, in_shallow,
}

pub record IsConsistent (s : LlmContextSelection) : Type 0 where
  pub layered :
      (i : String)
      → contains i s.selected_context_pack_ids
        ≡ contains i s.deep_selected_context_pack_ids
          || contains i s.shallow_selected_context_pack_ids
  pub split :
      (i : String)
      → contains i s.unselected_context_pack_ids
        ≡ contains i s.total_context_pack_ids && not (contains i s.selected_context_pack_ids)
  pub over_budget :
      (i : String)
      → contains i s.over_budget_context_pack_ids ≡ true
      → contains i s.unselected_context_pack_ids ≡ true
  pub reasons :
      (i reason : String)
      → lookup i s.skipped_context_pack_reasons ≡ some reason
      → contains i s.unselected_context_pack_ids ≡ true

some-if : (b : Bool) (x y : String) → (if b then some x else none) ≡ some y → b ≡ true
some-if true x y e = refl
some-if false x y e = cc

any-less :
    (i : String) (p q : ContextPack → Bool) (packs : List ContextPack)
    → any (λ x. (i == x.id) && p x) (filter q packs) ≡ true
    → any (λ x. (i == x.id) && q x) packs ≡ true
any-less i p q [] h = h
any-less i p q (x ∷ packs) h = elim (Bool-cases (q x)) [
  | inr cut ↦ let rest = any-less i p q packs (rw cut at h) in ground (arith, rest)
  | inl keep ↦ elim (Bool-cases (i == x.id)) [
    | inl same ↦ ground (arith, same, keep)
    | inr other ↦
        let h' = rw (keep, other) at h in let rest = any-less i p q packs h' in ground (arith, rest)
  ]
]

plan-IsConsistent :
    (prompts : Prompts) (limits : Limits) (packs : List ContextPack) (files : List ChangedFile)
    (archived : Dict String Priority)
    → IsConsistent (plan_llm_context_selection prompts limits packs files archived)
unfolding plan_llm_context_selection selection_of
plan-IsConsistent prompts limits packs files archived =
    let s = plan_llm_context_selection prompts limits packs files archived in
    let parts = plan_llm_context_selection-partition prompts limits packs files archived in
    let chosen = item_ids (selected_items (plan_stages prompts limits packs files archived)) in
    let unselected : ContextPack → Bool = λ p. not (contains p.id chosen) in
    let over : ContextPack → Bool =
      λ p. contains p.id (effective_over_budget_ids prompts limits packs) in
    record {
      layered = λ i. (parts i).0;
      split = λ i.
          (parts i).1 ∙ ap (λ b. contains i s.total_context_pack_ids && not b) (sym ((parts i).0));
      over_budget = λ i h.
          contains-ids_of i unselected packs
          ∙ any-less i over unselected packs
              (sym (contains-ids_of i over (filter unselected packs)) ∙ h);
      reasons = λ i reason e.
          some-if _ _ reason
            (sym (lookup-skipped_reasons _ i [] s.unselected_context_pack_ids) ∙ e);
    }

-- The selected ids are those of the two depths, before and after.
merged_layers :
    (t old deep shallow now : Bool)
    → old ≡ deep || shallow
    → (if t then old || now else false)
      ≡ (if t then deep || now else false) || (if t then shallow && not now else false)
merged_layers t old deep shallow now h = ground (arith, h)

widened_layers :
    (t old deep shallow now : Bool)
    → old ≡ deep || shallow
    → (if t then old || now else false)
      ≡ (if t then deep else false) || (if t then shallow || now else false)
widened_layers t old deep shallow now h = ground (arith, h)

split-if :
    (total p unselected selected : Bool)
    → unselected ≡ (if total then not p else false)
    → selected ≡ (if total then p else false)
    → unselected ≡ total && not selected
split-if true p unselected selected u s = u ∙ sym (ap not s)
split-if false p unselected selected u s = u

kept-if : (b c : Bool) → (if b then c else false) ≡ true → c ≡ true
kept-if true c h = h
kept-if false c h = cc

lookup-filter :
    (i reason : String) (ids : List String) (d : Dict String String)
    → lookup i (filter (λ (j, r). contains j ids) d) ≡ some reason
    → contains i ids ≡ true
lookup-filter i reason ids [] e = cc
lookup-filter i reason ids ((j, r) ∷ d) e = elim (Bool-cases (contains j ids)) [
  | inr cut ↦ lookup-filter i reason ids d (rw cut at e)
  | inl keep ↦ elim (Bool-cases (i == j)) [
    | inl same ↦ ap (λ k. contains k ids) ((==_iff i j).0 same) ∙ keep
    | inr other ↦ lookup-filter i reason ids d (rw (keep, other) at e)
  ]
]

fresh-layered :
    (existing : Option LlmContextSelection) (total : List String)
    → ((s : LlmContextSelection) → existing ≡ some s → IsConsistent s)
    → (i : String)
    → let s = existing_or_fresh existing total in
      contains i s.selected_context_pack_ids
      ≡ contains i s.deep_selected_context_pack_ids
        || contains i s.shallow_selected_context_pack_ids
fresh-layered none total h i = refl
fresh-layered (some s) total h i = (h s refl).layered i

module _ (existing : Option LlmContextSelection) (packs selected_packs : List ContextPack)
    (before : (s : LlmContextSelection) → existing ≡ some s → IsConsistent s) where
  abbrev total_ids : List String
  total_ids = map (λ p. p.id) packs

  abbrev continued_ids : List String
  continued_ids = map (λ p. p.id) selected_packs

  merge-layered :
      (depth : PackDepth) (i : String)
      → let s = merge_continuation_selection existing packs selected_packs depth in
        contains i s.selected_context_pack_ids
        ≡ contains i s.deep_selected_context_pack_ids
          || contains i s.shallow_selected_context_pack_ids
  unfolding merge_continuation_selection
  merge-layered PackDepth.deep i =
      let old = existing_or_fresh existing total_ids in
      rw
        (
          contains-filter (in_selected old continued_ids) i total_ids,
          contains-filter (in_deep PackDepth.deep old continued_ids) i total_ids,
          contains-filter (in_shallow PackDepth.deep old continued_ids) i total_ids,
        )
        (merged_layers (contains i total_ids) _ _ _ (contains i continued_ids)
          (fresh-layered existing total_ids before i))
  merge-layered PackDepth.shallow i =
      let old = existing_or_fresh existing total_ids in
      rw
        (
          contains-filter (in_selected old continued_ids) i total_ids,
          contains-filter (in_deep PackDepth.shallow old continued_ids) i total_ids,
          contains-filter (in_shallow PackDepth.shallow old continued_ids) i total_ids,
        )
        (widened_layers (contains i total_ids) _ _ _ (contains i continued_ids)
          (fresh-layered existing total_ids before i))

  merge-IsConsistent :
      (depth : PackDepth)
      → IsConsistent (merge_continuation_selection existing packs selected_packs depth)
  unfolding merge_continuation_selection
  merge-IsConsistent depth =
      let old = existing_or_fresh existing total_ids in
      let p : String → Bool = in_selected old continued_ids in
      let unselected : List String = filter (λ j. not (p j)) total_ids in
      record {
        layered = merge-layered depth;
        split = λ i.
            split-if (contains i total_ids) (p i) _ _ (contains-filter (λ j. not (p j)) i total_ids)
              (contains-filter p i total_ids);
        over_budget = λ i h.
            kept-if (contains i old.over_budget_context_pack_ids) (contains i unselected) (
              sym (contains-filter (λ j. contains j unselected) i old.over_budget_context_pack_ids)
              ∙ h);
        reasons =
            λ i reason e. lookup-filter i reason unselected old.skipped_context_pack_reasons e;
      }

-- The selections of a report: a plan's, one made for a report that has none, and a continued one.
pub data Reach : LlmContextSelection → Type 0 where
  planned :
      (prompts : Prompts) (limits : Limits) (packs : List ContextPack) (files : List ChangedFile)
      (archived : Dict String Priority)
      → Reach (plan_llm_context_selection prompts limits packs files archived)
  started :
      (packs selected_packs : List ContextPack) (depth : PackDepth)
      → Reach (merge_continuation_selection none packs selected_packs depth)
  continued :
      (s : LlmContextSelection) (packs selected_packs : List ContextPack) (depth : PackDepth)
      → Reach s
      → Reach (merge_continuation_selection (some s) packs selected_packs depth)

-- In every selection that a plan, or a continuation of a report without one, and then any number of continuations reach:
-- the selected ids are those selected in depth or in breadth; an id of the report's packs is unselected if and only
-- if it is not selected; and every id that is over budget or has a reason why it is skipped is unselected.
pub Reach-IsConsistent : {s : LlmContextSelection} → Reach s → IsConsistent s
Reach-IsConsistent (planned prompts limits packs files archived) =
    plan-IsConsistent prompts limits packs files archived
Reach-IsConsistent (started packs selected_packs depth) =
    merge-IsConsistent none packs selected_packs (λ s e. cc) depth
Reach-IsConsistent (continued s packs selected_packs depth reach) =
    merge-IsConsistent (some s) packs selected_packs
      (λ t e. subst IsConsistent (some-injective s t e) (Reach-IsConsistent reach)) depth
