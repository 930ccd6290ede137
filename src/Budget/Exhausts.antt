-- ===== src/Budget/Exhausts.antt =====
-- When a pack stays over its budget.
use apex_ray.Base.{
  ℕ, ◌<◌, ◌≡◌, refl, sym, ap, ◌∙◌, subst, inl, inr, true, false, ◌&&◌, some, List, [], ◌∷◌,
  if◌then◌else◌, length, truthy, All, All_imp, arith, Bool-cases, and_left,
}
use mathlib.Core.Option.{some-injective, none-ne-some}
use apex_ray.Base.Loops.{loop_idle, loop_ends}
use apex_ray.Models.{ContextPack, ContextConfig}
use apex_ray.Budget.{
  Group, reference, callee, contract, metadata, related_test, snippets, Trimmed, noted,
  truncate_longest, all_groups,
}
use apex_ray.Budget.Enforce.{
  last, measure, drop_last, drop_step, truncate_or_drop, drop_card, compact_graph, remark,
  over_budget, has_more, has_cards, fuel, trim_group, drop_cards, truncate_contracts, drop_group,
  compact, truncate_any, note_if_over, drop_stages, enforce_char_budget,
}
use apex_ray.Budget.Steps.{drop_last-falls, truncate_or_drop-falls, drop_card-falls}
use apex_ray.Budget.Shrinks.{
  HasNoMore, trans_size, trim_group-Shrinks, drop_cards-Shrinks, truncate_contracts-Shrinks,
  drop_group-Shrinks, compact-Shrinks, truncate_any-Shrinks,
}
use apex_ray.Budget.Ends.{
  empty_of_test, truncate_or_drop-some, last-append, drop_card-none, empty_of_length,
}

-- The groups from which whole snippets are dropped, in the order of the loops.
abbrev pub dropped_groups : List Group
dropped_groups = related_test ∷ reference ∷ callee ∷ contract ∷ metadata ∷ []

module _ (estimated_pack_chars : ContextPack → ℕ) (config : ContextConfig) where
  abbrev Exceeds : Trimmed → Type 0
  Exceeds st = over_budget estimated_pack_chars config st ≡ true

  -- A stage that leaves a pack within its budget alone.
  abbrev IsIdle : (Trimmed → Trimmed) → Type 0
  IsIdle stage = (st : Trimmed) → over_budget estimated_pack_chars config st ≡ false → stage st ≡ st

  over_before :
      (stage : Trimmed → Trimmed) → IsIdle stage → (st : Trimmed) → Exceeds (stage st) → Exceeds st
  over_before stage idle st h = elim (Bool-cases (over_budget estimated_pack_chars config st)) [
    | inl e ↦ e
    | inr e ↦ subst Exceeds (idle st e) h
  ]

  has_more-idle :
      (g : Group) (st : Trimmed)
      → over_budget estimated_pack_chars config st ≡ false
      → has_more estimated_pack_chars config g st ≡ false
  has_more-idle g st e =
      elim (truthy (snippets g st.pack))
        as (λ b. b && over_budget estimated_pack_chars config st ≡ false) [
          | true ↦ e
          | false ↦ refl
        ]

  trim_group-IsIdle : (g : Group) → IsIdle (trim_group estimated_pack_chars config g)
  trim_group-IsIdle g st e =
      loop_idle (has_more estimated_pack_chars config g) (truncate_or_drop g)
        (fuel estimated_pack_chars config st) st (has_more-idle g st e)

  drop_group-IsIdle : (g : Group) → IsIdle (drop_group estimated_pack_chars config g)
  drop_group-IsIdle g st e =
      loop_idle (has_more estimated_pack_chars config g) (drop_step g)
        (fuel estimated_pack_chars config st) st (has_more-idle g st e)

  drop_cards-IsIdle : IsIdle (drop_cards estimated_pack_chars config)
  drop_cards-IsIdle st e =
      loop_idle (has_cards estimated_pack_chars config) drop_card
        (fuel estimated_pack_chars config st) st
        (elim (truthy st.pack.memory_matches)
          as (λ b. b && over_budget estimated_pack_chars config st ≡ false) [
            | true ↦ e
            | false ↦ refl
          ])

  truncate_contracts-IsIdle : IsIdle (truncate_contracts estimated_pack_chars config)
  truncate_contracts-IsIdle st e =
      loop_idle (over_budget estimated_pack_chars config)
        (truncate_longest (contract ∷ metadata ∷ [])) (fuel estimated_pack_chars config st) st e

  truncate_any-IsIdle : IsIdle (truncate_any estimated_pack_chars config)
  truncate_any-IsIdle st e =
      loop_idle (over_budget estimated_pack_chars config) (truncate_longest all_groups) 65 st e

  compact-IsIdle : IsIdle (compact estimated_pack_chars config)
  compact-IsIdle st e = ap (λ b. if b then compact_graph st else st) e

  note_if_over-IsIdle : IsIdle (note_if_over estimated_pack_chars config)
  note_if_over-IsIdle st e = ap (λ b. if b then noted st st.pack remark else st) e

  -- Behind its loop a group is empty, if the pack is still over budget.
  trim_group-empty :
      (g : Group) (st : Trimmed)
      → Exceeds (trim_group estimated_pack_chars config g st)
      → length (snippets g (trim_group estimated_pack_chars config g st).pack) ≡ 0
  trim_group-empty g st h =
      let end = trim_group estimated_pack_chars config g st in
      elim (loop_ends (has_more estimated_pack_chars config g) (truncate_or_drop g) measure
        (λ s s' t k.
          truncate_or_drop-falls g s s'
            (and_left (truthy (snippets g s.pack)) (over_budget estimated_pack_chars config s) t) k)
        (fuel estimated_pack_chars config st) st (omega arith)) [
          | inl e ↦
              empty_of_test (snippets g end.pack) (over_budget estimated_pack_chars config end) e h
          | inr e ↦ let (s, k) = truncate_or_drop-some g end in absurd (none-ne-some s (sym e ∙ k))
        ]

  drop_group-empty :
      (g : Group) (st : Trimmed)
      → Exceeds (drop_group estimated_pack_chars config g st)
      → length (snippets g (drop_group estimated_pack_chars config g st).pack) ≡ 0
  drop_group-empty g st h =
      let end = drop_group estimated_pack_chars config g st in
      elim (loop_ends (has_more estimated_pack_chars config g) (drop_step g) measure
        (λ s s' t k.
          subst (λ r. measure r < measure s) (some-injective _ _ k)
            (drop_last-falls g s (
              and_left (truthy (snippets g s.pack)) (over_budget estimated_pack_chars config s) t)))
        (fuel estimated_pack_chars config st) st (omega arith)) [
          | inl e ↦
              empty_of_test (snippets g end.pack) (over_budget estimated_pack_chars config end) e h
          | inr e ↦ absurd (none-ne-some (drop_last g end) (sym e))
        ]

  drop_cards-empty :
      (st : Trimmed)
      → Exceeds (drop_cards estimated_pack_chars config st)
      → length (drop_cards estimated_pack_chars config st).pack.memory_matches ≡ 0
  drop_cards-empty st h =
      let end = drop_cards estimated_pack_chars config st in
      elim (loop_ends (has_cards estimated_pack_chars config) drop_card measure
        (λ s s' t k. drop_card-falls s s' k) (fuel estimated_pack_chars config st) st
        (omega arith)) [
          | inl e ↦
              empty_of_test end.pack.memory_matches (over_budget estimated_pack_chars config end) e
                h
          | inr e ↦ drop_card-none end e
        ]

  -- The loops before the compaction leave nothing to drop, if the pack is still over budget.
  abbrev IsEmptied : Trimmed → Type 0
  IsEmptied st =
      All (λ g. length (snippets g st.pack) ≡ 0) dropped_groups
      × (length st.pack.memory_matches ≡ 0)

  drop_stages-empty :
      (st : Trimmed)
      → Exceeds (drop_stages estimated_pack_chars config st)
      → IsEmptied (drop_stages estimated_pack_chars config st)
  unfolding drop_stages
  drop_stages-empty st h =
      let a = trim_group estimated_pack_chars config related_test st in
      let b = trim_group estimated_pack_chars config reference a in
      let c = trim_group estimated_pack_chars config callee b in
      let d = drop_cards estimated_pack_chars config c in
      let e = truncate_contracts estimated_pack_chars config d in
      let f = drop_group estimated_pack_chars config contract e in
      let g = drop_group estimated_pack_chars config metadata f in
      let over_f =
        over_before (drop_group estimated_pack_chars config metadata) (drop_group-IsIdle metadata) f
          h in
      let over_e =
        over_before (drop_group estimated_pack_chars config contract) (drop_group-IsIdle contract) e
          over_f in
      let over_d =
        over_before (truncate_contracts estimated_pack_chars config) truncate_contracts-IsIdle d
          over_e in
      let over_c =
        over_before (drop_cards estimated_pack_chars config) drop_cards-IsIdle c over_d in
      let over_b =
        over_before (trim_group estimated_pack_chars config callee) (trim_group-IsIdle callee) b
          over_c in
      let over_a =
        over_before (trim_group estimated_pack_chars config reference) (trim_group-IsIdle reference)
          a over_b in
      let fg = drop_group-Shrinks estimated_pack_chars config metadata f in
      let eg = trans_size e f g (drop_group-Shrinks estimated_pack_chars config contract e) fg in
      let dg = trans_size d e g (truncate_contracts-Shrinks estimated_pack_chars config d) eg in
      let cg = trans_size c d g (drop_cards-Shrinks estimated_pack_chars config c) dg in
      let bg = trans_size b c g (trim_group-Shrinks estimated_pack_chars config callee b) cg in
      let ag = trans_size a b g (trim_group-Shrinks estimated_pack_chars config reference a) bg in
      (
        (
          omega (arith, ag.groups related_test, trim_group-empty related_test st over_a),
          (
            omega (arith, bg.groups reference, trim_group-empty reference a over_b),
            (
              omega (arith, cg.groups callee, trim_group-empty callee b over_c),
              (
                omega (arith, fg.groups contract, drop_group-empty contract e over_f),
                (drop_group-empty metadata f h, tt),
              ),
            ),
          ),
        ),
        omega (arith, dg.cards, drop_cards-empty c over_d),
      )

  enforce_char_budget-over :
      (st : Trimmed)
      → Exceeds (enforce_char_budget estimated_pack_chars config st)
      → (c : Trimmed) × HasNoMore (drop_stages estimated_pack_chars config st) c
        × Exceeds (drop_stages estimated_pack_chars config st)
        × (enforce_char_budget estimated_pack_chars config st ≡ noted c c.pack remark)
  unfolding enforce_char_budget
  enforce_char_budget-over st h =
      let a = drop_stages estimated_pack_chars config st in
      let b = compact estimated_pack_chars config a in
      let c = truncate_any estimated_pack_chars config b in
      let over_st =
        over_before (enforce_char_budget estimated_pack_chars config)
          (λ s e.
            ap
              (λ t.
                if t
                then note_if_over estimated_pack_chars config (
                    truncate_any estimated_pack_chars config (
                      compact estimated_pack_chars config
                        (drop_stages estimated_pack_chars config s)))
                else s)
              e)
          st h in
      let whole : enforce_char_budget estimated_pack_chars config st
          ≡ note_if_over estimated_pack_chars config c =
        ap (λ t. if t then note_if_over estimated_pack_chars config c else st) over_st in
      let over_c =
        over_before (note_if_over estimated_pack_chars config) note_if_over-IsIdle c
          (subst Exceeds whole h) in
      let over_b =
        over_before (truncate_any estimated_pack_chars config) truncate_any-IsIdle b over_c in
      let over_a = over_before (compact estimated_pack_chars config) compact-IsIdle a over_b in
      let less =
        trans_size a b c (compact-Shrinks estimated_pack_chars config a)
          (truncate_any-Shrinks estimated_pack_chars config b) in
      (c, less, over_a, whole ∙ ap (λ t. if t then noted c c.pack remark else c) over_c)

  -- If the pack is over its budget in the end, whatever its size is measured by, then no snippet is left in a group
  -- that may be dropped, no memory card is left, and the last note says so.
  pub enforce_char_budget-Exhausts :
      (st : Trimmed)
      → over_budget estimated_pack_chars config (enforce_char_budget estimated_pack_chars config st)
        ≡ true
      → All
          (λ g. snippets g (enforce_char_budget estimated_pack_chars config st).pack ≡ [])
          dropped_groups
        × ((enforce_char_budget estimated_pack_chars config st).pack.memory_matches ≡ [])
        × (last (enforce_char_budget estimated_pack_chars config st).notes ≡ some remark)
  enforce_char_budget-Exhausts st h =
      let (c, less, over_a, same) = enforce_char_budget-over st h in
      let (groups, cards) = drop_stages-empty st over_a in
      subst
        (λ end.
          All (λ g. snippets g end.pack ≡ []) dropped_groups
          × (end.pack.memory_matches ≡ [])
          × (last end.notes ≡ some remark))
        (sym same)
        (
          All_imp (λ g. length (snippets g (drop_stages estimated_pack_chars config st).pack) ≡ 0)
              (λ g. snippets g c.pack ≡ []) dropped_groups
              (λ g e. empty_of_length (snippets g c.pack) (omega (arith, less.groups g, e))) groups,
          empty_of_length c.pack.memory_matches (omega (arith, less.cards, cards)),
          last-append c.notes remark,
        )
