-- ===== src/Budget/Shrinks.antt =====
-- No stage of the budget puts anything into a group of snippets or among the memory cards.
use apex_ray.Base.{
  ℕ, ◌≤◌, ◌≡◌, refl, sym, subst, ap, ◌∙◌, inl, inr, Bool, true, false, Option, some, List, [], ◌∷◌,
  if◌then◌else◌, length, truthy, arith, Option-cases, and_left,
}
use mathlib.Core.Option.{some-injective}
use apex_ray.Base.Loops.{loop, loop-keeps}
use apex_ray.Models.{CodeSnippet, ContextPack, ContextConfig, MemoryMatch}
use apex_ray.Budget.{
  Group, changed, reference, callee, contract, metadata, related_test, snippets, set_snippets,
  truncate_snippet, replace_at, Trimmed, noted, truncate_longest, all_groups,
}
use apex_ray.Budget.Enforce.{
  without_last, drop_last, drop_match, drop_step, truncate_or_drop, drop_card, has_graph, compacted,
  compact_note, compact_graph, over_budget, has_more, has_cards, fuel, trim_group, drop_cards,
  truncate_contracts, drop_group, compact, truncate_any,
}
use apex_ray.Budget.Steps.{
  truncate_longest-some, length-replace_at, without_last-less, drop_card-some,
}

-- The second has no more than the first, in any group and among the cards.
pub record HasNoMore (st st' : Trimmed) : Type 0 where
  pub groups : (g : Group) → length (snippets g st'.pack) ≤ length (snippets g st.pack)
  pub cards : length st'.pack.memory_matches ≤ length st.pack.memory_matches

pub same_size : (st : Trimmed) → HasNoMore st st
same_size st = record { groups = λ g. omega arith; cards = omega arith }

pub trans_size : (a b c : Trimmed) → HasNoMore a b → HasNoMore b c → HasNoMore a c
trans_size a b c ab bc = record {
  groups = λ g. omega (arith, ab.groups g, bc.groups g);
  cards = omega (arith, ab.cards, bc.cards);
}

pub length-set_snippets :
    (g h : Group) (xs : List CodeSnippet) (pack : ContextPack)
    → length xs ≤ length (snippets g pack)
    → length (snippets h (set_snippets g xs pack)) ≤ length (snippets h pack)
length-set_snippets changed changed xs pack e = e
length-set_snippets reference reference xs pack e = e
length-set_snippets callee callee xs pack e = e
length-set_snippets contract contract xs pack e = e
length-set_snippets metadata metadata xs pack e = e
length-set_snippets related_test related_test xs pack e = e
length-set_snippets _ _ xs pack e = omega arith

pub cards-set_snippets :
    (g : Group) (xs : List CodeSnippet) (pack : ContextPack)
    → (set_snippets g xs pack).memory_matches ≡ pack.memory_matches
cards-set_snippets changed xs pack = refl
cards-set_snippets reference xs pack = refl
cards-set_snippets callee xs pack = refl
cards-set_snippets contract xs pack = refl
cards-set_snippets metadata xs pack = refl
cards-set_snippets related_test xs pack = refl

truncate_longest-Shrinks :
    (allowed : List Group) (st st' : Trimmed)
    → truncate_longest allowed st ≡ some st'
    → HasNoMore st st'
truncate_longest-Shrinks allowed st st' e =
    let (c, _, same) = truncate_longest-some allowed st st' e in
    let ss = snippets c.group st.pack in
    let xs = replace_at c.index (truncate_snippet c.group c.snippet) ss in
    let kept = length-replace_at c.index (truncate_snippet c.group c.snippet) ss in
    let few = cards-set_snippets c.group xs st.pack in
    subst (HasNoMore st) (sym same) (record {
      groups = λ g. length-set_snippets c.group g xs st.pack (omega (arith, kept));
      cards = omega (arith, ap (length {A = MemoryMatch}) few);
    })

drop_last-Shrinks :
    (g : Group) (st : Trimmed) → truthy (snippets g st.pack) ≡ true → HasNoMore st (drop_last g st)
drop_last-Shrinks g st full =
    let ss = snippets g st.pack in
    let less = (without_last-less (λ _. 0) ss full).0 in
    let few = cards-set_snippets g (without_last ss) st.pack in
    record {
      groups = λ h. length-set_snippets g h (without_last ss) st.pack (omega (arith, less));
      cards = omega (arith, ap (length {A = MemoryMatch}) few);
    }

truncate_or_drop-Shrinks :
    (g : Group) (st st' : Trimmed)
    → truthy (snippets g st.pack) ≡ true
    → truncate_or_drop g st ≡ some st'
    → HasNoMore st st'
unfolding truncate_or_drop
truncate_or_drop-Shrinks g st st' full e = elim (Option-cases (truncate_longest (g ∷ []) st)) [
  | inr (s, k) ↦
      let same : some s ≡ some st' = sym (rw (k, truncate_or_drop) refl) ∙ e in
      truncate_longest-Shrinks (g ∷ []) st st' (k ∙ same)
  | inl k ↦
      let same : some (drop_last g st) ≡ some st' = sym (rw (k, truncate_or_drop) refl) ∙ e in
      subst (HasNoMore st) (some-injective _ _ same) (drop_last-Shrinks g st full)
]

snippets-drop_match :
    (g : Group) (st : Trimmed) (m : MemoryMatch)
    → snippets g (drop_match st m).pack ≡ snippets g st.pack
snippets-drop_match changed st m = refl
snippets-drop_match reference st m = refl
snippets-drop_match callee st m = refl
snippets-drop_match contract st m = refl
snippets-drop_match metadata st m = refl
snippets-drop_match related_test st m = refl

drop_card-Shrinks : (st st' : Trimmed) → drop_card st ≡ some st' → HasNoMore st st'
drop_card-Shrinks st st' e =
    let (m, full, same) = drop_card-some st st' e in
    let less = (without_last-less (λ _. 0) st.pack.memory_matches full).0 in
    subst (HasNoMore st) (sym same) (record {
      groups = λ g. omega (arith, ap (length {A = CodeSnippet}) (snippets-drop_match g st m));
      cards = omega (arith, less);
    })

snippets-compacted :
    (g : Group) (pack : ContextPack) → snippets g (compacted pack) ≡ snippets g pack
snippets-compacted changed pack = refl
snippets-compacted reference pack = refl
snippets-compacted callee pack = refl
snippets-compacted contract pack = refl
snippets-compacted metadata pack = refl
snippets-compacted related_test pack = refl

compact_graph-Shrinks : (st : Trimmed) → HasNoMore st (compact_graph st)
compact_graph-Shrinks st =
    elim (has_graph st.pack)
      as (λ b. HasNoMore st (if b then noted st (compacted st.pack) compact_note else st)) [
        | true ↦ record {
          groups = λ g. omega (arith, ap (length {A = CodeSnippet}) (snippets-compacted g st.pack));
          cards = omega arith;
        }
        | false ↦ same_size st
      ]

-- A loop whose steps only take away only takes away.
loop-Shrinks :
    (test : Trimmed → Bool) (step : Trimmed → Option Trimmed)
    → ((s s' : Trimmed) → test s ≡ true → step s ≡ some s' → HasNoMore s s')
    → (fuel : ℕ) (st : Trimmed) → HasNoMore st (loop test step fuel st)
loop-Shrinks test step less n st =
    loop-keeps test step (HasNoMore st) (λ s s' t k h. trans_size st s s' h (less s s' t k)) n st
      (same_size st)

module _ (estimated_pack_chars : ContextPack → ℕ) (config : ContextConfig) where
  has_more-full :
      (g : Group) (st : Trimmed)
      → has_more estimated_pack_chars config g st ≡ true
      → truthy (snippets g st.pack) ≡ true
  has_more-full g st e =
      and_left (truthy (snippets g st.pack)) (over_budget estimated_pack_chars config st) e

  pub trim_group-Shrinks :
      (g : Group) (st : Trimmed) → HasNoMore st (trim_group estimated_pack_chars config g st)
  trim_group-Shrinks g st =
      loop-Shrinks (has_more estimated_pack_chars config g) (truncate_or_drop g)
        (λ s s' t k. truncate_or_drop-Shrinks g s s' (has_more-full g s t) k)
        (fuel estimated_pack_chars config st) st

  pub drop_cards-Shrinks : (st : Trimmed) → HasNoMore st (drop_cards estimated_pack_chars config st)
  drop_cards-Shrinks st =
      loop-Shrinks (has_cards estimated_pack_chars config) drop_card
        (λ s s' t k. drop_card-Shrinks s s' k) (fuel estimated_pack_chars config st) st

  pub truncate_contracts-Shrinks :
      (st : Trimmed) → HasNoMore st (truncate_contracts estimated_pack_chars config st)
  truncate_contracts-Shrinks st =
      loop-Shrinks (over_budget estimated_pack_chars config)
        (truncate_longest (contract ∷ metadata ∷ []))
        (λ s s' t k. truncate_longest-Shrinks (contract ∷ metadata ∷ []) s s' k)
        (fuel estimated_pack_chars config st) st

  pub drop_group-Shrinks :
      (g : Group) (st : Trimmed) → HasNoMore st (drop_group estimated_pack_chars config g st)
  drop_group-Shrinks g st =
      loop-Shrinks (has_more estimated_pack_chars config g) (drop_step g)
        (λ s s' t k.
          subst (HasNoMore s) (some-injective _ _ k) (drop_last-Shrinks g s (has_more-full g s t)))
        (fuel estimated_pack_chars config st) st

  pub compact-Shrinks : (st : Trimmed) → HasNoMore st (compact estimated_pack_chars config st)
  compact-Shrinks st =
      elim (over_budget estimated_pack_chars config st)
        as (λ b. HasNoMore st (if b then compact_graph st else st)) [
          | true ↦ compact_graph-Shrinks st
          | false ↦ same_size st
        ]

  pub truncate_any-Shrinks :
      (st : Trimmed) → HasNoMore st (truncate_any estimated_pack_chars config st)
  truncate_any-Shrinks st =
      loop-Shrinks (over_budget estimated_pack_chars config) (truncate_longest all_groups)
        (λ s s' t k. truncate_longest-Shrinks all_groups s s' k) 65 st
