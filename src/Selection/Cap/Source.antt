-- ===== src/Selection/Cap/Source.antt =====
-- Where the packs that the choice takes come from.
use mathlib.Core.List.{Mem}
use apex_ray.Base.{
  ℕ, ◌-◌, inl, inr, String, Bool, true, false, ◌||◌, Option, none, some, List, [], ◌∷◌, ◌++◌,
  if◌then◌else◌, eqb, leb, length, filter, any, All, All-append, Bool-cases,
}
use apex_ray.Base.Dict.{Dict}
use apex_ray.Base.Sort.{sorted, All-sorted}
use apex_ray.Base.Distinct.{All-filter, All-of-mem}
use apex_ray.Models.{ChangedFile, Priority, p0, p1, p2}
use apex_ray.Selection.{
  IndexedPack, preferred_ge, index_le, kinds_by_path, initial_llm_breadth_budget,
  is_high_value_extra_pack,
}
use apex_ray.Selection.Cap.{
  has_index, has_file, files_in_order, group_of, breadth_step, valuable_step, extra_step,
  untouched_step, select, select_until, select_first, select_in_order, select_within_priority,
  select_priorities, has_priority, preferred_ids, select_llm_context_pack_indexes,
}

module _ (P : IndexedPack → Type 0) where
  All-select :
      (max_packs : ℕ) (selected : List IndexedPack) (x : IndexedPack)
      → All P selected
      → P x
      → All P (select max_packs selected x)
  unfolding select
  All-select max_packs selected x h k =
      elim (Bool-cases (leb max_packs (length selected) || has_index x.0 selected)) [
        | inl e ↦ rw e h
        | inr e ↦ rw e (All-append P selected (x ∷ []) h (k, tt))
      ]

  All-select_first :
      (max_packs : ℕ) (selected group : List IndexedPack)
      → All P group
      → All P selected
      → All P (select_first max_packs selected group)
  unfolding select_first
  All-select_first max_packs selected [] g h = h
  All-select_first max_packs selected (x ∷ _) g h = All-select max_packs selected x h g.0

  All-if :
      (b : Bool) (xs ys : List IndexedPack) → All P xs → All P ys → All P (if b then xs else ys)
  All-if true xs ys hx hy = hx
  All-if false xs ys hx hy = hy

  -- A loop over files, each of whose rounds keeps `P`.
  All-select_until {ℓ} :
      {A : Type ℓ} (budget : ℕ) (step : List IndexedPack → A → List IndexedPack)
      (selected : List IndexedPack) (xs : List A)
      → ((s : List IndexedPack) (x : A) → All P s → All P (step s x))
      → All P selected
      → All P (select_until budget step selected xs)
  unfolding select_until
  All-select_until budget step selected [] keeps h = h
  All-select_until budget step selected (x ∷ xs) keeps h =
      elim (leb budget (length selected))
        as (λ b.
          All P
            (elim b [ true ↦ selected | false ↦ select_until budget step (step selected x) xs ])) [
              | true ↦ h
              | false ↦ All-select_until budget step (step selected x) xs keeps (keeps selected x h)
            ]

  -- The same over packs that `P` holds of.
  All-select_until_packs :
      (budget : ℕ) (step : List IndexedPack → IndexedPack → List IndexedPack)
      (selected xs : List IndexedPack)
      → ((s : List IndexedPack) (x : IndexedPack) → P x → All P s → All P (step s x))
      → All P xs
      → All P selected
      → All P (select_until budget step selected xs)
  unfolding select_until
  All-select_until_packs budget step selected [] keeps g h = h
  All-select_until_packs budget step selected (x ∷ xs) keeps g h =
      elim (leb budget (length selected))
        as (λ b.
          All P
            (elim b [ true ↦ selected | false ↦ select_until budget step (step selected x) xs ])) [
              | true ↦ h
              | false ↦
                  All-select_until_packs budget step (step selected x) xs keeps g.1
                    (keeps selected x g.0 h)
            ]

  All-select_in_order :
      (max_packs : ℕ) (indexed : List IndexedPack)
      → All P indexed
      → All P (select_in_order max_packs indexed)
  unfolding select_in_order
  All-select_in_order max_packs indexed h =
      let order = files_in_order [] indexed in
      let group : (f : String) → All P (group_of f indexed) = λ f. All-filter P _ indexed h in
      All-select_until_packs max_packs (select max_packs) _ indexed
        (λ s x k g. All-select max_packs s x g k) h
        (All-select_until max_packs (untouched_step max_packs indexed) _ order
          (λ s f g.
            All-if (any (λ x. has_index x.0 s) (group_of f indexed)) s _ g
              (All-select_first max_packs s _ (group f) g))
          (All-select_until_packs max_packs (extra_step max_packs) _ indexed
            (λ s x k g.
              All-if (has_index x.0 s) s _ g
                (All-if (is_high_value_extra_pack x.1) _ s (All-select max_packs s x g k) g))
            h
            (All-select_until max_packs (valuable_step max_packs indexed) _ order
              (λ s f g.
                All-if (has_file f s) s _ g (
                  All-select_first max_packs s _ (All-filter P _ (group_of f indexed) (group f)) g))
              (All-select_until (initial_llm_breadth_budget max_packs (length order))
                (breadth_step max_packs indexed) [] order
                (λ s f g. All-select_first max_packs s (group_of f indexed) (group f) g) tt))))

  All-select_within_priority :
      (indexed : List IndexedPack) (files : List ChangedFile) (max_packs : ℕ)
      (preferred : List String)
      → All P indexed
      → All P (select_within_priority indexed files max_packs preferred)
  unfolding select_within_priority
  All-select_within_priority indexed files max_packs preferred h =
      let ge = preferred_ge preferred (kinds_by_path [] files) in
      All-if (leb (length indexed) max_packs) indexed _ h (
        All-sorted index_le P (select_in_order max_packs (sorted ge indexed))
          (All-select_in_order max_packs (sorted ge indexed) (All-sorted ge P indexed h)))

  All-select_priorities :
      (indexed : List IndexedPack) (files : List ChangedFile) (max_packs : ℕ)
      (archived : Dict String Priority) (selected : List IndexedPack) (priorities : List Priority)
      → All P indexed
      → All P selected
      → All P (select_priorities indexed files max_packs archived selected priorities)
  unfolding select_priorities
  All-select_priorities indexed files max_packs archived selected [] h g = g
  All-select_priorities indexed files max_packs archived selected (p ∷ ps) h g =
      let packs = filter (has_priority archived p) indexed in
      let preferred = preferred_ids archived p packs in
      let chosen = select_within_priority packs files (max_packs - length selected) preferred in
      elim (Bool-cases (leb max_packs (length selected))) [
        | inl e ↦ rw (select_priorities, e) g
        | inr e ↦
            rw (select_priorities, e)
              (All-select_priorities indexed files max_packs archived (selected ++ chosen) ps h (
                All-append P selected chosen g (
                  All-select_within_priority packs files (max_packs - length selected) preferred
                    (All-filter P (has_priority archived p) indexed h))))
      ]

  pub All-select_llm_context_pack_indexes :
      (indexed : List IndexedPack) (files : List ChangedFile) (max_packs : Option ℕ)
      (archived : Dict String Priority)
      → All P indexed
      → All P (select_llm_context_pack_indexes indexed files max_packs archived)
  unfolding select_llm_context_pack_indexes
  All-select_llm_context_pack_indexes indexed files none archived h = h
  All-select_llm_context_pack_indexes indexed files (some n) archived h =
      All-if (leb (length indexed) n) indexed _ h (
        All-if (eqb n 0) [] _ tt (
          All-sorted index_le P (select_priorities indexed files n archived [] (p0 ∷ p1 ∷ p2 ∷ []))
            (All-select_priorities indexed files n archived [] (p0 ∷ p1 ∷ p2 ∷ []) h tt)))

-- Every pack that the choice takes is one of those it was given, with its own index.
pub select_llm_context_pack_indexes-Mem :
    (indexed : List IndexedPack) (files : List ChangedFile) (max_packs : Option ℕ)
    (archived : Dict String Priority)
    → All (λ x. Mem x indexed) (select_llm_context_pack_indexes indexed files max_packs archived)
select_llm_context_pack_indexes-Mem indexed files max_packs archived =
    All-select_llm_context_pack_indexes (λ x. Mem x indexed) indexed files max_packs archived
      (All-of-mem (λ x. Mem x indexed) indexed (λ x m. m))
