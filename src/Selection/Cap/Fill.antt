-- ===== src/Selection/Cap/Fill.antt =====
-- How many packs the choice under a cap takes: as many as the cap lets it.
use apex_ray.Base.{
  ℕ, ◌+◌, ◌-◌, ◌≤◌, ◌<◌, min, ◌≡◌, refl, sym, ap, subst, inl, inr, String, Bool, true, false, not,
  ◌||◌, some, List, [], ◌∷◌, ◌++◌, if◌then◌else◌, ◌==◌, arith, sum_by, eqb, leb, leb→le, length,
  length-append, filter, any, All, Bool-cases,
}
use apex_ray.Base.Dict.{Dict, lookup}
use apex_ray.Base.Sort.{sorted, length-sorted}
use apex_ray.Base.Distinct.{Distinct, Distinct-filter, Distinct-sorted}
use apex_ray.Models.{ChangedFile, Priority, p0, p1, p2, priority_eq}
use apex_ray.Selection.{
  IndexedPack, preferred_ge, index_le, kinds_by_path, initial_llm_breadth_budget,
  is_high_value_extra_pack, pack_residual_priority,
}
use apex_ray.Selection.Cap.{
  has_index, has_file, files_in_order, group_of, breadth_step, valuable_step, extra_step,
  untouched_step, select, select_until, select_first, select_in_order, select_within_priority,
  select_priorities, has_priority, select_llm_context_pack_indexes, preferred_ids,
}

-- Two entries for one index.
abbrev pub same_index : IndexedPack → IndexedPack → Bool
same_index a b = eqb a.0 b.0

length-filter-other :
    (i : ℕ) (ys : List IndexedPack) → length (filter (λ y. not (eqb i y.0)) ys) ≤ length ys
length-filter-other i [] = omega arith
length-filter-other i (y ∷ ys) = ground (arith, length-filter-other i ys)

length-filter-same :
    (i : ℕ) (ys : List IndexedPack)
    → has_index i ys ≡ true
    → length (filter (λ y. not (eqb i y.0)) ys) < length ys
length-filter-same i [] h = cc
length-filter-same i (y ∷ ys) h = ground (arith, length-filter-other i ys, length-filter-same i ys)

has_index-filter :
    (i j : ℕ) (ys : List IndexedPack)
    → eqb i j ≡ false
    → has_index j ys ≡ true
    → has_index j (filter (λ y. not (eqb i y.0)) ys) ≡ true
has_index-filter i j [] e h = h
has_index-filter i j (y ∷ ys) e h = ground (arith, has_index-filter i j ys)

others :
    (i : ℕ) (xs ys : List IndexedPack)
    → All (λ x. eqb i x.0 ≡ false) xs
    → All (λ x. has_index x.0 ys ≡ true) xs
    → All (λ x. has_index x.0 (filter (λ y. not (eqb i y.0)) ys) ≡ true) xs
others i [] ys d h = tt
others i (x ∷ xs) ys d h = (has_index-filter i x.0 ys d.0 h.0, others i xs ys d.1 h.1)

-- Packs with different indexes, all of which are selected, are no more than the selected ones.
pub pigeonhole :
    (xs ys : List IndexedPack)
    → Distinct same_index xs
    → All (λ x. has_index x.0 ys ≡ true) xs
    → length xs ≤ length ys
pigeonhole [] ys d h = omega arith
pigeonhole (x ∷ xs) ys d h =
    let fewer = length-filter-same x.0 ys h.0 in
    let rest = others x.0 xs ys d.0 h.1 in
    omega (arith, fewer, pigeonhole xs (filter (λ y. not (eqb x.0 y.0)) ys) d.1 rest)

-- No loop goes beyond the cap.
select-max :
    (max_packs : ℕ) (selected : List IndexedPack) (x : IndexedPack)
    → length selected ≤ max_packs
    → length (select max_packs selected x) ≤ max_packs
unfolding select
select-max max_packs selected x h = ground (arith, length-append selected (x ∷ []))

select_first-max :
    (max_packs : ℕ) (selected group : List IndexedPack)
    → length selected ≤ max_packs
    → length (select_first max_packs selected group) ≤ max_packs
unfolding select_first
select_first-max max_packs selected [] h = h
select_first-max max_packs selected (x ∷ _) h = select-max max_packs selected x h

module _ {ℓ} {A : Type ℓ} (budget : ℕ) (step : List IndexedPack → A → List IndexedPack)
    (selected : List IndexedPack) (x : A) (xs : List A) where
  select_until-full :
      leb budget (length selected) ≡ true → select_until budget step selected (x ∷ xs) ≡ selected
  unfolding select_until
  select_until-full e = rw (select_until, e) refl

  select_until-next :
      leb budget (length selected) ≡ false
      → select_until budget step selected (x ∷ xs) ≡ select_until budget step (step selected x) xs
  unfolding select_until
  select_until-next e = rw (select_until, e) refl

select_until-max {ℓ} :
    {A : Type ℓ} (max_packs budget : ℕ) (step : List IndexedPack → A → List IndexedPack)
    (selected : List IndexedPack) (xs : List A)
    → ((s : List IndexedPack) (x : A) → length s ≤ max_packs → length (step s x) ≤ max_packs)
    → length selected ≤ max_packs
    → length (select_until budget step selected xs) ≤ max_packs
unfolding select_until
select_until-max max_packs budget step selected [] keeps h = h
select_until-max max_packs budget step selected (x ∷ xs) keeps h =
    elim (Bool-cases (leb budget (length selected))) [
      | inl e ↦ rw (select_until-full budget step selected x xs e) h
      | inr e ↦
          rw (select_until-next budget step selected x xs e)
            (select_until-max max_packs budget step (step selected x) xs keeps (keeps selected x h))
    ]

-- What is selected stays selected.
has_index-snoc :
    (i : ℕ) (selected : List IndexedPack) (x : IndexedPack)
    → has_index i (selected ++ x ∷ []) ≡ has_index i selected || eqb i x.0
has_index-snoc i [] x = ground arith
has_index-snoc i (y ∷ ys) x = ground (arith, has_index-snoc i ys x)

has_index-select :
    (i max_packs : ℕ) (selected : List IndexedPack) (x : IndexedPack)
    → has_index i selected ≡ true
    → has_index i (select max_packs selected x) ≡ true
unfolding select
has_index-select i max_packs selected x h = ground (arith, has_index-snoc i selected x)

has_index-select_until :
    (i max_packs : ℕ) (selected xs : List IndexedPack)
    → has_index i selected ≡ true
    → has_index i (select_until max_packs (select max_packs) selected xs) ≡ true
unfolding select_until
has_index-select_until i max_packs selected [] h = h
has_index-select_until i max_packs selected (x ∷ xs) h =
    elim (Bool-cases (leb max_packs (length selected))) [
      | inl e ↦ rw (select_until-full max_packs (select max_packs) selected x xs e) h
      | inr e ↦ rw (select_until-next max_packs (select max_packs) selected x xs e) (
          has_index-select_until i max_packs (select max_packs selected x) xs
            (has_index-select i max_packs selected x h))
    ]

select_new :
    (max_packs : ℕ) (selected : List IndexedPack) (x : IndexedPack)
    → leb max_packs (length selected) ≡ false
    → has_index x.0 (select max_packs selected x) ≡ true
unfolding select
select_new max_packs selected x h = ground (arith, has_index-snoc x.0 selected x)

-- If the last loop stays below the cap, it has selected every pack.
select_until_all :
    (max_packs : ℕ) (selected xs : List IndexedPack)
    → length (select_until max_packs (select max_packs) selected xs) < max_packs
    → All (λ x. has_index x.0 (select_until max_packs (select max_packs) selected xs) ≡ true) xs
unfolding select_until
select_until_all max_packs selected [] h = tt
select_until_all max_packs selected (x ∷ xs) h =
    elim (Bool-cases (leb max_packs (length selected))) [
      | inl e ↦
          let same = select_until-full max_packs (select max_packs) selected x xs e in
          absurd (omega (arith, leb→le max_packs (length selected) e, ap length same, h))
      | inr e ↦
          let next = select_until-next max_packs (select max_packs) selected x xs e in
          let result : List IndexedPack → Type 0 =
            λ r. All (λ y. has_index y.0 r ≡ true) (x ∷ xs) in
          subst result (sym next) (
            has_index-select_until x.0 max_packs (select max_packs selected x) xs
                (select_new max_packs selected x e),
            select_until_all max_packs (select max_packs selected x) xs
                (omega (arith, ap length next, h)),
          )
    ]

if-max :
    (max_packs : ℕ) (b : Bool) (xs ys : List IndexedPack)
    → length xs ≤ max_packs
    → length ys ≤ max_packs
    → length (if b then xs else ys) ≤ max_packs
if-max max_packs true xs ys hx hy = hx
if-max max_packs false xs ys hx hy = hy

-- With more packs than the cap, the five loops choose exactly as many as the cap says.
length-select_in_order :
    (max_packs : ℕ) (indexed : List IndexedPack)
    → Distinct same_index indexed
    → max_packs ≤ length indexed
    → length (select_in_order max_packs indexed) ≡ max_packs
unfolding select_in_order
length-select_in_order max_packs indexed d h =
    let order = files_in_order [] indexed in
    let breadth_budget = initial_llm_breadth_budget max_packs (length order) in
    let s1 = select_until breadth_budget (breadth_step max_packs indexed) [] order in
    let s2 = select_until max_packs (valuable_step max_packs indexed) s1 order in
    let s3 = select_until max_packs (extra_step max_packs) s2 indexed in
    let s4 = select_until max_packs (untouched_step max_packs indexed) s3 order in
    let final = select_until max_packs (select max_packs) s4 indexed in
    let h1 : length s1 ≤ max_packs =
      select_until-max max_packs breadth_budget (breadth_step max_packs indexed) [] order
        (λ s f k. select_first-max max_packs s (group_of f indexed) k) (omega arith) in
    let h2 : length s2 ≤ max_packs =
      select_until-max max_packs max_packs (valuable_step max_packs indexed) s1 order
        (λ s f k. if-max max_packs (has_file f s) s _ k (select_first-max max_packs s _ k)) h1 in
    let h3 : length s3 ≤ max_packs =
      select_until-max max_packs max_packs (extra_step max_packs) s2 indexed
        (λ s x k.
          if-max max_packs (has_index x.0 s) s _ k
            (if-max max_packs (is_high_value_extra_pack x.1) _ s (select-max max_packs s x k) k))
        h2 in
    let h4 : length s4 ≤ max_packs =
      select_until-max max_packs max_packs (untouched_step max_packs indexed) s3 order
        (λ s f k.
          if-max max_packs (any (λ x. has_index x.0 s) (group_of f indexed)) s _ k
            (select_first-max max_packs s _ k))
        h3 in
    let h5 : length final ≤ max_packs =
      select_until-max max_packs max_packs (select max_packs) s4 indexed (select-max max_packs)
        h4 in
    elim (Bool-cases (leb max_packs (length final))) [
      | inl e ↦ omega (arith, leb→le max_packs (length final) e, h5)
      | inr e ↦
          let below : length final < max_packs = ground arith in
          let all = select_until_all max_packs s4 indexed below in
          absurd (omega (arith, pigeonhole indexed final d all, below, h))
    ]

symmetric_index : (a b : IndexedPack) → same_index a b ≡ same_index b a
symmetric_index a b = ground arith

length-select_within_priority :
    (indexed : List IndexedPack) (changed_files : List ChangedFile) (max_packs : ℕ)
    (preferred : List String)
    → Distinct same_index indexed
    → length (select_within_priority indexed changed_files max_packs preferred)
      ≡ min max_packs (length indexed)
unfolding select_within_priority
length-select_within_priority indexed changed_files max_packs preferred d =
    let kinds = kinds_by_path [] changed_files in
    let ordered = sorted (preferred_ge preferred kinds) indexed in
    let chosen = select_in_order max_packs ordered in
    let same = length-sorted (preferred_ge preferred kinds) indexed in
    elim (Bool-cases (leb (length indexed) max_packs)) [
      | inl e ↦ rw e (omega (arith, leb→le (length indexed) max_packs e))
      | inr e ↦
          let above : max_packs < length indexed = ground arith in
          let full =
            length-select_in_order max_packs ordered
              (Distinct-sorted same_index symmetric_index (preferred_ge preferred kinds) indexed d)
              (omega (arith, same, above)) in
          rw e (omega (arith, length-sorted index_le chosen, full, above))
    ]

weight : Bool → ℕ
weight b = if b then 1 else 0

one_priority : (q : Priority) → weight (q == p0) + weight (q == p1) + weight (q == p2) ≡ 1
unfolding weight priority_eq
one_priority p0 = refl
one_priority p1 = refl
one_priority p2 = refl

length-filter-cons :
    (p : IndexedPack → Bool) (x : IndexedPack) (xs : List IndexedPack)
    → length (filter p (x ∷ xs)) ≡ weight (p x) + length (filter p xs)
unfolding weight
length-filter-cons p x xs = ground arith

-- Every pack has one of the three priorities.
length-by_priority :
    (archived : Dict String Priority) (xs : List IndexedPack)
    → length (filter (has_priority archived p0) xs)
        + length (filter (has_priority archived p1) xs)
        + length (filter (has_priority archived p2) xs)
      ≡ length xs
length-by_priority archived [] = omega arith
length-by_priority archived (x ∷ xs) = omega (
  arith,
  length-by_priority archived xs,
  one_priority (pack_residual_priority x.1 (lookup x.1.id archived)),
  length-filter-cons (has_priority archived p0) x xs,
  length-filter-cons (has_priority archived p1) x xs,
  length-filter-cons (has_priority archived p2) x xs,
)

-- How many packs have one of the priorities, a pack counted once for each time its priority is named.
with_priorities : Dict String Priority → List IndexedPack → List Priority → ℕ
with_priorities archived indexed priorities =
    sum_by (λ p. length (filter (has_priority archived p) indexed)) priorities

module _ (indexed : List IndexedPack) (changed_files : List ChangedFile) (max_packs : ℕ)
    (archived : Dict String Priority) (d : Distinct same_index indexed) where
  length-select_priorities :
      (selected : List IndexedPack) (priorities : List Priority)
      → length selected ≤ max_packs
      → length (select_priorities indexed changed_files max_packs archived selected priorities)
        ≡ min max_packs (length selected + with_priorities archived indexed priorities)
  unfolding select_priorities with_priorities
  length-select_priorities selected [] h = omega arith
  length-select_priorities selected (p ∷ ps) h =
      let packs = filter (has_priority archived p) indexed in
      let preferred = preferred_ids archived p packs in
      let chosen =
        select_within_priority packs changed_files (max_packs - length selected) preferred in
      let count =
        length-select_within_priority packs changed_files (max_packs - length selected) preferred
          (Distinct-filter same_index (has_priority archived p) indexed d) in
      let grown = length-append selected chosen in
      elim (Bool-cases (leb max_packs (length selected))) [
        | inl e ↦ rw (select_priorities, e) (omega (arith, h, leb→le max_packs (length selected) e))
        | inr e ↦
            let rest =
              length-select_priorities (selected ++ chosen) ps (omega (arith, count, grown, h)) in
            rw (select_priorities, e) (omega (arith, rest, count, grown, h))
      ]

  -- Of packs with different indexes, the choice under a cap takes exactly as many as the cap lets it, all
  -- of them if they are no more.
  pub length-select_llm_context_pack_indexes :
      length (select_llm_context_pack_indexes indexed changed_files (some max_packs) archived)
      ≡ min max_packs (length indexed)
  unfolding select_llm_context_pack_indexes with_priorities
  length-select_llm_context_pack_indexes =
      let chosen =
        select_priorities indexed changed_files max_packs archived [] (p0 ∷ p1 ∷ p2 ∷ []) in
      let count = length-select_priorities [] (p0 ∷ p1 ∷ p2 ∷ []) (omega arith) in
      elim (Bool-cases (leb (length indexed) max_packs)) [
        | inl e ↦ rw e (omega (arith, leb→le (length indexed) max_packs e))
        | inr more ↦ elim (Bool-cases (eqb max_packs 0)) [
          | inl e ↦ rw (more, e) (ground arith)
          | inr e ↦
              rw (more, e)
                (omega (
                  arith,
                  count,
                  length-sorted index_le chosen,
                  length-by_priority archived indexed,
                ))
        ]
      ]
