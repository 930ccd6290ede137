-- ===== src/Reviewers/Effective.antt =====
-- The reviewers that `effective_reviewers` gives for requested ids, and its errors.
use apex_ray.Base.Or.{or_assoc, or_absorbed, or_comm, or_false}
use apex_ray.Base.{
  ◌≡◌, refl, sym, ap, ◌∙◌, subst, inl, inr, String, Bool, true, false, ◌||◌, none, some, List, [],
  ◌∷◌, ◌++◌, if◌then◌else◌, ◌==◌, ==_iff, ==_refl, ne_of_test, contains, truthy, All, All-append,
  Bool-cases, Option-cases, string_eq,
}
use apex_ray.Base.Dict.{lookup}
use apex_ray.Base.Distinct.{Distinct, Distinct-snoc}
use apex_ray.Models.{ReviewerConfig}
use apex_ray.Reviewers.{
  ReviewerConfigError, unknown_or_disabled, none_selected, Outcome, raised, returned, or_general,
  enabled_by_id, select_requested, effective_reviewers, config_ids,
}
use apex_ray.Reviewers.Enabled.{last_enabled, lookup-enabled_by_id, last_enabled-id}

-- What an outcome says about the configuration and the request.
abbrev pub IsAnswer :
    List ReviewerConfig → List String → Outcome ReviewerConfigError (List ReviewerConfig) → Type 0
IsAnswer configured ids (returned rs) =
    Distinct (λ a b. a == b) (config_ids rs)
    × ((id : String) → contains id (config_ids rs) ≡ contains id ids)
    × All (λ r. last_enabled r.id (or_general configured) ≡ some r) rs
    × (truthy rs ≡ true)
IsAnswer configured ids (raised (unknown_or_disabled id)) =
    (contains id ids ≡ true) × (last_enabled id (or_general configured) ≡ none)
IsAnswer configured ids (raised none_selected) = ids ≡ []

record Seen (configured : List ReviewerConfig) (selected : List ReviewerConfig) (seen : List String)
    : Type 0 where
  distinct : Distinct (λ a b. a == b) (config_ids selected)
  same : (id : String) → contains id (config_ids selected) ≡ contains id seen
  enabled : All (λ r. last_enabled r.id (or_general configured) ≡ some r) selected

-- The answer from the middle of the loop on.
abbrev Continues :
    List ReviewerConfig
    → List ReviewerConfig
    → List String
    → Outcome ReviewerConfigError (List ReviewerConfig)
    → Type 0
Continues configured selected ids (returned rs) =
    Distinct (λ a b. a == b) (config_ids rs)
    × ((id : String)
        → contains id (config_ids rs) ≡ contains id (config_ids selected) || contains id ids)
    × All (λ r. last_enabled r.id (or_general configured) ≡ some r) rs
    × (truthy rs ≡ true)
Continues configured selected ids (raised (unknown_or_disabled id)) =
    (contains id ids ≡ true) × (last_enabled id (or_general configured) ≡ none)
Continues configured selected ids (raised none_selected) = (truthy selected ≡ false) × (ids ≡ [])

config_ids-snoc :
    (xs : List ReviewerConfig) (r : ReviewerConfig)
    → config_ids (xs ++ r ∷ []) ≡ config_ids xs ++ r.id ∷ []
config_ids-snoc [] r = refl
config_ids-snoc (x ∷ xs) r = ap (λ t. x.id ∷ t) (config_ids-snoc xs r)

contains-snoc :
    (j a : String) (xs : List String) → contains j (xs ++ a ∷ []) ≡ contains j xs || (j == a)
contains-snoc j a [] = elim (j == a) as (λ b. (b || false) ≡ b) [ true ↦ refl | false ↦ refl ]
contains-snoc j a (x ∷ xs) =
    elim (j == x) as (λ b. (b || contains j (xs ++ a ∷ [])) ≡ (b || contains j xs) || (j == a)) [
      | true ↦ refl
      | false ↦ contains-snoc j a xs
    ]

all_different :
    (a : String) (xs : List String) → contains a xs ≡ false → All (λ x. (x == a) ≡ false) xs
all_different a [] h = tt
all_different a (x ∷ xs) h = elim (Bool-cases (a == x)) [
  | inl e ↦ cc
  | inr n ↦ (
    elim (Bool-cases (x == a)) [
      | inl e ↦ absurd (ne_of_test a x n (sym ((==_iff x a).0 e)))
      | inr k ↦ k
    ],
    all_different a xs (sym (ap (λ b. b || contains a xs) n) ∙ h),
  )
]

truthy-contains :
    (id : String) (xs : List ReviewerConfig)
    → contains id (config_ids xs) ≡ true
    → truthy xs ≡ false
    → ⊥
truthy-contains id [] h k = cc
truthy-contains id (x ∷ xs) h k = cc

truthy-snoc : (xs : List ReviewerConfig) (r : ReviewerConfig) → truthy (xs ++ r ∷ []) ≡ false → ⊥
truthy-snoc [] r k = cc
truthy-snoc (x ∷ xs) r k = cc

-- An id that was seen adds nothing.
Continues-seen :
    (configured selected : List ReviewerConfig) (id : String) (ids : List String)
    (out : Outcome ReviewerConfigError (List ReviewerConfig))
    → contains id (config_ids selected) ≡ true
    → Continues configured selected ids out
    → Continues configured selected (id ∷ ids) out
Continues-seen configured selected id ids (returned rs) h (distinct, same, enabled, full) = (
  distinct,
  λ j.
      same j
      ∙ or_absorbed (contains j (config_ids selected)) (j == id) (contains j ids)
          (λ e. subst (λ x. contains x (config_ids selected) ≡ true) (sym ((==_iff j id).0 e)) h),
  enabled,
  full,
)
Continues-seen configured selected id ids (raised (unknown_or_disabled k)) h (asked, unknown) =
    (elim (k == id) as (λ b. b || contains k ids ≡ true) [ true ↦ refl | false ↦ asked ], unknown)
Continues-seen configured selected id ids (raised none_selected) h (empty, _) =
    absurd (truthy-contains id selected h empty)

-- A reviewer that was added is the one of the id.
Continues-added :
    (configured selected : List ReviewerConfig) (r : ReviewerConfig) (ids : List String)
    (out : Outcome ReviewerConfigError (List ReviewerConfig))
    → Continues configured (selected ++ r ∷ []) ids out
    → Continues configured selected (r.id ∷ ids) out
Continues-added configured selected r ids (returned rs) (distinct, same, enabled, full) = (
  distinct,
  λ j.
      same j
      ∙ ap (λ t. contains j t || contains j ids) (config_ids-snoc selected r)
      ∙ ap (λ b. b || contains j ids) (contains-snoc j r.id (config_ids selected))
      ∙ or_assoc (contains j (config_ids selected)) (j == r.id) (contains j ids),
  enabled,
  full,
)
Continues-added configured selected r ids (raised (unknown_or_disabled k)) (asked, unknown) =
    (elim (k == r.id) as (λ b. b || contains k ids ≡ true) [ true ↦ refl | false ↦ asked ], unknown)
Continues-added configured selected r ids (raised none_selected) (empty, _) =
    absurd (truthy-snoc selected r empty)

Seen-added :
    (configured selected : List ReviewerConfig) (seen : List String) (r : ReviewerConfig)
    → Seen configured selected seen
    → contains r.id seen ≡ false
    → last_enabled r.id (or_general configured) ≡ some r
    → Seen configured (selected ++ r ∷ []) (r.id ∷ seen)
Seen-added configured selected seen r s new e = record {
  distinct = subst (Distinct (λ a b. a == b)) (sym (config_ids-snoc selected r)) (
      Distinct-snoc (λ a b. a == b) (config_ids selected) r.id s.distinct
        (all_different r.id (config_ids selected) (s.same r.id ∙ new)));
  same = λ j.
      ap (contains j) (config_ids-snoc selected r)
      ∙ contains-snoc j r.id (config_ids selected)
      ∙ ap (λ b. b || (j == r.id)) (s.same j)
      ∙ or_comm (contains j seen) (j == r.id);
  enabled =
      All-append (λ q. last_enabled q.id (or_general configured) ≡ some q) selected (r ∷ [])
        s.enabled (e, tt);
}

select_requested-Continues :
    (configured selected : List ReviewerConfig) (seen ids : List String)
    → Seen configured selected seen
    → Continues configured selected ids
        (select_requested (enabled_by_id configured) selected seen ids)
unfolding select_requested
select_requested-Continues configured selected seen [] s = go (truthy selected) refl
  where
    go :
        (b : Bool)
        → truthy selected ≡ b
        → Continues configured selected [] (if b then returned selected else raised none_selected)
    go true e = (s.distinct, (λ j. sym (or_false (contains j (config_ids selected)))), s.enabled, e)
    go false e = (e, refl)
select_requested-Continues configured selected seen (id ∷ ids) s =
    elim (Bool-cases (contains id seen)) [
      | inl old ↦
          rw (select_requested, old)
            (Continues-seen configured selected id ids
              (select_requested (enabled_by_id configured) selected seen ids) (s.same id ∙ old)
              (select_requested-Continues configured selected seen ids s))
      | inr new ↦ elim (Option-cases (lookup id (enabled_by_id configured))) [
        | inl n ↦
            rw (select_requested, new, n)
              (
                ap (λ b. b || contains id ids) (==_refl id),
                sym (lookup-enabled_by_id id configured) ∙ n,
              )
        | inr (r, k) ↦
            let found = sym (lookup-enabled_by_id id configured) ∙ k in
            let same = (last_enabled-id id (or_general configured) r found).0 in
            let unseen = subst (λ i. contains i seen ≡ false) same new in
            let known = subst (λ i. last_enabled i (or_general configured) ≡ some r) same found in
            let rest =
              Continues-added configured selected r ids
                (select_requested (enabled_by_id configured) (selected ++ r ∷ []) (r.id ∷ seen) ids)
                (select_requested-Continues configured (selected ++ r ∷ []) (r.id ∷ seen) ids
                  (Seen-added configured selected seen r s unseen known)) in
            rw (select_requested, new, k)
              (subst
                (λ i.
                  Continues configured selected (i ∷ ids) (
                    select_requested (enabled_by_id configured) (selected ++ r ∷ []) (i ∷ seen)
                      ids))
                (sym same) rest)
      ]
    ]

to_answer :
    (configured : List ReviewerConfig) (ids : List String)
    (out : Outcome ReviewerConfigError (List ReviewerConfig))
    → Continues configured [] ids out
    → IsAnswer configured ids out
to_answer configured ids (returned rs) h = h
to_answer configured ids (raised (unknown_or_disabled id)) h = h
to_answer configured ids (raised none_selected) h = h.1

-- For requested ids the reviewers have pairwise different ids, these are just the requested ones, there is one at
-- least, and each is the last enabled reviewer of its id; an unknown id is requested and no enabled reviewer has it;
-- and an empty selection means an empty request.
pub effective_reviewers-IsAnswer :
    (configured : List ReviewerConfig) (ids : List String)
    → IsAnswer configured ids (effective_reviewers configured (some ids))
unfolding effective_reviewers
effective_reviewers-IsAnswer configured ids =
    to_answer configured ids (select_requested (enabled_by_id configured) [] [] ids) (
      select_requested-Continues configured [] [] ids
        (record { distinct = tt; same = λ j. refl; enabled = tt }))
