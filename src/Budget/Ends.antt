-- ===== src/Budget/Ends.antt =====
-- What is left where a loop's test or step fails.
use apex_ray.Base.{
  ◌≡◌, refl, sym, ◌∙◌, inl, inr, Bool, true, false, ◌&&◌, none, some, List, [], ◌∷◌, ◌++◌, length,
  truthy, arith, Option-cases,
}
use mathlib.Core.Option.{none-ne-some}
use apex_ray.Budget.{Group, Trimmed, truncate_longest}
use apex_ray.Budget.Enforce.{last, drop_last, drop_match, truncate_or_drop, drop_card}

pub empty_of_test {ℓ} :
    {A : Type ℓ} (xs : List A) (b : Bool) → truthy xs && b ≡ false → b ≡ true → length xs ≡ 0
empty_of_test [] b e t = refl
empty_of_test (x ∷ xs) b e t = cc

pub truncate_or_drop-some :
    (g : Group) (st : Trimmed) → (st' : Trimmed) × (truncate_or_drop g st ≡ some st')
unfolding truncate_or_drop
truncate_or_drop-some g st =
    elim (truncate_longest (g ∷ []) st)
      as (λ o.
        (st' : Trimmed) × (elim o [ some s ↦ some s | none ↦ some (drop_last g st) ] ≡ some st')) [
          | some s ↦ (s, refl)
          | none ↦ (drop_last g st, refl)
        ]

last-none {ℓ} : {A : Type ℓ} (x : A) (xs : List A) → last (x ∷ xs) ≡ none → ⊥
last-none x [] e = none-ne-some x (sym e)
last-none x (y ∷ xs) e = last-none y xs e

empty_of_last {ℓ} : {A : Type ℓ} (xs : List A) → last xs ≡ none → length xs ≡ 0
empty_of_last [] e = refl
empty_of_last (x ∷ xs) e = absurd (last-none x xs e)

pub empty_of_length {ℓ} : {A : Type ℓ} (xs : List A) → length xs ≡ 0 → xs ≡ []
empty_of_length [] e = refl
empty_of_length (x ∷ xs) e = absurd (omega (arith, e))

pub drop_card-none : (st : Trimmed) → drop_card st ≡ none → length st.pack.memory_matches ≡ 0
unfolding drop_card
drop_card-none st e = elim (Option-cases (last st.pack.memory_matches)) [
  | inl k ↦ empty_of_last st.pack.memory_matches k
  | inr (m, k) ↦ absurd (none-ne-some (drop_match st m) (sym e ∙ rw (k, drop_card) refl))
]

pub last-append {ℓ} : {A : Type ℓ} (xs : List A) (x : A) → last (xs ++ x ∷ []) ≡ some x
last-append [] x = refl
last-append (y ∷ []) x = refl
last-append (y ∷ z ∷ xs) x = last-append (z ∷ xs) x
