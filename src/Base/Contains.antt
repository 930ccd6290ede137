-- ===== src/Base/Contains.antt =====
-- Membership tests on filtered lists.
use apex_ray.Base.Tests.{if◌then◌else◌, Bool-cases}
use apex_ray.Base.Equality.{Eq, ◌==◌, ==_iff}
use apex_ray.Base.Lists.{filter, contains}
use mathlib.Core.Path.{◌≡◌, refl, ap, ◌∙◌}
use mathlib.Core.Logic.{inl, inr}
use mathlib.Core.Bool.{Bool, true, false}
use mathlib.Core.List.{List, [], ◌∷◌, map}
use native.Mathlib.Omega.{arith}

if-same : (b : Bool) → (if b then false else false) ≡ false
if-same true = refl
if-same false = refl

module _ {ℓ} {A : Type ℓ} ⦃e : Eq A⦄ where
  pub contains-filter :
      (p : A → Bool) (a : A) (xs : List A)
      → contains a (filter p xs) ≡ (if contains a xs then p a else false)
  contains-filter p a [] = refl
  contains-filter p a (x ∷ xs) = elim (Bool-cases (a == x)) [
    | inl same ↦
        let pe : p a ≡ p x = ap p ((==_iff a x).0 same) in
        elim (Bool-cases (p x)) [
          | inl keep ↦ rw (keep, same, pe ∙ keep) refl
          | inr cut ↦
              rw (cut, same, pe ∙ cut, contains-filter p a xs, pe ∙ cut) (if-same (contains a xs))
        ]
    | inr other ↦ ground (arith, contains-filter p a xs)
  ]

  -- The test decides whether an element of the list stays in it.
  pub contains-kept :
      (p : A → Bool) (a : A) (xs : List A) → contains a xs ≡ true → contains a (filter p xs) ≡ p a
  contains-kept p a xs h = contains-filter p a xs ∙ ap (λ b. if b then p a else false) h

pub map-filter {ℓ κ} :
    {A : Type ℓ} {B : Type κ} (f : A → B) (p : B → Bool) (xs : List A)
    → map f (filter (λ x. p (f x)) xs) ≡ filter p (map f xs)
map-filter f p [] = refl
map-filter f p (x ∷ xs) = elim (Bool-cases (p (f x))) [
  | inl e ↦ rw e (ap (λ ys. f x ∷ ys) (map-filter f p xs))
  | inr e ↦ rw e (map-filter f p xs)
]
