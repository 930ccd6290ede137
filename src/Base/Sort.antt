-- ===== src/Base/Sort.antt =====
-- Python's `sorted`: stable, over a total order given by a test.
use apex_ray.Base.Tests.{if◌then◌else◌, Bool-cases}
use apex_ray.Base.Lists.{length, All, any}
use Prim.Native.Nat.{suc}
use mathlib.Core.Path.{◌≡◌, refl, subst}
use mathlib.Core.Logic.{inl, inr}
use mathlib.Core.Bool.{Bool, true, false, ◌||◌}
use mathlib.Core.List.{List, [], ◌∷◌, Perm}
use mathlib.Core.List.Perm
use native.Mathlib.Omega.{arith}

module _ {ℓ} {A : Type ℓ} (le : A → A → Bool) where
  -- `x` goes in front of the first element that is not smaller: of equal keys the earlier stays first.
  unfoldable pub insert_sorted : A → List A → List A
  insert_sorted x [] = x ∷ []
  insert_sorted x (y ∷ ys) = if le x y then x ∷ y ∷ ys else y ∷ insert_sorted x ys

  unfoldable pub sorted : List A → List A
  unfolding insert_sorted
  sorted [] = []
  sorted (x ∷ xs) = insert_sorted x (sorted xs)

  abbrev pub IsSorted : List A → Type ℓ
  IsSorted [] = Unit
  IsSorted (x ∷ xs) = All (λ y. le x y ≡ true) xs × IsSorted xs

  insert_sorted-perm : (x : A) (ys : List A) → Perm (insert_sorted x ys) (x ∷ ys)
  unfolding insert_sorted
  insert_sorted-perm x [] = Perm.refl _
  insert_sorted-perm x (y ∷ ys) = elim (Bool-cases (le x y)) [
    | inl e ↦ rw e (Perm.refl _)
    | inr e ↦ rw e (Perm.trans (Perm.cons y (insert_sorted-perm x ys)) (Perm.swap x y ys))
  ]

  pub sorted-perm : (xs : List A) → Perm (sorted xs) xs
  unfolding sorted
  sorted-perm [] = Perm.refl _
  sorted-perm (x ∷ xs) =
      Perm.trans (insert_sorted-perm x (sorted xs)) (Perm.cons x (sorted-perm xs))

  length-insert_sorted : (x : A) (ys : List A) → length (insert_sorted x ys) ≡ suc (length ys)
  unfolding insert_sorted
  length-insert_sorted x [] = refl
  length-insert_sorted x (y ∷ ys) = ground (arith, length-insert_sorted x ys)

  pub length-sorted : (xs : List A) → length (sorted xs) ≡ length xs
  unfolding sorted
  length-sorted [] = refl
  length-sorted (x ∷ xs) = omega (arith, length-insert_sorted x (sorted xs), length-sorted xs)

  any-insert_sorted :
      (p : A → Bool) (x : A) (ys : List A) → any p (insert_sorted x ys) ≡ p x || any p ys
  unfolding insert_sorted
  any-insert_sorted p x [] = refl
  any-insert_sorted p x (y ∷ ys) = ground (arith, any-insert_sorted p x ys)

  pub any-sorted : (p : A → Bool) (xs : List A) → any p (sorted xs) ≡ any p xs
  unfolding sorted
  any-sorted p [] = refl
  any-sorted p (x ∷ xs) = ground (arith, any-insert_sorted p x (sorted xs), any-sorted p xs)

  pub All-insert_sorted {κ} :
      (P : A → Type κ) (x : A) (ys : List A) → P x → All P ys → All P (insert_sorted x ys)
  unfolding insert_sorted
  All-insert_sorted P x [] hx h = (hx, tt)
  All-insert_sorted P x (y ∷ ys) hx h = elim (Bool-cases (le x y)) [
    | inl e ↦ rw e (hx, h)
    | inr e ↦ rw e (h.0, All-insert_sorted P x ys hx h.1)
  ]

  pub All-sorted {κ} : (P : A → Type κ) (xs : List A) → All P xs → All P (sorted xs)
  unfolding sorted
  All-sorted P [] h = tt
  All-sorted P (x ∷ xs) h = All-insert_sorted P x (sorted xs) h.0 (All-sorted P xs h.1)

  insert_front : (x y : A) (ys : List A) → le x y ≡ true → insert_sorted x (y ∷ ys) ≡ x ∷ y ∷ ys
  unfolding insert_sorted
  insert_front x y ys e = rw e refl

  insert_behind :
      (x y : A) (ys : List A) → le x y ≡ false → insert_sorted x (y ∷ ys) ≡ y ∷ insert_sorted x ys
  unfolding insert_sorted
  insert_behind x y ys e = rw e refl

  insert_sorted-All {κ} :
      (P : A → Type κ) (x : A) (ys : List A) → All P (insert_sorted x ys) → P x × All P ys
  unfolding insert_sorted
  insert_sorted-All P x [] h = h
  insert_sorted-All P x (y ∷ ys) h = elim (Bool-cases (le x y)) [
    | inl e ↦ let g : All P (x ∷ y ∷ ys) = subst (All P) (insert_front x y ys e) h in g
    | inr e ↦
        let g : All P (y ∷ insert_sorted x ys) = subst (All P) (insert_behind x y ys e) h in
        let rest = insert_sorted-All P x ys g.1 in (rest.0, (g.0, rest.1))
  ]

  -- What holds of all sorted elements holds of all elements.
  pub sorted-All {κ} : (P : A → Type κ) (xs : List A) → All P (sorted xs) → All P xs
  unfolding sorted
  sorted-All P [] h = tt
  sorted-All P (x ∷ xs) h =
      let g = insert_sorted-All P x (sorted xs) h in (g.0, sorted-All P xs g.1)

  module _ (total : (a b : A) → le a b ≡ false → le b a ≡ true)
      (trans : (a b c : A) → le a b ≡ true → le b c ≡ true → le a c ≡ true) where
    All-le_trans :
        (x y : A) (ys : List A)
        → le x y ≡ true
        → All (λ z. le y z ≡ true) ys
        → All (λ z. le x z ≡ true) ys
    All-le_trans x y [] h hs = tt
    All-le_trans x y (z ∷ zs) h hs = (trans x y z h hs.0, All-le_trans x y zs h hs.1)

    insert_sorted-IsSorted : (x : A) (ys : List A) → IsSorted ys → IsSorted (insert_sorted x ys)
    unfolding insert_sorted
    insert_sorted-IsSorted x [] h = (tt, tt)
    insert_sorted-IsSorted x (y ∷ ys) h = elim (Bool-cases (le x y)) [
      | inl e ↦ rw e ((e, All-le_trans x y ys e h.0), h)
      | inr e ↦ rw e (
        All-insert_sorted (λ z. le y z ≡ true) x ys (total x y e) h.0,
        insert_sorted-IsSorted x ys h.1,
      )
    ]

    pub sorted-IsSorted : (xs : List A) → IsSorted (sorted xs)
    unfolding sorted
    sorted-IsSorted [] = tt
    sorted-IsSorted (x ∷ xs) = insert_sorted-IsSorted x (sorted xs) (sorted-IsSorted xs)
