-- ===== src/Base/Distinct.antt =====
-- Lists whose elements are pairwise unrelated by a Boolean test.
use mathlib.Core.Logic.Or
use mathlib.Core.List.{Mem, mem-cons, mem-cons_self, mem-cons_of_mem, not-mem-nil}
use apex_ray.Base.Tests.{Bool-cases}
use apex_ray.Base.Lists.{filter, drop, All, All-append}
use apex_ray.Base.Sort.{sorted, insert_sorted, All-insert_sorted, All-sorted}
use Prim.Native.Nat.{ℕ, zero, suc}
use mathlib.Core.Path.{◌≡◌, ◌∙◌}
use mathlib.Core.Logic.{inl, inr}
use mathlib.Core.Bool.{Bool, true, false}
use mathlib.Core.List.{List, [], ◌∷◌, ◌++◌, map}

module _ {ℓ κ} {A : Type ℓ} (P : A → Type κ) where
  pub All-filter : (p : A → Bool) (xs : List A) → All P xs → All P (filter p xs)
  All-filter p [] h = tt
  All-filter p (x ∷ xs) h = elim (Bool-cases (p x)) [
    | inl e ↦ rw e (h.0, All-filter p xs h.1)
    | inr e ↦ rw e (All-filter p xs h.1)
  ]

  pub All-drop : (n : ℕ) (xs : List A) → All P xs → All P (drop n xs)
  All-drop zero xs h = h
  All-drop (suc n) [] h = tt
  All-drop (suc n) (x ∷ xs) h = All-drop n xs h.1

pub filter-All {ℓ} : {A : Type ℓ} (p : A → Bool) (xs : List A) → All (λ x. p x ≡ true) (filter p xs)
filter-All p [] = tt
filter-All p (x ∷ xs) = elim (Bool-cases (p x)) [
  | inl e ↦ rw e (e, filter-All p xs)
  | inr e ↦ rw e (filter-All p xs)
]

-- A property of all elements of a list, from one of its members.
pub All-of-mem {ℓ κ} :
    {A : Type ℓ} (P : A → Type κ) (xs : List A) → ((a : A) → Mem a xs → P a) → All P xs
All-of-mem P [] h = tt
All-of-mem P (x ∷ xs) h = (h x mem-cons_self, All-of-mem P xs (λ a m. h a (mem-cons_of_mem x m)))

pub mem-All {ℓ κ} :
    {A : Type ℓ} (P : A → Type κ) (prop : (a : A) → IsProp (P a)) (a : A) (xs : List A)
    → All P xs
    → Mem a xs
    → P a
mem-All P prop a [] h m = absurd (not-mem-nil m)
mem-All P prop a (x ∷ xs) h m =
    Or.elim (prop a) (mem-cons.0 m) (λ e. rw e h.0) (mem-All P prop a xs h.1)

module _ {ℓ} {A : Type ℓ} (R : A → A → Bool) where
  abbrev pub Distinct : List A → Type ℓ
  Distinct [] = Unit
  Distinct (x ∷ xs) = All (λ y. R x y ≡ false) xs × Distinct xs

  pub Distinct-filter : (p : A → Bool) (xs : List A) → Distinct xs → Distinct (filter p xs)
  Distinct-filter p [] h = tt
  Distinct-filter p (x ∷ xs) h = elim (Bool-cases (p x)) [
    | inl e ↦ rw e (All-filter (λ y. R x y ≡ false) p xs h.0, Distinct-filter p xs h.1)
    | inr e ↦ rw e (Distinct-filter p xs h.1)
  ]

  pub Distinct-drop : (n : ℕ) (xs : List A) → Distinct xs → Distinct (drop n xs)
  Distinct-drop zero xs h = h
  Distinct-drop (suc n) [] h = tt
  Distinct-drop (suc n) (x ∷ xs) h = Distinct-drop n xs h.1

  pub Distinct-snoc :
      (xs : List A) (a : A) → Distinct xs → All (λ x. R x a ≡ false) xs → Distinct (xs ++ a ∷ [])
  Distinct-snoc [] a h k = (tt, tt)
  Distinct-snoc (x ∷ xs) a h k =
      (All-append (λ y. R x y ≡ false) xs (a ∷ []) h.0 (k.0, tt), Distinct-snoc xs a h.1 k.1)

  -- The test does not tell `f x` from `x`.
  abbrev pub Hides : (A → A) → A → Type ℓ
  Hides f x = (y : A) → (R (f x) y ≡ R x y) × (R y (f x) ≡ R y x)

  All-map :
      (f : A → A) (x : A) (xs : List A)
      → Hides f x
      → All (Hides f) xs
      → All (λ y. R x y ≡ false) xs
      → All (λ y. R (f x) y ≡ false) (map f xs)
  All-map f x [] hx hs h = tt
  All-map f x (y ∷ ys) hx hs h = ((hx (f y)).0 ∙ (hs.0 x).1 ∙ h.0, All-map f x ys hx hs.1 h.1)

  pub Distinct-map :
      (f : A → A) (xs : List A) → All (Hides f) xs → Distinct xs → Distinct (map f xs)
  Distinct-map f [] hs h = tt
  Distinct-map f (x ∷ xs) hs h = (All-map f x xs hs.0 hs.1 h.0, Distinct-map f xs hs.1 h.1)

  module _ (symmetric : (a b : A) → R a b ≡ R b a) (le : A → A → Bool) where
    Distinct-insert_sorted :
        (x : A) (ys : List A)
        → All (λ y. R x y ≡ false) ys
        → Distinct ys
        → Distinct (insert_sorted le x ys)
    unfolding insert_sorted
    Distinct-insert_sorted x [] h d = (tt, tt)
    Distinct-insert_sorted x (y ∷ ys) h d = elim (Bool-cases (le x y)) [
      | inl e ↦ rw e (h, d)
      | inr e ↦ rw e (
        All-insert_sorted le (λ z. R y z ≡ false) x ys (symmetric y x ∙ h.0) d.0,
        Distinct-insert_sorted x ys h.1 d.1,
      )
    ]

    pub Distinct-sorted : (xs : List A) → Distinct xs → Distinct (sorted le xs)
    unfolding sorted
    Distinct-sorted [] h = tt
    Distinct-sorted (x ∷ xs) h =
        Distinct-insert_sorted x (sorted le xs) (All-sorted le (λ y. R x y ≡ false) xs h.0)
          (Distinct-sorted xs h.1)
