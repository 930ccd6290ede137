-- ===== src/Paths/Reach.antt =====
-- The variants of a pattern are what its shortenings reach.
use apex_ray.Base.{
  ◌≡◌, refl, sym, ap, ◌∙◌, subst, ◌⊎◌, inl, inr, ◌↔◌, String, Bool, true, false, ◌||◌, Option, none,
  some, List, [], ◌∷◌, if◌then◌else◌, contains, truthy, arith, ◌==◌, ==_iff, ==_refl, Bool-cases,
  string_eq,
}
use mathlib.Core.Option.{some-injective, none-ne-some}
use apex_ray.Base.Loops.{loop, loop-keeps, loop_ends}
use apex_ray.Paths.{
  shorten_start, shorten_inside, Variants, add_variant, shorten_top, shorten_next, has_pending,
  variant_fuel, glob_variants,
}
use apex_ray.Paths.Work.{work, shorten_top-falls}

-- What a pattern can be shortened to.
pub data Reaches : String → String → Type 0 where
  unshortened : {p : String} → Reaches p p
  from_start : {p q r : String} → Reaches p q → shorten_start q ≡ some r → Reaches p r
  from_inside : {p q r : String} → Reaches p q → shorten_inside q ≡ some r → Reaches p r

has_cases :
    (v x : String) (xs : List String)
    → contains v (x ∷ xs) ≡ true
    → (v ≡ x) ⊎ (contains v xs ≡ true)
has_cases v x xs h = elim (Bool-cases (v == x)) [
  | inl e ↦ inl ((==_iff v x).0 e)
  | inr e ↦ inr (sym (ap (λ b. b || contains v xs) e) ∙ h)
]

has_head : (x : String) (xs : List String) → contains x (x ∷ xs) ≡ true
has_head x xs = ap (λ b. b || contains x xs) (==_refl x)

has_tail : (v x : String) (xs : List String) → contains v xs ≡ true → contains v (x ∷ xs) ≡ true
has_tail v x xs h = elim (v == x) as (λ b. b || contains v xs ≡ true) [ true ↦ refl | false ↦ h ]

-- Both shortenings of a variant are in the list.
record IsClosed (vs : List String) (v : String) : Type 0 where
  start : (q : String) → shorten_start v ≡ some q → contains q vs ≡ true
  inside : (q : String) → shorten_inside v ≡ some q → contains q vs ≡ true

Includes : Variants → Variants → Type 0
Includes a b = (v : String) → contains v a.variants ≡ true → contains v b.variants ≡ true

-- All variants are reached, and each is pending, closed, or one of those set aside.
record Grows (p : String) (aside : String → Type 0) (st : Variants) : Type 0 where
  origin : contains p st.variants ≡ true
  sound : (v : String) → contains v st.variants ≡ true → Reaches p v
  stacked : (v : String) → contains v st.pending ≡ true → contains v st.variants ≡ true
  covered :
      (v : String)
      → contains v st.variants ≡ true
      → (contains v st.pending ≡ true) ⊎ (IsClosed st.variants v ⊎ aside v)

-- What adding a shortened pattern does.
record Adds (p : String) (aside : String → Type 0) (o : Option String) (a b : Variants)
    : Type 0 where
  grows : Grows p aside b
  includes : Includes a b
  added : (s : String) → o ≡ some s → contains s b.variants ≡ true

IsClosed-more :
    (a b : Variants) (v : String) → Includes a b → IsClosed a.variants v → IsClosed b.variants v
unfolding Includes
IsClosed-more a b v more c = record {
  start = λ q e. more q (c.start q e);
  inside = λ q e. more q (c.inside q e);
}

add_variant-Adds :
    (p : String) (aside : String → Type 0) (o : Option String) (st : Variants)
    → ((s : String) → o ≡ some s → Reaches p s)
    → Grows p aside st
    → Adds p aside o st (add_variant o st)
unfolding Includes
add_variant-Adds p aside none st r g = record {
  grows = g;
  includes = λ v h. h;
  added = λ s e. absurd (none-ne-some s e);
}
add_variant-Adds p aside (some s) st r g = go (contains s st.variants) refl
  where
    fresh : Variants
    fresh = record { variants = s ∷ st.variants; pending = s ∷ st.pending }

    go :
        (b : Bool) → contains s st.variants ≡ b → Adds p aside (some s) st (if b then st else fresh)
    go true h = record {
      grows = g;
      includes = λ v k. k;
      added = λ t e. subst (λ x. contains x st.variants ≡ true) (some-injective _ _ e) h;
    }
    go false h = record {
      grows = record {
        origin = has_tail p s st.variants g.origin;
        sound = λ v k. elim (has_cases v s st.variants k) [
          | inl same ↦ subst (λ x. Reaches p x) (sym same) (r s refl)
          | inr old ↦ g.sound v old
        ];
        stacked = λ v k. elim (has_cases v s st.pending k) [
          | inl same ↦
              subst (λ x. contains x (s ∷ st.variants) ≡ true) (sym same) (has_head s st.variants)
          | inr old ↦ has_tail v s st.variants (g.stacked v old)
        ];
        covered = λ v k. elim (has_cases v s st.variants k) [
          | inl same ↦
              inl
                (subst (λ x. contains x (s ∷ st.pending) ≡ true) (sym same) (has_head s st.pending))
          | inr old ↦ elim (g.covered v old) [
            | inl wait ↦ inl (has_tail v s st.pending wait)
            | inr (inl c) ↦
                inr (inl (IsClosed-more st fresh v (λ x m. has_tail x s st.variants m) c))
            | inr (inr a) ↦ inr (inr a)
          ]
        ];
      };
      includes = λ v k. has_tail v s st.variants k;
      added = λ t e.
          subst (λ x. contains x (s ∷ st.variants) ≡ true) (some-injective _ _ e)
            (has_head s st.variants);
    }

NoneAside : String → Type 0
NoneAside v = ⊥

-- A step of the loop keeps the invariant.
shorten_top-Grows :
    (p : String) (vs ps : List String) (st' : Variants)
    → shorten_top vs ps ≡ some st'
    → Grows p NoneAside (record { variants = vs; pending = ps })
    → Grows p NoneAside st'
unfolding NoneAside Includes
shorten_top-Grows p vs [] st' e g = absurd (none-ne-some st' e)
shorten_top-Grows p vs (c ∷ cs) st' e g =
    let first : Variants = record { variants = vs; pending = cs } in
    let reached = g.sound c (g.stacked c (has_head c cs)) in
    let opened : Grows p (λ v. v ≡ c) first = record {
      origin = g.origin;
      sound = g.sound;
      stacked = λ v k. g.stacked v (has_tail v c cs k);
      covered = λ v k. elim (g.covered v k) [
        | inl wait ↦ elim (has_cases v c cs wait) [
          | inl same ↦ inr (inr same)
          | inr later ↦ inl later
        ]
        | inr (inl closed) ↦ inr (inl closed)
        | inr (inr never) ↦ absurd never
      ];
    } in
    let one =
      add_variant-Adds p (λ v. v ≡ c) (shorten_start c) first (λ s k. from_start reached k)
        opened in
    let middle = add_variant (shorten_start c) first in
    let two =
      add_variant-Adds p (λ v. v ≡ c) (shorten_inside c) middle (λ s k. from_inside reached k)
        one.grows in
    let last = add_variant (shorten_inside c) middle in
    let closed : IsClosed last.variants c = record {
      start = λ q k. two.includes q (one.added q k);
      inside = two.added;
    } in
    subst (Grows p NoneAside) (some-injective _ _ e) (record {
      origin = two.grows.origin;
      sound = two.grows.sound;
      stacked = two.grows.stacked;
      covered = λ v k. elim (two.grows.covered v k) [
        | inl wait ↦ inl wait
        | inr (inl done) ↦ inr (inl done)
        | inr (inr same) ↦ inr (inl (subst (IsClosed last.variants) (sym same) closed))
      ];
    })

abbrev start : String → Variants
start p = record { variants = p ∷ []; pending = p ∷ [] }

start-Grows : (p : String) → Grows p NoneAside (start p)
start-Grows p = record {
  origin = has_head p [];
  sound = λ v k. elim (has_cases v p [] k) [
    | inl same ↦ subst (λ x. Reaches p x) (sym same) unshortened
    | inr never ↦ cc
  ];
  stacked = λ v k. k;
  covered = λ v k. inl k;
}

top_none : (vs ps : List String) → shorten_top vs ps ≡ none → truthy ps ≡ false
top_none vs [] e = refl
top_none vs (c ∷ cs) e = absurd (none-ne-some _ (sym e))

none_waits : (ps : List String) (v : String) → truthy ps ≡ false → contains v ps ≡ true → ⊥
none_waits [] v e h = cc
none_waits (c ∷ cs) v e h = cc

module _ (p : String) where
  end : Variants
  end = loop has_pending shorten_next (variant_fuel p) (start p)

  end-Grows : Grows p NoneAside end
  unfolding end
  end-Grows =
      loop-keeps has_pending shorten_next (Grows p NoneAside)
        (λ s s' t k. shorten_top-Grows p s.variants s.pending s' k) (variant_fuel p) (start p)
        (start-Grows p)

  -- The loop ends with an empty stack.
  end-empty : truthy end.pending ≡ false
  unfolding end
  end-empty =
      elim (loop_ends has_pending shorten_next work
        (λ s s' t k. shorten_top-falls s.variants s.pending s' k) (variant_fuel p) (start p)
        (omega arith)) [ inl e ↦ e | inr e ↦ top_none end.variants end.pending e ]

  end-IsClosed : (v : String) → contains v end.variants ≡ true → IsClosed end.variants v
  unfolding NoneAside
  end-IsClosed v h = elim (end-Grows.covered v h) [
    | inl wait ↦ absurd (none_waits end.pending v end-empty wait)
    | inr (inl closed) ↦ closed
    | inr (inr never) ↦ absurd never
  ]

  Reaches-found :
      (v : String) → contains p end.variants ≡ true → Reaches p v → contains v end.variants ≡ true
  Reaches-found v h unshortened = h
  Reaches-found v h (from_start {q = q} r e) = (end-IsClosed q (Reaches-found q h r)).start v e
  Reaches-found v h (from_inside {q = q} r e) = (end-IsClosed q (Reaches-found q h r)).inside v e

-- The variants of a pattern are exactly the patterns that it can be shortened to.
pub glob_variants-Reaches :
    (pattern v : String) → (contains v (glob_variants pattern) ≡ true) ↔ Reaches pattern v
unfolding glob_variants end
glob_variants-Reaches pattern v =
    ((end-Grows pattern).sound v, Reaches-found pattern v (end-Grows pattern).origin)
