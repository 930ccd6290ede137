-- ===== src/Paths/Shorten.antt =====
-- The two ways in which a pattern is shortened.
use apex_ray.Base.{
  suc, ◌+◌, ◌≡◌, refl, sym, ap, ◌∙◌, inl, inr, String, Option, none, some, if◌then◌else◌, eqb,
  arith, Bool-cases, Option-cases,
}
use mathlib.Core.Option.{some-injective, none-ne-some}
use apex_ray.Base.Text.{concat, drop_prefix, split_first, with_first}
use apex_ray.Paths.{shorten_start, shorten_inside, around_slash, text_length}
use Prim.Native.Char.{code}

text_length-concat : (a b : String) → text_length (concat a b) ≡ text_length a + text_length b
text_length-concat String.[] b = omega arith
text_length-concat (String.◌∷◌ c a) b = omega (arith, text_length-concat a b)

text_length-drop_prefix :
    (p s r : String) → drop_prefix p s ≡ some r → text_length s ≡ text_length p + text_length r
unfolding drop_prefix
text_length-drop_prefix String.[] s r e =
    let same : s ≡ r = some-injective _ _ e in omega (arith, ap text_length same)
text_length-drop_prefix (String.◌∷◌ c p) String.[] r e = absurd (none-ne-some r e)
text_length-drop_prefix (String.◌∷◌ c p) (String.◌∷◌ d s) r e =
    elim (Bool-cases (eqb (code c) (code d))) [
      | inl same ↦ omega (
        arith,
        text_length-drop_prefix p s r
            (sym (ap (λ b. if b then drop_prefix p s else none) same) ∙ e),
      )
      | inr other ↦
          absurd (none-ne-some r (sym (ap (λ b. if b then drop_prefix p s else none) other) ∙ e))
    ]

text_length-split_first :
    (m s a b : String)
    → split_first m s ≡ some (a, b)
    → text_length s ≡ text_length a + text_length m + text_length b
unfolding split_first
text_length-split_first m String.[] a b e = absurd (none-ne-some (a, b) e)
text_length-split_first m (String.◌∷◌ c s) a b e =
    go (drop_prefix m (String.◌∷◌ c s)) refl e (λ a' b' f. text_length-split_first m s a' b' f)
  where
    cut : Option String → Option (String × String)
    cut o = elim o [ some rest ↦ some (String.[], rest) | none ↦ with_first c (split_first m s) ]

    go :
        (o : Option String)
        → drop_prefix m (String.◌∷◌ c s) ≡ o
        → cut o ≡ some (a, b)
        → ((a' b' : String)
            → split_first m s ≡ some (a', b')
            → text_length s ≡ text_length a' + text_length m + text_length b')
        → suc (text_length s) ≡ text_length a + text_length m + text_length b
    go (some rest) d k rec =
        let same = some-injective _ _ k in
        omega (
          arith,
          text_length-drop_prefix m (String.◌∷◌ c s) rest d,
          ap (λ t. text_length t.0) same,
          ap (λ t. text_length t.1) same,
        )
    go none d k rec = elim (Option-cases (split_first m s)) [
      | inl n ↦ absurd (none-ne-some (a, b) (sym (ap (with_first c) n) ∙ k))
      | inr ((a', b'), f) ↦
          let same = some-injective _ _ (sym (ap (with_first c) f) ∙ k) in
          omega (arith, rec a' b' f, ap (λ t. text_length t.0) same, ap (λ t. text_length t.1) same)
    ]

pub shorten_start-less :
    (p q : String) → shorten_start p ≡ some q → text_length p ≡ 3 + text_length q
shorten_start-less p q e = text_length-drop_prefix "**/" p q e

pub shorten_inside-less :
    (p q : String) → shorten_inside p ≡ some q → text_length p ≡ 3 + text_length q
unfolding shorten_inside
shorten_inside-less p q e = elim (Option-cases (split_first "/**/" p)) [
  | inl n ↦ absurd (none-ne-some q (sym (ap around_slash n) ∙ e))
  | inr ((a, b), f) ↦
      let same = some-injective _ _ (sym (ap around_slash f) ∙ e) in
      omega (
        arith,
        text_length-split_first "/**/" p a b f,
        text_length-concat a (concat "/" b),
        text_length-concat "/" b,
        ap text_length same,
      )
]
