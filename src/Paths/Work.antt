-- ===== src/Paths/Work.antt =====
-- Every step of the worklist leaves less to do.
use apex_ray.Base.{
  ℕ, zero, suc, ◌+◌, ◌*◌, ◌≤◌, ◌<◌, ◌≡◌, refl, ap, subst, String, true, false, Option, none, some,
  List, [], ◌∷◌, if◌then◌else◌, sum_by, contains, arith, string_eq,
}
use mathlib.Core.Option.{some-injective, none-ne-some}
use apex_ray.Paths.{
  shorten_start, shorten_inside, Variants, add_variant, shorten_top, pow3, text_length,
}
use apex_ray.Paths.Shorten.{shorten_start-less, shorten_inside-less}

-- The work that is left for the patterns on the stack.
abbrev pub work : Variants → ℕ
work st = sum_by (λ v. pow3 (text_length v)) st.pending

pow3_three : (m n : ℕ) → m ≡ 3 + n → pow3 m ≡ 27 * pow3 n
pow3_three m n e =
    let same : m ≡ suc (suc (suc n)) = omega (arith, e) in omega (arith, ap pow3 same)

add_variant-work :
    (c : String) (o : Option String) (st : Variants)
    → ((s : String) → o ≡ some s → text_length c ≡ 3 + text_length s)
    → 27 * work (add_variant o st) ≤ 27 * work st + pow3 (text_length c)
add_variant-work c none st h = omega arith
add_variant-work c (some s) st h =
    elim (contains s st.variants)
      as (λ b.
        27
          * work (if b then st else record { variants = s ∷ st.variants; pending = s ∷ st.pending })
        ≤ 27 * work st + pow3 (text_length c)) [
          | true ↦ omega arith
          | false ↦ omega (arith, pow3_three (text_length c) (text_length s) (h s refl))
        ]

pow3-pos : (n : ℕ) → 1 ≤ pow3 n
pow3-pos zero = omega arith
pow3-pos (suc n) = omega (arith, pow3-pos n)

pub shorten_top-falls :
    (vs ps : List String) (st' : Variants)
    → shorten_top vs ps ≡ some st'
    → work st' < work (record { variants = vs; pending = ps })
shorten_top-falls vs [] st' e = absurd (none-ne-some st' e)
shorten_top-falls vs (c ∷ cs) st' e =
    let first : Variants = record { variants = vs; pending = cs } in
    let middle = add_variant (shorten_start c) first in
    let one = add_variant-work c (shorten_start c) first (shorten_start-less c) in
    let two = add_variant-work c (shorten_inside c) middle (shorten_inside-less c) in
    subst (λ r. work r < work (record { variants = vs; pending = c ∷ cs })) (some-injective _ _ e)
      (omega (arith, one, two, pow3-pos (text_length c)))
