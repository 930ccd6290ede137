-- ===== src/Budget/Code.antt =====
-- Code cut into lines, Python's `splitlines(keepends=True)`, and joined again.
use apex_ray.Base.{
  ℕ, zero, suc, ◌≤◌, ◌<◌, ◌≡◌, refl, ap, ◌∙◌, inl, inr, Bool, false, not, ◌&&◌, ◌||◌, List, [], ◌∷◌,
  ◌++◌, if◌then◌else◌, eqb, leb, length, length-append, take, drop, All, arith, Bool-cases,
}

-- The code points behind which a line ends.
abbrev pub is_break : ℕ → Bool
is_break c =
    (leb 10 c && leb c 13) || (leb 28 c && leb c 30) || eqb c 0x85 || eqb c 0x2028 || eqb c 0x2029

-- A carriage return in front of a line feed ends no line of its own.
abbrev pub feeds : List ℕ → Bool
feeds [] = false
feeds (c ∷ _) = eqb c 10

abbrev onto_first : ℕ → List (List ℕ) → List (List ℕ)
onto_first c [] = (c ∷ []) ∷ []
onto_first c (l ∷ ls) = (c ∷ l) ∷ ls

unfoldable pub split_lines : List ℕ → List (List ℕ)
split_lines [] = []
split_lines (c ∷ s) =
    let rest = split_lines s in
    if is_break c && not (eqb c 13 && feeds s) then (c ∷ []) ∷ rest else onto_first c rest

-- `"".join(lines)`
abbrev pub join : List (List ℕ) → List ℕ
join [] = []
join (l ∷ ls) = l ++ join ls

join-onto_first : (c : ℕ) (ls : List (List ℕ)) → join (onto_first c ls) ≡ c ∷ join ls
join-onto_first c [] = refl
join-onto_first c (l ∷ ls) = refl

-- Joining what was split gives the code back.
pub join-split_lines : (s : List ℕ) → join (split_lines s) ≡ s
unfolding split_lines
join-split_lines [] = refl
join-split_lines (c ∷ s) = elim (Bool-cases (is_break c && not (eqb c 13 && feeds s))) [
  | inl e ↦ rw (split_lines, e) (ap (λ t. c ∷ t) (join-split_lines s))
  | inr e ↦
      rw (split_lines, e) (join-onto_first c (split_lines s) ∙ ap (λ t. c ∷ t) (join-split_lines s))
]

-- No line is empty.
abbrev pub NonEmpty : List ℕ → Type 0
NonEmpty l = 1 ≤ length l

All-onto_first : (c : ℕ) (ls : List (List ℕ)) → All NonEmpty ls → All NonEmpty (onto_first c ls)
All-onto_first c [] h = (omega arith, tt)
All-onto_first c (l ∷ ls) h = (omega arith, h.1)

pub All-split_lines : (s : List ℕ) → All NonEmpty (split_lines s)
unfolding split_lines
All-split_lines [] = tt
All-split_lines (c ∷ s) = elim (Bool-cases (is_break c && not (eqb c 13 && feeds s))) [
  | inl e ↦ rw (split_lines, e) (omega arith, All-split_lines s)
  | inr e ↦ rw (split_lines, e) (All-onto_first c (split_lines s) (All-split_lines s))
]

length-join-drop : (n : ℕ) (ls : List (List ℕ)) → length (join (drop n ls)) ≤ length (join ls)
length-join-drop zero ls = omega arith
length-join-drop (suc n) [] = omega arith
length-join-drop (suc n) (l ∷ ls) = omega (arith, length-append l (join ls), length-join-drop n ls)

length-join-take : (n : ℕ) (ls : List (List ℕ)) → length (join (take n ls)) ≤ length (join ls)
length-join-take zero ls = omega arith
length-join-take (suc n) [] = omega arith
length-join-take (suc n) (l ∷ ls) =
    omega
      (arith, length-append l (join ls), length-append l (join (take n ls)), length-join-take n ls)

-- Fewer lines than there are make a shorter text.
pub length-join-take_fewer :
    (n : ℕ) (ls : List (List ℕ))
    → All NonEmpty ls
    → n < length ls
    → length (join (take n ls)) < length (join ls)
length-join-take_fewer n [] h k = absurd (omega (arith, k))
length-join-take_fewer zero (l ∷ ls) h k = omega (arith, length-append l (join ls), h.0)
length-join-take_fewer (suc n) (l ∷ ls) h k = omega (
  arith,
  length-append l (join ls),
  length-append l (join (take n ls)),
  length-join-take_fewer n ls h.1 (omega (arith, k)),
)

-- A part of the lines that is not all of them is shorter than the whole.
pub length-join-part :
    (n m : ℕ) (ls : List (List ℕ))
    → All NonEmpty ls
    → n < length ls
    → length (join (take n (drop m ls))) < length (join ls)
length-join-part n zero ls h k = length-join-take_fewer n ls h k
length-join-part n (suc m) [] h k = absurd (omega (arith, k))
length-join-part n (suc m) (l ∷ ls) h k =
    omega
      (arith, length-append l (join ls), h.0, length-join-take n (drop m ls), length-join-drop m ls)
