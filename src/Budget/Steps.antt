-- ===== src/Budget/Steps.antt =====
-- Every step of the budget's loops takes something away.
use apex_ray.Base.{
  ℕ, zero, suc, ◌+◌, ◌-◌, ◌/◌, ◌≤◌, ◌<◌, max, ◌≡◌, refl, sym, ap, ◌∙◌, subst, inl, inr, String,
  true, none, some, List, [], ◌∷◌, if◌then◌else◌, ltb, ltb→lt, length, length-take, sum_by, truthy,
  All, All-append, arith, Bool-cases, Option-cases,
}
use mathlib.Core.Option.{some-injective, none-ne-some}
use apex_ray.Models.{CodeSnippet, ContextPack, MemoryMatch}
use apex_ray.Budget.{
  Group, changed, reference, callee, contract, metadata, related_test, snippets, set_snippets,
  keeps_middle, Candidate, size, candidates, candidates_from, longest_from, is_above,
  truncate_lines, truncate_code, truncate_snippet, replace_at, Trimmed, truncate_candidate,
  truncate_longest,
}
use apex_ray.Budget.Code.{split_lines, join-split_lines, All-split_lines, length-join-part}
use apex_ray.Budget.Enforce.{
  without_last, last, group_size, measure, drop_last, drop_match, truncate_or_drop, drop_card,
}

size-truncate_lines :
    (g : Group) (s : CodeSnippet)
    → 1 < length (split_lines s.code)
    → size (truncate_lines g s (split_lines s.code)) < size s
unfolding truncate_lines
size-truncate_lines g s h =
    let lines = split_lines s.code in
    let count : ℕ = max 1 (length lines / 2) in
    let offset : ℕ = if keeps_middle g then (length lines - count) / 2 else 0 in
    let fewer : count < length lines = omega (arith, h) in
    let whole = ap (length {A = ℕ}) (join-split_lines s.code) in
    let part = length-join-part count offset lines (All-split_lines s.code) fewer in
    omega (arith, whole, part)

size-truncate_code : (s : CodeSnippet) → 128 < size s → size (truncate_code s) < size s
unfolding truncate_code
size-truncate_code s h = omega (arith, length-take (max 128 (size s / 2)) s.code, h)

-- A truncated snippet is shorter.
pub size-truncate_snippet :
    (g : Group) (s : CodeSnippet) → 128 < size s → size (truncate_snippet g s) < size s
unfolding truncate_snippet
size-truncate_snippet g s h = elim (Bool-cases (ltb 1 (length (split_lines s.code)))) [
  | inl e ↦ rw e (size-truncate_lines g s (ltb→lt 1 (length (split_lines s.code)) e))
  | inr e ↦ rw e (size-truncate_code s h)
]

-- The snippet stands at this index.
abbrev pub At : ℕ → CodeSnippet → List CodeSnippet → Type 0
At i s [] = ⊥
At zero s (t ∷ ts) = t ≡ s
At (suc i) s (t ∷ ts) = At i s ts

pub record IsCandidate (pack : ContextPack) (c : Candidate) : Type 0 where
  pub long : 128 < size c.snippet
  pub at : At c.index c.snippet (snippets c.group pack)

All-candidates_from :
    (P : Candidate → Type 0) (g : Group) (i : ℕ) (ss : List CodeSnippet)
    → ((j k : ℕ) (s : CodeSnippet)
        → j ≡ i + k
        → At k s ss
        → 128 < size s
        → P (record { group = g; index = j; snippet = s }))
    → All P (candidates_from g i ss)
unfolding candidates_from
All-candidates_from P g i [] h = tt
All-candidates_from P g i (s ∷ ss) h =
    let rest =
      All-candidates_from P g (suc i) ss (λ j k t e a l. h j (suc k) t (omega (arith, e)) a l) in
    elim (Bool-cases (ltb 128 (size s))) [
      | inl e ↦ rw e (h i zero s (omega arith) refl (ltb→lt 128 (size s) e), rest)
      | inr e ↦ rw e rest
    ]

All-candidates :
    (gs : List Group) (pack : ContextPack) → All (IsCandidate pack) (candidates gs pack)
unfolding candidates
All-candidates [] pack = tt
All-candidates (g ∷ gs) pack =
    All-append (IsCandidate pack) (candidates_from g 0 (snippets g pack)) (candidates gs pack)
      (All-candidates_from (IsCandidate pack) g 0 (snippets g pack) (λ j k s e a l.
        let same : k ≡ j = omega (arith, e) in
        record { long = l; at = subst (λ n. At n s (snippets g pack)) same a }))
      (All-candidates gs pack)

longest_from-All :
    (P : Candidate → Type 0) (best : Candidate) (cs : List Candidate)
    → P best
    → All P cs
    → P (longest_from best cs)
unfolding longest_from
longest_from-All P best [] h hs = h
longest_from-All P best (c ∷ cs) h hs = elim (Bool-cases (is_above c best)) [
  | inl e ↦ rw e (longest_from-All P c cs hs.0 hs.1)
  | inr e ↦ rw e (longest_from-All P best cs h hs.1)
]

-- What a successful truncation did.
pub truncate_longest-some :
    (allowed : List Group) (st st' : Trimmed)
    → truncate_longest allowed st ≡ some st'
    → (c : Candidate) × IsCandidate st.pack c × (st' ≡ truncate_candidate st c)
unfolding truncate_longest
truncate_longest-some allowed st st' e =
    go (candidates allowed st.pack) (All-candidates allowed st.pack) e
  where
    go :
        (cs : List Candidate)
        → All (IsCandidate st.pack) cs
        → (elim cs [ [] ↦ none | c ∷ ds ↦ some (truncate_candidate st (longest_from c ds)) ])
          ≡ some st'
        → (c : Candidate) × IsCandidate st.pack c × (st' ≡ truncate_candidate st c)
    go [] h k = absurd (none-ne-some _ k)
    go (c ∷ ds) h k = (
      longest_from c ds,
      longest_from-All (IsCandidate st.pack) c ds h.0 h.1,
      sym (some-injective _ _ k),
    )

sum-replace_at :
    (i : ℕ) (v s : CodeSnippet) (ss : List CodeSnippet)
    → At i s ss
    → size v < size s
    → sum_by size (replace_at i v ss) < sum_by size ss
sum-replace_at i v s [] a h = absurd a
sum-replace_at zero v s (t ∷ ts) a h = omega (arith, ap size a, h)
sum-replace_at (suc i) v s (t ∷ ts) a h = omega (arith, sum-replace_at i v s ts a h)

pub length-replace_at :
    (i : ℕ) (v : CodeSnippet) (ss : List CodeSnippet) → length (replace_at i v ss) ≡ length ss
length-replace_at i v [] = refl
length-replace_at zero v (s ∷ ss) = refl
length-replace_at (suc i) v (s ∷ ss) = ap suc (length-replace_at i v ss)

-- Less in one group is less in the pack.
measure-set_snippets :
    (g : Group) (xs : List CodeSnippet) (st : Trimmed) (notes : List String)
    → sum_by size xs + length xs < group_size g st.pack
    → measure (record { pack = set_snippets g xs st.pack; notes = notes }) < measure st
measure-set_snippets changed xs st notes h = omega (arith, h)
measure-set_snippets reference xs st notes h = omega (arith, h)
measure-set_snippets callee xs st notes h = omega (arith, h)
measure-set_snippets contract xs st notes h = omega (arith, h)
measure-set_snippets metadata xs st notes h = omega (arith, h)
measure-set_snippets related_test xs st notes h = omega (arith, h)

pub truncate_longest-falls :
    (allowed : List Group) (st st' : Trimmed)
    → truncate_longest allowed st ≡ some st'
    → measure st' < measure st
truncate_longest-falls allowed st st' e =
    let (c, is, same) = truncate_longest-some allowed st st' e in
    let v = truncate_snippet c.group c.snippet in
    let ss = snippets c.group st.pack in
    let less =
      sum-replace_at c.index v c.snippet ss is.at
        (size-truncate_snippet c.group c.snippet is.long) in
    subst (λ s. measure s < measure st) (sym same)
      (measure-set_snippets c.group (replace_at c.index v ss) st (truncate_candidate st c).notes
        (omega (arith, less, length-replace_at c.index v ss)))

pub without_last-less {ℓ} :
    {A : Type ℓ} (f : A → ℕ) (xs : List A)
    → truthy xs ≡ true
    → (length (without_last xs) < length xs) × (sum_by f (without_last xs) ≤ sum_by f xs)
without_last-less f [] h = cc
without_last-less f (x ∷ []) h = (omega arith, omega arith)
without_last-less f (x ∷ y ∷ xs) h =
    let less = without_last-less f (y ∷ xs) refl in (omega (arith, less.0), omega (arith, less.1))

pub drop_last-falls :
    (g : Group) (st : Trimmed)
    → truthy (snippets g st.pack) ≡ true
    → measure (drop_last g st) < measure st
drop_last-falls g st h =
    let less = without_last-less size (snippets g st.pack) h in
    measure-set_snippets g (without_last (snippets g st.pack)) st (drop_last g st).notes
      (omega (arith, less.0, less.1))

pub truncate_or_drop-falls :
    (g : Group) (st st' : Trimmed)
    → truthy (snippets g st.pack) ≡ true
    → truncate_or_drop g st ≡ some st'
    → measure st' < measure st
unfolding truncate_or_drop
truncate_or_drop-falls g st st' h e = elim (Option-cases (truncate_longest (g ∷ []) st)) [
  | inr (s, k) ↦
      let same : some s ≡ some st' = sym (rw (k, truncate_or_drop) refl) ∙ e in
      truncate_longest-falls (g ∷ []) st st' (k ∙ same)
  | inl k ↦
      let same : some (drop_last g st) ≡ some st' = sym (rw (k, truncate_or_drop) refl) ∙ e in
      subst (λ s. measure s < measure st) (some-injective _ _ same) (drop_last-falls g st h)
]

truthy-last {ℓ} : {A : Type ℓ} (xs : List A) (x : A) → last xs ≡ some x → truthy xs ≡ true
truthy-last [] x e = absurd (none-ne-some _ e)
truthy-last (y ∷ ys) x e = refl

-- What dropping the last card did.
pub drop_card-some :
    (st st' : Trimmed)
    → drop_card st ≡ some st'
    → (m : MemoryMatch) × (truthy st.pack.memory_matches ≡ true) × (st' ≡ drop_match st m)
unfolding drop_card
drop_card-some st st' e = elim (Option-cases (last st.pack.memory_matches)) [
  | inl k ↦
      let same : none ≡ some st' = sym (rw (k, drop_card) refl) ∙ e in absurd (none-ne-some _ same)
  | inr (m, k) ↦
      let same : some (drop_match st m) ≡ some st' = sym (rw (k, drop_card) refl) ∙ e in
      (m, truthy-last st.pack.memory_matches m k, sym (some-injective _ _ same))
]

pub drop_card-falls : (st st' : Trimmed) → drop_card st ≡ some st' → measure st' < measure st
drop_card-falls st st' e =
    let (m, full, same) = drop_card-some st st' e in
    let less = (without_last-less (λ _. 0) st.pack.memory_matches full).0 in
    subst (λ s. measure s < measure st) (sym same) (omega (arith, less))
