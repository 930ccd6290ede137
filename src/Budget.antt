-- ===== src/Budget.antt =====
-- The budget of a context pack, src/apex_ray/context/budget.py: the groups of snippets that it trims, and one
-- truncation. A snippet's code is a list of code points.
pub mod Code
pub mod Enforce
pub mod Steps
pub mod Shrinks
pub mod Ends
pub mod Exhausts
pub mod Counts
mod Examples
use apex_ray.Base.{
  ℕ, zero, suc, ◌+◌, ◌-◌, ◌/◌, max, String, Bool, true, false, ◌||◌, Option, none, some, List, [],
  ◌∷◌, ◌++◌, if◌then◌else◌, ltb, eqb, length, take, drop,
}
use apex_ray.Budget.Code.{split_lines, join}
use apex_ray.Models.{CodeSnippet, ContextPack}
use Prim.Native.String.{◌++◌ as append}

-- The lists of snippets of a pack.
pub data Group : Type 0 where
  changed reference callee contract metadata related_test : Group

abbrev pub snippets : Group → ContextPack → List CodeSnippet
snippets changed pack = pack.changed_snippets
snippets reference pack = pack.reference_snippets
snippets callee pack = pack.callee_snippets
snippets contract pack = pack.contract_snippets
snippets metadata pack = pack.metadata_snippets
snippets related_test pack = pack.related_test_snippets

abbrev pub set_snippets : Group → List CodeSnippet → ContextPack → ContextPack
set_snippets changed xs pack = record pack { changed_snippets = xs }
set_snippets reference xs pack = record pack { reference_snippets = xs }
set_snippets callee xs pack = record pack { callee_snippets = xs }
set_snippets contract xs pack = record pack { contract_snippets = xs }
set_snippets metadata xs pack = record pack { metadata_snippets = xs }
set_snippets related_test xs pack = record pack { related_test_snippets = xs }

abbrev pub label : Group → String
label changed = "changed snippet"
label reference = "reference snippet"
label callee = "callee snippet"
label contract = "contract snippet"
label metadata = "metadata snippet"
label related_test = "related test snippet"

-- The place of the label in the order of strings.
abbrev label_rank : Group → ℕ
label_rank callee = 0
label_rank changed = 1
label_rank contract = 2
label_rank metadata = 3
label_rank reference = 4
label_rank related_test = 5

-- The groups of whose snippets the middle is kept, and not the head.
abbrev pub keeps_middle : Group → Bool
keeps_middle changed = false
keeps_middle related_test = false
keeps_middle _ = true

-- The order of `snippet_groups`.
abbrev pub all_groups : List Group
all_groups = changed ∷ reference ∷ callee ∷ contract ∷ metadata ∷ related_test ∷ []

pub record Candidate : Type 0 where
  pub group : Group
  pub index : ℕ
  pub snippet : CodeSnippet

abbrev pub size : CodeSnippet → ℕ
size s = length s.code

-- The key `(size, label, index)` of the first is above that of the second.
unfoldable pub is_above : Candidate → Candidate → Bool
is_above a b =
    if eqb (size a.snippet) (size b.snippet)
    then if eqb (label_rank a.group) (label_rank b.group)
      then ltb b.index a.index
      else ltb (label_rank b.group) (label_rank a.group)
    else ltb (size b.snippet) (size a.snippet)

-- The snippets of one group that are long enough, from an index on.
unfoldable pub candidates_from : Group → ℕ → List CodeSnippet → List Candidate
candidates_from g i [] = []
candidates_from g i (s ∷ ss) =
    let rest = candidates_from g (suc i) ss in
    if ltb 128 (size s) then record { group = g; index = i; snippet = s } ∷ rest else rest

unfoldable pub candidates : List Group → ContextPack → List Candidate
candidates [] pack = []
candidates (g ∷ gs) pack = candidates_from g 0 (snippets g pack) ++ candidates gs pack

-- `max(candidates, key=...)`
unfoldable pub longest_from : Candidate → List Candidate → Candidate
longest_from best [] = best
longest_from best (c ∷ cs) = longest_from (if is_above c best then c else best) cs

unfoldable pub truncate_lines : Group → CodeSnippet → List (List ℕ) → CodeSnippet
truncate_lines g s lines =
    let count : ℕ = max 1 (length lines / 2) in
    let offset : ℕ = if keeps_middle g then (length lines - count) / 2 else 0 in
    record s {
      start_line = s.start_line + offset;
      end_line = s.start_line + offset + count - 1;
      code = join (take count (drop offset lines));
    }

unfoldable pub truncate_code : CodeSnippet → CodeSnippet
truncate_code s = record s { code = take (max 128 (size s / 2)) s.code }

unfoldable pub truncate_snippet : Group → CodeSnippet → CodeSnippet
truncate_snippet g s =
    let lines = split_lines s.code in
    if ltb 1 (length lines) then truncate_lines g s lines else truncate_code s

-- `snippets[index] = snippet`
abbrev pub replace_at : ℕ → CodeSnippet → List CodeSnippet → List CodeSnippet
replace_at i v [] = []
replace_at zero v (s ∷ ss) = v ∷ ss
replace_at (suc i) v (s ∷ ss) = s ∷ replace_at i v ss

-- A pack with the notes made on it.
pub record Trimmed : Type 0 where
  pub pack : ContextPack
  pub notes : List String

abbrev pub noted : Trimmed → ContextPack → String → Trimmed
noted st pack note = record { pack = pack; notes = st.notes ++ note ∷ [] }

abbrev pub truncate_candidate : Trimmed → Candidate → Trimmed
truncate_candidate st c =
    noted st
      (set_snippets c.group
        (replace_at c.index (truncate_snippet c.group c.snippet) (snippets c.group st.pack))
        st.pack)
      (append "truncated longest " (append (label c.group) " to fit context budget"))

-- `_truncate_longest_snippet` on the groups that are allowed; `none` is its False.
unfoldable pub truncate_longest : List Group → Trimmed → Option Trimmed
truncate_longest allowed st = elim (candidates allowed st.pack) [
  | [] ↦ none
  | c ∷ cs ↦ some (truncate_candidate st (longest_from c cs))
]
