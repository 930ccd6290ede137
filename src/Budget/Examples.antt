-- ===== src/Budget/Examples.antt =====
-- The context budget at a concrete pack. Its size is taken to be the characters of the changed snippets and of the
-- references, and ten for a memory card.
use apex_ray.Base.{
  ℕ, zero, suc, ◌+◌, ◌*◌, ◌≤◌, ◌≡◌, refl, some, List, [], ◌∷◌, length, sum_by, All, string_eq,
}
use apex_ray.Base.Loops.{loop}
use apex_ray.Models.{CodeSnippet, ContextPack, ContextConfig, FileKind}
use apex_ray.Models.Samples.{pack}
use apex_ray.Budget.{
  changed, snippets, size, candidates_from, candidates, is_above, longest_from, truncate_lines,
  truncate_code, truncate_snippet, truncate_longest, Trimmed,
}
use apex_ray.Budget.Code.{split_lines}
use apex_ray.Budget.Enforce.{
  last, remark, truncate_or_drop, drop_card, drop_stages, enforce_char_budget, limit_snippet_count,
  limit_counts, finalize_pack, has_graph_context,
}
use apex_ray.Budget.Exhausts.{dropped_groups, enforce_char_budget-Exhausts}
use apex_ray.Budget.Counts.{finalize_pack-max}

abbrev letters : ℕ → List ℕ
letters zero = []
letters (suc n) = 97 ∷ letters n

abbrev snippet : List ℕ → CodeSnippet
snippet code = record { file = "a.py"; start_line = 10; end_line = 13; code = code }

abbrev sample : ContextPack
sample = record (pack "a" "a.py" FileKind.source 0) {
  changed_snippets = snippet (letters 60) ∷ snippet (letters 50) ∷ [];
  reference_snippets = snippet (letters 150) ∷ [];
}

abbrev chars : ContextPack → ℕ
chars p =
    sum_by size p.changed_snippets + sum_by size p.reference_snippets + 10 * length p.memory_matches

abbrev config : ℕ → ContextConfig
config budget = record {
  max_changed_snippets = 1;
  max_changed_snippet_lines = 100;
  max_hunk_snippets = 3;
  hunk_context_lines = 5;
  max_reference_snippets = 4;
  reference_snippet_context_lines = 5;
  max_related_test_snippets = 2;
  max_related_test_snippet_lines = 20;
  max_pack_chars = budget;
}

abbrev start : Trimmed
start = record { pack = sample; notes = [] }

budget_program : Unit {0}
unfolding split_lines candidates_from candidates is_above longest_from truncate_lines truncate_code
    truncate_snippet truncate_longest truncate_or_drop drop_card drop_stages enforce_char_budget
    limit_snippet_count limit_counts finalize_pack loop has_graph_context
budget_program = tt

split_crlf : split_lines (97 ∷ 13 ∷ 10 ∷ 98 ∷ []) ≡ (97 ∷ 13 ∷ 10 ∷ []) ∷ (98 ∷ []) ∷ []
unfolding budget_program
split_crlf = refl

enforce_notes :
    (enforce_char_budget chars (config 100) start).notes
    ≡ "truncated longest reference snippet to fit context budget"
      ∷ "dropped reference snippet to fit context budget" ∷ remark ∷ []
unfolding budget_program
enforce_notes = refl

enforce_char_budget-Exhausts_example :
    All (λ g. snippets g (enforce_char_budget chars (config 100) start).pack ≡ []) dropped_groups
    × ((enforce_char_budget chars (config 100) start).pack.memory_matches ≡ [])
    × (last (enforce_char_budget chars (config 100) start).notes ≡ some remark)
unfolding budget_program
enforce_char_budget-Exhausts_example = enforce_char_budget-Exhausts chars (config 100) start refl

finalize_pack-max_example :
    length (snippets changed (finalize_pack chars (config 100) (λ g n. "trimmed") "key" sample)) ≤ 1
finalize_pack-max_example =
    finalize_pack-max chars (config 100) (λ g n. "trimmed") "key" sample changed
