-- ===== src/Budget/Enforce.antt =====
-- The loops of `_enforce_char_budget` and the rest of `finalize_pack`. The size of a pack, which the source
-- gets by rendering it to JSON, and the key of the configuration are parameters. The fuel of a loop is one more
-- than the characters, snippets and cards of the pack, since each step takes one of them.
use apex_ray.Base.{
  ℕ, suc, ◌+◌, ◌-◌, String, Bool, false, ◌&&◌, ◌||◌, Option, none, some, List, [], ◌∷◌, ◌++◌, map,
  if◌then◌else◌, ltb, leb, length, take, sum_by, truthy,
}
use apex_ray.Base.Loops.{loop}
use apex_ray.Models.{
  ContextPack, ContextConfig, ContextPackStats, MemoryMatch, MemoryOmission, AnalyzerSymbol,
}
use apex_ray.Budget.{
  Group, changed, reference, callee, contract, metadata, related_test, snippets, set_snippets,
  label, all_groups, size, Trimmed, noted, truncate_longest,
}
use apex_ray.Budget.Code.{split_lines}
use Prim.Native.String.{◌++◌ as append}

-- `xs[:-1]` and `xs[-1]`, for `pop()`.
abbrev pub without_last {ℓ} : {A : Type ℓ} → List A → List A
without_last [] = []
without_last (x ∷ []) = []
without_last (x ∷ y ∷ xs) = x ∷ without_last (y ∷ xs)

abbrev pub last {ℓ} : {A : Type ℓ} → List A → Option A
last [] = none
last (x ∷ []) = some x
last (x ∷ y ∷ xs) = last (y ∷ xs)

abbrev pub group_size : Group → ContextPack → ℕ
group_size g pack = sum_by size (snippets g pack) + length (snippets g pack)

-- What the loops can take away.
abbrev pub measure : Trimmed → ℕ
measure st =
    group_size changed st.pack
    + group_size reference st.pack
    + group_size callee st.pack
    + group_size contract st.pack
    + group_size metadata st.pack
    + group_size related_test st.pack
    + length st.pack.memory_matches

abbrev pub omission : MemoryMatch → MemoryOmission
omission m = record {
  id = m.id;
  title = m.title;
  kind = m.kind;
  reason = "dropped memory card to fit context budget";
  score = m.score;
  source_path = m.source_path;
}

abbrev pub drop_last : Group → Trimmed → Trimmed
drop_last g st =
    noted st (set_snippets g (without_last (snippets g st.pack)) st.pack)
      (append "dropped " (append (label g) " to fit context budget"))

-- The body of the first three loops.
unfoldable pub truncate_or_drop : Group → Trimmed → Option Trimmed
truncate_or_drop g st = elim (truncate_longest (g ∷ []) st) [
  | some st' ↦ some st'
  | none ↦ some (drop_last g st)
]

-- The body of the loops that only drop.
abbrev pub drop_step : Group → Trimmed → Option Trimmed
drop_step g st = some (drop_last g st)

abbrev pub drop_match : Trimmed → MemoryMatch → Trimmed
drop_match st m =
    noted st
      (record st.pack {
        memory_matches = without_last st.pack.memory_matches;
        memory_omissions = st.pack.memory_omissions ++ omission m ∷ [];
      })
      "dropped memory card to fit context budget"

-- The body of the loop over the memory cards.
unfoldable pub drop_card : Trimmed → Option Trimmed
drop_card st = elim (last st.pack.memory_matches) [ none ↦ none | some m ↦ some (drop_match st m) ]

-- `_symbol_has_graph_context` and `_compact_symbol_graph`
unfoldable pub has_graph_context : AnalyzerSymbol → Bool
has_graph_context s =
    truthy s.references || truthy s.callees || truthy s.contracts || truthy s.metadata

abbrev pub compact_symbol : AnalyzerSymbol → AnalyzerSymbol
compact_symbol s = record s { references = []; callees = []; contracts = []; metadata = [] }

abbrev compact_if_needed : AnalyzerSymbol → AnalyzerSymbol
compact_if_needed s = if has_graph_context s then compact_symbol s else s

abbrev compact_option : Option AnalyzerSymbol → Option AnalyzerSymbol
compact_option none = none
compact_option (some s) = some (compact_if_needed s)

abbrev option_has_graph : Option AnalyzerSymbol → Bool
option_has_graph none = false
option_has_graph (some s) = has_graph_context s

abbrev any_symbol : List AnalyzerSymbol → Bool
any_symbol [] = false
any_symbol (s ∷ ss) = has_graph_context s || any_symbol ss

-- `_compact_analyzer_graph`: what it changes, if there is anything to change.
abbrev pub compacted : ContextPack → ContextPack
compacted pack = record pack {
  references = [];
  callees = [];
  contracts = [];
  metadata = [];
  symbol = compact_option pack.symbol;
  symbols = map compact_if_needed pack.symbols;
}

abbrev pub has_graph : ContextPack → Bool
has_graph pack =
    truthy pack.references
    || truthy pack.callees
    || truthy pack.contracts
    || truthy pack.metadata
    || option_has_graph pack.symbol
    || any_symbol pack.symbols

abbrev pub compact_note : String
compact_note = "compacted over-budget analyzer graph to fit context budget"

abbrev pub compact_graph : Trimmed → Trimmed
compact_graph st = if has_graph st.pack then noted st (compacted st.pack) compact_note else st

-- `_limit_snippet_count`; the number in its note is printed by a parameter of `finalize_pack`.
unfoldable pub limit_snippet_count : Group → ℕ → (ℕ → String) → Trimmed → Trimmed
limit_snippet_count g max_count note st =
    let xs = snippets g st.pack in
    if leb (length xs) max_count
    then st
    else noted st (set_snippets g (take max_count xs) st.pack) (note (length xs - max_count))

abbrev pub remark : String
remark = "pack remains over context budget after snippet truncation"

module _ (estimated_pack_chars : ContextPack → ℕ) (config : ContextConfig) where
  abbrev pub over_budget : Trimmed → Bool
  over_budget st = ltb config.max_pack_chars (estimated_pack_chars st.pack)

  abbrev pub has_more : Group → Trimmed → Bool
  has_more g st = truthy (snippets g st.pack) && over_budget st

  abbrev pub has_cards : Trimmed → Bool
  has_cards st = truthy st.pack.memory_matches && over_budget st

  abbrev pub fuel : Trimmed → ℕ
  fuel st = suc (measure st)

  abbrev pub trim_group : Group → Trimmed → Trimmed
  trim_group g st = loop (has_more g) (truncate_or_drop g) (fuel st) st

  abbrev pub drop_cards : Trimmed → Trimmed
  drop_cards st = loop has_cards drop_card (fuel st) st

  abbrev pub truncate_contracts : Trimmed → Trimmed
  truncate_contracts st =
      loop over_budget (truncate_longest (contract ∷ metadata ∷ [])) (fuel st) st

  abbrev pub drop_group : Group → Trimmed → Trimmed
  drop_group g st = loop (has_more g) (drop_step g) (fuel st) st

  abbrev pub compact : Trimmed → Trimmed
  compact st = if over_budget st then compact_graph st else st

  -- The loop with the counter: it breaks behind the 65th truncation.
  abbrev pub truncate_any : Trimmed → Trimmed
  truncate_any st = loop over_budget (truncate_longest all_groups) 65 st

  abbrev pub note_if_over : Trimmed → Trimmed
  note_if_over st = if over_budget st then noted st st.pack remark else st

  -- The stages before the graph is compacted, in their order.
  unfoldable pub drop_stages : Trimmed → Trimmed
  drop_stages st = drop_group metadata (
      drop_group contract (
        truncate_contracts
          (drop_cards (trim_group callee (trim_group reference (trim_group related_test st))))))

  -- `_enforce_char_budget`
  unfoldable pub enforce_char_budget : Trimmed → Trimmed
  enforce_char_budget st =
      if over_budget st then note_if_over (truncate_any (compact (drop_stages st))) else st

  module _ (trim_note : Group → ℕ → String) (policy_key : String) where
    unfoldable pub limit_counts : Trimmed → Trimmed
    limit_counts st =
        limit_snippet_count related_test config.max_related_test_snippets (trim_note related_test) (
          limit_snippet_count metadata config.max_reference_snippets (trim_note metadata) (
            limit_snippet_count contract config.max_reference_snippets (trim_note contract) (
              limit_snippet_count callee config.max_reference_snippets (trim_note callee) (
                limit_snippet_count reference config.max_reference_snippets (trim_note reference) (
                  limit_snippet_count changed config.max_changed_snippets (trim_note changed)
                    st)))))

    abbrev snippet_lines : Group → ContextPack → ℕ
    snippet_lines g pack = sum_by (λ s. length (split_lines s.code)) (snippets g pack)

    -- `_pack_stats`
    unfoldable pub pack_stats : Trimmed → ContextPackStats
    pack_stats st = record {
      diff_lines = length st.pack.diff_snippet;
      changed_snippet_lines = snippet_lines changed st.pack;
      reference_snippet_lines = snippet_lines reference st.pack;
      callee_snippet_lines = snippet_lines callee st.pack;
      contract_snippet_lines = snippet_lines contract st.pack;
      metadata_snippet_lines = snippet_lines metadata st.pack;
      related_test_snippet_lines = snippet_lines related_test st.pack;
      memory_cards = length st.pack.memory_matches;
      memory_chars = sum_by (λ m. m.prompt_chars) st.pack.memory_matches;
      estimated_chars = estimated_pack_chars st.pack;
      truncated = truthy st.notes;
      truncation_notes = st.notes;
      policy_key = policy_key;
    }

    unfoldable pub finalize_pack : ContextPack → ContextPack
    finalize_pack pack =
        let st = enforce_char_budget (limit_counts (record { pack = pack; notes = [] })) in
        record st.pack { stats = pack_stats st }
