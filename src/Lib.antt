-- ===== src/Lib.antt =====
-- Apex Ray reviews a code change with language models before it is pushed. A diff is parsed into files, hunks
-- and numbered lines; files are classified and scored for risk; analyzers cut the change into context packs;
-- a plan chooses the packs that models review under a cap and a token budget; their runs are reduced to a
-- state for each reviewer and pack; coverage is completed in bounded batches; findings that a person has
-- suppressed are filtered out before the gate decides on the push. Paths below start at src/apex_ray.
--
-- Base holds what the modules share: tests, lists, dicts in insertion order, Python's stable sort, pairwise
-- distinct lists, and the string methods the parser calls. Models holds the records of models.py. Then, by
-- part:
--
--   Diff       diff.py. The loop of `parse_unified_diff` over the lines of the input, one function for each
--              group of its tests, with the local variables as a state.
--   Risk       risk.py. The coordinate of a changed line in the current file, and in `Risk.Policy` the signals of
--              the project's rules.
--   Budget     context/budget.py. `finalize_pack`: the limits on the counts of snippets and the loops that cut
--              a pack down to its budget. Code is a list of code points.
--   Findings   findings.py and pipeline/findings.py. `Findings` itself is when two findings are duplicates,
--              `Findings.Provenance` their reviewers, `Findings.Consolidate` the merging, and
--              `Findings.Verify` the decisions on them. Sets are lists.
--   Gate       gates.py. The decision on a push; its reasons are values and not yet text.
--   Lines      line_ranges.py. `merge_line_ranges`, `line_range_count` and `subtract_line_ranges`, compared
--              with the set of lines that ranges cover.
--   Selection  pipeline/selection.py and the priority of report/coverage_breakdown.py. `Selection.Cap` is the
--              choice under a cap on packs, `Selection.Tokens` the one under a token budget,
--              `Selection.Plan` the two stages of `plan_llm_context_selection`, `Selection.Continue` the
--              continuation of a review, and `Selection.Consistent` is about the selections that plans and
--              continuations reach. Packs go along with their indexes.
--   Paths      path_matching.py. The worklist of the variants of a glob pattern, with the stack as a list.
--   Reviewers  reviewers.py and `resolve_completion_reviewer_scope` of pipeline/coverage.py; an exception is a
--              value. `Reviewers.Effective` and `Reviewers.Scope` are about the two.
--   Routing    llm/routing.py. The configuration with which a pack is reviewed or a finding verified.
--   Runs       report/run_state.py. `reduce_llm_pack_run_states`, compared with a machine for one reviewer
--              and one pack.
--   Coverage   `completion_status` of models.py and pipeline/coverage.py: when a scope of reviewers is
--              complete, what is pending, and the drain loop, which recurses on the batches left.
--   Triage     triage.py. Adding, removing, pruning and applying suppressions on the state, with the clock
--              and fresh ids as arguments, and the states that these operations reach.
--
-- Diff gives the changed files that Selection ranks packs by; Selection and Runs act on the packs and runs
-- of Models; Coverage reads the summaries of a report. Line numbers, counts, tokens and times are natural
-- numbers; a time is microseconds since an epoch. Most loops recurse on their input or on the batches that are
-- left; those of Budget have fuel, one more than the characters, snippets and cards that each step takes
-- from, the last of them the 65 of the source, and that of Paths one more than 3 to the length of the
-- pattern, since a variant gives two shorter ones at most.
--
-- Parameters stand for the size of a rendered prompt or pack, `fnmatchcase`, the regular expressions of
-- findings, a batch of reviews, the validation of the input snapshot, whether the configuration changed,
-- and the order and the casefolding of text. Not modelled are the calls of models, git, the analyzers, the
-- files and the rendering of reports and of the command line, which are input and output, and these parts
-- of the logic: the retry of the gate, the candidates for a new verification, and the benchmark.
pub mod Base
pub mod Findings
pub mod Gate
pub mod Lines
pub mod Models
pub mod Paths
pub mod Reviewers
pub mod Triage
pub mod Routing
pub mod Runs
pub mod Diff
pub mod Selection
pub mod Coverage
pub mod Risk
pub mod Budget
