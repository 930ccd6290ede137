-- ===== src/Diff/Examples.antt =====
-- Runs of the diff parser, and its theorems applied to one.
use apex_ray.Base.{◌≡◌, refl, String, some, List, [], ◌∷◌, All, length}
use apex_ray.Models.{TargetMode, DiffSummary}
use apex_ray.Diff.{parse_unified_diff, program}
use apex_ray.Diff.Count.{adds, deletes}
use apex_ray.Diff.Numbering.{IsCounted, parse_unified_diff-IsCounted}
use apex_ray.Diff.Files.{
  count_files, headers, parse_unified_diff-stats, parse_unified_diff-files_changed,
}

abbrev two_files : List String
two_files =
    "diff --git a/x.py b/x.py" ∷ "--- a/x.py" ∷ "+++ b/x.py" ∷ "@@ -3,2 +3,2 @@ def f" ∷ " kept"
    ∷ "-old" ∷ "+new" ∷ "diff --git a/y.py b/y.py" ∷ "new file mode 100644" ∷ "--- /dev/null"
    ∷ "+++ b/y.py" ∷ "@@ -0,0 +1 @@" ∷ "+only" ∷ []

abbrev parsed : DiffSummary
parsed = parse_unified_diff two_files TargetMode.base (some "main")

parsed-stats :
    (parsed.stats.additions ≡ 2) × (parsed.stats.deletions ≡ 1) × (parsed.stats.files_changed ≡ 2)
unfolding program
parsed-stats = (refl, refl, refl)

parse_unified_diff-IsCounted_example : All IsCounted parsed.files
parse_unified_diff-IsCounted_example =
    parse_unified_diff-IsCounted two_files TargetMode.base (some "main")

parse_unified_diff-stats_example :
    (parsed.stats.additions ≡ count_files adds parsed.files)
    × (parsed.stats.deletions ≡ count_files deletes parsed.files)
    × (parsed.stats.files_changed ≡ length parsed.files)
parse_unified_diff-stats_example = parse_unified_diff-stats two_files TargetMode.base (some "main")

parse_unified_diff-files_changed_example : parsed.stats.files_changed ≡ headers two_files
parse_unified_diff-files_changed_example =
    parse_unified_diff-files_changed two_files TargetMode.base (some "main")
