-- ===== src/Paths/Examples.antt =====
-- Patterns and paths at concrete values, with equality for `fnmatchcase`.
use apex_ray.Base.{◌≡◌, refl, ◌↔◌, String, Bool, true, [], ◌∷◌, Any, contains, ◌==◌, string_eq}
use apex_ray.Base.Loops.{loop}
use apex_ray.Base.Text.{
  drop_prefix, remove_prefix, split_first, strip, strip_left, strip_right, is_blank,
}
use apex_ray.Paths.{
  with_slashes, normalize_path, shorten_inside, glob_variants, any_variant, path_matches_any,
}
use apex_ray.Paths.Reach.{Reaches, glob_variants-Reaches}
use apex_ray.Paths.Match.{Matches, path_matches_any-Matches}

paths_program : Unit {0}
unfolding string_eq loop drop_prefix remove_prefix split_first strip strip_left strip_right is_blank
    with_slashes normalize_path shorten_inside glob_variants any_variant path_matches_any
paths_program = tt

variants_of_nested : glob_variants "**/a/**/b" ≡ "a/b" ∷ "**/a/b" ∷ "a/**/b" ∷ "**/a/**/b" ∷ []
unfolding paths_program
variants_of_nested = refl

abbrev literally : String → String → Bool
literally path pattern = path == pattern

glob_variants-Reaches_example :
    (contains "a/b" (glob_variants "a/**/b") ≡ true) ↔ Reaches "a/**/b" "a/b"
glob_variants-Reaches_example = glob_variants-Reaches "a/**/b" "a/b"

path_matches_any-Matches_example :
    (path_matches_any literally "./a\\b" ("a/**/b" ∷ []) ≡ true)
    ↔ Any (Matches literally "./a\\b") ("a/**/b" ∷ [])
path_matches_any-Matches_example = path_matches_any-Matches literally "./a\\b" ("a/**/b" ∷ [])

backslash_matches : path_matches_any literally "./a\\b" ("a/**/b" ∷ []) ≡ true
unfolding paths_program
backslash_matches = refl
