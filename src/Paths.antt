-- ===== src/Paths.antt =====
-- Path patterns, src/apex_ray/path_matching.py. `fnmatch.fnmatchcase` is a parameter.
pub mod Shorten
pub mod Work
pub mod Reach
pub mod Match
mod Examples
use apex_ray.Base.{
  ℕ, zero, suc, ◌*◌, String, Bool, true, false, ◌||◌, Option, none, some, List, [], ◌∷◌,
  if◌then◌else◌, eqb, ◌==◌, contains, truthy, string_eq,
}
use apex_ray.Base.Loops.{loop}
use apex_ray.Base.Text.{concat, drop_prefix, remove_prefix, split_first, strip}
use Prim.Native.Char.{Char, code}

-- `.replace("\\", "/")`
unfoldable pub with_slashes : String → String
with_slashes String.[] = String.[]
with_slashes (String.◌∷◌ c s) = String.◌∷◌ (if eqb (code c) b'\\' then "/" else c) (with_slashes s)

unfoldable pub normalize_path : String → String
normalize_path value = remove_prefix "./" (with_slashes (strip value))

-- The candidate without a leading `**/`.
abbrev pub shorten_start : String → Option String
shorten_start candidate = drop_prefix "**/" candidate

abbrev pub around_slash : Option (String × String) → Option String
around_slash none = none
around_slash (some (before, after)) = some (concat before (concat "/" after))

-- The candidate with its first `/**/` cut down to `/`.
unfoldable pub shorten_inside : String → Option String
shorten_inside candidate = around_slash (split_first "/**/" candidate)

-- The set of variants and the stack of those still to be shortened, its top first.
pub record Variants : Type 0 where
  pub variants : List String
  pub pending : List String

abbrev pub add_variant : Option String → Variants → Variants
add_variant none st = st
add_variant (some shortened) st =
    if contains shortened st.variants
    then st
    else record { variants = shortened ∷ st.variants; pending = shortened ∷ st.pending }

abbrev pub shorten_top : List String → List String → Option Variants
shorten_top variants [] = none
shorten_top variants (candidate ∷ pending) = some (
    add_variant (shorten_inside candidate)
      (add_variant (shorten_start candidate) (record { variants = variants; pending = pending })))

-- The body of the loop.
abbrev pub shorten_next : Variants → Option Variants
shorten_next st = shorten_top st.variants st.pending

abbrev pub has_pending : Variants → Bool
has_pending st = truthy st.pending

abbrev pub pow3 : ℕ → ℕ
pow3 zero = 1
pow3 (suc n) = 3 * pow3 n

abbrev pub text_length : String → ℕ
text_length String.[] = 0
text_length (String.◌∷◌ c s) = suc (text_length s)

-- Each variant is shorter than the one it comes from, and comes with one other at most.
abbrev pub variant_fuel : String → ℕ
variant_fuel pattern = suc (pow3 (text_length pattern))

unfoldable pub glob_variants : String → List String
glob_variants pattern =
    (loop has_pending shorten_next (variant_fuel pattern)
      (record { variants = pattern ∷ []; pending = pattern ∷ [] })).variants

module _ (fnmatchcase : String → String → Bool) where
  unfoldable pub any_variant : String → List String → Bool
  any_variant path [] = false
  any_variant path (variant ∷ vs) = fnmatchcase path variant || any_variant path vs

  unfoldable pub path_matches_any : String → List String → Bool
  path_matches_any path [] = false
  path_matches_any path (pattern ∷ patterns) =
      let normalized = normalize_path path in
      let normalized_pattern = normalize_path pattern in
      if normalized == normalized_pattern
      then true
      else if any_variant normalized (glob_variants normalized_pattern)
      then true
      else path_matches_any path patterns
