-- ===== src/Findings.antt =====
-- Findings, src/apex_ray/findings.py and src/apex_ray/pipeline/findings.py: when two of them are duplicates. A set is
-- a list, each element once where its size is asked for. Lower case and the matches of the regular expressions are
-- parameters. A quotient of sizes is compared with a decimal fraction by the products.
pub mod Provenance
pub mod Consolidate
pub mod Keep
pub mod Core
pub mod Verify
pub mod Active
pub mod Samples
mod Examples
use apex_ray.Base.{
  ℕ, ◌+◌, ◌-◌, ◌*◌, min, String, Bool, true, false, not, ◌&&◌, ◌||◌, Option, none, some, List, [],
  ◌∷◌, ◌++◌, if◌then◌else◌, ◌==◌, contains, filter, length, leb, ltb, truthy, string_eq, option_eq,
  nat_eq,
}
use apex_ray.Base.Text.{concat, strip, split_first, remove_prefix, starts_with}
use apex_ray.Models.{Finding, FindingSeverity, finding_severity_eq}
use apex_ray.Paths.{normalize_path}
use Prim.Native.Char.{Char, code}
use apex_ray.Base.{eqb}

-- `_normalized_context_pack_id`
abbrev join_pack_id : String → Option (String × String) → String
join_pack_id value none = strip value
join_pack_id value (some (prefix, suffix)) = concat (normalize_path prefix) (concat "#" suffix)

unfoldable pub normalized_context_pack_id : String → String
normalized_context_pack_id value = join_pack_id value (split_first "#" (strip value))

unfoldable pub normalized_finding_file : Finding → String
normalized_finding_file finding = normalize_path finding.file

-- Whether the tuples `finding_decision_identity` of the two are equal.
unfoldable pub same_decision : Finding → Finding → Bool
same_decision left right =
    (left.severity == right.severity)
    && (left.title == right.title)
    && (normalized_finding_file left == normalized_finding_file right)
    && (left.line == right.line)
    && (left.failure_mode == right.failure_mode)
    && (left.evidence == right.evidence)
    && (normalized_context_pack_id left.context_pack_id
        == normalized_context_pack_id right.context_pack_id)

-- Whether the tuples `_verification_subject_identity` are equal.
unfoldable pub same_subject : Finding → Finding → Bool
same_subject left right =
    (left.title == right.title)
    && (normalized_finding_file left == normalized_finding_file right)
    && (left.line == right.line)
    && (left.failure_mode == right.failure_mode)
    && (left.evidence == right.evidence)
    && (normalized_context_pack_id left.context_pack_id
        == normalized_context_pack_id right.context_pack_id)

-- Whether the tuples `_cross_pack_verification_identity` are equal.
unfoldable pub same_content : Finding → Finding → Bool
same_content left right =
    (left.severity == right.severity)
    && (left.title == right.title)
    && (left.failure_mode == right.failure_mode)
    && (left.evidence == right.evidence)

-- `abs(a - b) <= 3`
abbrev pub is_near : ℕ → ℕ → Bool
is_near a b = leb ((a - b) + (b - a)) 3

abbrev cons_first : Char → List String → List String
cons_first c [] = String.◌∷◌ c String.[] ∷ []
cons_first c (p ∷ ps) = String.◌∷◌ c p ∷ ps

-- `.split("/")`
unfoldable pub split_slash : String → List String
split_slash String.[] = "" ∷ []
split_slash (String.◌∷◌ c s) =
    let rest = split_slash s in if eqb (code c) b'/' then "" ∷ rest else cons_first c rest

abbrev last_part : List String → String
last_part [] = ""
last_part (p ∷ []) = p
last_part (p ∷ q ∷ ps) = last_part (q ∷ ps)

abbrev folders : List String → List String
folders [] = []
folders (p ∷ []) = []
folders (p ∷ q ∷ ps) = p ∷ folders (q ∷ ps)

abbrev any_test_part : List String → Bool
any_test_part [] = false
any_test_part (p ∷ ps) = contains p ("__tests__" ∷ "test" ∷ "tests" ∷ []) || any_test_part ps

abbrev join_slash : List String → String
join_slash [] = ""
join_slash (p ∷ []) = p
join_slash (p ∷ q ∷ ps) = concat p (concat "/" (join_slash (q ∷ ps)))

-- `set(xs)`
unfoldable pub as_set : List String → List String
as_set [] = []
as_set (x ∷ xs) = let rest = as_set xs in if contains x rest then rest else x ∷ rest

-- The words that `_FINDING_STOP_WORDS` leaves out.
abbrev stop_words : List String
stop_words =
    "add" ∷ "added" ∷ "also" ∷ "and" ∷ "any" ∷ "are" ∷ "assert" ∷ "before" ∷ "but" ∷ "can"
    ∷ "change" ∷ "changed" ∷ "changes" ∷ "code" ∷ "concrete" ∷ "context" ∷ "diff" ∷ "does" ∷ "from"
    ∷ "has" ∷ "have" ∷ "including" ∷ "instead" ∷ "into" ∷ "issue" ∷ "line" ∷ "new" ∷ "not" ∷ "now"
    ∷ "only" ∷ "public" ∷ "raw" ∷ "return" ∷ "returns" ∷ "same" ∷ "should" ∷ "that" ∷ "the" ∷ "this"
    ∷ "through" ∷ "type" ∷ "updated" ∷ "using" ∷ "value" ∷ "with" ∷ []

-- `str.isdigit` on a token, which is of ASCII letters, digits and underscores, and not empty.
abbrev all_digits : String → Bool
all_digits String.[] = true
all_digits (String.◌∷◌ c s) = leb b'0' (code c) && leb (code c) b'9' && all_digits s

-- What the regular expressions of findings.py find, and `str.lower`.
pub record Scanner : Type 0 where
  pub lower : String → String
  pub find_tokens : String → List String
  pub find_code_tokens : String → List String
  pub has_test_marker : String → Bool
  pub has_test_suffix : String → Bool
  pub cut_test_marker : String → String
  pub cut_test_suffix : String → String

module _ (scan : Scanner) where
  unfoldable pub finding_path_is_test : String → Bool
  finding_path_is_test path =
      let parts = split_slash (normalize_path path) in
      let filename = last_part parts in
      any_test_part (folders parts)
      || scan.has_test_marker filename
      || starts_with "test_" filename
      || scan.has_test_suffix filename

  abbrev scope_name : String → String
  scope_name part = scan.cut_test_suffix (remove_prefix "test_" (scan.cut_test_marker part))

  abbrev scope_parts : List String → List String
  scope_parts [] = []
  scope_parts (p ∷ []) = scope_name p ∷ []
  scope_parts (p ∷ q ∷ ps) = p ∷ scope_parts (q ∷ ps)

  -- A path without its test folders, `src` and the test marks of its last part.
  unfoldable pub finding_test_source_scope : String → String
  finding_test_source_scope path = join_slash (
      scope_parts (
        filter (λ part. not (part == "") && not (any_test_part (part ∷ [])) && not (part == "src"))
          (split_slash (normalize_path path))))

  unfoldable pub test_source_scopes_are_compatible : String → String → Bool
  test_source_scopes_are_compatible left right =
      if (finding_path_is_test left && finding_path_is_test right)
        || (not (finding_path_is_test left) && not (finding_path_is_test right))
      then false
      else finding_test_source_scope left == finding_test_source_scope right

  abbrev lines_are_near : Option ℕ → Option ℕ → Bool
  lines_are_near (some a) (some b) = is_near a b
  lines_are_near _ _ = false

  unfoldable pub finding_consolidation_scope_is_compatible : Finding → Finding → Bool
  finding_consolidation_scope_is_compatible left right =
      if normalized_finding_file left == normalized_finding_file right
      then lines_are_near left.line right.line
      else test_source_scopes_are_compatible (normalized_finding_file left)
          (normalized_finding_file right)

  unfoldable pub finding_text : Finding → String
  finding_text finding = scan.lower (
      concat finding.title (
        concat "\n" (
          concat finding.failure_mode
            (concat "\n" (concat finding.evidence (concat "\n" finding.suggested_fix))))))

  unfoldable pub finding_code_tokens : Finding → List String
  finding_code_tokens finding = as_set (scan.find_code_tokens (finding_text finding))

  unfoldable pub finding_tokens : Finding → List String
  finding_tokens finding = as_set (
      filter (λ token. not (contains token stop_words) && not (all_digits token))
        (scan.find_tokens (finding_text finding))
      ++ finding_code_tokens finding)

  abbrev common : List String → List String → List String
  common left right = filter (λ x. contains x right) left

  -- The three thresholds, for the sizes of the smaller set, of the union and of what both have.
  abbrev overlaps_enough : Bool → ℕ → ℕ → ℕ → Bool
  overlaps_enough share_code smaller union overlap =
      (leb (54 * smaller) (100 * overlap) && leb (35 * union) (100 * overlap))
      || (share_code && leb 8 overlap && leb (20 * union) (100 * overlap))
      || (leb 24 overlap && leb (48 * smaller) (100 * overlap) && leb (30 * union) (100 * overlap))

  unfoldable pub finding_subjects_are_duplicates : Finding → Finding → Bool
  finding_subjects_are_duplicates left right =
      let left_tokens = finding_tokens left in
      let right_tokens = finding_tokens right in
      let smaller = min (length left_tokens) (length right_tokens) in
      let overlap = length (common left_tokens right_tokens) in
      let union = length left_tokens + length right_tokens - overlap in
      if ltb smaller 8
      then false
      else overlaps_enough (truthy (common (finding_code_tokens left) (finding_code_tokens right)))
          smaller union overlap

  unfoldable pub findings_are_duplicates : Finding → Finding → Bool
  findings_are_duplicates left right =
      if same_decision left right
      then true
      else if not (left.severity == right.severity)
      then false
      else if not (finding_consolidation_scope_is_compatible left right)
      then false
      else finding_subjects_are_duplicates left right

  abbrev pack_ids_conflict : Finding → Finding → Bool
  pack_ids_conflict left right =
      not (left.context_pack_id == "")
      && not (right.context_pack_id == "")
      && not (
          normalized_context_pack_id left.context_pack_id
          == normalized_context_pack_id right.context_pack_id)

  abbrev lines_agree : Option ℕ → Option ℕ → Bool
  lines_agree (some a) (some b) = is_near a b
  lines_agree left right = left == right

  unfoldable pub verification_scope_is_compatible : Finding → Finding → Bool
  verification_scope_is_compatible left right =
      if not (normalized_finding_file left == normalized_finding_file right)
      then false
      else if pack_ids_conflict left right
      then false
      else lines_agree left.line right.line
