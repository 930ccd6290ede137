-- ===== src/Selection/Cap.antt =====
-- The choice under a cap, priority by priority, `_select_llm_context_pack_indexes` and its helper within one
-- priority. `selected` stands for `selected_indexes`, `selected_index_set` and `selected_files`, which the
-- source changes together.
pub mod Fill
pub mod Source
use apex_ray.Base.{
  ℕ, zero, suc, ◌-◌, String, Bool, true, false, ◌||◌, Option, none, some, List, [], ◌∷◌, ◌++◌, map,
  if◌then◌else◌, ◌==◌, eqb, leb, length, filter, any, contains, string_eq, option_eq,
}
use apex_ray.Base.Dict.{Dict, lookup}
use apex_ray.Base.Sort.{sorted}
use apex_ray.Models.{ChangedFile, ContextPack, FileKind, Priority, p0, p1, p2, priority_eq}
use apex_ray.Selection.{
  IndexedPack, initial_llm_breadth_budget, is_high_value_extra_pack, pack_residual_priority,
  kinds_by_path, preferred_ge, index_le,
}

-- `index in selected_index_set`
abbrev pub has_index : ℕ → List IndexedPack → Bool
has_index i selected = any (λ x. eqb i x.0) selected

-- `file in selected_files`
abbrev has_file : String → List IndexedPack → Bool
has_file file selected = any (λ x. x.1.file == file) selected

pub select : ℕ → List IndexedPack → IndexedPack → List IndexedPack
select max_packs selected item =
    if leb max_packs (length selected) || has_index item.0 selected
    then selected
    else selected ++ item ∷ []

-- A `for` loop that breaks as soon as `budget` packs are selected.
pub select_until {ℓ} :
    {A : Type ℓ}
    → ℕ
    → (List IndexedPack → A → List IndexedPack)
    → List IndexedPack
    → List A
    → List IndexedPack
select_until budget step selected [] = selected
select_until budget step selected (x ∷ xs) = elim (leb budget (length selected)) [
  | true ↦ selected
  | false ↦ select_until budget step (step selected x) xs
]

-- `groups[file]`
abbrev pub group_of : String → List IndexedPack → List IndexedPack
group_of file indexed = filter (λ x. x.1.file == file) indexed

-- `group_order`
pub files_in_order : List String → List IndexedPack → List String
files_in_order order [] = order
files_in_order order (x ∷ indexed) =
    files_in_order (if contains x.1.file order then order else order ++ x.1.file ∷ []) indexed

-- `select` on the first pack of a group, if it has one.
pub select_first : ℕ → List IndexedPack → List IndexedPack → List IndexedPack
select_first max_packs selected [] = selected
select_first max_packs selected (x ∷ _) = select max_packs selected x

-- The bodies of the first four loops.
abbrev breadth_step : ℕ → List IndexedPack → List IndexedPack → String → List IndexedPack
breadth_step max_packs indexed selected file =
    select_first max_packs selected (group_of file indexed)

abbrev valuable_step : ℕ → List IndexedPack → List IndexedPack → String → List IndexedPack
valuable_step max_packs indexed selected file =
    if has_file file selected
    then selected
    else select_first max_packs selected
        (filter (λ x. is_high_value_extra_pack x.1) (group_of file indexed))

abbrev extra_step : ℕ → List IndexedPack → IndexedPack → List IndexedPack
extra_step max_packs selected item =
    if has_index item.0 selected
    then selected
    else if is_high_value_extra_pack item.1
    then select max_packs selected item
    else selected

abbrev untouched_step : ℕ → List IndexedPack → List IndexedPack → String → List IndexedPack
untouched_step max_packs indexed selected file =
    if any (λ x. has_index x.0 selected) (group_of file indexed)
    then selected
    else select_first max_packs selected (group_of file indexed)

-- The five loops over the ordered packs and their files.
pub select_in_order : ℕ → List IndexedPack → List IndexedPack
select_in_order max_packs indexed =
    let order = files_in_order [] indexed in
    let breadth_budget = initial_llm_breadth_budget max_packs (length order) in
    let s1 = select_until breadth_budget (breadth_step max_packs indexed) [] order in
    let s2 = select_until max_packs (valuable_step max_packs indexed) s1 order in
    let s3 = select_until max_packs (extra_step max_packs) s2 indexed in
    let s4 = select_until max_packs (untouched_step max_packs indexed) s3 order in
    select_until max_packs (select max_packs) s4 indexed

-- `_select_llm_context_pack_indexes_within_priority`
pub select_within_priority :
    List IndexedPack → List ChangedFile → ℕ → List String → List IndexedPack
select_within_priority indexed changed_files max_packs preferred =
    if leb (length indexed) max_packs
    then indexed
    else (let kinds = kinds_by_path [] changed_files in
        sorted index_le (select_in_order max_packs (sorted (preferred_ge preferred kinds) indexed)))

abbrev pub has_priority : Dict String Priority → Priority → IndexedPack → Bool
has_priority archived priority item =
    pack_residual_priority item.1 (lookup item.1.id archived) == priority

-- `preferred_pack_ids`
abbrev preferred_ids : Dict String Priority → Priority → List IndexedPack → List String
preferred_ids archived priority packs =
    map (λ x. x.1.id) (filter (λ x. lookup x.1.id archived == some priority) packs)

-- The loop over the priorities.
pub select_priorities :
    List IndexedPack
    → List ChangedFile
    → ℕ
    → Dict String Priority
    → List IndexedPack
    → List Priority
    → List IndexedPack
select_priorities indexed changed_files max_packs archived selected [] = selected
select_priorities indexed changed_files max_packs archived selected (priority ∷ rest) =
    elim (leb max_packs (length selected)) [
      | true ↦ selected
      | false ↦
          let packs = filter (has_priority archived priority) indexed in
          let chosen =
            select_within_priority packs changed_files (max_packs - length selected)
              (preferred_ids archived priority packs) in
          select_priorities indexed changed_files max_packs archived (selected ++ chosen) rest
    ]

-- `_select_llm_context_pack_indexes`
pub select_llm_context_pack_indexes :
    List IndexedPack → List ChangedFile → Option ℕ → Dict String Priority → List IndexedPack
select_llm_context_pack_indexes indexed changed_files none archived = indexed
select_llm_context_pack_indexes indexed changed_files (some max_packs) archived =
    if leb (length indexed) max_packs
    then indexed
    else if eqb max_packs 0
    then []
    else sorted index_le
        (select_priorities indexed changed_files max_packs archived [] (p0 ∷ p1 ∷ p2 ∷ []))
