-- ===== src/Budget/Counts.antt =====
-- The numbers of snippets of a finished pack.
use apex_ray.Base.{
  ℕ, ◌-◌, ◌≤◌, ◌≡◌, refl, ap, inl, inr, String, true, false, List, [], if◌then◌else◌, leb, leb→le,
  length, length-take, take, arith, Bool-cases,
}
use apex_ray.Models.{CodeSnippet, ContextPack, ContextConfig, ContextPackStats, MemoryMatch}
use apex_ray.Budget.{
  Group, changed, reference, callee, contract, metadata, related_test, snippets, set_snippets,
  Trimmed, noted,
}
use apex_ray.Budget.Enforce.{
  over_budget, trim_group, drop_cards, truncate_contracts, drop_group, compact, truncate_any,
  note_if_over, drop_stages, enforce_char_budget, remark, limit_snippet_count, limit_counts,
  pack_stats, finalize_pack,
}
use apex_ray.Budget.Shrinks.{
  HasNoMore, same_size, trans_size, length-set_snippets, cards-set_snippets, trim_group-Shrinks,
  drop_cards-Shrinks, truncate_contracts-Shrinks, drop_group-Shrinks, compact-Shrinks,
  truncate_any-Shrinks,
}

-- The largest number of snippets that the configuration allows in a group.
abbrev pub max_snippets : ContextConfig → Group → ℕ
max_snippets config changed = config.max_changed_snippets
max_snippets config related_test = config.max_related_test_snippets
max_snippets config _ = config.max_reference_snippets

snippets-set_snippets :
    (g : Group) (xs : List CodeSnippet) (pack : ContextPack)
    → snippets g (set_snippets g xs pack) ≡ xs
snippets-set_snippets changed xs pack = refl
snippets-set_snippets reference xs pack = refl
snippets-set_snippets callee xs pack = refl
snippets-set_snippets contract xs pack = refl
snippets-set_snippets metadata xs pack = refl
snippets-set_snippets related_test xs pack = refl

snippets-stats :
    (g : Group) (pack : ContextPack) (s : ContextPackStats)
    → snippets g (record pack { stats = s }) ≡ snippets g pack
snippets-stats changed pack s = refl
snippets-stats reference pack s = refl
snippets-stats callee pack s = refl
snippets-stats contract pack s = refl
snippets-stats metadata pack s = refl
snippets-stats related_test pack s = refl

-- A group that is limited has at most that many snippets, and no group has more than before.
limit_snippet_count_lem :
    (g : Group) (n : ℕ) (note : ℕ → String) (st : Trimmed)
    → HasNoMore st (limit_snippet_count g n note st)
      × (length (snippets g (limit_snippet_count g n note st).pack) ≤ n)
unfolding limit_snippet_count
limit_snippet_count_lem g n note st =
    let xs = snippets g st.pack in
    let cut = noted st (set_snippets g (take n xs) st.pack) (note (length xs - n)) in
    let fewer = length-take n xs in
    elim (Bool-cases (leb (length xs) n)) [
      | inl e ↦ rw (limit_snippet_count, e) (same_size st, leb→le (length xs) n e)
      | inr e ↦
          rw (limit_snippet_count, e)
            (
              record {
                groups = λ h. length-set_snippets g h (take n xs) st.pack (omega (arith, fewer));
                cards = omega (
                  arith,
                  ap (length {A = MemoryMatch}) (cards-set_snippets g (take n xs) st.pack),
                );
              },
              omega (
                arith,
                fewer,
                ap (length {A = CodeSnippet}) (snippets-set_snippets g (take n xs) st.pack),
              ),
            )
    ]

module _ (estimated_pack_chars : ContextPack → ℕ) (config : ContextConfig) where
  drop_stages-Shrinks : (st : Trimmed) → HasNoMore st (drop_stages estimated_pack_chars config st)
  unfolding drop_stages
  drop_stages-Shrinks st =
      let a = trim_group estimated_pack_chars config related_test st in
      let b = trim_group estimated_pack_chars config reference a in
      let c = trim_group estimated_pack_chars config callee b in
      let d = drop_cards estimated_pack_chars config c in
      let e = truncate_contracts estimated_pack_chars config d in
      let f = drop_group estimated_pack_chars config contract e in
      trans_size st a _ (trim_group-Shrinks estimated_pack_chars config related_test st) (
        trans_size a b _ (trim_group-Shrinks estimated_pack_chars config reference a) (
          trans_size b c _ (trim_group-Shrinks estimated_pack_chars config callee b) (
            trans_size c d _ (drop_cards-Shrinks estimated_pack_chars config c) (
              trans_size d e _ (truncate_contracts-Shrinks estimated_pack_chars config d) (
                trans_size e f _ (drop_group-Shrinks estimated_pack_chars config contract e)
                  (drop_group-Shrinks estimated_pack_chars config metadata f))))))

  pub note_if_over-Shrinks :
      (st : Trimmed) → HasNoMore st (note_if_over estimated_pack_chars config st)
  note_if_over-Shrinks st =
      elim (over_budget estimated_pack_chars config st)
        as (λ b. HasNoMore st (if b then noted st st.pack remark else st)) [
          | true ↦ record { groups = λ g. omega arith; cards = omega arith }
          | false ↦ same_size st
        ]

  enforce_char_budget-Shrinks :
      (st : Trimmed) → HasNoMore st (enforce_char_budget estimated_pack_chars config st)
  unfolding enforce_char_budget
  enforce_char_budget-Shrinks st =
      let a = drop_stages estimated_pack_chars config st in
      let b = compact estimated_pack_chars config a in
      let c = truncate_any estimated_pack_chars config b in
      elim (over_budget estimated_pack_chars config st)
        as (λ t. HasNoMore st (if t then note_if_over estimated_pack_chars config c else st)) [
          | true ↦ trans_size st a _ (drop_stages-Shrinks st) (
              trans_size a b _ (compact-Shrinks estimated_pack_chars config a) (
                trans_size b c _ (truncate_any-Shrinks estimated_pack_chars config b)
                  (note_if_over-Shrinks c)))
          | false ↦ same_size st
        ]

  module _ (trim_note : Group → ℕ → String) (policy_key : String) where
    abbrev cut : Group → Trimmed → Trimmed
    cut g st = limit_snippet_count g (max_snippets config g) (trim_note g) st

    cut_lem :
        (g : Group) (st : Trimmed)
        → HasNoMore st (cut g st) × (length (snippets g (cut g st).pack) ≤ max_snippets config g)
    cut_lem g st = limit_snippet_count_lem g (max_snippets config g) (trim_note g) st

    limit_counts-max :
        (st : Trimmed) (g : Group)
        → length
            (snippets g (limit_counts estimated_pack_chars config trim_note policy_key st).pack)
          ≤ max_snippets config g
    unfolding limit_counts
    limit_counts-max st g =
        let a = cut changed st in
        let b = cut reference a in
        let c = cut callee b in
        let d = cut contract c in
        let e = cut metadata d in
        let f = cut related_test e in
        let ef = (cut_lem related_test e).0 in
        let df = trans_size d e f (cut_lem metadata d).0 ef in
        let cf = trans_size c d f (cut_lem contract c).0 df in
        let bf = trans_size b c f (cut_lem callee b).0 cf in
        let af = trans_size a b f (cut_lem reference a).0 bf in
        elim g as (λ g. length (snippets g f.pack) ≤ max_snippets config g) [
          | changed ↦ omega (arith, af.groups changed, (cut_lem changed st).1)
          | reference ↦ omega (arith, bf.groups reference, (cut_lem reference a).1)
          | callee ↦ omega (arith, cf.groups callee, (cut_lem callee b).1)
          | contract ↦ omega (arith, df.groups contract, (cut_lem contract c).1)
          | metadata ↦ omega (arith, ef.groups metadata, (cut_lem metadata d).1)
          | related_test ↦ (cut_lem related_test e).1
        ]

    -- In a finished pack no group has more snippets than the configuration allows.
    pub finalize_pack-max :
        (pack : ContextPack) (g : Group)
        → length (snippets g (finalize_pack estimated_pack_chars config trim_note policy_key pack))
          ≤ max_snippets config g
    unfolding finalize_pack
    finalize_pack-max pack g =
        let st =
          limit_counts estimated_pack_chars config trim_note policy_key
            (record { pack = pack; notes = [] }) in
        let end = enforce_char_budget estimated_pack_chars config st in
        let stats = pack_stats estimated_pack_chars config trim_note policy_key end in
        omega (
          arith,
          (enforce_char_budget-Shrinks st).groups g,
          limit_counts-max (record { pack = pack; notes = [] }) g,
          ap (length {A = CodeSnippet}) (snippets-stats g end.pack stats),
        )
