-- ===== src/Paths/Match.antt =====
-- When a path matches one of several patterns.
use apex_ray.Base.Or.{or_iff}
use apex_ray.Base.{
  ◌≡◌, refl, sym, ap, ◌∙◌, subst, ◌⊎◌, inl, inr, ◌↔◌, String, Bool, true, false, ◌||◌, List, [],
  ◌∷◌, if◌then◌else◌, Any, contains, ◌==◌, ==_iff, ==_refl, Bool-cases, string_eq,
}
use apex_ray.Paths.{normalize_path, glob_variants, any_variant, path_matches_any}
use apex_ray.Paths.Reach.{Reaches, glob_variants-Reaches}

or_of_if : (a b c : Bool) → (if a then true else if b then true else c) ≡ (a || b) || c
or_of_if true b c = refl
or_of_if false true c = refl
or_of_if false false c = refl

module _ (fnmatchcase : String → String → Bool) where
  any_variant-found :
      (path : String) (vs : List String)
      → any_variant fnmatchcase path vs ≡ true
      → (v : String) × (contains v vs ≡ true) × (fnmatchcase path v ≡ true)
  unfolding any_variant
  any_variant-found path [] e = cc
  any_variant-found path (v ∷ vs) e = elim (Bool-cases (fnmatchcase path v)) [
    | inl m ↦ (v, ap (λ b. b || contains v vs) (==_refl v), m)
    | inr n ↦
        let (w, h, m) =
          any_variant-found path vs (sym (ap (λ b. b || any_variant fnmatchcase path vs) n) ∙ e) in
        (w, elim (w == v) as (λ b. b || contains w vs ≡ true) [ true ↦ refl | false ↦ h ], m)
  ]

  any_variant-finds :
      (path : String) (vs : List String) (v : String)
      → contains v vs ≡ true
      → fnmatchcase path v ≡ true
      → any_variant fnmatchcase path vs ≡ true
  unfolding any_variant
  any_variant-finds path [] v h m = cc
  any_variant-finds path (w ∷ vs) v h m = elim (Bool-cases (v == w)) [
    | inl same ↦
        ap (λ b. b || any_variant fnmatchcase path vs)
          (subst (λ x. fnmatchcase path x ≡ true) ((==_iff v w).0 same) m)
    | inr other ↦
        let rest = any_variant-finds path vs v (sym (ap (λ b. b || contains v vs) other) ∙ h) m in
        elim (fnmatchcase path w) as (λ b. b || any_variant fnmatchcase path vs ≡ true) [
          | true ↦ refl
          | false ↦ rest
        ]
  ]

  -- The normalized path is the normalized pattern, or matches something to which that can be shortened.
  abbrev pub Matches : String → String → Type 0
  Matches path pattern =
      (normalize_path path ≡ normalize_path pattern)
      ⊎ ((v : String) × Reaches (normalize_path pattern) v
          × (fnmatchcase (normalize_path path) v ≡ true))

  matches_test : String → String → Bool
  matches_test path pattern =
      (normalize_path path == normalize_path pattern)
      || any_variant fnmatchcase (normalize_path path) (glob_variants (normalize_path pattern))

  matches_test-Matches :
      (path pattern : String) → (matches_test path pattern ≡ true) ↔ Matches path pattern
  unfolding matches_test
  matches_test-Matches path pattern = (there, back)
    where
      name : String
      name = normalize_path path

      goal : String
      goal = normalize_path pattern

      there : matches_test path pattern ≡ true → Matches path pattern
      there e = elim (Bool-cases (name == goal)) [
        | inl same ↦ inl ((==_iff name goal).0 same)
        | inr other ↦
            let (v, h, m) =
              any_variant-found name (glob_variants goal) (
                sym (ap (λ b. b || any_variant fnmatchcase name (glob_variants goal)) other) ∙ e) in
            inr (v, (glob_variants-Reaches goal v).0 h, m)
      ]

      back : Matches path pattern → matches_test path pattern ≡ true
      back (inl same) =
          ap (λ b. b || any_variant fnmatchcase name (glob_variants goal))
            ((==_iff name goal).1 same)
      back (inr (v, r, m)) =
          elim (name == goal)
            as (λ b. b || any_variant fnmatchcase name (glob_variants goal) ≡ true) [
              | true ↦ refl
              | false ↦
                  any_variant-finds name (glob_variants goal) v ((glob_variants-Reaches goal v).1 r)
                    m
            ]

  -- A path matches a list of patterns exactly if it matches one of them.
  pub path_matches_any-Matches :
      (path : String) (patterns : List String)
      → (path_matches_any fnmatchcase path patterns ≡ true) ↔ Any (Matches path) patterns
  unfolding path_matches_any matches_test
  path_matches_any-Matches path [] = (λ e. cc, λ h. absurd h)
  path_matches_any-Matches path (pattern ∷ patterns) =
      subst (λ b. (b ≡ true) ↔ Any (Matches path) (pattern ∷ patterns))
        (sym (
          or_of_if (normalize_path path == normalize_path pattern)
            (any_variant fnmatchcase (normalize_path path) (glob_variants (normalize_path pattern)))
            (path_matches_any fnmatchcase path patterns)))
        (or_iff (matches_test path pattern) (path_matches_any fnmatchcase path patterns)
          (matches_test-Matches path pattern) (path_matches_any-Matches path patterns))
