-- ===== src/Risk/Covered.antt =====
-- The signals of the hunks are among those of the file.
use apex_ray.Base.{
  ◌≡◌, refl, inl, inr, String, Bool, true, false, List, [], ◌∷◌, ◌++◌, if◌then◌else◌, any, truthy,
  none, not, ◌&&◌, ◌||◌, contains, All, All_imp, All-append, Any, string_eq,
}
use apex_ray.Models.{ChangedFile, ChangedHunk, RiskConfig, RiskRule, RiskSignal}
use apex_ray.Risk.Policy.{
  built_in_kinds, hunk_signals, line_signals, signal_hunks, signal_for_rule, rule_filters_match,
  apply_rule, apply_rules, apply_project_risk_policy,
}

further : (P : RiskSignal → Type 0) (xs ys : List RiskSignal) → Any P xs → Any P (xs ++ ys)
further P [] ys h = absurd h
further P (x ∷ xs) ys (inl h) = inl h
further P (x ∷ xs) ys (inr h) = inr (further P xs ys h)

later : (P : RiskSignal → Type 0) (xs ys : List RiskSignal) → Any P ys → Any P (xs ++ ys)
later P [] ys h = h
later P (x ∷ xs) ys h = inr (later P xs ys h)

abbrev Among : List RiskSignal → RiskSignal → Type 0
Among signals s = Any (λ t. t ≡ s) signals

all-Among : (xs : List RiskSignal) → All (Among xs) xs
all-Among [] = tt
all-Among (x ∷ xs) =
    (inl refl, All_imp (Among xs) (Among (x ∷ xs)) xs (λ s h. inr h) (all-Among xs))

-- Every signal of a hunk is one of the file's.
abbrev pub IsCovered : ChangedFile → Type 0
IsCovered file = All (λ h. All (Among file.risk_signals) h.risk_signals) file.hunks

more :
    (hunks : List ChangedHunk) (olds news : List RiskSignal)
    → All (λ h. All (Among olds) h.risk_signals) hunks
    → All (λ h. All (Among (olds ++ news)) h.risk_signals) hunks
more hunks olds news h =
    All_imp (λ k. All (Among olds) k.risk_signals) (λ k. All (Among (olds ++ news)) k.risk_signals)
      hunks
      (λ k a.
        All_imp (Among olds) (Among (olds ++ news)) k.risk_signals
          (λ s m. further (λ t. t ≡ s) olds news m) a)
      h

module _ (fnmatchcase : String → String → Bool) (casefold : String → String) where
  module _ (rule : RiskRule) (file : ChangedFile) where
    signal_hunks-Among :
        (hunks : List ChangedHunk) (olds news : List RiskSignal)
        → ((s : RiskSignal)
            → Among (line_signals fnmatchcase casefold rule file hunks) s
            → Among news s)
        → All (λ h. All (Among olds) h.risk_signals) hunks
        → All
            (λ h. All (Among (olds ++ news)) h.risk_signals)
            (signal_hunks fnmatchcase casefold rule file hunks)
    signal_hunks-Among [] olds news into hs = tt
    signal_hunks-Among (hunk ∷ hunks) olds news into hs =
        let own = hunk_signals fnmatchcase casefold rule file hunk in
        let rest = line_signals fnmatchcase casefold rule file hunks in
        (
          All-append (Among (olds ++ news)) hunk.risk_signals own
              (All_imp (Among olds) (Among (olds ++ news)) hunk.risk_signals
                (λ s m. further (λ t. t ≡ s) olds news m) hs.0)
              (All_imp (Among own) (Among (olds ++ news)) own
                (λ s m. later (λ t. t ≡ s) olds news (into s (further (λ t. t ≡ s) own rest m)))
                (all-Among own)),
          signal_hunks-Among hunks olds news (λ s m. into s (later (λ t. t ≡ s) own rest m)) hs.1,
        )

  apply_rule-IsCovered :
      (kinds : List String) (rule : RiskRule) (file : ChangedFile)
      → IsCovered file
      → IsCovered (apply_rule fnmatchcase casefold kinds rule file)
  unfolding apply_rule
  apply_rule-IsCovered kinds rule file h =
      pick (not (rule_filters_match fnmatchcase casefold rule file))
        ((truthy rule.text || truthy rule.risk)
          && not (truthy signals)
          && not (any (λ k. contains k rule.risk) kinds))
        (truthy signals)
    where
      signals : List RiskSignal
      signals = line_signals fnmatchcase casefold rule file file.hunks

      pick :
          (a b c : Bool)
          → IsCovered (
              if a
              then file
              else if b
              then file
              else if c
              then record file {
                hunks = signal_hunks fnmatchcase casefold rule file file.hunks;
                risk_signals = file.risk_signals ++ signals;
              }
              else record file {
                risk_signals = file.risk_signals ++ signal_for_rule rule file none ∷ [];
              })
      pick true b c = h
      pick false true c = h
      pick false false true =
          signal_hunks-Among rule file file.hunks file.risk_signals signals (λ s m. m) h
      pick false false false =
          more file.hunks file.risk_signals (signal_for_rule rule file none ∷ []) h

  apply_rules-IsCovered :
      (kinds : List String) (rules : List RiskRule) (file : ChangedFile)
      → IsCovered file
      → IsCovered (apply_rules fnmatchcase casefold kinds rules file)
  unfolding apply_rules
  apply_rules-IsCovered kinds [] file h = h
  apply_rules-IsCovered kinds (rule ∷ rules) file h =
      apply_rules-IsCovered kinds rules (apply_rule fnmatchcase casefold kinds rule file)
        (apply_rule-IsCovered kinds rule file h)

  -- If every risk signal of a hunk is one of the file's, then that holds behind the project's rules too.
  pub apply_project_risk_policy-IsCovered :
      (file : ChangedFile) (config : RiskConfig)
      → IsCovered file
      → IsCovered (apply_project_risk_policy fnmatchcase casefold file config)
  unfolding apply_project_risk_policy
  apply_project_risk_policy-IsCovered file config h =
      apply_rules-IsCovered (built_in_kinds file.risk_signals) config.rules file h
