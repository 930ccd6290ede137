-- ===== src/Triage/Scope.antt =====
-- When a suppression allows a finding, and that `_matching_suppression` finds only such suppressions.
use mathlib.Core.Logic.Or
use mathlib.Core.List.{Mem, Mem-prop, mem-cons_self, mem-cons_of_mem, mem-cons, not-mem-nil}
use apex_ray.Base.{
  ◌<◌, ◌≡◌, refl, ◌≢◌, inl, inr, String, Bool, true, false, not, ◌||◌, Option, none, some, List, [],
  ◌∷◌, arith, leb, if◌then◌else◌, ◌==◌, string_eq, All, Bool-cases,
}
use apex_ray.Triage.{
  Datetime, FindingSnapshot, FindingSuppression, is_expired, refs_differ, packs_differ,
  stale_reason, matching_suppression,
}

-- The suppression has not expired.
abbrev pub IsActive : Datetime → FindingSuppression → Type 0
IsActive now s = (t : Datetime) → s.expires_at ≡ some t → now < t

-- The base references agree, where both are given.
abbrev pub RefsAgree : Option String → Option String → Type 0
RefsAgree ref ref' = (a b : String) → ref ≡ some a → ref' ≡ some b → a ≢ "" → b ≢ "" → a ≡ b

-- The suppression is about this finding, for this base reference, and its time has not run out.
pub record Concerns (now : Datetime) (target : Option String) (snapshot : FindingSnapshot)
    (s : FindingSuppression) : Type 0 where
  pub same_finding : s.finding_fingerprint ≡ snapshot.fingerprint
  pub active : IsActive now s
  pub same_target : RefsAgree s.target_base_ref target

-- The context pack is the one the suppression was made for, where both are known.
abbrev pub PacksAgree : FindingSnapshot → FindingSuppression → Type 0
PacksAgree snapshot s =
    s.context_pack_fingerprint ≢ ""
    → snapshot.context_pack_fingerprint ≢ ""
    → s.context_pack_fingerprint ≡ snapshot.context_pack_fingerprint

pub skips : Datetime → Option String → FindingSnapshot → FindingSuppression → Bool
skips now target snapshot s =
    not (s.finding_fingerprint == snapshot.fingerprint)
    || (is_expired s now || refs_differ s.target_base_ref target)

unfoldable pub outcome : FindingSnapshot → FindingSuppression → String
outcome snapshot s =
    if packs_differ s.context_pack_fingerprint snapshot.context_pack_fingerprint
    then stale_reason
    else ""

pub matching_suppression-cons :
    (now : Datetime) (target : Option String) (snapshot : FindingSnapshot) (s : FindingSuppression)
    (rest : List FindingSuppression)
    → matching_suppression snapshot (s ∷ rest) target now ≡ (
        if skips now target snapshot s
        then matching_suppression snapshot rest target now
        else some (s, outcome snapshot s))
unfolding skips outcome matching_suppression
matching_suppression-cons now target snapshot s rest =
    first (s.finding_fingerprint == snapshot.fingerprint) (is_expired s now)
      (refs_differ s.target_base_ref target)
      (packs_differ s.context_pack_fingerprint snapshot.context_pack_fingerprint)
      (matching_suppression snapshot rest target now)
  where
    first :
        (a b c d : Bool) (later : Option (FindingSuppression × String))
        → (if not a
            then later
            else if b
            then later
            else if c
            then later
            else if d
            then some (s, stale_reason)
            else some (s, ""))
          ≡ (if not a || (b || c) then later else some (s, if d then stale_reason else ""))
    first a b c d later = ground arith

pub stale_reason-ne-empty : stale_reason ≢ ""
stale_reason-ne-empty e = cc

is_expired-iff-IsActive :
    (now : Datetime) (s : FindingSuppression) → is_expired s now ≡ false → IsActive now s
unfolding is_expired
is_expired-iff-IsActive now s h t e = ground arith

refs_differ→agree : (ref ref' : Option String) → refs_differ ref ref' ≡ false → RefsAgree ref ref'
refs_differ→agree ref ref' h a b e e' na nb = ground arith

active→is_expired :
    (now : Datetime) (s : FindingSuppression) → IsActive now s → is_expired s now ≡ false
unfolding is_expired
active→is_expired now s h = at s.expires_at h
  where
    at :
        (o : Option Datetime)
        → ((t : Datetime) → o ≡ some t → now < t)
        → (elim o as (λ _. Bool) [ none ↦ false | some t ↦ leb t now ]) ≡ false
    at none later = refl
    at (some t) later = ground (arith, later t refl)

agree→refs_differ : (ref ref' : Option String) → RefsAgree ref ref' → refs_differ ref ref' ≡ false
agree→refs_differ none ref' h = refl
agree→refs_differ (some a) none h = refl
agree→refs_differ (some a) (some b) h = ground (arith, h a b refl refl)

pub skips-Concerns :
    (now : Datetime) (target : Option String) (snapshot : FindingSnapshot) (s : FindingSuppression)
    → skips now target snapshot s ≡ false
    → Concerns now target snapshot s
unfolding skips
skips-Concerns now target snapshot s h = record {
  same_finding = ground arith;
  active = is_expired-iff-IsActive now s (ground arith);
  same_target = refs_differ→agree s.target_base_ref target (ground arith);
}

pub Concerns-skips :
    (now : Datetime) (target : Option String) (snapshot : FindingSnapshot) (s : FindingSuppression)
    → Concerns now target snapshot s
    → skips now target snapshot s ≡ false
unfolding skips
Concerns-skips now target snapshot s c = ground (
  arith,
  c.same_finding,
  active→is_expired now s c.active,
  agree→refs_differ s.target_base_ref target c.same_target,
)

pub outcome-PacksAgree :
    (snapshot : FindingSnapshot) (s : FindingSuppression)
    → outcome snapshot s ≡ ""
    → PacksAgree snapshot s
unfolding outcome
outcome-PacksAgree snapshot s h ns nt = ground (arith, stale_reason-ne-empty)

pub PacksAgree-outcome :
    (snapshot : FindingSnapshot) (s : FindingSuppression)
    → PacksAgree snapshot s
    → outcome snapshot s ≡ ""
unfolding outcome
PacksAgree-outcome snapshot s h = ground (arith, h)

-- A match without a stale reason is a suppression of the state that concerns the finding and was made for
-- its context pack.
pub matching_suppression_sound :
    (now : Datetime) (target : Option String) (snapshot : FindingSnapshot)
    (suppressions : List FindingSuppression) (s : FindingSuppression)
    → matching_suppression snapshot suppressions target now ≡ some (s, "")
    → Mem s suppressions × Concerns now target snapshot s × PacksAgree snapshot s
matching_suppression_sound now target snapshot [] s e = unfold matching_suppression in cc
matching_suppression_sound now target snapshot (t ∷ rest) s e =
    elim (Bool-cases (skips now target snapshot t)) [
      | inl skipped ↦
          let (m, c, p) =
            matching_suppression_sound now target snapshot rest s
              (rw (matching_suppression-cons now target snapshot t rest, skipped) at e) in
          (mem-cons_of_mem t m, c, p)
      | inr found ↦
          let e' = rw (matching_suppression-cons now target snapshot t rest, found) at e in
          let p : t ≡ s = cc in
          let q : outcome snapshot t ≡ "" = cc in
          (
            rw (← p) mem-cons_self,
            rw (← p) (skips-Concerns now target snapshot t found),
            rw (← p) (outcome-PacksAgree snapshot t q),
          )
    ]

-- If no suppression that concerns the finding was made for another context pack, one that concerns it is
-- found.
pub matching_suppression_complete :
    (now : Datetime) (target : Option String) (snapshot : FindingSnapshot)
    (suppressions : List FindingSuppression)
    → All (λ s. Concerns now target snapshot s → PacksAgree snapshot s) suppressions
    → (s : FindingSuppression) → Mem s suppressions
    → Concerns now target snapshot s
    → (t : FindingSuppression) × (matching_suppression snapshot suppressions target now
        ≡ some (t, ""))
matching_suppression_complete now target snapshot [] agree s m c = absurd (not-mem-nil m)
matching_suppression_complete now target snapshot (t ∷ rest) agree s m c =
    elim (Bool-cases (skips now target snapshot t)) [
      | inl skipped ↦
          rw (matching_suppression-cons now target snapshot t rest, skipped)
            (matching_suppression_complete now target snapshot rest agree.1 s (in_rest skipped) c)
      | inr found ↦ (
        t,
        rw (
          matching_suppression-cons now target snapshot t rest,
          found,
          PacksAgree-outcome snapshot t (agree.0 (skips-Concerns now target snapshot t found)),
        ),
      )
    ]
  where
    in_rest : skips now target snapshot t ≡ true → Mem s rest
    in_rest skipped =
        Or.elim Mem-prop (mem-cons.0 m)
          (λ e. let no_skip = Concerns-skips now target snapshot s c in absurd (cc)) (λ r. r)
