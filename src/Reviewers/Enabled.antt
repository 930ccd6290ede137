-- ===== src/Reviewers/Enabled.antt =====
-- The enabled reviewers by their ids: of several with one id, the last.
use apex_ray.Base.{
  ◌≡◌, refl, sym, ap, ◌∙◌, subst, inl, inr, String, Bool, true, false, ◌&&◌, Option, none, some,
  List, [], ◌∷◌, if◌then◌else◌, ◌==◌, ==_iff, Option-cases, string_eq,
}
use mathlib.Core.Option.{some-injective, none-ne-some}
use apex_ray.Base.Dict.{Dict, lookup, insert, lookup-insert}
use apex_ray.Models.{ReviewerConfig}
use apex_ray.Reviewers.{or_general, enabled_onto, enabled_by_id, or_same}

abbrev keep_if : Bool → ReviewerConfig → Option ReviewerConfig
keep_if true r = some r
keep_if false r = none

-- The last enabled reviewer of the id.
abbrev pub last_enabled : String → List ReviewerConfig → Option ReviewerConfig
last_enabled id [] = none
last_enabled id (r ∷ rs) = or_same (last_enabled id rs) (keep_if (r.enabled && (id == r.id)) r)

or_same-keep :
    (o l : Option ReviewerConfig) (c : Bool) (r : ReviewerConfig)
    → or_same o (if c then some r else l) ≡ or_same (or_same o (keep_if c r)) l
or_same-keep none l true r = refl
or_same-keep none l false r = refl
or_same-keep (some a) l true r = refl
or_same-keep (some a) l false r = refl

lookup-enabled_onto :
    (id : String) (d : Dict String ReviewerConfig) (rs : List ReviewerConfig)
    → lookup id (enabled_onto d rs) ≡ or_same (last_enabled id rs) (lookup id d)
unfolding enabled_onto
lookup-enabled_onto id d [] = refl
lookup-enabled_onto id d (r ∷ rs) =
    lookup-enabled_onto id (if r.enabled then insert r.id r d else d) rs ∙ step r.enabled
  where
    later : Option ReviewerConfig
    later = last_enabled id rs

    step :
        (b : Bool)
        → or_same later (lookup id (if b then insert r.id r d else d))
          ≡ or_same (or_same later (keep_if (b && (id == r.id)) r)) (lookup id d)
    step true =
        ap (or_same later) (lookup-insert id r.id r d)
        ∙ or_same-keep later (lookup id d) (id == r.id) r
    step false = or_same-keep later (lookup id d) false r

or_same-none {ℓ} : {A : Type ℓ} (o : Option A) → or_same o none ≡ o
or_same-none none = refl
or_same-none (some a) = refl

pub lookup-enabled_by_id :
    (id : String) (configured : List ReviewerConfig)
    → lookup id (enabled_by_id configured) ≡ last_enabled id (or_general configured)
lookup-enabled_by_id id configured =
    lookup-enabled_onto id [] (or_general configured)
    ∙ or_same-none (last_enabled id (or_general configured))

pub last_enabled-id :
    (id : String) (rs : List ReviewerConfig) (r : ReviewerConfig)
    → last_enabled id rs ≡ some r
    → (id ≡ r.id) × (r.enabled ≡ true)
last_enabled-id id [] r e = absurd (none-ne-some r e)
last_enabled-id id (q ∷ rs) r e = elim (Option-cases (last_enabled id rs)) [
  | inr (a, h) ↦
      last_enabled-id id rs r
        (h ∙ sym (ap (λ o. or_same o (keep_if (q.enabled && (id == q.id)) q)) h) ∙ e)
  | inl n ↦
      kept q.enabled (id == q.id) refl refl
        (sym (ap (λ o. or_same o (keep_if (q.enabled && (id == q.id)) q)) n) ∙ e)
]
  where
    kept :
        (b c : Bool)
        → q.enabled ≡ b
        → (id == q.id) ≡ c
        → keep_if (b && c) q ≡ some r
        → (id ≡ r.id) × (r.enabled ≡ true)
    kept true true on same k =
        subst (λ x. (id ≡ x.id) × (x.enabled ≡ true)) (some-injective q r k)
          ((==_iff id q.id).0 same, on)
    kept true false on same k = absurd (none-ne-some r k)
    kept false c on same k = absurd (none-ne-some r k)
