-- ===== src/Base/Or.antt =====
-- Laws of the Boolean disjunction.
use mathlib.Core.Path.{◌≡◌, refl}
use mathlib.Core.Logic.{◌⊎◌, inl, inr, ◌↔◌}
use mathlib.Core.Bool.{Bool, true, false, ◌||◌}

pub or_assoc : (a b c : Bool) → (a || b) || c ≡ a || (b || c)
or_assoc true b c = refl
or_assoc false b c = refl

pub or_comm : (a b : Bool) → a || b ≡ b || a
or_comm true true = refl
or_comm true false = refl
or_comm false true = refl
or_comm false false = refl

pub or_swap : (a b c : Bool) → a || (b || c) ≡ b || (a || c)
or_swap true true c = refl
or_swap true false c = refl
or_swap false b c = refl

pub or_swap_last : (a b c : Bool) → (a || b) || c ≡ (a || c) || b
or_swap_last true b c = refl
or_swap_last false b c = or_comm b c

pub or_false : (a : Bool) → a || false ≡ a
or_false true = refl
or_false false = refl

pub or_true : (a b : Bool) → a || true ≡ b || true
or_true true true = refl
or_true true false = refl
or_true false true = refl
or_true false false = refl

-- What implies the disjunction's other side adds nothing.
pub or_idle : (b c : Bool) → (b ≡ true → c ≡ true) → c ≡ b || c
or_idle true c h = h refl
or_idle false c h = refl

pub or_absorbed : (a b c : Bool) → (b ≡ true → a ≡ true) → a || c ≡ a || (b || c)
or_absorbed true b c h = refl
or_absorbed false true c h = absurd (let e : false ≡ true = h refl in cc)
or_absorbed false false c h = refl

pub or_iff {ℓ κ} :
    {P : Type ℓ} {Q : Type κ} (a b : Bool)
    → ((a ≡ true) ↔ P)
    → ((b ≡ true) ↔ Q)
    → ((a || b) ≡ true) ↔ (P ⊎ Q)
or_iff true b p q = (λ e. inl (p.0 refl), λ h. refl)
or_iff false b p q =
    (λ e. inr (q.0 e), λ h. elim h [ inl x ↦ (let e : false ≡ true = p.1 x in cc) | inr y ↦ q.1 y ])
