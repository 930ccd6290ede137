-- ===== src/Base/Loops.antt =====
-- `while test(s): s = step(s)` with fuel, where a step may also end the loop.
use apex_ray.Base.Tests.{Bool-cases, Option-cases}
use Prim.Native.Nat.{ℕ, zero, suc, ◌<◌}
use mathlib.Core.Path.{◌≡◌, refl}
use mathlib.Core.Logic.{◌⊎◌, inl, inr}
use mathlib.Core.Bool.{Bool, true, false}
use mathlib.Core.Option.{Option, none, some}
use native.Mathlib.Omega.{arith}

module _ {ℓ} {S : Type ℓ} (test : S → Bool) (step : S → Option S) where
  unfoldable pub loop : ℕ → S → S
  loop zero s = s
  loop (suc fuel) s = elim (test s) [
    | false ↦ s
    | true ↦ elim (step s) [ none ↦ s | some s' ↦ loop fuel s' ]
  ]

  module _ (fuel : ℕ) (s : S) where
    loop_done : test s ≡ false → loop (suc fuel) s ≡ s
    unfolding loop
    loop_done e = rw (loop, e) refl

    loop_broken : test s ≡ true → step s ≡ none → loop (suc fuel) s ≡ s
    unfolding loop
    loop_broken e k = rw (loop, e, k) refl

    loop_next : (s' : S) → test s ≡ true → step s ≡ some s' → loop (suc fuel) s ≡ loop fuel s'
    unfolding loop
    loop_next s' e k = rw (loop, e, k) refl

  -- A loop whose test fails at once changes nothing.
  pub loop_idle : (fuel : ℕ) (s : S) → test s ≡ false → loop fuel s ≡ s
  unfolding loop
  loop_idle zero s e = refl
  loop_idle (suc fuel) s e = loop_done fuel s e

  -- What every step keeps holds behind the loop.
  pub loop-keeps {κ} :
      (P : S → Type κ)
      → ((s s' : S) → test s ≡ true → step s ≡ some s' → P s → P s')
      → (fuel : ℕ) (s : S) → P s
      → P (loop fuel s)
  unfolding loop
  loop-keeps P keep zero s h = h
  loop-keeps P keep (suc fuel) s h = elim (Bool-cases (test s)) [
    | inr e ↦ rw (loop_done fuel s e) h
    | inl e ↦ elim (Option-cases (step s)) [
      | inl k ↦ rw (loop_broken fuel s e k) h
      | inr (s', k) ↦ rw (loop_next fuel s s' e k) (loop-keeps P keep fuel s' (keep s s' e k h))
    ]
  ]

  -- With a measure that falls and is below the fuel, the loop ends by its test or by its step.
  pub loop_ends :
      (measure : S → ℕ)
      → ((s s' : S) → test s ≡ true → step s ≡ some s' → measure s' < measure s)
      → (fuel : ℕ) (s : S) → measure s < fuel
      → (test (loop fuel s) ≡ false) ⊎ (step (loop fuel s) ≡ none)
  unfolding loop
  loop_ends measure falls zero s h = absurd (omega (arith, h))
  loop_ends measure falls (suc fuel) s h = elim (Bool-cases (test s)) [
    | inr e ↦ rw (loop_done fuel s e) (inl e)
    | inl e ↦ elim (Option-cases (step s)) [
      | inl k ↦ rw (loop_broken fuel s e k) (inr k)
      | inr (s', k) ↦
          rw (loop_next fuel s s' e k)
            (loop_ends measure falls fuel s' (omega (arith, falls s s' e k)))
    ]
  ]
