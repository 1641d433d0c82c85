-- ===== src/Prelude/Ranks.antt =====
-- Maps whose links go up in a rank, with a bound for walks along them.
use Prim.Native.Nat.{ℕ, suc, ◌≤◌, ◌<◌}
use mathlib.Core.Path.{◌≡◌, sym, subst}
use mathlib.Core.Option.{some}
use mathlib.Core.List.{[], ◌∷◌}
use mathlib.Core.Logic.{inl, inr}
use native.Mathlib.Omega.{arith}
use leto_rs.Prelude.Tests.{nat_eq, nat_beq, nat_beq_iff, ltb, leb, if◌then◌else◌, Bool-cases}
use leto_rs.Prelude.Maps.{Map, lookup}
use leto_rs.Prelude.Lists.{length}

module _ (rank : ℕ → ℕ) where
  -- The keys of at least the rank.
  unfoldable pub keys_above : ℕ → Map ℕ ℕ → ℕ
  keys_above r [] = 0
  keys_above r ((k, v) ∷ m) = if leb r (rank k) then suc (keys_above r m) else keys_above r m

  pub keys_above-length : (r : ℕ) (m : Map ℕ ℕ) → keys_above r m ≤ length m
  unfolding keys_above
  keys_above-length r [] = omega arith
  keys_above-length r ((k, v) ∷ m) = ground (arith, keys_above-length r m)

  keys_above_fall : (r q : ℕ) (m : Map ℕ ℕ) → r ≤ q → keys_above q m ≤ keys_above r m
  unfolding keys_above
  keys_above_fall r q [] h = omega arith
  keys_above_fall r q ((k, v) ∷ m) h = ground (arith, h, keys_above_fall r q m h)

  pub keys_above_step :
      (p c r : ℕ) (m : Map ℕ ℕ)
      → lookup p m ≡ some c
      → rank p < r
      → keys_above r m < keys_above (rank p) m
  unfolding keys_above lookup
  keys_above_step p c r [] e h = cc
  keys_above_step p c r ((k, v) ∷ m) e h = elim (Bool-cases (nat_beq k p)) [
    | inl same ↦
        subst (λ j. keys_above r ((j, v) ∷ m) < keys_above (rank p) ((j, v) ∷ m))
          (sym ((nat_beq_iff k p).0 same))
          (ground (arith, h, keys_above_fall (rank p) r m (omega arith)))
    | inr other ↦ ground (arith, h, other, e, keys_above_step p c r m)
  ]

module _ {ℓ} {V : Type ℓ} (rank : ℕ → ℕ) where
  -- The keys below the rank.
  unfoldable pub keys_below : ℕ → Map ℕ V → ℕ
  keys_below r [] = 0
  keys_below r ((k, v) ∷ m) = if ltb (rank k) r then suc (keys_below r m) else keys_below r m

  pub keys_below-length : (r : ℕ) (m : Map ℕ V) → keys_below r m ≤ length m
  unfolding keys_below
  keys_below-length r [] = omega arith
  keys_below-length r ((k, v) ∷ m) = ground (arith, keys_below-length r m)

  keys_below_rise : (r q : ℕ) (m : Map ℕ V) → r ≤ q → keys_below r m ≤ keys_below q m
  unfolding keys_below
  keys_below_rise r q [] h = omega arith
  keys_below_rise r q ((k, v) ∷ m) h = ground (arith, h, keys_below_rise r q m h)

  pub keys_below_step :
      (p r : ℕ) (v : V) (m : Map ℕ V)
      → lookup p m ≡ some v
      → rank p < r
      → keys_below (rank p) m < keys_below r m
  unfolding keys_below lookup
  keys_below_step p r v [] e h = cc
  keys_below_step p r v ((k, w) ∷ m) e h = elim (Bool-cases (nat_beq k p)) [
    | inl same ↦
        subst (λ j. keys_below (rank p) ((j, w) ∷ m) < keys_below r ((j, w) ∷ m))
          (sym ((nat_beq_iff k p).0 same))
          (ground (arith, h, keys_below_rise (rank p) r m (omega arith)))
    | inr other ↦ ground (arith, h, other, e, keys_below_step p r v m)
  ]
