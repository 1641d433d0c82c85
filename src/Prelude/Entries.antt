-- ===== src/Prelude/Entries.antt =====
-- What holds of every entry of a map.
use mathlib.Core.Path.{◌≡◌, subst}
use mathlib.Core.Option.{some}
use mathlib.Core.List.{[], ◌∷◌}
use mathlib.Core.Logic.{inl, inr}
use native.Mathlib.Omega.{arith}
use leto_rs.Prelude.Tests.{Eq, if◌then◌else◌, Bool-cases, ◌==◌}
use leto_rs.Prelude.Maps.{Map, lookup, insert, remove}
use leto_rs.Prelude.Lists.{All}

module _ {K : Type 0} ⦃e : Eq K⦄ {V : Type 0} (P : K × V → Type 0) where
  pub All-insert : (k : K) (v : V) (m : Map K V) → P (k, v) → All P m → All P (insert k v m)
  unfolding insert
  All-insert k v [] p a = (p, tt)
  All-insert k v ((j, w) ∷ m) p a = elim (Bool-cases (j == k)) [
    | inl same ↦ rw (same, if◌then◌else◌) (p, a.1)
    | inr other ↦ rw (other, if◌then◌else◌) (a.0, All-insert k v m p a.1)
  ]

  pub All-remove : (k : K) (m : Map K V) → All P m → All P (remove k m)
  unfolding remove
  All-remove k [] a = tt
  All-remove k ((j, w) ∷ m) a = elim (Bool-cases (j == k)) [
    | inl same ↦ rw (same, if◌then◌else◌) (All-remove k m a.1)
    | inr other ↦ rw (other, if◌then◌else◌) (a.0, All-remove k m a.1)
  ]

  pub All-lookup : (k : K) (v : V) (m : Map K V) → lookup k m ≡ some v → All P m → P (k, v)
  unfolding lookup
  All-lookup k v [] f a = cc
  All-lookup k v ((j, w) ∷ m) f a = elim (Bool-cases (j == k)) [
    | inl same ↦
        let q : w ≡ v = ground (arith, same, f) in
        subst (λ i. P (i, v)) ((e.beq_iff j k).0 same) (subst (λ u. P (j, u)) q a.0)
    | inr other ↦ All-lookup k v m (ground (arith, other, f)) a.1
  ]
