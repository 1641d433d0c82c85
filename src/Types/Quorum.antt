-- ===== src/Types/Quorum.antt =====
-- Quorums: sets of ids without repetition, of which one is outside any smaller set.
use leto_rs.Prelude.{
  ℕ, ◌≤◌, ◌<◌, ◌≡◌, inl, inr, true, false, List, [], ◌∷◌, nat_eq, nat_beq_iff, set_contains,
  set_insert, set_remove, length, arith, contains-set_remove, Bool-cases,
}

abbrev pub IsDistinct : List ℕ → Type 0
IsDistinct [] = Unit
IsDistinct (x ∷ xs) = (set_contains x xs ≡ false) × IsDistinct xs

pub IsDistinct-insert : (x : ℕ) (s : List ℕ) → IsDistinct s → IsDistinct (set_insert x s)
unfolding set_insert
IsDistinct-insert x s d = ground arith

remove_shrinks : (x : ℕ) (s : List ℕ) → set_contains x s ≡ true → length (set_remove x s) < length s
unfolding set_remove set_contains
remove_shrinks x [] h = cc
remove_shrinks x (y ∷ s) h = ground (arith, remove_length x s, remove_shrinks x s)
  where
    remove_length : (x : ℕ) (s : List ℕ) → length (set_remove x s) ≤ length s
    remove_length x [] = omega arith
    remove_length x (y ∷ s) = ground (arith, remove_length x s)

-- Of more ids than there are faulty ones, one is not faulty.
pub honest_member :
    (ids faulty : List ℕ)
    → IsDistinct ids
    → length faulty < length ids
    → (i : ℕ) × (set_contains i ids ≡ true) × (set_contains i faulty ≡ false)
unfolding set_contains
honest_member [] faulty d h = elim h [ ]
honest_member (x ∷ ids) faulty d h = elim (Bool-cases (set_contains x faulty)) [
  | inr e ↦ (x, ground (arith, nat_beq_iff x x), e)
  | inl e ↦
      let (i, m, n) =
        honest_member ids (set_remove x faulty) d.1 (omega (arith, remove_shrinks x faulty e)) in
      (
        i,
        ground (arith, m),
        ground (arith, n, m, d.0, contains-set_remove i x faulty, nat_beq_iff x i),
      )
]
