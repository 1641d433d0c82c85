-- ===== src/Tests/Leaders.antt =====
-- consensus/src/server/leto/leader_context.rs: four servers, one of which may be faulty.
use leto_rs.Prelude.{
  ℕ, ◌+◌, ◌≡◌, refl, true, none, some, List, [], ◌∷◌, arith, length, nat_eq, nat_beq_iff,
  set_contains,
}
use leto_rs.Leto.LeaderContext.{Choice, LeaderContext, start_id, replacement_limit, new, leaders}
use leto_rs.Leto.LeaderContext.Windows.{IsDistinct}
use leto_rs.Leto.LeaderContext.Fairness.{IsFair, leaders-IsDistinct}
use leto_rs.Leto.LeaderContext.Start.{new-IsFair}

pub head_in : (x : ℕ) (xs : List ℕ) → set_contains x (x ∷ xs) ≡ true
unfolding set_contains
head_in x xs = ground (arith, nat_beq_iff x x)

-- A generator that takes the first element and counts its draws.
abbrev pub first : Choice ℕ
first = record {
  choose = λ rng s. elim s [ [] ↦ none | x ∷ xs ↦ some (x, rng + 1) ];
  choose_lem = λ rng x xs. (x, rng + 1, refl, head_in x xs);
}

abbrev pub ids : List ℕ
ids = 0 ∷ 1 ∷ 2 ∷ 3 ∷ []

pub ids-IsDistinct : IsDistinct ids
unfolding set_contains
ids-IsDistinct = (refl, (refl, (refl, (refl, tt))))

pub limit : replacement_limit 4 1 ≡ 3
unfolding replacement_limit
limit = refl

pub made :
    (c : LeaderContext ℕ) × (new first 0 ids 1 ≡ some c)
    × IsFair ids (replacement_limit 4 1) c
    × (c.current_leader ≡ start_id)
made =
    new-IsFair first 0 (1 ∷ 2 ∷ 3 ∷ []) 1 ids-IsDistinct (omega (arith, limit))
      (omega (arith, limit))

abbrev pub begun : LeaderContext ℕ
begun = made.0

pub begun-IsFair : IsFair ids (replacement_limit 4 1) begun
begun-IsFair = made.2

leaders-IsDistinct_example :
    (ls : List ℕ) × (d : LeaderContext ℕ) × (leaders first 3 begun ≡ some (ls, d))
    × IsFair ids (replacement_limit 4 1) d
    × (length ls ≡ 3)
    × IsDistinct ls
leaders-IsDistinct_example =
    leaders-IsDistinct first ids (replacement_limit 4 1) 3 begun (omega (arith, limit))
      (omega (arith, limit)) begun-IsFair
