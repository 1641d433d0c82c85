-- ===== src/Leto/LeaderContext.antt =====
-- consensus/src/server/leto/leader_context.rs: who leads which round.
pub mod Windows
pub mod Fairness
pub mod Start
use leto_rs.Prelude.{
  ◌>>=◌, ℕ, zero, suc, ◌+◌, ◌/◌, ◌≡◌, Bool, true, Option, none, some, List, [], ◌∷◌, nat_eq,
  set_contains, set_insert, set_remove, wrapping_add, length, last?, init,
}

-- The seeded generator with `IteratorRandom::choose`, which yields an element of a set that is not
-- empty.
pub record Choice (R : Type 0) : Type 0 where
  pub choose : R → List ℕ → Option (ℕ × R)
  pub choose_lem :
      (rng : R) (x : ℕ) (xs : List ℕ)
      → (y : ℕ) × (rng' : R) × (choose rng (x ∷ xs) ≡ some (y, rng'))
        × (set_contains y (x ∷ xs) ≡ true)

-- The front of `history` is the head of its list.
pub record LeaderContext (R : Type 0) : Type 0 where
  pub rng : R
  pub current_round : ℕ
  pub elligible : List ℕ
  pub history : List ℕ
  pub current_leader : ℕ
  pub next_leader : ℕ

abbrev pub start_id : ℕ
start_id = 0

-- The loop of `new`: the last ids move to the history; `none` is the panic of `unwrap`.
unfoldable pub retire : ℕ → List ℕ → List ℕ → Option (List ℕ × List ℕ)
retire zero all_ids history = some (all_ids, history)
retire (suc n) all_ids history = do
  leader ← last? all_ids
  retire n (init all_ids) (leader ∷ history)

-- `(num_nodes + num_faults + 1) / 2`
unfoldable pub replacement_limit : ℕ → ℕ → ℕ
replacement_limit num_nodes num_faults = (num_nodes + num_faults + 1) / 2

-- `into_iter().collect()` into a set.
unfoldable pub collect_set : List ℕ → List ℕ
collect_set [] = []
collect_set (x ∷ xs) = set_insert x (collect_set xs)

module _ {R : Type 0} (choice : Choice R) where
  open choice use {choose}

  -- `advance_round`; `none` is a panic of `unwrap`.
  unfoldable pub advance_round : LeaderContext R → Option (LeaderContext R)
  advance_round c = do
    new_elligible_server ← last? c.history
    (leader, rng') ←
        choose c.rng (set_remove c.next_leader (set_insert new_elligible_server c.elligible))
    some (record {
      rng = rng';
      current_round = wrapping_add c.current_round 1;
      elligible = set_remove c.next_leader (set_insert new_elligible_server c.elligible);
      history = c.next_leader ∷ init c.history;
      current_leader = c.next_leader;
      next_leader = leader;
    })

  -- `seed` is `StdRng::from_seed` at the constant seed.
  unfoldable pub new : R → List ℕ → ℕ → Option (LeaderContext R)
  unfolding retire collect_set replacement_limit
  new seed all_ids num_faults = do
    (ids, history) ← retire (replacement_limit (length all_ids) num_faults) all_ids []
    c ← advance_round (record {
      rng = seed;
      current_round = 0;
      elligible = collect_set ids;
      history = history;
      current_leader = start_id;
      next_leader = start_id;
    })
    some (record c { current_round = 0 })

  -- The leaders of the next rounds, the latest first.
  unfoldable pub leaders : ℕ → LeaderContext R → Option (List ℕ × LeaderContext R)
  leaders zero c = some ([], c)
  leaders (suc k) c = do (ls, d) ← leaders k c; e ← advance_round d; some (e.current_leader ∷ ls, e)
