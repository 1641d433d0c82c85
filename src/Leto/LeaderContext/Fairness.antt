-- ===== src/Leto/LeaderContext/Fairness.antt =====
-- consensus/src/server/leto/leader_context.rs: no server leads again within a window of rounds.
use leto_rs.Prelude.{
  ◌>>=◌, ℕ, zero, suc, ◌≤◌, ◌<◌, ◌≡◌, refl, ap, true, false, ◌||◌, ◌&&◌, some, List, [], ◌∷◌, ◌++◌,
  nat_eq, nat_beq_iff, set_contains, set_insert, set_remove, length, init, arith,
  contains-set_insert, contains-set_remove, length-append, wrapping_add,
}
use mathlib.Core.Path.{subst}
use leto_rs.Leto.LeaderContext.Windows.{
  IsDistinct, last_split, IsDistinct-init, init-append, IsDistinct-append, IsDistinct-insert,
  IsDistinct-remove, length-insert, length-remove, contains-nonempty,
}
use leto_rs.Leto.LeaderContext.{Choice, LeaderContext, advance_round, leaders}

-- The servers are the elligible ones and those of the history, which holds the leaders of the last
-- `limit` rounds; the next leader is elligible.
pub record IsFair {R : Type 0} (ids : List ℕ) (limit : ℕ) (c : LeaderContext R) : Type 0 where
  pub window : length c.history ≡ limit
  pub distinct : IsDistinct c.history
  pub candidates : IsDistinct c.elligible
  pub apart : (i : ℕ) → (set_contains i c.elligible && set_contains i c.history) ≡ false
  pub complete :
      (i : ℕ) → (set_contains i c.elligible || set_contains i c.history) ≡ set_contains i ids
  pub next : set_contains c.next_leader c.elligible ≡ true

module _ {R : Type 0} (choice : Choice R) where
  open choice use {choose, choose_lem}

  chosen :
      (rng : R) (s : List ℕ)
      → 0 < length s
      → (y : ℕ) × (rng' : R) × (choose rng s ≡ some (y, rng')) × (set_contains y s ≡ true)
  chosen rng [] h = elim h [ ]
  chosen rng (x ∷ xs) h = choose_lem rng x xs

  -- From a fair state with a window that is not empty, `advance_round` does not panic and leads to
  -- a fair state: its leader is the elligible server that was chosen, who was not among the
  -- leaders of the window, and the server that led longest ago leaves the history.
  pub advance-IsFair :
      (ids : List ℕ) (limit : ℕ) (c : LeaderContext R)
      → 0 < limit
      → IsFair ids limit c
      → (d : LeaderContext R) × (advance_round choice c ≡ some d)
        × IsFair ids limit d
        × (d.current_leader ≡ c.next_leader)
        × (d.history ≡ d.current_leader ∷ init c.history)
        × (set_contains d.current_leader c.history ≡ false)
  unfolding advance_round set_contains
  advance-IsFair ids limit c h v =
      let (x, e, l, g) = last_split c.history (omega (arith, v.window)) in
      let (t, o) = IsDistinct-init c.history x e v.distinct in
      let s = set_remove c.next_leader (set_insert x c.elligible) in
      let fresh : set_contains x c.elligible ≡ false =
        ground (arith, v.apart x, g x, nat_beq_iff x x) in
      let led : set_contains c.next_leader (set_insert x c.elligible) ≡ true =
        ground (arith, v.next, contains-set_insert c.next_leader x c.elligible) in
      let nonempty : 0 < length s = omega (
        arith,
        length-insert x c.elligible fresh,
        length-remove c.next_leader (set_insert x c.elligible)
            (IsDistinct-insert x c.elligible v.candidates) led,
        contains-nonempty c.next_leader c.elligible v.next,
      ) in
      let (y, rng', f, m) = chosen c.rng s nonempty in
      (
        record {
          rng = rng';
          current_round = wrapping_add c.current_round 1;
          elligible = s;
          history = c.next_leader ∷ init c.history;
          current_leader = c.next_leader;
          next_leader = y;
        },
        rw (e, ◌>>=◌) (rw (f, ◌>>=◌) refl),
        record {
          window = omega (arith, l, v.window);
          distinct = (ground (arith, v.apart c.next_leader, v.next, g c.next_leader), t);
          candidates =
              IsDistinct-remove c.next_leader _ (IsDistinct-insert x c.elligible v.candidates);
          apart = λ i. ground (
            arith,
            v.apart i,
            g i,
            o,
            nat_beq_iff x i,
            nat_beq_iff c.next_leader i,
            contains-set_remove i c.next_leader (set_insert x c.elligible),
            contains-set_insert i x c.elligible,
          );
          complete = λ i. ground (
            arith,
            v.complete i,
            v.next,
            g i,
            nat_beq_iff x i,
            nat_beq_iff c.next_leader i,
            contains-set_remove i c.next_leader (set_insert x c.elligible),
            contains-set_insert i x c.elligible,
          );
          next = m;
        },
        refl,
        refl,
        ground (arith, v.apart c.next_leader, v.next),
      )

  -- The leaders of `k` further rounds and then the window before them make up the history.
  leaders-history :
      (ids : List ℕ) (limit k : ℕ) (c : LeaderContext R)
      → 0 < limit
      → k ≤ limit
      → IsFair ids limit c
      → (ls : List ℕ) × (d : LeaderContext R) × (rest : List ℕ) × (leaders choice k c
          ≡ some (ls, d))
        × IsFair ids limit d
        × (d.history ≡ ls ++ rest)
        × (length ls ≡ k)
  unfolding leaders
  leaders-history ids limit zero c h b v = ([], c, c.history, refl, v, refl, refl)
  leaders-history ids limit (suc k) c h b v =
      let (ls, d, rest, e, w, g, l) = leaders-history ids limit k c h (omega arith) v in
      let (n, f, u, p, q, o) = advance-IsFair ids limit d h w in
      let long : 0 < length rest = omega (arith, w.window, ap length g, length-append ls rest, l) in
      (
        n.current_leader ∷ ls,
        n,
        init rest,
        rw (e, ◌>>=◌) (rw (f, ◌>>=◌) refl),
        u,
        rw (q, g, init-append ls rest long) refl,
        omega (arith, l),
      )

  -- From a fair state with a window that is not empty, the rounds to come always have a leader,
  -- and the leaders of any `k` rounds in a row, for `k` at most the length of the window, are `k`
  -- different servers.
  pub leaders-IsDistinct :
      (ids : List ℕ) (limit k : ℕ) (c : LeaderContext R)
      → 0 < limit
      → k ≤ limit
      → IsFair ids limit c
      → (ls : List ℕ) × (d : LeaderContext R) × (leaders choice k c ≡ some (ls, d))
        × IsFair ids limit d
        × (length ls ≡ k)
        × IsDistinct ls
  leaders-IsDistinct ids limit k c h b v =
      let (ls, d, rest, e, w, g, l) = leaders-history ids limit k c h b v in
      (ls, d, e, w, l, IsDistinct-append ls rest (subst IsDistinct g w.distinct))
