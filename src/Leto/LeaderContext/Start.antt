-- ===== src/Leto/LeaderContext/Start.antt =====
-- consensus/src/server/leto/leader_context.rs: the first window, and how `new` sets it up.
use leto_rs.Prelude.{
  ◌>>=◌, ℕ, zero, suc, ◌+◌, ◌≤◌, ◌<◌, ◌≡◌, refl, true, false, ◌||◌, ◌&&◌, some, List, [], ◌∷◌,
  nat_eq, nat_beq_iff, set_contains, length, init, arith, contains-set_insert,
}
use leto_rs.Leto.LeaderContext.Windows.{IsDistinct, last_split, IsDistinct-init, IsDistinct-insert}
use leto_rs.Leto.LeaderContext.Fairness.{IsFair, advance-IsFair}
use leto_rs.Leto.LeaderContext.{
  Choice, LeaderContext, start_id, retire, replacement_limit, collect_set, new,
}

-- What `retire` leaves and what it takes.
record IsSplit (ids history front taken : List ℕ) (k : ℕ) : Type 0 where
  left : IsDistinct front
  right : IsDistinct taken
  apart : (i : ℕ) → (set_contains i front && set_contains i taken) ≡ false
  whole :
      (i : ℕ)
      → (set_contains i front || set_contains i taken)
        ≡ (set_contains i ids || set_contains i history)
  size : length taken ≡ length history + k

retire-IsSplit :
    (k : ℕ) (ids history : List ℕ)
    → k ≤ length ids
    → IsDistinct ids
    → IsDistinct history
    → ((i : ℕ) → (set_contains i ids && set_contains i history) ≡ false)
    → (front taken : List ℕ) × (retire k ids history ≡ some (front, taken))
      × IsSplit ids history front taken k
unfolding retire set_contains
retire-IsSplit zero ids history b d e a = (
  ids,
  history,
  refl,
  record { left = d; right = e; apart = a; whole = λ i. refl; size = omega arith },
)
retire-IsSplit (suc k) ids history b d e a =
    let (x, f, l, g) = last_split ids (omega arith) in
    let (t, o) = IsDistinct-init ids x f d in
    let (front, taken, q, s) =
      retire-IsSplit k (init ids) (x ∷ history) (omega (arith, l)) t
        (ground (arith, a x, g x, nat_beq_iff x x), e)
        (λ i. ground (arith, a i, g i, o, nat_beq_iff x i)) in
    (
      front,
      taken,
      rw (f, ◌>>=◌) q,
      record {
        left = s.left;
        right = s.right;
        apart = s.apart;
        whole = λ i. ground (arith, s.whole i, g i, nat_beq_iff x i);
        size = omega (arith, s.size);
      },
    )

first_stays :
    (k : ℕ) (x : ℕ) (ids history front taken : List ℕ)
    → k ≤ length ids
    → retire k (x ∷ ids) history ≡ some (front, taken)
    → set_contains x front ≡ true
unfolding retire set_contains
first_stays zero x ids history front taken b e = ground (arith, nat_beq_iff x x)
first_stays (suc k) x [] history front taken b e = elim b [ ]
first_stays (suc k) x (y ∷ ids) history front taken b e =
    let (z, f, l, g) = last_split (y ∷ ids) (omega arith) in
    first_stays k x (init (y ∷ ids)) (z ∷ history) front taken (omega (arith, l))
      (rw (f, ◌>>=◌) at e)

none_in_common : (i : ℕ) (xs : List ℕ) → (set_contains i xs && set_contains i []) ≡ false
unfolding set_contains
none_in_common i xs = ground arith

contains_either :
    (i : ℕ) (xs : List ℕ) → (set_contains i xs || set_contains i []) ≡ set_contains i xs
unfolding set_contains
contains_either i xs = ground arith

contains-collect_set : (i : ℕ) (xs : List ℕ) → set_contains i (collect_set xs) ≡ set_contains i xs
unfolding collect_set set_contains
contains-collect_set i [] = refl
contains-collect_set i (x ∷ xs) =
    ground (arith, contains-set_insert i x (collect_set xs), contains-collect_set i xs)

IsDistinct-collect_set : (xs : List ℕ) → IsDistinct (collect_set xs)
unfolding collect_set
IsDistinct-collect_set [] = tt
IsDistinct-collect_set (x ∷ xs) = IsDistinct-insert x (collect_set xs) (IsDistinct-collect_set xs)

-- With distinct ids, the first of them `START_ID`, and a window that leaves a server over, `new` does
-- not panic and its state is fair, for a window of (n + f + 1) / 2 rounds.
pub new-IsFair :
    {R : Type 0} (choice : Choice R) (seed : R) (rest : List ℕ) (num_faults : ℕ)
    → IsDistinct (start_id ∷ rest)
    → 0 < replacement_limit (length (start_id ∷ rest)) num_faults
    → replacement_limit (length (start_id ∷ rest)) num_faults ≤ length rest
    → (c : LeaderContext R) × (new choice seed (start_id ∷ rest) num_faults ≡ some c)
      × IsFair (start_id ∷ rest) (replacement_limit (length (start_id ∷ rest)) num_faults) c
      × (c.current_leader ≡ start_id)
unfolding new
new-IsFair choice seed rest num_faults d h b =
    let limit = replacement_limit (length (start_id ∷ rest)) num_faults in
    let (front, taken, e, s) =
      retire-IsSplit limit (start_id ∷ rest) [] (omega (arith, b)) d tt
        (λ i. none_in_common i (start_id ∷ rest)) in
    let (c, f, v, q, _, _) =
      advance-IsFair choice (start_id ∷ rest) limit
        (record {
          rng = seed;
          current_round = 0;
          elligible = collect_set front;
          history = taken;
          current_leader = start_id;
          next_leader = start_id;
        })
        h
        (record {
          window = omega (arith, s.size);
          distinct = s.right;
          candidates = IsDistinct-collect_set front;
          apart = λ i. ground (arith, contains-collect_set i front, s.apart i);
          complete = λ i.
              ground (
                arith,
                contains-collect_set i front,
                s.whole i,
                contains_either i (start_id ∷ rest),
              );
          next = ground (
            arith,
            contains-collect_set start_id front,
            first_stays limit start_id rest [] front taken b e,
          );
        }) in
    (
      record c { current_round = 0 },
      rw (e, ◌>>=◌) (rw (f, ◌>>=◌) refl),
      record {
        window = v.window;
        distinct = v.distinct;
        candidates = v.candidates;
        apart = v.apart;
        complete = v.complete;
        next = v.next;
      },
      q,
    )
