-- ===== src/Zeus/Rounds/Delivery.antt =====
-- consensus/src/server/zeus/core.rs: `ZeusRoundState` as the list of what is pending for each round.
use leto_rs.Prelude.{
  ℕ, zero, suc, ◌+◌, ◌<◌, ◌≤◌, ◌≡◌, refl, ap, ◌∙◌, ◌&&◌, Option, none, some, List, [], ◌∷◌, ◌++◌,
  nat_eq, nat_beq, nat_beq_iff, ltb, leb, if◌then◌else◌, remove, lookup-insert, lookup-remove,
  lookup-retain, usize_mod, wrapping_add_small, length, arith,
}
use leto_rs.Leto.RoundContext.{queue_at, push}
use leto_rs.Zeus.Rounds.{ZeusRoundState, pop_msg, enqueue, next_round}

-- What moves the state: a message of a round, the end of the round, and the removal of a message.
pub data Move (M : Type 0) : Type 0 where
  arrive : M → ℕ → Move M
  advance : Move M
  take : Move M

abbrev pub behind_first : {M : Type 0} → List M → List M
behind_first [] = []
behind_first (m ∷ ms) = ms

module _ {M H : Type 0} where
  -- The messages that the state holds for the round.
  abbrev pub pending : ZeusRoundState M H → ℕ → List M
  pending c r =
      if ltb r c.current_round
      then []
      else if nat_beq r c.current_round
      then c.msg_buf
      else queue_at r c.future_msgs

  abbrev pub popped : ZeusRoundState M H → Option (M × ZeusRoundState M H) → ZeusRoundState M H
  popped c none = c
  popped c (some (m, d)) = d

  unfoldable pub move : ℕ → Move M → ZeusRoundState M H → ZeusRoundState M H
  unfolding enqueue next_round pop_msg
  move gc_depth (arrive m r) c = enqueue c m r
  move gc_depth advance c = next_round gc_depth c
  move gc_depth take c = popped c (pop_msg c)

  unfoldable pub move_all : ℕ → List (Move M) → ZeusRoundState M H → ZeusRoundState M H
  unfolding move
  move_all gc_depth [] c = c
  move_all gc_depth (o ∷ os) c = move_all gc_depth os (move gc_depth o c)

-- The abstract state: the round, and what is pending for each. The round that begins has what is
-- left of the one before in front of its own.
unfoldable pub spec_move : {M : Type 0} → Move M → ℕ × (ℕ → List M) → ℕ × (ℕ → List M)
spec_move (arrive m r) (k, f) = (k, λ q. if leb k r && nat_beq r q then f q ++ m ∷ [] else f q)
spec_move advance (k, f) =
    (suc k, λ q. if ltb q (suc k) then [] else if nat_beq q (suc k) then f k ++ f (suc k) else f q)
spec_move take (k, f) = (k, λ q. if nat_beq q k then behind_first (f q) else f q)

unfoldable pub spec_all : {M : Type 0} → List (Move M) → ℕ × (ℕ → List M) → ℕ × (ℕ → List M)
unfolding spec_move
spec_all [] a = a
spec_all (o ∷ os) a = spec_all os (spec_move o a)

module _ {M H : Type 0} where
  -- The state has the round and the pending messages of the abstract one.
  abbrev pub Refines : ZeusRoundState M H → ℕ × (ℕ → List M) → Type 0
  Refines c a = (c.current_round ≡ a.0) × ((q : ℕ) → pending c q ≡ a.1 q)

  arrive_pending :
      (c : ZeusRoundState M H) (m : M) (r q : ℕ)
      → pending (enqueue c m r) q
        ≡ (if leb c.current_round r && nat_beq r q then pending c q ++ m ∷ [] else pending c q)
  unfolding enqueue push
  arrive_pending c m r q = ground (
    arith,
    lookup-insert q r (queue_at r c.future_msgs ++ m ∷ []) c.future_msgs,
    nat_beq_iff r q,
    nat_beq_iff q c.current_round,
  )

  advance_pending :
      (gc_depth : ℕ) (c : ZeusRoundState M H) (q : ℕ)
      → suc c.current_round < usize_mod
      → let k = suc c.current_round in
        ((next_round gc_depth c).current_round ≡ k)
        × (pending (next_round gc_depth c) q ≡ (
            if ltb q k
            then []
            else if nat_beq q k
            then pending c c.current_round ++ pending c k
            else pending c q))
  unfolding next_round
  advance_pending gc_depth c q b =
      let k = suc c.current_round in
      rw (wrapping_add_small c.current_round 1 (omega (arith, b))) (
        omega arith,
        ground (
          arith,
          lookup-retain q (leb (c.current_round + 1)) (remove (c.current_round + 1) c.future_msgs),
          lookup-remove q (c.current_round + 1) c.future_msgs,
          nat_beq_iff q k,
          nat_beq_iff c.current_round c.current_round,
          nat_beq_iff k c.current_round,
          nat_beq_iff q c.current_round,
        ),
      )

  take_pending :
      (c : ZeusRoundState M H) (q : ℕ)
      → let d = popped c (pop_msg c) in
        (d.current_round ≡ c.current_round)
        × (pending d q
            ≡ (if nat_beq q c.current_round then behind_first (pending c q) else pending c q))
  unfolding pop_msg
  take_pending c q = (ground arith, ground (arith, nat_beq_iff q c.current_round))

  enqueue_round :
      (c : ZeusRoundState M H) (m : M) (r : ℕ) → (enqueue c m r).current_round ≡ c.current_round
  unfolding enqueue
  enqueue_round c m r = ground arith

  move_round :
      (gc_depth : ℕ) (o : Move M) (c : ZeusRoundState M H)
      → suc c.current_round < usize_mod
      → (move gc_depth o c).current_round ≤ suc c.current_round
  unfolding move
  move_round gc_depth (arrive m r) c b = omega (arith, enqueue_round c m r)
  move_round gc_depth advance c b = omega (arith, (advance_pending gc_depth c zero b).0)
  move_round gc_depth take c b = omega (arith, (take_pending c zero).0)

  move-Refines :
      (gc_depth : ℕ) (o : Move M) (c : ZeusRoundState M H) (a : ℕ × (ℕ → List M))
      → suc c.current_round < usize_mod
      → Refines c a
      → Refines (move gc_depth o c) (spec_move o a)
  unfolding move spec_move
  move-Refines gc_depth (arrive m r) c (k, f) b (e, p) =
      (enqueue_round c m r ∙ e, λ q. arrive_pending c m r q ∙ rw (p q, e) refl)
  move-Refines gc_depth advance c (k, f) b (e, p) = (
    (advance_pending gc_depth c zero b).0 ∙ ap suc e,
    λ q.
        (advance_pending gc_depth c q b).1
        ∙ rw (p c.current_round, p (suc c.current_round), p q, e) refl,
  )
  move-Refines gc_depth take c (k, f) b (e, p) =
      ((take_pending c zero).0 ∙ e, λ q. (take_pending c q).1 ∙ rw (p q, e) refl)

  -- Over every history that does not overflow the rounds, the state's round and the messages pending
  -- for each round are those of the abstract state, whose rounds are a counter and whose
  -- messages a list for each round: a message that comes for the current round or a later one is put
  -- behind the others of its round and is there when the round has come, and what is left of a round
  -- is in front of the messages of the next one.
  pub move_all-Refines :
      (gc_depth : ℕ) (os : List (Move M)) (c : ZeusRoundState M H) (a : ℕ × (ℕ → List M))
      → c.current_round + length os < usize_mod
      → Refines c a
      → Refines (move_all gc_depth os c) (spec_all os a)
  unfolding move_all spec_all
  move_all-Refines gc_depth [] c a b r = r
  move_all-Refines gc_depth (o ∷ os) c a b r =
      move_all-Refines gc_depth os (move gc_depth o c) (spec_move o a)
        (omega (arith, b, move_round gc_depth o c (omega (arith, b))))
        (move-Refines gc_depth o c a (omega (arith, b)) r)
