-- ===== src/Batcher/Rounds.antt =====
-- consensus/src/server/rr_batcher.rs: how often the batcher proposes.
use leto_rs.Prelude.{
  ℕ, ◌+◌, ◌≤◌, ◌≡◌, ap, none, some, List, [], ◌∷◌, nat_beq, if◌then◌else◌, arith, length,
  length-append,
}
use leto_rs.Txpool.{Env, make_batch}
use leto_rs.Batcher.Turns.{running-eq, >>=-eq-running, Turned, quiet, sent, enter, turn-Turned}
use leto_rs.Batcher.{
  RrBatcher, Event, tick, incoming_tx, incoming_consensus, new_round, proposed_batch,
  committed_batch, rollback_rounds, running, can_propose, turn, run,
}

module _ {Tx : Type 0} where
  abbrev won : ℕ → Event Tx → ℕ
  won id (incoming_consensus (some (new_round leader round))) = if nat_beq id leader then 1 else 0
  won id _ = 0

  -- How many of the new rounds that the engine announces have the server as their leader.
  abbrev pub rounds_won : ℕ → List (Event Tx) → ℕ
  rounds_won id [] = 0
  rounds_won id (e ∷ es) = won id e + rounds_won id es

  -- One more batch, if the server leads and has not proposed yet.
  abbrev pub quota : {T : Type 0} → RrBatcher Tx T → ℕ
  quota b = if can_propose b then 1 else 0

module _ {Tx T : Type 0} (env : Env Tx T) where
  enter-quota :
      (e : Event Tx) (b : RrBatcher Tx T)
      → (quota (enter env e b) ≤ quota b + won b.my_id e)
        × ((enter env e b).my_id ≡ b.my_id)
        × ((enter env e b).outgoing ≡ b.outgoing)
  enter-quota tick b = ground arith
  enter-quota (incoming_tx tx) b = ground arith
  enter-quota (incoming_consensus none) b = ground arith
  enter-quota (incoming_consensus (some (new_round leader round))) b = ground arith
  enter-quota (incoming_consensus (some (proposed_batch batch round))) b = ground arith
  enter-quota (incoming_consensus (some (committed_batch batch round))) b = ground arith
  enter-quota (incoming_consensus (some (rollback_rounds rounds))) b = ground arith

  turn_quota :
      (e : Event Tx) (b c : RrBatcher Tx T)
      → Turned env e b c
      → (c.my_id ≡ b.my_id)
        × (length c.outgoing + quota c ≤ length b.outgoing + (quota b + won b.my_id e))
  turn_quota e b c (quiet r q) = ground (arith, enter-quota e b)
  turn_quota e b c (sent p r can q) = ground (
    arith,
    enter-quota e b,
    length-append b.outgoing ((make_batch env p (enter env e b).current_round).1 ∷ []),
  )

  -- In any run the batcher sends at most one batch for each round that it is told it leads, and
  -- one more if at the start it leads a round that it has not proposed in.
  pub batches_bounded :
      (es : List (Event Tx)) (b c : RrBatcher Tx T)
      → run env b es ≡ running c
      → length c.outgoing + quota c ≤ length b.outgoing + (quota b + rounds_won b.my_id es)
  unfolding run
  batches_bounded [] b c e = rw (running-eq e) (omega arith)
  batches_bounded (ev ∷ es) b c e =
      let (d, t, r) = >>=-eq-running (turn env b ev) (λ d. run env d es) e in
      let (same, less) = turn_quota ev b d (turn-Turned env ev b d t) in
      let rest = batches_bounded es d c r in
      omega (arith, less, rest, ap (λ id. rounds_won {Tx = Tx} id es) same)
