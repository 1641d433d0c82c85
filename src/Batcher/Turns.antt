-- ===== src/Batcher/Turns.antt =====
-- consensus/src/server/rr_batcher.rs: what one turn of the loop may do to the pool and the channel.
use leto_rs.Prelude.{
  ◌≡◌, refl, Bool, true, false, ◌&&◌, ◌⊎◌, inl, inr, none, some, List, [], ◌∷◌, ◌++◌, if◌then◌else◌,
  arith, Option-cases,
}
use leto_rs.Txpool.{Env, Txpool, add_tx, make_batch, commit, ready, reset_timer}
use leto_rs.Txpool.Histories
use leto_rs.Txpool.Histories.{Op, add, admit, make, committed, rolled_back, timer_reset}
use leto_rs.Batcher.{
  RrBatcher, Event, tick, incoming_tx, incoming_consensus, new_round, proposed_batch,
  committed_batch, rollback_rounds, Run, running, failed, panicked, ◌>>=◌, can_propose,
  make_and_propose, try_propose, on_tx, on_consensus, turn,
}

pub running-eq : {A : Type 0} {a b : A} → running a ≡ running b → a ≡ b
running-eq e = cc

-- Inversion of a run that succeeds.
pub >>=-eq-running :
    {A B : Type 0} (m : Run A) (f : A → Run B) {b : B}
    → (m >>= f) ≡ running b
    → (a : A) × (m ≡ running a) × (f a ≡ running b)
>>=-eq-running (running a) f e = (a, refl, e)
>>=-eq-running failed f e = cc
>>=-eq-running panicked f e = cc

module _ {Tx T : Type 0} (env : Env Tx T) where
  -- The call of the pool that a turn begins with.
  abbrev pub first_call : Event Tx → List (Op Tx)
  first_call tick = []
  first_call (incoming_tx none) = []
  first_call (incoming_tx (some (tx, size))) = add tx size ∷ []
  first_call (incoming_consensus none) = []
  first_call (incoming_consensus (some (new_round leader round))) = timer_reset ∷ []
  first_call (incoming_consensus (some (proposed_batch batch round))) = admit batch round ∷ []
  first_call (incoming_consensus (some (committed_batch batch round))) = committed batch round ∷ []
  first_call (incoming_consensus (some (rollback_rounds rounds))) = rolled_back rounds ∷ []

  -- The leader, the round and whether it has proposed, when the turn comes to propose.
  abbrev pub enter : Event Tx → RrBatcher Tx T → RrBatcher Tx T
  enter (incoming_consensus (some (new_round leader round))) b = record b {
    current_leader = leader;
    current_round = round;
    proposed = false;
  }
  enter _ b = b

  -- After the turn: the pool after the first call, and either no batch is sent, or this server
  -- leads, had not proposed yet, and sends what `make_batch` seals at the current round.
  pub data Turned (e : Event Tx) (b c : RrBatcher Tx T) : Type 0 where
    quiet :
        Histories.run env b.pool (first_call e) ≡ some c.pool
        → c ≡ record (enter e b) { pool = c.pool }
        → Turned e b c
    sent :
        (p : Txpool Tx T)
        → Histories.run env b.pool (first_call e) ≡ some p
        → can_propose (enter e b) ≡ true
        → c ≡ record (enter e b) {
          pool = (make_batch env p (enter e b).current_round).0;
          proposed = true;
          outgoing = b.outgoing ++ (make_batch env p (enter e b).current_round).1 ∷ [];
        }
        → Turned e b c

  abbrev pub after : RrBatcher Tx T → Txpool Tx T → RrBatcher Tx T
  after b p = record b {
    pool = (make_batch env p b.current_round).0;
    proposed = true;
    outgoing = b.outgoing ++ (make_batch env p b.current_round).1 ∷ [];
  }

  proposed_or_not :
      (test : Bool) (b c : RrBatcher Tx T)
      → (if test then make_and_propose env b else running b) ≡ running c
      → (c ≡ b) ⊎ ((test ≡ true) × (c ≡ after b b.pool))
  unfolding make_and_propose
  proposed_or_not true b c e = inr (refl, ground arith)
  proposed_or_not false b c e = inl (ground arith)

  proposes :
      (test : Bool) (e : Event Tx) (b c : RrBatcher Tx T) (p : Txpool Tx T)
      → Histories.run env b.pool (first_call e) ≡ some p
      → (test ≡ true → can_propose (enter e b) ≡ true)
      → (enter e b).outgoing ≡ b.outgoing
      → (if test
          then make_and_propose env (record (enter e b) { pool = p })
          else running (record (enter e b) { pool = p }))
        ≡ running c
      → Turned e b c
  proposes test e b c p r can o t =
      elim (proposed_or_not test (record (enter e b) { pool = p }) c t) [
        | inl q ↦ quiet (rw q r) (rw q)
        | inr (yes', q) ↦ sent p r (can yes') (rw o at q)
      ]

  -- Every turn that succeeds is one of the two.
  pub turn-Turned : (e : Event Tx) (b c : RrBatcher Tx T) → turn env b e ≡ running c → Turned e b c
  unfolding turn on_tx on_consensus try_propose Histories.run Histories.step
  turn-Turned tick b c e = proposes (can_propose b) tick b c b.pool refl (λ h. h) refl e
  turn-Turned (incoming_tx none) b c e = cc
  turn-Turned (incoming_tx (some (tx, size))) b c e =
      let p = add_tx env b.pool tx size in
      proposes (can_propose b && ready p) (incoming_tx (some (tx, size))) b c p refl
        (λ h. ground arith) refl e
  turn-Turned (incoming_consensus none) b c e = cc
  turn-Turned (incoming_consensus (some (new_round leader round))) b c e =
      let p = reset_timer env b.pool in
      let d = enter (incoming_consensus (some (new_round leader round))) b in
      proposes (can_propose d && ready p) (incoming_consensus (some (new_round leader round))) b c p
        refl (λ h. ground arith) refl e
  turn-Turned (incoming_consensus (some (proposed_batch batch round))) b c e =
      rw (← running-eq e) (quiet refl refl)
  turn-Turned (incoming_consensus (some (committed_batch batch round))) b c e =
      elim (Option-cases (commit env b.pool batch round)) [
        | inl h ↦ cc (rw (h, on_consensus) at e)
        | inr (p, h) ↦
            rw (← running-eq (rw (h, on_consensus) at e))
              (quiet (rw (h, Histories.run, Histories.step)) refl)
      ]
  turn-Turned (incoming_consensus (some (rollback_rounds rounds))) b c e =
      rw (← running-eq e) (quiet refl refl)
