-- ===== src/Batcher.antt =====
-- consensus/src/server/rr_batcher.rs: the round-robin batcher, one branch of its `select!` a step.
pub mod Turns
pub mod Rounds
pub mod Safety
use leto_rs.Prelude.{
  ℕ, Bool, true, false, not, ◌&&◌, Option, none, some, List, [], ◌∷◌, ◌++◌, nat_beq, if◌then◌else◌,
}
use leto_rs.Txpool.{
  Env, Txpool, new, add_tx, admit_proposal, make_batch, commit, rollback, reset_timer, ready,
}

-- Messages from the consensus engine.
pub data BatcherConsensusMsg (Tx : Type 0) : Type 0 where
  new_round : ℕ → ℕ → BatcherConsensusMsg Tx
  proposed_batch : List Tx → ℕ → BatcherConsensusMsg Tx
  committed_batch : List Tx → ℕ → BatcherConsensusMsg Tx
  rollback_rounds : List ℕ → BatcherConsensusMsg Tx

-- What one turn of the loop may wake up for. A closed channel is `none`.
pub data Event (Tx : Type 0) : Type 0 where
  tick : Event Tx
  incoming_tx : Option (Tx × ℕ) → Event Tx
  incoming_consensus : Option (BatcherConsensusMsg Tx) → Event Tx

-- `outgoing` holds the batches that were sent to the proposer, oldest first; `open` tells whether
-- the proposer still receives.
pub record RrBatcher (Tx T : Type 0) : Type 0 where
  pub my_id : ℕ
  pub current_leader : ℕ
  pub current_round : ℕ
  pub proposed : Bool
  pub outgoing : List (List Tx)
  pub open_channel : Bool
  pub pool : Txpool Tx T

pub record Parameters (T : Type 0) : Type 0 where
  pub my_id : ℕ
  pub initial_leader : ℕ
  pub batch_size : ℕ
  pub batch_timeout : T

-- `failed` is an error, which ends the task; `panicked` a panic.
pub data Run (A : Type 0) : Type 0 where
  running : A → Run A
  failed panicked : Run A

infixl 5 ◌>>=◌
abbrev pub ◌>>=◌ : {A B : Type 0} → Run A → (A → Run B) → Run B
running a >>= f = f a
failed >>= f = failed
panicked >>= f = panicked

abbrev unwrapped : {A : Type 0} → Option A → Run A
unwrapped none = panicked
unwrapped (some a) = running a

module _ {Tx T : Type 0} where
  unfoldable pub spawn : Parameters T → RrBatcher Tx T
  spawn params = record {
    my_id = params.my_id;
    current_leader = params.initial_leader;
    current_round = 0;
    proposed = false;
    outgoing = [];
    open_channel = true;
    pool = new params.batch_size params.batch_timeout;
  }

  abbrev pub leads : RrBatcher Tx T → Bool
  leads b = nat_beq b.my_id b.current_leader

  abbrev pub can_propose : RrBatcher Tx T → Bool
  can_propose b = leads b && not b.proposed

  unfoldable pub propose : RrBatcher Tx T → List Tx → Run (RrBatcher Tx T)
  propose b batch =
      if b.open_channel
      then running (record b { proposed = true; outgoing = b.outgoing ++ batch ∷ [] })
      else failed

module _ {Tx T : Type 0} (env : Env Tx T) where
  -- `let batch = self.pool.make_batch(self.current_round); self.propose(batch)`
  unfoldable pub make_and_propose : RrBatcher Tx T → Run (RrBatcher Tx T)
  unfolding propose
  make_and_propose b =
      let (pool, batch) = make_batch env b.pool b.current_round in
      propose (record b { pool = pool }) batch

  unfoldable pub try_propose : RrBatcher Tx T → Run (RrBatcher Tx T)
  unfolding make_and_propose
  try_propose b = if can_propose b && ready b.pool then make_and_propose b else running b

  unfoldable pub on_tx : RrBatcher Tx T → Tx → ℕ → Run (RrBatcher Tx T)
  unfolding make_and_propose
  on_tx b tx size =
      let c = record b { pool = add_tx env b.pool tx size } in
      if can_propose b && ready c.pool then make_and_propose c else running c

  unfoldable pub on_consensus : RrBatcher Tx T → BatcherConsensusMsg Tx → Run (RrBatcher Tx T)
  unfolding try_propose
  on_consensus b (new_round leader round) = try_propose (record b {
    current_leader = leader;
    current_round = round;
    proposed = false;
    pool = reset_timer env b.pool;
  })
  on_consensus b (proposed_batch batch round) =
      running (record b { pool = admit_proposal env b.pool batch round })
  on_consensus b (committed_batch batch round) = do
    pool ← unwrapped (commit env b.pool batch round)
    running (record b { pool = pool })
  on_consensus b (rollback_rounds rounds) = running (record b { pool = rollback env b.pool rounds })

  -- One turn of the loop. The branch of the timer is disabled unless `can_propose`.
  unfoldable pub turn : RrBatcher Tx T → Event Tx → Run (RrBatcher Tx T)
  unfolding make_and_propose on_tx on_consensus
  turn b tick = if can_propose b then make_and_propose b else running b
  turn b (incoming_tx none) = failed
  turn b (incoming_tx (some (tx, size))) = on_tx b tx size
  turn b (incoming_consensus none) = failed
  turn b (incoming_consensus (some msg)) = on_consensus b msg

  unfoldable pub run : RrBatcher Tx T → List (Event Tx) → Run (RrBatcher Tx T)
  run b [] = running b
  run b (e ∷ es) = do c ← turn b e; run c es
