-- ===== src/Tests/Batching.antt =====
-- consensus/src/server/rr_batcher.rs: the theorems on the batcher at a small run.
use leto_rs.Prelude.{
  ℕ, ◌+◌, ◌≤◌, ◌≡◌, refl, true, false, some, List, [], ◌∷◌, ◌++◌, length, All, inl,
}
use leto_rs.Txpool.Invariant.{IsValid}
use leto_rs.Txpool.{ready, make_batch}
use leto_rs.Batcher.{
  RrBatcher, Event, tick, incoming_tx, incoming_consensus, new_round, committed_batch, Run, running,
  propose, make_and_propose, try_propose, on_tx, on_consensus, turn, run,
}
use leto_rs.Batcher.Rounds.{quota, batches_bounded}
use leto_rs.Batcher.Safety.{IsOpen, IsNewerThan, run_total, committed_stays_out}
use leto_rs.Tests.Pool.{TestTx, env, tx, two, two-IsValid, program}

-- Server 1 leads round 1 with two transactions in its pool.
abbrev leading : RrBatcher TestTx ℕ
leading = record {
  my_id = 1;
  current_leader = 1;
  current_round = 1;
  proposed = false;
  outgoing = [];
  open_channel = true;
  pool = two;
}

abbrev events : List (Event TestTx)
events =
    tick
    ∷ tick
    ∷ incoming_tx (some (tx 2 1, 2000))
    ∷ incoming_consensus (some (new_round 1 2))
    ∷ incoming_consensus (some (new_round 0 3))
    ∷ []

steps : Unit {0}
unfolding program ready propose make_and_propose try_propose on_tx on_consensus turn run
steps = tt

abbrev all_open : All IsOpen events
all_open = (tt, (tt, (tt, (tt, (tt, tt)))))

abbrev result : RrBatcher TestTx ℕ
result = (run_total env events leading two-IsValid refl all_open).0

abbrev ran : run env leading events ≡ running result
ran = (run_total env events leading two-IsValid refl all_open).1

-- The second tick sends nothing; the new round 2 is won with enough bytes.
sealed : Run (RrBatcher TestTx ℕ) → List (List TestTx)
sealed (running b) = b.outgoing
sealed _ = []

sent_twice : sealed (run env leading events) ≡ (tx 1 5 ∷ tx 1 7 ∷ []) ∷ (tx 2 1 ∷ []) ∷ []
unfolding steps sealed
sent_twice = refl

batches_bounded_example : length result.outgoing + quota result ≤ 2
batches_bounded_example = batches_bounded env events leading result ran

run_total_example :
    (c : RrBatcher TestTx ℕ) × (run env leading events ≡ running c) × IsValid env c.pool
run_total_example = run_total env events leading two-IsValid refl all_open

abbrev commit_five : Event TestTx
commit_five = incoming_consensus (some (committed_batch (tx 1 5 ∷ []) 1))

abbrev committed : RrBatcher TestTx ℕ
committed = record leading {
  pool = record two {
    mineable = ((1, 7), (tx 1 7, 20)) ∷ [];
    mineable_bytes = 20;
    inflight = [];
    inflight_by_round = [];
    high_committed_nonce = (1, 5) ∷ [];
  };
}

committed_stays_out_example :
    (batches : List (List TestTx)) × (((tx 1 7 ∷ []) ∷ []) ≡ [] ++ batches)
    × All (IsNewerThan env (tx 1 5)) batches
unfolding steps
committed_stays_out_example =
    committed_stays_out env (tx 1 5 ∷ []) 1 (tick ∷ []) leading committed
      (record committed {
        proposed = true;
        outgoing = (tx 1 7 ∷ []) ∷ [];
        pool = (make_batch env committed.pool 1).0;
      })
      (tx 1 5) two-IsValid refl (inl refl) refl
