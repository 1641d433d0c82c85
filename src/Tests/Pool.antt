-- ===== src/Tests/Pool.antt =====
-- consensus/src/server/tx_pool.rs: its unit tests, and the theorems on the pool at small pools.
use leto_rs.Prelude.{
  pair_eq, ℕ, ◌+◌, ◌≤◌, ◌<◌, ◌≡◌, refl, true, some, List, [], ◌∷◌, arith, lookup, insert, remove,
  set_contains, set_insert, set_remove, wrapping_add, wrapping_sub, inl, ◌⊎◌,
}
use leto_rs.Txpool.{
  Env, Txpool, InflightEntry, insert_ordered, range, new, high, add_tx, admit_proposal, make_batch,
  commit, rollback, discount, admitted_size, index_key, admit_tx, admit_txs, open_round, promote,
  fill, reset_timer, unindex, unindex_entry, commit_tx, commit_txs, touched, drop_mineable,
  drop_stale, sweep, close_round, requeue, rollback_key, rollback_keys, rollback_round,
}
use leto_rs.Txpool.OrderedMap.{within}
use leto_rs.Txpool.Invariant.{IsValid, new-IsValid, add_tx-IsValid}
use leto_rs.Txpool.Committing.{commit-IsValid}
use leto_rs.Txpool.Evolution.{tracked}
use leto_rs.Txpool.Histories.{
  Op, admit, make, rolled_back, step, run, run-new-IsValid, run-IsValid, run_keeps_uncommitted,
}
use leto_rs.Txpool.Payload.{never_proposed_again}
use leto_rs.Txpool.Lifecycle.{in_flight, replayed, state}
use leto_rs.Txpool.Lifecycle.Admission.{stale_stays, state-admit_proposal}
use leto_rs.Txpool.Lifecycle.Commitment.{state-commit}

pub record TestTx : Type 0 where
  pub client : ℕ
  pub nonce : ℕ
  pub payload : ℕ

abbrev pub env : Env TestTx ℕ
env = record {
  client_id = λ tx. tx.client;
  nonce = λ tx. tx.nonce;
  serialized_size = λ tx. some 10;
  reset = λ t. t + 1;
}

abbrev pub tx : ℕ → ℕ → TestTx
tx c n = record { client = c; nonce = n; payload = 0 }

abbrev pub pool : Txpool TestTx ℕ
pool = new 1000 0

unfoldable pub program : Unit {0}
unfolding lookup insert remove set_contains set_insert set_remove wrapping_add wrapping_sub
    insert_ordered range within new discount admitted_size index_key add_tx admit_tx admit_txs
    open_round admit_proposal promote fill reset_timer make_batch unindex unindex_entry commit_tx
    commit_txs touched drop_mineable drop_stale sweep close_round commit requeue rollback_key
    rollback_keys rollback_round rollback step run
program = tt

-- trace4_chain_switch_rollback
trace4 :
    (rollback env (make_batch env (add_tx env pool (tx 1 5) 10) 1).0 (1 ∷ [])).mineable_bytes ≡ 10
unfolding program
trace4 = refl

abbrev pub two : Txpool TestTx ℕ
two = add_tx env (add_tx env pool (tx 1 5) 10) (tx 1 7) 20

pub two-IsValid : IsValid env two
two-IsValid =
    add_tx-IsValid env _ (tx 1 7) 20 (add_tx-IsValid env pool (tx 1 5) 10 (new-IsValid env 1000 0))

abbrev batch : List TestTx
batch = tx 1 5 ∷ []

abbrev calls : List (Op TestTx)
calls = rolled_back (2 ∷ []) ∷ make 3 ∷ []

run-new-IsValid_example : (q : Txpool TestTx ℕ) × (run env pool calls ≡ some q) × IsValid env q
run-new-IsValid_example = run-new-IsValid env 1000 0 calls

run_keeps_uncommitted_example :
    (high two 1 ≤ high (run-IsValid env calls two two-IsValid).0 1)
    × ((tracked (1, 7) (run-IsValid env calls two two-IsValid).0 ≡ true)
        ⊎ (7 ≤ high (run-IsValid env calls two two-IsValid).0 1))
unfolding program
run_keeps_uncommitted_example =
    run_keeps_uncommitted env calls two (run-IsValid env calls two two-IsValid).0 (1, 7)
      (run-IsValid env calls two two-IsValid).1 refl

abbrev after : Txpool TestTx ℕ
after = (commit-IsValid env two batch 1 two-IsValid).0

after-IsValid : IsValid env after
after-IsValid = (commit-IsValid env two batch 1 two-IsValid).2

abbrev proposes : Txpool TestTx ℕ
proposes = record {
  mineable = ((1, 7), (tx 1 7, 20)) ∷ [];
  mineable_bytes = 20;
  inflight = [];
  inflight_by_round = (2, []) ∷ [];
  high_committed_nonce = (1, 5) ∷ [];
  batch_size = 1000;
  timer = 0;
}

committed_two : commit env two batch 1 ≡ some (record proposes { inflight_by_round = [] })
unfolding program
committed_two = refl

abbrev admit_other : List (Op TestTx)
admit_other = admit [] 2 ∷ []

never_proposed_again_example : 5 < 7
unfolding program
never_proposed_again_example =
    never_proposed_again env two (record proposes { inflight_by_round = [] }) proposes batch 1 2
      admit_other (tx 1 5) (tx 1 7) two-IsValid committed_two refl (inl refl) (inl refl) refl

state-admit_proposal_example : state (admit_proposal env two batch 4) (1, 5) ≡ in_flight 4
unfolding program
state-admit_proposal_example = state-admit_proposal env two batch 4 (1, 5)

state-commit_example : state (record proposes { inflight_by_round = [] }) (1, 5) ≡ replayed
unfolding program
state-commit_example = state-commit env two batch 1 _ (1, 5) committed_two

abbrev straggler : InflightEntry TestTx
straggler = record { tx = tx 1 5; size = 10; round = 2 }

abbrev lingering : Txpool TestTx ℕ
lingering = record pool {
  inflight = ((1, 5), straggler) ∷ [];
  inflight_by_round = (2, (1, 5) ∷ []) ∷ [];
  high_committed_nonce = (1, 7) ∷ [];
}

stale_stays_example : lookup (1, 5) (admit_proposal env lingering batch 4).inflight ≡ some straggler
unfolding program
stale_stays_example = stale_stays env lingering batch 4 (1, 5) (omega arith)
