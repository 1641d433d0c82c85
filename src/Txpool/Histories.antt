-- ===== src/Txpool/Histories.antt =====
-- consensus/src/server/tx_pool.rs: any sequence of calls of the pool's operations.
use leto_rs.Prelude.{
  eq_of_some, ◌>>=◌, ℕ, ◌≤◌, ◌≡◌, refl, true, Option, some, List, [], ◌∷◌, arith, ◌⊎◌, Option-cases,
  inl, inr, pair_eq,
}
use leto_rs.Txpool.OrderedMap.{TxKey}
use leto_rs.Txpool.Invariant.{
  IsValid, new-IsValid, add_tx-IsValid, admit_tx-IsValid, open_round-IsValidBut,
}
use leto_rs.Txpool.Filling.{make_batch-IsValid}
use leto_rs.Txpool.Committing.{commit-IsValid}
use leto_rs.Txpool.Rollback.{rollback-IsValid}
use leto_rs.Txpool.Evolution.{
  Evolves, Evolves-refl, Evolves-trans, tracked, add_tx-Evolves, admit_proposal-Evolves,
  make_batch-Evolves, commit-Evolves, rollback-Evolves,
}
use leto_rs.Txpool.{
  Env, Txpool, new, high, add_tx, admit_txs, admit_tx, admit_proposal, make_batch, reset_timer,
  commit, rollback,
}

-- The calls that the batcher makes.
pub data Op (Tx : Type 0) : Type 0 where
  add : Tx → ℕ → Op Tx
  admit : List Tx → ℕ → Op Tx
  make : ℕ → Op Tx
  committed : List Tx → ℕ → Op Tx
  rolled_back : List ℕ → Op Tx
  timer_reset : Op Tx

module _ {Tx T : Type 0} (env : Env Tx T) where
  unfoldable pub step : Txpool Tx T → Op Tx → Option (Txpool Tx T)
  step p (add tx size) = some (add_tx env p tx size)
  step p (admit batch round) = some (admit_proposal env p batch round)
  step p (make round) = some (make_batch env p round).0
  step p (committed batch round) = commit env p batch round
  step p (rolled_back rounds) = some (rollback env p rounds)
  step p timer_reset = some (reset_timer env p)

  unfoldable pub run : Txpool Tx T → List (Op Tx) → Option (Txpool Tx T)
  run p [] = some p
  run p (op ∷ ops) = do q ← step p op; run q ops

  admit_txs-IsValid :
      (p : Txpool Tx T) (round : ℕ) (txs : List Tx)
      → IsValid env p
      → IsValid env (admit_txs env p round txs)
  unfolding admit_txs
  admit_txs-IsValid p round [] v = v
  admit_txs-IsValid p round (tx ∷ txs) v =
      admit_txs-IsValid (admit_tx env p round tx) round txs (admit_tx-IsValid env p round tx v)

  pub admit_proposal-IsValid :
      (p : Txpool Tx T) (batch : List Tx) (round : ℕ)
      → IsValid env p
      → IsValid env (admit_proposal env p batch round)
  unfolding admit_proposal
  admit_proposal-IsValid p batch round v =
      admit_txs-IsValid _ round batch (open_round-IsValidBut env [] [] p round v)

  pub step-IsValid :
      (p : Txpool Tx T) (op : Op Tx)
      → IsValid env p
      → (q : Txpool Tx T) × (step p op ≡ some q) × IsValid env q
  unfolding step reset_timer
  step-IsValid p (add tx size) v = (_, refl, add_tx-IsValid env p tx size v)
  step-IsValid p (admit batch round) v = (_, refl, admit_proposal-IsValid p batch round v)
  step-IsValid p (make round) v = (_, refl, make_batch-IsValid env p round v)
  step-IsValid p (committed batch round) v = commit-IsValid env p batch round v
  step-IsValid p (rolled_back rounds) v = (_, refl, rollback-IsValid env rounds p v)
  step-IsValid p timer_reset v = (
    _,
    refl,
    record {
      sorted = v.sorted;
      bytes = v.bytes;
      disjoint = v.disjoint;
      fresh = v.fresh;
      indexed = v.indexed;
      mineable_keyed = v.mineable_keyed;
      inflight_keyed = v.inflight_keyed;
    },
  )

  -- From a valid pool no sequence of calls panics, and the pool stays valid.
  pub run-IsValid :
      (ops : List (Op Tx)) (p : Txpool Tx T)
      → IsValid env p
      → (q : Txpool Tx T) × (run p ops ≡ some q) × IsValid env q
  unfolding run
  run-IsValid [] p v = (p, refl, v)
  run-IsValid (op ∷ ops) p v =
      let (q, e, w) = step-IsValid p op v in
      let (s, f, u) = run-IsValid ops q w in (s, rw (e, ◌>>=◌) f, u)

  -- Every history of a new pool runs without a panic into a valid pool.
  pub run-new-IsValid :
      (batch_size : ℕ) (timer : T) (ops : List (Op Tx))
      → (q : Txpool Tx T) × (run (new batch_size timer) ops ≡ some q) × IsValid env q
  run-new-IsValid batch_size timer ops = run-IsValid ops _ (new-IsValid env batch_size timer)

  step-Evolves : (p : Txpool Tx T) (op : Op Tx) (q : Txpool Tx T) → step p op ≡ some q → Evolves p q
  unfolding step reset_timer
  step-Evolves p (add tx size) q e = rw (← eq_of_some _ q e) (add_tx-Evolves env p tx size)
  step-Evolves p (admit batch round) q e =
      rw (← eq_of_some _ q e) (admit_proposal-Evolves env p batch round)
  step-Evolves p (make round) q e = rw (← eq_of_some _ q e) (make_batch-Evolves env p round)
  step-Evolves p (committed batch round) q e = commit-Evolves env p batch round q e
  step-Evolves p (rolled_back rounds) q e = rw (← eq_of_some _ q e) (rollback-Evolves env rounds p)
  step-Evolves p timer_reset q e =
      rw (← eq_of_some _ q e) (record { marks = λ c. omega arith; kept = λ k t h. t })

  pub run-Evolves : (ops : List (Op Tx)) (p q : Txpool Tx T) → run p ops ≡ some q → Evolves p q
  unfolding run
  run-Evolves [] p q e = rw (← eq_of_some _ q e) (Evolves-refl p)
  run-Evolves (op ∷ ops) p q e = elim (Option-cases (step p op)) [
    | inl h ↦ cc (rw (h, ◌>>=◌) at e)
    | inr (s, h) ↦
        Evolves-trans p s q (step-Evolves p op s h) (run-Evolves ops s q (rw (h, ◌>>=◌) at e))
  ]

  -- Over any history no client's mark falls, and a nonce of a client under which the pool holds a
  -- transaction, mineable or in flight, has one at the end too, which a later call may have put in the
  -- place of the first one, unless the nonce is then at most its client's mark.
  pub run_keeps_uncommitted :
      (ops : List (Op Tx)) (p q : Txpool Tx T) (k : TxKey)
      → run p ops ≡ some q
      → tracked k p ≡ true
      → (high p k.0 ≤ high q k.0) × ((tracked k q ≡ true) ⊎ (k.1 ≤ high q k.0))
  run_keeps_uncommitted ops p q k e t =
      let ev = run-Evolves ops p q e in (ev.marks k.0, ground (arith, ev.kept k t))
