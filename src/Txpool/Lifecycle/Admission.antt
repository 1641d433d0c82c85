-- ===== src/Txpool/Lifecycle/Admission.antt =====
-- consensus/src/server/tx_pool.rs: `add_tx` and `admit_proposal` as transitions of each transaction.
use leto_rs.Prelude.{
  ℕ, ◌≤◌, ◌≡◌, refl, ◌∙◌, Bool, true, false, ◌||◌, List, [], ◌∷◌, arith, leb, nat_eq, if◌then◌else◌,
  lookup, pair_beq, pair_beq_iff, pair_eq, lookup-insert, lookup-remove,
}
use leto_rs.Txpool.OrderedMap.{TxKey, lookup-insert_ordered}
use leto_rs.Txpool.Lifecycle.{TxState, unknown, state, on_add, on_admit, has_key}
use leto_rs.Txpool.{
  Env, Txpool, high, tx_key, open_round, add_tx, admitted_size, admit_tx, admit_txs, admit_proposal,
}

module _ {Tx T : Type 0} (env : Env Tx T) where
  -- `add_tx` makes an unknown transaction mineable, and changes the state of no other; one that is
  -- in flight or replayed stays so.
  pub state-add_tx :
      (p : Txpool Tx T) (tx : Tx) (size : ℕ) (k : TxKey)
      → state (add_tx env p tx size) k
        ≡ (if pair_beq (tx_key env tx) k then on_add (state p k) else state p k)
  unfolding add_tx
  state-add_tx p tx size k = ground (
    arith,
    pair_beq_iff (tx_key env tx) k,
    lookup-insert_ordered k (tx_key env tx) (tx, size) p.mineable,
  )

  state-admit_tx :
      (p : Txpool Tx T) (round : ℕ) (tx : Tx) (k : TxKey)
      → state (admit_tx env p round tx) k
        ≡ (if pair_beq (tx_key env tx) k then on_admit round (state p k) else state p k)
  unfolding admit_tx
  state-admit_tx p round tx k = ground (
    arith,
    pair_beq_iff (tx_key env tx) k,
    lookup-remove k (tx_key env tx) p.mineable,
    lookup-insert k (tx_key env tx)
        (record {
          tx = tx;
          size = admitted_size env tx (lookup (tx_key env tx) p.mineable);
          round = round;
        })
        p.inflight,
  )

  on_admit_twice : (r : ℕ) (s : TxState) → on_admit r (on_admit r s) ≡ on_admit r s
  on_admit_twice r unknown = refl
  on_admit_twice r _ = refl

  state-admit_txs :
      (p : Txpool Tx T) (round : ℕ) (batch : List Tx) (k : TxKey)
      → state (admit_txs env p round batch) k
        ≡ (if has_key env k batch then on_admit round (state p k) else state p k)
  unfolding admit_txs
  state-admit_txs p round [] k = refl
  state-admit_txs p round (tx ∷ txs) k =
      rw (state-admit_txs (admit_tx env p round tx) round txs k, state-admit_tx p round tx k)
        (choose (pair_beq (tx_key env tx) k) (has_key env k txs) (state p k))
    where
      choose :
          (a b : Bool) (s : TxState)
          → (if b
              then on_admit round (if a then on_admit round s else s)
              else if a
              then on_admit round s
              else s)
            ≡ (if a || b then on_admit round s else s)
      choose true true s = on_admit_twice round s
      choose true false s = refl
      choose false b s = refl

  -- `admit_proposal` puts every transaction of the batch that was unknown or mineable in flight at
  -- the round, and changes the state of no other.
  pub state-admit_proposal :
      (p : Txpool Tx T) (batch : List Tx) (round : ℕ) (k : TxKey)
      → state (admit_proposal env p batch round) k
        ≡ (if has_key env k batch then on_admit round (state p k) else state p k)
  unfolding admit_proposal open_round
  state-admit_proposal p batch round k = state-admit_txs (open_round p round) round batch k

  stale_stays_tx :
      (p : Txpool Tx T) (round : ℕ) (tx : Tx) (k : TxKey)
      → leb k.1 (high p k.0) ≡ true
      → (lookup k (admit_tx env p round tx).inflight ≡ lookup k p.inflight)
        × (leb k.1 (high (admit_tx env p round tx) k.0) ≡ true)
  unfolding admit_tx
  stale_stays_tx p round tx k h = ground (
    arith,
    pair_beq_iff (tx_key env tx) k,
    lookup-insert k (tx_key env tx)
        (record {
          tx = tx;
          size = admitted_size env tx (lookup (tx_key env tx) p.mineable);
          round = round;
        })
        p.inflight,
  )

  stale_stays_txs :
      (p : Txpool Tx T) (round : ℕ) (batch : List Tx) (k : TxKey)
      → leb k.1 (high p k.0) ≡ true
      → lookup k (admit_txs env p round batch).inflight ≡ lookup k p.inflight
  unfolding admit_txs
  stale_stays_txs p round [] k h = refl
  stale_stays_txs p round (tx ∷ txs) k h =
      let (e, g) = stale_stays_tx p round tx k h in
      stale_stays_txs (admit_tx env p round tx) round txs k g ∙ e

  -- `admit_proposal` leaves an entry in flight whose nonce is at most the mark as it is: it does not
  -- collect it.
  pub stale_stays :
      (p : Txpool Tx T) (batch : List Tx) (round : ℕ) (k : TxKey)
      → k.1 ≤ high p k.0
      → lookup k (admit_proposal env p batch round).inflight ≡ lookup k p.inflight
  unfolding admit_proposal open_round
  stale_stays p batch round k h = stale_stays_txs (open_round p round) round batch k (ground arith)
