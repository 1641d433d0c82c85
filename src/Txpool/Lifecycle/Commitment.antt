-- ===== src/Txpool/Lifecycle/Commitment.antt =====
-- consensus/src/server/tx_pool.rs: `commit` as transitions of each transaction.
use leto_rs.Prelude.{
  ◌>>=◌, eq_of_some, ℕ, ◌≤◌, ◌≡◌, refl, ◌∙◌, ap, false, some, List, [], ◌∷◌, arith, leb, nat_eq,
  if◌then◌else◌, Option-cases, inl, inr, lookup, pair_eq, lookup-remove,
}
use leto_rs.Txpool.OrderedMap.{TxKey, range, within, contains-range}
use leto_rs.Txpool.Committing.{drop_stale-Dropped, high-commit_tx}
use leto_rs.Txpool.Lifecycle.{replayed, state, mark_after}
use leto_rs.Txpool.{
  Env, Txpool, high, tx_key, commit_tx, commit_txs, touched, drop_stale, sweep, close_round, commit,
}

module _ {Tx T : Type 0} (env : Env Tx T) where
  open env use {client_id, nonce}

  -- Where the nonce is above the mark of `q`, the two pools hold the same.
  record Agree (p q : Txpool Tx T) : Type 0 where
    marks : (c : ℕ) → high p c ≤ high q c
    waiting : (k : TxKey) → leb k.1 (high q k.0) ≡ false → lookup k q.mineable ≡ lookup k p.mineable
    flying : (k : TxKey) → leb k.1 (high q k.0) ≡ false → lookup k q.inflight ≡ lookup k p.inflight

  Agree-refl : (p : Txpool Tx T) → Agree p p
  Agree-refl p = record { marks = λ c. omega arith; waiting = λ k h. refl; flying = λ k h. refl }

  Agree-trans : (p q s : Txpool Tx T) → Agree p q → Agree q s → Agree p s
  Agree-trans p q s a b = record {
    marks = λ c. omega (arith, a.marks c, b.marks c);
    waiting = λ k h. b.waiting k h ∙ a.waiting k (ground (arith, b.marks k.0));
    flying = λ k h. b.flying k h ∙ a.flying k (ground (arith, b.marks k.0));
  }

  commit_tx-Agree : (p : Txpool Tx T) (tx : Tx) → Agree p (commit_tx env p tx)
  commit_tx-Agree p tx = record {
    marks = λ c. ground (arith, high-commit_tx env p tx c);
    waiting = λ k h.
        unfold commit_tx in
        ground (arith, high-commit_tx env p tx k.0, lookup-remove k (tx_key env tx) p.mineable);
    flying = λ k h.
        unfold commit_tx in
        ground (arith, high-commit_tx env p tx k.0, lookup-remove k (tx_key env tx) p.inflight);
  }

  commit_txs-Agree : (p : Txpool Tx T) (txs : List Tx) → Agree p (commit_txs env p txs)
  unfolding commit_txs
  commit_txs-Agree p [] = Agree-refl p
  commit_txs-Agree p (tx ∷ txs) =
      let q = commit_tx env p tx in
      Agree-trans p q _ (commit_tx-Agree p tx) (commit_txs-Agree q txs)

  high-commit_txs :
      (p : Txpool Tx T) (txs : List Tx) (c : ℕ)
      → high (commit_txs env p txs) c ≡ mark_after env c (high p c) txs
  unfolding commit_txs
  high-commit_txs p [] c = refl
  high-commit_txs p (tx ∷ txs) c =
      high-commit_txs (commit_tx env p tx) txs c
      ∙ ap (λ m. mark_after env c m txs) (high-commit_tx env p tx c)

  swept-Agree :
      (p : Txpool Tx T) (c hi : ℕ)
      → lookup c p.high_committed_nonce ≡ some hi
      → Agree p (drop_stale env p (range (c, 0) (c, hi) p.mineable))
  unfolding within
  swept-Agree p c hi e =
      let d = drop_stale-Dropped env p (range (c, 0) (c, hi) p.mineable) in
      record {
        marks = λ a. ground (arith, d.same_high);
        waiting = λ k h.
            ground (arith, e, d.left k, d.same_high, contains-range k (c, 0) (c, hi) p.mineable);
        flying = λ k h. rw d.same_inflight;
      }

  abbrev SameMarks : Txpool Tx T → Txpool Tx T → Type 0
  SameMarks p q = q.high_committed_nonce ≡ p.high_committed_nonce

  sweep-Agree :
      (cs : List ℕ) (p q : Txpool Tx T) → sweep env p cs ≡ some q → Agree p q × SameMarks p q
  unfolding sweep
  sweep-Agree [] p q e = rw (eq_of_some p q e) (Agree-refl q, refl)
  sweep-Agree (c ∷ cs) p q e = elim (Option-cases (lookup c p.high_committed_nonce)) [
    | inl h ↦ cc (rw (h, ◌>>=◌) at e)
    | inr (hi, h) ↦
        let ks = range (c, 0) (c, hi) p.mineable in
        let r = drop_stale env p ks in
        let (a, m) = sweep-Agree cs r q (rw (h, ◌>>=◌) at e) in
        (Agree-trans p r q (swept-Agree p c hi h) a, m ∙ (drop_stale-Dropped env p ks).same_high)
  ]

  close_round-Agree :
      (p : Txpool Tx T) (round : ℕ)
      → Agree p (close_round env p round) × SameMarks p (close_round env p round)
  unfolding close_round
  close_round-Agree p round = (
    record {
      marks = λ c. ground arith;
      waiting = λ k h. ground arith;
      flying = λ k h. ground arith;
    },
    ground arith,
  )

  commit-Agree :
      (p : Txpool Tx T) (batch : List Tx) (round : ℕ) (q : Txpool Tx T)
      → commit env p batch round ≡ some q
      → Agree p q × SameMarks (commit_txs env p batch) q
  unfolding commit
  commit-Agree p batch round q e =
      let r = commit_txs env p batch in
      let cs = touched env [] batch in
      elim (Option-cases (sweep env r cs)) [
        | inl h ↦ cc (rw (h, ◌>>=◌) at e)
        | inr (s, h) ↦
            let closed : close_round env s round ≡ q = cc (rw (h, ◌>>=◌) at e) in
            let (a, m) = sweep-Agree cs r s h in
            let (b, n) = close_round-Agree s round in
            rw (← closed)
              (Agree-trans p r _ (commit_txs-Agree p batch) (Agree-trans r s _ a b), n ∙ m)
      ]

  slot_mark :
      (q p : Txpool Tx T) (k : TxKey)
      → Agree p q
      → state q k ≡ (if leb k.1 (high q k.0) then replayed else state p k)
  slot_mark q p k a = ground (arith, a.marks k.0, a.waiting k, a.flying k)

  -- Where `commit` returns, it makes replayed exactly the transactions whose nonce is at most the
  -- greatest one that is committed of the client, and changes the state of no other.
  pub state-commit :
      (p : Txpool Tx T) (batch : List Tx) (round : ℕ) (q : Txpool Tx T) (k : TxKey)
      → commit env p batch round ≡ some q
      → state q k
        ≡ (if leb k.1 (mark_after env k.0 (high p k.0) batch) then replayed else state p k)
  state-commit p batch round q k e =
      let (a, m) = commit-Agree p batch round q e in
      ground (arith, m, slot_mark q p k a, high-commit_txs p batch k.0)
