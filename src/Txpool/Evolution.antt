-- ===== src/Txpool/Evolution.antt =====
-- consensus/src/server/tx_pool.rs: what every operation keeps, be it of a committed nonce or of a
-- transaction that is still to be committed.
use leto_rs.Prelude.{
  eq_of_some, ◌>>=◌, ℕ, ◌≤◌, ◌≡◌, refl, Bool, true, false, ◌||◌, Option, none, some, List, [], ◌∷◌,
  arith, ltb, leb, nat_eq, pair_eq, pair_beq, pair_beq_iff, if◌then◌else◌, Map, lookup,
  contains_key, lookup-insert, lookup-remove, Bool-cases, Option-cases, inl, inr, wrapping_add,
}
use leto_rs.Txpool.OrderedMap.{TxKey, within, range, contains-range, lookup-insert_ordered}
use leto_rs.Txpool.Committing.{drop_stale-Dropped, high-commit_tx}
use leto_rs.Txpool.{
  Env, Txpool, InflightEntry, high, tx_key, open_round, add_tx, admitted_size, admit_tx, admit_txs,
  admit_proposal, promote, fill, make_batch, commit_tx, commit_txs, touched, drop_stale, sweep,
  close_round, commit, requeue, rollback_key, rollback_keys, rollback_round, rollback,
}

module _ {Tx T : Type 0} where
  -- The pool holds a transaction under the key.
  abbrev pub tracked : TxKey → Txpool Tx T → Bool
  tracked k p = contains_key k p.mineable || contains_key k p.inflight

  -- No mark falls, and a transaction that is held is held until its nonce is at most the mark.
  pub record Evolves (p q : Txpool Tx T) : Type 0 where
    pub marks : (c : ℕ) → high p c ≤ high q c
    pub kept : (k : TxKey) → tracked k p ≡ true → leb k.1 (high q k.0) ≡ false → tracked k q ≡ true

  pub Evolves-refl : (p : Txpool Tx T) → Evolves p p
  Evolves-refl p = record { marks = λ c. omega arith; kept = λ k t h. t }

  pub Evolves-trans : (p q s : Txpool Tx T) → Evolves p q → Evolves q s → Evolves p s
  Evolves-trans p q s a b = record {
    marks = λ c. omega (arith, a.marks c, b.marks c);
    kept = λ k t h. b.kept k (a.kept k t (ground (arith, b.marks k.0))) h;
  }

module _ {Tx T : Type 0} (env : Env Tx T) where
  pub add_tx-Evolves : (p : Txpool Tx T) (tx : Tx) (size : ℕ) → Evolves p (add_tx env p tx size)
  unfolding add_tx
  add_tx-Evolves p tx size = record {
    marks = λ c. ground arith;
    kept = λ k t h. ground (arith, lookup-insert_ordered k (tx_key env tx) (tx, size) p.mineable);
  }

  admit_tx-Evolves : (p : Txpool Tx T) (round : ℕ) (tx : Tx) → Evolves p (admit_tx env p round tx)
  unfolding admit_tx
  admit_tx-Evolves p round tx = record {
    marks = λ c. ground arith;
    kept = λ k t h. ground (
      arith,
      lookup-remove k (tx_key env tx) p.mineable,
      lookup-insert k (tx_key env tx)
          (record {
            tx = tx;
            size = admitted_size env tx (lookup (tx_key env tx) p.mineable);
            round = round;
          })
          p.inflight,
    );
  }

  open_round-Evolves : (p : Txpool Tx T) (round : ℕ) → Evolves p (open_round p round)
  unfolding open_round
  open_round-Evolves p round = record { marks = λ c. omega arith; kept = λ k t h. t }

  admit_txs-Evolves :
      (p : Txpool Tx T) (round : ℕ) (txs : List Tx) → Evolves p (admit_txs env p round txs)
  unfolding admit_txs
  admit_txs-Evolves p round [] = Evolves-refl p
  admit_txs-Evolves p round (tx ∷ txs) =
      let q = admit_tx env p round tx in
      Evolves-trans p q _ (admit_tx-Evolves p round tx) (admit_txs-Evolves q round txs)

  pub admit_proposal-Evolves :
      (p : Txpool Tx T) (batch : List Tx) (round : ℕ) → Evolves p (admit_proposal env p batch round)
  unfolding admit_proposal
  admit_proposal-Evolves p batch round =
      let q = open_round p round in
      Evolves-trans p q _ (open_round-Evolves p round) (admit_txs-Evolves q round batch)

  promote-Evolves :
      (p : Txpool Tx T) (round : ℕ) (key : TxKey) (tx : Tx) (size : ℕ) (rest : Map TxKey (Tx × ℕ))
      → p.mineable ≡ (key, (tx, size)) ∷ rest
      → Evolves p (promote env p round key tx size rest)
  unfolding promote
  promote-Evolves p round key tx size rest e = record {
    marks = λ c. omega arith;
    kept = λ k t h. ground (
      arith,
      first k,
      lookup-insert k key (record { tx = tx; size = size; round = round }) p.inflight,
    );
  }
    where
      first :
          (k : TxKey)
          → lookup k p.mineable ≡ (if pair_beq key k then some (tx, size) else lookup k rest)
      first k = unfold lookup in rw e

  fill-Evolves :
      (p : Txpool Tx T) (round batch_bytes : ℕ) (m : Map TxKey (Tx × ℕ))
      → p.mineable ≡ m
      → Evolves p (fill env p round batch_bytes m).0
  unfolding fill
  fill-Evolves p round batch_bytes [] h = Evolves-refl p
  fill-Evolves p round batch_bytes ((key, (tx, size)) ∷ rest) h =
      elim (Bool-cases (ltb batch_bytes p.batch_size)) [
        | inl more ↦
            let q = promote env p round key tx size rest in
            rw more (
              Evolves-trans p q _ (promote-Evolves p round key tx size rest h) (
                fill-Evolves q round (wrapping_add batch_bytes size) rest (unfold promote in refl)))
        | inr full ↦ rw full (Evolves-refl p)
      ]

  pub make_batch-Evolves : (p : Txpool Tx T) (round : ℕ) → Evolves p (make_batch env p round).0
  unfolding make_batch open_round
  make_batch-Evolves p round =
      let e = fill-Evolves (open_round p round) round 0 p.mineable refl in
      record { marks = e.marks; kept = e.kept }

  commit_tx-Evolves : (p : Txpool Tx T) (tx : Tx) → Evolves p (commit_tx env p tx)
  commit_tx-Evolves p tx = record {
    marks = λ c. ground (arith, high-commit_tx env p tx c);
    kept = λ k t h.
        unfold commit_tx in
        ground (
          arith,
          high-commit_tx env p tx k.0,
          lookup-remove k (tx_key env tx) p.mineable,
          lookup-remove k (tx_key env tx) p.inflight,
        );
  }

  pub commit_txs-Evolves : (p : Txpool Tx T) (txs : List Tx) → Evolves p (commit_txs env p txs)
  unfolding commit_txs
  commit_txs-Evolves p [] = Evolves-refl p
  commit_txs-Evolves p (tx ∷ txs) =
      let q = commit_tx env p tx in
      Evolves-trans p q _ (commit_tx-Evolves p tx) (commit_txs-Evolves q txs)

  swept-Evolves :
      (p : Txpool Tx T) (c hi : ℕ)
      → lookup c p.high_committed_nonce ≡ some hi
      → Evolves p (drop_stale env p (range (c, 0) (c, hi) p.mineable))
  unfolding within
  swept-Evolves p c hi e =
      let d = drop_stale-Dropped env p (range (c, 0) (c, hi) p.mineable) in
      record {
        marks = λ a. ground (arith, d.same_high);
        kept = λ k t h. ground (
          arith,
          e,
          d.left k,
          d.same_high,
          d.same_inflight,
          contains-range k (c, 0) (c, hi) p.mineable,
        );
      }

  sweep-Evolves : (cs : List ℕ) (p q : Txpool Tx T) → sweep env p cs ≡ some q → Evolves p q
  unfolding sweep
  sweep-Evolves [] p q e = rw (eq_of_some p q e) (Evolves-refl q)
  sweep-Evolves (c ∷ cs) p q e = elim (Option-cases (lookup c p.high_committed_nonce)) [
    | inl h ↦ cc (rw (h, ◌>>=◌) at e)
    | inr (hi, h) ↦
        let r = drop_stale env p (range (c, 0) (c, hi) p.mineable) in
        Evolves-trans p r q (swept-Evolves p c hi h) (sweep-Evolves cs r q (rw (h, ◌>>=◌) at e))
  ]

  close_round-Evolves : (p : Txpool Tx T) (round : ℕ) → Evolves p (close_round env p round)
  unfolding close_round
  close_round-Evolves p round = record { marks = λ c. ground arith; kept = λ k t h. ground arith }

  -- The part of `commit` behind its first loop.
  pub commit_txs-Evolves-commit :
      (p : Txpool Tx T) (batch : List Tx) (round : ℕ) (q : Txpool Tx T)
      → commit env p batch round ≡ some q
      → Evolves (commit_txs env p batch) q
  unfolding commit
  commit_txs-Evolves-commit p batch round q e =
      let cs = touched env [] batch in
      let r = commit_txs env p batch in
      elim (Option-cases (sweep env r cs)) [
        | inl h ↦ cc (rw (h, ◌>>=◌) at e)
        | inr (s, h) ↦
            let closed : close_round env s round ≡ q = cc (rw (h, ◌>>=◌) at e) in
            rw (← closed)
              (Evolves-trans r s _ (sweep-Evolves cs r s h) (close_round-Evolves s round))
      ]

  pub commit-Evolves :
      (p : Txpool Tx T) (batch : List Tx) (round : ℕ) (q : Txpool Tx T)
      → commit env p batch round ≡ some q
      → Evolves p q
  commit-Evolves p batch round q e =
      Evolves-trans p _ q (commit_txs-Evolves p batch) (commit_txs-Evolves-commit p batch round q e)

  rollback_key-Evolves : (p : Txpool Tx T) (k : TxKey) → Evolves p (rollback_key env p k)
  unfolding rollback_key
  rollback_key-Evolves p k = record {
    marks = λ c. ground arith;
    kept = λ j t h. ground (
      arith,
      pair_beq_iff k j,
      lookup-remove j k p.inflight,
      back j (lookup k p.inflight) refl t,
    );
  }
    where
      back :
          (j : TxKey) (o : Option (InflightEntry Tx))
          → lookup k p.inflight ≡ o
          → tracked j p ≡ true
          → tracked j (requeue env p k o) ≡ true
      back j none e t = unfold requeue in t
      back j (some x) e t =
          unfold requeue in
          ground (
            arith,
            pair_beq_iff k j,
            lookup-remove j k p.inflight,
            lookup-insert_ordered j k (x.tx, x.size) p.mineable,
          )

  rollback_keys-Evolves : (ks : List TxKey) (p : Txpool Tx T) → Evolves p (rollback_keys env p ks)
  unfolding rollback_keys
  rollback_keys-Evolves [] p = Evolves-refl p
  rollback_keys-Evolves (k ∷ ks) p =
      let q = rollback_key env p k in
      Evolves-trans p q _ (rollback_key-Evolves p k) (rollback_keys-Evolves ks q)

  rollback_round-Evolves : (p : Txpool Tx T) (r : ℕ) → Evolves p (rollback_round env p r)
  unfolding rollback_round
  rollback_round-Evolves p r = elim (Option-cases (lookup r p.inflight_by_round)) [
    | inl e ↦ rw (e, rollback_round) (Evolves-refl p)
    | inr (ks, e) ↦
        let ev = rollback_keys-Evolves ks _ in
        rw (e, rollback_round) (record { marks = ev.marks; kept = ev.kept })
  ]

  pub rollback-Evolves : (rounds : List ℕ) (p : Txpool Tx T) → Evolves p (rollback env p rounds)
  unfolding rollback
  rollback-Evolves [] p = Evolves-refl p
  rollback-Evolves (r ∷ rounds) p =
      let q = rollback_round env p r in
      Evolves-trans p q _ (rollback_round-Evolves p r) (rollback-Evolves rounds q)
