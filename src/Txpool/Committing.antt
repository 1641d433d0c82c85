-- ===== src/Txpool/Committing.antt =====
-- consensus/src/server/tx_pool.rs: `commit`.
use leto_rs.Prelude.{
  ◌>>=◌, ℕ, ◌≡◌, refl, true, false, ◌&&◌, Option, none, some, List, [], ◌∷◌, arith, ltb, nat_eq,
  pair_eq, pair_beq, pair_beq_iff, nat_beq, nat_beq_iff, if◌then◌else◌, Map, lookup, is_some,
  set_contains, set_insert, lookup-insert, lookup-remove, contains-set_insert, Option-cases, inl,
  inr,
}
use leto_rs.Txpool.OrderedMap.{TxKey, IsSorted-remove, within, range, contains-range}
use leto_rs.Txpool.Sizes.{discount-total}
use leto_rs.Txpool.Invariant.{IsValidBut, IsValid, in_round, contains-unindex}
use leto_rs.Txpool.{
  Env, Txpool, InflightEntry, high, set_at, tx_key, commit_tx, commit_txs, touched, drop_mineable,
  drop_stale, sweep, close_round, commit, unindex_entry,
}

module _ {Tx T : Type 0} (env : Env Tx T) where
  open env use {client_id, nonce}

  contains-unindex_entry :
      (k j : TxKey) (r : ℕ) (o : Option (InflightEntry Tx)) (index : Map ℕ (List TxKey))
      → set_contains k (set_at r (unindex_entry o j index))
        ≡ (if in_round r o && pair_beq j k then false else set_contains k (set_at r index))
  unfolding unindex_entry
  contains-unindex_entry k j r none index = refl
  contains-unindex_entry k j r (some e) index = contains-unindex k j r e.round index

  -- A committed nonce is at most the mark of its client, and no mark falls.
  pub high-commit_tx :
      (p : Txpool Tx T) (tx : Tx) (c : ℕ)
      → high (commit_tx env p tx) c ≡ (
          if nat_beq (client_id tx) c
          then (if ltb (high p c) (nonce tx) then nonce tx else high p c)
          else high p c)
  unfolding commit_tx
  high-commit_tx p tx c = ground (
    arith,
    nat_beq_iff (client_id tx) c,
    lookup-insert c (client_id tx)
        (if ltb (high p (client_id tx)) (nonce tx) then nonce tx else high p (client_id tx))
        p.high_committed_nonce,
  )

  pub commit_tx-IsValidBut :
      (cs : List ℕ) (p : Txpool Tx T) (tx : Tx)
      → IsValidBut env cs [] p
      → IsValidBut env (set_insert (client_id tx) cs) [] (commit_tx env p tx)
  unfolding commit_tx
  commit_tx-IsValidBut cs p tx v = record {
    sorted = IsSorted-remove key p.mineable v.sorted;
    bytes = discount-total key p.mineable p.mineable_bytes v.sorted v.bytes;
    disjoint = λ k.
        ground
          (arith, v.disjoint k, lookup-remove k key p.mineable, lookup-remove k key p.inflight);
    fresh = λ k. ground (
      arith,
      v.fresh k,
      lookup-remove k key p.mineable,
      high-commit_tx p tx k.0,
      contains-set_insert k.0 (client_id tx) cs,
    );
    indexed = λ k r. ground (
      arith,
      v.indexed k r,
      pair_beq_iff key k,
      contains-unindex_entry k key r (lookup key p.inflight) p.inflight_by_round,
      lookup-remove k key p.inflight,
    );
    mineable_keyed = λ k tx' size' h.
        ground (arith, v.mineable_keyed k tx' size', lookup-remove k key p.mineable);
    inflight_keyed = λ k e h. ground (arith, v.inflight_keyed k e, lookup-remove k key p.inflight);
  }
    where
      key : TxKey
      key = tx_key env tx

  -- Every client of the list has a mark, so that no `unwrap` panics.
  abbrev pub AllMarked : List ℕ → Txpool Tx T → Type 0
  AllMarked cs p =
      (c : ℕ) → set_contains c cs ≡ true → is_some (lookup c p.high_committed_nonce) ≡ true

  commit_tx-AllMarked :
      (cs : List ℕ) (p : Txpool Tx T) (tx : Tx)
      → AllMarked cs p
      → AllMarked (set_insert (client_id tx) cs) (commit_tx env p tx)
  unfolding commit_tx
  commit_tx-AllMarked cs p tx h c m = ground (
    arith,
    h c,
    nat_beq_iff (client_id tx) c,
    contains-set_insert c (client_id tx) cs,
    lookup-insert c (client_id tx)
        (if ltb (high p (client_id tx)) (nonce tx) then nonce tx else high p (client_id tx))
        p.high_committed_nonce,
  )

  pub commit_txs-IsValidBut :
      (cs : List ℕ) (p : Txpool Tx T) (txs : List Tx)
      → IsValidBut env cs [] p × AllMarked cs p
      → IsValidBut env (touched env cs txs) [] (commit_txs env p txs)
        × AllMarked (touched env cs txs) (commit_txs env p txs)
  unfolding commit_txs touched
  commit_txs-IsValidBut cs p [] v = v
  commit_txs-IsValidBut cs p (tx ∷ txs) v =
      commit_txs-IsValidBut (set_insert (client_id tx) cs) (commit_tx env p tx) txs
        (commit_tx-IsValidBut cs p tx v.0, commit_tx-AllMarked cs p tx v.1)

  -- `q` has the mineable entries of `p` but those under `ks`, and all else.
  pub record Dropped (ks : List TxKey) (p q : Txpool Tx T) : Type 0 where
    pub left :
        (k : TxKey)
        → lookup k q.mineable ≡ (if set_contains k ks then none else lookup k p.mineable)
    pub same_inflight : q.inflight ≡ p.inflight
    pub same_index : q.inflight_by_round ≡ p.inflight_by_round
    pub same_high : q.high_committed_nonce ≡ p.high_committed_nonce
    pub same_size : q.batch_size ≡ p.batch_size
    pub same_timer : q.timer ≡ p.timer

  pub drop_stale-Dropped : (p : Txpool Tx T) (ks : List TxKey) → Dropped ks p (drop_stale env p ks)
  unfolding drop_stale set_contains drop_mineable
  drop_stale-Dropped p [] = record {
    left = λ k. refl;
    same_inflight = refl;
    same_index = refl;
    same_high = refl;
    same_size = refl;
    same_timer = refl;
  }
  drop_stale-Dropped p (j ∷ ks) =
      let d = drop_stale-Dropped (drop_mineable env p j) ks in
      record {
        left = λ k. ground (arith, d.left k, lookup-remove k j p.mineable);
        same_inflight = d.same_inflight;
        same_index = d.same_index;
        same_high = d.same_high;
        same_size = d.same_size;
        same_timer = d.same_timer;
      }

  drop_mineable-IsValidBut :
      (cs : List ℕ) (p : Txpool Tx T) (j : TxKey)
      → IsValidBut env cs [] p
      → IsValidBut env cs [] (drop_mineable env p j)
  unfolding drop_mineable
  drop_mineable-IsValidBut cs p j v = record {
    sorted = IsSorted-remove j p.mineable v.sorted;
    bytes = discount-total j p.mineable p.mineable_bytes v.sorted v.bytes;
    disjoint = λ k. ground (arith, v.disjoint k, lookup-remove k j p.mineable);
    fresh = λ k. ground (arith, v.fresh k, lookup-remove k j p.mineable);
    indexed = v.indexed;
    mineable_keyed =
        λ k tx size h. ground (arith, v.mineable_keyed k tx size, lookup-remove k j p.mineable);
    inflight_keyed = v.inflight_keyed;
  }

  pub drop_stale-IsValidBut :
      (cs : List ℕ) (p : Txpool Tx T) (ks : List TxKey)
      → IsValidBut env cs [] p
      → IsValidBut env cs [] (drop_stale env p ks)
  unfolding drop_stale
  drop_stale-IsValidBut cs p [] v = v
  drop_stale-IsValidBut cs p (j ∷ ks) v =
      drop_stale-IsValidBut cs (drop_mineable env p j) ks (drop_mineable-IsValidBut cs p j v)

  -- After the sweep of a client none of its mineable nonces is committed.
  swept-IsValidBut :
      (c hi : ℕ) (cs : List ℕ) (p : Txpool Tx T)
      → lookup c p.high_committed_nonce ≡ some hi
      → IsValidBut env (c ∷ cs) [] p
      → IsValidBut env cs [] (drop_stale env p (range (c, 0) (c, hi) p.mineable))
  unfolding set_contains within
  swept-IsValidBut c hi cs p h v =
      let ks = range (c, 0) (c, hi) p.mineable in
      let w = drop_stale-IsValidBut (c ∷ cs) p ks v in
      let d = drop_stale-Dropped p ks in
      record {
        sorted = w.sorted;
        bytes = w.bytes;
        disjoint = w.disjoint;
        fresh = λ k. ground (
          arith,
          w.fresh k,
          d.left k,
          d.same_high,
          h,
          contains-range k (c, 0) (c, hi) p.mineable,
        );
        indexed = w.indexed;
        mineable_keyed = w.mineable_keyed;
        inflight_keyed = w.inflight_keyed;
      }

  sweep-IsValid :
      (cs : List ℕ) (p : Txpool Tx T)
      → IsValidBut env cs [] p
      → AllMarked cs p
      → (q : Txpool Tx T) × (sweep env p cs ≡ some q) × IsValid env q
  unfolding sweep
  sweep-IsValid [] p v m = (p, refl, v)
  sweep-IsValid (c ∷ cs) p v m = elim (Option-cases (lookup c p.high_committed_nonce)) [
    | inl e ↦ absurd (unmarked e)
    | inr (hi, e) ↦
        let r = drop_stale env p (range (c, 0) (c, hi) p.mineable) in
        let d = drop_stale-Dropped p (range (c, 0) (c, hi) p.mineable) in
        let (q, run, w) = sweep-IsValid cs r (swept-IsValidBut c hi cs p e v) (kept r d) in
        (q, rw (e, ◌>>=◌) run, w)
  ]
    where
      unmarked : lookup c p.high_committed_nonce ≡ none → ⊥
      unmarked e = unfold set_contains in ground (arith, m c, nat_beq_iff c c)

      kept : (r : Txpool Tx T) {ks : List TxKey} → Dropped ks p r → AllMarked cs r
      kept r d k h = unfold set_contains in rw d.same_high (ground (arith, m k))

  pub close_round-IsValid :
      (p : Txpool Tx T) (round : ℕ) → IsValid env p → IsValid env (close_round env p round)
  unfolding close_round set_contains
  close_round-IsValid p round v = go (lookup round p.inflight_by_round) refl
    where
      go :
          (o : Option (List TxKey))
          → lookup round p.inflight_by_round ≡ o
          → IsValid env (close_round env p round)
      go none e = rw (e, close_round) v
      go (some (k ∷ ks)) e = rw (e, close_round) v
      go (some []) e =
          rw (e, close_round)
            (record {
              sorted = v.sorted;
              bytes = v.bytes;
              disjoint = v.disjoint;
              fresh = v.fresh;
              indexed = λ k r. ground (
                arith,
                e,
                v.indexed k r,
                nat_beq_iff round r,
                lookup-remove r round p.inflight_by_round,
              );
              mineable_keyed = v.mineable_keyed;
              inflight_keyed = v.inflight_keyed;
            })

  -- `commit` never panics, and keeps the invariant.
  pub commit-IsValid :
      (p : Txpool Tx T) (batch : List Tx) (round : ℕ)
      → IsValid env p
      → (q : Txpool Tx T) × (commit env p batch round ≡ some q) × IsValid env q
  unfolding commit
  commit-IsValid p batch round v =
      let (w, m) = commit_txs-IsValidBut [] p batch (v, unfold set_contains in λ c h. cc) in
      let (q, run, u) = sweep-IsValid (touched env [] batch) (commit_txs env p batch) w m in
      (close_round env q round, rw (run, ◌>>=◌), close_round-IsValid q round u)
