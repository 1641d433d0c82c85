-- ===== src/Txpool/Filling.antt =====
-- consensus/src/server/tx_pool.rs: `make_batch`.
use leto_rs.Prelude.{
  ℕ, ◌+◌, ◌≡◌, refl, some, [], ◌∷◌, arith, ltb, nat_eq, pair_eq, pair_beq, pair_beq_iff,
  if◌then◌else◌, Map, lookup, set_contains, lookup-insert, wrapping_add, wrapping_sub_count,
  Bool-cases, inl, inr,
}
use leto_rs.Txpool.OrderedMap.{TxKey, AllAbove, IsSorted, lookup_above}
use leto_rs.Txpool.Sizes.{total}
use leto_rs.Txpool.Invariant.{IsValid, contains-index_key, open_round-IsValidBut}
use leto_rs.Txpool.{Env, Txpool, InflightEntry, open_round, promote, fill, make_batch}

module _ {Tx T : Type 0} (env : Env Tx T) where
  pub promote-IsValid :
      (p : Txpool Tx T) (round : ℕ) (key : TxKey) (tx : Tx) (size : ℕ) (rest : Map TxKey (Tx × ℕ))
      → p.mineable ≡ (key, (tx, size)) ∷ rest
      → IsValid env p
      → IsValid env (promote env p round key tx size rest)
  unfolding promote set_contains lookup
  promote-IsValid p round key tx size rest h v = record {
    sorted = s.1;
    bytes = ground (arith, v.bytes, wrapping_sub_count (size + total rest) (total rest) size);
    disjoint = λ k. ground (
      arith,
      v.disjoint k,
      pair_beq_iff key k,
      lookup_above key rest s.0,
      lookup-insert k key entry p.inflight,
    );
    fresh = λ k. ground (arith, v.fresh k, pair_beq_iff key k, lookup_above key rest s.0);
    indexed = λ k r. ground (
      arith,
      v.indexed k r,
      v.disjoint k,
      first k,
      pair_beq_iff key k,
      contains-index_key k key r round p.inflight_by_round,
      lookup-insert k key entry p.inflight,
    );
    mineable_keyed = λ k tx' size' h. ground (
      arith,
      v.mineable_keyed k tx' size',
      pair_beq_iff key k,
      first k,
      lookup_above key rest s.0,
    );
    inflight_keyed = λ k e h. ground (
      arith,
      v.inflight_keyed k e,
      v.mineable_keyed key tx size,
      first key,
      pair_beq_iff key key,
      pair_beq_iff key k,
      lookup-insert k key entry p.inflight,
    );
  }
    where
      entry : InflightEntry Tx
      entry = record { tx = tx; size = size; round = round }

      first :
          (k : TxKey)
          → lookup k p.mineable ≡ (if pair_beq key k then some (tx, size) else lookup k rest)
      first k = rw h

      s : AllAbove key rest × IsSorted rest
      s = rw h at v.sorted

  fill-IsValid :
      (p : Txpool Tx T) (round batch_bytes : ℕ) (m : Map TxKey (Tx × ℕ))
      → p.mineable ≡ m
      → IsValid env p
      → IsValid env (fill env p round batch_bytes m).0
  unfolding fill
  fill-IsValid p round batch_bytes [] h v = v
  fill-IsValid p round batch_bytes ((key, (tx, size)) ∷ rest) h v =
      elim (Bool-cases (ltb batch_bytes p.batch_size)) [
        | inl more ↦ rw more (
            fill-IsValid (promote env p round key tx size rest) round
              (wrapping_add batch_bytes size) rest (promoted p)
              (promote-IsValid p round key tx size rest h v))
        | inr full ↦ rw full v
      ]
    where
      promoted : (p : Txpool Tx T) → (promote env p round key tx size rest).mineable ≡ rest
      promoted p = unfold promote in refl

  pub make_batch-IsValid :
      (p : Txpool Tx T) (round : ℕ) → IsValid env p → IsValid env (make_batch env p round).0
  unfolding make_batch open_round
  make_batch-IsValid p round v =
      let w =
        fill-IsValid (open_round p round) round 0 p.mineable refl
          (open_round-IsValidBut env [] [] p round v) in
      record {
        sorted = w.sorted;
        bytes = w.bytes;
        disjoint = w.disjoint;
        fresh = w.fresh;
        indexed = w.indexed;
        mineable_keyed = w.mineable_keyed;
        inflight_keyed = w.inflight_keyed;
      }
