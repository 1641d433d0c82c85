-- ===== src/Txpool/Rollback.antt =====
-- consensus/src/server/tx_pool.rs: `rollback`.
use leto_rs.Prelude.{
  ℕ, ◌%◌, ◌≡◌, refl, false, Option, none, some, List, [], ◌∷◌, arith, leb, nat_eq, pair_eq,
  pair_beq_iff, nat_beq_iff, lookup, remove, set_contains, lookup-remove, Bool-cases, Option-cases,
  inl, inr, usize_mod, wrapping_add, wrapping_add_count,
}
use leto_rs.Txpool.OrderedMap.{
  TxKey, IsSorted, IsSorted-insert, insert_ordered, lookup-insert_ordered,
}
use leto_rs.Txpool.Sizes.{total, total-insert}
use leto_rs.Txpool.Invariant.{IsValidBut, IsValid}
use leto_rs.Txpool.{
  Env, Txpool, InflightEntry, high, requeue, rollback_key, rollback_keys, rollback_round, rollback,
}

module _ {Tx T : Type 0} (env : Env Tx T) where
  requeue-total :
      (p : Txpool Tx T) (k : TxKey) (tx : Tx) (size : ℕ)
      → IsSorted p.mineable
      → lookup k p.mineable ≡ none
      → p.mineable_bytes ≡ total p.mineable % usize_mod
      → wrapping_add p.mineable_bytes size
        ≡ total (insert_ordered k (tx, size) p.mineable) % usize_mod
  requeue-total p k tx size s h e =
      ground
        (arith, total-insert k tx size p.mineable s, wrapping_add_count (total p.mineable) size)

  pub rollback_key-IsValidBut :
      (k : TxKey) (ks : List TxKey) (p : Txpool Tx T)
      → IsValidBut env [] (k ∷ ks) p
      → IsValidBut env [] ks (rollback_key env p k)
  unfolding rollback_key set_contains
  rollback_key-IsValidBut k ks p v = elim (Bool-cases (leb k.1 (high p k.0))) [
    | inl stale ↦ rw stale (record {
      sorted = v.sorted;
      bytes = v.bytes;
      disjoint = λ j. ground (arith, v.disjoint j, lookup-remove j k p.inflight);
      fresh = v.fresh;
      indexed = λ j r. ground (arith, v.indexed j r, lookup-remove j k p.inflight);
      mineable_keyed = v.mineable_keyed;
      inflight_keyed = λ j e h. ground (arith, v.inflight_keyed j e, lookup-remove j k p.inflight);
    })
    | inr live ↦ rw live (back (lookup k p.inflight) refl live)
  ]
    where
      back :
          (o : Option (InflightEntry Tx))
          → lookup k p.inflight ≡ o
          → leb k.1 (high p k.0) ≡ false
          → IsValidBut env [] ks (requeue env p k o)
      back none e live = record {
        sorted = v.sorted;
        bytes = v.bytes;
        disjoint = v.disjoint;
        fresh = v.fresh;
        indexed = λ j r. ground (arith, e, v.indexed j r, pair_beq_iff k j);
        mineable_keyed = v.mineable_keyed;
        inflight_keyed = v.inflight_keyed;
      }
      back (some x) e live = record {
        sorted = IsSorted-insert k (x.tx, x.size) p.mineable v.sorted;
        bytes = requeue-total p k x.tx x.size v.sorted (ground (arith, e, v.disjoint k)) v.bytes;
        disjoint = λ j. ground (
          arith,
          v.disjoint j,
          lookup-remove j k p.inflight,
          lookup-insert_ordered j k (x.tx, x.size) p.mineable,
        );
        fresh = λ j. ground (
          arith,
          live,
          v.fresh j,
          pair_beq_iff k j,
          lookup-insert_ordered j k (x.tx, x.size) p.mineable,
        );
        indexed = λ j r. ground (arith, v.indexed j r, lookup-remove j k p.inflight);
        mineable_keyed = λ j tx size h. ground (
          arith,
          e,
          v.mineable_keyed j tx size,
          v.inflight_keyed k x,
          pair_beq_iff k j,
          lookup-insert_ordered j k (x.tx, x.size) p.mineable,
        );
        inflight_keyed =
            λ j y h. ground (arith, v.inflight_keyed j y, lookup-remove j k p.inflight);
      }

  rollback_keys-IsValid :
      (ks : List TxKey) (p : Txpool Tx T)
      → IsValidBut env [] ks p
      → IsValid env (rollback_keys env p ks)
  unfolding rollback_keys
  rollback_keys-IsValid [] p v = v
  rollback_keys-IsValid (k ∷ ks) p v =
      rollback_keys-IsValid ks (rollback_key env p k) (rollback_key-IsValidBut k ks p v)

  -- The set of a round leaves the index, and its keys wait for their rollback.
  pub unindexed-IsValidBut :
      (p : Txpool Tx T) (r : ℕ) (ks : List TxKey)
      → lookup r p.inflight_by_round ≡ some ks
      → IsValid env p
      → IsValidBut env [] ks (record p { inflight_by_round = remove r p.inflight_by_round })
  unfolding set_contains
  unindexed-IsValidBut p r ks e v = record {
    sorted = v.sorted;
    bytes = v.bytes;
    disjoint = v.disjoint;
    fresh = v.fresh;
    indexed = λ k q. ground (
      arith,
      e,
      v.indexed k q,
      v.indexed k r,
      nat_beq_iff r q,
      lookup-remove q r p.inflight_by_round,
    );
    mineable_keyed = v.mineable_keyed;
    inflight_keyed = v.inflight_keyed;
  }

  pub rollback_round-IsValid :
      (p : Txpool Tx T) (r : ℕ) → IsValid env p → IsValid env (rollback_round env p r)
  unfolding rollback_round
  rollback_round-IsValid p r v = elim (Option-cases (lookup r p.inflight_by_round)) [
    | inl e ↦ rw (e, rollback_round) v
    | inr (ks, e) ↦
        rw (e, rollback_round) (rollback_keys-IsValid ks _ (unindexed-IsValidBut p r ks e v))
  ]

  pub rollback-IsValid :
      (rounds : List ℕ) (p : Txpool Tx T) → IsValid env p → IsValid env (rollback env p rounds)
  unfolding rollback
  rollback-IsValid [] p v = v
  rollback-IsValid (r ∷ rounds) p v =
      rollback-IsValid rounds (rollback_round env p r) (rollback_round-IsValid p r v)
