-- ===== src/Txpool/Invariant.antt =====
-- consensus/src/server/tx_pool.rs: what holds of the pool between the steps of its operations.
use leto_rs.Prelude.{
  ℕ, ◌%◌, ◌≡◌, refl, Bool, true, false, not, ◌&&◌, Option, none, some, List, [], arith, leb, nat_eq,
  pair_eq, pair_beq, pair_beq_iff, nat_beq, nat_beq_iff, if◌then◌else◌, Map, lookup, insert,
  contains_key, set_contains, set_insert, set_remove, lookup-insert, lookup-remove, Option-cases,
  inl, inr, contains-set_insert, contains-set_remove, usize_mod,
}
use leto_rs.Txpool.OrderedMap.{
  TxKey, IsSorted, IsSorted-insert, IsSorted-remove, lookup-insert_ordered,
}
use leto_rs.Txpool.Sizes.{total, discount-total, insert-total}
use leto_rs.Txpool.{
  Env, Txpool, InflightEntry, high, set_at, tx_key, new, open_round, index_key, add_tx, admit_tx,
  admitted_size, unindex,
}

-- Whether the entry is in flight at the round.
abbrev pub in_round : {Tx : Type 0} → ℕ → Option (InflightEntry Tx) → Bool
in_round r none = false
in_round r (some e) = nat_beq e.round r

-- The pool's invariant, while the clients of `cs` wait for their sweep and the keys of `ks` for
-- their rollback: the byte counter counts, the two buckets are disjoint, no mineable nonce is
-- committed, the index by round holds exactly the entries in flight, and entries stand under their
-- own keys.
pub record IsValidBut {Tx T : Type 0} (env : Env Tx T) (cs : List ℕ) (ks : List TxKey)
    (p : Txpool Tx T) : Type 0 where
  pub sorted : IsSorted p.mineable
  pub bytes : p.mineable_bytes ≡ total p.mineable % usize_mod
  pub disjoint : (k : TxKey) → (contains_key k p.mineable && contains_key k p.inflight) ≡ false
  pub fresh :
      (k : TxKey)
      → (contains_key k p.mineable && (leb k.1 (high p k.0) && not (set_contains k.0 cs))) ≡ false
  pub indexed :
      (k : TxKey) (r : ℕ)
      → set_contains k (set_at r p.inflight_by_round)
        ≡ (if set_contains k ks then false else in_round r (lookup k p.inflight))
  pub mineable_keyed :
      (k : TxKey) (tx : Tx) (size : ℕ) → lookup k p.mineable ≡ some (tx, size) → tx_key env tx ≡ k
  pub inflight_keyed :
      (k : TxKey) (e : InflightEntry Tx) → lookup k p.inflight ≡ some e → tx_key env e.tx ≡ k

abbrev pub IsValid : {Tx T : Type 0} → Env Tx T → Txpool Tx T → Type 0
IsValid env = IsValidBut env [] []

-- The index under the operations on it.
pub contains-index_key :
    (k j : TxKey) (r q : ℕ) (index : Map ℕ (List TxKey))
    → set_contains k (set_at r (index_key q j index))
      ≡ (if nat_beq q r && pair_beq j k then true else set_contains k (set_at r index))
unfolding index_key
contains-index_key k j r q index = ground (
  arith,
  nat_beq_iff q r,
  lookup-insert r q (set_insert j (set_at q index)) index,
  contains-set_insert k j (set_at q index),
)

pub set_at-open_round :
    (r q : ℕ) (index : Map ℕ (List TxKey))
    → set_at r (insert q (set_at q index) index) ≡ set_at r index
set_at-open_round r q index =
    ground (arith, nat_beq_iff q r, lookup-insert r q (set_at q index) index)

pub contains-unindex :
    (k j : TxKey) (r q : ℕ) (index : Map ℕ (List TxKey))
    → set_contains k (set_at r (unindex q j index))
      ≡ (if nat_beq q r && pair_beq j k then false else set_contains k (set_at r index))
unfolding unindex set_contains
contains-unindex k j r q index = elim (Option-cases (lookup q index)) [
  | inl e ↦ rw (e, unindex) (ground (arith, nat_beq_iff q r))
  | inr (set, e) ↦
      rw (e, unindex)
        (ground (
          arith,
          nat_beq_iff q r,
          lookup-insert r q (set_remove j set) index,
          contains-set_remove k j set,
        ))
]

module _ {Tx T : Type 0} (env : Env Tx T) where
  pub new-IsValid : (batch_size : ℕ) (timer : T) → IsValid env (new batch_size timer)
  unfolding new lookup set_contains
  new-IsValid batch_size timer = record {
    sorted = tt;
    bytes = refl;
    disjoint = λ k. refl;
    fresh = λ k. refl;
    indexed = λ k r. refl;
    mineable_keyed = λ k tx size h. cc;
    inflight_keyed = λ k e h. cc;
  }

  pub open_round-IsValidBut :
      (cs : List ℕ) (ks : List TxKey) (p : Txpool Tx T) (round : ℕ)
      → IsValidBut env cs ks p
      → IsValidBut env cs ks (open_round p round)
  unfolding open_round
  open_round-IsValidBut cs ks p round v = record {
    sorted = v.sorted;
    bytes = v.bytes;
    disjoint = v.disjoint;
    fresh = v.fresh;
    indexed = λ k r. rw (set_at-open_round r round p.inflight_by_round) (v.indexed k r);
    mineable_keyed = v.mineable_keyed;
    inflight_keyed = v.inflight_keyed;
  }

  pub add_tx-IsValid :
      (p : Txpool Tx T) (tx : Tx) (size : ℕ) → IsValid env p → IsValid env (add_tx env p tx size)
  unfolding add_tx set_contains
  add_tx-IsValid p tx size v = record {
    sorted = ground (arith, v.sorted, IsSorted-insert key (tx, size) p.mineable v.sorted);
    bytes =
        ground
          (arith, v.bytes, insert-total key tx size p.mineable p.mineable_bytes v.sorted v.bytes);
    disjoint = λ k. ground (
      arith,
      v.disjoint k,
      pair_beq_iff key k,
      lookup-insert_ordered k key (tx, size) p.mineable,
    );
    fresh = λ k.
        ground
          (arith, v.fresh k, pair_beq_iff key k, lookup-insert_ordered k key (tx, size) p.mineable);
    indexed = λ k r. ground (arith, v.indexed k r);
    mineable_keyed = λ k tx' size' h. ground (
      arith,
      v.mineable_keyed k tx' size',
      pair_beq_iff key k,
      lookup-insert_ordered k key (tx, size) p.mineable,
    );
    inflight_keyed = λ k e h. ground (arith, v.inflight_keyed k e);
  }
    where
      key : TxKey
      key = tx_key env tx

  pub admit_tx-IsValid :
      (p : Txpool Tx T) (round : ℕ) (tx : Tx)
      → IsValid env p
      → IsValid env (admit_tx env p round tx)
  unfolding admit_tx set_contains
  admit_tx-IsValid p round tx v = record {
    sorted = ground (arith, v.sorted, IsSorted-remove key p.mineable v.sorted);
    bytes =
        ground (arith, v.bytes, discount-total key p.mineable p.mineable_bytes v.sorted v.bytes);
    disjoint = λ k. ground (
      arith,
      v.disjoint k,
      pair_beq_iff key k,
      lookup-remove k key p.mineable,
      lookup-insert k key entry p.inflight,
    );
    fresh = λ k. ground (arith, v.fresh k, lookup-remove k key p.mineable);
    indexed = λ k r. ground (
      arith,
      v.indexed k r,
      pair_beq_iff key k,
      contains-index_key k key r round p.inflight_by_round,
      lookup-insert k key entry p.inflight,
    );
    mineable_keyed = λ k tx' size' h.
        ground (arith, v.mineable_keyed k tx' size', lookup-remove k key p.mineable);
    inflight_keyed = λ k e h.
        ground
          (arith, v.inflight_keyed k e, pair_beq_iff key k, lookup-insert k key entry p.inflight);
  }
    where
      key : TxKey
      key = tx_key env tx

      entry : InflightEntry Tx
      entry = record { tx = tx; size = admitted_size env tx (lookup key p.mineable); round = round }
