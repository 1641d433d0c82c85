-- ===== src/Txpool/Sizes.antt =====
-- consensus/src/server/tx_pool.rs: `mineable_bytes` against the sizes that it counts.
use leto_rs.Prelude.{
  ℕ, ◌+◌, ◌%◌, ◌≡◌, Option, none, some, [], ◌∷◌, arith, pair_beq_iff, pair_eq, Map, lookup, remove,
  usize_mod, wrapping_add, wrapping_add_count, wrapping_sub_count,
}
use leto_rs.Txpool.OrderedMap.{
  TxKey, insert_ordered, IsSorted, AllAbove-trans, lookup_above, remove_above,
}
use leto_rs.Txpool.{discount}

module _ {Tx : Type 0} where
  -- The sum of the sizes of the entries.
  abbrev pub total : Map TxKey (Tx × ℕ) → ℕ
  total [] = 0
  total ((k, (tx, size)) ∷ m) = size + total m

  abbrev pub size_of : Option (Tx × ℕ) → ℕ
  size_of none = 0
  size_of (some (tx, size)) = size

  pub total-remove :
      (k : TxKey) (m : Map TxKey (Tx × ℕ))
      → IsSorted m
      → total (remove k m) + size_of (lookup k m) ≡ total m
  unfolding remove lookup
  total-remove k [] s = omega arith
  total-remove k ((j, (tx, size)) ∷ m) s =
      ground (arith, pair_beq_iff j k, total-remove k m s.1, remove_above j m s.0)

  pub total-insert :
      (k : TxKey) (tx : Tx) (size : ℕ) (m : Map TxKey (Tx × ℕ))
      → IsSorted m
      → total (insert_ordered k (tx, size) m) + size_of (lookup k m) ≡ total m + size
  unfolding insert_ordered lookup
  total-insert k tx size [] s = omega arith
  total-insert k tx size ((j, (tx', size')) ∷ m) s = ground (
    arith,
    pair_beq_iff j k,
    total-insert k tx size m s.1,
    lookup_above k m,
    AllAbove-trans k j m,
  )

  -- After `discount` the counter counts the map without the entry.
  pub discount-total :
      (k : TxKey) (m : Map TxKey (Tx × ℕ)) (bytes : ℕ)
      → IsSorted m
      → bytes ≡ total m % usize_mod
      → discount (lookup k m) bytes ≡ total (remove k m) % usize_mod
  unfolding discount
  discount-total k m bytes s e = ground (
    arith,
    total-remove k m s,
    wrapping_sub_count (total m) (total (remove k m)) (size_of (lookup k m)),
  )

  pub insert-total :
      (k : TxKey) (tx : Tx) (size : ℕ) (m : Map TxKey (Tx × ℕ)) (bytes : ℕ)
      → IsSorted m
      → bytes ≡ total m % usize_mod
      → wrapping_add (discount (lookup k m) bytes) size
        ≡ total (insert_ordered k (tx, size) m) % usize_mod
  insert-total k tx size m bytes s e = ground (
    arith,
    discount-total k m bytes s e,
    total-remove k m s,
    total-insert k tx size m s,
    wrapping_add_count (total (remove k m)) size,
  )
