-- ===== src/Zeus/Store/Insertion.antt =====
-- consensus/src/server/zeus/chain_state/db.rs: what `insert` keeps.
use leto_rs.Prelude.{
  ℕ, ◌+◌, ◌-◌, ◌*◌, ◌%◌, ◌≤◌, ◌<◌, ◌≡◌, refl, ap, ◌∙◌, ◌⊎◌, inl, inr, true, false, Option, none,
  some, List, nat_eq, nat_beq, nat_beq_iff, if◌then◌else◌, lookup, insert, contains_key,
  lookup-insert, set_contains, length, arith, Option-cases, wrapping_sub, wrapping_add_small,
  usize_mod,
}
use leto_rs.Zeus.Types.{DataBlock}
use leto_rs.Zeus.Store.{
  DataBlockDb, Codec, meta_of, cache_insert, cache_put, insert_block, with_byte_budget,
}
use leto_rs.Zeus.Store.Sizes.{
  total-insert, total-replace, total-snoc, size-total, contains-snoc, IsDistinct-snoc,
}
use leto_rs.Zeus.Store.Eviction.{IsStoredBy, IsKept, evict-IsStoredBy, evict-IsKept}

abbrev pub IsStored : {Tx : Type 0} → DataBlockDb Tx → Type 0
IsStored s = IsStoredBy s.order s

wrapping_sub_small : (a b : ℕ) → b ≤ a → a < usize_mod → wrapping_sub a b ≡ a - b
unfolding wrapping_sub
wrapping_sub_small a b h k = omega arith

module _ {Tx : Type 0} (codec : Codec Tx) where
  open codec use {hash, serialize}

  cache_insert-IsStored :
      (s : DataBlockDb Tx) (h : ℕ) (b : DataBlock Tx) (size : ℕ)
      → IsStored s
      → s.resident_bytes + size < usize_mod
      → contains_key h s.meta ≡ true
      → IsStored (cache_insert codec s h b size (lookup h s.cache))
        × (lookup h (cache_insert codec s h b size (lookup h s.cache)).cache ≡ some (b, size))
  unfolding cache_insert
  cache_insert-IsStored s h b size v l m = elim (Option-cases (lookup h s.cache)) [
    | inl e ↦
        let fresh : set_contains h s.order ≡ false = ground (arith, e, v.keys h) in
        rw e (
          record {
            keys = λ i.
                ground
                  (arith, v.keys i, contains-snoc i h s.order, lookup-insert i h (b, size) s.cache);
            distinct = IsDistinct-snoc h s.order fresh v.distinct;
            bytes =
                wrapping_add_small s.resident_bytes size l
                ∙ ground (
                  arith,
                  v.bytes,
                  total-snoc h (insert h (b, size) s.cache) s.order,
                  total-insert h s.cache s.order (b, size) fresh,
                  lookup-insert h h (b, size) s.cache,
                  nat_beq_iff h h,
                );
            known = λ i k.
                ground
                  (arith, v.known i, m, k, nat_beq_iff h i, lookup-insert i h (b, size) s.cache);
          },
          ground (arith, lookup-insert h h (b, size) s.cache, nat_beq_iff h h),
        )
    | inr ((c, old_size), e) ↦
        let there : set_contains h s.order ≡ true = ground (arith, e, v.keys h) in
        let fits = size-total h s.cache s.order there in
        rw e (
          record {
            keys = λ i.
                ground
                  (arith, v.keys i, there, nat_beq_iff h i, lookup-insert i h (b, size) s.cache);
            distinct = v.distinct;
            bytes =
                ap (λ n. wrapping_sub n old_size) (wrapping_add_small s.resident_bytes size l)
                ∙ (wrapping_sub_small (s.resident_bytes + size) old_size
                      (ground (arith, fits, e, v.bytes)) l
                    ∙ ground (
                      arith,
                      e,
                      fits,
                      v.bytes,
                      total-replace h s.cache s.order b size v.distinct there,
                    ));
            known = λ i k.
                ground
                  (arith, v.known i, m, k, nat_beq_iff h i, lookup-insert i h (b, size) s.cache);
          },
          ground (arith, lookup-insert h h (b, size) s.cache, nat_beq_iff h h),
        )
  ]

  cache_insert-IsKept :
      (s : DataBlockDb Tx) (h : ℕ) (b : DataBlock Tx) (size : ℕ) (o : Option (DataBlock Tx × ℕ))
      (i : ℕ) (c : DataBlock Tx) (n : ℕ)
      → nat_beq h i ≡ false
      → IsKept codec i c n s
      → IsKept codec i c n (cache_insert codec s h b size o)
  unfolding cache_insert
  cache_insert-IsKept s h b size none i c n e (inl k) =
      inl (ground (arith, e, k, lookup-insert i h (b, size) s.cache))
  cache_insert-IsKept s h b size none i c n e (inr k) = inr k
  cache_insert-IsKept s h b size (some (d, m)) i c n e (inl k) =
      inl (ground (arith, e, k, lookup-insert i h (b, size) s.cache))
  cache_insert-IsKept s h b size (some (d, m)) i c n e (inr k) = inr k

  cache_insert_same :
      (s : DataBlockDb Tx) (h : ℕ) (b : DataBlock Tx) (size : ℕ) (o : Option (DataBlock Tx × ℕ))
      → let t = cache_insert codec s h b size o in
        (t.meta ≡ s.meta) × (t.cap_bytes ≡ s.cap_bytes) × (t.emitted_high ≡ s.emitted_high)
  unfolding cache_insert
  cache_insert_same s h b size none = (refl, refl, refl)
  cache_insert_same s h b size (some p) = (refl, refl, refl)

  -- The size that `insert` books.
  abbrev pub booked : DataBlock Tx → ℕ
  booked b = (length b.envelope.payload + 1) * 64 % usize_mod

  admitted : DataBlockDb Tx → DataBlock Tx → DataBlockDb Tx
  unfolding meta_of
  admitted s b =
      let h = hash b.envelope in
      record s { meta = if contains_key h s.meta then s.meta else insert h (meta_of b h) s.meta }

  admitted_known :
      (s : DataBlockDb Tx) (b : DataBlock Tx) (i : ℕ)
      → (contains_key (hash b.envelope) (admitted s b).meta ≡ true)
        × (contains_key i s.meta ≡ true → contains_key i (admitted s b).meta ≡ true)
  unfolding admitted
  admitted_known s b i =
      let h = hash b.envelope in
      (
        ground (arith, lookup-insert h h (meta_of b h) s.meta, nat_beq_iff h h),
        λ k. ground (arith, k, lookup-insert i h (meta_of b h) s.meta),
      )

  admitted-IsStored : (s : DataBlockDb Tx) (b : DataBlock Tx) → IsStored s → IsStored (admitted s b)
  unfolding admitted
  admitted-IsStored s b v = record {
    keys = v.keys;
    distinct = v.distinct;
    bytes = v.bytes;
    known = λ i k. (admitted_known s b i).1 (v.known i k);
  }

  -- On a well-formed store whose counter does not overflow, `insert` admits the block, keeps the
  -- counter exact and the queue in step with the cache, and ends within the budget or with one
  -- cached block at most.
  pub insert_block-IsStored :
      (s : DataBlockDb Tx) (b : DataBlock Tx)
      → IsStored s
      → s.resident_bytes + booked b < usize_mod
      → let t = insert_block codec s b in
        IsStored t
        × (contains_key (hash b.envelope) t.meta ≡ true)
        × (t.emitted_high ≡ s.emitted_high)
        × ((t.resident_bytes ≤ s.cap_bytes) ⊎ (length t.cache ≤ 1))
  unfolding insert_block cache_put admitted
  insert_block-IsStored s b v l =
      let h = hash b.envelope in
      let a = admitted s b in
      let m = (admitted_known s b h).0 in
      let (w, _) = cache_insert-IsStored a h b (booked b) (admitted-IsStored s b v) l m in
      let c = cache_insert codec a h b (booked b) (lookup h a.cache) in
      let (sm, sc, se) = cache_insert_same a h b (booked b) (lookup h a.cache) in
      let (k, cap, e, n, bound) = evict-IsStoredBy codec c.order c w in
      (k, ap (contains_key h) (n ∙ sm) ∙ m, e ∙ se, rw sc at bound)

  -- On a well-formed store whose counter does not overflow, and where serialization does not fail,
  -- `insert` loses no block that is not emitted: a block that was cached, was emitted or is with
  -- the writer under another hash stays so, and so is the new block.
  pub insert_block-IsKept :
      (s : DataBlockDb Tx) (b : DataBlock Tx)
      → ((x : DataBlock Tx) → (bytes : List ℕ) × (serialize x ≡ some bytes))
      → IsStored s
      → s.resident_bytes + booked b < usize_mod
      → IsKept codec (hash b.envelope) b (booked b) (insert_block codec s b)
        × ((i : ℕ) (c : DataBlock Tx) (n : ℕ)
            → nat_beq (hash b.envelope) i ≡ false
            → IsKept codec i c n s
            → IsKept codec i c n (insert_block codec s b))
  unfolding insert_block cache_put admitted
  insert_block-IsKept s b f v l =
      let h = hash b.envelope in
      let a = admitted s b in
      let m = (admitted_known s b h).0 in
      let (w, e) = cache_insert-IsStored a h b (booked b) (admitted-IsStored s b v) l m in
      let c = cache_insert codec a h b (booked b) (lookup h a.cache) in
      (
        evict-IsKept codec c.order c h b (booked b) f w (inl e),
        λ i d n o k.
            evict-IsKept codec c.order c i d n f w
              (cache_insert-IsKept a h b (booked b) (lookup h a.cache) i d n o k),
      )

  -- A new store is well formed.
  pub with_byte_budget-IsStored : (cap emitted : ℕ) → IsStored (with_byte_budget codec cap emitted)
  unfolding with_byte_budget lookup set_contains
  with_byte_budget-IsStored cap emitted = record {
    keys = λ i. refl;
    distinct = tt;
    bytes = refl;
    known = λ i k. cc;
  }
