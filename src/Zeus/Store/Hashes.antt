-- ===== src/Zeus/Store/Hashes.antt =====
-- consensus/src/server/zeus/chain_state/db.rs: cached blocks stand under their hashes.
use leto_rs.Prelude.{
  ℕ, ◌≡◌, refl, sym, ap, ◌∙◌, inl, inr, ◌&&◌, Option, none, some, List, [], ◌∷◌, nat_eq, nat_beq,
  nat_beq_iff, ltb, if◌then◌else◌, lookup, insert, lookup-insert, lookup-remove, length,
  contains_key, usize_mod, ◌+◌, ◌*◌, ◌%◌, arith, Bool-cases, Option-cases,
}
use leto_rs.Zeus.Types.{DataBlock}
use leto_rs.Zeus.Store.{
  DataBlockDb, Codec, spill, evict_block, evict, meta_of, cache_insert, cache_put, insert_block,
  cache_get, with_byte_budget,
}

module _ {Tx : Type 0} (codec : Codec Tx) where
  open codec use {hash, serialize}

  -- The cached blocks and the genesis block stand under their hashes.
  pub record IsHashed (s : DataBlockDb Tx) : Type 0 where
    pub genesis : hash s.genesis.envelope ≡ s.genesis_hash
    pub cached :
        (h : ℕ) (b : DataBlock Tx) (size : ℕ)
        → lookup h s.cache ≡ some (b, size)
        → hash b.envelope ≡ h

  spill-IsHashed :
      (s : DataBlockDb Tx) (old : ℕ) (b : DataBlock Tx) (o : Option (List ℕ))
      → IsHashed s
      → IsHashed (spill codec s old b o)
  unfolding spill
  spill-IsHashed s old b none v = v
  spill-IsHashed s old b (some bytes) v = elim (Bool-cases (ltb s.emitted_high b.envelope.height)) [
    | inl e ↦ rw (e, if◌then◌else◌) (record { genesis = v.genesis; cached = v.cached })
    | inr e ↦ rw (e, if◌then◌else◌) v
  ]

  evict_block-IsHashed :
      (s : DataBlockDb Tx) (old : ℕ) (o : Option (DataBlock Tx × ℕ))
      → IsHashed s
      → IsHashed (evict_block codec s old o)
  unfolding evict_block
  evict_block-IsHashed s old none v = v
  evict_block-IsHashed s old (some (b, size)) v = spill-IsHashed _ old b (serialize b) (record {
    genesis = v.genesis;
    cached = λ h c n e. ground (arith, v.cached h c n, lookup-remove h old s.cache, e);
  })

  evict-IsHashed :
      (s : DataBlockDb Tx) (order : List ℕ) → IsHashed s → IsHashed (evict codec s order)
  unfolding evict
  evict-IsHashed s [] v = record { genesis = v.genesis; cached = v.cached }
  evict-IsHashed s (old ∷ order) v =
      let rest =
        evict-IsHashed (evict_block codec s old (lookup old s.cache)) order
          (evict_block-IsHashed s old (lookup old s.cache) v) in
      elim (Bool-cases (ltb s.cap_bytes s.resident_bytes && ltb 1 (length s.cache))) [
        | inl e ↦ rw (e, if◌then◌else◌) rest
        | inr e ↦ rw (e, if◌then◌else◌) (record { genesis = v.genesis; cached = v.cached })
      ]

  added_cached :
      (s : DataBlockDb Tx) (b : DataBlock Tx) (size h : ℕ) (c : DataBlock Tx) (n : ℕ)
      → IsHashed s
      → lookup h (insert (hash b.envelope) (b, size) s.cache) ≡ some (c, n)
      → hash c.envelope ≡ h
  added_cached s b size h c n v e = elim (Bool-cases (nat_beq (hash b.envelope) h)) [
    | inl same ↦
        let p : b ≡ c =
          ground (arith, same, e, lookup-insert h (hash b.envelope) (b, size) s.cache) in
        sym (ap (λ q. hash q.envelope) p) ∙ (nat_beq_iff (hash b.envelope) h).0 same
    | inr other ↦
        v.cached h c n
          (ground (arith, other, e, lookup-insert h (hash b.envelope) (b, size) s.cache))
  ]

  cache_insert-IsHashed :
      (s : DataBlockDb Tx) (b : DataBlock Tx) (size : ℕ) (o : Option (DataBlock Tx × ℕ))
      → IsHashed s
      → IsHashed (cache_insert codec s (hash b.envelope) b size o)
  unfolding cache_insert
  cache_insert-IsHashed s b size none v = record {
    genesis = v.genesis;
    cached = λ h c n e. added_cached s b size h c n v e;
  }
  cache_insert-IsHashed s b size (some (d, m)) v = record {
    genesis = v.genesis;
    cached = λ h c n e. added_cached s b size h c n v e;
  }

  cache_put-IsHashed :
      (s : DataBlockDb Tx) (b : DataBlock Tx) (size : ℕ)
      → IsHashed s
      → IsHashed (cache_put codec s (hash b.envelope) b size)
  unfolding cache_put
  cache_put-IsHashed s b size v =
      let h = hash b.envelope in
      let t = cache_insert codec s h b size (lookup h s.cache) in
      evict-IsHashed t t.order (cache_insert-IsHashed s b size (lookup h s.cache) v)

  pub insert_block-IsHashed :
      (s : DataBlockDb Tx) (b : DataBlock Tx) → IsHashed s → IsHashed (insert_block codec s b)
  unfolding insert_block
  insert_block-IsHashed s b v =
      let h = hash b.envelope in
      cache_put-IsHashed
        (record s {
          meta = if contains_key h s.meta then s.meta else insert h (meta_of b h) s.meta;
        })
        b ((length b.envelope.payload + 1) * 64 % usize_mod)
        (record { genesis = v.genesis; cached = v.cached })

  pub with_byte_budget-IsHashed :
      (cap_bytes emitted_high : ℕ) → IsHashed (with_byte_budget codec cap_bytes emitted_high)
  unfolding with_byte_budget lookup
  with_byte_budget-IsHashed cap_bytes emitted_high = record {
    genesis = refl;
    cached = λ h b n e. cc;
  }

  pub cache_get-IsHashed :
      (s : DataBlockDb Tx) (h : ℕ) (b : DataBlock Tx)
      → IsHashed s
      → cache_get codec s h ≡ some b
      → hash b.envelope ≡ h
  unfolding cache_get
  cache_get-IsHashed s h b v e = elim (Bool-cases (nat_beq h s.genesis_hash)) [
    | inl same ↦
        let p : b ≡ s.genesis = ground (arith, same, e) in
        rw p (v.genesis ∙ sym ((nat_beq_iff h s.genesis_hash).0 same))
    | inr other ↦ elim (Option-cases (lookup h s.cache)) [
      | inl f ↦ ground (arith, other, f, e)
      | inr ((c, n), f) ↦ let p : b ≡ c = ground (arith, other, f, e) in rw p (v.cached h c n f)
    ]
  ]
