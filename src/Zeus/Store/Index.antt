-- ===== src/Zeus/Store/Index.antt =====
-- consensus/src/server/zeus/chain_state/db.rs: what `insert` does to the index of the blocks.
use leto_rs.Prelude.{
  true, ℕ, ◌<◌, ◌≡◌, refl, sym, ap, ◌∙◌, inl, inr, ◌&&◌, ◌||◌, Option, none, some, List, [], ◌∷◌,
  nat_eq, nat_beq, nat_beq_iff, ltb, if◌then◌else◌, lookup, insert, contains_key, lookup-insert,
  length, Bool-cases, eq_of_some, arith,
}
use mathlib.Core.Path.{subst}
use leto_rs.Zeus.Types.{DataBlock, DataBlockEnvelope}
use leto_rs.Zeus.DataChain.Prefix.{IsRanked}
use leto_rs.Zeus.Store.{
  DataBlockDb, Codec, meta_of, spill, evict_block, evict, cache_insert, cache_put, insert_block,
}

module _ {Tx : Type 0} (codec : Codec Tx) where
  open codec use {hash, serialize}

  spill-meta :
      (s : DataBlockDb Tx) (old : ℕ) (b : DataBlock Tx) (o : Option (List ℕ))
      → (spill codec s old b o).meta ≡ s.meta
  unfolding spill
  spill-meta s old b none = refl
  spill-meta s old b (some bytes) = ground arith

  evict_block-meta :
      (s : DataBlockDb Tx) (old : ℕ) (o : Option (DataBlock Tx × ℕ))
      → (evict_block codec s old o).meta ≡ s.meta
  unfolding evict_block
  evict_block-meta s old none = refl
  evict_block-meta s old (some (b, size)) = spill-meta _ old b (serialize b)

  evict-meta : (s : DataBlockDb Tx) (order : List ℕ) → (evict codec s order).meta ≡ s.meta
  unfolding evict
  evict-meta s [] = refl
  evict-meta s (old ∷ order) =
      let t = evict_block codec s old (lookup old s.cache) in
      elim (Bool-cases (ltb s.cap_bytes s.resident_bytes && ltb 1 (length s.cache))) [
        | inl e ↦
            rw (e, if◌then◌else◌) (evict-meta t order ∙ evict_block-meta s old (lookup old s.cache))
        | inr e ↦ rw (e, if◌then◌else◌) refl
      ]

  cache_insert-meta :
      (s : DataBlockDb Tx) (h : ℕ) (b : DataBlock Tx) (size : ℕ) (o : Option (DataBlock Tx × ℕ))
      → (cache_insert codec s h b size o).meta ≡ s.meta
  unfolding cache_insert
  cache_insert-meta s h b size none = refl
  cache_insert-meta s h b size (some (c, n)) = refl

  cache_put-meta :
      (s : DataBlockDb Tx) (h : ℕ) (b : DataBlock Tx) (size : ℕ)
      → (cache_put codec s h b size).meta ≡ s.meta
  unfolding cache_put
  cache_put-meta s h b size =
      let t = cache_insert codec s h b size (lookup h s.cache) in
      evict-meta t t.order ∙ cache_insert-meta s h b size (lookup h s.cache)

  pub insert_block-meta :
      (s : DataBlockDb Tx) (b : DataBlock Tx)
      → let h = hash b.envelope in
        (insert_block codec s b).meta
        ≡ (if contains_key h s.meta then s.meta else insert h (meta_of b h) s.meta)
  unfolding insert_block
  insert_block-meta s b = cache_put-meta _ (hash b.envelope) b _

  pub contains-insert_block :
      (s : DataBlockDb Tx) (b : DataBlock Tx) (h : ℕ)
      → contains_key h (insert_block codec s b).meta
        ≡ (nat_beq (hash b.envelope) h || contains_key h s.meta)
  contains-insert_block s b h =
      let k = hash b.envelope in
      rw (insert_block-meta s b) (elim (Bool-cases (contains_key k s.meta)) [
        | inl e ↦ rw (e, if◌then◌else◌) (known k e)
        | inr e ↦ rw (e, if◌then◌else◌) (ground (arith, lookup-insert h k (meta_of b k) s.meta))
      ])
    where
      known :
          (k : ℕ)
          → contains_key k s.meta ≡ true
          → contains_key h s.meta ≡ (nat_beq k h || contains_key h s.meta)
      known k e = elim (Bool-cases (nat_beq k h)) [
        | inl f ↦ rw (f, ◌||◌) (subst (λ i. contains_key i s.meta ≡ true) ((nat_beq_iff k h).0 f) e)
        | inr f ↦ rw (f, ◌||◌) refl
      ]

  -- The new entry stands under its hash and above its parent.
  inserted-IsRanked :
      (rank : ℕ → ℕ)
      → ((e : DataBlockEnvelope Tx) → rank e.parent_hash < rank (hash e))
      → (s : DataBlockDb Tx) (b : DataBlock Tx) (h : ℕ) → hash b.envelope ≡ h
      → IsRanked rank s.meta
      → IsRanked rank (insert h (meta_of b h) s.meta)
  unfolding meta_of
  inserted-IsRanked rank rank_lem s b h q v = record {
    hashes = λ i m e. elim (Bool-cases (nat_beq h i)) [
      | inl same ↦
          let p : meta_of b h ≡ m =
            eq_of_some (meta_of b h) m
              (ground (arith, same, e, lookup-insert i h (meta_of b h) s.meta)) in
          sym (ap (λ x. x.hash) p) ∙ (nat_beq_iff h i).0 same
      | inr other ↦ v.hashes i m (ground (arith, other, e, lookup-insert i h (meta_of b h) s.meta))
    ];
    above = λ i m e. elim (Bool-cases (nat_beq h i)) [
      | inl same ↦
          let p : meta_of b h ≡ m =
            eq_of_some (meta_of b h) m
              (ground (arith, same, e, lookup-insert i h (meta_of b h) s.meta)) in
          omega (
            arith,
            rank_lem b.envelope,
            ap (λ x. rank x.parent_hash) p,
            ap rank (q ∙ (nat_beq_iff h i).0 same),
          )
      | inr other ↦ v.above i m (ground (arith, other, e, lookup-insert i h (meta_of b h) s.meta))
    ];
  }

  pub insert_block-IsRanked :
      (rank : ℕ → ℕ)
      → ((e : DataBlockEnvelope Tx) → rank e.parent_hash < rank (hash e))
      → (s : DataBlockDb Tx) (b : DataBlock Tx) → IsRanked rank s.meta
      → IsRanked rank (insert_block codec s b).meta
  insert_block-IsRanked rank rank_lem s b v =
      let h = hash b.envelope in
      rw (insert_block-meta s b) (elim (Bool-cases (contains_key h s.meta)) [
        | inl e ↦ rw (e, if◌then◌else◌) v
        | inr e ↦ rw (e, if◌then◌else◌) (inserted-IsRanked rank rank_lem s b h refl v)
      ])
