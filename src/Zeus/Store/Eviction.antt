-- ===== src/Zeus/Store/Eviction.antt =====
-- consensus/src/server/zeus/chain_state/db.rs: what the eviction loop keeps, bounds and loses.
use leto_rs.Prelude.{
  ℕ, ◌-◌, ◌≤◌, ◌≡◌, refl, sym, ap, ◌∙◌, ◌⊎◌, inl, inr, true, ◌&&◌, Option, none, some, List, [],
  ◌∷◌, ◌++◌, nat_eq, nat_beq, nat_beq_iff, ltb, if◌then◌else◌, lookup, remove, contains_key,
  lookup-remove, set_contains, length, Occurs, arith, Bool-cases, Option-cases, eq_of_some,
  eq_of_some,
}
use mathlib.Core.Path.{subst}
use leto_rs.Types.Quorum.{IsDistinct}
use leto_rs.Zeus.Types.{DataBlock}
use leto_rs.Zeus.Store.{DataBlockDb, Codec, spill, evict_block, evict}
use leto_rs.Zeus.Store.Sizes.{total, total-remove, no_keys}

-- The queue holds the keys of the cache, each once; the counter is the bytes of the cached blocks;
-- cached blocks were admitted.
pub record IsStoredBy {Tx : Type 0} (order : List ℕ) (s : DataBlockDb Tx) : Type 0 where
  pub keys : (i : ℕ) → contains_key i s.cache ≡ set_contains i order
  pub distinct : IsDistinct order
  pub bytes : s.resident_bytes ≡ total order s.cache
  pub known : (i : ℕ) → contains_key i s.cache ≡ true → contains_key i s.meta ≡ true

Occurs-front : {A : Type 0} (a b : A) (xs : List A) → Occurs a xs → Occurs a (xs ++ b ∷ [])
Occurs-front a b [] o = elim o [ ]
Occurs-front a b (x ∷ xs) (inl e) = inl e
Occurs-front a b (x ∷ xs) (inr o) = inr (Occurs-front a b xs o)

Occurs-back : {A : Type 0} (a : A) (xs : List A) → Occurs a (xs ++ a ∷ [])
Occurs-back a [] = inl refl
Occurs-back a (x ∷ xs) = inr (Occurs-back a xs)

module _ {Tx : Type 0} (codec : Codec Tx) where
  open codec use {serialize}

  -- The block under the key is cached, was emitted, or is with the writer.
  abbrev pub IsKept : ℕ → DataBlock Tx → ℕ → DataBlockDb Tx → Type 0
  IsKept i b sz s =
      (lookup i s.cache ≡ some (b, sz))
      ⊎ ((b.envelope.height ≤ s.emitted_high)
          ⊎ ((bytes : List ℕ) × (serialize b ≡ some bytes) × Occurs (i, bytes) s.write_tx))

  -- What spilling leaves as it is.
  record IsSpilled (s t : DataBlockDb Tx) : Type 0 where
    cache : t.cache ≡ s.cache
    resident_bytes : t.resident_bytes ≡ s.resident_bytes
    meta : t.meta ≡ s.meta
    cap_bytes : t.cap_bytes ≡ s.cap_bytes
    emitted_high : t.emitted_high ≡ s.emitted_high
    written : (p : ℕ × List ℕ) → Occurs p s.write_tx → Occurs p t.write_tx

  spill-IsSpilled :
      (s : DataBlockDb Tx) (old : ℕ) (b : DataBlock Tx) (o : Option (List ℕ))
      → IsSpilled s (spill codec s old b o)
  unfolding spill
  spill-IsSpilled s old b none = record {
    cache = refl;
    resident_bytes = refl;
    meta = refl;
    cap_bytes = refl;
    emitted_high = refl;
    written = λ p o. o;
  }
  spill-IsSpilled s old b (some bytes) = elim (Bool-cases (ltb s.emitted_high b.envelope.height)) [
    | inl e ↦
        rw (e, if◌then◌else◌)
          (record {
            cache = refl;
            resident_bytes = refl;
            meta = refl;
            cap_bytes = refl;
            emitted_high = refl;
            written = λ p o. Occurs-front p (old, bytes) s.write_tx o;
          })
    | inr e ↦
        rw (e, if◌then◌else◌)
          (record {
            cache = refl;
            resident_bytes = refl;
            meta = refl;
            cap_bytes = refl;
            emitted_high = refl;
            written = λ p o. o;
          })
  ]

  spill-IsKept :
      (s : DataBlockDb Tx) (old : ℕ) (b : DataBlock Tx) (sz : ℕ) (bytes : List ℕ)
      → serialize b ≡ some bytes
      → IsKept old b sz (spill codec s old b (some bytes))
  unfolding spill
  spill-IsKept s old b sz bytes e = elim (Bool-cases (ltb s.emitted_high b.envelope.height)) [
    | inl l ↦ rw (l, if◌then◌else◌) (inr (inr (bytes, e, Occurs-back (old, bytes) s.write_tx)))
    | inr l ↦ rw (l, if◌then◌else◌) (inr (inl (ground (arith, l))))
  ]

  -- One eviction, of a cached block.
  abbrev after : DataBlockDb Tx → ℕ → DataBlock Tx → ℕ → DataBlockDb Tx
  after s old b sz = evict_block codec s old (some (b, sz))

  evicted-IsSpilled :
      (s : DataBlockDb Tx) (old : ℕ) (b : DataBlock Tx) (sz : ℕ)
      → IsSpilled
          (record s { cache = remove old s.cache; resident_bytes = s.resident_bytes - sz })
          (after s old b sz)
  unfolding evict_block
  evicted-IsSpilled s old b sz =
      spill-IsSpilled
        (record s { cache = remove old s.cache; resident_bytes = s.resident_bytes - sz }) old b
        (serialize b)

  after-IsStoredBy :
      (s : DataBlockDb Tx) (old : ℕ) (order : List ℕ) (b : DataBlock Tx) (sz : ℕ)
      → IsStoredBy (old ∷ order) s
      → lookup old s.cache ≡ some (b, sz)
      → IsStoredBy order (after s old b sz)
  unfolding set_contains
  after-IsStoredBy s old order b sz v e =
      let w = evicted-IsSpilled s old b sz in
      record {
        keys = λ i. rw w.cache (
            ground (arith, v.keys i, v.distinct.0, nat_beq_iff old i, lookup-remove i old s.cache));
        distinct = v.distinct.1;
        bytes =
            rw (w.cache, w.resident_bytes, total-remove old s.cache order v.distinct.0)
              (ground (arith, v.bytes, e));
        known = λ i k.
            rw w.meta (v.known i (ground (arith, rw w.cache at k, lookup-remove i old s.cache)));
      }

  -- The front of the queue is cached.
  front_cached :
      (s : DataBlockDb Tx) (old : ℕ) (order : List ℕ)
      → IsStoredBy (old ∷ order) s
      → (b : DataBlock Tx) × (sz : ℕ) × (lookup old s.cache ≡ some (b, sz))
  unfolding set_contains
  front_cached s old order v = elim (Option-cases (lookup old s.cache)) [
    | inl e ↦ ground (arith, e, v.keys old, nat_beq_iff old old)
    | inr ((b, sz), e) ↦ (b, sz, e)
  ]

  pub evict-IsStoredBy :
      (order : List ℕ) (s : DataBlockDb Tx)
      → IsStoredBy order s
      → IsStoredBy (evict codec s order).order (evict codec s order)
        × ((evict codec s order).cap_bytes ≡ s.cap_bytes)
        × ((evict codec s order).emitted_high ≡ s.emitted_high)
        × ((evict codec s order).meta ≡ s.meta)
        × (((evict codec s order).resident_bytes ≤ s.cap_bytes)
            ⊎ (length (evict codec s order).cache ≤ 1))
  unfolding evict set_contains
  evict-IsStoredBy [] s v = (
    record { keys = v.keys; distinct = tt; bytes = v.bytes; known = v.known },
    refl,
    refl,
    refl,
    inr (omega (arith, no_keys s.cache (λ i. v.keys i ∙ refl))),
  )
  evict-IsStoredBy (old ∷ order) s v =
      elim (Bool-cases (ltb s.cap_bytes s.resident_bytes && ltb 1 (length s.cache))) [
        | inr stop ↦
            rw (stop, if◌then◌else◌)
              (
                record { keys = v.keys; distinct = v.distinct; bytes = v.bytes; known = v.known },
                refl,
                refl,
                refl,
                ground (arith, stop),
              )
        | inl go ↦
            let (b, sz, e) = front_cached s old order v in
            let w = evicted-IsSpilled s old b sz in
            let (k, c, h, m, l) =
              evict-IsStoredBy order (after s old b sz) (after-IsStoredBy s old order b sz v e) in
            rw (go, if◌then◌else◌, e)
              (k, c ∙ w.cap_bytes, h ∙ w.emitted_high, m ∙ w.meta, rw w.cap_bytes at l)
      ]

  evicted-IsKept :
      (s : DataBlockDb Tx) (old : ℕ) (b : DataBlock Tx) (sz : ℕ) (bytes : List ℕ)
      → serialize b ≡ some bytes
      → IsKept old b sz (after s old b sz)
  unfolding evict_block
  evicted-IsKept s old b sz bytes q =
      let t : DataBlockDb Tx = record s {
        cache = remove old s.cache;
        resident_bytes = s.resident_bytes - sz;
      } in
      subst (λ o. IsKept old b sz (spill codec t old b o)) (sym q) (spill-IsKept t old b sz bytes q)

  after-IsKept :
      (s : DataBlockDb Tx) (old : ℕ) (b : DataBlock Tx) (sz i : ℕ) (c : DataBlock Tx) (n : ℕ)
      → ((x : DataBlock Tx) → (bytes : List ℕ) × (serialize x ≡ some bytes))
      → lookup old s.cache ≡ some (b, sz)
      → IsKept i c n s
      → IsKept i c n (after s old b sz)
  after-IsKept s old b sz i c n f e (inr (inl h)) =
      inr (inl (rw (evicted-IsSpilled s old b sz).emitted_high h))
  after-IsKept s old b sz i c n f e (inr (inr (bytes, q, o))) =
      inr (inr (bytes, q, (evicted-IsSpilled s old b sz).written (i, bytes) o))
  after-IsKept s old b sz i c n f e (inl k) = elim (Bool-cases (nat_beq old i)) [
    | inr other ↦ inl (
        rw (evicted-IsSpilled s old b sz).cache
          (ground (arith, other, k, lookup-remove i old s.cache)))
    | inl same ↦
        let here : old ≡ i = ground (arith, nat_beq_iff old i, same) in
        let block : ◌≡◌ {A = DataBlock Tx × ℕ} (b, sz) (c, n) =
          eq_of_some _ _ (sym e ∙ (ap (λ j. lookup j s.cache) here ∙ k)) in
        subst (λ p. IsKept i p.0 p.1 (after s old b sz)) block
          (subst (λ j. IsKept j b sz (after s old b sz)) here
            (evicted-IsKept s old b sz (f b).0 (f b).1))
  ]

  -- Eviction loses no block that is not emitted.
  pub evict-IsKept :
      (order : List ℕ) (s : DataBlockDb Tx) (i : ℕ) (b : DataBlock Tx) (sz : ℕ)
      → ((x : DataBlock Tx) → (bytes : List ℕ) × (serialize x ≡ some bytes))
      → IsStoredBy order s
      → IsKept i b sz s
      → IsKept i b sz (evict codec s order)
  unfolding evict
  evict-IsKept [] s i b sz f v k = k
  evict-IsKept (old ∷ order) s i b sz f v k =
      elim (Bool-cases (ltb s.cap_bytes s.resident_bytes && ltb 1 (length s.cache))) [
        | inr stop ↦ rw (stop, if◌then◌else◌) k
        | inl go ↦
            let (c, n, e) = front_cached s old order v in
            let same : evict codec s (old ∷ order) ≡ evict codec (after s old c n) order =
              rw (go, if◌then◌else◌, e) refl in
            subst (IsKept i b sz) (sym same) (
              evict-IsKept order (after s old c n) i b sz f (after-IsStoredBy s old order c n v e)
                (after-IsKept s old c n i b sz f e k))
      ]
