-- ===== src/Hera/MultiDataChain/Admission.antt =====
-- consensus/src/server/hera/chain_state/multi_data_chain.rs: `admit_typed` on all its branches.
use leto_rs.Prelude.{
  ℕ, ◌≡◌, refl, sym, ap, ◌∙◌, inl, inr, true, false, some, List, [], ◌∷◌, ◌++◌, nat_eq, nat_beq,
  nat_beq_iff, if◌then◌else◌, Map, lookup, contains_key, Occurs, Bool-cases, Option-cases, arith,
}
use mathlib.Core.Path.{subst}
use leto_rs.Zeus.Types.{DataBlock}
use leto_rs.Leto.RoundContext.{queue_at, push}
use leto_rs.Leto.RoundContext.Order.{queue_at-push}
use leto_rs.Leto.RoundContext.Delivery.{All-push}
use leto_rs.Hera.MultiDataChain.{
  MultiAuthorDataChainState, Hashing, AdmitTypedResult, extended, bridge, parked, duplicate,
  invalid, genesis_hash, admit_typed,
}
use leto_rs.Hera.MultiDataChain.Links.{IsLinked, Grows, Grows-refl}
use leto_rs.Hera.MultiDataChain.Cases.{Outcome, extend_lem, bridge_lem}

module _ {Tx : Type 0} (hashing : Hashing Tx) where
  open hashing use {hash}

  Occurs-push : (b : DataBlock Tx) (xs : List (DataBlock Tx)) → Occurs b (xs ++ b ∷ [])
  Occurs-push b [] = inl refl
  Occurs-push b (x ∷ xs) = inr (Occurs-push b xs)

  waits_there :
      (b : DataBlock Tx) (p : ℕ) (m : Map ℕ (List (DataBlock Tx)))
      → Occurs b (queue_at p (push p b m))
  waits_there b p m =
      let filed : queue_at p (push p b m) ≡ queue_at p m ++ b ∷ [] =
        ground (arith, queue_at-push p p b m, nat_beq_iff p p) in
      subst (Occurs b) (sym filed) (Occurs-push b (queue_at p m))

  -- On a linked state with the genesis block stored, an admission neither panics nor runs forever;
  -- it keeps the links, every stored block, and the heads and heights of the other authors; and it
  -- ends in the case that its result names. Extended: the block's parent was the author's head, the
  -- block is stored and is its parent's child; it is the author's head, with its height, or the head
  -- is above it and blocks were parked under it. Bridge: the parent was stored and not the head, and
  -- the block is stored; with the block as its parent's child the head goes from the old one up along
  -- the child links to their end, and then stays there or, where blocks were parked under that end,
  -- is above it. In both cases nothing is left parked under the head. Parked: the parent was not
  -- stored, and the block waits under it. Duplicate: the hash was stored, and nothing changes.
  -- Invalid: the author has no head, and nothing changes.
  pub admit_typed_lem :
      (s : MultiAuthorDataChainState Tx) (b : DataBlock Tx)
      → IsLinked hashing s
      → contains_key (genesis_hash hashing) s.block_store ≡ true
      → (r : AdmitTypedResult) × (t : MultiAuthorDataChainState Tx) × (admit_typed hashing s b
          ≡ some (r, t))
        × IsLinked hashing t
        × Grows hashing b.sig.signer s t
        × Outcome hashing r b s t
  unfolding admit_typed
  admit_typed_lem s b v z =
      let a = b.sig.signer in
      let p = b.envelope.parent_hash in
      elim (Bool-cases (contains_key (hash b.envelope) s.block_store)) [
        | inl old ↦
            (duplicate, s, rw (old, if◌then◌else◌) refl, v, Grows-refl hashing a s, (old, refl))
        | inr fresh ↦ elim (Option-cases (lookup a s.heads)) [
          | inl e ↦
              (invalid, s, rw (fresh, if◌then◌else◌, e) refl, v, Grows-refl hashing a s, (e, refl))
          | inr (head, e) ↦ elim (Bool-cases (nat_beq p head)) [
            | inl tip ↦
                let at_head = e ∙ ap some (sym ((nat_beq_iff p head).0 tip)) in
                let (t, f, w, g, i) = extend_lem hashing s b v at_head in
                (extended, t, rw (fresh, if◌then◌else◌, e) (rw (tip, if◌then◌else◌) f), w, g, i)
            | inr off ↦ elim (Bool-cases (contains_key p s.block_store)) [
              | inl k ↦
                  let (t, f, w, g, i) = bridge_lem hashing s b head v e off k in
                  (
                    bridge,
                    t,
                    rw (fresh, if◌then◌else◌, e)
                        (rw (off, if◌then◌else◌) (rw (k, if◌then◌else◌) f)),
                    w,
                    g,
                    i,
                  )
              | inr missing ↦
                  let not_genesis : nat_beq p (genesis_hash hashing) ≡ false =
                    ground (arith, missing, z, nat_beq_iff p (genesis_hash hashing)) in
                  let t : MultiAuthorDataChainState Tx = record s {
                    pending_data_blocks = push p b s.pending_data_blocks;
                  } in
                  (
                    parked p,
                    t,
                    rw (fresh, if◌then◌else◌, e)
                        (rw (off, if◌then◌else◌)
                          (rw (missing, if◌then◌else◌) (rw (not_genesis, if◌then◌else◌) refl))),
                    record {
                      hashed = v.hashed;
                      parents = v.parents;
                      above = v.above;
                      tips = v.tips;
                      waiting = λ q.
                          All-push (λ q c. c.envelope.parent_hash ≡ q) q p b s.pending_data_blocks
                            refl (v.waiting q);
                    },
                    record {
                      kept = λ i k. k;
                      known = λ k. k;
                      other_heads = λ i k. refl;
                      other_heights = λ i k. refl;
                    },
                    (refl, missing, waits_there b p s.pending_data_blocks),
                  )
            ]
          ]
        ]
      ]
