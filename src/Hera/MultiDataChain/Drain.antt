-- ===== src/Hera/MultiDataChain/Drain.antt =====
-- consensus/src/server/hera/chain_state/multi_data_chain.rs: the drain of parked blocks ends, and keeps the
-- links.
use leto_rs.Prelude.{
  ℕ, zero, suc, ◌≤◌, ◌<◌, ◌≡◌, refl, ◌∙◌, inl, inr, true, some, List, [], ◌∷◌, nat_eq, nat_beq,
  if◌then◌else◌, Map, lookup, remove, contains_key, length, All, Bool-cases, Option-cases, arith,
}
use leto_rs.Zeus.Types.{DataBlock}
use leto_rs.Hera.MultiDataChain.{
  MultiAuthorDataChainState, Hashing, link, set_head, drain_block, drain_blocks, take_parked, drain,
  drain_pending_for_author,
}
use leto_rs.Hera.MultiDataChain.Links.{
  IsLinked, Grows, Grows-refl, Grows-trans, link-Grows, link-stored, link-IsLinked, set_head-Grows,
  set_head-IsLinked, take_parked-IsLinked,
}
use leto_rs.Hera.MultiDataChain.Walk.{link_pending, set_head_pending}

module _ {Tx : Type 0} (hashing : Hashing Tx) where
  open hashing use {hash}

  drain_block-IsLinked :
      (s : MultiAuthorDataChainState Tx) (author : ℕ) (b : DataBlock Tx)
      → IsLinked hashing s
      → contains_key b.envelope.parent_hash s.block_store ≡ true
      → IsLinked hashing (drain_block hashing s author b)
        × Grows hashing author s (drain_block hashing s author b)
        × ((drain_block hashing s author b).pending_data_blocks ≡ s.pending_data_blocks)
  unfolding drain_block
  drain_block-IsLinked s author b v k =
      let t = link hashing s b in
      let w = link-IsLinked hashing s b v k in
      let g = link-Grows hashing author s b in
      let h = hash b.envelope in
      elim (Bool-cases (nat_beq b.sig.signer author)) [
        | inr other ↦ rw (other, if◌then◌else◌) (w, g, link_pending hashing s b)
        | inl own ↦
            rw (own, if◌then◌else◌)
              (
                set_head-IsLinked hashing t author h b.envelope.height w (link-stored hashing s b),
                Grows-trans hashing author s t (set_head hashing t author h b.envelope.height) g
                    (set_head-Grows hashing t author h b.envelope.height),
                set_head_pending hashing t author h b.envelope.height ∙ link_pending hashing s b,
              )
      ]

  pub drain_blocks-IsLinked :
      (bs : List (DataBlock Tx)) (s : MultiAuthorDataChainState Tx) (author head : ℕ)
      → IsLinked hashing s
      → contains_key head s.block_store ≡ true
      → All (λ b. b.envelope.parent_hash ≡ head) bs
      → IsLinked hashing (drain_blocks hashing s author bs)
        × Grows hashing author s (drain_blocks hashing s author bs)
        × ((drain_blocks hashing s author bs).pending_data_blocks ≡ s.pending_data_blocks)
  unfolding drain_blocks
  drain_blocks-IsLinked [] s author head v k a = (v, Grows-refl hashing author s, refl)
  drain_blocks-IsLinked (b ∷ bs) s author head v k a =
      let t = drain_block hashing s author b in
      let (w, g, p) = drain_block-IsLinked s author b v (rw a.0 k) in
      let (x, i, q) = drain_blocks-IsLinked bs t author head w (g.kept head k) a.1 in
      (x, Grows-trans hashing author s t (drain_blocks hashing t author bs) g i, q ∙ p)

  remove_shrinks :
      {V : Type 0} (k : ℕ) (m : Map ℕ V) (v : V)
      → lookup k m ≡ some v
      → length (remove k m) < length m
  unfolding lookup remove
  remove_shrinks k [] v e = cc
  remove_shrinks k ((j, w) ∷ m) v e = ground (arith, e, remove_small k m, remove_shrinks k m v)
    where
      remove_small : {V : Type 0} (k : ℕ) (m : Map ℕ V) → length (remove k m) ≤ length m
      remove_small k [] = omega arith
      remove_small k ((j, w) ∷ m) = ground (arith, remove_small k m)

  take_parked-Grows :
      (author h : ℕ) (s : MultiAuthorDataChainState Tx)
      → Grows hashing author s (take_parked hashing s h)
        × ((take_parked hashing s h).pending_data_blocks ≡ remove h s.pending_data_blocks)
  unfolding take_parked
  take_parked-Grows author h s = (
    record {
      kept = λ i k. k;
      known = λ k. k;
      other_heads = λ a e. refl;
      other_heights = λ a e. refl;
    },
    refl,
  )

  drain_total :
      (fuel : ℕ) (s : MultiAuthorDataChainState Tx) (author : ℕ)
      → IsLinked hashing s
      → length s.pending_data_blocks < fuel
      → (t : MultiAuthorDataChainState Tx) × (drain hashing fuel s author ≡ some t)
        × IsLinked hashing t
        × Grows hashing author s t
  unfolding drain
  drain_total zero s author v l = elim l [ ]
  drain_total (suc fuel) s author v l = elim (Option-cases (lookup author s.heads)) [
    | inl e ↦ (s, rw (drain, e) refl, v, Grows-refl hashing author s)
    | inr (head, e) ↦
        let t = take_parked hashing s head in
        let w = take_parked-IsLinked hashing s head v in
        let (g, p) = take_parked-Grows author head s in
        elim (Option-cases (lookup head s.pending_data_blocks)) [
          | inl f ↦ (t, rw (drain, e, f) refl, w, g)
          | inr ([], f) ↦ (t, rw (drain, e, f) refl, w, g)
          | inr (b ∷ bs, f) ↦
              let parents : All (λ c. c.envelope.parent_hash ≡ head) (b ∷ bs) =
                rw f at (v.waiting head) in
              let (x, k, q) =
                drain_blocks-IsLinked (b ∷ bs) t author head w
                  (g.kept head (v.tips author head e).0) parents in
              let u = drain_blocks hashing t author (b ∷ bs) in
              let (z, i, y, j) =
                drain_total fuel u author x (
                  rw (q, p)
                    (omega (arith, remove_shrinks head s.pending_data_blocks (b ∷ bs) f))) in
              (
                z,
                rw (drain, e, f) i,
                y,
                Grows-trans hashing author s u z (Grows-trans hashing author s t u g k) j,
              )
        ]
  ]

  pub drain-IsLinked :
      (s : MultiAuthorDataChainState Tx) (author : ℕ)
      → IsLinked hashing s
      → (t : MultiAuthorDataChainState Tx) × (drain_pending_for_author hashing s author ≡ some t)
        × IsLinked hashing t
        × Grows hashing author s t
  unfolding drain_pending_for_author
  drain-IsLinked s author v =
      drain_total (suc (length s.pending_data_blocks)) s author v (omega arith)
