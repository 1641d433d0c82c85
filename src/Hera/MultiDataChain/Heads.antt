-- ===== src/Hera/MultiDataChain/Heads.antt =====
-- consensus/src/server/hera/chain_state/multi_data_chain.rs: where the drain leaves the head of the author,
-- and the children below it.
use leto_rs.Prelude.{
  ℕ, zero, suc, ◌<◌, ◌≡◌, refl, sym, ap, ◌∙◌, ◌⊎◌, inl, inr, true, none, some, List, [], ◌∷◌,
  nat_eq, nat_beq, nat_beq_iff, if◌then◌else◌, lookup, contains_key, lookup-insert, lookup-remove,
  All, Bool-cases, Option-cases, eq_of_some, arith,
}
use mathlib.Core.Path.{subst}
use leto_rs.Zeus.Types.{DataBlock}
use leto_rs.Hera.MultiDataChain.{
  MultiAuthorDataChainState, Hashing, link, set_head, drain_block, drain_blocks, take_parked, drain,
}
use leto_rs.Hera.MultiDataChain.Links.{IsLinked, take_parked-IsLinked}
use leto_rs.Hera.MultiDataChain.Drain.{drain_blocks-IsLinked}

module _ {Tx : Type 0} (hashing : Hashing Tx) where
  open hashing use {hash, rank, rank_lem}

  -- The author had the head and the height in the first state; in the second one nothing is parked under
  -- its head, which is the same with the same height, or one above it, where blocks were parked
  -- under it.
  abbrev pub Settled :
      ℕ → ℕ → ℕ → MultiAuthorDataChainState Tx → MultiAuthorDataChainState Tx → Type 0
  Settled a h n s t =
      (j : ℕ) × (lookup a t.heads ≡ some j)
      × (lookup j t.pending_data_blocks ≡ none)
      × (((j ≡ h) × (lookup a t.heights ≡ some n))
          ⊎ ((rank h < rank j) × (contains_key h s.pending_data_blocks ≡ true)))

  AtOrAbove : ℕ → ℕ → ℕ → MultiAuthorDataChainState Tx → Type 0
  AtOrAbove a h n s =
      ((lookup a s.heads ≡ some h) × (lookup a s.heights ≡ some n))
      ⊎ ((j : ℕ) × (lookup a s.heads ≡ some j) × (rank h < rank j))

  drain_block_head :
      (s : MultiAuthorDataChainState Tx) (a h n : ℕ) (b : DataBlock Tx)
      → b.envelope.parent_hash ≡ h
      → AtOrAbove a h n s
      → AtOrAbove a h n (drain_block hashing s a b)
  unfolding AtOrAbove drain_block link set_head
  drain_block_head s a h n b e x = elim (Bool-cases (nat_beq b.sig.signer a)) [
    | inr other ↦ rw (other, if◌then◌else◌) x
    | inl own ↦
        rw (own, if◌then◌else◌)
          (inr (
            hash b.envelope,
            ground (arith, nat_beq_iff a a, lookup-insert a a (hash b.envelope) s.heads),
            subst (λ i. rank i < rank (hash b.envelope)) e (rank_lem b.envelope),
          ))
  ]

  drain_blocks_head :
      (bs : List (DataBlock Tx)) (s : MultiAuthorDataChainState Tx) (a h n : ℕ)
      → All (λ b. b.envelope.parent_hash ≡ h) bs
      → AtOrAbove a h n s
      → AtOrAbove a h n (drain_blocks hashing s a bs)
  unfolding drain_blocks
  drain_blocks_head [] s a h n p x = x
  drain_blocks_head (b ∷ bs) s a h n p x =
      drain_blocks_head bs (drain_block hashing s a b) a h n p.1 (drain_block_head s a h n b p.0 x)

  nothing_parked :
      (s : MultiAuthorDataChainState Tx) (a h n : ℕ)
      → lookup a s.heads ≡ some h
      → lookup a s.heights ≡ some n
      → Settled a h n s (take_parked hashing s h)
  unfolding take_parked
  nothing_parked s a h n e f = (
    h,
    e,
    ground (arith, nat_beq_iff h h, lookup-remove h h s.pending_data_blocks),
    inl (refl, f),
  )

  drained_again :
      (s u t : MultiAuthorDataChainState Tx) (a h n : ℕ)
      → contains_key h s.pending_data_blocks ≡ true
      → Settled a h n u t
      → Settled a h n s t
  drained_again s u t a h n parked (j, p, q, inl same) = (j, p, q, inl same)
  drained_again s u t a h n parked (j, p, q, inr (up, y)) = (j, p, q, inr (up, parked))

  drained_above :
      (s u t : MultiAuthorDataChainState Tx) (a h n c m : ℕ)
      → rank h < rank c
      → contains_key h s.pending_data_blocks ≡ true
      → Settled a c m u t
      → Settled a h n s t
  drained_above s u t a h n c m up parked (j, p, q, inl (same, y)) =
      (j, p, q, inr (subst (λ l. rank h < rank l) (sym same) up, parked))
  drained_above s u t a h n c m up parked (j, p, q, inr (more, y)) =
      (j, p, q, inr (omega (arith, up, more), parked))

  pub drain-Settled :
      (fuel : ℕ) (s t : MultiAuthorDataChainState Tx) (a h n : ℕ)
      → IsLinked hashing s
      → lookup a s.heads ≡ some h
      → lookup a s.heights ≡ some n
      → drain hashing fuel s a ≡ some t
      → Settled a h n s t
  unfolding drain AtOrAbove take_parked
  drain-Settled zero s t a h n v e f g = cc
  drain-Settled (suc fuel) s t a h n v e f g =
      elim (Option-cases (lookup h s.pending_data_blocks)) [
        | inl k ↦
            subst (Settled a h n s) (eq_of_some _ t (rw (drain, e, k) at g))
              (nothing_parked s a h n e f)
        | inr ([], k) ↦
            subst (Settled a h n s) (eq_of_some _ t (rw (drain, e, k) at g))
              (nothing_parked s a h n e f)
        | inr (b ∷ bs, k) ↦
            let parents : All (λ c. c.envelope.parent_hash ≡ h) (b ∷ bs) = rw k at (v.waiting h) in
            let parked : contains_key h s.pending_data_blocks ≡ true = ground (arith, k) in
            let w = take_parked-IsLinked hashing s h v in
            let u = drain_blocks hashing (take_parked hashing s h) a (b ∷ bs) in
            let x =
              (drain_blocks-IsLinked hashing (b ∷ bs) (take_parked hashing s h) a h w
                (v.tips a h e).0 parents).0 in
            let rest : drain hashing fuel u a ≡ some t = rw (drain, e, k) at g in
            elim (drain_blocks_head (b ∷ bs) (take_parked hashing s h) a h n parents (inl (e, f))) [
              | inl (i, m) ↦
                  drained_again s u t a h n parked (drain-Settled fuel u t a h n x i m rest)
              | inr (c, i, up) ↦ elim (Option-cases (lookup a u.heights)) [
                | inl z ↦ ground (arith, z, (x.tips a c i).1)
                | inr (m, z) ↦
                    drained_above s u t a h n c m up parked
                      (drain-Settled fuel u t a c m x i z rest)
              ]
            ]
      ]

  drain_block_child :
      (s : MultiAuthorDataChainState Tx) (a h p : ℕ) (b : DataBlock Tx)
      → b.envelope.parent_hash ≡ h
      → rank p < rank h
      → lookup p (drain_block hashing s a b).child_of ≡ lookup p s.child_of
  unfolding drain_block link set_head
  drain_block_child s a h p b e below = elim (Bool-cases (nat_beq b.envelope.parent_hash p)) [
    | inl same ↦
        let q : h ≡ p = sym e ∙ (nat_beq_iff b.envelope.parent_hash p).0 same in
        let z : ⊥ = omega (arith, subst (λ i. rank p < rank i) q below) in elim z [ ]
    | inr other ↦
        ground (arith, other, lookup-insert p b.envelope.parent_hash (hash b.envelope) s.child_of)
  ]

  drain_blocks_child :
      (bs : List (DataBlock Tx)) (s : MultiAuthorDataChainState Tx) (a h p : ℕ)
      → All (λ b. b.envelope.parent_hash ≡ h) bs
      → rank p < rank h
      → lookup p (drain_blocks hashing s a bs).child_of ≡ lookup p s.child_of
  unfolding drain_blocks
  drain_blocks_child [] s a h p e below = refl
  drain_blocks_child (b ∷ bs) s a h p e below =
      drain_blocks_child bs (drain_block hashing s a b) a h p e.1 below
      ∙ drain_block_child s a h p b e.0 below

  -- The drain leaves the child of every hash below the author's head.
  pub drain_child :
      (fuel : ℕ) (s t : MultiAuthorDataChainState Tx) (a h n p : ℕ)
      → IsLinked hashing s
      → lookup a s.heads ≡ some h
      → lookup a s.heights ≡ some n
      → drain hashing fuel s a ≡ some t
      → rank p < rank h
      → lookup p t.child_of ≡ lookup p s.child_of
  unfolding drain AtOrAbove take_parked
  drain_child zero s t a h n p v e f g below = cc
  drain_child (suc fuel) s t a h n p v e f g below =
      elim (Option-cases (lookup h s.pending_data_blocks)) [
        | inl k ↦
            ap (λ x. lookup p x.child_of)
              (sym (eq_of_some (take_parked hashing s h) t (rw (drain, e, k) at g)))
        | inr ([], k) ↦
            ap (λ x. lookup p x.child_of)
              (sym (eq_of_some (take_parked hashing s h) t (rw (drain, e, k) at g)))
        | inr (b ∷ bs, k) ↦
            let parents : All (λ c. c.envelope.parent_hash ≡ h) (b ∷ bs) = rw k at (v.waiting h) in
            let s' = take_parked hashing s h in
            let w = take_parked-IsLinked hashing s h v in
            let u = drain_blocks hashing s' a (b ∷ bs) in
            let x = (drain_blocks-IsLinked hashing (b ∷ bs) s' a h w (v.tips a h e).0 parents).0 in
            let rest : drain hashing fuel u a ≡ some t = rw (drain, e, k) at g in
            let same = drain_blocks_child (b ∷ bs) s' a h p parents below in
            elim (drain_blocks_head (b ∷ bs) s' a h n parents (inl (e, f))) [
              | inl (i, m) ↦ drain_child fuel u t a h n p x i m rest below ∙ same
              | inr (c, i, up) ↦ elim (Option-cases (lookup a u.heights)) [
                | inl z ↦ ground (arith, z, (x.tips a c i).1)
                | inr (m, z) ↦
                    drain_child fuel u t a c m p x i z rest (omega (arith, up, below)) ∙ same
              ]
            ]
      ]
