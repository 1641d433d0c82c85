-- ===== src/Hera/MultiDataChain/Links.antt =====
-- consensus/src/server/hera/chain_state/multi_data_chain.rs: the links between the maps of the state.
use leto_rs.Prelude.{
  ℕ, ◌<◌, ◌≡◌, refl, ◌∙◌, ◌⊎◌, inl, inr, true, false, some, nat_eq, nat_beq, nat_beq_iff, lookup,
  contains_key, lookup-insert, All, Bool-cases, eq_of_some, arith,
}
use mathlib.Core.Path.{subst}
use leto_rs.Zeus.Types.{DataBlock}
use leto_rs.Leto.RoundContext.{queue_at}
use leto_rs.Leto.RoundContext.Delivery.{queue_at-remove}
use leto_rs.Hera.MultiDataChain.{
  MultiAuthorDataChainState, Hashing, genesis_hash, link, set_head, take_parked,
}

module _ {Tx : Type 0} (hashing : Hashing Tx) where
  open hashing use {hash, rank, rank_lem}

  -- A stored block stands under its hash and on a stored parent, unless it is the genesis block; a
  -- child is above its parent; heads are stored and have a height; a parked block waits under its
  -- parent.
  pub record IsLinked (s : MultiAuthorDataChainState Tx) : Type 0 where
    pub hashed : (h : ℕ) (b : DataBlock Tx) → lookup h s.block_store ≡ some b → hash b.envelope ≡ h
    pub parents :
        (h : ℕ) (b : DataBlock Tx)
        → lookup h s.block_store ≡ some b
        → (h ≡ genesis_hash hashing) ⊎ (contains_key b.envelope.parent_hash s.block_store ≡ true)
    pub above : (p c : ℕ) → lookup p s.child_of ≡ some c → rank p < rank c
    pub tips :
        (a h : ℕ)
        → lookup a s.heads ≡ some h
        → (contains_key h s.block_store ≡ true) × (contains_key a s.heights ≡ true)
    pub waiting : (p : ℕ) → All (λ b. b.envelope.parent_hash ≡ p) (queue_at p s.pending_data_blocks)

  -- Blocks stay, and so do the heads of the other authors.
  pub record Grows (author : ℕ) (s t : MultiAuthorDataChainState Tx) : Type 0 where
    pub kept : (h : ℕ) → contains_key h s.block_store ≡ true → contains_key h t.block_store ≡ true
    pub known : contains_key author s.heads ≡ true → contains_key author t.heads ≡ true
    pub other_heads : (a : ℕ) → nat_beq author a ≡ false → lookup a t.heads ≡ lookup a s.heads
    pub other_heights : (a : ℕ) → nat_beq author a ≡ false → lookup a t.heights ≡ lookup a s.heights

  pub Grows-refl : (author : ℕ) (s : MultiAuthorDataChainState Tx) → Grows author s s
  Grows-refl author s = record {
    kept = λ h k. k;
    known = λ k. k;
    other_heads = λ a e. refl;
    other_heights = λ a e. refl;
  }

  pub Grows-trans :
      (author : ℕ) (s t u : MultiAuthorDataChainState Tx)
      → Grows author s t
      → Grows author t u
      → Grows author s u
  Grows-trans author s t u g k = record {
    kept = λ h c. k.kept h (g.kept h c);
    known = λ c. k.known (g.known c);
    other_heads = λ a e. k.other_heads a e ∙ g.other_heads a e;
    other_heights = λ a e. k.other_heights a e ∙ g.other_heights a e;
  }

  pub link-Grows :
      (author : ℕ) (s : MultiAuthorDataChainState Tx) (b : DataBlock Tx)
      → Grows author s (link hashing s b)
  unfolding link
  link-Grows author s b = record {
    kept = λ h k. ground (arith, k, lookup-insert h (hash b.envelope) b s.block_store);
    known = λ k. k;
    other_heads = λ a e. refl;
    other_heights = λ a e. refl;
  }

  pub link-stored :
      (s : MultiAuthorDataChainState Tx) (b : DataBlock Tx)
      → contains_key (hash b.envelope) (link hashing s b).block_store ≡ true
  unfolding link
  link-stored s b = ground (
    arith,
    nat_beq_iff (hash b.envelope) (hash b.envelope),
    lookup-insert (hash b.envelope) (hash b.envelope) b s.block_store,
  )

  pub link-IsLinked :
      (s : MultiAuthorDataChainState Tx) (b : DataBlock Tx)
      → IsLinked s
      → contains_key b.envelope.parent_hash s.block_store ≡ true
      → IsLinked (link hashing s b)
  unfolding link
  link-IsLinked s b v k =
      let i = hash b.envelope in
      record {
        hashed = λ h c e. elim (Bool-cases (nat_beq i h)) [
          | inr other ↦ v.hashed h c (ground (arith, e, other, lookup-insert h i b s.block_store))
          | inl same ↦
              let eq : some b ≡ some c =
                ground (arith, e, same, lookup-insert h i b s.block_store) in
              subst (λ d. hash d.envelope ≡ h) (eq_of_some b c eq) ((nat_beq_iff i h).0 same)
        ];
        parents = λ h c e. elim (Bool-cases (nat_beq i h)) [
          | inr other ↦
              elim (v.parents h c (ground (arith, e, other, lookup-insert h i b s.block_store))) [
                | inl g ↦ inl g
                | inr p ↦ inr ((link-Grows 0 s b).kept c.envelope.parent_hash p)
              ]
          | inl same ↦
              let eq : some b ≡ some c =
                ground (arith, e, same, lookup-insert h i b s.block_store) in
              inr (
                subst
                  (λ d. contains_key d.envelope.parent_hash (link hashing s b).block_store ≡ true)
                  (eq_of_some b c eq) ((link-Grows 0 s b).kept b.envelope.parent_hash k))
        ];
        above = λ p c e. elim (Bool-cases (nat_beq b.envelope.parent_hash p)) [
          | inr other ↦
              v.above p c
                (ground (arith, e, other, lookup-insert p b.envelope.parent_hash i s.child_of))
          | inl same ↦
              let eq : some i ≡ some c =
                ground (arith, e, same, lookup-insert p b.envelope.parent_hash i s.child_of) in
              subst (λ d. rank p < rank d) (eq_of_some i c eq)
                (subst (λ q. rank q < rank i) ((nat_beq_iff b.envelope.parent_hash p).0 same)
                  (rank_lem b.envelope))
        ];
        tips = λ a h e. ((link-Grows 0 s b).kept h (v.tips a h e).0, (v.tips a h e).1);
        waiting = v.waiting;
      }

  pub set_head-Grows :
      (s : MultiAuthorDataChainState Tx) (author h height : ℕ)
      → Grows author s (set_head hashing s author h height)
  unfolding set_head
  set_head-Grows s author h height = record {
    kept = λ i k. k;
    known = λ k. ground (arith, nat_beq_iff author author, lookup-insert author author h s.heads);
    other_heads = λ a e. ground (arith, e, lookup-insert a author h s.heads);
    other_heights = λ a e. ground (arith, e, lookup-insert a author height s.heights);
  }

  pub set_head-IsLinked :
      (s : MultiAuthorDataChainState Tx) (author h height : ℕ)
      → IsLinked s
      → contains_key h s.block_store ≡ true
      → IsLinked (set_head hashing s author h height)
  unfolding set_head
  set_head-IsLinked s author h height v k = record {
    hashed = v.hashed;
    parents = v.parents;
    above = v.above;
    tips = λ a i e. elim (Bool-cases (nat_beq author a)) [
      | inr other ↦
          let (x, y) = v.tips a i (ground (arith, e, other, lookup-insert a author h s.heads)) in
          (x, ground (arith, y, other, lookup-insert a author height s.heights))
      | inl same ↦
          let eq : some h ≡ some i = ground (arith, e, same, lookup-insert a author h s.heads) in
          (
            subst (λ j. contains_key j s.block_store ≡ true) (eq_of_some h i eq) k,
            ground (arith, same, lookup-insert a author height s.heights),
          )
    ];
    waiting = v.waiting;
  }

  pub take_parked-IsLinked :
      (s : MultiAuthorDataChainState Tx) (h : ℕ) → IsLinked s → IsLinked (take_parked hashing s h)
  unfolding take_parked
  take_parked-IsLinked s h v = record {
    hashed = v.hashed;
    parents = v.parents;
    above = v.above;
    tips = v.tips;
    waiting = λ p. elim (Bool-cases (nat_beq h p)) [
      | inl e ↦ rw (queue_at-remove p h s.pending_data_blocks, e) tt
      | inr e ↦ rw (queue_at-remove p h s.pending_data_blocks, e) (v.waiting p)
    ];
  }
