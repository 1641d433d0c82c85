-- ===== src/Hera/MultiDataChain/Climbing.antt =====
-- consensus/src/server/hera/chain_state/multi_data_chain.rs: where the walk along `child_of` leaves the head
-- of the author.
use leto_rs.Prelude.{
  ℕ, zero, suc, ◌<◌, ◌≤◌, ◌≡◌, refl, sym, ◌∙◌, inl, inr, none, some, nat_eq, nat_beq_iff, lookup,
  lookup-insert, Option-cases, eq_of_some, arith,
}
use mathlib.Core.Path.{subst}
use leto_rs.Hera.MultiDataChain.{
  MultiAuthorDataChainState, Hashing, set_head, next_of, advance_head,
}
use leto_rs.Hera.MultiDataChain.Links.{IsLinked, set_head-IsLinked}
use leto_rs.Hera.MultiDataChain.Walk.{next_of_parts}

module _ {Tx : Type 0} (hashing : Hashing Tx) where
  open hashing use {rank}

  -- The second state is the first one with the author's head moved up along the child links, from the
  -- first hash to the second one, to their end.
  pub record Climbs (a h i : ℕ) (s t : MultiAuthorDataChainState Tx) : Type 0 where
    pub head : lookup a t.heads ≡ some i
    pub up : rank h ≤ rank i
    pub ended : next_of hashing t a ≡ none
    pub children : t.child_of ≡ s.child_of
    pub blocks : t.block_store ≡ s.block_store
    pub parked_blocks : t.pending_data_blocks ≡ s.pending_data_blocks

  head_set :
      (s : MultiAuthorDataChainState Tx) (a h n : ℕ)
      → lookup a (set_head hashing s a h n).heads ≡ some h
  unfolding set_head
  head_set s a h n = ground (arith, nat_beq_iff a a, lookup-insert a a h s.heads)

  moved :
      (s t : MultiAuthorDataChainState Tx) (a h n i height : ℕ)
      → rank h ≤ rank n
      → Climbs a n i (set_head hashing s a n height) t
      → Climbs a h i s t
  unfolding set_head
  moved s t a h n i height up x = record {
    head = x.head;
    up = omega (arith, up, x.up);
    ended = x.ended;
    children = x.children;
    blocks = x.blocks;
    parked_blocks = x.parked_blocks;
  }

  pub advance-Climbs :
      (fuel : ℕ) (s t : MultiAuthorDataChainState Tx) (a h : ℕ)
      → IsLinked hashing s
      → lookup a s.heads ≡ some h
      → advance_head hashing fuel s a ≡ some t
      → (i : ℕ) × Climbs a h i s t
  unfolding advance_head
  advance-Climbs zero s t a h v e g = cc
  advance-Climbs (suc fuel) s t a h v e g = elim (Option-cases (next_of hashing s a)) [
    | inl f ↦
        let same = eq_of_some s t (rw (advance_head, f) at g) in
        subst (λ t. (i : ℕ) × Climbs a h i s t) same
          (
            h,
            record {
              head = e;
              up = omega arith;
              ended = f;
              children = refl;
              blocks = refl;
              parked_blocks = refl;
            },
          )
    | inr ((n, c), f) ↦
        let (head, k, l, m) = next_of_parts hashing s a n c f in
        let same : head ≡ h = eq_of_some head h (sym k ∙ e) in
        let u = set_head hashing s a n c.envelope.height in
        let w = set_head-IsLinked hashing s a n c.envelope.height v (ground (arith, m)) in
        let (i, x) =
          advance-Climbs fuel u t a n w (head_set s a n c.envelope.height)
            (rw (advance_head, f) at g) in
        let above : rank h < rank n =
          v.above h n (subst (λ q. lookup q s.child_of ≡ some n) same l) in
        (i, moved s t a h n i c.envelope.height (omega (arith, above)) x)
  ]
