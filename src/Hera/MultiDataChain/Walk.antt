-- ===== src/Hera/MultiDataChain/Walk.antt =====
-- consensus/src/server/hera/chain_state/multi_data_chain.rs: the walk along `child_of` ends, and keeps the
-- links.
use leto_rs.Prelude.{
  ℕ, zero, suc, ◌<◌, ◌≡◌, refl, sym, ap, ◌∙◌, inl, inr, some, nat_eq, nat_beq_iff, lookup, length,
  lookup-insert, Option-cases, eq_of_some, arith,
}
use mathlib.Core.Path.{subst}
use leto_rs.Prelude.Ranks.{keys_above, keys_above-length, keys_above_step}
use leto_rs.Zeus.Types.{DataBlock}
use leto_rs.Hera.MultiDataChain.{
  MultiAuthorDataChainState, Hashing, link, set_head, next_of, advance_head,
  advance_head_via_child_of,
}
use leto_rs.Hera.MultiDataChain.Links.{
  IsLinked, Grows, Grows-refl, Grows-trans, set_head-Grows, set_head-IsLinked,
}

module _ {Tx : Type 0} (hashing : Hashing Tx) where
  open hashing use {hash, rank, rank_lem}

  pub next_of_parts :
      (s : MultiAuthorDataChainState Tx) (author n : ℕ) (b : DataBlock Tx)
      → next_of hashing s author ≡ some (n, b)
      → (head : ℕ) × (lookup author s.heads ≡ some head)
        × (lookup head s.child_of ≡ some n)
        × (lookup n s.block_store ≡ some b)
  unfolding next_of
  next_of_parts s author n b e = elim (Option-cases (lookup author s.heads)) [
    | inl f ↦ ground (arith, e, f)
    | inr (head, f) ↦ elim (Option-cases (lookup head s.child_of)) [
      | inl g ↦ ground (arith, e, f, g)
      | inr (m, g) ↦ elim (Option-cases (lookup m s.block_store)) [
        | inl h ↦ ground (arith, e, f, g, h)
        | inr (c, h) ↦
            let same : m ≡ n = ground (arith, e, f, g, h) in
            let block : b ≡ c = ground (arith, e, f, g, h) in
            (
              head,
              f,
              g ∙ ap some same,
              subst (λ j. lookup j s.block_store ≡ some b) same (h ∙ ap some (sym block)),
            )
      ]
    ]
  ]

  pub link_pending :
      (s : MultiAuthorDataChainState Tx) (b : DataBlock Tx)
      → (link hashing s b).pending_data_blocks ≡ s.pending_data_blocks
  unfolding link
  link_pending s b = refl

  pub set_head_pending :
      (s : MultiAuthorDataChainState Tx) (a h n : ℕ)
      → (set_head hashing s a h n).pending_data_blocks ≡ s.pending_data_blocks
  unfolding set_head
  set_head_pending s a h n = refl

  set_head_child_of :
      (s : MultiAuthorDataChainState Tx) (a h n : ℕ)
      → (set_head hashing s a h n).child_of ≡ s.child_of
  unfolding set_head
  set_head_child_of s a h n = refl

  set_head_own :
      (s : MultiAuthorDataChainState Tx) (a h n j : ℕ)
      → lookup a (set_head hashing s a h n).heads ≡ some j
      → j ≡ h
  unfolding set_head
  set_head_own s a h n j e =
      eq_of_some j h (sym e ∙ ground (arith, nat_beq_iff a a, lookup-insert a a h s.heads))

  advance_head_total :
      (fuel : ℕ) (s : MultiAuthorDataChainState Tx) (author : ℕ)
      → IsLinked hashing s
      → 0 < fuel
      → ((head : ℕ)
          → lookup author s.heads ≡ some head
          → keys_above rank (rank head) s.child_of < fuel)
      → (t : MultiAuthorDataChainState Tx) × (advance_head hashing fuel s author ≡ some t)
        × IsLinked hashing t
        × Grows hashing author s t
  unfolding advance_head
  advance_head_total zero s author v p b = elim p [ ]
  advance_head_total (suc fuel) s author v p b = elim (Option-cases (next_of hashing s author)) [
    | inl e ↦ (s, rw (advance_head, e) refl, v, Grows-refl hashing author s)
    | inr ((n, c), e) ↦
        let (head, f, g, h) = next_of_parts s author n c e in
        let u = set_head hashing s author n c.envelope.height in
        let w = set_head-IsLinked hashing s author n c.envelope.height v (ground (arith, h)) in
        let less = keys_above_step rank head n (rank n) s.child_of g (v.above head n g) in
        let (t, i, x, k) =
          advance_head_total fuel u author w (omega (arith, less, b head f)) (λ j q.
            rw
              (
                set_head_own s author n c.envelope.height j q,
                set_head_child_of s author n c.envelope.height,
              )
              (omega (arith, less, b head f))) in
        (
          t,
          rw (advance_head, e) i,
          x,
          Grows-trans hashing author s u t (set_head-Grows hashing s author n c.envelope.height) k,
        )
  ]

  pub advance-IsLinked :
      (s : MultiAuthorDataChainState Tx) (author : ℕ)
      → IsLinked hashing s
      → (t : MultiAuthorDataChainState Tx) × (advance_head_via_child_of hashing s author ≡ some t)
        × IsLinked hashing t
        × Grows hashing author s t
  unfolding advance_head_via_child_of
  advance-IsLinked s author v =
      advance_head_total (suc (length s.child_of)) s author v (omega arith)
        (λ head e. omega (arith, keys_above-length rank (rank head) s.child_of))
