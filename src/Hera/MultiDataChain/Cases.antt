-- ===== src/Hera/MultiDataChain/Cases.antt =====
-- consensus/src/server/hera/chain_state/multi_data_chain.rs: the two cases of `admit_typed` that store the
-- block, and what each result says.
use leto_rs.Prelude.{
  ◌>>=◌, ℕ, suc, ◌≡◌, refl, ap, ◌∙◌, length, lookup-insert, inl, inr, true, false, none, some,
  nat_eq, nat_beq, nat_beq_iff, lookup, contains_key, Occurs, Option-cases, arith,
}
use leto_rs.Zeus.Types.{DataBlock}
use leto_rs.Leto.RoundContext.{queue_at}
use leto_rs.Hera.MultiDataChain.{
  MultiAuthorDataChainState, Hashing, AdmitTypedResult, extended, bridge, parked, duplicate,
  invalid, link, set_head, advance_head_via_child_of, drain_pending_for_author, extend, bridge_over,
}
use leto_rs.Hera.MultiDataChain.Links.{
  IsLinked, Grows, Grows-trans, link-Grows, link-stored, link-IsLinked, set_head-Grows,
  set_head-IsLinked,
}
use leto_rs.Hera.MultiDataChain.Walk.{advance-IsLinked}
use leto_rs.Hera.MultiDataChain.Drain.{drain-IsLinked}
use leto_rs.Hera.MultiDataChain.Heads.{Settled, drain-Settled, drain_child}
use leto_rs.Hera.MultiDataChain.Climbing.{Climbs, advance-Climbs}

module _ {Tx : Type 0} (hashing : Hashing Tx) where
  open hashing use {hash, rank_lem}

  -- What a result says of the block and of the state after the admission.
  abbrev pub Outcome :
      AdmitTypedResult
      → DataBlock Tx
      → MultiAuthorDataChainState Tx
      → MultiAuthorDataChainState Tx
      → Type 0
  Outcome extended b s t =
      (lookup b.sig.signer s.heads ≡ some b.envelope.parent_hash)
      × (contains_key (hash b.envelope) t.block_store ≡ true)
      × (lookup b.envelope.parent_hash t.child_of ≡ some (hash b.envelope))
      × Settled hashing b.sig.signer (hash b.envelope) b.envelope.height s t
  Outcome bridge b s t =
      (h : ℕ) × (i : ℕ) × (n : ℕ) × (u : MultiAuthorDataChainState Tx) × (lookup b.sig.signer
          s.heads
        ≡ some h)
      × (nat_beq b.envelope.parent_hash h ≡ false)
      × (contains_key b.envelope.parent_hash s.block_store ≡ true)
      × (contains_key (hash b.envelope) t.block_store ≡ true)
      × Climbs hashing b.sig.signer h i (link hashing s b) u
      × (lookup b.envelope.parent_hash u.child_of ≡ some (hash b.envelope))
      × (lookup b.sig.signer u.heights ≡ some n)
      × Settled hashing b.sig.signer i n u t
  Outcome (parked p) b s t =
      (p ≡ b.envelope.parent_hash)
      × (contains_key p s.block_store ≡ false)
      × Occurs b (queue_at p t.pending_data_blocks)
  Outcome duplicate b s t = (contains_key (hash b.envelope) s.block_store ≡ true) × (t ≡ s)
  Outcome invalid b s t = (lookup b.sig.signer s.heads ≡ none) × (t ≡ s)

  link_child :
      (s : MultiAuthorDataChainState Tx) (b : DataBlock Tx)
      → lookup b.envelope.parent_hash (link hashing s b).child_of ≡ some (hash b.envelope)
  unfolding link
  link_child s b =
      let p = b.envelope.parent_hash in
      ground (arith, nat_beq_iff p p, lookup-insert p p (hash b.envelope) s.child_of)

  pub extend_lem :
      (s : MultiAuthorDataChainState Tx) (b : DataBlock Tx)
      → IsLinked hashing s
      → lookup b.sig.signer s.heads ≡ some b.envelope.parent_hash
      → (t : MultiAuthorDataChainState Tx) × (extend hashing s b.sig.signer b ≡ some (extended, t))
        × IsLinked hashing t
        × Grows hashing b.sig.signer s t
        × Outcome extended b s t
  unfolding extend drain_pending_for_author link set_head
  extend_lem s b v tip =
      let a = b.sig.signer in
      let h = hash b.envelope in
      let k = (v.tips a b.envelope.parent_hash tip).0 in
      let l = link hashing s b in
      let u = set_head hashing l a h b.envelope.height in
      let w =
        set_head-IsLinked hashing l a h b.envelope.height (link-IsLinked hashing s b v k)
          (link-stored hashing s b) in
      let g = set_head-Grows hashing l a h b.envelope.height in
      let (t, e, x, i) = drain-IsLinked hashing u a w in
      let fuel = suc (length s.pending_data_blocks) in
      let at_head : lookup a u.heads ≡ some h =
        ground (arith, nat_beq_iff a a, lookup-insert a a h s.heads) in
      let at_height : lookup a u.heights ≡ some b.envelope.height =
        ground (arith, nat_beq_iff a a, lookup-insert a a b.envelope.height s.heights) in
      (
        t,
        rw (e, ◌>>=◌) refl,
        x,
        Grows-trans hashing a s u t (Grows-trans hashing a s l u (link-Grows hashing a s b) g) i,
        (
          tip,
          i.kept h (g.kept h (link-stored hashing s b)),
          drain_child hashing fuel u t a h b.envelope.height b.envelope.parent_hash w at_head
                at_height e (rank_lem b.envelope)
              ∙ link_child s b,
          drain-Settled hashing fuel u t a h b.envelope.height w at_head at_height e,
        ),
      )

  link_heads :
      (s : MultiAuthorDataChainState Tx) (b : DataBlock Tx)
      → lookup b.sig.signer (link hashing s b).heads ≡ lookup b.sig.signer s.heads
  unfolding link
  link_heads s b = refl

  pub bridge_lem :
      (s : MultiAuthorDataChainState Tx) (b : DataBlock Tx) (head : ℕ)
      → IsLinked hashing s
      → lookup b.sig.signer s.heads ≡ some head
      → nat_beq b.envelope.parent_hash head ≡ false
      → contains_key b.envelope.parent_hash s.block_store ≡ true
      → (t : MultiAuthorDataChainState Tx) × (bridge_over hashing s b.sig.signer b
          ≡ some (bridge, t))
        × IsLinked hashing t
        × Grows hashing b.sig.signer s t
        × Outcome bridge b s t
  unfolding bridge_over drain_pending_for_author advance_head_via_child_of
  bridge_lem s b head v tip off k =
      let a = b.sig.signer in
      let h = hash b.envelope in
      let l = link hashing s b in
      let lg = link-Grows hashing a s b in
      let lv = link-IsLinked hashing s b v k in
      let (u, e, w, g) = advance-IsLinked hashing l a lv in
      let (t, f, x, i) = drain-IsLinked hashing u a w in
      let su = Grows-trans hashing a s l u lg g in
      let (j, climbs) =
        advance-Climbs hashing (suc (length l.child_of)) l u a head lv (link_heads s b ∙ tip) e in
      elim (Option-cases (lookup a u.heights)) [
        | inl y ↦ ground (arith, y, (w.tips a j climbs.head).1)
        | inr (height, y) ↦ (
          t,
          rw (e, ◌>>=◌) (rw (y, ◌>>=◌) (rw (f, ◌>>=◌) refl)),
          x,
          Grows-trans hashing a s u t su i,
          (
            head,
            j,
            height,
            u,
            tip,
            off,
            k,
            i.kept h (g.kept h (link-stored hashing s b)),
            climbs,
            ap (lookup b.envelope.parent_hash) climbs.children ∙ link_child s b,
            y,
            drain-Settled hashing (suc (length u.pending_data_blocks)) u t a j height w climbs.head
                y f,
          ),
        )
      ]
