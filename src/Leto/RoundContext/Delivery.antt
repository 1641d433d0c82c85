-- ===== src/Leto/RoundContext/Delivery.antt =====
-- consensus/src/server/leto/round_context.rs: every message of a round reaches that round.
use leto_rs.Prelude.{
  ◌>>=◌, ℕ, ◌+◌, ◌<◌, ◌≡◌, refl, ap, sym, ◌∙◌, inl, inr, Bool, ◌&&◌, some, List, [], ◌∷◌, ◌++◌, map,
  nat_eq, nat_beq, nat_beq_iff, ltb, leb, if◌then◌else◌, Map, lookup, remove, retain,
  wrapping_add_small, usize_mod, lookup-remove, lookup-retain, All, All-append, arith, Bool-cases,
  eq_of_some,
}
use mathlib.Core.Path.{subst}
use mathlib.Core.List.{append_assoc}
use leto_rs.Types.{
  ProtocolMsg, propose, relay, blame, blame_qc, batch_request, batch_response, element_request,
  element_response,
}
use leto_rs.Leto.RoundContext.{
  RoundContext, RoundTimer, queue_at, push, push_all, as_propose, as_blame, as_blame_qc, msg_round,
  collect, take_proposals, take_blame_qcs, take_blames, advance_round, queue_msg, sync, new,
}
use leto_rs.Leto.RoundContext.Order.{
  queue_at-push, queue_at-push_all, place, place_blame, place_blame_behind, place_blame_qc,
  place_propose,
}

pub All-push :
    {A : Type 0} (P : ℕ → A → Type 0) (q r : ℕ) (a : A) (m : Map ℕ (List A))
    → P r a
    → All (P q) (queue_at q m)
    → All (P q) (queue_at q (push r a m))
All-push P q r a m h k = elim (Bool-cases (nat_beq r q)) [
  | inl e ↦
      let same = (nat_beq_iff r q).0 e in
      rw (queue_at-push q r a m, e)
        (All-append (P q) (queue_at r m) (a ∷ [])
          (subst (λ i. All (P q) (queue_at i m)) (sym same) k) (subst (λ i. P i a) same h, tt))
  | inr e ↦ rw (queue_at-push q r a m, e) k
]

pub queue_at-remove :
    {A : Type 0} (q r : ℕ) (m : Map ℕ (List A))
    → queue_at q (remove r m) ≡ (if nat_beq r q then [] else queue_at q m)
queue_at-remove q r m = ground (arith, lookup-remove q r m)

pub queue_at-retain :
    {A : Type 0} (q : ℕ) (keep : ℕ → Bool) (m : Map ℕ (List A))
    → queue_at q (retain keep m) ≡ (if keep q then queue_at q m else [])
queue_at-retain q keep m = ground (arith, lookup-retain q keep m)

module _ {Tx H : Type 0} where
  -- The messages that the context holds for the round, in the order of their delivery.
  abbrev pub pending : RoundContext Tx H → ℕ → List (ProtocolMsg Tx)
  pending c r =
      if ltb c.current_round r
      then map as_propose (queue_at r c.proposals_ready)
        ++ (map as_blame_qc (queue_at r c.blame_qc_ready)
            ++ map as_blame (queue_at r c.blame_ready))
      else if nat_beq c.current_round r
      then queue_at r c.msg_buf
      else []

  -- The buffer holds messages of its round, and none of a later one; each queue holds messages of
  -- its own round.
  pub record IsSynced (c : RoundContext Tx H) : Type 0 where
    pub later : (r : ℕ) → c.current_round < r → queue_at r c.msg_buf ≡ []
    pub buffered : (r : ℕ) → All (λ m. msg_round m ≡ some r) (queue_at r c.msg_buf)
    pub proposals : (r : ℕ) → All (λ p. p.0.round ≡ r) (queue_at r c.proposals_ready)
    pub blames : (r : ℕ) → All (λ b. b.0 ≡ r) (queue_at r c.blame_ready)
    pub blame_qcs : (r : ℕ) → All (λ q. q.0 ≡ r) (queue_at r c.blame_qc_ready)

  pub new-IsSynced : (n : ℕ) → IsSynced (new n)
  unfolding new lookup
  new-IsSynced n = record {
    later = λ r h. refl;
    buffered = λ r. tt;
    proposals = λ r. tt;
    blames = λ r. tt;
    blame_qcs = λ r. tt;
  }

  -- Where `sync` returns, on a message that has a round, it files a message of the current round
  -- last, and one of a later round behind those of its kind; it drops one of an earlier round, and
  -- changes what is pending for no other round.
  pub sync-pending :
      (m : ProtocolMsg Tx) (k : ℕ) (c d : RoundContext Tx H) (r : ℕ)
      → msg_round m ≡ some k
      → sync m c ≡ some d
      → pending d r ≡ (
          if nat_beq k r && leb c.current_round k
          then (if ltb c.current_round k then place m (pending c r) else pending c r ++ m ∷ [])
          else pending c r)
  unfolding sync queue_msg msg_round
  sync-pending (propose p a b s) k c d r h e = ground (
    arith,
    queue_at-push r k (p, a, b, s) c.proposals_ready,
    queue_at-push r k (propose p a b s) c.msg_buf,
    nat_beq_iff k r,
    place_propose (p, a, b, s) (queue_at r c.proposals_ready) (queue_at r c.blame_qc_ready)
        (queue_at r c.blame_ready),
  )
  sync-pending (blame q a) k c d r h e = ground (
    arith,
    queue_at-push r k (q, a) c.blame_ready,
    queue_at-push r k (blame q a) c.msg_buf,
    nat_beq_iff k r,
    place_blame {Tx = Tx} (q, a) (queue_at r c.blame_ready),
    place_blame_behind (q, a) (queue_at r c.proposals_ready) (queue_at r c.blame_qc_ready)
        (map as_blame (queue_at r c.blame_ready)),
  )
  sync-pending (blame_qc q a) k c d r h e = ground (
    arith,
    queue_at-push r k (q, a) c.blame_qc_ready,
    queue_at-push r k (blame_qc q a) c.msg_buf,
    nat_beq_iff k r,
    place_blame_qc (q, a) (queue_at r c.proposals_ready) (queue_at r c.blame_qc_ready)
        (queue_at r c.blame_ready),
  )
  sync-pending (relay p a b s) k c d r h e = cc
  sync-pending (batch_request s q) k c d r h e = cc
  sync-pending (batch_response q) k c d r h e = cc
  sync-pending (element_request s q) k c d r h e = cc
  sync-pending (element_response q) k c d r h e = cc

  queue_msg-IsSynced :
      (m : ProtocolMsg Tx) (c d : RoundContext Tx H)
      → queue_msg m c ≡ some d
      → IsSynced c
      → IsSynced d
  unfolding queue_msg
  queue_msg-IsSynced (propose p a b s) c d e v = rw (← eq_of_some _ d e) (record {
    later = v.later;
    buffered = v.buffered;
    proposals = λ r.
        All-push (λ r x. x.0.round ≡ r) r p.round (p, a, b, s) c.proposals_ready refl
          (v.proposals r);
    blames = v.blames;
    blame_qcs = v.blame_qcs;
  })
  queue_msg-IsSynced (blame q a) c d e v = rw (← eq_of_some _ d e) (record {
    later = v.later;
    buffered = v.buffered;
    proposals = v.proposals;
    blames = λ r. All-push (λ r x. x.0 ≡ r) r q (q, a) c.blame_ready refl (v.blames r);
    blame_qcs = v.blame_qcs;
  })
  queue_msg-IsSynced (blame_qc q a) c d e v = rw (← eq_of_some _ d e) (record {
    later = v.later;
    buffered = v.buffered;
    proposals = v.proposals;
    blames = v.blames;
    blame_qcs = λ r. All-push (λ r x. x.0 ≡ r) r q (q, a) c.blame_qc_ready refl (v.blame_qcs r);
  })
  queue_msg-IsSynced _ c d e v = cc

  buffer-IsSynced :
      (m : ProtocolMsg Tx) (c : RoundContext Tx H)
      → msg_round m ≡ some c.current_round
      → IsSynced c
      → IsSynced (record c { msg_buf = push c.current_round m c.msg_buf })
  buffer-IsSynced m c h v = record {
    later = λ r l. ground (arith, v.later r, queue_at-push r c.current_round m c.msg_buf);
    buffered =
        λ r. All-push (λ r x. msg_round x ≡ some r) r c.current_round m c.msg_buf h (v.buffered r);
    proposals = v.proposals;
    blames = v.blames;
    blame_qcs = v.blame_qcs;
  }

  -- Where `sync` returns, on a message that has a round, it keeps every message in the queue of
  -- its round.
  pub sync-IsSynced :
      (m : ProtocolMsg Tx) (k : ℕ) (c d : RoundContext Tx H)
      → msg_round m ≡ some k
      → sync m c ≡ some d
      → IsSynced c
      → IsSynced d
  unfolding sync
  sync-IsSynced m k c d h e v = elim (Bool-cases (ltb k c.current_round)) [
    | inl old ↦ subst IsSynced (eq_of_some c d (rw (h, ◌>>=◌, old) at e)) v
    | inr fresh ↦ elim (Bool-cases (ltb c.current_round k)) [
      | inl future ↦ queue_msg-IsSynced m c d (rw (h, ◌>>=◌, fresh, future) at e) v
      | inr now ↦
          subst IsSynced (eq_of_some _ d (rw (h, ◌>>=◌, fresh, now) at e))
            (buffer-IsSynced m c (h ∙ ap some (ground arith)) v)
    ]
  ]

  -- Where every message is in the queue of its round and the next round does not overflow,
  -- `advance_round` drops the messages of the round that ends and of the earlier ones, and keeps
  -- those of every later round, in their order.
  pub advance_pending :
      {T : Type 0} (reset : T → T) (gc_depth : ℕ) (c : RoundContext Tx H) (t : RoundTimer T) (r : ℕ)
      → IsSynced c
      → c.current_round + 1 < usize_mod
      → pending (advance_round reset gc_depth (c, t)).0 r
        ≡ (if leb r c.current_round then [] else pending c r)
  unfolding advance_round collect take_proposals take_blame_qcs take_blames
  advance_pending reset gc_depth c t r v b =
      let cur = c.current_round + 1 in
      let kept = retain (leb cur) c.msg_buf in
      let ps : List (ProtocolMsg Tx) = map as_propose (queue_at cur c.proposals_ready) in
      let qs : List (ProtocolMsg Tx) = map as_blame_qc (queue_at cur c.blame_qc_ready) in
      let bs : List (ProtocolMsg Tx) = map as_blame (queue_at cur c.blame_ready) in
      rw (wrapping_add_small c.current_round 1 b) (
        ground (
          arith,
          v.later r,
          nat_beq_iff cur r,
          queue_at-push_all r cur bs (push_all cur qs (push_all cur ps kept)),
          queue_at-push_all r cur qs (push_all cur ps kept),
          queue_at-push_all r cur ps kept,
          queue_at-retain r (leb cur) c.msg_buf,
          queue_at-remove r cur c.proposals_ready,
          queue_at-remove r cur c.blame_qc_ready,
          queue_at-remove r cur c.blame_ready,
          append_assoc ps qs bs,
        ))
