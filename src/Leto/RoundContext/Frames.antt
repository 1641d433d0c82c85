-- ===== src/Leto/RoundContext/Frames.antt =====
-- consensus/src/server/leto/round_context.rs: what an operation leaves as it was.
use leto_rs.Prelude.{
  ℕ, ◌≡◌, refl, sym, ap, inl, inr, Bool, Option, none, some, List, [], ◌∷◌, nat_eq, nat_beq,
  nat_beq_iff, Map, lookup, insert, lookup-insert, All, Bool-cases, eq_of_some, arith,
}
use mathlib.Core.Path.{subst}
use leto_rs.Types.{Signature, ProtocolMsg, propose, blame, blame_qc}
use leto_rs.Leto.RoundContext.{
  RoundContext, queue_at, msg_round, queue_msg, sync, poll_next, add_handler, add_handlers,
}
use leto_rs.Leto.RoundContext.Delivery.{IsSynced, sync-IsSynced}

pub tail_of :
    {A : Type 0} (q r : ℕ) (m : A) (ms : List (A)) (b : Map ℕ (List (A))) (P : A → Type 0)
    → lookup q b ≡ some (m ∷ ms)
    → All P (queue_at r b)
    → All P (queue_at r (insert q ms b))
tail_of q r m ms b P e h = elim (Bool-cases (nat_beq q r)) [
  | inl f ↦
      rw (lookup-insert r q ms b, f)
        (rw (subst (λ i. lookup i b ≡ some (m ∷ ms)) ((nat_beq_iff q r).0 f) e) at h).1
  | inr f ↦ rw (lookup-insert r q ms b, f) h
]

module _ {Tx H : Type 0} where
  -- Round and blames of the two contexts agree.
  abbrev pub SameRound : RoundContext Tx H → RoundContext Tx H → Type 0
  SameRound c d = (d.current_round ≡ c.current_round) × (d.blame_map ≡ c.blame_map)

  -- Only messages that have a round are filed.
  pub sync_has_round :
      (m : ProtocolMsg Tx) (c d : RoundContext Tx H)
      → sync m c ≡ some d
      → (k : ℕ) × (msg_round m ≡ some k)
  unfolding sync msg_round
  sync_has_round (propose p a b s) c d e = (p.round, refl)
  sync_has_round (blame r a) c d e = (r, refl)
  sync_has_round (blame_qc r q) c d e = (r, refl)
  sync_has_round _ c d e = cc

  pub sync-SameRound :
      (m : ProtocolMsg Tx) (c d : RoundContext Tx H) → sync m c ≡ some d → SameRound c d
  unfolding sync queue_msg msg_round
  sync-SameRound (propose p a b s) c d e = (ground arith, ground arith)
  sync-SameRound (blame r a) c d e = (ground arith, ground arith)
  sync-SameRound (blame_qc r q) c d e = (ground arith, ground arith)
  sync-SameRound _ c d e = cc

  pub sync_keeps :
      (m : ProtocolMsg Tx) (c d : RoundContext Tx H) → sync m c ≡ some d → IsSynced c → IsSynced d
  sync_keeps m c d e v = let (k, h) = sync_has_round m c d e in sync-IsSynced m k c d h e v

  pub handlers-IsSynced :
      (c : RoundContext Tx H) (hs : List H) → IsSynced c → IsSynced (add_handlers c hs)
  unfolding add_handlers
  handlers-IsSynced c hs v = record {
    later = v.later;
    buffered = v.buffered;
    proposals = v.proposals;
    blames = v.blames;
    blame_qcs = v.blame_qcs;
  }

  pub handler-IsSynced : (c : RoundContext Tx H) (h : H) → IsSynced c → IsSynced (add_handler c h)
  unfolding add_handler
  handler-IsSynced c h v = record {
    later = v.later;
    buffered = v.buffered;
    proposals = v.proposals;
    blames = v.blames;
    blame_qcs = v.blame_qcs;
  }

  pub blames-IsSynced :
      (c : RoundContext Tx H) (m : Map ℕ Signature) (b : Bool)
      → IsSynced c
      → IsSynced (record c { blame_map = m; got_qc = b })
  blames-IsSynced c m b v = record {
    later = v.later;
    buffered = v.buffered;
    proposals = v.proposals;
    blames = v.blames;
    blame_qcs = v.blame_qcs;
  }

  -- A message that is polled is of the current round, and the other messages stay in their queues.
  pub poll_keeps :
      (c d : RoundContext Tx H) (m : ProtocolMsg Tx)
      → IsSynced c
      → poll_next c ≡ some (m, d)
      → (msg_round m ≡ some c.current_round) × IsSynced d × SameRound c d
  unfolding poll_next
  poll_keeps c d m v e = go (lookup c.current_round c.msg_buf) refl
    where
      go :
          (o : Option (List (ProtocolMsg Tx)))
          → lookup c.current_round c.msg_buf ≡ o
          → (msg_round m ≡ some c.current_round) × IsSynced d × SameRound c d
      go none f = cc (rw (poll_next, f) at e)
      go (some []) f = cc (rw (poll_next, f) at e)
      go (some (x ∷ xs)) f =
          let g = eq_of_some _ (m, d) (rw (poll_next, f) at e) in
          let kept : IsSynced (record c { msg_buf = insert c.current_round xs c.msg_buf }) =
            record {
              later =
                  λ r h. ground (arith, v.later r h, lookup-insert r c.current_round xs c.msg_buf);
              buffered = λ r.
                  tail_of c.current_round r x xs c.msg_buf (λ y. msg_round y ≡ some r) f
                    (v.buffered r);
              proposals = v.proposals;
              blames = v.blames;
              blame_qcs = v.blame_qcs;
            } in
          (
            subst (λ y. msg_round y ≡ some c.current_round) (ap (λ y. y.0) g)
                (rw (f) at (v.buffered c.current_round)).0,
            subst IsSynced (ap (λ y. y.1) g) kept,
            (sym (ap (λ y. y.1.current_round) g), sym (ap (λ y. y.1.blame_map) g)),
          )

  -- `sync` panics on messages without a round only.
  pub sync_panics :
      (m : ProtocolMsg Tx) (k : ℕ) (c : RoundContext Tx H)
      → msg_round m ≡ some k
      → sync m c ≡ none
      → ⊥
  unfolding sync queue_msg msg_round
  sync_panics (propose p a b s) k c h e = ground arith
  sync_panics (blame r a) k c h e = ground arith
  sync_panics (blame_qc r q) k c h e = ground arith
  sync_panics _ k c h e = cc
