-- ===== src/Leto/RoundContext/Contents.antt =====
-- consensus/src/server/leto/round_context.rs: a property of every message that the context holds.
use leto_rs.Prelude.{
  ◌>>=◌, ℕ, ◌≡◌, refl, ap, inl, inr, Bool, Option, none, some, List, [], ◌∷◌, map, nat_eq, ltb, leb,
  Map, lookup, wrapping_add, All, Bool-cases, eq_of_some,
}
use mathlib.Core.Path.{subst}
use leto_rs.Types.{Signature, ProtocolMsg, propose, blame, blame_qc}
use leto_rs.Leto.RoundContext.{
  RoundContext, RoundTimer, as_propose, as_blame, as_blame_qc, queue_at, msg_round, queue_msg, sync,
  poll_next, add_handler, add_handlers, collect, take_proposals, take_blame_qcs, take_blames,
  advance_round, new,
}
use leto_rs.Leto.RoundContext.Delivery.{All-push}
use leto_rs.Leto.RoundContext.Rounds.{All-map, All-push_all, All-remove, All-retain}
use leto_rs.Leto.RoundContext.Frames.{tail_of}

module _ {Tx H : Type 0} where
  -- Every message that the context holds, of whatever round, has the property.
  pub record Carries (P : ProtocolMsg Tx → Type 0) (c : RoundContext Tx H) : Type 0 where
    pub buffered : (r : ℕ) → All P (queue_at r c.msg_buf)
    pub proposals : (r : ℕ) → All (λ p. P (as_propose p)) (queue_at r c.proposals_ready)
    pub blames : (r : ℕ) → All (λ b. P (as_blame b)) (queue_at r c.blame_ready)
    pub blame_qcs : (r : ℕ) → All (λ q. P (as_blame_qc q)) (queue_at r c.blame_qc_ready)

pub All-weaken :
    {A : Type 0} (P Q : A → Type 0) (xs : List A) → ((a : A) → P a → Q a) → All P xs → All Q xs
All-weaken P Q [] f h = tt
All-weaken P Q (x ∷ xs) f h = (f x h.0, All-weaken P Q xs f h.1)

module _ {Tx H : Type 0} (P : ProtocolMsg Tx → Type 0) where
  pub new-Carries : (n : ℕ) → Carries {H = H} P (new n)
  unfolding new lookup
  new-Carries n = record {
    buffered = λ r. tt;
    proposals = λ r. tt;
    blames = λ r. tt;
    blame_qcs = λ r. tt;
  }

  pub Carries-weaken :
      (Q : ProtocolMsg Tx → Type 0) (c : RoundContext Tx H)
      → ((m : ProtocolMsg Tx) → P m → Q m)
      → Carries P c
      → Carries Q c
  Carries-weaken Q c f v = record {
    buffered = λ r. All-weaken P Q (queue_at r c.msg_buf) f (v.buffered r);
    proposals =
        λ r. All-weaken _ _ (queue_at r c.proposals_ready) (λ p. f (as_propose p)) (v.proposals r);
    blames = λ r. All-weaken _ _ (queue_at r c.blame_ready) (λ b. f (as_blame b)) (v.blames r);
    blame_qcs =
        λ r. All-weaken _ _ (queue_at r c.blame_qc_ready) (λ q. f (as_blame_qc q)) (v.blame_qcs r);
  }

  queue_msg-Carries :
      (m : ProtocolMsg Tx) (c d : RoundContext Tx H)
      → queue_msg m c ≡ some d
      → P m
      → Carries P c
      → Carries P d
  unfolding queue_msg
  queue_msg-Carries (propose p a b s) c d e h v = subst (Carries P) (eq_of_some _ d e) (record {
    buffered = v.buffered;
    proposals = λ r.
        All-push (λ i x. P (as_propose x)) r p.round (p, a, b, s) c.proposals_ready h
          (v.proposals r);
    blames = v.blames;
    blame_qcs = v.blame_qcs;
  })
  queue_msg-Carries (blame q a) c d e h v = subst (Carries P) (eq_of_some _ d e) (record {
    buffered = v.buffered;
    proposals = v.proposals;
    blames = λ r. All-push (λ i x. P (as_blame x)) r q (q, a) c.blame_ready h (v.blames r);
    blame_qcs = v.blame_qcs;
  })
  queue_msg-Carries (blame_qc q a) c d e h v = subst (Carries P) (eq_of_some _ d e) (record {
    buffered = v.buffered;
    proposals = v.proposals;
    blames = v.blames;
    blame_qcs =
        λ r. All-push (λ i x. P (as_blame_qc x)) r q (q, a) c.blame_qc_ready h (v.blame_qcs r);
  })
  queue_msg-Carries _ c d e h v = cc

  pub sync-Carries :
      (m : ProtocolMsg Tx) (k : ℕ) (c d : RoundContext Tx H)
      → msg_round m ≡ some k
      → sync m c ≡ some d
      → P m
      → Carries P c
      → Carries P d
  unfolding sync
  sync-Carries m k c d g e h v = elim (Bool-cases (ltb k c.current_round)) [
    | inl old ↦ subst (Carries P) (eq_of_some c d (rw (g, ◌>>=◌, old) at e)) v
    | inr fresh ↦ elim (Bool-cases (ltb c.current_round k)) [
      | inl future ↦ queue_msg-Carries m c d (rw (g, ◌>>=◌, fresh, future) at e) h v
      | inr now ↦ subst (Carries P) (eq_of_some _ d (rw (g, ◌>>=◌, fresh, now) at e)) (record {
        buffered = λ r. All-push (λ i x. P x) r c.current_round m c.msg_buf h (v.buffered r);
        proposals = v.proposals;
        blames = v.blames;
        blame_qcs = v.blame_qcs;
      })
    ]
  ]

  pub poll-Carries :
      (c d : RoundContext Tx H) (m : ProtocolMsg Tx)
      → poll_next c ≡ some (m, d)
      → Carries P c
      → P m × Carries P d
  unfolding poll_next
  poll-Carries c d m e v = go (lookup c.current_round c.msg_buf) refl
    where
      go :
          (o : Option (List (ProtocolMsg Tx)))
          → lookup c.current_round c.msg_buf ≡ o
          → P m × Carries P d
      go none f = cc (rw (poll_next, f) at e)
      go (some []) f = cc (rw (poll_next, f) at e)
      go (some (x ∷ xs)) f =
          let g = eq_of_some _ (m, d) (rw (poll_next, f) at e) in
          (
            subst P (ap (λ y. y.0) g) (rw (f) at (v.buffered c.current_round)).0,
            subst (Carries P) (ap (λ y. y.1) g) (record {
              buffered = λ r. tail_of c.current_round r x xs c.msg_buf P f (v.buffered r);
              proposals = v.proposals;
              blames = v.blames;
              blame_qcs = v.blame_qcs;
            }),
          )

  take_proposals-Carries : (c : RoundContext Tx H) → Carries P c → Carries P (take_proposals c)
  unfolding take_proposals
  take_proposals-Carries c v =
      let q = queue_at c.current_round c.proposals_ready in
      record {
        buffered = λ r.
            All-push_all (λ i. P) r c.current_round (map as_propose q) c.msg_buf
              (All-map P (λ p. P (as_propose p)) as_propose q (λ p h. h)
                (v.proposals c.current_round))
              (v.buffered r);
        proposals = λ r. All-remove _ r c.current_round c.proposals_ready (v.proposals r);
        blames = v.blames;
        blame_qcs = v.blame_qcs;
      }

  take_blame_qcs-Carries : (c : RoundContext Tx H) → Carries P c → Carries P (take_blame_qcs c)
  unfolding take_blame_qcs
  take_blame_qcs-Carries c v =
      let q = queue_at c.current_round c.blame_qc_ready in
      record {
        buffered = λ r.
            All-push_all (λ i. P) r c.current_round (map as_blame_qc q) c.msg_buf
              (All-map P (λ p. P (as_blame_qc p)) as_blame_qc q (λ p h. h)
                (v.blame_qcs c.current_round))
              (v.buffered r);
        proposals = v.proposals;
        blames = v.blames;
        blame_qcs = λ r. All-remove _ r c.current_round c.blame_qc_ready (v.blame_qcs r);
      }

  take_blames-Carries : (c : RoundContext Tx H) → Carries P c → Carries P (take_blames c)
  unfolding take_blames
  take_blames-Carries c v =
      let q = queue_at c.current_round c.blame_ready in
      record {
        buffered = λ r.
            All-push_all (λ i. P) r c.current_round (map as_blame q) c.msg_buf
              (All-map P (λ p. P (as_blame p)) as_blame q (λ p h. h) (v.blames c.current_round))
              (v.buffered r);
        proposals = v.proposals;
        blames = λ r. All-remove _ r c.current_round c.blame_ready (v.blames r);
        blame_qcs = v.blame_qcs;
      }

  collect-Carries :
      (gc_depth : ℕ) (c : RoundContext Tx H) → Carries P c → Carries P (collect gc_depth c)
  unfolding collect
  collect-Carries gc_depth c v = record {
    buffered = λ r. All-retain P r (leb c.current_round) c.msg_buf (v.buffered r);
    proposals = v.proposals;
    blames = v.blames;
    blame_qcs = v.blame_qcs;
  }

  -- The messages of the next round are among those that the context held.
  pub advance-Carries :
      {T : Type 0} (reset : T → T) (gc_depth : ℕ) (c : RoundContext Tx H) (t : RoundTimer T)
      → Carries P c
      → Carries P (advance_round reset gc_depth (c, t)).0
  unfolding advance_round
  advance-Carries reset gc_depth c t v = take_blames-Carries _ (
      take_blame_qcs-Carries _ (
        take_proposals-Carries _ (
          collect-Carries gc_depth (record c { current_round = wrapping_add c.current_round 1 })
            (record {
              buffered = v.buffered;
              proposals = v.proposals;
              blames = v.blames;
              blame_qcs = v.blame_qcs;
            }))))

  pub handlers-Carries :
      (c : RoundContext Tx H) (hs : List H) → Carries P c → Carries P (add_handlers c hs)
  unfolding add_handlers
  handlers-Carries c hs v = record {
    buffered = v.buffered;
    proposals = v.proposals;
    blames = v.blames;
    blame_qcs = v.blame_qcs;
  }

  pub handler-Carries : (c : RoundContext Tx H) (h : H) → Carries P c → Carries P (add_handler c h)
  unfolding add_handler
  handler-Carries c h v = record {
    buffered = v.buffered;
    proposals = v.proposals;
    blames = v.blames;
    blame_qcs = v.blame_qcs;
  }

  pub blames-Carries :
      (c : RoundContext Tx H) (m : Map ℕ Signature) (b : Bool)
      → Carries P c
      → Carries P (record c { blame_map = m; got_qc = b })
  blames-Carries c m b v = record {
    buffered = v.buffered;
    proposals = v.proposals;
    blames = v.blames;
    blame_qcs = v.blame_qcs;
  }
