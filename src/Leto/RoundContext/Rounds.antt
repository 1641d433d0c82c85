-- ===== src/Leto/RoundContext/Rounds.antt =====
-- consensus/src/server/leto/round_context.rs: from round to round.
use leto_rs.Prelude.{
  ℕ, ◌-◌, ◌+◌, ◌<◌, ◌≡◌, refl, ap, ◌⊎◌, inl, inr, Bool, true, false, Option, none, some, List, [],
  ◌∷◌, map, nat_eq, nat_beq, nat_beq_iff, leb, if◌then◌else◌, Map, lookup, insert, remove, retain,
  wrapping_add_small, usize_mod, lookup-insert, lookup-retain, All, All-append, arith, Bool-cases,
}
use mathlib.Core.Path.{subst}
use leto_rs.Types.{ProtocolMsg}
use leto_rs.Leto.RoundContext.{
  RoundContext, RoundTimer, queue_at, push_all, as_propose, as_blame, as_blame_qc, msg_round,
  collect, take_proposals, take_blame_qcs, take_blames, advance_round, is_ready, poll_next,
}
use leto_rs.Leto.RoundContext.Order.{queue_at-push_all}
use leto_rs.Leto.RoundContext.Delivery.{pending, IsSynced, queue_at-remove, queue_at-retain}

pub All-map :
    {A B : Type 0} (P : B → Type 0) (Q : A → Type 0) (f : A → B) (xs : List A)
    → ((a : A) → Q a → P (f a))
    → All Q xs
    → All P (map f xs)
All-map P Q f [] h k = tt
All-map P Q f (x ∷ xs) h k = (h x k.0, All-map P Q f xs h k.1)

pub All-push_all :
    {A : Type 0} (P : ℕ → A → Type 0) (q r : ℕ) (xs : List A) (m : Map ℕ (List A))
    → All (P r) xs
    → All (P q) (queue_at q m)
    → All (P q) (queue_at q (push_all r xs m))
All-push_all P q r xs m h k = elim (Bool-cases (nat_beq r q)) [
  | inl e ↦
      rw (queue_at-push_all q r xs m, e)
        (All-append (P q) (queue_at q m) xs k (subst (λ i. All (P i) xs) ((nat_beq_iff r q).0 e) h))
  | inr e ↦ rw (queue_at-push_all q r xs m, e) k
]

pub All-remove :
    {A : Type 0} (P : A → Type 0) (q r : ℕ) (m : Map ℕ (List A))
    → All P (queue_at q m)
    → All P (queue_at q (remove r m))
All-remove P q r m k = elim (Bool-cases (nat_beq r q)) [
  | inl e ↦ rw (queue_at-remove q r m, e) tt
  | inr e ↦ rw (queue_at-remove q r m, e) k
]

pub All-retain :
    {A : Type 0} (P : A → Type 0) (q : ℕ) (keep : ℕ → Bool) (m : Map ℕ (List A))
    → All P (queue_at q m)
    → All P (queue_at q (retain keep m))
All-retain P q keep m k = elim (Bool-cases (keep q)) [
  | inl e ↦ rw (queue_at-retain q keep m, e) k
  | inr e ↦ rw (queue_at-retain q keep m, e) tt
]

module _ {Tx : Type 0} where
  abbrev InRound : ℕ → ProtocolMsg Tx → Type 0
  InRound r m = msg_round m ≡ some r

  taken_later :
      (cur r : ℕ) (xs : List (ProtocolMsg Tx)) (m : Map ℕ (List (ProtocolMsg Tx)))
      → cur < r
      → queue_at r m ≡ []
      → queue_at r (push_all cur xs m) ≡ []
  taken_later cur r xs m h k = ground (arith, queue_at-push_all r cur xs m)

module _ {Tx H : Type 0} where
  collect-IsSynced :
      (gc_depth : ℕ) (c : RoundContext Tx H)
      → IsSynced c
      → IsSynced (collect gc_depth (record c { current_round = c.current_round + 1 }))
  unfolding collect
  collect-IsSynced gc_depth c v = record {
    later =
        λ r h. ground (arith, v.later r, queue_at-retain r (leb (c.current_round + 1)) c.msg_buf);
    buffered = λ r. All-retain (InRound r) r (leb (c.current_round + 1)) c.msg_buf (v.buffered r);
    proposals = v.proposals;
    blames = v.blames;
    blame_qcs = v.blame_qcs;
  }

  take_proposals-IsSynced : (c : RoundContext Tx H) → IsSynced c → IsSynced (take_proposals c)
  unfolding take_proposals msg_round
  take_proposals-IsSynced c v =
      let cur = c.current_round in
      let xs : List (ProtocolMsg Tx) = map as_propose (queue_at cur c.proposals_ready) in
      record {
        later = λ r h. taken_later cur r xs c.msg_buf h (v.later r h);
        buffered = λ r.
            All-push_all InRound r cur xs c.msg_buf
              (All-map (InRound cur) (λ p. p.0.round ≡ cur) as_propose
                (queue_at cur c.proposals_ready) (λ p h. ap some h) (v.proposals cur))
              (v.buffered r);
        proposals = λ r. All-remove (λ p. p.0.round ≡ r) r cur c.proposals_ready (v.proposals r);
        blames = v.blames;
        blame_qcs = v.blame_qcs;
      }

  take_blame_qcs-IsSynced : (c : RoundContext Tx H) → IsSynced c → IsSynced (take_blame_qcs c)
  unfolding take_blame_qcs msg_round
  take_blame_qcs-IsSynced c v =
      let cur = c.current_round in
      let xs : List (ProtocolMsg Tx) = map as_blame_qc (queue_at cur c.blame_qc_ready) in
      record {
        later = λ r h. taken_later cur r xs c.msg_buf h (v.later r h);
        buffered = λ r.
            All-push_all InRound r cur xs c.msg_buf
              (All-map (InRound cur) (λ q. q.0 ≡ cur) as_blame_qc (queue_at cur c.blame_qc_ready)
                (λ q h. ap some h) (v.blame_qcs cur))
              (v.buffered r);
        proposals = v.proposals;
        blames = v.blames;
        blame_qcs = λ r. All-remove (λ q. q.0 ≡ r) r cur c.blame_qc_ready (v.blame_qcs r);
      }

  take_blames-IsSynced : (c : RoundContext Tx H) → IsSynced c → IsSynced (take_blames c)
  unfolding take_blames msg_round
  take_blames-IsSynced c v =
      let cur = c.current_round in
      let xs : List (ProtocolMsg Tx) = map as_blame (queue_at cur c.blame_ready) in
      record {
        later = λ r h. taken_later cur r xs c.msg_buf h (v.later r h);
        buffered = λ r.
            All-push_all InRound r cur xs c.msg_buf
              (All-map (InRound cur) (λ b. b.0 ≡ cur) as_blame (queue_at cur c.blame_ready)
                (λ b h. ap some h) (v.blames cur))
              (v.buffered r);
        proposals = v.proposals;
        blames = λ r. All-remove (λ b. b.0 ≡ r) r cur c.blame_ready (v.blames r);
        blame_qcs = v.blame_qcs;
      }

  -- `advance_round` keeps every message in the queue of its round, and moves one round on, where
  -- the next round does not overflow.
  pub advance-IsSynced :
      {T : Type 0} (reset : T → T) (gc_depth : ℕ) (c : RoundContext Tx H) (t : RoundTimer T)
      → IsSynced c
      → c.current_round + 1 < usize_mod
      → IsSynced (advance_round reset gc_depth (c, t)).0
        × ((advance_round reset gc_depth (c, t)).0.current_round ≡ c.current_round + 1)
  unfolding advance_round take_blames take_blame_qcs take_proposals collect
  advance-IsSynced reset gc_depth c t v b = rw (wrapping_add_small c.current_round 1 b) (
    take_blames-IsSynced _
        (take_blame_qcs-IsSynced _ (take_proposals-IsSynced _ (collect-IsSynced gc_depth c v))),
    refl,
  )

  -- Where the next round does not overflow, `advance_round` forgets the blames of the round that
  -- ends, arms the timer, and keeps exactly the cancel handlers of rounds at most `gc_depth`
  -- behind.
  pub advance_resets :
      {T : Type 0} (reset : T → T) (gc_depth : ℕ) (c : RoundContext Tx H) (t : RoundTimer T) (r : ℕ)
      → c.current_round + 1 < usize_mod
      → let (d, u) = advance_round reset gc_depth (c, t) in
        (d.blame_map ≡ [])
        × (d.got_qc ≡ false)
        × (u.timer_enabled ≡ true)
        × (u.timer ≡ reset t.timer)
        × (lookup r d.cancel_handlers ≡ (
            if leb (c.current_round + 1) (r + gc_depth) then lookup r c.cancel_handlers else none))
  unfolding advance_round collect take_proposals take_blame_qcs take_blames
  advance_resets reset gc_depth c t r b =
      let cur = c.current_round + 1 in
      rw (wrapping_add_small c.current_round 1 b) (
        refl,
        refl,
        refl,
        refl,
        ground (arith, lookup-retain r (leb (cur - gc_depth)) c.cancel_handlers),
      )

  -- Where every message is in the queue of its round, `poll_next` panics exactly where `is_ready`,
  -- the guard of the server's `select!`, is false, and then nothing is pending for the current
  -- round; otherwise it yields the first message pending for the current round, and takes that one
  -- only.
  pub poll_pending :
      (c : RoundContext Tx H) (r : ℕ)
      → IsSynced c
      → ((is_ready c ≡ false) × (poll_next c ≡ none) × (pending c c.current_round ≡ []))
        ⊎ ((m : ProtocolMsg Tx) × (d : RoundContext Tx H) × (is_ready c ≡ true)
            × (poll_next c ≡ some (m, d))
            × (msg_round m ≡ some c.current_round)
            × (pending c r ≡ (if nat_beq c.current_round r then m ∷ pending d r else pending d r)))
  unfolding is_ready poll_next
  poll_pending c r v = go (lookup c.current_round c.msg_buf) refl
    where
      go :
          (o : Option (List (ProtocolMsg Tx)))
          → lookup c.current_round c.msg_buf ≡ o
          → ((is_ready c ≡ false) × (poll_next c ≡ none) × (pending c c.current_round ≡ []))
            ⊎ ((m : ProtocolMsg Tx) × (d : RoundContext Tx H) × (is_ready c ≡ true)
                × (poll_next c ≡ some (m, d))
                × (msg_round m ≡ some c.current_round)
                × (pending c r
                    ≡ (if nat_beq c.current_round r then m ∷ pending d r else pending d r)))
      go none e = inl (rw (e, is_ready), rw (e, poll_next), ground (arith, e))
      go (some []) e = inl (rw (e, is_ready), rw (e, poll_next), ground (arith, e))
      go (some (m ∷ ms)) e = inr (
        m,
        record c { msg_buf = insert c.current_round ms c.msg_buf },
        rw (e, is_ready),
        rw (e, poll_next),
        (rw e at (v.buffered c.current_round)).0,
        ground
            (arith, e, nat_beq_iff c.current_round r, lookup-insert r c.current_round ms c.msg_buf),
      )
