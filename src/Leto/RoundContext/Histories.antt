-- ===== src/Leto/RoundContext/Histories.antt =====
-- consensus/src/server/leto/round_context.rs: every history of arrivals, polls and rounds, against a list
-- of messages for each round.
use leto_rs.Prelude.{
  ◌>>=◌, ℕ, suc, ◌+◌, ◌<◌, ◌≤◌, ◌≡◌, refl, ap, sym, ◌∙◌, inl, inr, ◌&&◌, Option, none, some, List,
  [], ◌∷◌, ◌++◌, length, nat_eq, nat_beq, ltb, leb, if◌then◌else◌, usize_mod, Option-cases,
  eq_of_some, nat_beq_iff, true, arith,
}
use mathlib.Core.Path.{subst}
use leto_rs.Types.{ProtocolMsg}
use leto_rs.Leto.RoundContext.{
  RoundContext, RoundTimer, msg_round, advance_round, sync, is_ready, poll_next,
}
use leto_rs.Leto.RoundContext.Order.{place}
use leto_rs.Leto.RoundContext.Delivery.{
  pending, IsSynced, sync-pending, sync-IsSynced, advance_pending,
}
use leto_rs.Leto.RoundContext.Rounds.{advance-IsSynced, poll_pending}
use leto_rs.Leto.RoundContext.Frames.{sync-SameRound, poll_keeps, sync_panics}

-- A message arrives, the round ends, or the server polls.
pub data Move (Tx : Type 0) : Type 0 where
  arrive : ProtocolMsg Tx → Move Tx
  advance take : Move Tx

-- The poll under its guard in the server's `select!`.
unfoldable pub poll_if_ready : {Tx H : Type 0} → RoundContext Tx H → Option (RoundContext Tx H)
poll_if_ready c = if is_ready c then (do (m, d) ← poll_next c; some d) else some c

module _ {Tx H T : Type 0} (reset : T → T) (gc_depth : ℕ) where
  unfoldable pub move :
      Move Tx → RoundContext Tx H × RoundTimer T → Option (RoundContext Tx H × RoundTimer T)
  unfolding poll_if_ready
  move (arrive m) (c, t) = do d ← sync m c; some (d, t)
  move advance (c, t) = some (advance_round reset gc_depth (c, t))
  move take (c, t) = do d ← poll_if_ready c; some (d, t)

  unfoldable pub move_all :
      List (Move Tx) → RoundContext Tx H × RoundTimer T → Option (RoundContext Tx H × RoundTimer T)
  unfolding move
  move_all [] s = some s
  move_all (o ∷ os) s = do u ← move o s; move_all os u

-- The abstract state: the round, and the messages to come for each round.
abbrev pub Agenda : Type 0 → Type 0
Agenda Tx = ℕ × (ℕ → List (ProtocolMsg Tx))

module _ {Tx : Type 0} where
  abbrev pub without_first : List (ProtocolMsg Tx) → List (ProtocolMsg Tx)
  without_first [] = []
  without_first (m ∷ ms) = ms

  abbrev pub file_at : ProtocolMsg Tx → ℕ → Agenda Tx → Agenda Tx
  file_at m r (k, f) = (
    k,
    λ q. if nat_beq r q && leb k r then (if ltb k r then place m (f q) else f q ++ m ∷ []) else f q,
  )

  unfoldable pub spec_move : Move Tx → Agenda Tx → Option (Agenda Tx)
  spec_move (arrive m) a = do r ← msg_round m; some (file_at m r a)
  spec_move advance (k, f) = some (suc k, λ q. if leb q k then [] else f q)
  spec_move take (k, f) = some (k, λ q. if nat_beq k q then without_first (f q) else f q)

  unfoldable pub spec_all : List (Move Tx) → Agenda Tx → Option (Agenda Tx)
  unfolding spec_move
  spec_all [] a = some a
  spec_all (o ∷ os) a = do b ← spec_move o a; spec_all os b

  spec_round : (o : Move Tx) (a b : Agenda Tx) → spec_move o a ≡ some b → b.0 ≤ suc a.0
  unfolding spec_move
  spec_round (arrive m) a b e = elim (Option-cases (msg_round m)) [
    | inl f ↦ cc (rw (f, ◌>>=◌) at e)
    | inr (r, f) ↦
        let g = eq_of_some (file_at m r a) b (rw (f, ◌>>=◌) at e) in omega (arith, ap (λ x. x.0) g)
  ]
  spec_round advance (k, f) b e = omega (arith, ap (λ x. x.0) (eq_of_some _ b e))
  spec_round take (k, f) b e = omega (arith, ap (λ x. x.0) (eq_of_some _ b e))

module _ {Tx H : Type 0} where
  -- The context is synced, and has the round and the messages to come of the abstract state.
  pub record Refines (c : RoundContext Tx H) (a : Agenda Tx) : Type 0 where
    pub synced : IsSynced c
    pub round : c.current_round ≡ a.0
    pub messages : (q : ℕ) → pending c q ≡ a.1 q

  sync_lacks_round :
      (m : ProtocolMsg Tx) (c : RoundContext Tx H) → msg_round m ≡ none → sync m c ≡ none
  unfolding sync
  sync_lacks_round m c e = rw (e, ◌>>=◌) refl

  arrive-Refines :
      (m : ProtocolMsg Tx) (r : ℕ) (c d : RoundContext Tx H) (a : Agenda Tx)
      → msg_round m ≡ some r
      → sync m c ≡ some d
      → Refines c a
      → Refines d (file_at m r a)
  arrive-Refines m r c d (k, f) h e v = record {
    synced = sync-IsSynced m r c d h e v.synced;
    round = (sync-SameRound m c d e).0 ∙ v.round;
    messages = λ q. sync-pending m r c d q h e ∙ rw (v.messages q, v.round) refl;
  }

  advance-Refines :
      {T : Type 0} (reset : T → T) (gc_depth : ℕ) (c : RoundContext Tx H) (t : RoundTimer T) (k : ℕ)
      (f : ℕ → List (ProtocolMsg Tx))
      → c.current_round + 1 < usize_mod
      → Refines c (k, f)
      → Refines (advance_round reset gc_depth (c, t)).0 (suc k, λ q. if leb q k then [] else f q)
  advance-Refines reset gc_depth c t k f b v =
      let (w, e) = advance-IsSynced reset gc_depth c t v.synced b in
      record {
        synced = w;
        round = omega (arith, e, v.round);
        messages =
            λ q. advance_pending reset gc_depth c t q v.synced b ∙ rw (v.messages q, v.round) refl;
      }

  -- What the poll leaves, where it takes a message.
  polled :
      (c d : RoundContext Tx H) (m : ProtocolMsg Tx) (q : ℕ)
      → IsSynced c
      → poll_next c ≡ some (m, d)
      → is_ready c ≡ true
      → pending d q
        ≡ (if nat_beq c.current_round q then without_first (pending c q) else pending c q)
  polled c d m q v e y = elim (poll_pending c q v) [
    | inl (idle, f, x) ↦ cc
    | inr (n, u, ready, f, r, h) ↦
        let same : u ≡ d = ap (λ x. x.1) (eq_of_some (n, u) (m, d) (sym f ∙ e)) in
        subst
          (λ x.
            pending x q
            ≡ (if nat_beq c.current_round q then without_first (pending c q) else pending c q))
          same (ground (arith, h))
  ]

  take-Refines :
      (c : RoundContext Tx H) (k : ℕ) (f : ℕ → List (ProtocolMsg Tx))
      → Refines c (k, f)
      → (d : RoundContext Tx H) × (poll_if_ready c ≡ some d)
        × Refines d (k, λ q. if nat_beq k q then without_first (f q) else f q)
  unfolding poll_if_ready
  take-Refines c k f v = elim (poll_pending c c.current_round v.synced) [
    | inl (idle, e, h) ↦ (
      c,
      rw (idle, if◌then◌else◌) refl,
      record {
        synced = v.synced;
        round = v.round;
        messages = λ q. v.messages q ∙ sym (nothing_to_take q h);
      },
    )
    | inr (m, d, ready, e, r, h) ↦
        let (x, w, same) = poll_keeps c d m v.synced e in
        (
          d,
          rw (ready, if◌then◌else◌, e) refl,
          record {
            synced = w;
            round = same.0 ∙ v.round;
            messages = λ q. polled c d m q v.synced e ready ∙ rw (v.messages q, v.round) refl;
          },
        )
  ]
    where
      nothing_to_take :
          (q : ℕ)
          → pending c c.current_round ≡ []
          → (if nat_beq k q then without_first (f q) else f q) ≡ f q
      nothing_to_take q h =
          ground (arith, nat_beq_iff k q, v.round, sym (v.messages c.current_round) ∙ h)

module _ {Tx H T : Type 0} where
  -- Both panic, or neither, and then the one refines the other.
  abbrev pub BothRefine : Option (RoundContext Tx H × RoundTimer T) → Option (Agenda Tx) → Type 0
  BothRefine none none = Unit
  BothRefine none (some a) = ⊥
  BothRefine (some s) none = ⊥
  BothRefine (some s) (some a) = Refines s.0 a

  move-BothRefine :
      (reset : T → T) (gc_depth : ℕ) (o : Move Tx) (c : RoundContext Tx H) (t : RoundTimer T)
      (a : Agenda Tx)
      → c.current_round + 1 < usize_mod
      → Refines c a
      → BothRefine (move reset gc_depth o (c, t)) (spec_move o a)
  unfolding move spec_move
  move-BothRefine reset gc_depth (arrive m) c t a b v = elim (Option-cases (msg_round m)) [
    | inl e ↦ rw (e, sync_lacks_round m c e) tt
    | inr (r, e) ↦ elim (Option-cases (sync m c)) [
      | inl f ↦ elim (sync_panics m r c e f) [ ]
      | inr (d, f) ↦ rw (e, f) (arrive-Refines m r c d a e f v)
    ]
  ]
  move-BothRefine reset gc_depth advance c t (k, f) b v = advance-Refines reset gc_depth c t k f b v
  move-BothRefine reset gc_depth take c t (k, f) b v =
      let (d, e, w) = take-Refines c k f v in rw (e) w

  -- Over every history of arrivals, rounds and polls under their guard that does not overflow the rounds,
  -- the context panics exactly where a message arrives that has no round, as the abstract state does,
  -- which is a round and a list of messages for each round; otherwise its round and what is pending
  -- for each round are those of the abstract state: a message of a later round stands behind those of
  -- its kind that wait for the round, and is there when the round has come, one of the current round
  -- stands last, one of an earlier round is dropped, the messages of a round go with it, and a poll
  -- takes the first message of the current round and no other.
  pub history-Refines :
      (reset : T → T) (gc_depth : ℕ) (os : List (Move Tx)) (c : RoundContext Tx H)
      (t : RoundTimer T) (a : Agenda Tx)
      → c.current_round + length os < usize_mod
      → Refines c a
      → BothRefine (move_all reset gc_depth os (c, t)) (spec_all os a)
  unfolding move_all spec_all
  history-Refines reset gc_depth [] c t a b v = v
  history-Refines reset gc_depth (o ∷ os) c t a b v =
      let h = move-BothRefine reset gc_depth o c t a (omega (arith, b)) v in
      elim (Option-cases (move reset gc_depth o (c, t))) [
        | inl e ↦ elim (Option-cases (spec_move o a)) [
          | inl f ↦ rw (e, f) tt
          | inr (x, f) ↦ elim (rw (e, f) at h) [ ]
        ]
        | inr ((d, u), e) ↦ elim (Option-cases (spec_move o a)) [
          | inl f ↦ elim (rw (e, f) at h) [ ]
          | inr (x, f) ↦
              let w : Refines d x = rw (e, f) at h in
              let next : d.current_round + length os < usize_mod =
                omega (arith, b, w.round, v.round, spec_round o a x f) in
              rw (e, f) (history-Refines reset gc_depth os d u x next w)
        ]
      ]
