-- ===== src/Leto/Engine/Invariant/Turns.antt =====
-- consensus/src/server/leto/core.rs: every turn of the server's loop keeps the invariant, or handles
-- a proposal whose certificates run out.
use leto_rs.Prelude.{
  ℕ, ◌+◌, ◌^◌, ◌<◌, ◌≡◌, refl, sym, ap, ◌∙◌, ◌⊎◌, inl, inr, true, some, List, [], ◌∷◌, nat_eq,
  nat_beq, usize_mod, length, Bool-cases, arith,
}
use leto_rs.Prelude.Results.{
  Handled, ok, panicked, ◌>>=◌, logged, Leaves, Ends, Ends-logged, Ends-bind,
}
use leto_rs.Types.{Signature, Proposal, Element, ProtocolMsg, propose, blame, blame_qc}
use leto_rs.ChainDb.Contents.{IsCollisionFree}
use leto_rs.ChainDb.Growth.{write-Grows}
use leto_rs.Leto.RoundContext.{RoundContext, msg_round, is_ready, poll_next}
use leto_rs.Leto.RoundContext.Rounds.{poll_pending}
use leto_rs.Leto.RoundContext.Frames.{poll_keeps}
use leto_rs.Leto.RoundContext.Contents.{poll-Carries}
use leto_rs.Leto.ChainState.{get_element, write_element}
use leto_rs.Leto.Synchronizer.{to_outer}
use leto_rs.Leto.Synchronizer.Delivery.{IsReady, IsReady-Grows}
use leto_rs.Leto.Engine.{Platform, Server, leader, current_round}
use leto_rs.Leto.Engine.Proposing.{
  handle_new_batch, parent_of, unwrap_element, is_proposal_valid, handle_proposal,
}
use leto_rs.Leto.Engine.Blaming.{on_round_timeout}
use leto_rs.Leto.Engine.Loop.{
  Event, batch_hash, synchronizer_msg, round_synchronized_msg, timer_tick, loopback_msg,
  raw_net_msg, deliver, handle_msg, take_outer, take_loopback, on_net_msg, next_ready, step, run,
}
use leto_rs.Leto.Engine.Invariant.{IsRunning}
use leto_rs.Leto.Engine.Invariant.Handling.{RunsOn, runs_on, accepted, verdict}
use leto_rs.Leto.Engine.Invariant.Blamed.{
  handle_blame-Ends, on_blame_qc-Ends, on_round_timeout-Ends,
}
use leto_rs.Leto.Engine.Invariant.Leading.{handle_new_batch-Ends}
use leto_rs.Leto.Engine.Invariant.Running.{
  context-IsRunning, take_outer-Ends, take_loopback-Ends, on_net_msg-Ends, synchronized,
}

module _ {Tx H T R S PublicKey : Type 0} (platform : Platform Tx H T R S PublicKey) where
  -- The parent of the proposal is known, and the check of its certificates runs out of them.
  abbrev pub RunsOutIn : Server platform → ProtocolMsg Tx → Type 0
  RunsOutIn s (propose p auth batch sender) =
      (parent : Element Tx) × (parent_of platform s p ≡ ok parent)
      × (is_proposal_valid platform s p parent ≡ panicked)
  RunsOutIn s _ = ⊥

  -- The next message of the round is such a proposal.
  abbrev pub Stops : Server platform → Type 0
  Stops s =
      (m : ProtocolMsg Tx) × (d : RoundContext Tx H) × (poll_next s.round_context ≡ some (m, d))
      × RunsOutIn (record s { round_context = d }) m

  ready_parent :
      (s : Server platform) (p : Proposal) (auth : Signature) (batch : List Tx) (sender : ℕ)
      → IsReady platform.base s.chain_state.db (propose p auth batch sender)
      → (parent : Element Tx) × (parent_of platform s p ≡ ok parent)
  unfolding parent_of unwrap_element get_element
  ready_parent s p auth batch sender (parent, h) =
      elim (Bool-cases (nat_beq p.block.prev_hash s.chain_state.highest_chain_hash)) [
        | inl e ↦ (s.chain_state.highest_chain_element, rw (e) refl)
        | inr e ↦ (parent, rw (e, h) refl)
      ]

  module _ (cf : IsCollisionFree platform.base.storage platform.base.do_hash) (ids : List ℕ)
      (limit : ℕ) (l : 0 < limit) where
    handled :
        (s : Server platform) (m : ProtocolMsg Tx)
        → current_round s + 1 < usize_mod
        → IsReady platform.base s.chain_state.db m
        → msg_round m ≡ some (current_round s)
        → IsRunning platform ids limit s
        → Ends (RunsOn platform ids limit (current_round s)) (handle_msg platform s m)
          ⊎ ((handle_msg platform s m ≡ panicked) × RunsOutIn s m)
    unfolding handle_msg msg_round handle_proposal
    handled s (propose p auth batch sender) b h e v =
        let (parent, f) = ready_parent s p auth batch sender h in
        let go = accepted platform ids limit s cf l b v p auth batch (ground (arith, e)) in
        elim (verdict platform ids limit s p parent) [
          | inl g ↦ inl (rw (f, ◌>>=◌, g) go)
          | inr (inl g) ↦ inl (rw (f, ◌>>=◌, g) go)
          | inr (inr g) ↦ inr (rw (f, ◌>>=◌, g) refl, (parent, f, g))
        ]
    handled s (blame round auth) b h e v =
        inl (handle_blame-Ends platform ids limit s l b v round auth (ground (arith, e)))
    handled s (blame_qc round qc) b h e v =
        inl (on_blame_qc-Ends platform ids limit s l b v round qc (ground (arith, e)))
    handled s _ b h e v = elim h [ ]

    next_handled :
        (s : Server platform)
        → current_round s + 1 < usize_mod
        → is_ready s.round_context ≡ true
        → IsRunning platform ids limit s
        → Ends (RunsOn platform ids limit (current_round s)) (next_ready platform s)
          ⊎ ((next_ready platform s ≡ panicked) × Stops s)
    unfolding next_ready
    next_handled s b r v = elim (poll_pending s.round_context 0 v.sound.synced) [
      | inl (e, _, _) ↦ cc (r, e)
      | inr (m, d, _, e, f, _) ↦
          let (_, w, (same, blames)) = poll_keeps s.round_context d m v.sound.synced e in
          let (h, k) = poll-Carries _ s.round_context d m e v.sound.ready in
          let t = record s { round_context = d } in
          let u = context-IsRunning platform cf ids limit s d (same, blames) w k v in
          elim (handled t m (rw (same) b) h (f ∙ ap some (sym same)) u) [
            | inl x ↦ inl (rw (e, ◌>>=◌, ← same) x)
            | inr (x, y) ↦ inr (rw (e, ◌>>=◌) x, (m, d, e, y))
          ]
    ]

    delivered :
        (s : Server platform) (element : Element Tx) (sender : ℕ)
        → IsReady platform.base s.chain_state.db
            (propose element.proposal element.auth element.batch sender)
        → IsRunning platform ids limit s
        → IsRunning platform ids limit (record s {
          chain_state = write_element platform.base s.chain_state element;
          synchronizer =
              to_outer s.synchronizer (propose element.proposal element.auth element.batch sender);
        })
    unfolding write_element to_outer
    delivered s element sender h v =
        let base = platform.base in
        let (g, a) =
          write-Grows base.storage base.do_hash base.elements s.chain_state.db element cf
            v.sound.addressed in
        let m = propose element.proposal element.auth element.batch sender in
        synchronized platform cf ids limit s _ v
          (inr (m, refl, IsReady-Grows base s.chain_state.db _ g m h), g, a)

    -- The helper's task sends on what it has waited for.
    abbrev pub IsPossible : Server platform → Event Tx → Type 0
    IsPossible s (deliver element sender) =
        IsReady platform.base s.chain_state.db
          (propose element.proposal element.auth element.batch sender)
    IsPossible s _ = Unit

    logged_turn :
        (s : Server platform) (m : Handled (Server platform) (Server platform))
        → Ends (RunsOn platform ids limit (current_round s)) m ⊎ ((m ≡ panicked) × Stops s)
        → Ends (RunsOn platform ids limit (current_round s)) (logged m)
          ⊎ ((logged m ≡ panicked) × Stops s)
    logged_turn s m (inl h) = inl (Ends-logged (RunsOn platform ids limit (current_round s)) m h)
    logged_turn s m (inr (e, h)) = inr (rw (e) refl, h)

    -- Where hashes do not collide and the next rounds do not overflow, each turn of the loop leads
    -- from a server as it is between two turns to one of the same or the next round, whatever
    -- arrives, where the helper's task delivers elements whose parent is on the disk. The one
    -- exception is a turn that handles a proposal of the current round whose vector of certificates
    -- ends before the check does: it panics.
    pub step_lem :
        (s : Server platform) (e : Event Tx)
        → current_round s + 2 ^ 33 < usize_mod
        → IsPossible s e
        → IsRunning platform ids limit s
        → Ends (RunsOn platform ids limit (current_round s)) (step platform s e)
          ⊎ ((step platform s e ≡ panicked) × Stops s)
    unfolding step
    step_lem s (batch_hash hash) b h v = elim (Bool-cases (nat_beq (leader s) s.my_id)) [
      | inl g ↦ inl (
          rw (g) (
            Ends-logged (RunsOn platform ids limit (current_round s))
              (handle_new_batch platform s hash)
              (handle_new_batch-Ends platform ids limit s cf l (omega (arith, b))
                (omega (arith, b, v.sound.small)) v hash)))
      | inr g ↦ inl (rw (g) (runs_on platform ids limit s v))
    ]
    step_lem s synchronizer_msg b h v = inl (
        Ends-logged (RunsOn platform ids limit (current_round s))
          (take_outer platform s s.synchronizer.outer)
          (take_outer-Ends platform cf ids limit s s.synchronizer.outer v.sound.arriving v))
    step_lem s round_synchronized_msg b h v = elim (Bool-cases (is_ready s.round_context)) [
      | inl g ↦ rw (g) (logged_turn s (next_ready platform s) (next_handled s (omega arith) g v))
      | inr g ↦ inl (rw (g) (runs_on platform ids limit s v))
    ]
    step_lem s timer_tick b h v = elim (Bool-cases s.round_timer.timer_enabled) [
      | inl g ↦ inl (
          simp (g) (
            Ends-logged (RunsOn platform ids limit (current_round s)) (on_round_timeout platform s)
              (on_round_timeout-Ends platform ids limit s l (omega arith) v)))
      | inr g ↦ inl (simp (g) (runs_on platform ids limit s v))
    ]
    step_lem s loopback_msg b h v = inl (
        Ends-logged (RunsOn platform ids limit (current_round s))
          (take_loopback platform s s.tx_msg_loopback)
          (take_loopback-Ends platform cf ids limit s s.tx_msg_loopback v.sound.looping v))
    step_lem s (raw_net_msg m) b h v = inl (
        Ends-logged (RunsOn platform ids limit (current_round s)) (on_net_msg platform s m)
          (on_net_msg-Ends platform cf ids limit s m v))
    step_lem s (deliver element sender) b h v = inl (delivered s element sender h v, omega arith)

    -- At every turn the event is possible.
    abbrev pub IsHistory : Server platform → List (Event Tx) → Type 0
    IsHistory s [] = Unit
    IsHistory s (e ∷ es) =
        IsPossible s e × ((t : Server platform) → step platform s e ≡ ok t → IsHistory t es)

    -- Where hashes do not collide and the rounds do not overflow, the loop leaves a server as it is
    -- between two turns after any history of events, unless it has panicked: in lockstep with its
    -- leaders, with a certificate for every round behind the highest element, and with valid blames.
    -- The checks inside the turns end.
    pub run_lem :
        (s : Server platform) (es : List (Event Tx))
        → current_round s + length es + 2 ^ 33 < usize_mod
        → IsHistory s es
        → IsRunning platform ids limit s
        → Leaves (IsRunning platform ids limit) (run platform s es)
    unfolding run
    run_lem s [] b h v = v
    run_lem s (e ∷ es) b (p, h) v = elim (step_lem s e (omega (arith, b)) p v) [
      | inl k ↦
          Ends-bind (RunsOn platform ids limit (current_round s)) (IsRunning platform ids limit)
            (step platform s e) (λ t. run platform t es) k (λ t w. w.0)
            (λ t f w. run_lem t es (omega (arith, b, w.1)) (h t f) w.0)
      | inr (k, _) ↦ rw (k, ◌>>=◌) tt
    ]
