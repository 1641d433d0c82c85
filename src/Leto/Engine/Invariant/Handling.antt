-- ===== src/Leto/Engine/Invariant/Handling.antt =====
-- consensus/src/server/leto/phases: every handler of a message of the current round keeps the
-- invariant.
use leto_rs.Prelude.{
  ℕ, ◌+◌, ◌≤◌, ◌<◌, ◌≡◌, refl, sym, ◌∙◌, ◌⊎◌, inl, inr, Option, none, some, List, [], ◌∷◌, ◌++◌,
  nat_eq, nat_beq, lookup, usize_mod, Bool-cases, Option-cases, arith,
}
use leto_rs.Prelude.Results.{ok, failed, panicked, ◌>>=◌, Leaves, Ends, Ends-Leaves}
use leto_rs.Types.{Signature, Proposal, Element, ProtocolMsg, relay, verify_signature}
use leto_rs.ChainDb.{Found, found, absent, garbled}
use leto_rs.Leto.RoundContext.{RoundContext, add_handler}
use leto_rs.Leto.RoundContext.Delivery.{IsSynced}
use leto_rs.Leto.RoundContext.Frames.{handlers-IsSynced, handler-IsSynced}
use leto_rs.Leto.ChainState.{update_highest_chain, get_element}
use leto_rs.ChainDb.Contents.{IsCollisionFree}
use leto_rs.ChainDb.Growth.{write_serialized-Grows}
use leto_rs.Leto.RoundContext.Contents.{
  Carries, Carries-weaken, All-weaken, handlers-Carries, handler-Carries,
}
use leto_rs.Leto.Synchronizer.Delivery.{IsReady, IsReady-Grows}
use leto_rs.Leto.ChainState.Elements.{update-IsStored}
use leto_rs.Leto.Engine.{
  Platform, Server, leader, current_round, broadcast, keep_handler, relay_proposal, advance_round,
}
use leto_rs.Leto.Engine.Proposing.{
  parent_of, unwrap_element, is_proposal_valid, check_leader, on_correct_proposal, handle_proposal,
}
use leto_rs.Leto.Engine.Proposing.Certificates.{check_ends, IsVerdict}
use leto_rs.Leto.Engine.Invariant.{IsSound, IsRunning, IsEnding}
use leto_rs.Leto.Engine.Invariant.Advancing.{advance-IsRunning}

module _ {Tx H T R S PublicKey : Type 0} (platform : Platform Tx H T R S PublicKey) (ids : List ℕ)
    (limit : ℕ) where
  -- The server runs on, in the same round or in the next.
  abbrev pub RunsOn : ℕ → Server platform → Type 0
  RunsOn round t = IsRunning platform ids limit t × (current_round t ≤ round + 1)

  pub runs_on : (s : Server platform) → IsRunning platform ids limit s → RunsOn (current_round s) s
  runs_on s v = (v, omega arith)

  pub broadcast-IsSound :
      (s : Server platform) (msg : ProtocolMsg Tx)
      → IsSound platform ids limit s
      → IsSound platform ids limit (broadcast platform s msg)
  unfolding broadcast
  broadcast-IsSound s msg v = record {
    lockstep = v.lockstep;
    synced = handlers-IsSynced s.round_context _ v.synced;
    fair = v.fair;
    stored = v.stored;
    addressed = v.addressed;
    ready = handlers-Carries (IsReady platform.base s.chain_state.db) s.round_context _ v.ready;
    arriving = v.arriving;
    looping = v.looping;
    small = v.small;
  }

  keep_handler_lem :
      (c : RoundContext Tx H) (h : Option H)
      → IsSynced c
      → IsSynced (keep_handler platform c h)
        × ((P : ProtocolMsg Tx → Type 0) → Carries P c → Carries P (keep_handler platform c h))
        × ((keep_handler platform c h).current_round ≡ c.current_round)
  unfolding keep_handler add_handler
  keep_handler_lem c none v = (v, (λ P k. k), refl)
  keep_handler_lem c (some h) v = (handler-IsSynced c h v, (λ P. handler-Carries P c h), refl)

  -- Relaying changes the log of the network and the handlers.
  relay_frame :
      (s : Server platform) (p : Proposal) (auth : Signature) (hash : ℕ)
      → IsSynced s.round_context
      → (net : List (ℕ × ProtocolMsg Tx)) × (c : RoundContext Tx H) × (relay_proposal platform s p
            auth hash
          ≡ record s { consensus_net = net; round_context = c })
        × IsSynced c
        × ((P : ProtocolMsg Tx → Type 0) → Carries P s.round_context → Carries P c)
        × (c.current_round ≡ current_round s)
  unfolding relay_proposal
  relay_frame s p auth hash v = elim (Bool-cases (nat_beq s.leader_context.next_leader s.my_id)) [
    | inl e ↦ (s.consensus_net, s.round_context, rw (e) refl, v, (λ P k. k), refl)
    | inr e ↦
        let msg = relay p auth hash s.my_id in
        let h = platform.handler s.consensus_net s.leader_context.next_leader msg in
        let (w, k, g) = keep_handler_lem s.round_context h v in
        (
          s.consensus_net ++ (s.leader_context.next_leader, msg) ∷ [],
          keep_handler platform s.round_context h,
          rw (e) refl,
          w,
          k,
          g,
        )
  ]

  pub ending_ok :
      (s : Server platform)
      → 0 < limit
      → current_round s + 1 < usize_mod
      → IsEnding platform ids limit s
      → Ends (RunsOn (current_round s)) (advance_round platform s)
  ending_ok s l b v =
      let (t, e, r, n) = advance-IsRunning platform ids limit s l b v in
      rw (e) (r, omega (arith, n))

  pub on_correct_proposal-Ends :
      (s : Server platform) (p : Proposal) (auth : Signature) (batch : List Tx)
      → IsCollisionFree platform.base.storage platform.base.do_hash
      → 0 < limit
      → current_round s + 1 < usize_mod
      → IsSound platform ids limit s
      → p.round ≡ current_round s
      → Ends (RunsOn (current_round s)) (on_correct_proposal platform s p auth batch)
  unfolding on_correct_proposal update_highest_chain
  on_correct_proposal-Ends s p auth batch cf l b v e =
      let (net, c, f, w, i, g) = relay_frame s p auth p.block.batch_hash v.synced in
      let element : Element Tx = record { proposal = p; auth = auth; batch = batch } in
      let (grown, addressed) =
        write_serialized-Grows platform.base.storage platform.base.do_hash s.chain_state.db
          (platform.base.elements.serialize element) cf v.addressed in
      let ready = IsReady-Grows platform.base s.chain_state.db _ grown in
      rw (f, ← g)
        (ending_ok _ l (rw (g) b) (record {
          sound = record {
            lockstep = v.lockstep ∙ sym g;
            synced = w;
            fair = v.fair;
            stored = update-IsStored platform.base s.chain_state p auth batch;
            addressed = addressed;
            ready = Carries-weaken _ _ c ready (i _ v.ready);
            arriving = All-weaken _ _ s.synchronizer.outer ready v.arriving;
            looping = All-weaken _ _ s.tx_msg_loopback ready v.looping;
            small = v.small;
          };
          reached = omega (arith, e, g);
          certified = λ r h k. let x : ⊥ = omega (arith, e, g, h, k) in elim x [ ];
        }))

  -- The parent is found, or the handler ends at once.
  pub parent_cases :
      (s : Server platform) (p : Proposal)
      → ((parent : Element Tx) × (parent_of platform s p ≡ ok parent))
        ⊎ (parent_of platform s p ≡ failed s)
        ⊎ (parent_of platform s p ≡ panicked)
  unfolding parent_of unwrap_element
  parent_cases s p =
      elim (Bool-cases (nat_beq p.block.prev_hash s.chain_state.highest_chain_hash)) [
        | inl e ↦ inl (s.chain_state.highest_chain_element, rw (e) refl)
        | inr e ↦ rw (e) (unwrapped (get_element platform.base s.chain_state p.block.prev_hash))
      ]
    where
      unwrapped :
          (f : Found (Element Tx))
          → ((parent : Element Tx) × (unwrap_element platform s f ≡ ok parent))
            ⊎ (unwrap_element platform s f ≡ failed s)
            ⊎ (unwrap_element platform s f ≡ panicked)
      unwrapped (found parent) = inl (parent, refl)
      unwrapped absent = inr (inr refl)
      unwrapped garbled = inr (inl refl)

  pub verdict :
      (s : Server platform) (p : Proposal) (parent : Element Tx)
      → IsVerdict platform s p (is_proposal_valid platform s p parent)
  unfolding is_proposal_valid
  verdict s p parent = check_ends platform s p (s.num_faults + 3) _ 0 (omega arith) (omega arith)

  signed_cases :
      (s : Server platform) (p : Proposal) (auth : Signature)
      → (check_leader platform s p auth ≡ ok tt) ⊎ (check_leader platform s p auth ≡ failed s)
  unfolding check_leader
  signed_cases s p auth = elim (Bool-cases (nat_beq (leader s) s.my_id)) [
    | inl l ↦ inl (rw (l) refl)
    | inr l ↦ elim (Option-cases (lookup (leader s) s.crypto_system)) [
      | inl k ↦ inr (rw (l, k) refl)
      | inr (pk, k) ↦
          elim (Bool-cases
            (verify_signature platform.pk_verify auth (platform.hash_proposal p) (leader s) pk)) [
              | inl v ↦ inl (rw (l, k, ◌>>=◌, v) refl)
              | inr v ↦ inr (rw (l, k, ◌>>=◌, v) refl)
            ]
    ]
  ]

  module _ (s : Server platform) (cf : IsCollisionFree platform.base.storage platform.base.do_hash)
      (l : 0 < limit) (b : current_round s + 1 < usize_mod)
      (v : IsRunning platform ids limit s) where
    pub accepted :
        (p : Proposal) (auth : Signature) (batch : List Tx)
        → p.round ≡ current_round s
        → Ends (RunsOn (current_round s)) (
            check_leader platform s p auth >>= λ signed.
            on_correct_proposal platform s p auth batch)
    accepted p auth batch e = elim (signed_cases s p auth) [
      | inl f ↦ rw (f, ◌>>=◌) (on_correct_proposal-Ends s p auth batch cf l b v.sound e)
      | inr f ↦ rw (f, ◌>>=◌) (runs_on s v)
    ]

    -- A proposal of the current round leads on, is refused, or panics; its check ends.
    pub handle_proposal-Leaves :
        (p : Proposal) (auth : Signature) (batch : List Tx)
        → p.round ≡ current_round s
        → Leaves (RunsOn (current_round s)) (handle_proposal platform s p auth batch)
    unfolding handle_proposal
    handle_proposal-Leaves p auth batch e = elim (parent_cases s p) [
      | inl (parent, f) ↦ elim (verdict s p parent) [
        | inl g ↦
            rw (f, ◌>>=◌, g) (Ends-Leaves (RunsOn (current_round s)) _ (accepted p auth batch e))
        | inr (inl g) ↦
            rw (f, ◌>>=◌, g) (Ends-Leaves (RunsOn (current_round s)) _ (accepted p auth batch e))
        | inr (inr g) ↦ rw (f, ◌>>=◌, g) tt
      ]
      | inr (inl f) ↦ rw (f, ◌>>=◌) (runs_on s v)
      | inr (inr f) ↦ rw (f, ◌>>=◌) tt
    ]
