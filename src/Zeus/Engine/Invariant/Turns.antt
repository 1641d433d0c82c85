-- ===== src/Zeus/Engine/Invariant/Turns.antt =====
-- consensus/src/server/zeus/core.rs: every turn of the server's loop keeps the state sound.
use leto_rs.Prelude.{some, ℕ, ◌<◌, ◌≡◌, refl, inl, inr, List, [], ◌∷◌, nat_eq, Option-cases}
use leto_rs.Prelude.Results.{ok, logged, Leaves, Leaves-if, Leaves-seq, Leaves-logged}
use leto_rs.Zeus.Types.{DataBlockEnvelope}
use leto_rs.Zeus.Messages.{
  ZeusMsg, sig_propose, sig_relay, sig_blame, sig_blame_qc, attestation_request,
  attestation_response, sig_element_request, sig_element_response, data_propose, data_request,
  data_response, eleader_blame, eleader_change_qc,
}
use leto_rs.Zeus.Rounds.{pop_msg}
use leto_rs.Zeus.Committing
use leto_rs.Zeus.Committing.{ZeusState, ZeusCommittedAttestation}
use leto_rs.Zeus.Committing.Walks.{on_committed_attestation_lem}
use leto_rs.Zeus.Admitting.{is_eleader}
use leto_rs.Zeus.Engine.{Platform, Server, codec}
use leto_rs.Zeus.Engine.Signing.{on_round_timeout}
use leto_rs.Zeus.Engine.Changing.{on_data_timer_expired}
use leto_rs.Zeus.Engine.Blocks.{on_eleader_propose}
use leto_rs.Zeus.Engine.Loop.{
  Event, batch, ordered, tick, loopback, net_msg, committed, data_timer, emission, queue, dispatch,
  handle_sig_ordered, take_ordered, take_loopback, on_committed, step, run,
}
use leto_rs.Zeus.Engine.Invariant.{Reached-step, Config, Holds}
use leto_rs.Zeus.Engine.Invariant.Signing.{
  handle_sig_proposal-Keeps, handle_sig_blame-Keeps, on_sig_blame_qc-Keeps, on_round_timeout-Keeps,
}
use leto_rs.Zeus.Engine.Invariant.Changing.{
  on_eleader_blame-Keeps, on_eleader_change_qc-Keeps, on_data_timer_expired-Keeps,
}
use leto_rs.Zeus.Engine.Invariant.Blocks.{
  on_eleader_propose-Keeps, on_data_propose-Keeps, on_data_request-Keeps, on_data_response-Keeps,
}

module _ {Tx H T R S PublicKey : Type 0} (platform : Platform Tx H T R S PublicKey) (rank : ℕ → ℕ)
    (config : Config PublicKey) where
  abbrev Sound : Server platform → Type 0
  Sound = Holds platform rank config

  handle_sig_ordered-Keeps :
      (s : Server platform) (msg : ZeusMsg Tx)
      → Sound s
      → Leaves Sound (handle_sig_ordered platform s msg)
  unfolding handle_sig_ordered
  handle_sig_ordered-Keeps s (sig_propose p auth att sender) v =
      handle_sig_proposal-Keeps platform rank config s p auth att sender v
  handle_sig_ordered-Keeps s (sig_blame r auth) v =
      handle_sig_blame-Keeps platform rank config s r auth v
  handle_sig_ordered-Keeps s (sig_blame_qc r qc) v =
      on_sig_blame_qc-Keeps platform rank config s r qc v
  handle_sig_ordered-Keeps s (sig_relay p auth h sender) v = v
  handle_sig_ordered-Keeps s (attestation_request i r) v = v
  handle_sig_ordered-Keeps s (attestation_response r) v = v
  handle_sig_ordered-Keeps s (sig_element_request i r) v = v
  handle_sig_ordered-Keeps s (sig_element_response r) v = v
  handle_sig_ordered-Keeps s (data_propose b sender) v = v
  handle_sig_ordered-Keeps s (data_request h source) v = v
  handle_sig_ordered-Keeps s (data_response b) v = v
  handle_sig_ordered-Keeps s (eleader_blame b) v = v
  handle_sig_ordered-Keeps s (eleader_change_qc qc) v = v

  take_ordered-Keeps : (s : Server platform) → Sound s → Leaves Sound (take_ordered platform s)
  unfolding take_ordered
  take_ordered-Keeps s v = elim (Option-cases (pop_msg s.round_state)) [
    | inl e ↦ rw (take_ordered, e) v
    | inr ((msg, round_state), e) ↦
        let t = record s { round_state = round_state } in
        rw (take_ordered, e)
          (Leaves-logged Sound (handle_sig_ordered platform t msg)
            (handle_sig_ordered-Keeps t msg v))
  ]

  -- A step of the data chain that leaves the index and the links as they are.
  recommitted :
      (s : Server platform) (zeus : ZeusState Tx)
      → (e : Committing.Event Tx) → Committing.step (codec platform) s.data_plane.zeus e ≡ some zeus
      → zeus.data_block_db.meta ≡ s.data_plane.zeus.data_block_db.meta
      → zeus.child_of ≡ s.data_plane.zeus.child_of
      → Sound s
      → Sound (record s { data_plane = record s.data_plane { zeus = zeus } })
  recommitted s zeus ev q e f v = record {
    ranked = rw e v.ranked;
    climbing = λ p c. rw f (v.climbing p c);
    waiting = v.waiting;
    changes = v.changes;
    reached = v.reached;
    history = Reached-step platform s.data_plane.zeus zeus ev q v.history;
    configured = v.configured;
  }

  on_committed-Keeps :
      (s : Server platform) (c : ZeusCommittedAttestation)
      → Sound s
      → Leaves Sound (on_committed platform s c)
  unfolding on_committed Committing.step
  on_committed-Keeps s c v =
      elim (on_committed_attestation_lem (codec platform) rank s.data_plane.zeus c v.climbing) [
        | inl (l, e) ↦ rw (on_committed, e) (recommitted s _ (Committing.committed c) e refl refl v)
        | inr (hashes, last, top, l, w, e) ↦
            rw (on_committed, e) (recommitted s _ (Committing.committed c) e refl refl v)
      ]

  module _
      (rank_lem : (e : DataBlockEnvelope Tx)
        → rank e.parent_hash < rank (platform.hash_envelope e)) where
    dispatch-Keeps :
        (s : Server platform) (msg : ZeusMsg Tx) → Sound s → Leaves Sound (dispatch platform s msg)
    unfolding dispatch queue
    dispatch-Keeps s (data_propose b sender) v =
        on_data_propose-Keeps platform rank config rank_lem s b sender v
    dispatch-Keeps s (data_request h source) v =
        on_data_request-Keeps platform rank config s h source v
    dispatch-Keeps s (data_response b) v =
        on_data_response-Keeps platform rank config rank_lem s b v
    dispatch-Keeps s (eleader_blame b) v = on_eleader_blame-Keeps platform rank config s b v
    dispatch-Keeps s (eleader_change_qc qc) v =
        on_eleader_change_qc-Keeps platform rank config s qc v
    dispatch-Keeps s (sig_propose p auth att sender) v = v
    dispatch-Keeps s (sig_blame r auth) v = v
    dispatch-Keeps s (sig_blame_qc r qc) v = v
    dispatch-Keeps s (sig_relay p auth h sender) v = v
    dispatch-Keeps s (attestation_request i r) v = v
    dispatch-Keeps s (attestation_response r) v = v
    dispatch-Keeps s (sig_element_request i r) v = v
    dispatch-Keeps s (sig_element_response r) v = v

    take_loopback-Keeps : (s : Server platform) → Sound s → Leaves Sound (take_loopback platform s)
    unfolding take_loopback
    take_loopback-Keeps s v = looped s.tx_msg_loopback
      where
        looped :
            (msgs : List (ZeusMsg Tx))
            → Leaves Sound (elim msgs [
              | [] ↦ ok s
              | msg ∷ rest ↦ logged (dispatch platform (record s { tx_msg_loopback = rest }) msg)
            ])
        looped [] = v
        looped (msg ∷ rest) =
            let t = record s { tx_msg_loopback = rest } in
            Leaves-logged Sound (dispatch platform t msg) (dispatch-Keeps t msg v)

    pub step-Keeps :
        (s : Server platform) (e : Event Tx) → Sound s → Leaves Sound (step platform s e)
    unfolding step Committing.step
    step-Keeps s (batch payload) v =
        Leaves-if Sound (is_eleader s.data_plane) (logged (on_eleader_propose platform s payload))
          (ok s)
          (λ e.
            Leaves-logged Sound (on_eleader_propose platform s payload)
              (on_eleader_propose-Keeps platform rank config s payload v))
          (λ e. v)
    step-Keeps s ordered v = take_ordered-Keeps s v
    step-Keeps s tick v =
        Leaves-if Sound s.round_timer.timer_enabled (logged (on_round_timeout platform s)) (ok s)
          (λ e.
            Leaves-logged Sound (on_round_timeout platform s)
              (on_round_timeout-Keeps platform rank config s v))
          (λ e. v)
    step-Keeps s loopback v = take_loopback-Keeps s v
    step-Keeps s (net_msg msg) v =
        Leaves-logged Sound (dispatch platform s msg) (dispatch-Keeps s msg v)
    step-Keeps s (committed c) v = on_committed-Keeps s c v
    step-Keeps s (emission height) v = recommitted s _ (Committing.emitted height) refl refl refl v
    step-Keeps s data_timer v =
        Leaves-logged Sound (on_data_timer_expired platform s)
          (on_data_timer_expired-Keeps platform rank config s v)

    pub run-Keeps :
        (s : Server platform) (es : List (Event Tx)) → Sound s → Leaves Sound (run platform s es)
    unfolding run
    run-Keeps s [] v = v
    run-Keeps s (e ∷ es) v =
        Leaves-seq Sound (step platform s e) (λ t. run platform t es) (step-Keeps s e v)
          (λ t w. run-Keeps t es w)
