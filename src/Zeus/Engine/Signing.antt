-- ===== src/Zeus/Engine/Signing.antt =====
-- consensus/src/server/zeus/phases/sig.rs: proposals, blames and blame certificates of the signature
-- chain.
pub mod Stale
use leto_rs.Prelude.{
  ℕ, true, false, Option, none, some, [], ◌∷◌, ◌++◌, nat_eq, nat_beq, if◌then◌else◌, lookup, insert,
  length,
}
use leto_rs.Prelude.Results.{Handled, ok, failed, out_of_fuel, ◌>>=◌, or_panic, or_fail, logged}
use leto_rs.Types.{
  Signature, Certificate, Proposal, verify_signature, verify_without_id_check, verify_certificate,
  empty_certificate,
}
use leto_rs.Leto.LeaderContext
use leto_rs.Leto.LeaderContext.{LeaderContext}
use leto_rs.Leto.ChainState.{update_highest_chain, add_qc}
use leto_rs.Leto.Engine.Blaming.{add_all}
use leto_rs.Zeus.Types.{Attestation}
use leto_rs.Zeus.Messages.{ZeusMsg, sig_propose, sig_relay, sig_blame, sig_blame_qc}
use leto_rs.Zeus.Rounds
use leto_rs.Zeus.Rounds.{disable_timer}
use leto_rs.Zeus.Attestations.{
  AttestationValidity, valid, invalid, parked, ZeusView, make_attestation, attestation_valid,
}
use leto_rs.Zeus.Admitting.{timer_data_round_entry, height_of}
use leto_rs.Zeus.Engine.{
  Platform, Server, attestation_crypto, pk_verify, current_round, leader, highest_round, qc_len,
  broadcast, send, loop_back, broadcast_data_request, arm_data_timer, disarm_data_timer, view,
}

module _ {Tx H T R S PublicKey : Type 0} (platform : Platform Tx H T R S PublicKey) where
  open platform use {
    hash_attestation, hash_round, hash_proposal, as_ref, sign, base, choice, reset, gc_depth,
  }

  -- The proposal of an attestation on the head of the signature chain.
  unfoldable pub sig_proposal : Server platform → Attestation → Proposal
  sig_proposal s attestation = record {
    block = record {
      batch_hash = hash_attestation attestation.envelope;
      prev_hash = s.sig_chain_state.highest_chain_hash;
    };
    qc = none;
    round = current_round platform s;
  }

  unfoldable pub handle_new_sig_round :
      Server platform → Handled (Server platform) (Server platform)
  unfolding disarm_data_timer sig_proposal loop_back
  handle_new_sig_round s = do
    let t =
        disarm_data_timer platform
          (record s { data_plane = record s.data_plane { rleader_waiting_fresh = false } })
    attestation ← or_fail t (
        make_attestation (attestation_crypto platform) (view platform t) (current_round platform t))
    let proposal = sig_proposal t attestation
    raw ← or_fail t (sign (as_ref (hash_proposal proposal)))
    let auth : Signature = record { raw = raw; id = t.data_plane.my_id }
    let msg : ZeusMsg Tx = sig_propose proposal auth attestation t.data_plane.my_id
    let u = loop_back platform (broadcast platform t msg) msg
    ok (record u {
      data_plane = record u.data_plane {
        last_attested_data_height = height_of s.data_plane.latest_eleader_block;
      };
    })

  -- `try_commit`
  unfoldable pub try_commit : Server platform → Server platform
  try_commit s = record s {
    zeus_commit_ctx =
        s.zeus_commit_ctx
        ++ (s.sig_chain_state.highest_chain_hash, s.sig_chain_state.highest_chain_element) ∷ [];
  }

  -- What `advance_sig_round` does before the leader of the new round proposes.
  unfoldable pub enter_round : Server platform → LeaderContext R → Server platform
  unfolding try_commit arm_data_timer
  enter_round s sig_leader_context =
      let (round_state, round_timer) =
        Rounds.advance_round reset gc_depth (s.round_state, s.round_timer) in
      arm_data_timer platform
        (try_commit (record s {
          data_plane = record s.data_plane { sig_leader_context = sig_leader_context };
          round_state = round_state;
          round_timer = round_timer;
        }))
        timer_data_round_entry

  -- The error of a proposal is logged.
  unfoldable pub propose_if_leader : Server platform → Handled (Server platform) (Server platform)
  propose_if_leader s =
      if nat_beq (leader platform s) s.data_plane.my_id
      then logged (handle_new_sig_round s)
      else ok s

  -- `advance_sig_round`; a panic of the leader context is one.
  unfoldable pub advance_sig_round : Server platform → Handled (Server platform) (Server platform)
  unfolding propose_if_leader
  advance_sig_round s = do
    sig_leader_context ←
        or_panic (LeaderContext.advance_round choice s.data_plane.sig_leader_context)
    propose_if_leader (enter_round s sig_leader_context)

  unfoldable pub relay_sig_proposal : Server platform → Proposal → Signature → Server platform
  unfolding send
  relay_sig_proposal s proposal auth =
      let next_leader = s.data_plane.sig_leader_context.next_leader in
      if nat_beq next_leader s.data_plane.my_id
      then s
      else send platform s next_leader
          (sig_relay proposal auth proposal.block.batch_hash s.data_plane.my_id)

  unfoldable pub on_correct_sig_proposal :
      Server platform
      → Proposal
      → Signature
      → Attestation
      → Handled (Server platform) (Server platform)
  on_correct_sig_proposal s proposal auth attestation =
      let t = relay_sig_proposal s proposal auth in
      advance_sig_round (record t {
        sig_chain_state =
            update_highest_chain base t.sig_chain_state proposal auth (attestation ∷ []);
      })

  -- The leader's signature, where another server leads.
  unfoldable pub check_sig_leader :
      Server platform → Proposal → Signature → Handled (Server platform) (Unit {0})
  check_sig_leader s proposal auth =
      if nat_beq (leader platform s) s.data_plane.my_id then ok tt else do
        pk ← or_fail s (lookup (leader platform s) s.crypto_system)
        if verify_signature (pk_verify platform) auth (hash_proposal proposal) (leader platform s)
              pk
            then ok tt
            else failed s

  -- The match on the validity of the attestation, with the state that its check left.
  unfoldable pub on_validity :
      Server platform
      → Proposal
      → Signature
      → Attestation
      → Option (AttestationValidity × ZeusView PublicKey (ZeusMsg Tx))
      → Handled (Server platform) (Server platform)
  on_validity s proposal auth attestation none = out_of_fuel
  on_validity s proposal auth attestation (some (valid, z)) =
      on_correct_sig_proposal (record s { pending_attestations = z.pending_attestations }) proposal
        auth attestation
  on_validity s proposal auth attestation (some (invalid, z)) =
      ok (record s { pending_attestations = z.pending_attestations })
  on_validity s proposal auth attestation (some (parked h, z)) = ok (
      broadcast_data_request platform (record s { pending_attestations = z.pending_attestations })
        h)

  unfoldable pub handle_sig_proposal :
      Server platform
      → Proposal
      → Signature
      → Attestation
      → ℕ
      → Handled (Server platform) (Server platform)
  unfolding check_sig_leader on_validity
  handle_sig_proposal s proposal auth attestation sender =
      if nat_beq proposal.round (current_round platform s)
      then (do
        signed ← check_sig_leader s proposal auth
        on_validity s proposal auth attestation (
            attestation_valid (attestation_crypto platform) (view platform s) attestation
              (sig_propose proposal auth attestation sender)))
      else ok s

  unfoldable pub handle_sig_blame_qc :
      Server platform → ℕ → Certificate → Handled (Server platform) (Server platform)
  handle_sig_blame_qc s blame_round qc =
      let t =
        broadcast platform (record s { round_state = record s.round_state { got_qc = true } })
          (sig_blame_qc blame_round qc) in
      advance_sig_round (record t { sig_chain_state = add_qc t.sig_chain_state blame_round qc })

  -- The signature is added to the set; at `qc_len` signatures the certificate is made of the set.
  unfoldable pub add_sig_blame :
      Server platform → ℕ → Signature → Handled (Server platform) (Server platform)
  add_sig_blame s blame_round auth =
      let blame_map = insert auth.id auth s.round_state.blame_map in
      if nat_beq (length blame_map) (qc_len platform s)
      then handle_sig_blame_qc
          (record s { round_state = record s.round_state { blame_map = []; got_qc = true } })
          blame_round (add_all blame_map empty_certificate)
      else ok (record s { round_state = record s.round_state { blame_map = blame_map } })

  unfoldable pub handle_sig_blame :
      Server platform → ℕ → Signature → Handled (Server platform) (Server platform)
  handle_sig_blame s blame_round auth =
      if nat_beq (highest_round platform s) blame_round
      then ok s
      else if s.round_state.got_qc
      then ok s
      else do
        pk ← or_fail s (lookup auth.id s.crypto_system)
        if verify_without_id_check (pk_verify platform) auth (hash_round blame_round) pk
            then add_sig_blame s blame_round auth
            else failed s

  unfoldable pub on_sig_blame_qc :
      Server platform → ℕ → Certificate → Handled (Server platform) (Server platform)
  unfolding handle_sig_blame_qc
  on_sig_blame_qc s blame_round qc =
      if s.round_state.got_qc
      then ok s
      else if verify_certificate (pk_verify platform) qc (hash_round blame_round) s.crypto_system
      then handle_sig_blame_qc s blame_round qc
      else failed s

  unfoldable pub on_round_timeout : Server platform → Handled (Server platform) (Server platform)
  unfolding disable_timer loop_back
  on_round_timeout s = do
    let t = record s { round_timer = disable_timer s.round_timer }
    raw ← or_fail t (sign (as_ref (hash_round (current_round platform t))))
    let msg : ZeusMsg Tx =
        sig_blame (current_round platform t) (record { raw = raw; id = t.data_plane.my_id })
    ok (loop_back platform (broadcast platform t msg) msg)
