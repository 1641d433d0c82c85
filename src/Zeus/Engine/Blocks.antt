-- ===== src/Zeus/Engine/Blocks.antt =====
-- consensus/src/server/zeus/phases/data.rs: the eleader's proposals of data blocks, and the messages
-- that bring blocks to the other servers.
pub mod Equivocation
use leto_rs.Prelude.{
  ℕ, Bool, true, false, not, none, some, List, [], ◌∷◌, ◌++◌, nat_eq, nat_beq, if◌then◌else◌,
  lookup, wrapping_add,
}
use leto_rs.Prelude.Results.{Handled, ok, failed, panicked, out_of_fuel, ◌>>=◌, or_fail, logged}
use leto_rs.Zeus.Types.{DataBlock, DataBlockEnvelope, EleaderBlame}
use leto_rs.Zeus.Messages.{ZeusMsg, data_propose, data_response}
use leto_rs.Zeus.DataChain.{
  eleader, epoch_gate_valid, conflicts_data_prefix, latest_committed_attestation,
}
use leto_rs.Zeus.Store.{get, contains}
use leto_rs.Zeus.Engine.{Platform, Server, codec, send, loop_back, broadcast_data}
use leto_rs.Zeus.Engine.Signing.{handle_new_sig_round}
use leto_rs.Zeus.Engine.Changing.{make_equivocation_blame, raise_blame}
use leto_rs.Zeus.Engine.Admission.{genesis_hash, admit_data_block}

module _ {Tx H T R S PublicKey : Type 0} (platform : Platform Tx H T R S PublicKey) where
  open platform use {hash_envelope, as_ref, sign, verify, read_block}

  unfoldable pub verify_data_block_sig : Server platform → DataBlock Tx → Bool
  verify_data_block_sig s block =
      elim (lookup (eleader block.envelope.epoch s.data_plane.num_nodes) s.crypto_system) [
        | none ↦ false
        | some pk ↦ verify pk (as_ref (hash_envelope block.envelope)) block.sig.raw
      ]

  -- The block that the first proposal of an epoch extends, with its height.
  unfoldable pub extended : Server platform → ℕ × ℕ
  unfolding genesis_hash
  extended s = elim (latest_committed_attestation s.data_plane.zeus.commit_lock) [
    | none ↦ (genesis_hash platform, 0)
    | some a ↦ elim (lookup a.envelope.data_block_hash s.data_plane.zeus.data_block_db.meta) [
      | none ↦ (genesis_hash platform, 0)
      | some m ↦ (m.hash, m.height)
    ]
  ]

  -- The parent of the next proposal and the proposal's height.
  unfoldable pub next_parent : Server platform → ℕ × ℕ
  unfolding extended
  next_parent s = elim s.last_proposed_hash [
    | some hash ↦ (hash, wrapping_add s.data_plane.eleader_proposed_height 1)
    | none ↦ (let (hash, height) = extended s in (hash, wrapping_add height 1))
  ]

  -- The state of the pipeline and the batcher after a proposal.
  unfoldable pub note_proposed : Server platform → ℕ → ℕ → Server platform
  note_proposed s height hash = record s {
    last_proposed_hash = some hash;
    data_plane = record s.data_plane {
      eleader_proposed_height = height;
      tx_consensus_to_batcher =
          s.data_plane.tx_consensus_to_batcher
          ++ (eleader s.data_plane.current_epoch s.data_plane.num_nodes, wrapping_add height 1)
            ∷ [];
    };
  }

  unfoldable pub on_eleader_propose :
      Server platform → List Tx → Handled (Server platform) (Server platform)
  unfolding next_parent note_proposed broadcast_data loop_back
  on_eleader_propose s [] = ok s
  on_eleader_propose s (tx ∷ txs) = do
    let (parent_hash, height) = next_parent s
    let envelope : DataBlockEnvelope Tx = record {
      epoch = s.data_plane.current_epoch;
      height = height;
      payload = tx ∷ txs;
      parent_hash = parent_hash;
    }
    raw ← or_fail s (sign (as_ref (hash_envelope envelope)))
    let block : DataBlock Tx = record {
      envelope = envelope;
      sig = record { raw = raw; signer = s.data_plane.my_id };
    }
    let t = note_proposed s height (hash_envelope envelope)
    let msg : ZeusMsg Tx = data_propose block s.data_plane.my_id
    ok (
        loop_back platform
          (record t { data_net = broadcast_data platform t.data_net t.broadcast_peers msg }) msg)

  -- A leader that was woken proposes; its error is logged.
  unfoldable pub wake : Server platform → Handled (Server platform) (Server platform)
  wake s =
      if s.data_plane.rleader_wakeup_pending
      then logged (
          handle_new_sig_round platform
            (record s { data_plane = record s.data_plane { rleader_wakeup_pending = false } }))
      else ok s

  unfoldable pub admit_and_wake :
      Server platform → DataBlock Tx → Handled (Server platform) (Server platform)
  unfolding wake
  admit_and_wake s block = do t ← admit_data_block platform s block; wake t

  -- The blame of two children of one parent; the error of its construction is logged.
  unfoldable pub blame_equivocation :
      Server platform
      → Handled (Server platform) (EleaderBlame Tx)
      → Handled (Server platform) (Server platform)
  blame_equivocation s (ok blame) = raise_blame platform s blame
  blame_equivocation s (failed t) = ok t
  blame_equivocation s panicked = panicked
  blame_equivocation s out_of_fuel = out_of_fuel

  unfoldable pub on_equivocation :
      Server platform → DataBlock Tx → ℕ → Handled (Server platform) (Server platform)
  unfolding blame_equivocation
  on_equivocation s block existing_child_hash =
      elim (get (codec platform) read_block s.data_plane.zeus.data_block_db existing_child_hash) [
        | none ↦ ok s
        | some existing_block ↦ blame_equivocation s (
            make_equivocation_blame platform s block.envelope.epoch block.envelope.height
              existing_block block)
      ]

  -- The check of the committed prefix, and the admission.
  unfoldable pub admit_unless_conflict :
      Server platform → DataBlock Tx → Handled (Server platform) (Server platform)
  unfolding admit_and_wake
  admit_unless_conflict s block =
      elim (conflicts_data_prefix (hash_envelope block.envelope) block.envelope.height
        block.envelope.parent_hash s.data_plane.zeus.commit_lock
        s.data_plane.zeus.data_block_db.meta) [
          | none ↦ out_of_fuel
          | some true ↦ ok s
          | some false ↦ admit_and_wake s block
        ]

  -- The checks of `on_data_propose` before that of equivocation.
  unfoldable pub is_acceptable : Server platform → DataBlock Tx → ℕ → Bool
  unfolding verify_data_block_sig
  is_acceptable s block sender =
      if not (nat_beq sender (eleader block.envelope.epoch s.data_plane.num_nodes))
      then false
      else if not (verify_data_block_sig s block)
      then false
      else if not (epoch_gate_valid block s.data_plane.current_epoch s.admitted_change_qcs)
      then false
      else not
          (contains (codec platform) s.data_plane.zeus.data_block_db (hash_envelope block.envelope))

  unfoldable pub on_data_propose :
      Server platform → DataBlock Tx → ℕ → Handled (Server platform) (Server platform)
  unfolding is_acceptable on_equivocation admit_unless_conflict
  on_data_propose s block sender =
      if is_acceptable s block sender
      then elim (lookup block.envelope.parent_hash s.data_plane.zeus.child_of) [
        | none ↦ admit_unless_conflict s block
        | some existing_child_hash ↦
            if nat_beq existing_child_hash (hash_envelope block.envelope)
            then admit_unless_conflict s block
            else on_equivocation s block existing_child_hash
      ]
      else ok s

  unfoldable pub on_data_request :
      Server platform → ℕ → ℕ → Handled (Server platform) (Server platform)
  unfolding send
  on_data_request s target_hash source =
      elim (get (codec platform) read_block s.data_plane.zeus.data_block_db target_hash) [
        | none ↦ ok s
        | some block ↦ ok (send platform s source (data_response block))
      ]

  -- The checks of `on_data_response` before that of equivocation.
  unfoldable pub is_acceptable_response : Server platform → DataBlock Tx → Bool
  unfolding verify_data_block_sig
  is_acceptable_response s block =
      if contains (codec platform) s.data_plane.zeus.data_block_db (hash_envelope block.envelope)
      then false
      else if not (verify_data_block_sig s block)
      then false
      else epoch_gate_valid block block.envelope.epoch s.admitted_change_qcs

  unfoldable pub on_data_response :
      Server platform → DataBlock Tx → Handled (Server platform) (Server platform)
  unfolding is_acceptable_response
  on_data_response s block =
      if is_acceptable_response s block
      then elim (lookup block.envelope.parent_hash s.data_plane.zeus.child_of) [
        | none ↦ admit_and_wake s block
        | some existing_child ↦
            if nat_beq existing_child (hash_envelope block.envelope)
            then admit_and_wake s block
            else ok s
      ]
      else ok s
