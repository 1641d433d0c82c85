-- ===== src/Zeus/Engine/Changing.antt =====
-- consensus/src/server/zeus/phases/blame.rs and the end of core.rs: blames of the eleader, the change
-- certificates that they form, and the epochs that these end.
pub mod Blocked
use leto_rs.Prelude.{
  ℕ, ◌+◌, Bool, true, false, ◌&&◌, ◌||◌, none, some, List, [], ◌∷◌, ◌++◌, nat_eq, nat_beq, ltb, leb,
  if◌then◌else◌, Map, lookup, insert, retain, contains_key, set_insert, length, wrapping_add,
}
use leto_rs.Prelude.Results.{Handled, ok, panicked, ◌>>=◌, or_panic, or_fail}
use leto_rs.Leto.RoundContext.{queue_at, push}
use leto_rs.Zeus.Types.{
  DataBlock, BlameReason, silence, equivocation, BlamePayload, silent_since, two_blocks,
  EleaderBlame, EleaderChangeQc, genesis_block,
}
use leto_rs.Zeus.Messages.{eleader_blame, eleader_change_qc}
use leto_rs.Zeus.DataChain.{
  DataBlockMeta, eleader, blame_signed_bytes, eleader_blame_valid, eleader_change_qc_valid,
  latest_committed_attestation,
}
use leto_rs.Zeus.Admitting.{timer_data_round_entry, rleader_waits, height_of}
use leto_rs.Zeus.Engine.{Platform, Server, crypto, broadcast, arm_data_timer, disarm_data_timer}

unfoldable pub same_reason : BlameReason → BlameReason → Bool
same_reason silence silence = true
same_reason silence equivocation = false
same_reason equivocation silence = false
same_reason equivocation equivocation = true

-- The block is stored, at most as high.
unfoldable pub is_low : Map ℕ DataBlockMeta → ℕ → ℕ → Bool
is_low meta height h = elim (lookup h meta) [ none ↦ false | some m ↦ leb m.height height ]

module _ {Tx : Type 0} where
  -- A blame by the same signer for the same reason.
  unfoldable pub already_have : EleaderBlame Tx → List (EleaderBlame Tx) → Bool
  unfolding same_reason
  already_have blame [] = false
  already_have blame (b ∷ bs) =
      nat_beq b.signer blame.signer && same_reason b.reason blame.reason || already_have blame bs

  -- The set of the signers.
  unfoldable pub signers : List (EleaderBlame Tx) → List ℕ → List ℕ
  signers [] seen = seen
  signers (b ∷ bs) seen = signers bs (set_insert b.signer seen)

  -- The loop that merges the blames of a certificate.
  unfoldable pub merge_blames :
      List (EleaderBlame Tx) → List (EleaderBlame Tx) → List (EleaderBlame Tx)
  merge_blames [] local = local
  merge_blames (b ∷ bs) local =
      if already_have b local then merge_blames bs local else merge_blames bs (local ++ b ∷ [])

  unfoldable pub keep_low : ℕ → List (DataBlock Tx) → List (DataBlock Tx)
  keep_low height [] = []
  keep_low height (b ∷ bs) =
      if leb b.envelope.height height then b ∷ keep_low height bs else keep_low height bs

  -- Both passes over `pending_data_blocks`.
  unfoldable pub purge_blocks :
      Map ℕ DataBlockMeta → ℕ → Map ℕ (List (DataBlock Tx)) → Map ℕ (List (DataBlock Tx))
  unfolding keep_low is_low
  purge_blocks meta height [] = []
  purge_blocks meta height ((h, children) ∷ pending) =
      let rest = purge_blocks meta height pending in
      elim (keep_low height children) [
        | [] ↦ rest
        | b ∷ bs ↦ if is_low meta height h then (h, b ∷ bs) ∷ rest else rest
      ]

module _ {Tx H T R S PublicKey : Type 0} (platform : Platform Tx H T R S PublicKey) where
  open platform use {hash_envelope, empty_hash, sign}

  -- The hash and the height of the block that the latest committed attestation pins, or of the genesis
  -- block.
  unfoldable pub d_star : Server platform → ℕ × ℕ
  unfolding genesis_block
  d_star s = elim (latest_committed_attestation s.data_plane.zeus.commit_lock) [
    | none ↦ (hash_envelope (genesis_block {Tx = Tx} empty_hash).envelope, 0)
    | some att ↦ (att.envelope.data_block_hash, att.envelope.data_block_height)
  ]

  -- The start of the epoch, before the timer and the batcher.
  unfoldable pub truncate : Server platform → ℕ → ℕ → ℕ → Server platform
  unfolding purge_blocks
  truncate s new_epoch d_star_hash d_star_height =
      let meta = s.data_plane.zeus.data_block_db.meta in
      record s {
        data_plane = record s.data_plane {
          current_epoch = new_epoch;
          head_hash = d_star_hash;
          head_height = d_star_height;
          eleader_proposed_height = d_star_height;
          rleader_waiting_fresh = false;
          latest_eleader_block = none;
        };
        last_proposed_hash = none;
        pending_data_blocks = purge_blocks meta d_star_height s.pending_data_blocks;
        pending_attestations = retain (is_low meta d_star_height) s.pending_attestations;
      }

  -- The new eleader starts its batcher.
  unfoldable pub start_batcher : Server platform → Server platform
  start_batcher s =
      let d = s.data_plane in
      if nat_beq d.my_id (eleader d.current_epoch d.num_nodes)
      then record s {
        data_plane = record d {
          tx_consensus_to_batcher =
              d.tx_consensus_to_batcher ++ (d.my_id, wrapping_add d.eleader_proposed_height 1) ∷ [];
        };
      }
      else s

  unfoldable pub advance_to_epoch : Server platform → ℕ → Server platform
  unfolding d_star truncate start_batcher
  advance_to_epoch s new_epoch =
      let (d_star_hash, d_star_height) = d_star s in
      start_batcher (
        arm_data_timer platform (truncate s new_epoch d_star_hash d_star_height)
          timer_data_round_entry)

  -- The certificate's epoch is left, where the server is not past it.
  unfoldable pub leave_epoch : Server platform → ℕ → Server platform
  unfolding advance_to_epoch
  leave_epoch s epoch =
      if leb s.data_plane.current_epoch epoch then advance_to_epoch s (wrapping_add epoch 1) else s

  unfoldable pub admit_change_qc : Server platform → EleaderChangeQc Tx → Server platform
  admit_change_qc s qc = record s { admitted_change_qcs = insert qc.epoch qc s.admitted_change_qcs }

  -- `try_form_change_qc` with the blames of the epoch.
  unfoldable pub form_change_qc :
      Server platform → ℕ → List (EleaderBlame Tx) → Handled (Server platform) (Server platform)
  unfolding signers leave_epoch admit_change_qc
  form_change_qc s epoch blames =
      let qc : EleaderChangeQc Tx = record { epoch = epoch; blames = blames } in
      if ltb (length (signers blames [])) (s.num_faults + 1)
      then ok s
      else elim (eleader_change_qc_valid (crypto platform) qc s.crypto_system s.num_faults
          s.data_plane.num_nodes) [
            | none ↦ panicked
            | some false ↦ ok s
            | some true ↦ ok (
                leave_epoch (broadcast platform (admit_change_qc s qc) (eleader_change_qc qc))
                  epoch)
          ]

  unfoldable pub try_form_change_qc :
      Server platform → ℕ → Handled (Server platform) (Server platform)
  unfolding form_change_qc
  try_form_change_qc s epoch =
      if contains_key epoch s.admitted_change_qcs
      then ok s
      else elim (lookup epoch s.eleader_blames) [
        | none ↦ ok s
        | some blames ↦ form_change_qc s epoch blames
      ]

  -- The blame is kept, unless there is one by the signer for the reason.
  unfoldable pub accept_blame :
      Server platform → EleaderBlame Tx → Handled (Server platform) (Server platform)
  unfolding try_form_change_qc
  accept_blame s blame =
      let existing = queue_at blame.epoch s.eleader_blames in
      if already_have blame existing
      then ok (record s { eleader_blames = insert blame.epoch existing s.eleader_blames })
      else try_form_change_qc
          (record s { eleader_blames = push blame.epoch blame s.eleader_blames }) blame.epoch

  unfoldable pub on_eleader_blame :
      Server platform → EleaderBlame Tx → Handled (Server platform) (Server platform)
  unfolding accept_blame
  on_eleader_blame s blame =
      elim (eleader_blame_valid (crypto platform) blame s.crypto_system
        (eleader blame.epoch s.data_plane.num_nodes)) [
          | none ↦ panicked
          | some false ↦ ok s
          | some true ↦ accept_blame s blame
        ]

  unfoldable pub on_eleader_change_qc :
      Server platform → EleaderChangeQc Tx → Handled (Server platform) (Server platform)
  unfolding admit_change_qc merge_blames leave_epoch
  on_eleader_change_qc s qc =
      if contains_key qc.epoch s.admitted_change_qcs
      then ok s
      else elim (eleader_change_qc_valid (crypto platform) qc s.crypto_system s.num_faults
          s.data_plane.num_nodes) [
            | none ↦ panicked
            | some false ↦ ok s
            | some true ↦
                let t = admit_change_qc s qc in
                ok (
                  leave_epoch
                    (record t {
                      eleader_blames =
                          insert qc.epoch
                            (merge_blames qc.blames (queue_at qc.epoch t.eleader_blames))
                            t.eleader_blames;
                    })
                    qc.epoch)
          ]

  unfoldable pub make_equivocation_blame :
      Server platform
      → ℕ
      → ℕ
      → DataBlock Tx
      → DataBlock Tx
      → Handled (Server platform) (EleaderBlame Tx)
  make_equivocation_blame s epoch height block_a block_b = do
    let payload : BlamePayload Tx = two_blocks height block_a block_b
    digest ← or_panic (blame_signed_bytes (crypto platform) epoch equivocation payload)
    sig_raw ← or_fail s (sign digest)
    ok (record {
      epoch = epoch;
      reason = equivocation;
      payload = payload;
      signer = s.data_plane.my_id;
      sig_raw = sig_raw;
    })

  -- The server's own blame is sent and kept, without a check.
  unfoldable pub raise_blame :
      Server platform → EleaderBlame Tx → Handled (Server platform) (Server platform)
  unfolding try_form_change_qc
  raise_blame s blame =
      let t = broadcast platform s (eleader_blame blame) in
      try_form_change_qc (record t { eleader_blames = push blame.epoch blame t.eleader_blames })
        blame.epoch

  -- `on_data_timer_expired` for a timer of a round's start.
  unfoldable pub blame_silence : Server platform → Handled (Server platform) (Server platform)
  unfolding raise_blame
  blame_silence s = do
    let payload : BlamePayload Tx = silent_since (height_of s.data_plane.latest_eleader_block)
    digest ←
        or_panic (blame_signed_bytes (crypto platform) s.data_plane.current_epoch silence payload)
    sig_raw ← or_fail s (sign digest)
    raise_blame s (record {
      epoch = s.data_plane.current_epoch;
      reason = silence;
      payload = payload;
      signer = s.data_plane.my_id;
      sig_raw = sig_raw;
    })

  unfoldable pub on_data_timer_expired :
      Server platform → Handled (Server platform) (Server platform)
  unfolding blame_silence
  on_data_timer_expired s =
      let t = disarm_data_timer platform s in
      elim s.data_plane.data_timer [
        | none ↦ ok s
        | some timer_data_round_entry ↦ blame_silence t
        | some rleader_waits ↦ ok (arm_data_timer platform t rleader_waits)
      ]
