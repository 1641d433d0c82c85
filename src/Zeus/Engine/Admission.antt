-- ===== src/Zeus/Engine/Admission.antt =====
-- consensus/src/server/zeus/phases/data.rs: the three cases of an admission, and the blocks that are
-- parked until their parent comes.
pub mod Draining
pub mod Outcome
use leto_rs.Prelude.{
  ℕ, zero, suc, ◌+◌, none, some, List, [], ◌∷◌, ◌++◌, nat_eq, nat_beq, if◌then◌else◌, Map, remove,
  contains_key, length,
}
use leto_rs.Prelude.Results.{Handled, ok, out_of_fuel, ◌>>=◌}
use leto_rs.Leto.RoundContext.{queue_at, push}
use leto_rs.Zeus.Types.{DataBlock, genesis_block}
use leto_rs.Zeus.Committing.{insert_non_head}
use leto_rs.Zeus.Admitting.{insert_and_advance, advance_head_via_child_of}
use leto_rs.Zeus.Engine.{Platform, Server, codec, broadcast_data_request}

-- How many blocks are parked.
unfoldable pub parked_count : {Tx : Type 0} → Map ℕ (List (DataBlock Tx)) → ℕ
parked_count [] = 0
parked_count ((h, bs) ∷ pending) = length bs + parked_count pending

module _ {Tx H T R S PublicKey : Type 0} (platform : Platform Tx H T R S PublicKey) where
  open platform use {hash_envelope, empty_hash, read_block}

  unfoldable pub genesis_hash : ℕ
  unfolding genesis_block
  genesis_hash = hash_envelope (genesis_block {Tx = Tx} empty_hash).envelope

  -- `drain_pending_attestations`
  unfoldable pub drain_pending_attestations : Server platform → ℕ → Server platform
  drain_pending_attestations s hash = record s {
    pending_attestations = remove hash s.pending_attestations;
    tx_msg_loopback = s.tx_msg_loopback ++ queue_at hash s.pending_attestations;
  }

  unfoldable pub replay_at_head : Server platform → Server platform
  unfolding drain_pending_attestations
  replay_at_head s = drain_pending_attestations s s.data_plane.head_hash

  -- The insertions of the first two cases.
  unfoldable pub insert_at_head : Server platform → DataBlock Tx → Server platform
  insert_at_head s block = record s {
    data_plane =
        insert_and_advance (codec platform) read_block s.data_plane block
          (hash_envelope block.envelope) block.envelope.parent_hash;
  }

  unfoldable pub insert_bridge : Server platform → DataBlock Tx → Server platform
  insert_bridge s block = record s {
    data_plane = record s.data_plane {
      zeus =
          insert_non_head (codec platform) s.data_plane.zeus block (hash_envelope block.envelope)
            block.envelope.parent_hash;
    };
  }

  unfoldable pub advance_head : Server platform → Handled (Server platform) (Server platform)
  advance_head s = elim (advance_head_via_child_of (codec platform) read_block s.data_plane) [
    | none ↦ out_of_fuel
    | some data_plane ↦ ok (record s { data_plane = data_plane })
  ]

  unfoldable pub park_block : Server platform → DataBlock Tx → Server platform
  park_block s block =
      let parent_hash = block.envelope.parent_hash in
      if nat_beq parent_hash genesis_hash
      then s
      else broadcast_data_request platform
          (record s { pending_data_blocks = push parent_hash block s.pending_data_blocks })
          parent_hash

  -- `admit_data_block`, with its drain of the parked blocks.
  unfoldable pub admit_with :
      (Server platform → Handled (Server platform) (Server platform))
      → Server platform
      → DataBlock Tx
      → Handled (Server platform) (Server platform)
  unfolding replay_at_head insert_at_head insert_bridge advance_head park_block
  admit_with drain s block =
      if nat_beq block.envelope.parent_hash s.data_plane.head_hash
      then (do t ← drain (insert_at_head s block); ok (replay_at_head t))
      else if contains_key block.envelope.parent_hash s.data_plane.zeus.data_block_db.meta
      then (do t ← drain (insert_bridge s block); u ← advance_head t; ok (replay_at_head u))
      else ok (park_block s block)

  -- The loop over the blocks parked under one parent.
  unfoldable pub admit_all :
      (Server platform → Handled (Server platform) (Server platform))
      → Server platform
      → List (DataBlock Tx)
      → Handled (Server platform) (Server platform)
  unfolding admit_with
  admit_all drain s [] = ok s
  admit_all drain s (block ∷ blocks) = do t ← admit_with drain s block; admit_all drain t blocks

  unfoldable pub take_parked : Server platform → ℕ → Server platform
  take_parked s h = record s { pending_data_blocks = remove h s.pending_data_blocks }

  -- `drain_pending_data_blocks`, on fuel.
  unfoldable pub drain : ℕ → Server platform → Handled (Server platform) (Server platform)
  unfolding admit_all take_parked
  drain zero s = out_of_fuel
  drain (suc fuel) s =
      let t = take_parked s s.data_plane.head_hash in
      elim (queue_at s.data_plane.head_hash s.pending_data_blocks) [
        | [] ↦ ok t
        | block ∷ blocks ↦ do u ← admit_all (drain fuel) t (block ∷ blocks); drain fuel u
      ]

  unfoldable pub admit_data_block :
      Server platform → DataBlock Tx → Handled (Server platform) (Server platform)
  unfolding drain parked_count
  admit_data_block s block = admit_with (drain (suc (parked_count s.pending_data_blocks))) s block
