-- ===== src/Zeus/Admitting.antt =====
-- consensus/src/server/zeus/phases/data.rs: how the head of the data chain advances, and what follows an
-- admission, with the part of the state in zeus/core.rs that it works on.
pub mod Waking
pub mod Heads
pub mod Frames
use leto_rs.Prelude.{
  ◌>>=◌, ℕ, zero, suc, ◌-◌, Bool, true, false, ◌&&◌, Option, none, some, List, [], ◌∷◌, ◌++◌,
  nat_eq, nat_beq, ltb, if◌then◌else◌, lookup, insert, length, wrapping_add,
}
use leto_rs.Zeus.Types.{DataBlock}
use leto_rs.Zeus.DataChain.{eleader}
use leto_rs.Zeus.Store.{Codec, insert_block, get}
use leto_rs.Leto.LeaderContext.{LeaderContext}
use leto_rs.Zeus.Committing.{ZeusState}

-- core.rs; the second one is `RleaderWaitingFresh`.
pub data DataTimerKind : Type 0 where
  timer_data_round_entry : DataTimerKind
  rleader_waits : DataTimerKind

-- `zeus` has the store and the links of the data chain; the head is the data chain's, and `num_nodes` the
-- settings'. `data_timer` is without its clock, and
-- `tx_consensus_to_batcher` has the leader and the round of what was sent, the last one last.
pub record DataState (Tx R : Type 0) : Type 0 where
  pub zeus : ZeusState Tx
  pub head_hash : ℕ
  pub head_height : ℕ
  pub my_id : ℕ
  pub num_nodes : ℕ
  pub sig_leader_context : LeaderContext R
  pub current_epoch : ℕ
  pub last_seen_data_block : DataBlock Tx
  pub latest_eleader_block : Option (DataBlock Tx)
  pub last_attested_data_height : ℕ
  pub eleader_proposed_height : ℕ
  pub data_timer : Option DataTimerKind
  pub rleader_waiting_fresh : Bool
  pub rleader_wakeup_pending : Bool
  pub tx_consensus_to_batcher : List (ℕ × ℕ)

abbrev pub height_of : {Tx : Type 0} → Option (DataBlock Tx) → ℕ
height_of none = 0
height_of (some b) = b.envelope.height

module _ {Tx R : Type 0} where
  -- The reset of the timer in `post_admit_side_effects`.
  unfoldable pub reset_timer : DataState Tx R → Option DataTimerKind → DataState Tx R
  reset_timer s none = s
  reset_timer s (some timer_data_round_entry) = record s { data_timer = none }
  reset_timer s (some rleader_waits) = s

  -- `is_eleader`
  unfoldable pub is_eleader : DataState Tx R → Bool
  unfolding eleader
  is_eleader s = nat_beq (eleader s.current_epoch s.num_nodes) s.my_id

  -- A server that is the eleader and has nothing in flight starts the batcher.
  unfoldable pub recover_window : DataState Tx R → DataState Tx R
  unfolding is_eleader
  recover_window s =
      if is_eleader s && nat_beq (s.eleader_proposed_height - s.head_height) 0
      then record s {
        tx_consensus_to_batcher =
            s.tx_consensus_to_batcher
            ++ (eleader s.current_epoch s.num_nodes, wrapping_add s.eleader_proposed_height 1) ∷ [];
      }
      else s

  unfoldable pub disarm_waiting : DataState Tx R → Option DataTimerKind → DataState Tx R
  disarm_waiting s none = s
  disarm_waiting s (some timer_data_round_entry) = s
  disarm_waiting s (some rleader_waits) = record s { data_timer = none }

  -- A leader of the round that waits for a fresh block is to propose.
  unfoldable pub wake_rleader : DataState Tx R → ℕ → DataState Tx R
  unfolding disarm_waiting
  wake_rleader s admitted_height =
      if s.rleader_waiting_fresh
        && (nat_beq s.sig_leader_context.current_leader s.my_id
            && ltb s.last_attested_data_height admitted_height)
      then record (disarm_waiting s s.data_timer) {
        rleader_waiting_fresh = false;
        rleader_wakeup_pending = true;
      }
      else s

  -- `post_admit_side_effects`
  unfoldable pub post_admit_side_effects : DataState Tx R → ℕ → DataState Tx R
  unfolding reset_timer recover_window wake_rleader
  post_admit_side_effects s admitted_height =
      wake_rleader (recover_window (reset_timer s s.data_timer)) admitted_height

  -- The block becomes the head, and the last block seen, and the latest one where it is higher.
  unfoldable pub advance_to : DataState Tx R → ℕ → DataBlock Tx → DataState Tx R
  unfolding post_admit_side_effects
  advance_to s hash block =
      let height = block.envelope.height in
      post_admit_side_effects
        (record s {
          head_hash = hash;
          head_height = height;
          last_seen_data_block = block;
          latest_eleader_block =
              if ltb (height_of s.latest_eleader_block) height
              then some block
              else s.latest_eleader_block;
        })
        height

module _ {Tx : Type 0} (codec : Codec Tx) (read : ℕ → Option (DataBlock Tx)) where
  -- The child of the hash and its block; `none` is a break. `read` is what the disk holds.
  unfoldable pub next_block : ZeusState Tx → ℕ → Option (ℕ × DataBlock Tx)
  next_block zeus head_hash = do
    next_hash ← lookup head_hash zeus.child_of
    b ← get codec read zeus.data_block_db next_hash
    some (next_hash, b)

module _ {Tx R : Type 0} (codec : Codec Tx) (read : ℕ → Option (DataBlock Tx)) where
  -- `insert_and_advance`
  unfoldable pub insert_and_advance : DataState Tx R → DataBlock Tx → ℕ → ℕ → DataState Tx R
  unfolding advance_to
  insert_and_advance s block block_hash parent_hash =
      advance_to
        (record s {
          zeus = record s.zeus {
            data_block_db = insert_block codec s.zeus.data_block_db block;
            child_of = insert parent_hash block_hash s.zeus.child_of;
          };
        })
        block_hash block

  -- The loop of `advance_head_via_child_of`, on fuel; `none` is out of fuel.
  unfoldable pub advance_head : ℕ → DataState Tx R → Option (DataState Tx R)
  unfolding next_block advance_to
  advance_head zero s = none
  advance_head (suc fuel) s = elim (next_block codec read s.zeus s.head_hash) [
    | none ↦ some s
    | some (next_hash, b) ↦ advance_head fuel (advance_to s next_hash b)
  ]

  unfoldable pub advance_head_via_child_of : DataState Tx R → Option (DataState Tx R)
  unfolding advance_head
  advance_head_via_child_of s = advance_head (suc (length s.zeus.child_of)) s
