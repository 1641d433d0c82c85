-- ===== src/Zeus/Engine/Start.antt =====
-- consensus/src/server/zeus/core.rs: the state that the server starts with.
use leto_rs.Prelude.{
  ℕ, ◌*◌, true, false, Option, none, List, [], ◌∷◌, ◌++◌, nat_eq, nat_beq, if◌then◌else◌, Map,
  set_remove, length, wrapping_add,
}
use mathlib.Core.Option
use leto_rs.Leto.ChainState
use leto_rs.Leto.ChainState.{ChainState, genesis_setup}
use leto_rs.Leto.LeaderContext
use leto_rs.Leto.LeaderContext.{LeaderContext}
use leto_rs.Zeus.Types.{EleaderChangeQc, genesis_block}
use leto_rs.Zeus.Rounds
use leto_rs.Zeus.DataChain.{eleader}
use leto_rs.Zeus.Committing
use leto_rs.Zeus.Committing.{ZeusState}
use leto_rs.Zeus.Admitting.{DataState, timer_data_round_entry}
use leto_rs.Zeus.Engine.{Platform, Server, codec, leader, arm_data_timer}
use leto_rs.Zeus.Engine.Admission.{genesis_hash}

-- `DEFAULT_DATA_BLOCK_CACHE_BYTES`
abbrev pub cache_bytes : ℕ
cache_bytes = 128 * 1024 * 1024

module _ {Tx H T R S PublicKey : Type 0} (platform : Platform Tx H T R S PublicKey) where
  open platform use {empty_hash, base, reset, choice}

  -- `DataChainState::genesis`, and the store and the commits at the start.
  unfoldable pub initial_chain : ZeusState Tx
  unfolding Committing.start
  initial_chain = Committing.start (codec platform) cache_bytes

  unfoldable pub initial_data : ℕ → ℕ → LeaderContext R → DataState Tx R
  unfolding initial_chain genesis_hash genesis_block
  initial_data my_id num_nodes sig_leader_context = record {
    zeus = initial_chain;
    head_hash = genesis_hash platform;
    head_height = 0;
    my_id = my_id;
    num_nodes = num_nodes;
    sig_leader_context = sig_leader_context;
    current_epoch = 1;
    last_seen_data_block = genesis_block empty_hash;
    latest_eleader_block = none;
    last_attested_data_height = 0;
    eleader_proposed_height = 0;
    data_timer = none;
    rleader_waiting_fresh = false;
    rleader_wakeup_pending = false;
    tx_consensus_to_batcher = [];
  }

  -- The server that `spawn` makes; epoch 0 is over.
  unfoldable pub started :
      ℕ → Map ℕ PublicKey → List ℕ → ℕ → List ℕ → T → S → LeaderContext R → Server platform
  unfolding initial_data ChainState.new Rounds.new
  started my_id crypto_system all_ids num_faults all_peers timer store sig_leader_context = record {
    data_plane = initial_data my_id (length all_ids) sig_leader_context;
    crypto_system = crypto_system;
    num_faults = num_faults;
    broadcast_peers = set_remove my_id all_peers;
    consensus_net = [];
    data_net = [];
    tx_msg_loopback = [];
    zeus_commit_ctx = [];
    sig_chain_state = ChainState.new base empty_hash store;
    round_state = Rounds.new (length all_ids);
    round_timer = record { timer = timer; timer_enabled = true };
    signature_epoch = 1;
    pending_data_blocks = [];
    pending_attestations = [];
    admitted_change_qcs =
        (let qc : EleaderChangeQc Tx = record { epoch = 0; blames = [] } in (0, qc) ∷ []);
    eleader_blames = [];
    last_proposed_hash = none;
  }

  -- What `run` does before the loop.
  unfoldable pub begin : Server platform → Server platform
  unfolding genesis_setup arm_data_timer
  begin s =
      let d = s.data_plane in
      let t =
        arm_data_timer platform
          (record s {
            sig_chain_state = genesis_setup base s.sig_chain_state;
            round_timer = record s.round_timer { timer = reset s.round_timer.timer };
            data_plane = record d {
              tx_consensus_to_batcher =
                  d.tx_consensus_to_batcher
                  ++ (eleader d.current_epoch d.num_nodes, wrapping_add d.eleader_proposed_height 1)
                    ∷ [];
            };
          })
          timer_data_round_entry in
      if nat_beq (leader platform t) t.data_plane.my_id
      then record t { data_plane = record t.data_plane { rleader_waiting_fresh = true } }
      else t

  -- `spawn`, with the settings of the committee; `none` is a panic of the leader context.
  unfoldable pub spawn :
      ℕ → Map ℕ PublicKey → List ℕ → ℕ → List ℕ → R → T → S → Option (Server platform)
  unfolding started
  spawn my_id crypto_system all_ids num_faults all_peers seed timer store =
      Option.map (started my_id crypto_system all_ids num_faults all_peers timer store)
        (LeaderContext.new choice seed all_ids num_faults)
