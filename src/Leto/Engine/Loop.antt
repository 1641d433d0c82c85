-- ===== src/Leto/Engine/Loop.antt =====
-- consensus/src/server/leto/core.rs: the loop of the server, one branch of its `select!` a step.
use leto_rs.Prelude.{
  ℕ, true, ◌&&◌, Option, List, [], ◌∷◌, nat_eq, nat_beq, if◌then◌else◌, Map, length, set_remove,
}
use mathlib.Core.Option
use leto_rs.Prelude.Results.{Handled, ok, failed, panicked, out_of_fuel, ◌>>=◌, or_panic, logged}
use leto_rs.Types.{Element, ProtocolMsg, propose, blame, blame_qc}
use leto_rs.Leto.RoundContext.{RoundContext, sync, is_ready, poll_next}
use leto_rs.Leto.LeaderContext
use leto_rs.Leto.LeaderContext.{LeaderContext}
use leto_rs.Leto.ChainState
use leto_rs.Leto.ChainState.{ChainState, Database, write_batch_ref, write_element, genesis_setup}
use leto_rs.Leto.RoundContext
use leto_rs.Leto.Synchronizer.{Synchronizer, sync_msg, to_outer}
use leto_rs.Leto.Engine.{Platform, Server, leader, current_round}
use leto_rs.Leto.Engine.Blaming.{on_round_timeout, handle_blame, on_blame_qc}
use leto_rs.Leto.Engine.Proposing.{handle_proposal, handle_new_batch}

-- The branches of `select!`, without the exit. `deliver` is the task of the synchronizer's helper,
-- which writes an element and sends its proposal on.
pub data Event (Tx : Type 0) : Type 0 where
  batch_hash : ℕ → Event Tx
  synchronizer_msg : Event Tx
  round_synchronized_msg : Event Tx
  timer_tick : Event Tx
  loopback_msg : Event Tx
  raw_net_msg : ProtocolMsg Tx → Event Tx
  deliver : Element Tx → ℕ → Event Tx

module _ {Tx H T R S PublicKey : Type 0} (platform : Platform Tx H T R S PublicKey) where
  open platform use {base, choice}

  unfoldable pub handle_msg :
      Server platform → ProtocolMsg Tx → Handled (Server platform) (Server platform)
  handle_msg s (propose proposal auth batch sender) = handle_proposal platform s proposal auth batch
  handle_msg s (blame round auth) = handle_blame platform s round auth
  handle_msg s (blame_qc round qc) = on_blame_qc platform s round qc
  handle_msg s _ = panicked

  -- `round_context.sync`
  unfoldable pub round_sync :
      Server platform → ProtocolMsg Tx → Handled (Server platform) (Server platform)
  round_sync s msg = do c ← or_panic (sync msg s.round_context); ok (record s { round_context = c })

  -- The first message of a channel; nothing happens where there is none.
  unfoldable pub take_outer :
      Server platform → List (ProtocolMsg Tx) → Handled (Server platform) (Server platform)
  unfolding round_sync
  take_outer s [] = ok s
  take_outer s (msg ∷ msgs) =
      round_sync (record s { synchronizer = record s.synchronizer { outer = msgs } }) msg

  unfoldable pub take_loopback :
      Server platform → List (ProtocolMsg Tx) → Handled (Server platform) (Server platform)
  unfolding round_sync
  take_loopback s [] = ok s
  take_loopback s (msg ∷ msgs) = round_sync (record s { tx_msg_loopback = msgs }) msg

  unfoldable pub next_ready : Server platform → Handled (Server platform) (Server platform)
  unfolding handle_msg
  next_ready s = do
    (msg, c) ← or_panic (poll_next s.round_context)
    handle_msg (record s { round_context = c }) msg

  -- `synchronizer.sync_msg`, which works on the same storage.
  unfoldable pub restored :
      Server platform
      → Handled (S × Synchronizer Tx) (S × Synchronizer Tx)
      → Handled (Server platform) (Server platform)
  restored s (ok (db, synchronizer)) =
      ok (record s { chain_state = record s.chain_state { db = db }; synchronizer = synchronizer })
  restored s (failed (db, synchronizer)) =
      failed
        (record s { chain_state = record s.chain_state { db = db }; synchronizer = synchronizer })
  restored s panicked = panicked
  restored s out_of_fuel = out_of_fuel

  unfoldable pub synchronize :
      Server platform → ProtocolMsg Tx → Handled (Server platform) (Server platform)
  unfolding restored
  synchronize s msg = restored s (sync_msg base (s.chain_state.db, s.synchronizer) msg)

  -- A proposal of the current round on the highest chain skips the synchronizer.
  unfoldable pub on_net_msg :
      Server platform → ProtocolMsg Tx → Handled (Server platform) (Server platform)
  unfolding round_sync synchronize
  on_net_msg s (propose proposal auth batch sender) =
      if nat_beq proposal.round (current_round s)
        && nat_beq proposal.block.prev_hash s.chain_state.highest_chain_hash
      then round_sync (record s { chain_state = write_batch_ref base s.chain_state batch })
          (propose proposal auth batch sender)
      else synchronize s (propose proposal auth batch sender)
  on_net_msg s msg = synchronize s msg

  -- One turn of the loop. A branch whose guard is false is not taken; errors are logged.
  unfoldable pub step : Server platform → Event Tx → Handled (Server platform) (Server platform)
  unfolding take_outer take_loopback next_ready on_net_msg
  step s (batch_hash hash) =
      if nat_beq (leader s) s.my_id then logged (handle_new_batch platform s hash) else ok s
  step s synchronizer_msg = logged (take_outer s s.synchronizer.outer)
  step s round_synchronized_msg = if is_ready s.round_context then logged (next_ready s) else ok s
  step s timer_tick =
      if s.round_timer.timer_enabled then logged (on_round_timeout platform s) else ok s
  step s loopback_msg = logged (take_loopback s s.tx_msg_loopback)
  step s (raw_net_msg msg) = logged (on_net_msg s msg)
  step s (deliver element sender) = ok (record s {
    chain_state = write_element base s.chain_state element;
    synchronizer =
        to_outer s.synchronizer (propose element.proposal element.auth element.batch sender);
  })

  unfoldable pub run :
      Server platform → List (Event Tx) → Handled (Server platform) (Server platform)
  unfolding step
  run s [] = ok s
  run s (e ∷ es) = do t ← step s e; run t es

module _ {Tx H T R S PublicKey : Type 0} (platform : Platform Tx H T R S PublicKey) where
  -- The server with its leaders; `timer` and `store` are the libraries' own.
  unfoldable pub started :
      ℕ → Map ℕ PublicKey → List ℕ → ℕ → ℕ → T → S → LeaderContext R → Server platform
  unfolding genesis_setup ChainState.new RoundContext.new
  started my_id crypto_system all_ids num_faults empty_hash timer store leader_context = record {
    my_id = my_id;
    crypto_system = crypto_system;
    num_nodes = length all_ids;
    num_faults = num_faults;
    broadcast_peers = set_remove my_id all_ids;
    consensus_net = [];
    tx_consensus_to_batcher = [];
    tx_msg_loopback = [];
    commit_ctx = [];
    synchronizer = record { inner_channel = []; outer = []; tx_helper = [] };
    round_context = RoundContext.new (length all_ids);
    leader_context = leader_context;
    chain_state = genesis_setup platform.base (ChainState.new platform.base empty_hash store);
    round_timer = record { timer = platform.reset timer; timer_enabled = true };
  }

  -- `Leto::spawn` and the start of `run`, with the settings of the committee.
  unfoldable pub spawn : ℕ → Map ℕ PublicKey → List ℕ → ℕ → ℕ → R → T → S → Option (Server platform)
  unfolding started
  spawn my_id crypto_system all_ids num_faults empty_hash seed timer store =
      Option.map (started my_id crypto_system all_ids num_faults empty_hash timer store)
        (LeaderContext.new platform.choice seed all_ids num_faults)
