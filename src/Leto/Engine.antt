-- ===== src/Leto/Engine.antt =====
-- consensus/src/server/leto/core.rs, phases/relay.rs and the end of round_context.rs: the server of
-- the protocol Leto, and what it does when a round ends.
pub mod Blaming
pub mod Proposing
pub mod Loop
pub mod Invariant
use leto_rs.Prelude.{
  ℕ, Bool, Option, none, some, List, [], ◌∷◌, ◌++◌, nat_eq, nat_beq, if◌then◌else◌, Map,
}
use leto_rs.Prelude.Results.{Handled, ok, failed, panicked, out_of_fuel, ◌>>=◌, or_panic}
use leto_rs.Types.{Signature, Certificate, Proposal, Element, ProtocolMsg, relay}
use leto_rs.Batcher.{BatcherConsensusMsg, new_round}
use leto_rs.Leto.RoundContext
use leto_rs.Leto.RoundContext.{RoundContext, RoundTimer, add_handler, add_handlers}
use leto_rs.Leto.LeaderContext
use leto_rs.Leto.LeaderContext.{LeaderContext, Choice}
use leto_rs.Leto.ChainState.{ChainState, Database}
use leto_rs.Leto.Synchronizer
use leto_rs.Leto.Synchronizer.{Synchronizer}

-- The state of `Leto`. A channel that the server sends on is the list of what was sent, the last
-- message last; `consensus_net` is the list of what was sent to which peer.
pub record Leto (Tx H T R S PublicKey : Type 0) : Type 0 where
  pub my_id : ℕ
  pub crypto_system : Map ℕ PublicKey
  pub num_nodes : ℕ
  pub num_faults : ℕ
  pub broadcast_peers : List ℕ
  pub consensus_net : List (ℕ × ProtocolMsg Tx)
  pub tx_consensus_to_batcher : List (BatcherConsensusMsg Tx)
  pub tx_msg_loopback : List (ProtocolMsg Tx)
  pub commit_ctx : List (ℕ × Element Tx)
  pub synchronizer : Synchronizer Tx
  pub round_context : RoundContext Tx H
  pub leader_context : LeaderContext R
  pub chain_state : ChainState Tx S
  pub round_timer : RoundTimer T

-- The libraries: storage and serialization, `Hash::ser_and_hash` of a round and of a proposal,
-- signatures under the server's own secret, their verification, the leaders' generator, the timer's
-- `reset`, `gc_depth_rounds()`, and the handler that the network returns for a message to a peer
-- after what was sent before, if it returns one.
pub record Platform (Tx H T R S PublicKey : Type 0) : Type 0 where
  pub base : Database Tx S
  pub hash_round : ℕ → ℕ
  pub hash_proposal : Proposal → ℕ
  pub sign : ℕ → Option (List ℕ)
  pub pk_verify : PublicKey → ℕ → List ℕ → Bool
  pub choice : Choice R
  pub reset : T → T
  pub gc_depth : ℕ
  pub handler : List (ℕ × ProtocolMsg Tx) → ℕ → ProtocolMsg Tx → Option H

module _ {Tx H T R S PublicKey : Type 0} where
  -- `highest_chain().proposal.round()`
  abbrev pub highest_round : Leto Tx H T R S PublicKey → ℕ
  highest_round s = s.chain_state.highest_chain_element.proposal.round

  abbrev pub leader : Leto Tx H T R S PublicKey → ℕ
  leader s = s.leader_context.current_leader

  abbrev pub current_round : Leto Tx H T R S PublicKey → ℕ
  current_round s = s.round_context.current_round

  -- `(num_nodes + num_faults + 1) / 2`
  abbrev pub qc_len : Leto Tx H T R S PublicKey → ℕ
  qc_len s = LeaderContext.replacement_limit s.num_nodes s.num_faults

  -- `try_commit`
  unfoldable pub try_commit : Leto Tx H T R S PublicKey → Leto Tx H T R S PublicKey
  try_commit s = record s {
    commit_ctx =
        s.commit_ctx
        ++ (s.chain_state.highest_chain_hash, s.chain_state.highest_chain_element) ∷ [];
  }

module _ {Tx H T R S PublicKey : Type 0} (platform : Platform Tx H T R S PublicKey) where
  open platform use {choice, reset, gc_depth, handler}

  abbrev pub Server : Type 0
  Server = Leto Tx H T R S PublicKey

  -- The handlers of the sends that succeed, with what was sent then.
  unfoldable pub send_all :
      List (ℕ × ProtocolMsg Tx) → List ℕ → ProtocolMsg Tx → List H × List (ℕ × ProtocolMsg Tx)
  send_all net [] msg = ([], net)
  send_all net (peer ∷ peers) msg =
      let (handlers, net') = send_all (net ++ (peer, msg) ∷ []) peers msg in
      (elim (handler net peer msg) [ none ↦ handlers | some h ↦ h ∷ handlers ], net')

  -- `consensus_net.broadcast` and `add_handlers` of its results.
  unfoldable pub broadcast : Server → ProtocolMsg Tx → Server
  unfolding send_all add_handlers
  broadcast s msg =
      let (handlers, net) = send_all s.consensus_net s.broadcast_peers msg in
      record s { consensus_net = net; round_context = add_handlers s.round_context handlers }

  -- The handler of a send that succeeds is kept.
  unfoldable pub keep_handler : RoundContext Tx H → Option H → RoundContext Tx H
  unfolding add_handler
  keep_handler c none = c
  keep_handler c (some h) = add_handler c h

  -- `relay_proposal`
  unfoldable pub relay_proposal : Server → Proposal → Signature → ℕ → Server
  unfolding keep_handler
  relay_proposal s proposal auth batch_hash =
      let next_leader = s.leader_context.next_leader in
      let msg = relay proposal auth batch_hash s.my_id in
      if nat_beq next_leader s.my_id then s else record s {
        consensus_net = s.consensus_net ++ (next_leader, msg) ∷ [];
        round_context = keep_handler s.round_context (handler s.consensus_net next_leader msg);
      }

  -- `Leto::advance_round` with the new leaders.
  unfoldable pub end_round : Server → LeaderContext R → Server
  unfolding try_commit
  end_round s leader_context =
      let (round_context, round_timer) =
        RoundContext.advance_round reset gc_depth (s.round_context, s.round_timer) in
      let t = try_commit (record s {
        leader_context = leader_context;
        round_context = round_context;
        round_timer = round_timer;
        synchronizer = Synchronizer.advance_round s.synchronizer round_context.current_round;
      }) in
      record t {
        tx_consensus_to_batcher =
            t.tx_consensus_to_batcher
            ++ new_round leader_context.current_leader round_context.current_round ∷ [];
      }

  -- `Leto::advance_round`; a panic of the leader context is one.
  unfoldable pub advance_round : Server → Handled Server Server
  unfolding end_round
  advance_round s = do
    leader_context ← or_panic (LeaderContext.advance_round choice s.leader_context)
    ok (end_round s leader_context)
