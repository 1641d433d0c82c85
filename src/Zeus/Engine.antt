-- ===== src/Zeus/Engine.antt =====
-- consensus/src/server/zeus/core.rs: the server of the protocol Zeus.
pub mod Signing
pub mod Changing
pub mod Admission
pub mod Blocks
pub mod Loop
pub mod Start
pub mod Invariant
use leto_rs.Prelude.{
  ℕ, Bool, true, false, Option, none, some, List, [], ◌∷◌, ◌++◌, nat_eq, nat_beq, if◌then◌else◌,
  Map,
}
use leto_rs.Types.{Signature, Certificate, Proposal, Element}
use leto_rs.Leto.RoundContext.{RoundTimer}
use leto_rs.Leto.LeaderContext
use leto_rs.Leto.LeaderContext.{Choice}
use leto_rs.Leto.ChainState.{ChainState, Database}
use leto_rs.Zeus.Types.{
  DataBlock, DataBlockEnvelope, Attestation, AttestationEnvelope, EleaderBlame, EleaderChangeQc,
}
use leto_rs.Zeus.Messages.{ZeusMsg, data_request}
use leto_rs.Zeus.Rounds
use leto_rs.Zeus.Rounds.{ZeusRoundState, add_handlers, add_handler}
use leto_rs.Zeus.DataChain.{Crypto, BlameSigned, eleader}
use leto_rs.Zeus.Attestations.{AttestationCrypto, ZeusView}
use leto_rs.Zeus.Store.{Codec}
use leto_rs.Zeus.Admitting.{DataState, DataTimerKind}

-- The state of `Zeus`; `data_plane` has the fields that the data chain works on. A channel that the server
-- sends on is the list of what was sent, the last message last; `consensus_net` and `data_net` are the
-- lists of what was sent to which peer, and `zeus_commit_ctx` of the heads of the signature chain that
-- the commit task got.
pub record Zeus (Tx H T R S PublicKey : Type 0) : Type 0 where
  pub data_plane : DataState Tx R
  pub crypto_system : Map ℕ PublicKey
  pub num_faults : ℕ
  pub broadcast_peers : List ℕ
  pub consensus_net : List (ℕ × ZeusMsg Tx)
  pub data_net : List (ℕ × ZeusMsg Tx)
  pub tx_msg_loopback : List (ZeusMsg Tx)
  pub zeus_commit_ctx : List (ℕ × Element Attestation)
  pub sig_chain_state : ChainState Attestation S
  pub round_state : ZeusRoundState (ZeusMsg Tx) H
  pub round_timer : RoundTimer T
  pub signature_epoch : ℕ
  pub pending_data_blocks : Map ℕ (List (DataBlock Tx))
  pub pending_attestations : Map ℕ (List (ZeusMsg Tx))
  pub admitted_change_qcs : Map ℕ (EleaderChangeQc Tx)
  pub eleader_blames : Map ℕ (List (EleaderBlame Tx))
  pub last_proposed_hash : Option ℕ

-- The libraries: hashes and their bytes, signatures under the server's own secret and their
-- verification, storage and serialization, what the disk holds of data blocks, the leaders' generator,
-- the timer's `reset`, `gc_depth_rounds()`, and the handler that the network returns for a message to a
-- peer after what was sent before, if it returns one.
pub record Platform (Tx H T R S PublicKey : Type 0) : Type 0 where
  pub hash_envelope : DataBlockEnvelope Tx → ℕ
  pub hash_attestation : AttestationEnvelope → ℕ
  pub hash_blame : BlameSigned → ℕ
  pub hash_round : ℕ → ℕ
  pub hash_proposal : Proposal → ℕ
  pub empty_hash : ℕ
  pub as_ref : ℕ → List ℕ
  pub sign : List ℕ → Option (List ℕ)
  pub verify : PublicKey → List ℕ → List ℕ → Bool
  pub serialize_block : DataBlock Tx → Option (List ℕ)
  pub base : Database Attestation S
  pub read_block : ℕ → Option (DataBlock Tx)
  pub choice : Choice R
  pub reset : T → T
  pub gc_depth : ℕ
  pub handler : List (ℕ × ZeusMsg Tx) → ℕ → ZeusMsg Tx → Option H

module _ {Tx H T R S PublicKey : Type 0} (platform : Platform Tx H T R S PublicKey) where
  open platform use {
    hash_envelope, hash_attestation, hash_blame, empty_hash, as_ref, sign, verify, serialize_block,
    handler,
  }

  abbrev pub Server : Type 0
  Server = Zeus Tx H T R S PublicKey

  abbrev pub codec : Codec Tx
  codec = record { hash = hash_envelope; empty_hash = empty_hash; serialize = serialize_block }

  abbrev pub crypto : Crypto Tx PublicKey
  crypto = record {
    hash = hash_envelope;
    hash_blame = hash_blame;
    as_ref = as_ref;
    verify = verify;
  }

  abbrev pub attestation_crypto : AttestationCrypto PublicKey
  attestation_crypto = record {
    hash = hash_attestation;
    as_ref = as_ref;
    sign = sign;
    verify = verify;
  }

  -- `pk.verify(msg_hash.as_ref(), &raw)`
  abbrev pub pk_verify : PublicKey → ℕ → List ℕ → Bool
  pk_verify pk msg_hash raw = verify pk (as_ref msg_hash) raw

  abbrev pub current_round : Server → ℕ
  current_round s = s.round_state.current_round

  abbrev pub leader : Server → ℕ
  leader s = s.data_plane.sig_leader_context.current_leader

  -- `highest_chain().proposal.round()`
  abbrev pub highest_round : Server → ℕ
  highest_round s = s.sig_chain_state.highest_chain_element.proposal.round

  -- `(num_nodes + num_faults + 1) / 2`
  abbrev pub qc_len : Server → ℕ
  qc_len s = LeaderContext.replacement_limit s.data_plane.num_nodes s.num_faults

  -- The handlers of the sends that succeed, with what was sent then.
  unfoldable pub send_all :
      List (ℕ × ZeusMsg Tx) → List ℕ → ZeusMsg Tx → List H × List (ℕ × ZeusMsg Tx)
  send_all net [] msg = ([], net)
  send_all net (peer ∷ peers) msg =
      let (handlers, net') = send_all (net ++ (peer, msg) ∷ []) peers msg in
      (elim (handler net peer msg) [ none ↦ handlers | some h ↦ h ∷ handlers ], net')

  -- `consensus_net.broadcast` and `add_handlers` of its results.
  unfoldable pub broadcast : Server → ZeusMsg Tx → Server
  unfolding send_all add_handlers
  broadcast s msg =
      let (handlers, net) = send_all s.consensus_net s.broadcast_peers msg in
      record s { consensus_net = net; round_state = add_handlers s.round_state handlers }

  unfoldable pub keep_handler :
      ZeusRoundState (ZeusMsg Tx) H → Option H → ZeusRoundState (ZeusMsg Tx) H
  unfolding add_handler
  keep_handler c none = c
  keep_handler c (some h) = add_handler c h

  -- `consensus_net.send` and `add_handler` of its result.
  unfoldable pub send : Server → ℕ → ZeusMsg Tx → Server
  unfolding keep_handler
  send s peer msg = record s {
    consensus_net = s.consensus_net ++ (peer, msg) ∷ [];
    round_state = keep_handler s.round_state (handler s.consensus_net peer msg);
  }

  -- `data_net.broadcast`, without handlers.
  unfoldable pub broadcast_data :
      List (ℕ × ZeusMsg Tx) → List ℕ → ZeusMsg Tx → List (ℕ × ZeusMsg Tx)
  broadcast_data net [] msg = net
  broadcast_data net (peer ∷ peers) msg = broadcast_data (net ++ (peer, msg) ∷ []) peers msg

  unfoldable pub loop_back : Server → ZeusMsg Tx → Server
  loop_back s msg = record s { tx_msg_loopback = s.tx_msg_loopback ++ msg ∷ [] }

  unfoldable pub broadcast_data_request : Server → ℕ → Server
  unfolding broadcast
  broadcast_data_request s target_hash = broadcast s (data_request target_hash s.data_plane.my_id)

  unfoldable pub set_data_timer : Server → Option DataTimerKind → Server
  set_data_timer s timer = record s { data_plane = record s.data_plane { data_timer = timer } }

  -- `arm_data_timer`, without the clock, and `disarm_data_timer`.
  unfoldable pub arm_data_timer : Server → DataTimerKind → Server
  unfolding set_data_timer
  arm_data_timer s kind = set_data_timer s (some kind)

  unfoldable pub disarm_data_timer : Server → Server
  unfolding set_data_timer
  disarm_data_timer s = set_data_timer s none

  -- The fields that attestations use.
  abbrev pub view : Server → ZeusView PublicKey (ZeusMsg Tx)
  view s = record {
    my_id = s.data_plane.my_id;
    signature_epoch = s.signature_epoch;
    head_hash = s.data_plane.head_hash;
    head_height = s.data_plane.head_height;
    highest_hash = s.sig_chain_state.highest_chain_hash;
    system = s.crypto_system;
    meta = s.data_plane.zeus.data_block_db.meta;
    commit_lock = s.data_plane.zeus.commit_lock;
    pending_attestations = s.pending_attestations;
  }
