-- ===== src/Zeus/Engine/Loop.antt =====
-- consensus/src/server/zeus/core.rs: the loop of the server, a branch of `select!` a step.
use leto_rs.Prelude.{max, ℕ, none, some, List, [], ◌∷◌, nat_eq, if◌then◌else◌}
use leto_rs.Prelude.Results.{Handled, ok, out_of_fuel, ◌>>=◌, logged}
use leto_rs.Zeus.Messages.{
  ZeusMsg, sig_propose, sig_blame, sig_blame_qc, data_propose, data_request, data_response,
  eleader_blame, eleader_change_qc,
}
use leto_rs.Zeus.Rounds.{enqueue, pop_msg}
use leto_rs.Zeus.Committing.{ZeusCommittedAttestation, on_committed_attestation}
use leto_rs.Zeus.Admitting.{is_eleader}
use leto_rs.Zeus.Engine.{Platform, Server, codec}
use leto_rs.Zeus.Engine.Signing.{
  handle_sig_proposal, handle_sig_blame, on_sig_blame_qc, on_round_timeout,
}
use leto_rs.Zeus.Engine.Changing.{on_eleader_blame, on_eleader_change_qc, on_data_timer_expired}
use leto_rs.Zeus.Engine.Blocks.{
  on_eleader_propose, on_data_propose, on_data_request, on_data_response,
}

-- What a turn of the loop waits for: a batch of the batcher, a message of the current round, the
-- timer of the round, the loopback, a message of the network, an attestation of the commit task, and
-- the data timer. The last one is none of the server's: the committer raises `emitted_high`, which
-- it shares with the store, between two turns.
pub data Event (Tx : Type 0) : Type 0 where
  batch : List Tx → Event Tx
  ordered : Event Tx
  tick : Event Tx
  loopback : Event Tx
  net_msg : ZeusMsg Tx → Event Tx
  committed : ZeusCommittedAttestation → Event Tx
  data_timer : Event Tx
  emission : ℕ → Event Tx

module _ {Tx H T R S PublicKey : Type 0} (platform : Platform Tx H T R S PublicKey) where
  unfoldable pub queue :
      Server platform → ZeusMsg Tx → ℕ → Handled (Server platform) (Server platform)
  unfolding enqueue
  queue s msg round = ok (record s { round_state = enqueue s.round_state msg round })

  unfoldable pub dispatch :
      Server platform → ZeusMsg Tx → Handled (Server platform) (Server platform)
  unfolding queue
  dispatch s (data_propose block sender) = on_data_propose platform s block sender
  dispatch s (data_request target_hash source) = on_data_request platform s target_hash source
  dispatch s (data_response block) = on_data_response platform s block
  dispatch s (eleader_blame b) = on_eleader_blame platform s b
  dispatch s (eleader_change_qc qc) = on_eleader_change_qc platform s qc
  dispatch s (sig_propose proposal auth attestation sender) =
      queue s (sig_propose proposal auth attestation sender) proposal.round
  dispatch s (sig_blame round auth) = queue s (sig_blame round auth) round
  dispatch s (sig_blame_qc round qc) = queue s (sig_blame_qc round qc) round
  dispatch s _ = ok s

  unfoldable pub handle_sig_ordered :
      Server platform → ZeusMsg Tx → Handled (Server platform) (Server platform)
  handle_sig_ordered s (sig_propose proposal auth attestation sender) =
      handle_sig_proposal platform s proposal auth attestation sender
  handle_sig_ordered s (sig_blame round auth) = handle_sig_blame platform s round auth
  handle_sig_ordered s (sig_blame_qc round qc) = on_sig_blame_qc platform s round qc
  handle_sig_ordered s _ = ok s

  unfoldable pub take_ordered : Server platform → Handled (Server platform) (Server platform)
  unfolding handle_sig_ordered pop_msg
  take_ordered s = elim (pop_msg s.round_state) [
    | none ↦ ok s
    | some (msg, round_state) ↦
        logged (handle_sig_ordered (record s { round_state = round_state }) msg)
  ]

  unfoldable pub take_loopback : Server platform → Handled (Server platform) (Server platform)
  unfolding dispatch
  take_loopback s = elim s.tx_msg_loopback [
    | [] ↦ ok s
    | msg ∷ msgs ↦ logged (dispatch (record s { tx_msg_loopback = msgs }) msg)
  ]

  unfoldable pub on_committed :
      Server platform → ZeusCommittedAttestation → Handled (Server platform) (Server platform)
  on_committed s c = elim (on_committed_attestation (codec platform) s.data_plane.zeus c) [
    | none ↦ out_of_fuel
    | some zeus ↦ ok (record s { data_plane = record s.data_plane { zeus = zeus } })
  ]

  -- A turn of the loop of `run`, with the guard of its branch.
  unfoldable pub step : Server platform → Event Tx → Handled (Server platform) (Server platform)
  unfolding take_ordered take_loopback on_committed
  step s (batch payload) =
      if is_eleader s.data_plane then logged (on_eleader_propose platform s payload) else ok s
  step s ordered = take_ordered s
  step s tick = if s.round_timer.timer_enabled then logged (on_round_timeout platform s) else ok s
  step s loopback = take_loopback s
  step s (net_msg msg) = logged (dispatch s msg)
  step s (committed c) = on_committed s c
  step s (emission height) = ok (record s {
    data_plane = record s.data_plane {
      zeus = record s.data_plane.zeus {
        data_block_db = record s.data_plane.zeus.data_block_db {
          emitted_high = max s.data_plane.zeus.data_block_db.emitted_high height;
        };
      };
    };
  })
  step s data_timer = logged (on_data_timer_expired platform s)

  unfoldable pub run :
      Server platform → List (Event Tx) → Handled (Server platform) (Server platform)
  unfolding step
  run s [] = ok s
  run s (e ∷ es) = do t ← step s e; run t es
