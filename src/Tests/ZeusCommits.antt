-- ===== src/Tests/ZeusCommits.antt =====
-- consensus/src/server/zeus: a block that the server admits and commits.
use leto_rs.Prelude.{
  ℕ, ◌≡◌, refl, List, [], ◌∷◌, nat_eq, lookup, insert, set_contains, set_insert, set_remove,
  wrapping_add,
}
use leto_rs.Prelude.Results.{ok, failed, panicked, out_of_fuel}
use leto_rs.Leto.RoundContext.{push}
use leto_rs.Zeus.Messages.{data_propose}
use leto_rs.Zeus.DataChain.{eleader, epoch_gate_valid, conflicts_data_prefix}
use leto_rs.Zeus.Engine.{Server, codec, broadcast, send_all, arm_data_timer, set_data_timer}
use leto_rs.Zeus.Engine.Start.{begin, started, initial_data, initial_chain}
use leto_rs.Zeus.Engine.Loop
use leto_rs.Zeus.Engine.Loop.{Event, net_msg, run, step, dispatch}
use leto_rs.Zeus.Engine.Admission.{admit_data_block}
use leto_rs.Zeus.Admitting.{insert_and_advance}
use leto_rs.Zeus.Store.{get, contains, insert_block}
use leto_rs.Zeus.Engine.Blocks.{is_acceptable, on_data_propose}
use leto_rs.Tests.ZeusServer.{toy, keys, leaders, calm}
use leto_rs.Tests.ZeusBlocks.{block}
use leto_rs.Types.Quorum.{IsDistinct}
use leto_rs.Zeus.Committing.{on_committed_attestation}
use leto_rs.Zeus.Committing.Chain.{IsChain, log_of}
use leto_rs.Zeus.Engine.Invariant.Commits.{server_commits}
use leto_rs.Tests.Leaders.{ids}
use leto_rs.Tests.ZeusServer.{ranked}

-- The block of epoch 1 comes in and is committed.
abbrev commit_events : List (Event ℕ)
commit_events =
    net_msg (data_propose (block 1 1 1) 1)
    ∷ Loop.committed (record {
      sig_round = 1;
      attestation = record {
        envelope = record {
          epoch_s = 1;
          round_s = 1;
          data_block_hash = 112;
          data_block_height = 1;
          data_block_epoch = 1;
          parent_hash_s = 0;
        };
        sig_s = record { raw = []; signer = 0 };
      };
    })
    ∷ []

abbrev one_committed : Server toy
one_committed = elim (run toy (begin toy calm) commit_events) [
  | ok t ↦ t
  | failed t ↦ t
  | panicked ↦ calm
  | out_of_fuel ↦ calm
]

one_committed_lem :
    (run toy (begin toy calm) commit_events ≡ ok one_committed)
    × (one_committed.data_plane.zeus.last_committed_hash ≡ 112)
unfolding is_acceptable lookup get run step begin started dispatch on_data_propose epoch_gate_valid
    contains conflicts_data_prefix admit_data_block insert_and_advance insert_block push insert
    set_insert set_contains eleader broadcast send_all arm_data_timer set_data_timer wrapping_add
    set_remove initial_data initial_chain on_committed_attestation
one_committed_lem = (refl, refl)

server_commits_example :
    let genesis = (initial_chain toy).last_committed_hash in
    let log = log_of (codec toy) one_committed.data_plane.zeus.commit_tx in
    IsChain toy.hash_envelope genesis log one_committed.data_plane.zeus.last_committed_hash
    × IsDistinct (genesis ∷ log)
server_commits_example =
    server_commits toy (λ h. h) ranked 1 keys ids 1 ids 0 0 [] commit_events leaders one_committed
      one_committed_lem.0
