-- ===== src/Lib.antt =====
-- Verification of leto-rs, a leader-based consensus library in Rust (protocols Leto, Zeus, Hera).
--
-- The program: clients send transactions to servers. A server's batcher keeps them in a pool
-- (`Txpool`) and seals batches when this server leads; the consensus engine of a protocol tells the
-- batcher of new rounds, of proposals, of commits and of chain switches. Engines keep a round
-- context (which message belongs to which round), a leader context (who leads), and chains of
-- elements or data blocks linked by hashes.
--
-- Which file models what (paths from the repository's root):
--   Txpool*            consensus/src/server/tx_pool.rs, types/tx.rs: `Txpool`, one function for each
--                      method; Lifecycle* is the per-transaction state machine of its comment.
--   Batcher*           consensus/src/server/rr_batcher.rs: `RRBatcher`, one event a step of `run`.
--   Types*             consensus/src/types: signatures, certificates, proposals, messages of Leto.
--   Leto.RoundContext* consensus/src/server/leto/round_context.rs: `RoundContext`, whose messages for
--                      each round `pending` reads as one list.
--   Leto.LeaderContext* consensus/src/server/leto/leader_context.rs: `LeaderContext`.
--   ChainDb*           consensus/src/server/chain_db.rs: `ChainDB` over the storage library.
--   Leto.ChainState*   consensus/src/server/leto/chain_state: `ChainState`.
--   Leto.Synchronizer* consensus/src/server/leto/synchronizer/core.rs: `Synchronizer`, whose channels
--                      are lists.
--   Leto.Engine        consensus/src/server/leto/core.rs: the state of `Leto`, what it sends, and how
--                      a round ends (relay.rs, the end of round_context.rs).
--   Leto.Engine.Blaming*, Proposing*  phases/blame.rs and phases/proposal.rs, a function a handler.
--   Leto.Engine.Loop   `spawn`, and `step` for one branch of `select!` in `run`.
--   Leto.Engine.Invariant*  what holds of the server between two turns.
--   Zeus.Types         consensus/src/types/zeus.rs: data blocks, attestations, blames.
--   Zeus.DataChain*    consensus/src/server/zeus/chain_state/data_chain.rs: its functions by their
--                      names; `walk_down` is the loop of `conflicts_data_prefix`.
--   Zeus.Store*        consensus/src/server/zeus/chain_state/db.rs: `DataBlockDB`; `evict` is the loop
--                      of `cache_put`, along the queue.
--   Zeus.Attestations* consensus/src/server/zeus/phases/attestation.rs: `make_attestation` and
--                      `attestation_valid`, over the fields of `Zeus` that they use.
--   Zeus.Committing*   consensus/src/server/zeus/phases/commit.rs: `on_committed_attestation`, whose
--                      loop is `walk`, and `spawn_committer`; an `Event` is what moves their state.
--                      What a read of the disk comes to is an `Awaited`, a wait for ever included, and
--                      how the task of the committer stands a `TaskEnd`.
--   Zeus.Admitting*    consensus/src/server/zeus/phases/data.rs: `insert_and_advance` and
--                      `advance_head_via_child_of`; `advance_to` is what both do to the head.
--   Zeus.Messages      consensus/src/types/zeus_msg.rs: `ZeusMsg`.
--   Zeus.Rounds*       consensus/src/server/zeus/core.rs: `ZeusRoundState`, read as a list of pending
--                      messages for each round.
--   Zeus.Engine        consensus/src/server/zeus/core.rs: the state of `Zeus` and what it sends.
--   Zeus.Engine.Signing*, Changing*, Admission*, Blocks*  phases/sig.rs, phases/blame.rs with the end of
--                      core.rs, the admissions of phases/data.rs, and its handlers; a function a
--                      handler, and helpers for the parts of long ones.
--   Zeus.Engine.Start, Loop  `spawn`, and `step` for one branch of `select!` in `run`.
--   Zeus.Engine.Invariant*  what holds of the server between two turns.
--   Hera.MultiDataChain* consensus/src/server/hera/chain_state/multi_data_chain.rs:
--                      `MultiAuthorDataChainState`, with `admit_typed`; `extend` and `bridge_over` are
--                      its first two cases, `advance_head` and `drain` the two loops.
--   Tests*             the theorems at concrete inputs, and runs.
--
-- Fuel. The walk down the parents in `conflicts_data_prefix` has the number of stored blocks and one
-- more, and meets each block once, since hashes do not form a cycle.
-- `advance_head` has the number of `child_of` entries and one more, and follows each entry once, since
-- hashes do not form a cycle; `drain` has the number of parked lists and one more, and takes one each
-- time; `collect_down` of `walk_range` has the number of stored blocks and one more, and meets each
-- block once.
-- `walk` of the commit and `advance_head` of Zeus have the number of `child_of` entries and one more, for
-- the same reason.
-- The loop of Zeus that admits parked blocks, `drain`, has the number of parked blocks and one more;
-- what it admits at the head is taken out of them, and an admission parks one block at most.
-- The check of a proposal's certificates has `num_faults + 3`, and gives up behind `num_faults + 1`
-- certificates; a result of its own says that fuel was used up, and it does not occur.
--
-- Conventions. A method that mutates `self` returns the new state. `Id`, `Round`, nonces and
-- hashes are native numbers; `usize` counters wrap at 2^64 as they do in a release build. A hash
-- map is an association list and a hash set a list, whose order stands for an iteration order; the
-- theorems hold for every order. `none` in the result of an operation is a panic, where the code
-- unwraps. Loops recur on the list that they walk.
--
-- Not modelled: network, storage and task plumbing (tokio, RocksDB, the reliable sender), logging,
-- configuration, benchmarks and scripts; cryptography and hashing are parameters. Timers are
-- parameters with their `reset`; their ticks are events. The tasks that commit along the signature
-- chains of Leto and Zeus keep their queues in a library's linked map; their results are events. The
-- engine of Hera, whose chain state is modelled, the helper of Leto's synchronizer and the client are
-- left out. Errors of the disk and of serialization, and closed channels, do not occur in the
-- engines; the committer of Zeus has reads that fail or wait, and an application that may be gone.
mod Prelude
pub mod Batcher
pub mod ChainDb
pub mod Hera
pub mod Leto
pub mod Txpool
pub mod Types
pub mod Zeus
mod Tests
