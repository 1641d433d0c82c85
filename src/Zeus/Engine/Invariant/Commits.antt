-- ===== src/Zeus/Engine/Invariant/Commits.antt =====
-- consensus/src/server/zeus: what the server hands to its committer.
use leto_rs.Prelude.{ℕ, ◌<◌, ◌≡◌, sym, ◌∙◌, List, ◌∷◌, nat_eq, Map, eq_of_some}
use mathlib.Core.Path.{subst}
use leto_rs.Prelude.Results.{ok}
use leto_rs.Types.Quorum.{IsDistinct}
use leto_rs.Leto.LeaderContext.{LeaderContext}
use leto_rs.Zeus.Types.{DataBlockEnvelope}
use leto_rs.Zeus.Committing.Chain.{IsChain, log_of}
use leto_rs.Zeus.Committing.Histories.{run_commits}
use leto_rs.Zeus.Engine.{Platform, Server, codec}
use leto_rs.Zeus.Engine.Start.{cache_bytes, initial_chain, begin, started}
use leto_rs.Zeus.Engine.Loop.{Event, run}
use leto_rs.Zeus.Engine.Invariant.Starting.{ends_sound}

-- Where blocks stand above their parents in a rank: whatever messages, batches, ticks and attestations
-- the server has taken from its start, the blocks that it has handed to its committer are one chain from
-- the genesis block, each the child of the one before and the last one the last committed block,
-- with no block twice, across all epochs and also where parked blocks are admitted late.
pub server_commits :
    {Tx H T R S PublicKey : Type 0} (platform : Platform Tx H T R S PublicKey) (rank : ℕ → ℕ)
    (rank_lem : (e : DataBlockEnvelope Tx) → rank e.parent_hash < rank (platform.hash_envelope e))
    (my_id : ℕ) (crypto_system : Map ℕ PublicKey) (all_ids : List ℕ) (num_faults : ℕ)
    (all_peers : List ℕ) (seed : R) (timer : T) (store : S) (es : List (Event Tx))
    (c : LeaderContext R) (t : Server platform)
    → run platform
        (begin platform
          (started platform my_id crypto_system all_ids num_faults all_peers timer store c))
        es
      ≡ ok t
    → let genesis = (initial_chain platform).last_committed_hash in
      let log = log_of (codec platform) t.data_plane.zeus.commit_tx in
      IsChain platform.hash_envelope genesis log t.data_plane.zeus.last_committed_hash
      × IsDistinct (genesis ∷ log)
unfolding initial_chain
server_commits platform rank rank_lem my_id crypto_system all_ids num_faults all_peers seed timer
      store es c t e =
    let v =
      ends_sound platform rank rank_lem my_id crypto_system all_ids num_faults all_peers seed timer
        store es c t e in
    let (events, p) = v.history in
    let (u, q, chain, distinct) = run_commits (codec platform) rank rank_lem cache_bytes events in
    let genesis = (initial_chain platform).last_committed_hash in
    subst
      (λ z.
        let log = log_of (codec platform) z.commit_tx in
        IsChain platform.hash_envelope genesis log z.last_committed_hash
        × IsDistinct (genesis ∷ log))
      (eq_of_some u t.data_plane.zeus (sym q ∙ p)) (chain, distinct)
