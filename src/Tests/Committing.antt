-- ===== src/Tests/Committing.antt =====
-- consensus/src/server/zeus/phases/commit.rs: two blocks on the genesis block, the second one on the
-- first one.
use leto_rs.Prelude.{
  ◌>>=◌, ℕ, ◌+◌, ◌≤◌, ◌<◌, ◌≡◌, refl, ◌⊎◌, true, if◌then◌else◌, nat_beq, some, List, [], ◌∷◌,
  nat_eq, lookup, arith,
}
use leto_rs.Types.Quorum.{IsDistinct}
use leto_rs.Zeus.Types.{DataBlock}
use leto_rs.Zeus.Store.{Codec, cache_get}
use leto_rs.Zeus.Committing.{
  resident, spilled, ZeusCommittedAttestation, ZeusState, Event, committed, admitted, emitted,
  CommitItem, Committer, Awaited, arrived, read_failed, never_written, waiting,
  on_committed_attestation, run, start, block_of, confirm, advance_emitted, emit, emit_items,
  spawn_committer,
}
use leto_rs.Zeus.Committing.Walks.{
  IsWalk, IsClimbing, locked, committed_to, on_committed_attestation_lem,
}
use leto_rs.Zeus.Committing.Chain.{IsChain, log_of}
use leto_rs.Zeus.Committing.Histories.{run_commits}
use leto_rs.Zeus.Committing.Emission.{HasEmitted, reached, end_of, all_items, spawn_committer_lem}

-- The genesis block has hash 1.
abbrev pub codec : Codec ℕ
codec = record {
  hash = λ e. e.parent_hash + e.height + 1;
  empty_hash = 0;
  serialize = λ b. some (b.envelope.height ∷ []);
}

abbrev pub block : ℕ → ℕ → DataBlock ℕ
block height parent = record {
  envelope = record { epoch = 1; height = height; payload = height ∷ []; parent_hash = parent };
  sig = record { raw = []; signer = 0 };
}

abbrev attested : ℕ → ℕ → ZeusCommittedAttestation
attested hash height = record {
  sig_round = 4;
  attestation = record {
    envelope = record {
      epoch_s = 1;
      round_s = 4;
      data_block_hash = hash;
      data_block_height = height;
      data_block_epoch = 1;
      parent_hash_s = 0;
    };
    sig_s = record { raw = []; signer = 0 };
  };
}

-- Two blocks, and later another one on the parent of the second one.
abbrev events : List (Event ℕ)
events =
    admitted (block 1 1)
    ∷ admitted (block 2 3)
    ∷ committed (attested 6 2)
    ∷ emitted 1
    ∷ admitted (block 7 3)
    ∷ committed (attested 3 1)
    ∷ []

abbrev idle : Committer ℕ
idle = record {
  tx_consensus_to_batcher = [];
  tx_data_commit = [];
  committed_tx_count = 0;
  emitted_high = 0;
  is_open = true;
}

-- What the disk has: a block under 6, bytes that are none under 8, and nothing else.
abbrev disk : ℕ → Awaited (DataBlock ℕ)
disk h =
    if nat_beq h 6 then arrived (block 2 3) else if nat_beq h 8 then read_failed else never_written

abbrev handed_over : List (List (CommitItem ℕ))
handed_over =
    (resident (block 1 1) ∷ spilled 6 ∷ spilled 8 ∷ [])
    ∷ (resident (block 4 8) ∷ spilled 9 ∷ resident (block 6 9) ∷ [])
    ∷ []

-- The block under 8 is skipped, and what stands behind the hash 9 is not emitted.
parked_at_nine :
    let (c, e) = spawn_committer true disk idle handed_over in
    (e ≡ waiting) × (c.tx_data_commit ≡ (1 ∷ []) ∷ (2 ∷ []) ∷ (4 ∷ []) ∷ []) × (c.emitted_high ≡ 4)
unfolding spawn_committer emit_items block_of emit confirm advance_emitted
parked_at_nine = (refl, refl, refl)

abbrev pub two_linked : ZeusState ℕ
two_linked = record {
  commit_lock = [];
  zeus_committed_high = 0;
  last_committed_hash = 1;
  child_of = (1, 3) ∷ (3, 6) ∷ [];
  data_block_db = record {
    write_tx = [];
    emitted_high = 0;
    meta =
        (3, record { epoch = 1; height = 1; parent_hash = 1; hash = 3 })
        ∷ (6, record { epoch = 1; height = 2; parent_hash = 3; hash = 6 })
        ∷ [];
    cache = [];
    order = [];
    resident_bytes = 0;
    cap_bytes = 100;
    genesis = block 0 0;
    genesis_hash = 1;
  };
  commit_tx = [];
}

pub two_linked-IsClimbing : IsClimbing (λ h. h) two_linked
unfolding lookup
two_linked-IsClimbing p c e = ground (arith, e)

-- Both blocks are handed over, from the disk.
both_handed_over :
    (do t ← on_committed_attestation codec two_linked (attested 6 2); some t.commit_tx)
    ≡ some ((spilled 3 ∷ spilled 6 ∷ []) ∷ [])
unfolding on_committed_attestation lookup cache_get
both_handed_over = refl

on_committed_attestation_lem_example :
    let t = locked two_linked (attested 6 2) in
    ((2 ≤ 0) × (on_committed_attestation codec two_linked (attested 6 2) ≡ some t))
    ⊎ ((hashes : List ℕ) × (last : ℕ) × (top : ℕ) × (0 < 2)
        × IsWalk codec t 2 1 0 hashes last top
        × (on_committed_attestation codec two_linked (attested 6 2)
            ≡ some (committed_to codec t hashes last top)))
on_committed_attestation_lem_example =
    on_committed_attestation_lem codec (λ h. h) two_linked (attested 6 2) two_linked-IsClimbing

run_commits_example :
    let genesis = (start codec 500).last_committed_hash in
    (t : ZeusState ℕ) × (run codec (start codec 500) events ≡ some t)
    × IsChain codec.hash genesis (log_of codec t.commit_tx) t.last_committed_hash
    × IsDistinct (genesis ∷ log_of codec t.commit_tx)
run_commits_example = run_commits codec (λ h. h) (λ e. omega arith) 500 events

spawn_committer_lem_example :
    HasEmitted idle
      (reached true disk (all_items true disk handed_over))
      (end_of true disk (all_items true disk handed_over))
      (spawn_committer true disk idle handed_over)
spawn_committer_lem_example = spawn_committer_lem true disk idle handed_over refl
