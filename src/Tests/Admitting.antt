-- ===== src/Tests/Admitting.antt =====
-- consensus/src/server/zeus/phases/data.rs: a leader that waits, with its head two blocks behind.
use leto_rs.Prelude.{◌>>=◌, ℕ, ◌≡◌, refl, true, false, Option, none, some, [], ◌∷◌, nat_eq, lookup}
use leto_rs.Zeus.Types.{DataBlock}
use leto_rs.Zeus.Store.{get}
use leto_rs.Zeus.Admitting.{DataState, rleader_waits, advance_head_via_child_of, advance_to}
use leto_rs.Tests.Committing.{codec, block, two_linked}

abbrev behind : DataState ℕ ℕ
behind = record {
  zeus = two_linked;
  head_hash = 1;
  head_height = 0;
  my_id = 2;
  num_nodes = 4;
  sig_leader_context = record {
    rng = 0;
    current_round = 1;
    elligible = [];
    history = [];
    current_leader = 2;
    next_leader = 3;
  };
  current_epoch = 1;
  last_seen_data_block = block 0 0;
  latest_eleader_block = none;
  last_attested_data_height = 1;
  eleader_proposed_height = 0;
  data_timer = some rleader_waits;
  rleader_waiting_fresh = true;
  rleader_wakeup_pending = false;
  tx_consensus_to_batcher = [];
}

-- What the disk holds.
abbrev stored : ℕ → Option (DataBlock ℕ)
stored h = lookup h ((3, block 1 1) ∷ (6, block 2 3) ∷ [])

woken_at_second :
    (do t ← advance_head_via_child_of codec stored behind; some t.rleader_wakeup_pending)
    ≡ some true
unfolding advance_head_via_child_of lookup get advance_to
woken_at_second = refl
