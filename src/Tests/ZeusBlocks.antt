-- ===== src/Tests/ZeusBlocks.antt =====
-- consensus/src/server/zeus: admissions, blames and rounds at a committee of four.
use leto_rs.Prelude.{
  ℕ, ◌%◌, ◌≡◌, ◌≢◌, inl, refl, true, false, some, List, [], ◌∷◌, nat_eq, nat_beq_iff, eq_of_some,
  lookup, insert, set_contains, set_insert, set_remove, retain, wrapping_add, arith,
}
use leto_rs.Prelude.Results.{ok, failed, panicked, out_of_fuel, Leaves}
use leto_rs.Types.{empty_certificate, verify_certificate, verify_sigs}
use leto_rs.Leto.RoundContext.{push}
use leto_rs.Leto.LeaderContext
use leto_rs.Leto.LeaderContext.{LeaderContext}
use leto_rs.Leto.ChainState.{add_qc}
use leto_rs.Zeus.Types.{DataBlock, EleaderBlame}
use leto_rs.Zeus.Messages.{data_propose}
use leto_rs.Zeus.Rounds
use leto_rs.Zeus.Rounds.{ZeusRoundState, add_handlers}
use leto_rs.Zeus.Rounds.Delivery.{
  Move, arrive, advance, take, move_all, spec_all, Refines, move_all-Refines,
}
use leto_rs.Zeus.DataChain.Blames.{IsSigned}
use leto_rs.Zeus.DataChain.{
  eleader, eleader_blame_valid, blame_signed_bytes, signed_parts, reason_valid,
  eleader_change_qc_valid, check_blames, epoch_gate_valid, conflicts_data_prefix,
  latest_committed_attestation,
}
use leto_rs.Zeus.Engine.{
  Server, codec, crypto, pk_verify, broadcast, send_all, arm_data_timer, set_data_timer,
}
use leto_rs.Zeus.Engine.Start.{begin, started, initial_data, initial_chain}
use leto_rs.Zeus.Engine.Loop.{net_msg, run, step, dispatch}
use leto_rs.Zeus.Engine.Signing.{on_sig_blame_qc}
use leto_rs.Zeus.Engine.Signing.Stale.{sig_frame, on_sig_blame_qc_lem}
use leto_rs.Zeus.Engine.Changing.{
  on_eleader_blame, accept_blame, already_have, same_reason, try_form_change_qc, form_change_qc,
  signers, leave_epoch, advance_to_epoch, d_star, truncate, purge_blocks, start_batcher,
  admit_change_qc,
}
use leto_rs.Zeus.Engine.Changing.Blocked.{StaysBlocked, on_eleader_blame_blocked}
use leto_rs.Zeus.Engine.Admission.{admit_data_block}
use leto_rs.Zeus.Admitting.{insert_and_advance}
use leto_rs.Zeus.Store.{get, contains, insert_block}
use leto_rs.Zeus.Engine.Blocks.{is_acceptable, on_data_propose}
use leto_rs.Zeus.Engine.Blocks.Equivocation.{old_child_blocks}
use leto_rs.Tests.Leaders.{first}
use leto_rs.Tests.ZeusServer.{events, toy, keys, leaders, calm, silence_by}

-- A block of epoch 1 on the genesis block, whose hash is 1, and one on the block.
abbrev pub block : ℕ → ℕ → ℕ → DataBlock ℕ
block epoch height parent_hash = record {
  envelope = record { epoch = epoch; height = height; payload = 5 ∷ []; parent_hash = parent_hash };
  sig = record { raw = (epoch % 4) ∷ []; signer = epoch % 4 };
}

-- The second block comes first and is parked; the first one brings both in.
abbrev with_child : Server toy
with_child = record calm { pending_data_blocks = (112, block 1 2 112 ∷ []) ∷ [] }

abbrev admitted : Server toy
admitted = elim (admit_data_block toy with_child (block 1 1 1)) [
  | ok t ↦ t
  | failed t ↦ t
  | panicked ↦ calm
  | out_of_fuel ↦ calm
]

-- An empty certificate of round 40 ends round 1.
next_leaders : (c : LeaderContext ℕ) × (LeaderContext.advance_round first leaders ≡ some c)
unfolding LeaderContext.advance_round set_insert set_remove set_contains
next_leaders = (_, refl)

on_sig_blame_qc_lem_example :
    (calm.round_state.got_qc ≡ true → on_sig_blame_qc toy calm 40 empty_certificate ≡ ok calm)
    × (calm.round_state.got_qc ≡ false
        → verify_certificate (pk_verify toy) empty_certificate 40 keys ≡ false
        → on_sig_blame_qc toy calm 40 empty_certificate ≡ failed calm)
    × (calm.round_state.got_qc ≡ false
        → verify_certificate (pk_verify toy) empty_certificate 40 keys ≡ true
        → Leaves
            (λ t. sig_frame toy t ≡ (
              wrapping_add calm.round_state.current_round 1,
              (add_qc calm.sig_chain_state 40 empty_certificate, next_leaders.0),
            ))
            (on_sig_blame_qc toy calm 40 empty_certificate))
unfolding started
on_sig_blame_qc_lem_example =
    on_sig_blame_qc_lem toy calm 40 empty_certificate next_leaders.0 next_leaders.1

empty_verifies : verify_certificate (pk_verify toy) empty_certificate 40 keys ≡ true
unfolding verify_certificate verify_sigs empty_certificate
empty_verifies = refl

-- A blame that nobody signed, behind a valid one.
abbrev unsigned : EleaderBlame ℕ
unsigned = record (silence_by 1) { sig_raw = [] }

abbrev blocked : Server toy
blocked = record calm { eleader_blames = (1, unsigned ∷ []) ∷ [] }

unsigned_invalid :
    eleader_blame_valid (crypto toy) unsigned keys (eleader 1 blocked.data_plane.num_nodes)
    ≢ some true
unfolding eleader_blame_valid lookup blame_signed_bytes signed_parts
unsigned_invalid e = cc

on_eleader_blame_blocked_example :
    Leaves (StaysBlocked toy 1 blocked) (on_eleader_blame toy blocked (silence_by 2))
unfolding started lookup
on_eleader_blame_blocked_example =
    on_eleader_blame_blocked toy blocked (silence_by 2) (unsigned, inl refl, unsigned_invalid)

-- A message of round 3 comes in round 1, one of round 1 is left over, and round 3 comes.
abbrev moves : List (Move ℕ)
moves = arrive 33 3 ∷ arrive 11 1 ∷ advance ∷ take ∷ advance ∷ []

abbrev fresh : ZeusRoundState ℕ ℕ
fresh = Rounds.new 4

fresh-Refines : Refines fresh (1, λ q. [])
unfolding Rounds.new lookup
fresh-Refines = (refl, λ q. ground arith)

move_all-Refines_example : Refines (move_all 16 moves fresh) (spec_all moves (1, λ q. []))
unfolding Rounds.new
move_all-Refines_example = move_all-Refines 16 moves fresh (1, λ q. []) (omega arith) fresh-Refines

-- The eleader of epoch 1 proposes, and two servers blame it.
abbrev replaced : Server toy
replaced = elim (run toy (begin toy calm) (net_msg (data_propose (block 1 1 1) 1) ∷ events)) [
  | ok t ↦ t
  | failed t ↦ t
  | panicked ↦ calm
  | out_of_fuel ↦ calm
]

-- The block of the eleader of epoch 2 on the genesis block, the last committed one, is acceptable, and
-- the genesis block has the first eleader's block as its child.
replaced_lem :
    (is_acceptable toy replaced (block 2 1 1) 2 ≡ true)
    × (lookup 1 replaced.data_plane.zeus.child_of ≡ some 112)
    × (get (codec toy) toy.read_block replaced.data_plane.zeus.data_block_db 112
        ≡ some (block 1 1 1))
    × (replaced.data_plane.current_epoch ≡ 2)
    × (replaced.crypto_system ≡ keys)
    × (eleader 2 replaced.data_plane.num_nodes ≡ 2)
unfolding is_acceptable lookup get run step begin started dispatch on_eleader_blame
    eleader_blame_valid blame_signed_bytes signed_parts reason_valid accept_blame already_have
    same_reason push insert try_form_change_qc form_change_qc signers set_insert set_contains
    eleader_change_qc_valid check_blames eleader broadcast send_all leave_epoch advance_to_epoch
    d_star latest_committed_attestation truncate purge_blocks retain arm_data_timer set_data_timer
    start_batcher wrapping_add admit_change_qc set_remove initial_data initial_chain on_data_propose
    epoch_gate_valid contains conflicts_data_prefix admit_data_block insert_and_advance insert_block
replaced_lem = (refl, refl, refl, refl, refl, refl)

not_by_two : ¬ (IsSigned (crypto toy) keys 2 (toy.as_ref 112) (1 ∷ []))
unfolding lookup
not_by_two (pk, e, v) =
    let same : 2 ≡ pk = eq_of_some 2 pk e in
    let other : 1 ≡ pk = (nat_beq_iff 1 pk).0 v in
    let z : ⊥ = omega (arith, same, other) in elim z [ ]

old_child_blocks_example :
    Leaves (StaysBlocked toy 2 replaced) (on_data_propose toy replaced (block 2 1 1) 2)
unfolding blame_signed_bytes signed_parts
old_child_blocks_example =
    let (acceptable, child, stored, epoch, system, leader) = replaced_lem in
    old_child_blocks toy replaced (block 2 1 1) (block 1 1 1) 2 112 (2 ∷ []) (1 ∷ 2 ∷ []) acceptable
      child (omega arith) stored (rw (system, leader) not_by_two) refl refl
